-- ===== src/FileTransfer/Interleaving/Examples.antt =====
-- internal/filetransfer/transfer.go: two files that arrive at the same time.
use lan_a2a.Prelude.{
  String, ◌≡◌, refl, ap, ◌≢◌, true, false, none, some, List, [], ◌∷◌, arith, ◌==◌, nat_eq,
  string_eq, list_eq, beq_self, All, Bytes, codes,
}
use lan_a2a.Prelude.GoMap
use lan_a2a.Prelude.Int.{pos}
use lan_a2a.FileTransfer.{
  FilePath, IncomingFile, Manager, Os, incoming_file, sanitize_filename, join, download_dir,
}
use lan_a2a.FileTransfer.Pieces.{piece}
use lan_a2a.FileTransfer.Recording.{IsCount}
use lan_a2a.FileTransfer.Interleaving.{
  AreApart, Arrival, ArrivesApart, announces, arrive_all, brings, own,
}
use lan_a2a.FileTransfer.Interleaving.Independence.{arrive_all-independent, arrive_all-restores}

abbrev disk_ok : Os
disk_ok = record {
  home = codes "me" ∷ codes "home" ∷ [];
  can_create = λ p. true;
  fails_after = λ p o b. none;
}

abbrev idle : Manager
idle = record { agent_id = "b"; incoming = []; has_on_complete = true; disk = []; completed = [] }

abbrev note : Bytes
note = codes "hello"

abbrev path_of : String → FilePath
path_of name = (incoming_file disk_ok 0 (codes "ch-1") "a" (codes name) 5 1).local_path

abbrev mixed : List Arrival
mixed =
    announces true 0 (codes "ch-1") "m1" "a" (codes "n.txt") 5 1
    ∷ announces true 0 (codes "ch-1") "m2" "c" (codes "o.txt") 2 1
    ∷ brings "m2" (pos 7) (codes "yo")
    ∷ brings "m1" (pos 0) (piece note 0)
    ∷ brings "m3" (pos 0) []
    ∷ brings "m1" (pos 0) (piece note 0)
    ∷ []

other_path : (path_of "o.txt" == path_of "n.txt") ≡ false
unfolding incoming_file sanitize_filename join download_dir
other_path = refl

ne_of_beq : (p q : FilePath) → (p == q) ≡ false → p ≢ q
ne_of_beq p q e h = ground (arith, e, beq_self q, ap (λ (x : FilePath). x == q) h)

mixed-apart : All (ArrivesApart disk_ok "m1" (path_of "n.txt")) mixed
unfolding incoming_file
mixed-apart = (
  ((λ p. refl), (λ n. absurd (n refl))),
  (
    (
      (λ p. absurd (ground (arith, p, string_eq.beq_iff "m2" "m1"))),
      (λ n. ne_of_beq (path_of "o.txt") (path_of "n.txt") other_path),
    ),
    (tt, (tt, (tt, (tt, tt)))),
  ),
)

idle-apart : AreApart "m1" (path_of "n.txt") idle
idle-apart j fi e = absurd (ground (arith, e, GoMap.get-nil {V = IncomingFile} j))

arrive_all-independent_example :
    let end = arrive_all disk_ok mixed idle in
    let alone = arrive_all disk_ok (own "m1" mixed) idle in
    (GoMap.get "m1" end.incoming ≡ GoMap.get "m1" alone.incoming)
    × (GoMap.get (path_of "n.txt") end.disk ≡ GoMap.get (path_of "n.txt") alone.disk)
arrive_all-independent_example =
    arrive_all-independent disk_ok "m1" (path_of "n.txt") mixed idle mixed-apart idle-apart

note-IsCount : IsCount note 1
note-IsCount = record { covers = omega arith; needed = λ k lt. omega arith; fits = omega arith }

arrive_all-restores_example :
    GoMap.get (path_of "n.txt") (arrive_all disk_ok mixed idle).disk ≡ some note
arrive_all-restores_example =
    arrive_all-restores disk_ok 0 idle (codes "ch-1") "m1" "a" (codes "n.txt") note 1 (0 ∷ 0 ∷ [])
      mixed refl mixed-apart idle-apart (λ p o b. refl) refl note-IsCount (omega arith) refl refl
      (omega arith, (omega arith, tt)) (λ k lt. ground arith)
