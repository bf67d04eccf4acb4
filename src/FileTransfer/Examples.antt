-- ===== src/FileTransfer/Examples.antt =====
-- The theorems about internal/filetransfer/transfer.go at concrete transfers.
use lan_a2a.Prelude.{
  ℕ, ◌<◌, String, ◌≡◌, refl, ◌≢◌, true, none, some, List, [], ◌∷◌, arith, if◌then◌else◌, nat_eq,
  string_eq, list_eq, contains, Bytes, codes,
}
use lan_a2a.Prelude.GoMap
use lan_a2a.FileTransfer.{
  Os, Manager, ReadEnd, more, eof, sanitize_filename, prepare_incoming, split_file, is_empty,
}
use lan_a2a.FileTransfer.Names.{IsPlain, sanitize_filename-IsPlain}
use lan_a2a.FileTransfer.Recording.{IsCount, deliver}
use lan_a2a.FileTransfer.Reassembly.{deliver-restores}
use lan_a2a.FileTransfer.Splitting.{bytes_read, concat, split_file-concat}

abbrev disk_ok : Os
disk_ok = record {
  home = codes "me" ∷ codes "home" ∷ [];
  can_create = λ p. true;
  fails_after = λ p o b. none;
}

abbrev idle : Manager
idle = record { agent_id = "b"; incoming = []; has_on_complete = true; disk = []; completed = [] }

-- A name that leads up and away keeps only its last element.
traversal_is_cut : sanitize_filename (codes "../../etc/passwd") ≡ codes "passwd"
unfolding sanitize_filename
traversal_is_cut = refl

odd_names :
    (sanitize_filename (codes "a/..") ≡ codes "unnamed")
    × (sanitize_filename (codes "//") ≡ codes "unnamed")
    × (sanitize_filename [] ≡ codes "unnamed")
    × (sanitize_filename (codes "dir/f/") ≡ codes "f")
unfolding sanitize_filename
odd_names = (refl, refl, refl, refl)

sanitize_filename-IsPlain_example : IsPlain (sanitize_filename (codes "a/b/.."))
sanitize_filename-IsPlain_example = sanitize_filename-IsPlain (codes "a/b/..")

abbrev note : Bytes
note = codes "hello"

note-IsCount : IsCount note 1
note-IsCount = record { covers = omega arith; needed = λ k lt. omega arith; fits = omega arith }

deliver-restores_example :
    let (start, path) =
      prepare_incoming disk_ok 0 idle (codes "ch-1") "m1" "a" (codes "n.txt") 5 1 in
    let end = deliver disk_ok "m1" note start (0 ∷ 0 ∷ []) in
    (end.completed ≢ [] → GoMap.get path end.disk ≡ some note)
    × (((k : ℕ) → k < 1 → contains k (0 ∷ 0 ∷ []) ≡ true) → end.completed ≢ [])
deliver-restores_example =
    deliver-restores disk_ok 0 idle (codes "ch-1") "m1" "a" (codes "n.txt") note 1 (0 ∷ 0 ∷ [])
      (λ p o b. refl) refl note-IsCount (omega arith) refl refl (omega arith)

-- A hash for the tests: no more than the length is needed of it.
abbrev digest : Bytes → String
digest b = if is_empty b then "empty" else "full"

abbrev short_reads : List (Bytes × ReadEnd)
short_reads = (codes "he", more) ∷ ([], more) ∷ (codes "llo", eof) ∷ []

split_file-concat_example :
    let s = split_file digest (some 5) short_reads in
    (concat s.chunks ≡ bytes_read short_reads)
    × (s.checksum ≡ digest (bytes_read short_reads))
    × (s.size ≡ 5)
    × (s.error ≡ none)
split_file-concat_example = split_file-concat digest 5 short_reads tt
