-- ===== src/Agent/Startup/Created.antt =====
-- cmd/lan-a2a/main.go: the profile that `loadProfile` makes, at the next start.
use lan_a2a.Prelude.{
  ◌++◌, codes, append_text, length, subst, err, Result, ◌≢◌, Option, sym, String, ◌≡◌, refl, ap,
  ◌∙◌, inl, inr, true, none, some, List, [], ◌∷◌, arith, if◌then◌else◌, Bool-cases, ◌==◌, nat_eq,
  string_eq, list_eq, ok, In, Bytes,
}
use lan_a2a.Prelude.Int.{ℤ, int_eq}
use lan_a2a.Prelude.GoMap
use lan_a2a.Prelude.GoMap.{GoMap, get-put}
use lan_a2a.Profile.{save, Calls, validate, Profile, load, set_timestamps, profile_file_name}
use lan_a2a.Agent.Startup.{
  with_id, load_profile, agent_id, create_default, default_profile, host, Machine,
}
use lan_a2a.Agent.Startup.Lookup.{places, first_loaded, if_given, or_new, load_profile-first}

abbrev read_from : Machine → Option Bytes → Result Profile
read_from w none = err "read"
read_from w (some bytes) = w.calls.unmarshal bytes

load-get :
    (w : Machine) (d : String) (disk : GoMap String Bytes)
    → load w.calls d disk ≡ read_from w (GoMap.get (w.calls.join d profile_file_name) disk)
unfolding load
load-get w d disk = elim (GoMap.get (w.calls.join d profile_file_name) disk) [
  | none ↦ refl
  | some bytes ↦ refl
]

load-put :
    (w : Machine) (dir d : String) (bytes : Bytes) (p : Profile) (disk : GoMap String Bytes)
    → w.calls.unmarshal bytes ≡ ok p
    → load w.calls d (GoMap.put (w.calls.join dir profile_file_name) bytes disk) ≡ (
        if w.calls.join dir profile_file_name == w.calls.join d profile_file_name
        then ok p
        else load w.calls d disk)
load-put w dir d bytes p disk u =
    let path = w.calls.join dir profile_file_name in
    let path' = w.calls.join d profile_file_name in
    load-get w d (GoMap.put path bytes disk)
    ∙ ap (read_from w) (get-put path path' bytes disk)
    ∙ elim (Bool-cases (path == path')) [
      | inl q ↦ rw (q, u) refl
      | inr q ↦ rw (q) (sym (load-get w d disk))
    ]

first_loaded-put :
    (w : Machine) (dir : String) (bytes : Bytes) (p : Profile) (disk : GoMap String Bytes)
    (dirs : List String)
    → w.calls.unmarshal bytes ≡ ok p
    → first_loaded w.calls disk dirs ≡ none
    → In dir dirs
    → first_loaded w.calls (GoMap.put (w.calls.join dir profile_file_name) bytes disk) dirs ≡ some p
unfolding first_loaded
first_loaded-put w dir bytes p disk [] u n i = absurd i
first_loaded-put w dir bytes p disk (d ∷ dirs) u n i = ground (
  arith,
  n,
  i,
  load-put w dir d bytes p disk u,
  λ (q : dir ≡ d). ap (λ x. w.calls.join x profile_file_name) q,
  string_eq.beq_iff (w.calls.join dir profile_file_name) (w.calls.join d profile_file_name),
  first_loaded-put w dir bytes p disk dirs u,
)

pub append_text-nonempty : (s t : String) → s ≢ "" → append_text s t ≢ ""
append_text-nonempty String.[] t n h = n refl
append_text-nonempty (String.◌∷◌ c s) t n h = ground (arith, ap (λ x. length (codes x)) h)

pub host-nonempty : (w : Machine) → host w ≢ ""
host-nonempty w h = elim (Bool-cases (w.hostname == "")) [
  | inl q ↦ ground (
    arith,
    string_eq.beq_iff "agent" "",
    subst (λ b. (if b then "agent" else w.hostname) ≡ "") q h,
  )
  | inr q ↦ ground (
    arith,
    q,
    string_eq.beq_iff w.hostname "",
    subst (λ b. (if b then "agent" else w.hostname) ≡ "") q h,
  )
]

pub agent_id-nonempty : (w : Machine) (id : String) → agent_id w id ≢ ""
unfolding agent_id
agent_id-nonempty w id h = elim (Bool-cases (id == "")) [
  | inl q ↦
      append_text-nonempty (host w) (append_text "-" w.pid) (host-nonempty w)
        (subst (λ b. (if b then append_text (host w) (append_text "-" w.pid) else id) ≡ "") q h)
  | inr q ↦ ground (
    arith,
    q,
    string_eq.beq_iff id "",
    subst (λ b. (if b then append_text (host w) (append_text "-" w.pid) else id) ≡ "") q h,
  )
]

pub validate-nonempty : (p : Profile) → p.id ≢ "" → p.name ≢ "" → validate p ≡ ok tt
unfolding validate
validate-nonempty p i n =
    ground (arith, i, n, string_eq.beq_iff p.id "", string_eq.beq_iff p.name "")

save-stamped :
    (calls : Calls) (now : ℤ) (p q : Profile) (dir : String) (disk : GoMap String Bytes)
    (bytes : Bytes)
    → validate p ≡ ok tt
    → set_timestamps now p ≡ q
    → calls.marshal q ≡ ok bytes
    → calls.can_write (calls.join dir profile_file_name) ≡ true
    → save calls now p dir disk
      ≡ (q, GoMap.put (calls.join dir profile_file_name) bytes disk, ok tt)
unfolding save
save-stamped calls now p q dir disk bytes v s m c =
    rw (save, v, ap calls.marshal s ∙ m, c)
      (ap (λ x. (x, GoMap.put (calls.join dir profile_file_name) bytes disk, ok tt)) s)

create_default-eq :
    (w : Machine) (id : String) (disk : GoMap String Bytes) (bytes : Bytes)
    → let p = set_timestamps w.later (set_timestamps w.now (default_profile w id)) in
      let path = w.calls.join (w.lan_a2a_in w.home) profile_file_name in
      w.calls.marshal p ≡ ok bytes
      → w.calls.can_write path ≡ true
      → create_default w id disk ≡ (GoMap.put path bytes disk, p)
unfolding create_default set_timestamps
create_default-eq w id disk bytes m c =
    let p = set_timestamps w.later (set_timestamps w.now (default_profile w id)) in
    ap (λ (x : Profile × GoMap String Bytes × Result (Unit {0})). (x.1, x.0))
      (save-stamped w.calls w.later (set_timestamps w.now (default_profile w id)) p
        (w.lan_a2a_in w.home) disk bytes
        (validate-nonempty (set_timestamps w.now (default_profile w id)) (agent_id-nonempty w id)
          (host-nonempty w))
        refl m c)

In-append-right : (x : String) (xs ys : List String) → In x ys → In x (xs ++ ys)
In-append-right x [] ys i = i
In-append-right x (y ∷ xs) ys i = inr (In-append-right x xs ys i)

if_given-In : (flag dir : String) → flag ≢ "" → In dir (if_given flag dir)
if_given-In flag dir h = elim (Bool-cases (flag == "")) [
  | inl q ↦ absurd (h ((string_eq.beq_iff flag "").0 q))
  | inr q ↦ rw (q) (inl refl)
]

home-In :
    (w : Machine) (profile_dir profile_path : String)
    → w.home ≢ ""
    → In (w.lan_a2a_in w.home) (places w profile_dir profile_path)
home-In w profile_dir profile_path h =
    In-append-right (w.lan_a2a_in w.home) (if_given profile_path (w.dir_of profile_path))
      (if_given profile_dir profile_dir ++ "." ∷ if_given w.home (w.lan_a2a_in w.home))
      (In-append-right (w.lan_a2a_in w.home) (if_given profile_dir profile_dir)
        ("." ∷ if_given w.home (w.lan_a2a_in w.home))
        (inr (if_given-In w.home (w.lan_a2a_in w.home) h)))

or_new-home :
    (w : Machine) (id : String) (disk : GoMap String Bytes)
    → w.home ≢ ""
    → or_new w id disk none ≡ create_default w id disk
or_new-home w id disk h = elim (Bool-cases (w.home == "")) [
  | inl q ↦ absurd (h ((string_eq.beq_iff w.home "").0 q))
  | inr q ↦ rw (q) refl
]

-- When no profile is found and there is a home directory that can be written, the profile that is made
-- is what every later start finds, with the same flags for the places, whatever the process, the host's
-- name and the time then are: it changes nothing on the disk, and the identifier is the one that was
-- made unless another is given. What encoding/json writes of the profile, it reads.
pub load_profile-again :
    (w : Machine) (id id' profile_dir profile_path hostname' pid' : String) (now' later' : ℤ)
    (disk : GoMap String Bytes) (bytes : Bytes)
    → let p = set_timestamps w.later (set_timestamps w.now (default_profile w id)) in
      first_loaded w.calls disk (places w profile_dir profile_path) ≡ none
      → w.home ≢ ""
      → w.calls.marshal p ≡ ok bytes
      → w.calls.unmarshal bytes ≡ ok p
      → w.calls.can_write (w.calls.join (w.lan_a2a_in w.home) profile_file_name) ≡ true
      → let (disk', made) = load_profile w id profile_dir profile_path disk in
        let w' = record w { hostname = hostname'; pid = pid'; now = now'; later = later' } in
        (made ≡ p) × (load_profile w' id' profile_dir profile_path disk' ≡ (disk', with_id id' p))
load_profile-again w id id' profile_dir profile_path hostname' pid' now' later' disk bytes n h m u
      c =
    let w' = record w { hostname = hostname'; pid = pid'; now = now'; later = later' } in
    let p = set_timestamps w.later (set_timestamps w.now (default_profile w id)) in
    let dir = w.lan_a2a_in w.home in
    let disk' = GoMap.put (w.calls.join dir profile_file_name) bytes disk in
    let made : load_profile w id profile_dir profile_path disk ≡ (disk', p) =
      load_profile-first w id profile_dir profile_path disk
      ∙ ap (or_new w id disk) n
      ∙ or_new-home w id disk h
      ∙ create_default-eq w id disk bytes m c in
    (
      ap (λ r. r.1) made,
      ap (λ r. load_profile w' id' profile_dir profile_path r.0) made
          ∙ load_profile-first w' id' profile_dir profile_path disk'
          ∙ ap (or_new w' id' disk') (
              first_loaded-put w dir bytes p disk (places w profile_dir profile_path) u n
                (home-In w profile_dir profile_path h))
          ∙ ap (λ r. (r.0, with_id id' p)) (sym made),
    )
