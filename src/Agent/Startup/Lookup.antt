-- ===== src/Agent/Startup/Lookup.antt =====
-- cmd/lan-a2a/main.go: which profile `loadProfile` returns.
use lan_a2a.Prelude.{
  String, ◌≡◌, Option, none, some, List, [], ◌∷◌, ◌++◌, arith, if◌then◌else◌, ◌==◌, nat_eq,
  string_eq, list_eq, ok, err, Bytes,
}
use lan_a2a.Prelude.GoMap.{GoMap}
use lan_a2a.Profile.{Calls, Profile, load}
use lan_a2a.Agent.Startup.{
  Machine, with_id, fallback, create_default, load_here, load_from_dir, load_profile,
}

-- The directories, in the order in which they are tried.
abbrev pub if_given : String → String → List String
if_given flag dir = if flag == "" then [] else dir ∷ []

abbrev pub places : Machine → String → String → List String
places w profile_dir profile_path =
    if_given profile_path (w.dir_of profile_path)
    ++ (if_given profile_dir profile_dir ++ "." ∷ if_given w.home (w.lan_a2a_in w.home))

unfoldable pub first_loaded : Calls → GoMap String Bytes → List String → Option Profile
first_loaded calls disk [] = none
first_loaded calls disk (dir ∷ dirs) = elim (load calls dir disk) [
  | ok p ↦ some p
  | err e ↦ first_loaded calls disk dirs
]

abbrev pub or_new :
    Machine → String → GoMap String Bytes → Option Profile → GoMap String Bytes × Profile
or_new w id disk (some p) = (disk, with_id id p)
or_new w id disk none = if w.home == "" then (disk, fallback w id) else create_default w id disk

-- The profile is the first that loads from the places; when none loads, a new one is made.
pub load_profile-first :
    (w : Machine) (id profile_dir profile_path : String) (disk : GoMap String Bytes)
    → load_profile w id profile_dir profile_path disk
      ≡ or_new w id disk (first_loaded w.calls disk (places w profile_dir profile_path))
unfolding load_profile load_from_dir load_here first_loaded
load_profile-first w id profile_dir profile_path disk = ground arith
