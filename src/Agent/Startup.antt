-- ===== src/Agent/Startup.antt =====
-- cmd/lan-a2a/main.go: the profile that an agent starts with, and its identifier and port.
pub mod Lookup
pub mod Created
pub mod Chosen
mod Examples
use lan_a2a.Prelude.{
  ℕ, zero, suc, ◌+◌, ◌-◌, ◌*◌, ◌/◌, ◌%◌, ◌^◌, ◌≤◌, ◌<◌, String, ◌≡◌, refl, sym, ap, subst, ◌∙◌, ◌≢◌,
  ◌↔◌, ◌⊎◌, inl, inr, Bool, true, false, not, ◌&&◌, ◌||◌, Option, none, some, List, [], ◌∷◌, ◌++◌,
  map, arith, ltb, leb, if◌then◌else◌, Bool-cases, Option-cases, Result-cases, is_some, Eq, ◌==◌,
  nat_eq, string_eq, list_eq, beq_self, beq_ne, Result, ok, err, ◌>>=◌, length, take, drop, filter,
  All, get_elem?, In, In-filter, filter-In, contains, Distinct, length-append, contains-append,
  contains-filter, Bytes, codes, cons_unless_blank, trim_space, trim_left, trim_right, split_words,
  cons_word, space, is_space, append_text, fields, join_words, Distinct-append_one,
}
use lan_a2a.Prelude.Int.{ℤ, pos}
use lan_a2a.Prelude.GoMap
use lan_a2a.Prelude.GoMap.{GoMap}
use lan_a2a.Profile.{Profile, Calls, load, save, set_timestamps}

-- What `loadProfile` meets: filepath.Dir, filepath.Join with `.lan-a2a`, the home directory and the
-- host's name (empty when there is none), the number of the process, as text, and the clock,
-- when the default profile is made and when it is saved.
pub record Machine : Type 0 where
  pub calls : Calls
  pub dir_of : String → String
  pub lan_a2a_in : String → String
  pub home : String
  pub hostname : String
  pub pid : String
  pub now : ℤ
  pub later : ℤ

abbrev Disk : Type 0
Disk = GoMap String Bytes

unfoldable pub with_id : String → Profile → Profile
with_id id p = if id == "" then p else record p { id = id }

abbrev pub host : Machine → String
host w = if w.hostname == "" then "agent" else w.hostname

unfoldable pub agent_id : Machine → String → String
agent_id w id = if id == "" then append_text (host w) (append_text "-" w.pid) else id

abbrev pub fallback : Machine → String → Profile
unfolding agent_id
fallback w id = record {
  id = agent_id w id;
  name = host w;
  avatar = "";
  roles = "general" ∷ [];
  version = pos 0;
  created = pos 0;
  updated = pos 0;
  tags = [];
  metadata = [];
}

abbrev pub default_profile : Machine → String → Profile
default_profile w id = record (fallback w id) { metadata = ("description", "LanA2A agent") ∷ [] }

-- `SetTimestamps`, and then `Save`, which sets them again; its error is dropped.
unfoldable pub create_default : Machine → String → Disk → Disk × Profile
unfolding agent_id
create_default w id disk =
    let p = set_timestamps w.now (default_profile w id) in
    let (saved, disk', r) = save w.calls w.later p (w.lan_a2a_in w.home) disk in (disk', saved)

-- The third, fourth and fifth places.
unfoldable pub load_here : Machine → String → Disk → Disk × Profile
unfolding create_default with_id
load_here w id disk = elim (load w.calls "." disk) [
  | ok p ↦ (disk, with_id id p)
  | err e ↦
      if w.home == ""
      then (disk, fallback w id)
      else elim (load w.calls (w.lan_a2a_in w.home) disk) [
        | ok p ↦ (disk, with_id id p)
        | err e' ↦ create_default w id disk
      ]
]

unfoldable pub load_from_dir : Machine → String → String → Disk → Disk × Profile
unfolding load_here
load_from_dir w id profile_dir disk =
    if profile_dir == "" then load_here w id disk else elim (load w.calls profile_dir disk) [
      | ok p ↦ (disk, with_id id p)
      | err e ↦ load_here w id disk
    ]

-- `loadProfile`: of an exact path, only the directory is used.
unfoldable pub load_profile : Machine → String → String → String → Disk → Disk × Profile
unfolding load_from_dir
load_profile w id profile_dir profile_path disk =
    if profile_path == ""
    then load_from_dir w id profile_dir disk
    else elim (load w.calls (w.dir_of profile_path) disk) [
      | ok p ↦ (disk, with_id id p)
      | err e ↦ load_from_dir w id profile_dir disk
    ]

-- The beginning of `main`: the identifier and the port, from the flags.
unfoldable pub identity : Machine → String → ℕ → ℕ → Profile → String × ℕ
identity w id port pid prof =
    (if id == "" then prof.id else id, if port == 0 then 19100 + pid % 1000 else port)

-- `profString`
unfoldable pub prof_string : Profile → String
prof_string p = append_text p.name (append_text " (" (append_text p.id ")"))
