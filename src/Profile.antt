-- ===== src/Profile.antt =====
-- internal/profile/profile.go: an agent's profile, its file, and the profiles by identifier.
-- encoding/json, the clock and the disk are arguments. The mutex of the manager is not modelled.
pub mod Roles
pub mod Files
pub mod Cards
pub mod Identifiers
pub mod Tasks
mod Examples
use lan_a2a.Prelude.{
  ℕ, zero, suc, ◌+◌, ◌-◌, ◌*◌, ◌/◌, ◌%◌, ◌^◌, ◌≤◌, ◌<◌, String, ◌≡◌, refl, sym, ap, subst, ◌∙◌, ◌≢◌,
  ◌↔◌, ◌⊎◌, inl, inr, Bool, true, false, not, ◌&&◌, ◌||◌, Option, none, some, List, [], ◌∷◌, ◌++◌,
  map, arith, ltb, leb, if◌then◌else◌, Bool-cases, Option-cases, Result-cases, is_some, Eq, ◌==◌,
  nat_eq, string_eq, list_eq, beq_self, beq_ne, Result, ok, err, ◌>>=◌, length, take, drop, filter,
  All, get_elem?, In, In-filter, filter-In, contains, Distinct, length-append, contains-append,
  contains-filter, Bytes, codes,
}
use lan_a2a.Prelude.Int.{ℤ, pos, int_eq}
use lan_a2a.Prelude.GoMap
use lan_a2a.Prelude.GoMap.{GoMap, values, len}

pub record Profile : Type 0 where
  pub id : String
  pub name : String
  pub avatar : String
  pub roles : List String
  pub version : ℤ
  pub created : ℤ
  pub updated : ℤ
  pub tags : List String
  pub metadata : GoMap String String

unfoldable pub validate : Profile → Result (Unit {0})
validate p =
    if p.id == ""
    then err "id is required"
    else if p.name == ""
    then err "name is required"
    else ok tt

-- `now`: time.Now().Unix()
unfoldable pub set_timestamps : ℤ → Profile → Profile
set_timestamps now p = record p {
  created = if p.created == pos 0 then now else p.created;
  updated = now;
  version = if p.version == pos 0 then pos 1 else p.version;
}

unfoldable pub has_role : String → List String → Bool
has_role role [] = false
has_role role (r ∷ roles) = if r == role then true else has_role role roles

unfoldable pub add_role : String → Profile → Profile
add_role role p = if has_role role p.roles then p else record p { roles = p.roles ++ role ∷ [] }

abbrev pub profile_file_name : String
profile_file_name = ".lan-agent-profile.json"

-- What the package calls: `marshal` and `unmarshal` of encoding/json, filepath.Join of a directory
-- and the file's name, and whether a file can be written.
pub record Calls : Type 0 where
  pub marshal : Profile → Result Bytes
  pub unmarshal : Bytes → Result Profile
  pub join : String → String → String
  pub can_write : String → Bool

abbrev Disk : Type 0
Disk = GoMap String Bytes

-- `Save`: the profile, which gets its timestamps in place, the disk, and the result.
unfoldable pub save : Calls → ℤ → Profile → String → Disk → Profile × Disk × Result (Unit {0})
save calls now p dir disk = elim (validate p) [
  | err e ↦ (p, disk, err e)
  | ok u ↦
      let stamped = set_timestamps now p in
      let path = calls.join dir profile_file_name in
      elim (calls.marshal stamped) [
        | err e ↦ (stamped, disk, err e)
        | ok bytes ↦
            if calls.can_write path
            then (stamped, GoMap.put path bytes disk, ok tt)
            else (stamped, disk, err "write")
      ]
]

unfoldable pub load : Calls → String → Disk → Result Profile
load calls dir disk = elim (GoMap.get (calls.join dir profile_file_name) disk) [
  | none ↦ err "read"
  | some bytes ↦ calls.unmarshal bytes
]

pub record Manager : Type 0 where
  pub profiles : GoMap String Profile

unfoldable pub new_manager : Manager
new_manager = record { profiles = [] }

unfoldable pub set : Profile → Manager → Manager
set p m = record m { profiles = GoMap.put p.id p m.profiles }

unfoldable pub lookup : String → Manager → Option Profile
lookup id m = GoMap.get id m.profiles

unfoldable pub remove : String → Manager → Manager
remove id m = record m { profiles = GoMap.del id m.profiles }

unfoldable pub list : Manager → List Profile
list m = values m.profiles

unfoldable pub count : Manager → ℕ
count m = len m.profiles
