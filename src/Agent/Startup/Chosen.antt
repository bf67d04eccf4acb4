-- ===== src/Agent/Startup/Chosen.antt =====
-- cmd/lan-a2a/main.go: the profile that `loadProfile` returns, and what it leaves on the disk.
use lan_a2a.Prelude.{
  String, ◌≡◌, refl, ap, subst, ◌∙◌, inl, inr, Option, none, some, [], ◌∷◌, arith, if◌then◌else◌,
  Bool-cases, ◌==◌, nat_eq, string_eq, list_eq, Result, ok, err, Bytes, append_text,
}
use lan_a2a.Prelude.Int.{pos, int_eq}
use lan_a2a.Prelude.GoMap
use lan_a2a.Prelude.GoMap.{GoMap}
use lan_a2a.Profile.{Profile, profile_file_name, set_timestamps, save, validate}
use lan_a2a.Agent.Startup.{
  Machine, agent_id, create_default, default_profile, fallback, load_profile, with_id,
}
use lan_a2a.Agent.Startup.Lookup.{first_loaded, places, or_new, load_profile-first}
use lan_a2a.Agent.Startup.Created.{agent_id-nonempty, host-nonempty, validate-nonempty}

-- A profile under the identifier that is given, if one is.
abbrev pub named : String → Profile → Profile
named id p = record p { id = if id == "" then p.id else id }

-- The profile that is made without a home directory.
abbrev pub bare : Machine → String → Profile
bare w id =
    let name = if w.hostname == "" then "agent" else w.hostname in
    record {
      id = if id == "" then append_text name (append_text "-" w.pid) else id;
      name = name;
      avatar = "";
      roles = "general" ∷ [];
      version = pos 0;
      created = pos 0;
      updated = pos 0;
      tags = [];
      metadata = [];
    }

-- The one that is made with a home directory.
abbrev pub first_profile : Machine → String → Profile
first_profile w id = record (bare w id) {
  version = pos 1;
  created = if w.now == pos 0 then w.later else w.now;
  updated = w.later;
  metadata = ("description", "LanA2A agent") ∷ [];
}

-- The disk with a profile, when it can be encoded and its file written.
abbrev pub stored : Machine → Profile → Result Bytes → GoMap String Bytes → GoMap String Bytes
stored w p (err e) disk = disk
stored w p (ok bytes) disk =
    let path = w.calls.join (w.lan_a2a_in w.home) profile_file_name in
    if w.calls.can_write path then GoMap.put path bytes disk else disk

abbrev pub chosen :
    Machine → String → GoMap String Bytes → Option Profile → GoMap String Bytes × Profile
chosen w id disk (some p) = (disk, named id p)
chosen w id disk none = if w.home == "" then (disk, bare w id) else (
  stored w (first_profile w id) (w.calls.marshal (first_profile w id)) disk,
  first_profile w id,
)

named-with_id : (id : String) (p : Profile) → with_id id p ≡ named id p
unfolding with_id
named-with_id id p = elim (Bool-cases (id == "")) [
  | inl e ↦ rw (e, with_id) refl
  | inr e ↦ rw (e, with_id) refl
]

fallback-bare : (w : Machine) (id : String) → fallback w id ≡ bare w id
unfolding fallback agent_id
fallback-bare w id = refl

twice-first_profile :
    (w : Machine) (id : String)
    → set_timestamps w.later (set_timestamps w.now (default_profile w id)) ≡ first_profile w id
unfolding set_timestamps fallback agent_id
twice-first_profile w id = refl

swapped : Profile × GoMap String Bytes × Result (Unit {0}) → GoMap String Bytes × Profile
swapped (saved, disk, r) = (disk, saved)

save-stored :
    (w : Machine) (p q : Profile) (disk : GoMap String Bytes)
    → validate p ≡ ok tt
    → set_timestamps w.later p ≡ q
    → swapped (save w.calls w.later p (w.lan_a2a_in w.home) disk)
      ≡ (stored w q (w.calls.marshal q) disk, q)
unfolding save swapped
save-stored w p q disk v s =
    subst
      (λ (x : Profile).
        swapped (save w.calls w.later p (w.lan_a2a_in w.home) disk)
        ≡ (stored w x (w.calls.marshal x) disk, x))
      s (ground (arith, v))

create_default-stored :
    (w : Machine) (id : String) (disk : GoMap String Bytes)
    → create_default w id disk ≡ (
      stored w (first_profile w id) (w.calls.marshal (first_profile w id)) disk,
      first_profile w id,
    )
unfolding create_default set_timestamps swapped
create_default-stored w id disk =
    let p = set_timestamps w.now (default_profile w id) in
    save-stored w p (first_profile w id) disk
      (validate-nonempty p (agent_id-nonempty w id) (host-nonempty w)) (twice-first_profile w id)

chosen-or_new :
    (w : Machine) (id : String) (disk : GoMap String Bytes) (found : Option Profile)
    → or_new w id disk found ≡ chosen w id disk found
chosen-or_new w id disk (some p) = ap (λ (q : Profile). (disk, q)) (named-with_id id p)
chosen-or_new w id disk none = elim (Bool-cases (w.home == "")) [
  | inl e ↦ rw e (ap (λ (q : Profile). (disk, q)) (fallback-bare w id))
  | inr e ↦ rw e (create_default-stored w id disk)
]

-- The profile is the first that loads from the directory of the exact path, the directory that is
-- given, the current one and `.lan-a2a` in the home directory, in this order, those that are not given
-- left out; it then bears the identifier that is given, if one is, and the disk stays as it is. When none
-- loads, a new profile is made: with the identifier that is given, or else the name of the host and the
-- number of the process. When there is a home directory, it is stamped with version 1 and the times, and
-- its file is written in `.lan-a2a` there, if it can be encoded and written; without one, the disk stays
-- as it is.
pub load_profile-chosen :
    (w : Machine) (id profile_dir profile_path : String) (disk : GoMap String Bytes)
    → load_profile w id profile_dir profile_path disk
      ≡ chosen w id disk (first_loaded w.calls disk (places w profile_dir profile_path))
load_profile-chosen w id profile_dir profile_path disk =
    load_profile-first w id profile_dir profile_path disk
    ∙ chosen-or_new w id disk (first_loaded w.calls disk (places w profile_dir profile_path))
