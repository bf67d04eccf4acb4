-- ===== src/Profile/Files.antt =====
-- internal/profile/profile.go: the file of a profile.
use lan_a2a.Prelude.{String, ◌≡◌, ◌≢◌, ◌⊎◌, true, arith, nat_eq, string_eq, list_eq, ok, Bytes}
use lan_a2a.Prelude.Int.{ℤ}
use lan_a2a.Prelude.GoMap
use lan_a2a.Prelude.GoMap.{GoMap}
use lan_a2a.Profile.{Profile, Calls, profile_file_name, save, load, validate, set_timestamps}

-- A profile with an identifier and a name, where its JSON reads back as the profile and the file can
-- be written: it is saved without error, and loading from the same directory gives the profile with
-- the timestamps that saving has set. A profile that lacks an identifier or
-- a name is refused, and the disk stays as it was.
pub load-save :
    (calls : Calls) (now : ℤ) (p : Profile) (dir : String) (disk : GoMap String Bytes)
    (bytes : Bytes)
    → calls.marshal (set_timestamps now p) ≡ ok bytes
    → calls.unmarshal bytes ≡ ok (set_timestamps now p)
    → calls.can_write (calls.join dir ".lan-agent-profile.json") ≡ true
    → let (p', disk', r) = save calls now p dir disk in
      (p.id ≢ ""
        → p.name ≢ ""
        → (r ≡ ok tt) × (p' ≡ set_timestamps now p) × (load calls dir disk' ≡ ok p'))
      × ((p.id ≡ "") ⊎ (p.name ≡ "") → (r ≢ ok tt) × (disk' ≡ disk))
unfolding save load validate
load-save calls now p dir disk bytes m u w =
    let path = calls.join dir profile_file_name in
    (
      (λ i n. ground (
        arith,
        string_eq.beq_iff p.id "",
        string_eq.beq_iff p.name "",
        m,
        u,
        w,
        GoMap.get-put path path bytes disk,
        string_eq.beq_iff path path,
      )),
      (λ h. ground (arith, string_eq.beq_iff p.id "", string_eq.beq_iff p.name "")),
    )
