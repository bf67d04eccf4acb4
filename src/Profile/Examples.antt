-- ===== src/Profile/Examples.antt =====
-- internal/profile/profile.go and internal/adapter/adapter.go: the theorems at concrete profiles.
use lan_a2a.Prelude.{
  ◌≡◌, refl, true, [], ◌∷◌, if◌then◌else◌, ◌==◌, string_eq, list_eq, nat_eq, ok, err, codes,
}
use lan_a2a.Prelude.Int.{pos}
use lan_a2a.Profile.{Profile, Calls, set_timestamps}
use lan_a2a.Profile.Identifiers.{IsUuid, dash, mark_version, new_id, new_id-IsUuid, with_marks}
use lan_a2a.Prelude.{
  of_hex, to_hex, filter, not, codes, leb, arith, ℕ, ◌+◌, ◌*◌, ◌<◌, if◌then◌else◌, ◌==◌,
}

abbrev alice : Profile
alice = record {
  id = "a1";
  name = "Alice";
  avatar = "";
  roles = "frontend" ∷ "react" ∷ [];
  version = pos 0;
  created = pos 0;
  updated = pos 0;
  tags = [];
  metadata = ("description", "designer") ∷ [];
}

-- A JSON that knows one profile.
abbrev json : Calls
json = record {
  marshal = λ p. ok (codes p.name);
  unmarshal = λ b. if b == codes "Alice" then ok (set_timestamps (pos 99) alice) else err "syntax";
  join = λ dir name. dir;
  can_write = λ path. true;
}

marshalled : json.marshal (set_timestamps (pos 99) alice) ≡ ok (codes "Alice")
unfolding set_timestamps
marshalled = refl

abbrev random : ℕ → ℕ
random j = if leb 16 j then 0 else 16 * j + 15

random_byte : (j : ℕ) → random j < 256
random_byte j = ground arith

uuid : new_id random ≡ codes "0f1f2f3f-4f5f-4f7f-8f9f-afbfcfdfefff"
unfolding new_id mark_version to_hex
uuid = refl

new_id-IsUuid_example :
    IsUuid (new_id random)
    × (of_hex (filter (λ c. not (c == dash)) (new_id random)) ≡ with_marks random)
new_id-IsUuid_example = new_id-IsUuid random random_byte
