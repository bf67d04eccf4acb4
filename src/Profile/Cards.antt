-- ===== src/Profile/Cards.antt =====
-- internal/adapter/adapter.go: the agent card of a profile, and the profile of a card.
use lan_a2a.Prelude.{
  arith, String, ◌≡◌, refl, Bool, true, false, none, some, List, [], ◌∷◌, nat_eq, string_eq,
  list_eq, err,
}
use lan_a2a.Prelude.Int.{pos}
use lan_a2a.Prelude.GoMap
use lan_a2a.Prelude.GoMap.{GoMap}
use lan_a2a.Profile.{Profile, validate}

pub record AgentCapabilities : Type 0 where
  pub streaming : Bool
  pub push_notifications : Bool
  pub state_transition_history : Bool

pub record Skill : Type 0 where
  pub id : String
  pub name : String
  pub description : String
  pub tags : List String
  pub examples : List String

pub record AgentCard : Type 0 where
  pub name : String
  pub description : String
  pub url : String
  pub version : String
  pub capabilities : AgentCapabilities
  pub skills : List Skill
  pub default_input_modes : List String
  pub default_output_modes : List String

-- m[k] of a map to strings: "" where the key is missing.
abbrev pub entry : String → GoMap String String → String
entry k m = elim (GoMap.get k m) [ none ↦ "" | some v ↦ v ]

unfoldable pub profile_to_skills : List String → List Skill
profile_to_skills [] = []
profile_to_skills (role ∷ roles) =
    record { id = role; name = role; description = ""; tags = []; examples = [] }
    ∷ profile_to_skills roles

unfoldable pub profile_to_card : Profile → String → AgentCard
profile_to_card p addr = record {
  name = p.name;
  description = entry "description" p.metadata;
  url = addr;
  version = "0.1.0";
  capabilities = record {
    streaming = true;
    push_notifications = false;
    state_transition_history = false;
  };
  skills = profile_to_skills p.roles;
  default_input_modes = "text" ∷ [];
  default_output_modes = "text" ∷ [];
}

unfoldable pub card_to_roles : List Skill → List String
card_to_roles [] = []
card_to_roles (skill ∷ skills) = skill.id ∷ card_to_roles skills

unfoldable pub card_to_profile : AgentCard → Profile
card_to_profile card = record {
  id = "";
  name = card.name;
  avatar = "";
  roles = card_to_roles card.skills;
  version = pos 0;
  created = pos 0;
  updated = pos 0;
  tags = [];
  metadata = ("description", card.description) ∷ ("url", card.url) ∷ ("version", card.version) ∷ [];
}

card_to_roles-profile_to_skills :
    (roles : List String) → card_to_roles (profile_to_skills roles) ≡ roles
unfolding card_to_roles profile_to_skills
card_to_roles-profile_to_skills [] = refl
card_to_roles-profile_to_skills (r ∷ roles) = ground (arith, card_to_roles-profile_to_skills roles)

-- A profile that goes through its card keeps its name, its roles in their order and its description,
-- and the address becomes the entry "url"; but its identifier is lost, and a profile without an
-- identifier does not validate.
pub card_to_profile-profile_to_card :
    (p : Profile) (addr : String)
    → let p' = card_to_profile (profile_to_card p addr) in
      (p'.name ≡ p.name)
      × (p'.roles ≡ p.roles)
      × (entry "description" p'.metadata ≡ entry "description" p.metadata)
      × (entry "url" p'.metadata ≡ addr)
      × (validate p' ≡ err "id is required")
unfolding card_to_profile profile_to_card GoMap.get validate
card_to_profile-profile_to_card p addr =
    (refl, card_to_roles-profile_to_skills p.roles, refl, refl, refl)
