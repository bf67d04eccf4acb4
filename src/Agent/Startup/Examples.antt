-- ===== src/Agent/Startup/Examples.antt =====
-- cmd/lan-a2a/main.go: the first two starts of an agent on a machine with an empty disk.
use lan_a2a.Prelude.{
  ap, ◌≡◌, refl, sym, ◌≢◌, true, none, [], ◌∷◌, arith, if◌then◌else◌, ◌==◌, nat_eq, string_eq,
  list_eq, ok, err, codes, append_text,
}
use lan_a2a.Prelude.Int.{pos}
use lan_a2a.Prelude.GoMap
use lan_a2a.Prelude.GoMap.{GoMap}
use lan_a2a.Profile.{Profile, set_timestamps}
use lan_a2a.Agent.Startup.{Machine, default_profile, load_profile, with_id, identity}
use lan_a2a.Agent.Startup.Lookup.{first_loaded, places}
use lan_a2a.Agent.Startup.Chosen.{chosen, load_profile-chosen}
use lan_a2a.Agent.Startup.Created.{load_profile-again}

-- The profile that the first start makes.
abbrev first_made : Profile
first_made = record {
  id = "lab-77";
  name = "lab";
  avatar = "";
  roles = "general" ∷ [];
  version = pos 1;
  created = pos 5;
  updated = pos 6;
  tags = [];
  metadata = ("description", "LanA2A agent") ∷ [];
}

abbrev lab : Machine
lab = record {
  calls = record {
    marshal = λ p. ok (codes p.id);
    unmarshal = λ b. if b == codes "lab-77" then ok first_made else err "syntax";
    join = λ dir name. append_text dir (append_text "/" name);
    can_write = λ path. true;
  };
  dir_of = λ path. path;
  lan_a2a_in = λ dir. append_text dir "/.lan-a2a";
  home = "/home/me";
  hostname = "lab";
  pid = "77";
  now = pos 5;
  later = pos 6;
}

load_profile-chosen_example :
    load_profile lab "" "/etc/agents" "/x" []
    ≡ chosen lab "" [] (first_loaded lab.calls [] (places lab "/etc/agents" "/x"))
load_profile-chosen_example = load_profile-chosen lab "" "/etc/agents" "/x" []

made : set_timestamps lab.later (set_timestamps lab.now (default_profile lab "")) ≡ first_made
unfolding set_timestamps lan_a2a.Agent.Startup.fallback
made = refl

no_profile : first_loaded lab.calls [] (places lab "/etc/agents" "/x") ≡ none
unfolding first_loaded lan_a2a.Profile.load GoMap.get
no_profile = refl

home-nonempty : lab.home ≢ ""
home-nonempty h = ground (arith, h, string_eq.beq_iff "/home/me" "")

-- The port of an agent that is given neither.
ports : identity lab "" 0 4321 first_made ≡ ("lab-77", 19421)
unfolding identity
ports = refl

load_profile-again_example :
    let p = set_timestamps lab.later (set_timestamps lab.now (default_profile lab "")) in
    let (disk', made) = load_profile lab "" "/etc/agents" "/x" [] in
    let w' = record lab { hostname = "other"; pid = "88"; now = pos 9; later = pos 9 } in
    (made ≡ p) × (load_profile w' "" "/etc/agents" "/x" disk' ≡ (disk', with_id "" p))
load_profile-again_example =
    load_profile-again lab "" "" "/etc/agents" "/x" "other" "88" (pos 9) (pos 9) [] (codes "lab-77")
      no_profile home-nonempty (ap lab.calls.marshal made) (ap ok (sym made)) refl
