-- ===== src/Channel/Members.antt =====
-- Who is a member and who is host after the calls of internal/channel/channel.go.
use lan_a2a.Prelude.{
  String, ◌≡◌, refl, ◌≢◌, false, ◌&&◌, none, some, List, [], ◌∷◌, ok, err, arith, if◌then◌else◌,
  ◌==◌, string_eq, contains, Distinct, Option-cases, ◌⊎◌, inl, inr,
}
use lan_a2a.Prelude.GoMap
use lan_a2a.Prelude.GoMap.{get-put, get-del}
use lan_a2a.Channel.{
  Channel, Manager, leave, depart, remove_first, promote, store_left, is_member, get_host,
}

pub contains-remove_first :
    (a b : String) (xs : List String)
    → Distinct xs
    → contains b (remove_first a xs) ≡ (if a == b then false else contains b xs)
unfolding remove_first
contains-remove_first a b [] d = ground arith
contains-remove_first a b (x ∷ xs) d = ground (
  arith,
  contains-remove_first a b xs d.1,
  string_eq.beq_iff a b,
  string_eq.beq_iff x a,
  string_eq.beq_iff b x,
  string_eq.beq_iff x b,
)

-- Without distinctness: the others stay.
pub contains-remove_first_ne :
    (a b : String) (xs : List String) → a ≢ b → contains b (remove_first a xs) ≡ contains b xs
unfolding remove_first
contains-remove_first_ne a b [] h = refl
contains-remove_first_ne a b (x ∷ xs) h =
    ground (arith, contains-remove_first_ne a b xs h, string_eq.beq_iff x a, string_eq.beq_iff b x)

-- What `Leave` stores: nothing once the last member is gone.
pub get-store_left :
    (m : Manager) (id j : String) (ch : Channel)
    → GoMap.get j (store_left m id ch)
      ≡ (if id == j then elim ch.members [ [] ↦ none | x ∷ xs ↦ some ch ] else GoMap.get j m)
unfolding store_left
get-store_left m id j ch = ground (arith, get-put id j ch m, get-del id j m)

-- After a successful `Leave`, in a channel whose members are distinct, the agent is no member of
-- that channel, and every other membership, of any agent in any channel, is as before.
pub is_member-leave :
    (m : Manager) (id agent : String) (ch : Channel) (j b : String)
    → GoMap.get id m ≡ some ch
    → Distinct ch.members
    → is_member (leave m id agent).0 j b
      ≡ (if (id == j) && (agent == b) then false else is_member m j b)
unfolding is_member leave depart
is_member-leave m id agent ch j b found d = ground (
  arith,
  get-store_left m id j (depart ch agent),
  contains-remove_first agent b ch.members d,
  string_eq.beq_iff id j,
)

-- `Leave` fails exactly when there is no such channel, and a failed call changes nothing.
pub leave_fails_iff :
    (m : Manager) (id agent : String)
    → ((GoMap.get id m ≡ none) × ((leave m id agent) ≡ (m, err "channel not found")))
      ⊎ ((ch : Channel) × (GoMap.get id m ≡ some ch) × ((leave m id agent).1 ≡ ok tt))
unfolding leave
leave_fails_iff m id agent = elim (Option-cases (GoMap.get id m)) [
  | inl e ↦ inl (e, rw (e, leave))
  | inr (ch, e) ↦ inr (ch, e, rw (e, leave))
]

-- When the host leaves a channel in which others remain, the first remaining member becomes host;
-- when another member leaves, the host stays.
pub get_host-leave :
    (m : Manager) (id agent : String) (ch : Channel) (x : String) (xs : List String)
    → GoMap.get id m ≡ some ch
    → remove_first agent ch.members ≡ x ∷ xs
    → get_host (leave m id agent).0 id ≡ some (if ch.host == agent then x else ch.host)
unfolding get_host leave depart promote
get_host-leave m id agent ch x xs found rest =
    ground (arith, get-store_left m id id (depart ch agent), string_eq.beq_iff id id)
