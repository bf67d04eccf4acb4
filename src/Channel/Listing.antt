-- ===== src/Channel/Listing.antt =====
-- What `ListByPeer` of internal/channel/channel.go returns.
use lan_a2a.Prelude.{
  subst, sym, String, ◌≡◌, inl, inr, true, some, arith, Option-cases, nat_eq, string_eq, list_eq,
  In, In-filter, filter-In,
}
use lan_a2a.Prelude.GoMap
use lan_a2a.Prelude.GoMap.{In-values-get, get-In-values}
use lan_a2a.Channel.{Channel, Manager, list_by_peer, is_member}
use lan_a2a.Channel.Invariant.{IsValid}

listed-is_member :
    (m : Manager) (agent : String) (ch : Channel)
    → IsValid m
    → In ch (list_by_peer m agent)
    → (GoMap.get ch.id m ≡ some ch) × (is_member m ch.id agent ≡ true)
unfolding list_by_peer is_member
listed-is_member m agent ch v h =
    let (stored, member) = filter-In ch _ (GoMap.values m) h in
    let (id, e) = In-values-get m ch v.distinct stored in
    let keyed = (v.channels id ch e).keyed in
    let e' : GoMap.get ch.id m ≡ some ch = subst (λ k. GoMap.get k m ≡ some ch) (sym keyed) e in
    (e', rw (e', is_member) member)

is_member-listed :
    (m : Manager) (id agent : String)
    → is_member m id agent ≡ true
    → (ch : Channel) × (GoMap.get id m ≡ some ch) × In ch (list_by_peer m agent)
unfolding list_by_peer is_member
is_member-listed m id agent h = elim (Option-cases (GoMap.get id m)) [
  | inl e ↦ absurd (ground (arith, e))
  | inr (ch, e) ↦
      (ch, e, In-filter ch _ (GoMap.values m) (get-In-values m id ch e) (ground (arith, e)))
]

-- On a manager whose channels are stored under their IDs, `ListByPeer` returns only stored channels
-- of which the agent is a member, and every channel of which `IsMember` says that it is one.
pub list_by_peer_exact :
    (m : Manager) (agent : String)
    → IsValid m
    → ((ch : Channel)
        → In ch (list_by_peer m agent)
        → (GoMap.get ch.id m ≡ some ch) × (is_member m ch.id agent ≡ true))
      × ((id : String)
          → is_member m id agent ≡ true
          → (ch : Channel) × (GoMap.get id m ≡ some ch) × In ch (list_by_peer m agent))
list_by_peer_exact m agent v =
    ((λ ch. listed-is_member m agent ch v), (λ id. is_member-listed m id agent))
