-- ===== src/Channel/Invariant.antt =====
-- The host of every stored channel of internal/channel/channel.go is one of its members.
use lan_a2a.Prelude.{
  ℕ, String, ◌≡◌, refl, ap, inl, inr, true, some, List, [], ◌∷◌, arith, Option-cases, nat_eq,
  string_eq, list_eq, All, contains, Distinct,
}
use lan_a2a.Prelude.GoMap
use lan_a2a.Prelude.GoMap.{get-put, get-del, Distinct-put, Distinct-del}
use lan_a2a.Channel.{
  Channel, ChannelMode, Manager, new_manager, create, leave, depart, remove_first, promote,
  store_left,
}
use lan_a2a.Channel.Members.{contains-remove_first_ne}

-- What holds of a channel stored under the key `id`.
pub record IsHosted (id : String) (ch : Channel) : Type 0 where
  pub keyed : ch.id ≡ id
  pub hosted : contains ch.host ch.members ≡ true

pub record IsValid (m : Manager) : Type 0 where
  pub distinct : Distinct (GoMap.keys m)
  pub channels : (id : String) (ch : Channel) → GoMap.get id m ≡ some ch → IsHosted id ch

-- A call that changes the manager.
pub data Op : Type 0 where
  creates : ℕ → String → String → String → List String → ChannelMode → Op
  leaves : String → String → Op

unfoldable pub step : Manager → Op → Manager
step m (creates now id name creator members mode) = (create m now id name creator members mode).0
step m (leaves id agent) = (leave m id agent).0

unfoldable pub run : Manager → List Op → Manager
unfolding step
run m [] = m
run m (op ∷ ops) = run (step m op) ops

-- The creator of a new channel is among its members.
abbrev pub IsSound : Op → Type 0
IsSound (creates now id name creator members mode) = contains creator members ≡ true
IsSound (leaves id agent) = Unit

promote-hosted :
    (host agent : String) (members : List String) (x : String) (xs : List String)
    → contains host members ≡ true
    → remove_first agent members ≡ x ∷ xs
    → contains (promote host agent (x ∷ xs)) (x ∷ xs) ≡ true
unfolding promote
promote-hosted host agent members x xs h e = ground (
  arith,
  string_eq.beq_iff x x,
  string_eq.beq_iff host agent,
  contains-remove_first_ne agent host members,
  ap (contains host) e,
)

depart-IsHosted :
    (id agent : String) (ch : Channel) (x : String) (xs : List String)
    → IsHosted id ch
    → (depart ch agent).members ≡ x ∷ xs
    → IsHosted id (depart ch agent)
unfolding depart
depart-IsHosted id agent ch x xs h e = ground (arith, promote-hosted ch.host agent ch.members x xs)

put-IsValid :
    (m : Manager) (id : String) (ch : Channel)
    → IsHosted id ch
    → IsValid m
    → IsValid (GoMap.put id ch m)
put-IsValid m id ch h v = record {
  distinct = Distinct-put id ch m v.distinct;
  channels = λ j c e. ground (arith, get-put id j ch m, v.channels j c, string_eq.beq_iff id j);
}

del-IsValid : (m : Manager) (id : String) → IsValid m → IsValid (GoMap.del id m)
del-IsValid m id v = record {
  distinct = Distinct-del id m v.distinct;
  channels = λ j c e. ground (arith, get-del id j m, v.channels j c);
}

store_left-IsValid :
    (m : Manager) (id : String) (ch : Channel) (members : List String)
    → ch.members ≡ members
    → ((x : String) (xs : List String) → members ≡ x ∷ xs → IsHosted id ch)
    → IsValid m
    → IsValid (store_left m id ch)
unfolding store_left
store_left-IsValid m id ch [] e h v = rw (e, store_left) (del-IsValid m id v)
store_left-IsValid m id ch (x ∷ xs) e h v = rw (e, store_left) (put-IsValid m id ch (h x xs refl) v)

leave-IsValid : (m : Manager) (id agent : String) → IsValid m → IsValid (leave m id agent).0
unfolding leave
leave-IsValid m id agent v = elim (Option-cases (GoMap.get id m)) [
  | inl e ↦ rw (e, leave) v
  | inr (ch, e) ↦
      rw (e, leave)
        (store_left-IsValid m id (depart ch agent) (depart ch agent).members refl
          (λ x xs. depart-IsHosted id agent ch x xs (v.channels id ch e)) v)
]

step-IsValid : (m : Manager) (op : Op) → IsSound op → IsValid m → IsValid (step m op)
unfolding step create
step-IsValid m (creates now id name creator members mode) h v =
    put-IsValid m id _ (record { keyed = refl; hosted = h }) v
step-IsValid m (leaves id agent) h v = leave-IsValid m id agent v

run-IsValid : (m : Manager) (ops : List Op) → All IsSound ops → IsValid m → IsValid (run m ops)
unfolding run
run-IsValid m [] h v = v
run-IsValid m (op ∷ ops) h v = run-IsValid (step m op) ops h.1 (step-IsValid m op h.0 v)

-- After any sequence of `Create` and `Leave` calls on a new manager in which each creator is among
-- the members it names, every channel is stored under its own ID, once, and its host is a member.
pub run_from_new-IsValid : (ops : List Op) → All IsSound ops → IsValid (run new_manager ops)
unfolding new_manager
run_from_new-IsValid ops h =
    run-IsValid [] ops h
      (record { distinct = tt; channels = λ id ch e. cc (GoMap.get-nil {V = Channel} id) })
