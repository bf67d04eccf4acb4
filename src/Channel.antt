-- ===== src/Channel.antt =====
-- internal/channel/channel.go: the channels an agent has joined. A method takes the manager and
-- returns it, beside its result; `now` is the clock's reading. The lock serialises the methods.
-- The array that `Leave` shifts in place is the channel's own: no caller reads its copy later.
pub mod Members
pub mod Invariant
pub mod Listing
mod Examples
use lan_a2a.Prelude.{
  ℕ, String, Bool, true, false, ◌||◌, ◌&&◌, Option, none, some, List, [], ◌∷◌, Result, ok, err,
  if◌then◌else◌, ◌==◌, string_eq, contains, filter,
}
use lan_a2a.Prelude.GoMap
use lan_a2a.Prelude.GoMap.{GoMap}

pub data ChannelMode : Type 0 where
  mode_p2p mode_relay : ChannelMode

pub record Channel : Type 0 where
  pub id : String
  pub name : String
  pub mode : ChannelMode
  pub host : String
  pub members : List String
  pub created_at : ℕ
  pub creator : String

abbrev pub Manager : Type 0
Manager = GoMap String Channel

unfoldable pub new_manager : Manager
new_manager = []

unfoldable pub create :
    Manager → ℕ → String → String → String → List String → ChannelMode → Manager × Channel
create m now id name creator members mode =
    let ch : Channel = record {
      id = id;
      name = name;
      mode = mode;
      host = creator;
      members = members;
      created_at = now;
      creator = creator;
    } in
    (GoMap.put id ch m, ch)

unfoldable pub get : Manager → String → Option Channel
get m id = GoMap.get id m

-- The loop of `Leave`: the first occurrence goes, and the loop ends there.
unfoldable pub remove_first : String → List String → List String
remove_first a [] = []
remove_first a (x ∷ xs) = if x == a then xs else x ∷ remove_first a xs

-- If the host left, the next member is promoted.
unfoldable pub promote : String → String → List String → String
promote host agent [] = host
promote host agent (x ∷ xs) = if host == agent then x else host

-- The channel with its new members; an empty one is deleted.
unfoldable pub store_left : Manager → String → Channel → Manager
store_left m id ch = elim ch.members [ [] ↦ GoMap.del id m | x ∷ xs ↦ GoMap.put id ch m ]

unfoldable pub depart : Channel → String → Channel
unfolding remove_first promote
depart ch agent =
    let rest = remove_first agent ch.members in
    record ch { members = rest; host = promote ch.host agent rest }

unfoldable pub leave : Manager → String → String → Manager × Result (Unit {0})
unfolding store_left
leave m id agent = elim (GoMap.get id m) [
  | none ↦ (m, err "channel not found")
  | some ch ↦ (store_left m id (depart ch agent), ok tt)
]

unfoldable pub is_member : Manager → String → String → Bool
is_member m id agent = elim (GoMap.get id m) [ none ↦ false | some ch ↦ contains agent ch.members ]

unfoldable pub get_host : Manager → String → Option String
get_host m id = elim (GoMap.get id m) [ none ↦ none | some ch ↦ some ch.host ]

unfoldable pub get_mode : Manager → String → ChannelMode
get_mode m id = elim (GoMap.get id m) [ none ↦ mode_p2p | some ch ↦ ch.mode ]

unfoldable pub list_by_peer : Manager → String → List Channel
list_by_peer m agent = filter (λ ch. contains agent ch.members) (GoMap.values m)
