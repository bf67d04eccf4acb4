-- ===== src/Protocol/Examples.antt =====
-- The reader and the identifiers of internal/protocol/message.go at concrete values.
use lan_a2a.Prelude.{
  ◌≡◌, refl, [], ◌∷◌, nat_eq, string_eq, list_eq, codes, decimal, decimal_loop, to_hex,
}
use lan_a2a.Protocol.{SliceReader}
use lan_a2a.Protocol.Identifiers.{new_msg_id}

abbrev reader : SliceReader
reader = record { bytes = codes "hello"; off = 0 }

some_id : new_msg_id 1709 (0 ∷ 171 ∷ 255 ∷ []) ≡ codes "1709-00abff"
unfolding new_msg_id decimal decimal_loop to_hex
some_id = refl
