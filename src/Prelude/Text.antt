-- ===== src/Prelude/Text.antt =====
-- Byte strings: Go's strings where the program walks them.
use Prim.Native.Nat.{ℕ}
use Prim.Native.Char.{Char, code}
use Prim.Native.String.{String}
use mathlib.Core.Bool.{Bool, ◌&&◌, ◌||◌}
use lan_a2a.Prelude.Tests.{leb, nat_beq, if◌then◌else◌}
use mathlib.Core.List.{List, [], ◌∷◌}

abbrev pub Bytes : Type 0
Bytes = List ℕ

-- The bytes of an ASCII text.
abbrev pub codes : String → Bytes
codes String.[] = []
codes (String.◌∷◌ c s) = code c ∷ codes s

-- unicode.IsSpace
abbrev pub is_space : Char → Bool
is_space c =
    let n = code c in
    (leb 9 n && leb n 13)
    || nat_beq n 32
    || nat_beq n 0x85
    || nat_beq n 0xA0
    || nat_beq n 0x1680
    || (leb 0x2000 n && leb n 0x200A)
    || nat_beq n 0x2028
    || nat_beq n 0x2029
    || nat_beq n 0x202F
    || nat_beq n 0x205F
    || nat_beq n 0x3000

abbrev pub cons_unless_blank : Char → String → String
cons_unless_blank c String.[] = if is_space c then String.[] else String.◌∷◌ c String.[]
cons_unless_blank c s = String.◌∷◌ c s

unfoldable pub trim_right : String → String
trim_right String.[] = String.[]
trim_right (String.◌∷◌ c s) = cons_unless_blank c (trim_right s)

unfoldable pub trim_left : String → String
trim_left String.[] = String.[]
trim_left (String.◌∷◌ c s) = if is_space c then trim_left s else String.◌∷◌ c s

-- strings.TrimSpace
unfoldable pub trim_space : String → String
unfolding trim_left trim_right
trim_space s = trim_left (trim_right s)

abbrev pub cons_word : String → List String → List String
cons_word String.[] ws = ws
cons_word w ws = w ∷ ws

-- The word at the front of a text, which may be empty, and the words behind it.
unfoldable pub split_words : String → String × List String
split_words String.[] = (String.[], [])
split_words (String.◌∷◌ c s) =
    let (w, ws) = split_words s in
    if is_space c then (String.[], cons_word w ws) else (String.◌∷◌ c w, ws)

-- strings.Fields
unfoldable pub fields : String → List String
unfolding split_words
fields s = cons_word (split_words s).0 (split_words s).1

-- s + t
abbrev pub append_text : String → String → String
append_text String.[] t = t
append_text (String.◌∷◌ c s) t = String.◌∷◌ c (append_text s t)

abbrev pub space : Char
space = " "

-- strings.Join with a separator of one space.
unfoldable pub join_words : List String → String
join_words [] = String.[]
join_words (w ∷ []) = w
join_words (w ∷ v ∷ ws) = append_text w (String.◌∷◌ space (join_words (v ∷ ws)))
