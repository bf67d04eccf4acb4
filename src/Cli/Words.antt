-- ===== src/Cli/Words.antt =====
-- strings.Fields and strings.Join, as internal/cli/cli.go uses them: words that are joined come apart
-- again.
use lan_a2a.Prelude.{
  cons_unless_blank, trim_left, trim_right, trim_space, ◌≢◌, ap, ◌∙◌, String, ◌≡◌, refl, ap, ◌∙◌,
  ◌≢◌, false, List, [], ◌∷◌, arith, nat_eq, string_eq, list_eq, All, trim_space, trim_left,
  trim_right, split_words, cons_word, space, is_space, append_text, fields, join_words,
}
use Prim.Native.Char.{Char}

abbrev pub NoBlank : String → Type 0
NoBlank String.[] = Unit
NoBlank (String.◌∷◌ c s) = (is_space c ≡ false) × NoBlank s

-- A text without blanks that is not empty.
abbrev pub IsWord : String → Type 0
IsWord String.[] = ⊥
IsWord (String.◌∷◌ c s) = (is_space c ≡ false) × NoBlank s

split_words-word : (w : String) → NoBlank w → split_words w ≡ (w, [])
unfolding split_words
split_words-word String.[] h = refl
split_words-word (String.◌∷◌ c s) h = ground (arith, split_words-word s h.1)

split_words-append :
    (w t : String)
    → NoBlank w
    → split_words (append_text w (String.◌∷◌ space t))
      ≡ (w, cons_word (split_words t).0 (split_words t).1)
unfolding split_words
split_words-append String.[] t h = refl
split_words-append (String.◌∷◌ c s) t h = ground (arith, split_words-append s t h.1)

IsWord-NoBlank : (w : String) → IsWord w → NoBlank w
IsWord-NoBlank String.[] h = absurd h
IsWord-NoBlank (String.◌∷◌ c s) h = h

cons_word-IsWord : (w : String) (ws : List String) → IsWord w → cons_word w ws ≡ w ∷ ws
cons_word-IsWord String.[] ws h = absurd h
cons_word-IsWord (String.◌∷◌ c s) ws h = refl

-- The words of words that are joined by single spaces are these words.
pub fields-join_words : (ws : List String) → All IsWord ws → fields (join_words ws) ≡ ws
unfolding fields join_words
fields-join_words [] h = refl
fields-join_words (w ∷ []) h =
    ap (λ (r : String × List String). cons_word r.0 r.1) (split_words-word w (IsWord-NoBlank w h.0))
    ∙ cons_word-IsWord w [] h.0
fields-join_words (w ∷ v ∷ ws) h =
    ap (λ (r : String × List String). cons_word r.0 r.1)
      (split_words-append w (join_words (v ∷ ws)) (IsWord-NoBlank w h.0))
    ∙ cons_word-IsWord w (fields (join_words (v ∷ ws))) h.0
    ∙ ap (λ (r : List String). w ∷ r) (fields-join_words (v ∷ ws) h.1)

-- A text that is not empty and ends in no blank.
abbrev IsTight : String → Type 0
IsTight s = (s ≢ "") × (trim_right s ≡ s)

cons_unless_blank-IsTight :
    (c : Char) (s : String) → s ≢ "" → cons_unless_blank c s ≡ String.◌∷◌ c s
cons_unless_blank-IsTight c String.[] h = absurd (h refl)
cons_unless_blank-IsTight c (String.◌∷◌ d s) h = refl

cons-ne-empty : (c : Char) (s : String) → String.◌∷◌ c s ≢ ""
cons-ne-empty c s h = cc

cons-IsTight : (c : Char) (s : String) → IsTight s → IsTight (String.◌∷◌ c s)
unfolding trim_right
cons-IsTight c s h =
    (cons-ne-empty c s, ap (cons_unless_blank c) h.1 ∙ cons_unless_blank-IsTight c s h.0)

append_text-IsTight : (w t : String) → IsTight t → IsTight (append_text w t)
append_text-IsTight String.[] t h = h
append_text-IsTight (String.◌∷◌ c w) t h =
    cons-IsTight c (append_text w t) (append_text-IsTight w t h)

word-IsTight : (w : String) → IsWord w → IsTight w
unfolding trim_right
word-IsTight String.[] h = absurd h
word-IsTight (String.◌∷◌ c String.[]) h = (cons-ne-empty c "", ground (arith, h.0))
word-IsTight (String.◌∷◌ c (String.◌∷◌ d s)) h =
    cons-IsTight c (String.◌∷◌ d s) (word-IsTight (String.◌∷◌ d s) h.1)

join_words-IsTight :
    (w : String) (ws : List String) → All IsWord (w ∷ ws) → IsTight (join_words (w ∷ ws))
unfolding join_words
join_words-IsTight w [] h = word-IsTight w h.0
join_words-IsTight w (v ∷ ws) h =
    append_text-IsTight w (String.◌∷◌ space (join_words (v ∷ ws)))
      (cons-IsTight space (join_words (v ∷ ws)) (join_words-IsTight v ws h.1))

trim_left-join_words :
    (w : String) (ws : List String)
    → IsWord w
    → trim_left (join_words (w ∷ ws)) ≡ join_words (w ∷ ws)
unfolding trim_left join_words
trim_left-join_words String.[] ws h = absurd h
trim_left-join_words (String.◌∷◌ c s) [] h = ground (arith, h.0)
trim_left-join_words (String.◌∷◌ c s) (v ∷ ws) h = ground (arith, h.0)

pub trim_space-join_words :
    (w : String) (ws : List String)
    → All IsWord (w ∷ ws)
    → trim_space (join_words (w ∷ ws)) ≡ join_words (w ∷ ws)
unfolding trim_space
trim_space-join_words w ws h =
    ap trim_left (join_words-IsTight w ws h).1 ∙ trim_left-join_words w ws h.0
