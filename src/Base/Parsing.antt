-- ===== src/Base/Parsing.antt =====
-- Go's strings and strconv functions on text that the parsers use.
use Prim.Native.Nat.{ℕ, ◌+◌, ◌*◌, ◌-◌, ◌^◌}
use mathlib.Core.Path.{◌≡◌, refl}
use mathlib.Core.Bool.{Bool, true, false, ◌&&◌, ◌||◌}
use mathlib.Core.Option.{Option, none, some}
use mathlib.Core.List.{List, [], ◌∷◌}
use ithiltir_node.Base.Tests.{leb, ltb, ◌==◌, if◌then◌else◌}
use ithiltir_node.Base.Int.{ℤ, pos, negsuc}
use ithiltir_node.Base.Strings.{Text, text_eq, is_space}

-- strings.HasPrefix, the prefix first.
unfoldable pub starts_with : Text → Text → Bool
starts_with [] s = true
starts_with (p ∷ ps) [] = false
starts_with (p ∷ ps) (c ∷ s) = p == c && starts_with ps s

-- strings.CutPrefix; `none` if the prefix is not there.
unfoldable pub after_prefix : Text → Text → Option Text
after_prefix [] s = some s
after_prefix (p ∷ ps) [] = none
after_prefix (p ∷ ps) (c ∷ s) = let rest = after_prefix ps s in if p == c then rest else none

-- strings.TrimPrefix.
unfoldable pub without_prefix : Text → Text → Text
unfolding after_prefix
without_prefix p s = elim (after_prefix p s) [ none ↦ s | some rest ↦ rest ]

-- strings.CutSuffix; `none` if the suffix is not there.
unfoldable pub before_suffix : Text → Text → Option Text
unfolding text_eq
before_suffix p [] = if text_eq p [] then some [] else none
before_suffix p (c ∷ s) =
    if text_eq p (c ∷ s)
    then some []
    else elim (before_suffix p s) [ none ↦ none | some rest ↦ some (c ∷ rest) ]

-- strings.Contains, the part first.
unfoldable pub has_part : Text → Text → Bool
unfolding starts_with
has_part p [] = starts_with p []
has_part p (c ∷ s) = starts_with p (c ∷ s) || has_part p s

-- strings.Cut at one character; `none` if it is not there.
unfoldable pub cut_at : ℕ → Text → Option (Text × Text)
cut_at d [] = none
cut_at d (c ∷ s) =
    let rest = cut_at d s in
    if c == d then some ([], s) else elim rest [ none ↦ none | some (a, b) ↦ some (c ∷ a, b) ]

-- A character before the first part.
onto_first : ℕ → List Text → List Text
onto_first c [] = (c ∷ []) ∷ []
onto_first c (w ∷ ws) = (c ∷ w) ∷ ws

-- strings.Split at one character.
unfoldable pub split_at : ℕ → Text → List Text
unfolding onto_first
split_at d [] = [] ∷ []
split_at d (c ∷ s) = let rest = split_at d s in if c == d then [] ∷ rest else onto_first c rest

put_word : Text → List Text → List Text
put_word [] ws = ws
put_word (c ∷ w) ws = (c ∷ w) ∷ ws

-- The word that a text starts with, and the words after it.
words_of : Text → Text × List Text
unfolding is_space put_word
words_of [] = ([], [])
words_of (c ∷ s) =
    let (w, ws) = words_of s in if is_space c then ([], put_word w ws) else (c ∷ w, ws)

-- strings.Fields.
unfoldable pub fields : Text → List Text
unfolding words_of put_word
fields s = let (w, ws) = words_of s in put_word w ws

-- The value of digits after the value `n`.
digits_from : ℕ → Text → Option ℕ
digits_from n [] = some n
digits_from n (c ∷ s) =
    let rest = digits_from (n * 10 + (c - b'0')) s in
    if leb b'0' c && leb c b'9' then rest else none

parse_digits : Text → Option ℕ
unfolding digits_from
parse_digits [] = none
parse_digits (c ∷ s) = digits_from 0 (c ∷ s)

-- strconv.ParseUint in base 10 with 64 bits; `none` is its error.
unfoldable pub parse_uint : Text → Option ℕ
unfolding parse_digits
parse_uint s = elim (parse_digits s) [
  | none ↦ none
  | some n ↦ if ltb n (2 ^ 64) then some n else none
]

-- The number that is the negative of `n`, of at most 2 ^ 63.
negated : ℕ → Option ℤ
negated n = if n == 0 then some (pos 0) else if leb n (2 ^ 63) then some (negsuc (n - 1)) else none

-- strconv.ParseInt in base 10 with 64 bits, and strconv.Atoi.
unfoldable pub parse_int : Text → Option ℤ
unfolding parse_digits negated
parse_int s = elim (after_prefix (b'-' ∷ []) s) [
  | some rest ↦ elim (parse_digits rest) [ none ↦ none | some n ↦ negated n ]
  | none ↦ elim (parse_digits (without_prefix (b'+' ∷ []) s)) [
    | none ↦ none
    | some n ↦ if ltb n (2 ^ 63) then some (pos n) else none
  ]
]

-- A map with text keys, as a list: `m[k] = v`, and `m[k]`.
module _ {ℓ} {A : Type ℓ} where
  unfoldable pub put_text : Text → A → List (Text × A) → List (Text × A)
  put_text k a [] = (k, a) ∷ []
  put_text k a ((j, b) ∷ m) = if text_eq k j then (j, a) ∷ m else (j, b) ∷ put_text k a m

  unfoldable pub find_text : Text → List (Text × A) → Option A
  find_text k [] = none
  find_text k ((j, a) ∷ m) = if text_eq k j then some a else find_text k m

-- A step that can fail, and the rest.
module _ {ℓ} {A B : Type ℓ} where
  abbrev pub and_then : Option A → (A → Option B) → Option B
  and_then none next = none
  and_then (some a) next = next a

  pub and_then-some :
      (o : Option A) (next : A → Option B) {b : B}
      → and_then o next ≡ some b
      → (a : A) × (o ≡ some a) × (next a ≡ some b)
  and_then-some none next h = cc
  and_then-some (some a) next h = (a, refl, h)
