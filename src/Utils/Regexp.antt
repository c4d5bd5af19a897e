-- ===== src/Utils/Regexp.antt =====
-- The part of package regexp that the patterns of utils/validate.go use, each from `^` to `$`. A text is the list of
-- its bytes; no class has a byte that is not ASCII.
pub mod Laws
use jopa.Common.{
  ℕ, zero, suc, Bool, true, false, ◌&&◌, ◌||◌, List, [], ◌∷◌, map, length, leb, any, all, Option,
  none, some, if◌then◌else◌, ◌==◌,
}

abbrev pub Text : Type 0
Text = List ℕ

-- `[class]{low,high}`, where `none` is no upper bound; a sequence, an alternative, and a repeated group.
pub data Regexp : Type 0 where
  class : (ℕ → Bool) → ℕ → Option ℕ → Regexp
  sequence : Regexp → Regexp → Regexp
  either : Regexp → Regexp → Regexp
  repeated : Regexp → Regexp

abbrev pub within : ℕ → Option ℕ → Bool
within n none = true
within n (some high) = leb n high

cons_front : ℕ → Text × Text → Text × Text
cons_front c (front, back) = (c ∷ front, back)

-- The ways to cut a text in two.
unfoldable pub splits : Text → List (Text × Text)
unfolding cons_front
splits [] = ([], []) ∷ []
splits (c ∷ w) = ([], c ∷ w) ∷ map (cons_front c) (splits w)

abbrev pub both : (Text → Bool) → (Text → Bool) → Text × Text → Bool
both p q (front, back) = p front && q back

-- The text is a number of parts of the group, each with at least one byte; the fuel is its length.
unfoldable pub repeats : (Text → Bool) → ℕ → Text → Bool
unfolding splits cons_front
repeats p fuel [] = true
repeats p zero (c ∷ w) = false
repeats p (suc fuel) (c ∷ w) = any (λ cut. both p (repeats p fuel) (cons_front c cut)) (splits w)

unfoldable pub matches : Regexp → Text → Bool
unfolding splits repeats
matches (class p low high) w = leb low (length w) && within (length w) high && all p w
matches (sequence r s) w = any (both (matches r) (matches s)) (splits w)
matches (either r s) w = matches r w || matches s w
matches (repeated r) w = repeats (matches r) (length w) w

-- One byte of a class, any number of them, and an optional part.
abbrev pub one : (ℕ → Bool) → Regexp
one p = class p 1 (some 1)

abbrev pub many : (ℕ → Bool) → Regexp
many p = class p 0 none

abbrev pub optional : Regexp → Regexp
optional r = either r (class (λ c. false) 0 (some 0))

-- A word.
unfoldable pub word : Text → Regexp
word [] = class (λ c. false) 0 (some 0)
word (c ∷ w) = sequence (one (λ d. d == c)) (word w)

unfoldable pub one_of : List Text → Regexp
unfolding word
one_of [] = class (λ c. false) 1 none
one_of (w ∷ ws) = either (word w) (one_of ws)

-- `[a-z]` and the like.
abbrev pub between : ℕ → ℕ → ℕ → Bool
between low high c = leb low c && leb c high

abbrev pub is_lower : ℕ → Bool
is_lower c = between b'a' b'z' c

abbrev pub is_upper : ℕ → Bool
is_upper c = between b'A' b'Z' c

abbrev pub is_digit : ℕ → Bool
is_digit c = between b'0' b'9' c
