-- ===== src/Utils/Validate/Names.antt =====
-- utils/validate.go: what the rules for names accept.
use jopa.Common.{
  ℕ, ◌≤◌, Bool, true, false, ◌&&◌, ◌||◌, ◌==◌, [], ◌∷◌, ◌++◌, length, length-append, all, some, ◌≡◌,
  refl, ap, sym, ◌∙◌, subst, ◌↔◌, arith,
}
use jopa.Utils.Regexp.{Text, class, sequence, one, matches}
use jopa.Utils.Regexp.Laws.{and-true, matches-sequence, sequence-matches, matches-one, one-matches}
use jopa.Utils.Validate.{name_like, is_small, is_alnum, res_name, svc_name, fingerprint}

-- The first byte, and the last one, are of the class.
abbrev pub begins : (ℕ → Bool) → Text → Bool
begins p [] = false
begins p (c ∷ w) = p c

abbrev pub ends : (ℕ → Bool) → Text → Bool
ends p [] = false
ends p (c ∷ []) = p c
ends p (c ∷ d ∷ w) = ends p (d ∷ w)

-- From 2 to 63 bytes of the wider class, the first and the last of the narrower one.
abbrev pub IsName : (ℕ → Bool) → (ℕ → Bool) → Text → Type 0
IsName end middle w =
    (2 ≤ length w)
    × (length w ≤ 63)
    × (all middle w ≡ true)
    × (begins end w ≡ true)
    × (ends end w ≡ true)

-- The last byte and those before it.
data Snoc : Text → Type 0 where
  snoc : (u : Text) (c : ℕ) → Snoc (u ++ c ∷ [])

to_snoc : (c : ℕ) (w : Text) → Snoc (c ∷ w)
to_snoc c [] = snoc [] c
to_snoc c (d ∷ w) = more (to_snoc d w)
  where
    more : {v : Text} → Snoc v → Snoc (c ∷ v)
    more (snoc u e) = snoc (c ∷ u) e

ends-snoc : (p : ℕ → Bool) (u : Text) (c : ℕ) → ends p (u ++ c ∷ []) ≡ p c
ends-snoc p [] c = refl
ends-snoc p (d ∷ []) c = refl
ends-snoc p (d ∷ e ∷ u) c = ends-snoc p (e ∷ u) c

all-append : (p : ℕ → Bool) (u v : Text) → all p (u ++ v) ≡ (all p u && all p v)
all-append p [] v = refl
all-append p (c ∷ u) v = let rest = all-append p u v in ground (arith, rest)

-- The repeated class in the middle.
matches-middle :
    (p : ℕ → Bool) (w : Text)
    → matches (class p 0 (some 61)) w ≡ true
    → (length w ≤ 61) × (all p w ≡ true)
unfolding matches
matches-middle p w h = (ground arith, ground arith)

middle-matches :
    (p : ℕ → Bool) (w : Text)
    → length w ≤ 61
    → all p w ≡ true
    → matches (class p 0 (some 61)) w ≡ true
unfolding matches
middle-matches p w le h = ground arith

-- A name from its parts, and its parts again.
built-IsName :
    (end middle : ℕ → Bool) (c d : ℕ) (m : Text)
    → ((e : ℕ) → end e ≡ true → middle e ≡ true)
    → end c ≡ true
    → end d ≡ true
    → length m ≤ 61
    → all middle m ≡ true
    → IsName end middle (c ∷ (m ++ d ∷ []))
built-IsName end middle c d m wider first last short every = (
  omega (arith, length-append m (d ∷ [])),
  omega (arith, length-append m (d ∷ [])),
  rw (wider c first, all-append middle m (d ∷ []), every, wider d last) refl,
  first,
  ends-snoc end (c ∷ m) d ∙ last,
)

matches-IsName :
    (end middle : ℕ → Bool) (w : Text)
    → ((c : ℕ) → end c ≡ true → middle c ≡ true)
    → matches (name_like end middle) w ≡ true
    → IsName end middle w
matches-IsName end middle w wider h =
    let (u, v, whole, first, rest) =
      matches-sequence (one end) (sequence (class middle 0 (some 61)) (one end)) w h in
    let (m, l, inside, mid, last) = matches-sequence (class middle 0 (some 61)) (one end) v rest in
    let (c, is_c, first_ok) = matches-one end u first in
    let (d, is_d, last_ok) = matches-one end l last in
    let (short, every) = matches-middle middle m mid in
    subst (IsName end middle)
      (ap (λ x. x ++ (m ++ d ∷ [])) (sym is_c)
        ∙ ap (λ x. u ++ (m ++ x)) (sym is_d)
        ∙ ap (λ x. u ++ x) inside
        ∙ whole)
      (built-IsName end middle c d m wider first_ok last_ok short every)

Snoc-matches :
    (end middle : ℕ → Bool) (c : ℕ) (v : Text)
    → Snoc v
    → IsName end middle (c ∷ v)
    → matches (name_like end middle) (c ∷ v) ≡ true
Snoc-matches end middle c v (snoc u d) (low, high, every, first, last) =
    let parts = and-true (all middle u) (all middle (d ∷ [])) (
      sym (all-append middle u (d ∷ []))
      ∙ (and-true (middle c) (all middle (u ++ d ∷ [])) every).1) in
    sequence-matches (one end) (sequence (class middle 0 (some 61)) (one end)) (c ∷ [])
      (u ++ d ∷ []) (one-matches end c first)
      (sequence-matches (class middle 0 (some 61)) (one end) u (d ∷ [])
        (middle-matches middle u (omega (arith, length-append u (d ∷ []))) parts.0)
        (one-matches end d (sym (ends-snoc end (c ∷ u) d) ∙ last)))

IsName-matches :
    (end middle : ℕ → Bool) (w : Text)
    → IsName end middle w
    → matches (name_like end middle) w ≡ true
IsName-matches end middle [] (low, high, every, first, last) = absurd (omega arith)
IsName-matches end middle (c ∷ []) (low, high, every, first, last) = absurd (omega arith)
IsName-matches end middle (c ∷ d ∷ w) is_name =
    Snoc-matches end middle c (d ∷ w) (to_snoc d w) is_name

-- The three rules for names, of resources, of services and of fingerprints, accept exactly the texts of 2 to 63 bytes
-- of their class whose first and last byte are letters or digits.
pub names_iff :
    (w : Text)
    → ((matches res_name w ≡ true) ↔ IsName is_small (λ c. c == b'-' || is_small c || c == b'.') w)
      × ((matches svc_name w ≡ true) ↔ IsName is_small (λ c. c == b'-' || is_small c) w)
      × ((matches fingerprint w ≡ true)
          ↔ IsName is_alnum (λ c. c == b'-' || is_alnum c || c == b'.') w)
names_iff w = (
  (matches-IsName _ _ w (λ c h. ground arith), IsName-matches _ _ w),
  (matches-IsName _ _ w (λ c h. ground arith), IsName-matches _ _ w),
  (matches-IsName _ _ w (λ c h. ground arith), IsName-matches _ _ w),
)
