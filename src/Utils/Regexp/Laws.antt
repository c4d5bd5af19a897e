-- ===== src/Utils/Regexp/Laws.antt =====
-- What a sequence of patterns matches.
use jopa.Common.{
  ℕ, Bool, true, false, ◌&&◌, ◌||◌, List, [], ◌∷◌, ◌++◌, map, any, ◌≡◌, refl, ap, sym, ◌∙◌, inl,
  inr, arith, ◌⊎◌,
}
use jopa.Utils.Regexp.{Text, Regexp, sequence, cons_front, splits, both, matches, one}

pub and-true : (a b : Bool) → (a && b) ≡ true → (a ≡ true) × (b ≡ true)
and-true a b h = ground arith

pub or-true : (a b : Bool) → (a || b) ≡ true → (a ≡ true) ⊎ (b ≡ true)
or-true true b h = inl refl
or-true false b h = inr h

any-map :
    {A B : Type 0} (p : B → Bool) (f : A → B) (xs : List A)
    → any p (map f xs) ≡ any (λ x. p (f x)) xs
any-map p f [] = refl
any-map p f (x ∷ xs) = ap (λ b. p (f x) || b) (any-map p f xs)

-- Some cut of the text passes the test.
pub any-splits :
    (p : Text × Text → Bool) (w : Text)
    → any p (splits w) ≡ true
    → (u v : Text) × (u ++ v ≡ w) × (p (u, v) ≡ true)
unfolding splits cons_front
any-splits p [] h = ([], [], refl, ground arith)
any-splits p (c ∷ w) h = elim (or-true (p ([], c ∷ w)) (any p (map (cons_front c) (splits w))) h) [
  | inl e ↦ ([], c ∷ w, refl, e)
  | inr later ↦
      let (u, v, whole, e) =
        any-splits (λ cut. p (cons_front c cut)) w
          (sym (any-map p (cons_front c) (splits w)) ∙ later) in
      (c ∷ u, v, ap (λ x. c ∷ x) whole, e)
]

splits-any :
    (p : Text × Text → Bool) (u v : Text) → p (u, v) ≡ true → any p (splits (u ++ v)) ≡ true
unfolding splits cons_front
splits-any p [] [] h = ground arith
splits-any p [] (c ∷ v) h = ground arith
splits-any p (c ∷ u) v h =
    let later =
      any-map p (cons_front c) (splits (u ++ v)) ∙ splits-any (λ cut. p (cons_front c cut)) u v h in
    ground arith

-- A text matches a sequence exactly if it has a front and a back that match the parts.
pub matches-sequence :
    (r s : Regexp) (w : Text)
    → matches (sequence r s) w ≡ true
    → (u v : Text) × (u ++ v ≡ w) × (matches r u ≡ true) × (matches s v ≡ true)
unfolding matches
matches-sequence r s w h =
    let (u, v, whole, e) = any-splits (both (matches r) (matches s)) w h in
    let (front, back) = and-true (matches r u) (matches s v) e in (u, v, whole, front, back)

pub sequence-matches :
    (r s : Regexp) (u v : Text)
    → matches r u ≡ true
    → matches s v ≡ true
    → matches (sequence r s) (u ++ v) ≡ true
unfolding matches
sequence-matches r s u v front back =
    splits-any (both (matches r) (matches s)) u v (rw (front, back) refl)

-- One byte of a class.
pub matches-one :
    (p : ℕ → Bool) (w : Text) → matches (one p) w ≡ true → (c : ℕ) × (w ≡ c ∷ []) × (p c ≡ true)
unfolding matches
matches-one p [] h = cc
matches-one p (c ∷ []) h = (c, refl, ground arith)
matches-one p (c ∷ d ∷ w) h = absurd (ground arith)

pub one-matches : (p : ℕ → Bool) (c : ℕ) → p c ≡ true → matches (one p) (c ∷ []) ≡ true
unfolding matches
one-matches p c h = ground arith
