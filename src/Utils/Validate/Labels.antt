-- ===== src/Utils/Validate/Labels.antt =====
-- utils/validate.go: which labels are accepted.
use jopa.Common.{
  ℕ, ◌≤◌, Bool, true, false, ◌&&◌, ◌==◌, List, [], ◌∷◌, ◌++◌, length, leb, leb→le, ==_iff,
  append-nil, all, All, Bool-cases, ◌≡◌, refl, ap, sym, ◌∙◌, subst, ◌↔◌, ◌⊎◌, inl, inr, arith,
}
use jopa.Mqtt.Topic.{contains, split, cons_head}
use jopa.Utils.Regexp.{Text, Regexp, sequence, one, many, optional, matches}
use jopa.Utils.Regexp.Laws.{
  and-true, or-true, matches-sequence, sequence-matches, matches-one, one-matches,
}
use jopa.Utils.Validate.{
  is_alnum, is_wide, label_regexp, valid_part, valid_split, valid_key, valid_labels,
}

-- Nothing, or a letter or digit and then bytes of the class.
abbrev pub is_label : Text → Bool
is_label [] = true
is_label (c ∷ w) = is_alnum c && all is_wide w

-- A part of a label of bounded length.
abbrev pub IsPart : ℕ → Text → Type 0
IsPart high w = (length w ≤ high) × (is_label w ≡ true)

-- A part alone, or a prefix that is not empty, a slash and a name.
abbrev pub IsKey : Text → Type 0
IsKey k =
    IsPart 63 k
    ⊎ ((prefix name : Text) × (k ≡ prefix ++ b'/' ∷ name)
        × (1 ≤ length prefix)
        × IsPart 253 prefix
        × IsPart 63 name)

alnum-wide : (c : ℕ) → is_alnum c ≡ true → is_wide c ≡ true
alnum-wide c h = ground arith

all-append : (p : ℕ → Bool) (u v : Text) → all p u ≡ true → all p v ≡ true → all p (u ++ v) ≡ true
all-append p [] v h g = g
all-append p (c ∷ u) v h g =
    let (head, tail) = and-true (p c) (all p u) h in rw (head, all-append p u v tail g) refl

-- What an optional pattern matches.
matches-optional :
    (r : Regexp) (w : Text) → matches (optional r) w ≡ true → (matches r w ≡ true) ⊎ (w ≡ [])
unfolding matches
matches-optional r [] h = inr refl
matches-optional r (c ∷ w) h = elim (or-true (matches r (c ∷ w)) _ h) [
  | inl e ↦ inl e
  | inr e ↦ absurd (ground arith)
]

optional-matches : (r : Regexp) (w : Text) → matches r w ≡ true → matches (optional r) w ≡ true
unfolding matches
optional-matches r w h = rw h refl

optional-empty : (r : Regexp) → matches (optional r) [] ≡ true
unfolding matches
optional-empty r = ground arith

matches-many : (p : ℕ → Bool) (w : Text) → matches (many p) w ≡ all p w
unfolding matches
matches-many p w = ground arith

front-label :
    (w : Text) → matches (sequence (one is_alnum) (many is_wide)) w ≡ true → is_label w ≡ true
front-label w h =
    let (u, v, whole, first, rest) = matches-sequence (one is_alnum) (many is_wide) w h in
    let (c, is_c, ok) = matches-one is_alnum u first in
    subst (λ x. is_label x ≡ true) (ap (λ x. x ++ v) (sym is_c) ∙ whole)
      (rw (ok, sym (matches-many is_wide v) ∙ rest) refl)

end-label :
    (v : Text)
    → matches (optional (one is_alnum)) v ≡ true
    → (is_label v ≡ true) × (all is_wide v ≡ true)
end-label v h = elim (matches-optional (one is_alnum) v h) [
  | inl e ↦
      let (c, is_c, ok) = matches-one is_alnum v e in
      subst (λ x. (is_label x ≡ true) × (all is_wide x ≡ true)) (sym is_c)
        (rw ok refl, rw (alnum-wide c ok) refl)
  | inr e ↦ subst (λ x. (is_label x ≡ true) × (all is_wide x ≡ true)) (sym e) (refl, refl)
]

label-append :
    (u v : Text)
    → is_label u ≡ true
    → is_label v ≡ true
    → all is_wide v ≡ true
    → is_label (u ++ v) ≡ true
label-append [] v h g wide = g
label-append (c ∷ u) v h g wide =
    let (head, tail) = and-true (is_alnum c) (all is_wide u) h in
    rw (head, all-append is_wide u v tail wide) refl

-- The pattern of labels does not ask for a letter or digit at the end.
label_regexp_iff : (w : Text) → (matches label_regexp w ≡ true) ↔ (is_label w ≡ true)
label_regexp_iff w = (to w, from w)
  where
    front : Regexp
    front = optional (sequence (one is_alnum) (many is_wide))

    front_ok : (u : Text) → matches front u ≡ true → is_label u ≡ true
    front_ok u h = elim (matches-optional (sequence (one is_alnum) (many is_wide)) u h) [
      | inl e ↦ front-label u e
      | inr e ↦ subst (λ x. is_label x ≡ true) (sym e) refl
    ]

    to : (w : Text) → matches label_regexp w ≡ true → is_label w ≡ true
    to w h =
        let (u, v, whole, first, last) = matches-sequence front (optional (one is_alnum)) w h in
        let (v_label, v_wide) = end-label v last in
        subst (λ x. is_label x ≡ true) whole (label-append u v (front_ok u first) v_label v_wide)

    from : (w : Text) → is_label w ≡ true → matches label_regexp w ≡ true
    from [] h =
        sequence-matches front (optional (one is_alnum)) [] [] (optional-empty _) (optional-empty _)
    from (c ∷ w) h =
        let (head, tail) = and-true (is_alnum c) (all is_wide w) h in
        subst (λ x. matches label_regexp x ≡ true) (append-nil (c ∷ w))
          (sequence-matches front (optional (one is_alnum)) (c ∷ w) []
            (optional-matches _ (c ∷ w) (
              sequence-matches (one is_alnum) (many is_wide) (c ∷ []) w
                (one-matches is_alnum c head) (matches-many is_wide w ∙ tail)))
            (optional-empty _))

le-leb : (a b : ℕ) → a ≤ b → leb a b ≡ true
le-leb a b h = ground arith

valid_part_iff : (high : ℕ) (w : Text) → (valid_part high w ≡ true) ↔ IsPart high w
unfolding valid_part
valid_part_iff high w = (
  (λ h.
      let (short, label) = and-true (leb (length w) high) (matches label_regexp w) h in
      (leb→le _ _ short, (label_regexp_iff w).0 label)),
  (λ h. rw (le-leb (length w) high (h.0), (label_regexp_iff w).1 (h.1)) refl),
)

-- No slash in a label.
wide-contains : (w : Text) → all is_wide w ≡ true → contains b'/' w ≡ false
unfolding contains
wide-contains [] h = refl
wide-contains (c ∷ w) h =
    let (head, tail) = and-true (is_wide c) (all is_wide w) h in
    let rest = wide-contains w tail in ground arith

label-contains : (w : Text) → is_label w ≡ true → contains b'/' w ≡ false
unfolding contains
label-contains [] h = refl
label-contains (c ∷ w) h =
    let (head, tail) = and-true (is_alnum c) (all is_wide w) h in
    let rest = wide-contains w tail in ground arith

no_slash :
    (c : ℕ) (w : Text)
    → contains b'/' (c ∷ w) ≡ false
    → ((c == b'/') ≡ false) × (contains b'/' w ≡ false)
unfolding contains
no_slash c w h = ground arith

-- strings.Split at slashes, where there is none and at the first one.
split-alone : (w : Text) → contains b'/' w ≡ false → split w ≡ w ∷ []
unfolding split contains cons_head
split-alone [] h = refl
split-alone (c ∷ w) h = let (byte, later) = no_slash c w h in rw (byte, split-alone w later) refl

split-first : (p v : Text) → contains b'/' p ≡ false → split (p ++ b'/' ∷ v) ≡ p ∷ split v
unfolding split contains cons_head
split-first [] v h = refl
split-first (c ∷ p) v h =
    let (byte, later) = no_slash c p h in rw (byte, split-first p v later) refl

contains-slash : (p v : Text) → contains b'/' (p ++ b'/' ∷ v) ≡ true
unfolding contains
contains-slash [] v = refl
contains-slash (c ∷ p) v = let rest = contains-slash p v in ground arith

-- The parts of the split, joined by slashes.
abbrev joined : List Text → Text
joined [] = []
joined (s ∷ []) = s
joined (s ∷ t ∷ ss) = s ++ b'/' ∷ joined (t ∷ ss)

joined-cons_head : (c : ℕ) (ss : List Text) → joined (cons_head c ss) ≡ c ∷ joined ss
unfolding cons_head
joined-cons_head c [] = refl
joined-cons_head c (s ∷ []) = refl
joined-cons_head c (s ∷ t ∷ ss) = refl

cons_head-some :
    (c : ℕ) (ss : List Text) → (s : Text) × (rest : List Text) × (cons_head c ss ≡ s ∷ rest)
unfolding cons_head
cons_head-some c [] = (c ∷ [], [], refl)
cons_head-some c (s ∷ ss) = (c ∷ s, ss, refl)

split-some : (k : Text) → (s : Text) × (rest : List Text) × (split k ≡ s ∷ rest)
unfolding split
split-some [] = ([], [], refl)
split-some (c ∷ k) = elim (Bool-cases (c == b'/')) [
  | inl slash ↦ ([], split k, rw slash refl)
  | inr byte ↦ let (s, rest, e) = cons_head-some c (split k) in (s, rest, rw byte e)
]

joined-split : (k : Text) → joined (split k) ≡ k
unfolding split
joined-split [] = refl
joined-split (c ∷ k) = elim (Bool-cases (c == b'/')) [
  | inl slash ↦
      let (s, rest, e) = split-some k in
      rw (slash, e)
        (ap (λ x. b'/' ∷ x) (ap joined (sym e) ∙ joined-split k)
          ∙ ap (λ x. x ∷ k) (sym ((==_iff c b'/').0 slash)))
  | inr byte ↦ rw byte (joined-cons_head c (split k) ∙ ap (λ x. c ∷ x) (joined-split k))
]

and-both : (a b c : Bool) → (a && b && c) ≡ true → (a ≡ true) × (b ≡ true) × (c ≡ true)
and-both a b c h = (ground arith, ground arith, ground arith)

valid_split-parts :
    (ss : List Text)
    → valid_split ss ≡ true
    → (prefix name : Text) × (ss ≡ prefix ∷ name ∷ [])
      × (1 ≤ length prefix)
      × IsPart 253 prefix
      × IsPart 63 name
unfolding valid_split
valid_split-parts [] h = cc
valid_split-parts (p ∷ []) h = cc
valid_split-parts (p ∷ n ∷ []) h =
    let (some_bytes, front, back) =
      and-both (leb 1 (length p)) (valid_part 253 p) (valid_part 63 n) h in
    (
      p,
      n,
      refl,
      leb→le _ _ some_bytes,
      (valid_part_iff 253 p).0 front,
      (valid_part_iff 63 n).0 back,
    )
valid_split-parts (p ∷ n ∷ m ∷ ss) h = cc

valid_key-IsKey : (k : Text) → valid_key k ≡ true → IsKey k
unfolding valid_key
valid_key-IsKey k h = elim (Bool-cases (contains b'/' k)) [
  | inl slash ↦
      let (p, n, parts, some_bytes, front, back) = valid_split-parts (split k) (rw slash at h) in
      inr (p, n, sym (joined-split k) ∙ ap joined parts, some_bytes, front, back)
  | inr plain ↦ inl ((valid_part_iff 63 k).0 (rw plain at h))
]

two-valid_key :
    (p n : Text) → 1 ≤ length p → IsPart 253 p → IsPart 63 n → valid_key (p ++ b'/' ∷ n) ≡ true
unfolding valid_key valid_split
two-valid_key p n some_bytes front back =
    rw
      (
        contains-slash p n,
        split-first p n (label-contains p (front.1)),
        split-alone n (label-contains n (back.1)),
        le-leb 1 (length p) some_bytes,
        (valid_part_iff 253 p).1 front,
        (valid_part_iff 63 n).1 back,
      )
      refl

IsKey-valid_key : (k : Text) → IsKey k → valid_key k ≡ true
unfolding valid_key
IsKey-valid_key k (inl part) = rw (label-contains k (part.1)) ((valid_part_iff 63 k).1 part)
IsKey-valid_key k (inr (p, n, whole, some_bytes, front, back)) =
    subst (λ x. valid_key x ≡ true) (sym whole) (two-valid_key p n some_bytes front back)

-- A label whose key is of that form and whose value is a part.
abbrev pub IsLabel : Text × Text → Type 0
IsLabel (k, v) = IsKey k × IsPart 63 v

-- A map of labels is accepted exactly if each key is a part of at most 63 bytes, or a part of 1 to 253 bytes, a slash
-- and a part of at most 63 bytes, and each value is a part of at most 63 bytes, where a part is empty or a letter or
-- digit before letters, digits, '-', '_' and '.'.
pub valid_labels_iff :
    (labels : List (Text × Text)) → (valid_labels labels ≡ true) ↔ All IsLabel labels
unfolding valid_labels
valid_labels_iff [] = (λ h. tt, λ h. refl)
valid_labels_iff ((k, v) ∷ labels) =
    let tail = valid_labels_iff labels in
    (
      (λ h.
          let (key, value, rest) =
            and-both (valid_key k) (valid_part 63 v) (valid_labels labels) h in
          ((valid_key-IsKey k key, (valid_part_iff 63 v).0 value), tail.0 rest)),
      (λ ((key, value), rest).
          rw (IsKey-valid_key k key, (valid_part_iff 63 v).1 value, tail.1 rest) refl),
    )
