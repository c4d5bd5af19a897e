-- ===== src/Mqtt/Topic/Laws.antt =====
-- Which topics and topic filters mqtt/topic.go accepts.
use jopa.Common.{
  ℕ, ◌≤◌, Bool, true, false, not, ◌&&◌, ◌||◌, List, [], ◌∷◌, length, ltb, ◌≡◌, refl, ◌↔◌, ◌⊎◌, inl,
  inr, arith, Bool-cases,
}
use jopa.Mqtt.Topic.{
  max_topic_levels, max_topic_length, contains, split, is_single, starts_with_dollar, has_wildcard,
  check_segment, check_segments, check_levels, check_split, check_topic, is_empty,
}

-- A level that holds no wildcard, or the wildcard `+` where wildcards are allowed.
pub data Level (wildcard : Bool) : List ℕ → Type 0 where
  plain : {s : List ℕ} → has_wildcard s ≡ false → Level wildcard s
  plus : {s : List ℕ} → wildcard ≡ true → is_single b'+' s ≡ true → Level wildcard s

-- The levels of a topic: the wildcard `#` may stand at the end only.
pub data Levels (wildcard : Bool) : List (List ℕ) → Type 0 where
  last : {s : List ℕ} → Level wildcard s → Levels wildcard (s ∷ [])
  hash : {s : List ℕ} → wildcard ≡ true → is_single b'#' s ≡ true → Levels wildcard (s ∷ [])
  more :
      {s t : List ℕ} {ss : List (List ℕ)}
      → Level wildcard s
      → Levels wildcard (t ∷ ss)
      → Levels wildcard (s ∷ t ∷ ss)

check_segment_cases :
    (w is_last : Bool) (s : List ℕ)
    → check_segment w is_last s ≡ true
    → (has_wildcard s ≡ false)
      ⊎ ((w ≡ true) × (is_single b'+' s ≡ true))
      ⊎ ((w ≡ true) × (is_single b'#' s ≡ true) × (is_last ≡ true))
unfolding check_segment
check_segment_cases w l [] h = inl refl
check_segment_cases w l (c ∷ []) h = ground arith
check_segment_cases w l (c ∷ d ∷ s) h = ground arith

Level-check_segment : (w is_last : Bool) (s : List ℕ) → Level w s → check_segment w is_last s ≡ true
unfolding check_segment
Level-check_segment w l [] h = ground arith
Level-check_segment w l (c ∷ []) (plain h) = ground arith
Level-check_segment w l (c ∷ []) (plus e h) = ground arith
Level-check_segment w l (c ∷ d ∷ s) (plain h) = ground arith
Level-check_segment w l (c ∷ d ∷ s) (plus e h) = cc

hash-check_segment :
    (w : Bool) (s : List ℕ) → w ≡ true → is_single b'#' s ≡ true → check_segment w true s ≡ true
unfolding check_segment
hash-check_segment w [] e h = ground arith
hash-check_segment w (c ∷ []) e h = ground arith
hash-check_segment w (c ∷ d ∷ s) e h = cc

and_true : (a b : Bool) → (a && b) ≡ true → (a ≡ true) × (b ≡ true)
and_true a b h = ground arith

check_segments-Levels :
    (w : Bool) (s : List ℕ) (ss : List (List ℕ))
    → check_segments w (s ∷ ss) ≡ true
    → Levels w (s ∷ ss)
unfolding check_segments
check_segments-Levels w s [] h = elim (check_segment_cases w true s (and_true _ _ h).0) [
  | inl none_here ↦ last (plain none_here)
  | inr (inl (e, p)) ↦ last (plus e p)
  | inr (inr (e, p, _)) ↦ hash e p
]
check_segments-Levels w s (t ∷ ss) h =
    let (now, later) = and_true (check_segment w false s) _ h in
    let rest = check_segments-Levels w t ss later in
    elim (check_segment_cases w false s now) [
      | inl none_here ↦ more (plain none_here) rest
      | inr (inl (e, p)) ↦ more (plus e p) rest
      | inr (inr (_, _, p)) ↦ cc
    ]

Levels-check_segments : {w : Bool} {ss : List (List ℕ)} → Levels w ss → check_segments w ss ≡ true
unfolding check_segments
Levels-check_segments {w} (last {s} l) = rw (Level-check_segment w true s l)
Levels-check_segments {w} (hash {s} e h) = rw (hash-check_segment w s e h)
Levels-check_segments {w} (more {s} l ls) =
    rw (Level-check_segment w false s l, Levels-check_segments ls)

-- The parts between the slashes of an accepted topic: at most nine levels, behind a first part that
-- begins with `$` and holds no wildcard, or with no such part.
pub data ValidSplit (wildcard : Bool) : List (List ℕ) → Type 0 where
  user_topic :
      {first : List ℕ} {rest : List (List ℕ)}
      → starts_with_dollar first ≡ false
      → length (first ∷ rest) ≤ max_topic_levels
      → Levels wildcard (first ∷ rest)
      → ValidSplit wildcard (first ∷ rest)
  system_topic :
      {first : List ℕ} {rest : List (List ℕ)}
      → starts_with_dollar first ≡ true
      → has_wildcard first ≡ false
      → length rest ≤ max_topic_levels
      → Levels wildcard rest
      → ValidSplit wildcard (first ∷ rest)

check_levels-Levels :
    (w : Bool) (s : List ℕ) (ss : List (List ℕ))
    → check_levels w (s ∷ ss) ≡ true
    → (length (s ∷ ss) ≤ max_topic_levels) × Levels w (s ∷ ss)
unfolding check_levels
check_levels-Levels w s ss h = elim (Bool-cases (ltb max_topic_levels (length (s ∷ ss)))) [
  | inl long ↦ let e : false ≡ true = rw long at h in cc
  | inr short ↦ (ground arith, check_segments-Levels w s ss (rw short at h))
]

Levels-check_levels :
    (w : Bool) (ss : List (List ℕ))
    → length ss ≤ max_topic_levels
    → Levels w ss
    → check_levels w ss ≡ true
unfolding check_levels
Levels-check_levels w ss h l =
    let short : ltb max_topic_levels (length ss) ≡ false = ground arith in
    rw short (Levels-check_segments l)

check_split-Valid : (w : Bool) (ss : List (List ℕ)) → check_split w [] ss ≡ true → ValidSplit w ss
unfolding check_split
check_split-Valid w [] h = cc
check_split-Valid w (first ∷ []) h = elim (Bool-cases (starts_with_dollar first)) [
  | inl system ↦ let e : false ≡ true = rw system at h in cc
  | inr user ↦ let (n, l) = check_levels-Levels w first [] (rw user at h) in user_topic user n l
]
check_split-Valid w (first ∷ t ∷ ss) h = elim (Bool-cases (starts_with_dollar first)) [
  | inl system ↦
      let (p, q) = and_true (not (has_wildcard first)) (check_levels w (t ∷ ss)) (rw system at h) in
      let (n, l) = check_levels-Levels w t ss q in system_topic system (ground arith) n l
  | inr user ↦
      let (n, l) = check_levels-Levels w first (t ∷ ss) (rw user at h) in user_topic user n l
]

Levels-nonempty : {w : Bool} {ss : List (List ℕ)} → Levels w ss → is_empty ss ≡ false
Levels-nonempty (last l) = refl
Levels-nonempty (hash e h) = refl
Levels-nonempty (more l ls) = refl

Valid-check_split : {w : Bool} {ss : List (List ℕ)} → ValidSplit w ss → check_split w [] ss ≡ true
unfolding check_split
Valid-check_split {w} (user_topic {first} {rest} u n l) =
    rw u (Levels-check_levels w (first ∷ rest) n l)
Valid-check_split {w} (system_topic {first} {rest} d p n l) =
    rw (d, Levels-nonempty l, p) (Levels-check_levels w rest n l)

-- A text that is accepted: not empty, at most 255 bytes, no zero byte, and valid parts.
abbrev pub ValidTopic : Bool → List ℕ → Type 0
ValidTopic wildcard topic =
    (is_empty topic ≡ false)
    × (length topic ≤ max_topic_length)
    × (contains 0 topic ≡ false)
    × ValidSplit wildcard (split topic)

check_topic-Valid :
    (topic : List ℕ) (wildcard : Bool)
    → check_topic topic wildcard [] ≡ true
    → ValidTopic wildcard topic
unfolding check_topic
check_topic-Valid [] wildcard h = cc
check_topic-Valid (c ∷ s) wildcard h =
    elim (Bool-cases (ltb max_topic_length (length (c ∷ s)) || contains 0 (c ∷ s))) [
      | inl bad ↦ let e : false ≡ true = rw bad at h in cc
      | inr good ↦ (
        refl,
        ground arith,
        ground arith,
        check_split-Valid wildcard (split (c ∷ s)) (rw good at h),
      )
    ]

-- The check without system topics accepts exactly the valid topics.
pub check_topic_iff :
    (topic : List ℕ) (wildcard : Bool)
    → (check_topic topic wildcard [] ≡ true) ↔ ValidTopic wildcard topic
unfolding check_topic
check_topic_iff topic wildcard = (
  check_topic-Valid topic wildcard,
  λ (e, n, z, v).
      let good : (ltb max_topic_length (length topic) || contains 0 topic) ≡ false =
        rw z (ground arith) in
      rw (e, good) (Valid-check_split v),
)
