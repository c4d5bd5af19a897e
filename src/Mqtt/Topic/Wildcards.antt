-- ===== src/Mqtt/Topic/Wildcards.antt =====
-- Topics that mqtt/topic.go accepts without wildcards.
use jopa.Common.{
  ℕ, true, false, ◌||◌, List, [], ◌∷◌, ◌==◌, ◌≡◌, refl, ◌⊎◌, inl, inr, arith, Bool-cases, any, ◌≢◌,
}
use jopa.Mqtt.Topic.{contains, split, has_wildcard, check_topic, cons_head}
use jopa.Mqtt.Topic.Laws.{
  plain, plus, Levels, last, hash, more, ValidSplit, user_topic, system_topic, check_topic_iff,
}

contains-cons_head :
    (b c : ℕ) (ss : List (List ℕ))
    → any (contains b) (cons_head c ss) ≡ (c == b || any (contains b) ss)
unfolding cons_head contains
contains-cons_head b c [] = ground arith
contains-cons_head b c (s ∷ ss) = ground arith

-- A byte other than the slash is in the text exactly if it is in one of the parts.
any-contains-split : (b : ℕ) (s : List ℕ) → b ≢ b'/' → any (contains b) (split s) ≡ contains b s
unfolding split contains
any-contains-split b [] ne = refl
any-contains-split b (c ∷ s) ne = elim (Bool-cases (c == b'/')) [
  | inl slash ↦ rw slash (ground (arith, any-contains-split b s ne))
  | inr other_byte ↦ rw (other_byte, contains-cons_head, any-contains-split b s ne)
]

Levels-no_wildcard :
    (b : ℕ) {ss : List (List ℕ)}
    → (b ≡ b'+') ⊎ (b ≡ b'#')
    → Levels false ss
    → any (contains b) ss ≡ false
unfolding has_wildcard
Levels-no_wildcard b w (last (plain h)) = ground arith
Levels-no_wildcard b w (last (plus e h)) = cc
Levels-no_wildcard b w (hash e h) = cc
Levels-no_wildcard b w (more (plain h) ls) = ground (arith, Levels-no_wildcard b w ls)
Levels-no_wildcard b w (more (plus e h) ls) = cc

ValidSplit-no_wildcard :
    (b : ℕ) {ss : List (List ℕ)}
    → (b ≡ b'+') ⊎ (b ≡ b'#')
    → ValidSplit false ss
    → any (contains b) ss ≡ false
unfolding has_wildcard
ValidSplit-no_wildcard b w (user_topic u n l) = Levels-no_wildcard b w l
ValidSplit-no_wildcard b w (system_topic d h n l) = ground (arith, Levels-no_wildcard b w l)

Levels-filter : {ss : List (List ℕ)} → Levels false ss → Levels true ss
Levels-filter (last (plain h)) = last (plain h)
Levels-filter (last (plus e h)) = cc
Levels-filter (hash e h) = cc
Levels-filter (more (plain h) ls) = more (plain h) (Levels-filter ls)
Levels-filter (more (plus e h) ls) = cc

ValidSplit-filter : {ss : List (List ℕ)} → ValidSplit false ss → ValidSplit true ss
ValidSplit-filter (user_topic u n l) = user_topic u n (Levels-filter l)
ValidSplit-filter (system_topic d h n l) = system_topic d h n (Levels-filter l)

-- A topic that is accepted without wildcards holds neither `+` nor `#`, and is accepted as a filter.
pub check_topic-no_wildcard :
    (topic : List ℕ)
    → check_topic topic false [] ≡ true
    → (has_wildcard topic ≡ false) × (check_topic topic true [] ≡ true)
unfolding has_wildcard
check_topic-no_wildcard topic h =
    let (e, n, z, v) = (check_topic_iff topic false).0 h in
    let plus_free = ValidSplit-no_wildcard b'+' (inl refl) v in
    let hash_free = ValidSplit-no_wildcard b'#' (inr refl) v in
    (
      ground (
        arith,
        any-contains-split b'+' topic (omega arith),
        any-contains-split b'#' topic (omega arith),
      ),
      (check_topic_iff topic true).1 (e, n, z, ValidSplit-filter v),
    )
