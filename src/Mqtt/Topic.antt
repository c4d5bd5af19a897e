-- ===== src/Mqtt/Topic.antt =====
-- mqtt/topic.go: the check of a topic or topic filter. Texts are lists of bytes.
pub mod Laws
pub mod Wildcards
use jopa.Common.{
  ℕ, suc, String, Bool, true, false, not, ◌&&◌, ◌||◌, List, [], ◌∷◌, length, ltb, ◌==◌,
  if◌then◌else◌,
}

abbrev pub max_topic_levels : ℕ
max_topic_levels = 9

abbrev pub max_topic_length : ℕ
max_topic_length = 255

-- strings.Contains of a single byte.
unfoldable pub contains : ℕ → List ℕ → Bool
contains b [] = false
contains b (c ∷ s) = c == b || contains b s

unfoldable pub cons_head : ℕ → List (List ℕ) → List (List ℕ)
cons_head c [] = (c ∷ []) ∷ []
cons_head c (s ∷ ss) = (c ∷ s) ∷ ss

-- strings.Split(topic, "/")
unfoldable pub split : List ℕ → List (List ℕ)
unfolding cons_head
split [] = [] ∷ []
split (c ∷ s) = let rest = split s in if c == b'/' then [] ∷ rest else cons_head c rest

-- segment == "#" and segment == "+"
unfoldable pub is_single : ℕ → List ℕ → Bool
is_single b (c ∷ []) = c == b
is_single b _ = false

unfoldable pub starts_with_dollar : List ℕ → Bool
starts_with_dollar [] = false
starts_with_dollar (c ∷ _) = c == b'$'

unfoldable pub bytes_eq : List ℕ → List ℕ → Bool
bytes_eq [] [] = true
bytes_eq (a ∷ s) (b ∷ t) = a == b && bytes_eq s t
bytes_eq _ _ = false

unfoldable pub in_set : List ℕ → List (List ℕ) → Bool
unfolding bytes_eq
in_set s [] = false
in_set s (t ∷ ts) = bytes_eq t s || in_set s ts

unfoldable pub has_wildcard : List ℕ → Bool
unfolding contains
has_wildcard s = contains b'+' s || contains b'#' s

-- The three checks that the loop makes of a segment.
unfoldable pub check_segment : Bool → Bool → List ℕ → Bool
unfolding has_wildcard is_single
check_segment wildcard is_last segment =
    if ltb 1 (length segment) && has_wildcard segment
    then false
    else if not wildcard && (is_single b'#' segment || is_single b'+' segment)
    then false
    else not (is_single b'#' segment && not is_last)

abbrev pub is_empty {ℓ} : {A : Type ℓ} → List A → Bool
is_empty [] = true
is_empty (_ ∷ _) = false

-- The loop over the segments.
unfoldable pub check_segments : Bool → List (List ℕ) → Bool
unfolding check_segment
check_segments wildcard [] = true
check_segments wildcard (s ∷ ss) =
    check_segment wildcard (is_empty ss) s && check_segments wildcard ss

unfoldable pub check_levels : Bool → List (List ℕ) → Bool
unfolding check_segments
check_levels wildcard segments =
    if ltb max_topic_levels (length segments) then false else check_segments wildcard segments

-- The first segment of a topic that begins with `$`.
unfoldable pub check_system : List (List ℕ) → List ℕ → Bool
unfolding has_wildcard in_set
check_system [] first = not (has_wildcard first)
check_system (t ∷ ts) first = in_set first (t ∷ ts)

-- The part of `checkTopic` behind the split. Split never gives an empty list.
unfoldable pub check_split : Bool → List (List ℕ) → List (List ℕ) → Bool
unfolding check_system check_levels starts_with_dollar
check_split wildcard sys_topics [] = false
check_split wildcard sys_topics (first ∷ rest) =
    if starts_with_dollar first
    then not (is_empty rest) && check_system sys_topics first && check_levels wildcard rest
    else check_levels wildcard (first ∷ rest)

-- `checkTopic`; `CheckTopic` passes no system topics, `TopicChecker.CheckTopic` its own.
unfoldable pub check_topic : List ℕ → Bool → List (List ℕ) → Bool
unfolding check_split split contains
check_topic topic wildcard sys_topics =
    if is_empty topic
    then false
    else if ltb max_topic_length (length topic) || contains 0 topic
    then false
    else check_split wildcard sys_topics (split topic)
