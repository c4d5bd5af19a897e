-- ===== src/Mqtt/Counter.antt =====
-- mqtt/counter.go: packet ids, 16-bit numbers that skip zero; and `MatchTopicQOS` of mqtt/gomqtt.go.
use jopa.Common.{
  ℕ, zero, suc, ◌+◌, ◌-◌, ◌%◌, ◌≤◌, ◌<◌, min, Bool, true, false, List, [], ◌∷◌, ◌≡◌, ◌≢◌, refl, ◌∙◌,
  ◌↔◌, arith, ltb, ◌==◌, if◌then◌else◌,
}

pub record Counter : Type 0 where
  pub next : ℕ

-- uint16 addition of one wraps to 0, which is skipped.
unfoldable pub next_counter_id : ℕ → ℕ
next_counter_id id = let id' = (id + 1) % 65536 in if id' == 0 then (id' + 1) % 65536 else id'

unfoldable pub new_counter_with_next : ℕ → Counter
new_counter_with_next next = record { next = next }

unfoldable pub new_counter : Counter
unfolding new_counter_with_next
new_counter = new_counter_with_next 1

unfoldable pub next_id : Counter → Counter × ℕ
unfolding next_counter_id
next_id c = (record c { next = next_counter_id c.next }, c.next)

unfoldable pub get_next_id : Counter → ℕ
get_next_id c = c.next

unfoldable pub reset : Counter → Counter
reset c = record c { next = 1 }

-- The ids in use: a uint16 other than zero.
abbrev pub IsId : ℕ → Type 0
IsId id = (1 ≤ id) × (id < 65536)

-- The id that the call number `i` of `NextID` returns, counted from 0.
unfoldable pub nth_id : ℕ → Counter → ℕ
unfolding next_id
nth_id zero c = (next_id c).1
nth_id (suc i) c = nth_id i (next_id c).0

next_counter_id_lem : (id : ℕ) → IsId id → next_counter_id id ≡ id % 65535 + 1
unfolding next_counter_id
next_counter_id_lem id h = ground arith

nth_id_lem : (i : ℕ) (c : Counter) → IsId c.next → nth_id i c ≡ (c.next + i - 1) % 65535 + 1
unfolding nth_id
nth_id_lem zero c h = omega arith
nth_id_lem (suc i) c h =
    let e = next_counter_id_lem c.next h in
    nth_id_lem i (record c { next = next_counter_id c.next }) (omega arith) ∙ omega arith

-- Any two of 65535 calls in a row return different ids, none of them zero, and the call after them
-- returns the first id again.
pub nth_id_period :
    (c : Counter) (i j : ℕ)
    → IsId c.next
    → i < j
    → j < i + 65535
    → (nth_id i c ≢ nth_id j c) × IsId (nth_id i c) × (nth_id (i + 65535) c ≡ nth_id i c)
nth_id_period c i j h lt near =
    let a = nth_id_lem i c h in
    let b = nth_id_lem j c h in
    let d = nth_id_lem (i + 65535) c h in (omega arith, omega arith, omega arith)

-- The loop over the matching subscriptions stops at the first quality below the one at hand.
unfoldable pub lower_qos : ℕ → List ℕ → ℕ
lower_qos qos [] = qos
lower_qos qos (us ∷ ss) = if ltb us qos then us else lower_qos qos ss

abbrev pub is_matched : List ℕ → Bool
is_matched [] = false
is_matched (_ ∷ _) = true

-- `MatchTopicQOS`, from the qualities of service that the topic tree finds for the topic.
unfoldable pub match_topic_qos : List ℕ → Bool × ℕ
unfolding lower_qos
match_topic_qos ss = (is_matched ss, lower_qos 1 ss)

abbrev pub lowest : List ℕ → ℕ
lowest [] = 1
lowest (q ∷ qs) = min q (lowest qs)

lowest-le : (ss : List ℕ) → lowest ss ≤ 1
lowest-le [] = omega arith
lowest-le (q ∷ ss) = omega (arith, lowest-le ss)

lower_qos-lowest : (ss : List ℕ) → lower_qos 1 ss ≡ lowest ss
unfolding lower_qos
lower_qos-lowest [] = refl
lower_qos-lowest (zero ∷ ss) = ground arith
lower_qos-lowest (suc q ∷ ss) =
    let low = lowest-le ss in
    let skip : ltb (suc q) 1 ≡ false = ground arith in rw skip (lower_qos-lowest ss ∙ omega arith)

-- The quality found is the lowest of the subscriptions' and of 1; the topic matches if there is any.
pub match_topic_qos_lem :
    (ss : List ℕ)
    → ((match_topic_qos ss).1 ≡ lowest ss) × (((match_topic_qos ss).0 ≡ false) ↔ (ss ≡ []))
unfolding match_topic_qos
match_topic_qos_lem [] = (refl, (λ _. refl, λ _. refl))
match_topic_qos_lem (q ∷ ss) = (lower_qos-lowest (q ∷ ss), (λ e. cc, λ e. cc))
