-- ===== src/Task/Message/Laws.antt =====
-- The order in which the broker delivers, and what the table of results gives back.
use jopa.Common.{
  ℕ, suc, ◌≤◌, ◌<◌, String, none, List, [], ◌∷◌, ◌++◌, ◌≡◌, ◌≢◌, refl, subst, sym, ap, ◌∙◌, arith,
  inl, inr, Bool-cases, length, length-append, append_assoc, ltb, ltb→lt, ◌==ₛ◌, ==ₛ_iff,
  if◌then◌else◌,
}
use jopa.Common.Dict.{
  Dict, lookup, insert, delete, lookup-insert, lookup-delete, lookup-insert_self,
  lookup-delete_self,
}
use jopa.Common.Outcome.{Outcome, ok, err}
use jopa.Task.Message.{
  Broker, BrokerMessage, Failure, ResultMessage, new_channel_broker, send_message, get_message,
  get_result, set_result, take_result, take_message, send_timeout, not_found,
}

-- The broker after some calls: the messages that `SendMessage` took and those that `GetMessage` gave out.
pub data Trace (cache : ℕ) : List BrokerMessage → List BrokerMessage → Broker → Type 0 where
  start : Trace cache [] [] (new_channel_broker cache)
  sent :
      {taken given : List BrokerMessage} {b b' : Broker} (msg : BrokerMessage)
      → Trace cache taken given b
      → send_message msg b ≡ (b', ok tt)
      → Trace cache (taken ++ msg ∷ []) given b'
  got :
      {taken given : List BrokerMessage} {b b' : Broker} (msg : BrokerMessage)
      → Trace cache taken given b
      → get_message b ≡ (b', ok msg)
      → Trace cache taken (given ++ msg ∷ []) b'

-- The messages given out and those in the channel are the ones taken, and the channel is in its bounds.
abbrev pub InOrder : ℕ → List BrokerMessage → List BrokerMessage → Broker → Type 0
InOrder cache taken given b =
    (given ++ b.queue ≡ taken) × (length b.queue ≤ cache) × (b.cache ≡ cache)

send_message-InOrder :
    (cache : ℕ) (taken given : List BrokerMessage) (b b' : Broker) (msg : BrokerMessage)
    → InOrder cache taken given b
    → send_message msg b ≡ (b', ok tt)
    → InOrder cache (taken ++ msg ∷ []) given b'
unfolding send_message
send_message-InOrder cache taken given b b' msg (same, bound, places) e =
    elim (Bool-cases (ltb (length b.queue) b.cache)) [
      | inl room ↦
          let e' : ◌≡◌ {A = Broker × Outcome Failure (Unit {0})}
              (record b { queue = b.queue ++ msg ∷ [] }, ok tt) (b', ok tt) =
            rw room at e in
          let eb : record b { queue = b.queue ++ msg ∷ [] } ≡ b' = ap (λ r. r.0) e' in
          let lt : length b.queue < b.cache = ltb→lt _ _ room in
          subst (InOrder cache (taken ++ msg ∷ []) given) eb (
            sym (append_assoc given b.queue (msg ∷ [])) ∙ ap (λ k. k ++ msg ∷ []) same,
            omega (arith, length-append b.queue (msg ∷ [])),
            places,
          )
      | inr full ↦
          let bad : ◌≡◌ {A = Broker × Outcome Failure (Unit {0})} (b, err send_timeout)
              (b', ok tt) =
            rw full at e in
          cc
    ]

take_message-InOrder :
    (cache : ℕ) (taken given : List BrokerMessage) (b b' : Broker) (msg : BrokerMessage)
    (queue : List BrokerMessage)
    → b.queue ≡ queue
    → InOrder cache taken given b
    → take_message b queue ≡ (b', ok msg)
    → InOrder cache taken (given ++ msg ∷ []) b'
unfolding take_message
take_message-InOrder cache taken given b b' msg [] eq (same, bound, places) e = cc
take_message-InOrder cache taken given b b' msg (m ∷ rest) eq (same, bound, places) e =
    let eb : record b { queue = rest } ≡ b' = ap (λ r. r.0) e in
    let em : m ≡ msg = cc in
    let size : length b.queue ≡ suc (length rest) = ap length eq in
    subst (InOrder cache taken (given ++ msg ∷ [])) eb (
      append_assoc given (msg ∷ []) rest
          ∙ ap (λ k. given ++ k ∷ rest) (sym em)
          ∙ ap (λ k. given ++ k) (sym eq)
          ∙ same,
      omega arith,
      places,
    )

-- Whatever calls of `SendMessage` and `GetMessage` come in whatever order, messages are given out in the
-- order in which they were taken, none is lost or doubled, and the channel is within its capacity.
pub Trace-InOrder :
    {cache : ℕ} {taken given : List BrokerMessage} {b : Broker}
    → Trace cache taken given b
    → InOrder cache taken given b
unfolding new_channel_broker get_message
Trace-InOrder start = (refl, omega arith, refl)
Trace-InOrder (sent msg t e) = send_message-InOrder _ _ _ _ _ msg (Trace-InOrder t) e
Trace-InOrder (got {b = b} msg t e) =
    take_message-InOrder _ _ _ b _ msg b.queue refl (Trace-InOrder t) e

module _ {V : Type 0} where
  -- A result that is set is returned by the next `GetResult` of its task and only by that one; the results
  -- of other tasks stay.
  pub get_result-set :
      (id other : String) (r : ResultMessage V) (cache : Dict (ResultMessage V))
      → ((get_result id (set_result id r cache)).1 ≡ ok r)
        × ((get_result id (get_result id (set_result id r cache)).0).1 ≡ err not_found)
        × (id ≢ other → lookup other (get_result id (set_result id r cache)).0 ≡ lookup other cache)
  unfolding get_result set_result take_result
  get_result-set id other r cache =
      let found = lookup-insert_self id r cache in
      let taken : take_result id (insert id r cache) (lookup id (insert id r cache))
          ≡ (delete id (insert id r cache), ok r) =
        ap (take_result id (insert id r cache)) found in
      let gone = lookup-delete_self id (insert id r cache) in
      (
        ap (λ k. k.1) taken,
        ap (λ k. (take_result id k.0 (lookup id k.0)).1) taken
            ∙ ap (λ k. (take_result id (delete id (insert id r cache)) k).1) gone,
        λ differ.
            ap (λ k. lookup other k.0) taken
            ∙ lookup-delete id other (insert id r cache)
            ∙ ap (λ k. if id ==ₛ other then none else k) (lookup-insert id other r cache)
            ∙ ground (arith, ==ₛ_iff id other),
      )
