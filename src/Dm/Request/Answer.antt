-- ===== src/Dm/Request/Answer.antt =====
-- dmcontext/context.go: what a response does for the calls that wait, and for those that do not wait yet.
use jopa.Common.{
  ℕ, String, Bool, true, false, ==_iff, if◌then◌else◌, List, Option, none, some, ◌≡◌, refl, ap, sym,
  ◌∙◌,
}
use jopa.Common.Dict.{lookup, lookup-delete_self}
use jopa.Common.Table.{Table, find, set, find-set}
use jopa.Common.Outcome.{Outcome, ok, err, panic}
use jopa.Dm.Context.{Property, DmCtx, Strconv}
use jopa.Dm.Request.{
  Failure, Shadow, Phase, requested, stored, waiting, expired, received, returned, Getter, Requests,
  no_requests, move, give_up, advance_phase, advance_found, get_advance, wake, wake_found, deliver,
  Content, read_response, send_shadow, respond, process_response, Event, run,
}
use jopa.Dm.Request.Laws.{is_holding, held, OwnChannel}
use jopa.Dm.Request.Owners.{run-OwnChannel}

-- This call, with this phase.
abbrev pub call_at : {V : Type 0} → String → Phase V → Getter V
call_at device phase = record { device = device; phase = phase }

-- Whether the call waits for its channel.
abbrev pub is_waiting : {V : Type 0} → Phase V → Bool
is_waiting waiting = true
is_waiting _ = false

module _ {V : Type 0} where
  find-set_self :
      (g : ℕ) (getter : Getter V) (t : Table (Getter V)) → find g (set g getter t) ≡ some getter
  find-set_self g getter t = find-set g g getter t ∙ rw ((==_iff g g).1 refl) refl

  -- What has arrived is returned, and the device is free again.
  advance-received :
      (g : ℕ) (device : String) (shadow : Shadow V) (q : Requests V)
      → find g q.getters ≡ some (call_at device (received shadow))
      → (find g (get_advance g q).getters ≡ some (call_at device (returned (ok shadow))))
        × (lookup device (get_advance g q).response ≡ none)
  unfolding get_advance advance_found advance_phase give_up move
  advance-received g device shadow q found =
      rw found (find-set_self g _ q.getters, lookup-delete_self device q.response)

some_of_test : (b : Bool) {x y : String} → (if b then some x else none) ≡ some y → x ≡ y
some_of_test true e = cc
some_of_test false e = cc

-- The device of a call that has its channel in the table.
held-device :
    {V : Type 0} (o : Option (Getter V)) (device : String) (getter : Getter V)
    → held o ≡ some device
    → o ≡ some getter
    → getter.device ≡ device
held-device o device getter h e = some_of_test (is_holding getter.phase) (sym (ap held e) ∙ h)

module _ {F S Ev : Type 0} (conv : Strconv F) (c : DmCtx F S Ev) where
  wake-not_waiting :
      (g : ℕ) (getter : Getter (Property F S)) (phase next : Phase (Property F S))
      (q : Requests (Property F S))
      → is_waiting phase ≡ false
      → wake g getter phase next q ≡ q
  unfolding wake
  wake-not_waiting g getter requested next q h = refl
  wake-not_waiting g getter stored next q h = refl
  wake-not_waiting g getter waiting next q h = cc
  wake-not_waiting g getter expired next q h = refl
  wake-not_waiting g getter (received shadow) next q h = refl
  wake-not_waiting g getter (returned result) next q h = refl

  wake_found-not_waiting :
      (g : ℕ) (o : Option (Getter (Property F S))) (next : Phase (Property F S))
      (q : Requests (Property F S))
      → ((getter : Getter (Property F S)) → o ≡ some getter → is_waiting getter.phase ≡ false)
      → wake_found g o next q ≡ q
  unfolding wake_found
  wake_found-not_waiting g none next q h = refl
  wake_found-not_waiting g (some getter) next q h =
      wake-not_waiting g getter getter.phase next q (h getter refl)

  send-not_waiting :
      (g : ℕ) (o : Outcome Failure (Shadow (Property F S))) (q : Requests (Property F S))
      → ((getter : Getter (Property F S))
          → find g q.getters ≡ some getter
          → is_waiting getter.phase ≡ false)
      → (send_shadow conv c g o q).0 ≡ q
  unfolding send_shadow deliver
  send-not_waiting g (ok shadow) q h =
      wake_found-not_waiting g (find g q.getters) (received shadow) q h
  send-not_waiting g (err e) q h = refl
  send-not_waiting g panic q h = refl

  respond-not_waiting :
      (device : String) (content : Content S) (o : Option ℕ) (q : Requests (Property F S))
      → OwnChannel q
      → lookup device q.response ≡ o
      → ((g : ℕ) (getter : Getter (Property F S))
          → find g q.getters ≡ some getter
          → getter.device ≡ device
          → is_waiting getter.phase ≡ false)
      → (respond conv c device content o q).0 ≡ q
  unfolding respond
  respond-not_waiting device content none q own e none_waits = refl
  respond-not_waiting device content (some g) q own e none_waits =
      send-not_waiting g (read_response conv c device content) q (λ getter found.
        none_waits g getter found
          (held-device (find g q.getters) device getter ((own device g).0 e) found))

  respond-waiting :
      (device : String) (content : Content S) (g : ℕ) (shadow : Shadow (Property F S))
      (q : Requests (Property F S))
      → OwnChannel q
      → find g q.getters ≡ some (call_at device waiting)
      → read_response conv c device content ≡ ok shadow
      → process_response conv c device content q
        ≡ (move g (call_at device waiting) (received shadow) q, ok tt)
  unfolding process_response respond send_shadow deliver wake_found wake
  respond-waiting device content g shadow q own found read =
      rw ((own device g).1 (ap held found)) (rw (read, found) refl)

  -- In every run: a response that can be read, for a device whose call waits for its channel, is what that call
  -- returns in its next step, after which the device is free for another call.
  pub response-returned :
      (es : List (Event conv c)) (device : String) (content : Content S) (g : ℕ)
      (shadow : Shadow (Property F S))
      → find g (run conv c es no_requests).getters ≡ some (call_at device waiting)
      → read_response conv c device content ≡ ok shadow
      → (let (q, e) = process_response conv c device content (run conv c es no_requests) in
          (e ≡ ok tt)
          × (find g (get_advance g q).getters ≡ some (call_at device (returned (ok shadow))))
          × (lookup device (get_advance g q).response ≡ none))
  unfolding move
  response-returned es device content g shadow found read =
      let q = run conv c es no_requests in
      rw (respond-waiting device content g shadow q (run-OwnChannel conv c es) found read) (
        let (returns, frees) =
          advance-received g device shadow (move g (call_at device waiting) (received shadow) q)
            (find-set_self g _ q.getters) in
        (refl, returns, frees))

  -- In every run: a response for a device none of whose calls waits for its channel yet, though one may already have
  -- asked for the properties, or have stored its channel, changes nothing: it is lost.
  pub response-lost :
      (es : List (Event conv c)) (device : String) (content : Content S)
      → ((g : ℕ) (getter : Getter (Property F S))
          → find g (run conv c es no_requests).getters ≡ some getter
          → getter.device ≡ device
          → is_waiting getter.phase ≡ false)
      → (process_response conv c device content (run conv c es no_requests)).0
        ≡ run conv c es no_requests
  unfolding process_response
  response-lost es device content none_waits =
      let q = run conv c es no_requests in
      respond-not_waiting device content (lookup device q.response) q (run-OwnChannel conv c es)
        refl none_waits
