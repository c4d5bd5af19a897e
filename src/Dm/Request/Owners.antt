-- ===== src/Dm/Request/Owners.antt =====
-- dmcontext/context.go: the table of responses in every run.
use jopa.Common.{
  ℕ, suc, ◌≤◌, String, Bool, true, false, ◌==◌, ==_iff, Bool-cases, if◌then◌else◌, List, [], ◌∷◌,
  Option, none, some, ◌≡◌, refl, ap, sym, ◌∙◌, subst, inl, inr, arith,
}
use jopa.Common.Dict.{lookup}
use jopa.Common.Table.{find, set, find-set}
use jopa.Common.Outcome.{Outcome, ok, err, panic}
use jopa.Dm.Context.{Property, DmCtx, Strconv}
use jopa.Dm.Request.{
  Failure, Shadow, Phase, requested, stored, waiting, expired, received, returned, Getter, Requests,
  no_requests, move, get_call, store_channel, give_up, advance_phase, advance_found, get_advance,
  wake, wake_found, on_timeout, deliver, Content, read_response, send_shadow, respond,
  process_response, Event, to_call, to_advance, to_expire, to_respond, apply, run,
}
use jopa.Dm.Request.Laws.{
  is_holding, held, holder, OwnChannel, Fresh, held-set, move-holder, OwnChannel-same,
  store-OwnChannel, give_up-OwnChannel,
}

before : (a b : ℕ) → suc a ≤ b → a == b ≡ false
before a b le = ground arith

abbrev first_phase : (V : Type 0) → Bool → Phase V
first_phase V published = if published then requested else returned (err Failure.publish_failed)

not_held : (V : Type 0) (published : Bool) → is_holding (first_phase V published) ≡ false
not_held V true = refl
not_held V false = refl

module _ {V : Type 0} where
  abbrev pub Sound : Requests V → Type 0
  Sound q = OwnChannel q × Fresh q

  -- A number that is in use is not one of a later call.
  set-Fresh :
      (g0 : ℕ) (getter new : Getter V) (q : Requests V)
      → find g0 q.getters ≡ some getter
      → Fresh q
      → (g : ℕ) → q.next_channel ≤ g
      → find g (set g0 new q.getters) ≡ none
  set-Fresh g0 getter new q found fresh g le = elim (Bool-cases (g0 == g)) [
    | inl t ↦
        let e : none ≡ some getter =
          sym (fresh g le)
          ∙ subst (λ k. find k q.getters ≡ some getter) ((==_iff g0 g).0 t) found in
        cc
    | inr f ↦ find-set g0 g new q.getters ∙ (rw f (fresh g le))
  ]

  move-Sound :
      (g : ℕ) (getter : Getter V) (next : Phase V) (q : Requests V)
      → find g q.getters ≡ some getter
      → is_holding next ≡ is_holding getter.phase
      → Sound q
      → Sound (move g getter next q)
  unfolding move
  move-Sound g getter next q found same (own, fresh) = (
    OwnChannel-same q (set g (record getter { phase = next }) q.getters) q.next_channel
        (λ k. move-holder g k getter next q found same) own,
    set-Fresh g getter (record getter { phase = next }) q found fresh,
  )

  store-Sound :
      (g : ℕ) (getter : Getter V) (o : Option ℕ) (q : Requests V)
      → find g q.getters ≡ some getter
      → getter.phase ≡ requested
      → lookup getter.device q.response ≡ o
      → Sound q
      → Sound (store_channel g getter o q)
  unfolding store_channel move
  store-Sound g getter (some other) q found phase free sound =
      move-Sound g getter (returned (err Failure.waiting_already)) q found (rw phase refl) sound
  store-Sound g getter none q found phase free (own, fresh) = (
    store-OwnChannel g getter q found phase free own,
    set-Fresh g getter (record getter { phase = stored }) q found fresh,
  )

  give_up-Sound :
      (g : ℕ) (getter : Getter V) (result : Outcome Failure (Shadow V)) (q : Requests V)
      → find g q.getters ≡ some getter
      → is_holding getter.phase ≡ true
      → Sound q
      → Sound (give_up g getter result q)
  unfolding give_up move
  give_up-Sound g getter result q found holding (own, fresh) = (
    give_up-OwnChannel g getter result q found holding own,
    set-Fresh g getter (record getter { phase = returned result }) q found fresh,
  )

  advance-Sound :
      (g : ℕ) (getter : Getter V) (phase : Phase V) (q : Requests V)
      → find g q.getters ≡ some getter
      → getter.phase ≡ phase
      → Sound q
      → Sound (advance_phase g getter phase q)
  unfolding advance_phase
  advance-Sound g getter requested q found e sound =
      store-Sound g getter (lookup getter.device q.response) q found e refl sound
  advance-Sound g getter stored q found e sound =
      move-Sound g getter waiting q found (rw e refl) sound
  advance-Sound g getter waiting q found e sound = sound
  advance-Sound g getter expired q found e sound =
      give_up-Sound g getter (err Failure.timed_out) q found (rw e refl) sound
  advance-Sound g getter (received shadow) q found e sound =
      give_up-Sound g getter (ok shadow) q found (rw e refl) sound
  advance-Sound g getter (returned result) q found e sound = sound

  advance_found-Sound :
      (g : ℕ) (o : Option (Getter V)) (q : Requests V)
      → find g q.getters ≡ o
      → Sound q
      → Sound (advance_found g o q)
  unfolding advance_found
  advance_found-Sound g none q found sound = sound
  advance_found-Sound g (some getter) q found sound =
      advance-Sound g getter getter.phase q found refl sound

  wake-Sound :
      (g : ℕ) (getter : Getter V) (phase next : Phase V) (q : Requests V)
      → find g q.getters ≡ some getter
      → getter.phase ≡ phase
      → is_holding next ≡ true
      → Sound q
      → Sound (wake g getter phase next q)
  unfolding wake
  wake-Sound g getter requested next q found e holds sound = sound
  wake-Sound g getter stored next q found e holds sound = sound
  wake-Sound g getter waiting next q found e holds sound =
      move-Sound g getter next q found (holds ∙ rw e refl) sound
  wake-Sound g getter expired next q found e holds sound = sound
  wake-Sound g getter (received shadow) next q found e holds sound = sound
  wake-Sound g getter (returned result) next q found e holds sound = sound

  wake_found-Sound :
      (g : ℕ) (o : Option (Getter V)) (next : Phase V) (q : Requests V)
      → find g q.getters ≡ o
      → is_holding next ≡ true
      → Sound q
      → Sound (wake_found g o next q)
  unfolding wake_found
  wake_found-Sound g none next q found holds sound = sound
  wake_found-Sound g (some getter) next q found holds sound =
      wake-Sound g getter getter.phase next q found refl holds sound

  call-Sound :
      (device : String) (published : Bool) (q : Requests V)
      → Sound q
      → Sound (get_call device published q)
  unfolding get_call
  call-Sound device published q (own, fresh) =
      let phase = first_phase V published in
      let new : Getter V = record { device = device; phase = phase } in
      let getters = set q.next_channel new q.getters in
      let unused = λ (g : ℕ).
        elim (Bool-cases (q.next_channel == g))
          as (λ _. (if q.next_channel == g then held (some new) else holder q g) ≡ holder q g) [
            | inl t ↦
                rw (t, not_held V published)
                  (sym (ap held (fresh g (omega (arith, (==_iff q.next_channel g).0 t)))))
            | inr f ↦ rw f refl
          ] in
      (
        OwnChannel-same q getters (suc q.next_channel)
            (λ g. held-set q.next_channel g new q.getters ∙ unused g) own,
        λ g le.
            find-set q.next_channel g new q.getters
            ∙ (rw (before q.next_channel g le) (fresh g (omega arith))),
      )

module _ {F S Ev : Type 0} (conv : Strconv F) (c : DmCtx F S Ev) where
  send-Sound :
      (g : ℕ) (o : Outcome Failure (Shadow (Property F S))) (q : Requests (Property F S))
      → Sound q
      → Sound (send_shadow conv c g o q).0
  unfolding send_shadow deliver
  send-Sound g (ok shadow) q sound =
      wake_found-Sound g (find g q.getters) (received shadow) q refl refl sound
  send-Sound g (err e) q sound = sound
  send-Sound g panic q sound = sound

  respond-Sound :
      (device : String) (content : Content S) (o : Option ℕ) (q : Requests (Property F S))
      → Sound q
      → Sound (respond conv c device content o q).0
  unfolding respond
  respond-Sound device content none q sound = sound
  respond-Sound device content (some g) q sound =
      send-Sound g (read_response conv c device content) q sound

  apply-Sound :
      (e : Event conv c) (q : Requests (Property F S)) → Sound q → Sound (apply conv c e q)
  unfolding apply get_advance on_timeout process_response
  apply-Sound (to_call device published) q sound = call-Sound device published q sound
  apply-Sound (to_advance g) q sound = advance_found-Sound g (find g q.getters) q refl sound
  apply-Sound (to_expire g) q sound =
      wake_found-Sound g (find g q.getters) expired q refl refl sound
  apply-Sound (to_respond device content) q sound =
      respond-Sound device content (lookup device q.response) q sound

  run-Sound :
      (es : List (Event conv c)) (q : Requests (Property F S)) → Sound q → Sound (run conv c es q)
  unfolding run
  run-Sound [] q sound = sound
  run-Sound (e ∷ es) q sound = run-Sound es (apply conv c e q) (apply-Sound e q sound)

  -- In every run of calls, their timers and responses, however they come in between each other, the table of
  -- responses has for a device the channel of a call exactly if that call is for the device and is between storing
  -- its channel and returning; so there is at most one such call for a device.
  pub run-OwnChannel : (es : List (Event conv c)) → OwnChannel (run conv c es no_requests)
  unfolding lookup find
  run-OwnChannel es =
      (run-Sound es no_requests ((λ device g. (λ h. cc, λ h. cc)), (λ g le. refl))).0
