-- ===== src/Dm/Request/Samples.antt =====
-- The theorems on the messages of the device d, and on a call that waits for its properties.
use jopa.Common.{
  ℕ, Bool, true, false, ◌==◌, ◌++ₛ◌, ◌==ₛ◌, if◌then◌else◌, List, [], ◌∷◌, none, some, ◌≡◌, refl,
  subst,
}
use jopa.Common.Dict.{lookup, insert}
use jopa.Common.Table.{find, set}
use jopa.Common.Outcome.{ok}
use jopa.Dm.Context.{Property, parse_property_values, by_name, parse_values, parse_property_value}
use jopa.Dm.Samples.{strconv, ctx, reading, parsed}
use jopa.Dm.Observer.{device_prefix, is_empty, on_publish}
use jopa.Dm.Observer.Laws.{offered, on_publish-of_device}
use jopa.Dm.Request.{
  Shadow, requested, returned, Getter, no_requests, Content, read_response, process_response,
  get_advance, Event, to_call, to_advance, run,
}
use jopa.Dm.Request.Laws.{OwnChannel}
use jopa.Dm.Request.Owners.{run-OwnChannel}
use jopa.Dm.Request.Answer.{call_at, is_waiting, response-returned, response-lost}

on_publish-of_device_example :
    lookup "d"
      (on_publish {M = ℕ} (device_prefix ++ₛ ("d" ++ₛ ("/" ++ₛ "delta"))) (some 7) (("d", []) ∷ []))
    ≡ (if "d" ==ₛ "d" then offered 7 (lookup "d" (("d", []) ∷ [])) else lookup "d" (("d", []) ∷ []))
unfolding is_empty
on_publish-of_device_example =
    on_publish-of_device "d" "delta" "d" 7 (("d", []) ∷ []) refl refl
      (refl, (refl, (refl, (refl, (refl, tt))))) (refl, tt)
      (refl, (refl, (refl, (refl, (refl, tt)))))

-- A call that waits, and one that has only asked.
abbrev waits : List (Event strconv ctx)
waits = to_call "d" true ∷ to_advance 0 ∷ to_advance 0 ∷ []

abbrev asked : List (Event strconv ctx)
asked = to_call "d" true ∷ []

abbrev content : Content ℕ
content = ok (some (record { name = "d"; report = reading; desire = [] }))

abbrev shadow : Shadow (Property ℕ ℕ)
shadow = record { name = "d"; report = parsed; desire = [] }

run-OwnChannel_example : OwnChannel (run strconv ctx waits no_requests)
run-OwnChannel_example = run-OwnChannel strconv ctx waits

response-returned_example :
    let (q, e) = process_response strconv ctx "d" content (run strconv ctx waits no_requests) in
    (e ≡ ok tt)
    × (find 0 (get_advance 0 q).getters ≡ some (call_at "d" (returned (ok shadow))))
    × (lookup "d" (get_advance 0 q).response ≡ none)
unfolding run find set lookup insert read_response parse_property_values by_name parse_values
    parse_property_value
response-returned_example = response-returned strconv ctx waits "d" content 0 shadow refl refl

lone :
    (b : Bool) (one getter : Getter (Property ℕ ℕ))
    → (if b then some one else none) ≡ some getter
    → is_waiting one.phase ≡ false
    → is_waiting getter.phase ≡ false
lone true one getter e h =
    let same : one ≡ getter = cc in subst (λ x. is_waiting x.phase ≡ false) same h
lone false one getter e h = cc

response-lost_example :
    (process_response strconv ctx "d" content (run strconv ctx asked no_requests)).0
    ≡ run strconv ctx asked no_requests
unfolding run find set
response-lost_example =
    response-lost strconv ctx asked "d" content
      (λ g getter found same. lone (0 == g) (call_at "d" requested) getter found refl)
