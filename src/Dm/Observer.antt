-- ===== src/Dm/Observer.antt =====
-- dmcontext/observer.go: the device that a topic names, and the message put into the channel of that device. The two
-- patterns are matched the way package regexp does it: leftmost, every `(.+)` as long as it can be.
pub mod Laws
use jopa.Common.{
  ℕ, zero, suc, String, Bool, true, false, ◌==◌, if◌then◌else◌, List, [], ◌∷◌, ◌++◌, map, length,
  ltb, Option, none, some,
}
use jopa.Common.Outcome.{Outcome, ok, err, panic}
use jopa.Common.Dict.{Dict, lookup, insert}
use Prim.Native.Char.{Char, code}

pub data Failure : Type 0 where
  illegal_topic : Failure

abbrev pub slash : ℕ
slash = 47

abbrev pub newline : ℕ
newline = 10

unfoldable pub is_empty : String → Bool
is_empty String.[] = true
is_empty (String.◌∷◌ c s) = false

-- What follows the prefix.
unfoldable pub strip : String → String → Option String
strip String.[] w = some w
strip (String.◌∷◌ p prefix) String.[] = none
strip (String.◌∷◌ p prefix) (String.◌∷◌ c w) =
    let rest = strip prefix w in if code p == code c then rest else none

-- `.` matches no end of a line.
unfoldable pub line_of : String → String
line_of String.[] = String.[]
line_of (String.◌∷◌ c w) =
    let rest = line_of w in if code c == newline then String.[] else String.◌∷◌ c rest

abbrev pub cons_front : Char → String × String → String × String
cons_front c (front, back) = (String.◌∷◌ c front, back)

-- The ways to cut a text at a slash, the longest front first.
unfoldable pub cuts : String → List (String × String)
cuts String.[] = []
cuts (String.◌∷◌ c w) =
    let later = map (cons_front c) (cuts w) in
    if code c == slash then later ++ (String.[], w) ∷ [] else later

abbrev pub with_front : String → Option (List String) → Option (List String) → Option (List String)
with_front front none otherwise = otherwise
with_front front (some gs) otherwise = some (front ∷ gs)

-- The first cut whose front is not empty and whose back matches.
unfoldable pub try_cuts :
    (String → Option (List String)) → List (String × String) → Option (List String)
unfolding is_empty
try_cuts match_back [] = none
try_cuts match_back ((front, back) ∷ more) =
    let otherwise = try_cuts match_back more in
    if is_empty front then otherwise else with_front front (match_back back) otherwise

-- `(.+)/(.+)/...`, with so many slashes.
unfoldable pub groups : ℕ → String → Option (List String)
unfolding is_empty cuts try_cuts
groups zero w = if is_empty w then none else some (w ∷ [])
groups (suc n) w = try_cuts (groups n) (cuts w)

match_here : ℕ → Option String → Option (List String)
unfolding line_of groups
match_here n none = none
match_here n (some rest) = groups n (line_of rest)

or_later : Option (List String) → Option (List String) → Option (List String)
or_later none later = later
or_later (some gs) later = some gs

-- `FindStringSubmatch`, without the text of the whole match.
unfoldable pub find_submatch : String → ℕ → String → Option (List String)
unfolding strip match_here or_later
find_submatch prefix n String.[] = match_here n (strip prefix String.[])
find_submatch prefix n (String.◌∷◌ c w) =
    or_later (match_here n (strip prefix (String.◌∷◌ c w))) (find_submatch prefix n w)

first_group : Option (List String) → Outcome Failure String
first_group (some (device ∷ _)) = ok device
first_group _ = err illegal_topic

second_group : Option (List String) → Outcome Failure String
second_group (some (product ∷ device ∷ _)) = ok device
second_group _ = err illegal_topic

abbrev pub device_prefix : String
device_prefix = "$baetyl/device/"

abbrev pub blink_prefix : String
blink_prefix = "thing/"

-- `ParseTopic`
unfoldable pub parse_topic : String → Outcome Failure String
unfolding find_submatch first_group
parse_topic topic = first_group (find_submatch device_prefix 1 topic)

-- `parseBlinkTopic`
unfoldable pub parse_blink_topic : String → Outcome Failure String
unfolding find_submatch second_group
parse_blink_topic topic = second_group (find_submatch blink_prefix 3 topic)

-- `strings.HasPrefix(topic, BaetylTopicPrefix)`
unfoldable pub is_baetyl : String → Bool
is_baetyl String.[] = false
is_baetyl (String.◌∷◌ c w) = code c == 36

-- `ParseDeviceTopic`
unfoldable pub parse_device_topic : String → Outcome Failure String
unfolding is_baetyl
parse_device_topic topic = if is_baetyl topic then parse_topic topic else parse_blink_topic topic

-- The size of a device's channel.
abbrev pub channel_size : ℕ
channel_size = 1024

-- The channels of the devices, each a queue.
abbrev pub Channels : Type 0 → Type 0
Channels M = Dict (List M)

module _ {M : Type 0} where
  -- `DmCtx.Start`, the channels alone, for the names of the devices.
  unfoldable pub start : List String → Channels M → Channels M
  unfolding insert
  start [] chs = chs
  start (name ∷ names) chs = start names (insert name [] chs)

  -- A message is dropped where the channel is full.
  unfoldable pub put : String → M → Option (List M) → Channels M → Channels M
  put device msg none chs = chs
  put device msg (some queue) chs =
      if ltb (length queue) channel_size then insert device (queue ++ msg ∷ []) chs else chs

  put_decoded : String → Option M → Channels M → Channels M
  unfolding put
  put_decoded device none chs = chs
  put_decoded device (some msg) chs = put device msg (lookup device chs) chs

  publish_parsed : Outcome Failure String → Option M → Channels M → Channels M
  unfolding put_decoded
  publish_parsed (ok device) payload chs = put_decoded device payload chs
  publish_parsed (err e) payload chs = chs
  publish_parsed panic payload chs = chs

  -- `OnPublish` of a topic and what its payload decodes to; every error is only logged.
  unfoldable pub on_publish : String → Option M → Channels M → Channels M
  unfolding publish_parsed
  on_publish topic payload chs = publish_parsed (parse_device_topic topic) payload chs
