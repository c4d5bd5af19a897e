-- ===== src/Dm/Observer/Laws.antt =====
-- dmcontext/observer.go: which device a topic names, and where its message goes.
use jopa.Common.{
  ℕ, String, ◌++ₛ◌, Bool, true, false, Bool-cases, inl, inr, subst, ◌==◌, ==_iff, ◌==ₛ◌, ==ₛ_iff,
  if◌then◌else◌, List, [], ◌∷◌, ◌++◌, map, length, ltb, Option, none, some, ◌≡◌, refl, ap, ◌∙◌,
}
use jopa.Common.Outcome.{ok}
use jopa.Common.Dict.{lookup, insert, lookup-insert}
use Prim.Native.Char.{code}
use Prim.Native.String.append
use jopa.Dm.Observer.{
  slash, newline, is_empty, strip, line_of, cons_front, cuts, try_cuts, groups, match_here,
  or_later, find_submatch, first_group, device_prefix, parse_topic, parse_blink_topic, is_baetyl,
  parse_device_topic, channel_size, Channels, put, put_decoded, publish_parsed, on_publish,
}

-- No character of the text is this one.
abbrev pub Avoids : ℕ → String → Type 0
Avoids k String.[] = Unit
Avoids k (String.◌∷◌ c w) = (code c == k ≡ false) × Avoids k w

Avoids-append : (k : ℕ) (v w : String) → Avoids k v → Avoids k w → Avoids k (v ++ₛ w)
Avoids-append k String.[] w h g = rw append.nil g
Avoids-append k (String.◌∷◌ c v) w (ne, h) g = rw append.cons (ne, Avoids-append k v w h g)

line_of-Avoids : (w : String) → Avoids newline w → line_of w ≡ w
unfolding line_of
line_of-Avoids String.[] h = refl
line_of-Avoids (String.◌∷◌ c w) (ne, h) = rw (ne, line_of-Avoids w h) refl

cuts-Avoids : (w : String) → Avoids slash w → cuts w ≡ []
unfolding cuts
cuts-Avoids String.[] h = refl
cuts-Avoids (String.◌∷◌ c w) (ne, h) = rw (ne, cuts-Avoids w h) refl

-- The list has a head, whatever is added at its end.
head_of :
    {A : Type 0} (b : Bool) (x : A) (xs last : List A)
    → (more : List A) × ((if b then (x ∷ xs) ++ last else x ∷ xs) ≡ x ∷ more)
head_of true x xs last = (xs ++ last, refl)
head_of false x xs last = (xs, refl)

-- The first cut is at the last slash.
cuts-last :
    (front back : String)
    → Avoids slash back
    → (more : List (String × String)) × (cuts (front ++ₛ ("/" ++ₛ back)) ≡ (front, back) ∷ more)
unfolding cuts
cuts-last String.[] back h = (
  [],
  ap cuts (
        append.nil ("/" ++ₛ back)
        ∙ append.cons "/" String.[] back
        ∙ ap (String.◌∷◌ "/") (append.nil back))
      ∙ ap (λ l. map (cons_front "/") l ++ (String.[], back) ∷ []) (cuts-Avoids back h),
)
cuts-last (String.◌∷◌ c front) back h =
    let (more, e) = cuts-last front back h in
    let w = front ++ₛ ("/" ++ₛ back) in
    let (all, same) =
      head_of (code c == slash) (String.◌∷◌ c front, back) (map (cons_front c) more)
        ((String.[], w) ∷ []) in
    (
      all,
      ap cuts (append.cons c front ("/" ++ₛ back))
          ∙ ap
              (λ l.
                if code c == slash
                then map (cons_front c) l ++ (String.[], w) ∷ []
                else map (cons_front c) l)
              e
          ∙ same,
    )

-- Two parts that are not empty, the second without a slash, are found.
groups-two :
    (front back : String)
    → is_empty front ≡ false
    → is_empty back ≡ false
    → Avoids slash back
    → groups 1 (front ++ₛ ("/" ++ₛ back)) ≡ some (front ∷ back ∷ [])
unfolding groups try_cuts
groups-two front back some_front some_back h =
    let (more, e) = cuts-last front back h in
    ap (try_cuts (groups 0)) e ∙ (rw (some_front, some_back) refl)

strip-append : (prefix w : String) → strip prefix (prefix ++ₛ w) ≡ some w
unfolding strip
strip-append String.[] w = ap some (append.nil w)
strip-append (String.◌∷◌ p prefix) w =
    ap (strip (String.◌∷◌ p prefix)) (append.cons p prefix w)
    ∙ (rw ((==_iff (code p) (code p)).1 refl) (strip-append prefix w))

-- A match at the start of the text is the leftmost.
find_submatch-here :
    (prefix : String) (n : ℕ) (v : String) {gs : List String}
    → match_here n (strip prefix v) ≡ some gs
    → find_submatch prefix n v ≡ some gs
unfolding find_submatch or_later
find_submatch-here prefix n String.[] h = h
find_submatch-here prefix n (String.◌∷◌ c v) h = rw h refl

find_submatch-prefix :
    (prefix : String) (n : ℕ) (w : String) {gs : List String}
    → Avoids newline w
    → groups n w ≡ some gs
    → find_submatch prefix n (prefix ++ₛ w) ≡ some gs
unfolding match_here
find_submatch-prefix prefix n w one_line h =
    find_submatch-here prefix n (prefix ++ₛ w)
      (ap (match_here n) (strip-append prefix w) ∙ ap (groups n) (line_of-Avoids w one_line) ∙ h)

is_baetyl-device : (w : String) → is_baetyl (device_prefix ++ₛ w) ≡ true
unfolding is_baetyl
is_baetyl-device w = ap is_baetyl (append.cons "$" "baetyl/device/" w)

-- A topic of a device names it.
parse_device_topic-of_device :
    (name kind : String)
    → is_empty name ≡ false
    → is_empty kind ≡ false
    → Avoids slash kind
    → Avoids newline name
    → Avoids newline kind
    → parse_device_topic (device_prefix ++ₛ (name ++ₛ ("/" ++ₛ kind))) ≡ ok name
unfolding parse_device_topic parse_topic first_group
parse_device_topic-of_device name kind some_name some_kind one_part name_line kind_line =
    let w = name ++ₛ ("/" ++ₛ kind) in
    let one_line =
      Avoids-append newline name ("/" ++ₛ kind) name_line
        (Avoids-append newline "/" kind (refl, tt) kind_line) in
    let found =
      find_submatch-prefix device_prefix 1 w one_line
        (groups-two name kind some_name some_kind one_part) in
    ap
      (λ b.
        if b then parse_topic (device_prefix ++ₛ w) else parse_blink_topic (device_prefix ++ₛ w))
      (is_baetyl-device w)
    ∙ ap first_group found

-- What a channel holds after a message for one device came.
abbrev pub offered : {M : Type 0} → M → Option (List M) → Option (List M)
offered msg none = none
offered msg (some queue) =
    some (if ltb (length queue) channel_size then queue ++ msg ∷ [] else queue)

module _ {M : Type 0} where
  -- A table that is left as it is keeps what the key has.
  kept :
      (device other : String) (chs : Channels M) {v : Option (List M)}
      → lookup device chs ≡ v
      → lookup other chs ≡ (if device ==ₛ other then v else lookup other chs)
  kept device other chs {v} h = elim (Bool-cases (device ==ₛ other)) [
    | inl t ↦ rw t (subst (λ k. lookup k chs ≡ v) ((==ₛ_iff device other).0 t) h)
    | inr f ↦ rw f refl
  ]

  put_room :
      (device other : String) (msg : M) (queue : List M) (chs : Channels M) (room : Bool)
      → lookup device chs ≡ some queue
      → lookup other (if room then insert device (queue ++ msg ∷ []) chs else chs) ≡ (
          if device ==ₛ other
          then some (if room then queue ++ msg ∷ [] else queue)
          else lookup other chs)
  put_room device other msg queue chs true h = lookup-insert device other (queue ++ msg ∷ []) chs
  put_room device other msg queue chs false h = kept device other chs h

  put-lookup :
      (device other : String) (msg : M) (o : Option (List M)) (chs : Channels M)
      → lookup device chs ≡ o
      → lookup other (put device msg o chs)
        ≡ (if device ==ₛ other then offered msg o else lookup other chs)
  unfolding put
  put-lookup device other msg none chs h = kept device other chs h
  put-lookup device other msg (some queue) chs h =
      put_room device other msg queue chs (ltb (length queue) channel_size) h

  on_publish-lookup :
      (topic device other : String) (msg : M) (chs : Channels M)
      → parse_device_topic topic ≡ ok device
      → lookup other (on_publish topic (some msg) chs)
        ≡ (if device ==ₛ other then offered msg (lookup device chs) else lookup other chs)
  unfolding on_publish publish_parsed put_decoded
  on_publish-lookup topic device other msg chs h =
      ap (λ o. lookup other (publish_parsed o (some msg) chs)) h
      ∙ put-lookup device other msg (lookup device chs) chs refl

  -- For a name and a kind that are not empty and hold no line break, the kind without a slash: a message published to
  -- "$baetyl/device/", the name, a slash and the kind, whose payload is decoded, goes to the end of the channel of the
  -- device of that name, which may have slashes, if there is a channel and it is not full; every other channel is as
  -- it was, and so is this one when it is full.
  pub on_publish-of_device :
      (name kind other : String) (msg : M) (chs : Channels M)
      → is_empty name ≡ false
      → is_empty kind ≡ false
      → Avoids slash kind
      → Avoids newline name
      → Avoids newline kind
      → lookup other (on_publish (device_prefix ++ₛ (name ++ₛ ("/" ++ₛ kind))) (some msg) chs)
        ≡ (if name ==ₛ other then offered msg (lookup name chs) else lookup other chs)
  on_publish-of_device name kind other msg chs some_name some_kind one_part name_line kind_line =
      on_publish-lookup (device_prefix ++ₛ (name ++ₛ ("/" ++ₛ kind))) name other msg chs
        (parse_device_topic-of_device name kind some_name some_kind one_part name_line kind_line)
