-- ===== src/Pubsub/Laws.antt =====
-- What each call of pubsub does to the inboxes of the channels.
use jopa.Common.{
  ℕ, suc, String, Bool, true, false, Option, none, some, List, [], ◌∷◌, ◌++◌, length, ltb, ◌≡◌,
  refl, sym, ap, ◌∙◌, arith, inl, inr, Bool-cases, ◌==◌, ◌==ₛ◌, ==ₛ_iff, if◌then◌else◌,
}
use jopa.Common.Dict.{Dict, lookup, insert, lookup-insert}
use jopa.Common.Table.{Table, find, set, drop, find-set, find-drop}
use jopa.Pubsub.{
  Pubsub, subscribe, unsubscribe_found, offer, publish_all, publish_found, or_no_channels, rest_of,
  take_from, receive_found,
}

-- What is promised: each subscription has an inbox, and the number of the next channel is known.
abbrev pub Inboxes : Type 0 → Type 0
Inboxes M = String → ℕ → Option (List M)

module _ {M : Type 0} where
  abbrev pub map_inbox : (List M → List M) → Option (List M) → Option (List M)
  map_inbox f none = none
  map_inbox f (some waiting) = some (f waiting)

  -- What the calls do to the inbox of a channel under their topic.
  abbrev pub opened : ℕ → ℕ → Option (List M) → Option (List M)
  opened n ch q = if n == ch then some [] else q

  abbrev pub removed : ℕ → ℕ → Option (List M) → Option (List M)
  removed c ch q = if c == ch then none else q

  abbrev pub offered : ℕ → M → ℕ → Option (List M) → Option (List M)
  offered size msg ch none = none
  offered size msg ch (some waiting) =
      if ltb (length waiting) size then some (waiting ++ msg ∷ []) else some waiting

  abbrev pub read_when : Bool → Option (List M) → Option (List M)
  read_when reading none = none
  read_when reading (some []) = some []
  read_when true (some (msg ∷ waiting)) = some waiting
  read_when false (some (msg ∷ waiting)) = some (msg ∷ waiting)

  abbrev pub read : ℕ → ℕ → Option (List M) → Option (List M)
  read c ch q = read_when (c == ch) q

  abbrev offer_to : ℕ → M → ℕ → Option (List M) → Option (List M)
  offer_to size msg ch q = map_inbox (offer size msg) q

  abbrev read_from : ℕ → ℕ → Option (List M) → Option (List M)
  read_from c ch q = if c == ch then map_inbox rest_of q else q

  abbrev pub under : String → (ℕ → Option (List M) → Option (List M)) → Inboxes M → Inboxes M
  under t g f topic ch = if t ==ₛ topic then g ch (f topic ch) else f topic ch

  unfoldable pub find_in : ℕ → Option (Table (List M)) → Option (List M)
  find_in ch none = none
  find_in ch (some chs) = find ch chs

  -- The inbox of a channel under a topic.
  unfoldable pub inbox : Pubsub M → Inboxes M
  unfolding find_in
  inbox m topic ch = find_in ch (lookup topic m.channels)

  find-publish_all :
      (size : ℕ) (msg : M) (chs : Table (List M)) (ch : ℕ)
      → find ch (publish_all size msg chs).0 ≡ map_inbox (offer size msg) (find ch chs)
  unfolding find publish_all
  find-publish_all size msg [] ch = refl
  find-publish_all size msg ((c, waiting) ∷ chs) ch = elim (Bool-cases (c == ch)) [
    | inl same ↦ rw same refl
    | inr differ ↦ rw differ (find-publish_all size msg chs ch)
  ]

  find_in-no_channels :
      (ch : ℕ) (o : Option (Table (List M))) → find ch (or_no_channels o) ≡ find_in ch o
  unfolding find_in find
  find_in-no_channels ch none = refl
  find_in-no_channels ch (some chs) = refl

  -- A change of the table of one topic.
  find_in-insert :
      (t topic : String) (chs : Table (List M)) (channels : Dict (Table (List M))) (ch : ℕ)
      → find_in ch (lookup topic (insert t chs channels))
        ≡ (if t ==ₛ topic then find ch chs else find_in ch (lookup topic channels))
  unfolding find_in
  find_in-insert t topic chs channels ch = elim (Bool-cases (t ==ₛ topic)) [
    | inl same ↦
        ap (find_in ch) (
          lookup-insert t topic chs channels
          ∙ ap (λ b. if b then some chs else lookup topic channels) same)
        ∙ sym (ap (λ b. if b then find ch chs else find_in ch (lookup topic channels)) same)
    | inr differ ↦
        ap (find_in ch) (
          lookup-insert t topic chs channels
          ∙ ap (λ b. if b then some chs else lookup topic channels) differ)
        ∙ sym (ap (λ b. if b then find ch chs else find_in ch (lookup topic channels)) differ)
  ]

  -- What a call does that changes the table of one topic by `g`.
  abbrev pub At : String → (ℕ → Option (List M) → Option (List M)) → Pubsub M → Pubsub M → Type 0
  At t g m m' = (topic : String) (ch : ℕ) → inbox m' topic ch ≡ under t g (inbox m) topic ch

  inbox-insert :
      (t : String) (g : ℕ → Option (List M) → Option (List M)) (m : Pubsub M) (chs : Table (List M))
      (n : ℕ)
      → ((ch : ℕ) → find ch chs ≡ g ch (find_in ch (lookup t m.channels)))
      → At t g m (record m { next_channel = n; channels = insert t chs m.channels })
  unfolding inbox
  inbox-insert t g m chs n h topic ch = elim (Bool-cases (t ==ₛ topic)) [
    | inl same ↦
        find_in-insert t topic chs m.channels ch
        ∙ ap (λ b. if b then find ch chs else find_in ch (lookup topic m.channels)) same
        ∙ h ch
        ∙ ap (λ k. g ch (find_in ch (lookup k m.channels))) ((==ₛ_iff t topic).0 same)
        ∙ sym (
            ap
              (λ b.
                if b
                then g ch (find_in ch (lookup topic m.channels))
                else find_in ch (lookup topic m.channels))
              same)
    | inr differ ↦
        find_in-insert t topic chs m.channels ch
        ∙ ap (λ b. if b then find ch chs else find_in ch (lookup topic m.channels)) differ
        ∙ sym (
            ap
              (λ b.
                if b
                then g ch (find_in ch (lookup topic m.channels))
                else find_in ch (lookup topic m.channels))
              differ)
  ]

  inbox-keep :
      (t : String) (g : ℕ → Option (List M) → Option (List M)) (m : Pubsub M)
      → lookup t m.channels ≡ none
      → ((ch : ℕ) → g ch none ≡ none)
      → At t g m m
  unfolding inbox find_in
  inbox-keep t g m absent keeps topic ch = elim (Bool-cases (t ==ₛ topic)) [
    | inl same ↦
        let gone : find_in ch (lookup topic m.channels) ≡ none =
          ap (λ k. find_in ch (lookup k m.channels)) (sym ((==ₛ_iff t topic).0 same))
          ∙ ap (find_in ch) absent in
        gone
        ∙ sym (keeps ch)
        ∙ ap (g ch) (sym gone)
        ∙ sym (
            ap
              (λ b.
                if b
                then g ch (find_in ch (lookup topic m.channels))
                else find_in ch (lookup topic m.channels))
              same)
    | inr differ ↦ sym (
        ap
          (λ b.
            if b
            then g ch (find_in ch (lookup topic m.channels))
            else find_in ch (lookup topic m.channels))
          differ)
  ]

  pub subscribe-At : (t : String) (m : Pubsub M) → At t (opened m.next_channel) m (subscribe t m).0
  unfolding subscribe
  subscribe-At t m =
      inbox-insert t (opened m.next_channel) m
        (set m.next_channel [] (or_no_channels (lookup t m.channels))) (suc m.next_channel)
        λ ch.
          find-set m.next_channel ch [] (or_no_channels (lookup t m.channels))
          ∙ ap (λ o. if m.next_channel == ch then some [] else o)
              (find_in-no_channels ch (lookup t m.channels))

  if_none : (b : Bool) → ◌≡◌ {A = Option (List M)} (if b then none else none) none
  if_none true = refl
  if_none false = refl

  pub unsubscribe_found-At :
      (t : String) (c : ℕ) (m : Pubsub M) (o : Option (Table (List M)))
      → lookup t m.channels ≡ o
      → At t (removed c) m (unsubscribe_found t c m o)
  unfolding unsubscribe_found find_in
  unsubscribe_found-At t c m none e = inbox-keep t (removed c) m e (λ ch. if_none (c == ch))
  unsubscribe_found-At t c m (some chs) e =
      inbox-insert t (removed c) m (drop c chs) m.next_channel
        λ ch. find-drop c ch chs ∙ ap (λ o. if c == ch then none else find_in ch o) (sym e)

  publish_found-offer_to :
      (t : String) (msg : M) (m : Pubsub M) (o : Option (Table (List M)))
      → lookup t m.channels ≡ o
      → At t (offer_to m.size msg) m (publish_found t msg m o).0
  unfolding publish_found find_in
  publish_found-offer_to t msg m none e = inbox-keep t (offer_to m.size msg) m e (λ ch. refl)
  publish_found-offer_to t msg m (some chs) e =
      inbox-insert t (offer_to m.size msg) m (publish_all m.size msg chs).0 m.next_channel λ ch.
        find-publish_all m.size msg chs ch
        ∙ ap (λ o. map_inbox (offer m.size msg) (find_in ch o)) (sym e)

  find-take_from :
      (c ch : ℕ) (chs : Table (List M)) (o : Option (List M))
      → find c chs ≡ o
      → find ch (take_from c chs o) ≡ read_from c ch (find ch chs)
  unfolding take_from
  find-take_from c ch chs o e = elim (Bool-cases (c == ch)) [
    | inl same ↦ go o e (ground arith)
    | inr differ ↦ other_channel o differ
  ]
    where
      go :
          (o : Option (List M))
          → find c chs ≡ o
          → c ≡ ch
          → find ch (take_from c chs o) ≡ read_from c ch (find ch chs)
      go none e same =
          let gone : find ch chs ≡ none = ap (λ k. find k chs) (sym same) ∙ e in
          gone ∙ sym (ap (read_from c ch) gone ∙ if_none (c == ch))
      go (some waiting) e same =
          let here : find ch chs ≡ some waiting = ap (λ k. find k chs) (sym same) ∙ e in
          let test : c == ch ≡ true = ground arith in
          find-set c ch (rest_of waiting) chs
          ∙ ap (λ b. if b then some (rest_of waiting) else find ch chs) test
          ∙ sym (
              ap (read_from c ch) here
              ∙ ap (λ b. if b then some (rest_of waiting) else some waiting) test)

      other_channel :
          (o : Option (List M))
          → c == ch ≡ false
          → find ch (take_from c chs o) ≡ read_from c ch (find ch chs)
      other_channel none differ =
          sym (ap (λ b. if b then map_inbox rest_of (find ch chs) else find ch chs) differ)
      other_channel (some waiting) differ =
          find-set c ch (rest_of waiting) chs
          ∙ ap (λ b. if b then some (rest_of waiting) else find ch chs) differ
          ∙ sym (ap (λ b. if b then map_inbox rest_of (find ch chs) else find ch chs) differ)

  receive_found-read_from :
      (t : String) (c : ℕ) (m : Pubsub M) (o : Option (Table (List M)))
      → lookup t m.channels ≡ o
      → At t (read_from c) m (receive_found t c m o)
  unfolding receive_found find_in
  receive_found-read_from t c m none e = inbox-keep t (read_from c) m e (λ ch. if_none (c == ch))
  receive_found-read_from t c m (some chs) e =
      inbox-insert t (read_from c) m (take_from c chs (find c chs)) m.next_channel λ ch.
        find-take_from c ch chs (find c chs) refl ∙ ap (λ o. read_from c ch (find_in ch o)) (sym e)

  offer_to-offered :
      (size : ℕ) (msg : M) (ch : ℕ) (q : Option (List M))
      → offer_to size msg ch q ≡ offered size msg ch q
  unfolding offer
  offer_to-offered size msg ch none = refl
  offer_to-offered size msg ch (some waiting) = elim (Bool-cases (ltb (length waiting) size)) [
    | inl room ↦ rw room refl
    | inr full ↦ rw full refl
  ]

  read_from-read : (c ch : ℕ) (q : Option (List M)) → read_from c ch q ≡ read c ch q
  read_from-read c ch q = elim (Bool-cases (c == ch)) [
    | inl same ↦ rw same (taken q)
    | inr differ ↦ rw differ (kept q)
  ]
    where
      taken : (q : Option (List M)) → map_inbox rest_of q ≡ read_when true q
      taken none = refl
      taken (some []) = refl
      taken (some (msg ∷ waiting)) = refl

      kept : (q : Option (List M)) → q ≡ read_when false q
      kept none = refl
      kept (some []) = refl
      kept (some (msg ∷ waiting)) = refl

  -- Two changes that agree are the same change of a topic.
  At-agree :
      (t : String) (g h : ℕ → Option (List M) → Option (List M)) (m m' : Pubsub M)
      → ((ch : ℕ) (q : Option (List M)) → g ch q ≡ h ch q)
      → At t g m m'
      → At t h m m'
  At-agree t g h m m' agree at_g topic ch =
      at_g topic ch
      ∙ ap (λ x. if t ==ₛ topic then x else inbox m topic ch) (agree ch (inbox m topic ch))

  pub publish_found-At :
      (t : String) (msg : M) (m : Pubsub M) (o : Option (Table (List M)))
      → lookup t m.channels ≡ o
      → At t (offered m.size msg) m (publish_found t msg m o).0
  publish_found-At t msg m o e =
      At-agree t (offer_to m.size msg) (offered m.size msg) m (publish_found t msg m o).0
        (offer_to-offered m.size msg) (publish_found-offer_to t msg m o e)

  pub receive_found-At :
      (t : String) (c : ℕ) (m : Pubsub M) (o : Option (Table (List M)))
      → lookup t m.channels ≡ o
      → At t (read c) m (receive_found t c m o)
  receive_found-At t c m o e =
      At-agree t (read_from c) (read c) m (receive_found t c m o) (read_from-read c)
        (receive_found-read_from t c m o e)
