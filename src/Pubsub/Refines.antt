-- ===== src/Pubsub/Refines.antt =====
-- Any sequence of calls of pubsub, against what the calls promise.
use jopa.Common.{ℕ, suc, String, Option, none, some, List, [], ◌∷◌, ◌≡◌, ◌≤◌, refl, ap, ◌∙◌}
use mathlib.Core.Path.{fun_ext}
use jopa.Common.Dict.{lookup}
use jopa.Common.Table.{Table}
use jopa.Pubsub.{
  Pubsub, new_pubsub, subscribe, unsubscribe, unsubscribe_found, close, publish, publish_found,
  receive, receive_found,
}
use jopa.Pubsub.Laws.{
  Inboxes, opened, removed, offered, read, under, inbox, find_in, subscribe-At,
  unsubscribe_found-At, publish_found-At, receive_found-At,
}

-- The calls of the callers, and the readers.
pub data Op (M : Type 0) : Type 0 where
  to_subscribe : String → Op M
  to_unsubscribe : String → ℕ → Op M
  to_publish : String → M → Op M
  to_receive : String → ℕ → Op M
  to_close : Op M

module _ {M : Type 0} where
  unfoldable pub apply : Op M → Pubsub M → Pubsub M
  apply (to_subscribe topic) m = (subscribe topic m).0
  apply (to_unsubscribe topic ch) m = unsubscribe topic ch m
  apply (to_publish topic msg) m = (publish topic msg m).0
  apply (to_receive topic ch) m = receive topic ch m
  apply to_close m = close m

  unfoldable pub run : List (Op M) → Pubsub M → Pubsub M
  run [] m = m
  run (op ∷ ops) m = run ops (apply op m)

  -- The promise of each call.
  abbrev pub promise : ℕ → Op M → ℕ × Inboxes M → ℕ × Inboxes M
  promise size (to_subscribe t) (n, f) = (suc n, under t (opened n) f)
  promise size (to_unsubscribe t c) (n, f) = (n, under t (removed c) f)
  promise size (to_publish t msg) (n, f) = (n, under t (offered size msg) f)
  promise size (to_receive t c) (n, f) = (n, under t (read c) f)
  promise size to_close (n, f) = (n, λ topic ch. none)

  unfoldable pub replay : ℕ → List (Op M) → ℕ × Inboxes M → ℕ × Inboxes M
  replay size [] v = v
  replay size (op ∷ ops) v = replay size ops (promise size op v)

  -- What the callers and readers see.
  unfoldable pub view : Pubsub M → ℕ × Inboxes M
  view m = (m.next_channel, inbox m)

  -- Two views are equal if they have the same next channel and the same inboxes.
  view_path :
      {n k : ℕ} {f g : Inboxes M}
      → n ≡ k
      → ((topic : String) (ch : ℕ) → f topic ch ≡ g topic ch)
      → ◌≡◌ {A = ℕ × Inboxes M} (n, f) (k, g)
  view_path {n} {k} {f} {g} p h =
      ap (λ x. (x, f)) p ∙ ap (λ x. (k, x)) (fun_ext λ topic. fun_ext λ ch. h topic ch)

  found_next :
      (t : String) (c : ℕ) (m : Pubsub M) (o : Option (Table (List M)))
      → ((unsubscribe_found t c m o).next_channel ≡ m.next_channel)
        × ((receive_found t c m o).next_channel ≡ m.next_channel)
        × ((unsubscribe_found t c m o).size ≡ m.size)
        × ((receive_found t c m o).size ≡ m.size)
  unfolding unsubscribe_found receive_found
  found_next t c m none = (refl, refl, refl, refl)
  found_next t c m (some chs) = (refl, refl, refl, refl)

  subscribed_next :
      (t : String) (m : Pubsub M)
      → ((subscribe t m).0.next_channel ≡ suc m.next_channel) × ((subscribe t m).0.size ≡ m.size)
  unfolding subscribe
  subscribed_next t m = (refl, refl)

  published_next :
      (t : String) (msg : M) (m : Pubsub M) (o : Option (Table (List M)))
      → ((publish_found t msg m o).0.next_channel ≡ m.next_channel)
        × ((publish_found t msg m o).0.size ≡ m.size)
  unfolding publish_found
  published_next t msg m none = (refl, refl)
  published_next t msg m (some chs) = (refl, refl)

  -- Each call keeps its promise.
  view-apply :
      (op : Op M) (m : Pubsub M)
      → (view (apply op m) ≡ promise m.size op (view m)) × ((apply op m).size ≡ m.size)
  unfolding view apply unsubscribe publish receive close inbox find_in lookup
  view-apply (to_subscribe t) m =
      let (next, size) = subscribed_next t m in (view_path next (subscribe-At t m), size)
  view-apply (to_unsubscribe t c) m =
      let o = lookup t m.channels in
      let (next, _, size, _) = found_next t c m o in
      (view_path next (unsubscribe_found-At t c m o refl), size)
  view-apply (to_publish t msg) m =
      let o = lookup t m.channels in
      let (next, size) = published_next t msg m o in
      (view_path next (publish_found-At t msg m o refl), size)
  view-apply (to_receive t c) m =
      let o = lookup t m.channels in
      let (_, next, _, size) = found_next t c m o in
      (view_path next (receive_found-At t c m o refl), size)
  view-apply to_close m = (refl, refl)

  view-run : (ops : List (Op M)) (m : Pubsub M) → view (run ops m) ≡ replay m.size ops (view m)
  unfolding run replay
  view-run [] m = refl
  view-run (op ∷ ops) m =
      let (kept, size) = view-apply op m in
      view-run ops (apply op m)
      ∙ ap (λ k. replay k ops (view (apply op m))) size
      ∙ ap (replay m.size ops) kept

  -- For channels with a buffer, and with each call as one step (a Publish that waits for room has no other call in
  -- between): whatever the callers and the readers do, in whatever order, from a new pubsub on, the channels hold
  -- what the promises of the calls say. A subscription opens an empty inbox with a number of its own, a message
  -- goes to the end of every inbox of its topic that has room and to no other, a reader takes the first one, and
  -- after an Unsubscribe or a Close the inbox belongs to no topic.
  pub run_refines :
      (size : ℕ) (ops : List (Op M))
      → 1 ≤ size
      → view (run ops (new_pubsub size)) ≡ replay size ops (0, λ topic ch. none)
  unfolding new_pubsub view inbox find_in lookup
  run_refines size ops buffered = view-run ops (new_pubsub size)
