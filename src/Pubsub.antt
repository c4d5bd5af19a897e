-- ===== src/Pubsub.antt =====
-- pubsub/pubsub.go: messages to the channels that are subscribed to a topic. A number stands for a channel that
-- `make` returns; a reader is a `receive`, and a channel that stays full for the timeout gets no message. Each call is
-- one step, although Publish holds no lock while it waits for room; a channel without a buffer, over which a sender and a
-- reader meet, is not modelled, and neither is a reader that still holds an unsubscribed channel.
pub mod Laws
pub mod Refines
pub mod Processor
mod Samples
use jopa.Common.{
  ℕ, suc, ◌+◌, String, Bool, true, false, Option, none, some, List, [], ◌∷◌, ◌++◌, length, ltb,
  ◌==◌, if◌then◌else◌,
}
use jopa.Common.Dict.{Dict, lookup, insert}
use jopa.Common.Table.{Table, find, set, drop}

-- `channels` maps a topic to its channels, each with the messages that wait in it.
pub record Pubsub (M : Type 0) : Type 0 where
  pub size : ℕ
  pub next_channel : ℕ
  pub channels : Dict (Table (List M))

module _ {M : Type 0} where
  unfoldable pub new_pubsub : ℕ → Pubsub M
  new_pubsub size = record { size = size; next_channel = 0; channels = [] }

  abbrev pub or_no_channels : Option (Table (List M)) → Table (List M)
  or_no_channels none = []
  or_no_channels (some chs) = chs

  -- `Subscribe`, with the channel it returns.
  unfoldable pub subscribe : String → Pubsub M → Pubsub M × ℕ
  subscribe topic m = (
    record m {
      next_channel = suc m.next_channel;
      channels =
          insert topic (set m.next_channel [] (or_no_channels (lookup topic m.channels)))
            m.channels;
    },
    m.next_channel,
  )

  unfoldable pub unsubscribe_found : String → ℕ → Pubsub M → Option (Table (List M)) → Pubsub M
  unsubscribe_found topic ch m none = m
  unsubscribe_found topic ch m (some chs) = record m {
    channels = insert topic (drop ch chs) m.channels;
  }

  -- `Unsubscribe`
  unfoldable pub unsubscribe : String → ℕ → Pubsub M → Pubsub M
  unfolding unsubscribe_found
  unsubscribe topic ch m = unsubscribe_found topic ch m (lookup topic m.channels)

  -- `Close`
  unfoldable pub close : Pubsub M → Pubsub M
  close m = record m { channels = [] }

  -- `publish` to one channel.
  unfoldable pub offer : ℕ → M → List M → List M
  offer size msg waiting = if ltb (length waiting) size then waiting ++ msg ∷ [] else waiting

  -- The loop of `Publish`, with the number of timeouts.
  unfoldable pub publish_all : ℕ → M → Table (List M) → Table (List M) × ℕ
  unfolding offer
  publish_all size msg [] = ([], 0)
  publish_all size msg ((ch, waiting) ∷ chs) =
      let (rest, errs) = publish_all size msg chs in
      ((ch, offer size msg waiting) ∷ rest, (if ltb (length waiting) size then errs else suc errs))

  unfoldable pub publish_found : String → M → Pubsub M → Option (Table (List M)) → Pubsub M × ℕ
  unfolding publish_all
  publish_found topic msg m none = (m, 0)
  publish_found topic msg m (some chs) =
      let (chs', errs) = publish_all m.size msg chs in
      (record m { channels = insert topic chs' m.channels }, errs)

  -- `Publish`; it returns an error if the number of timeouts is not 0.
  unfoldable pub publish : String → M → Pubsub M → Pubsub M × ℕ
  unfolding publish_found
  publish topic msg m = publish_found topic msg m (lookup topic m.channels)

  -- A reader takes a message from a channel.
  abbrev pub rest_of : List M → List M
  rest_of [] = []
  rest_of (msg ∷ waiting) = waiting

  unfoldable pub take_from : ℕ → Table (List M) → Option (List M) → Table (List M)
  take_from ch chs none = chs
  take_from ch chs (some waiting) = set ch (rest_of waiting) chs

  unfoldable pub receive_found : String → ℕ → Pubsub M → Option (Table (List M)) → Pubsub M
  unfolding take_from
  receive_found topic ch m none = m
  receive_found topic ch m (some chs) = record m {
    channels = insert topic (take_from ch chs (find ch chs)) m.channels;
  }

  unfoldable pub receive : String → ℕ → Pubsub M → Pubsub M
  unfolding receive_found
  receive topic ch m = receive_found topic ch m (lookup topic m.channels)
