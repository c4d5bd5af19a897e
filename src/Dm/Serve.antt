-- ===== src/Dm/Serve.antt =====
-- dmcontext/context.go: a round of `processing`, which takes a message from the channel of its device.
pub mod Laws
mod Samples
use jopa.Common.{String, List, [], ◌∷◌, Option, none, some}
use jopa.Common.Dict.{lookup, insert}
use jopa.Common.Outcome.{ok}
use jopa.Dm.Context.{Strconv, DmCtx, Message, Call, Handled, process}
use jopa.Dm.Observer.{Channels}

module _ {F S Ev : Type 0} (conv : Strconv F) (c : DmCtx F S Ev) where
  -- The first message; without one the goroutine waits.
  serve_found :
      String
      → Option (List (Message S Ev))
      → Channels (Message S Ev)
      → Channels (Message S Ev) × Handled (Call F S Ev)
  serve_found device none chs = (chs, ([], ok tt))
  serve_found device (some []) chs = (chs, ([], ok tt))
  serve_found device (some (msg ∷ queue)) chs = (insert device queue chs, process conv c msg)

  unfoldable pub serve :
      String → Channels (Message S Ev) → Channels (Message S Ev) × Handled (Call F S Ev)
  unfolding serve_found
  serve device chs = serve_found device (lookup device chs) chs
