-- ===== src/Bot.antt =====
-- mtproto_bot.go: the bot that polls for differences. The client that it calls, the handlers'
-- effects, the clock and cancellation are parameters.
pub mod Peers
pub mod State
pub mod Backoff
pub mod Known
pub mod FloodWait
pub mod Retry
pub mod Poll
pub mod Latest
pub mod Methods
pub mod Reachable
use mt_pro_go.Prelude.{List, Option}
use mt_pro_go.Prelude.Int.{ℤ}
use mt_pro_go.Peers.{PeerRef}
use mt_pro_go.State.{UpdatesState}
use mt_pro_go.Dispatcher.Dispatch.{Dispatcher}

-- The fields of `MTProtoBot` that change while it polls. The map of peers has no order.
pub record Bot (W : Type 0) : Type 0 where
  pub dispatcher : Dispatcher W
  pub last_state : Option UpdatesState
  pub peers : List (ℤ × PeerRef)
