-- ===== src/Tests/Bot.antt =====
-- The bot, its client's configuration and its flood waits at concrete inputs.
use mt_pro_go.Prelude.{
  ℕ, zero, suc, Bool, ◌*◌, ◌-◌, ◌≡◌, List, rpc_error, refl, arith, true, [], ◌∷◌, Option, none,
  some, Error, ok,
}
use mt_pro_go.Prelude.Int.{ℤ, pos}
use mt_pro_go.Prelude.Text.{str}
use mt_pro_go.Message.{Message}
use mt_pro_go.Message.ChatId.{normalize_chat_id}
use mt_pro_go.Peers.{PeerRef, peer_ref}
use mt_pro_go.Dispatcher.Config.{cache_filtered_messages, cache_all_messages}
use mt_pro_go.Dispatcher.Dispatch.{new_dispatcher}
use mt_pro_go.Difference.TextMessage.{TextMessage}
use mt_pro_go.Bot.{Bot}
use mt_pro_go.Bot.Peers.{get_peer, remember_peers, peers_from_text_message}
use mt_pro_go.Bot.Known.{Known}
use mt_pro_go.Bot.Reachable.{reply_peer_Known}
use mt_pro_go.Bot.Latest.{group_takes_place}
use mt_pro_go.Bot.Poll.{Senders, mtproto_text_message_to_update}
use mt_pro_go.Bot.FloodWait.{WaitOptions}
use mt_pro_go.Bot.Backoff.{second, reconnect_backoff, reconnect_backoff_lem}
use mt_pro_go.Client.{
  configured, dispatcher_options, config_with_message_cache_filter, config_with_message_cache_mode,
}
use mt_pro_go.Client.Configured.{cache_filter_wins}

abbrev bot : Bot ℕ
bot = record { dispatcher = new_dispatcher []; last_state = none; peers = [] }

abbrev user_7 : PeerRef
user_7 = peer_ref (pos 7) (pos 99) (str "user")

abbrev senders : Senders
senders = record { reply = λ _ _ _. ok tt; edit = λ _ _ _. ok tt; delete = λ _ _. ok tt }

abbrev text_message : TextMessage
text_message = record {
  id = pos 1;
  chat_id = pos 7;
  from_id = pos 0;
  chat_kind = str "channel";
  from_kind = [];
  date = pos 0;
  text = str "hi";
  raw = [];
}

reply_peer_Known_example :
    Known
      (mtproto_text_message_to_update senders
        (remember_peers (peers_from_text_message text_message) bot).peers
        text_message).chat_id
      (remember_peers (peers_from_text_message text_message) bot).peers
reply_peer_Known_example =
    reply_peer_Known senders text_message bot 7 refl (omega arith) (omega arith)
      (λ e. absurd (cc e))

-- The user 7 is known, and then a basic group with the same number.
group_takes_place_example :
    (p : PeerRef) × (get_peer
        (remember_peers
          (peer_ref (pos 7) (pos 0) (str "chat") ∷ [])
          (remember_peers (user_7 ∷ []) bot)).peers
        (normalize_chat_id (pos 7) (str "private"))
      ≡ some p)
    × (p.kind ≡ str "chat")
group_takes_place_example = group_takes_place 7 (remember_peers (user_7 ∷ []) bot) (omega arith)

abbrev three_seconds : Error
three_seconds = rpc_error (pos 420) (str "FLOOD_WAIT_3")

-- It is told to wait twice, and then succeeds.
abbrev busy : ℕ → ℕ × Option Error
busy zero = (1, some three_seconds)
busy (suc zero) = (2, some three_seconds)
busy (suc (suc n)) = (suc (suc n), none)

abbrev as_it_is : List ℕ → List ℕ
as_it_is b = b

-- It reads one digit.
abbrev one_digit : List ℕ → Option ℤ
one_digit [] = none
one_digit (b ∷ bs) = some (pos (b - 48))

abbrev wait_options : WaitOptions
wait_options = record { auto_flood_wait = true; max_flood_wait = pos (60 * second) }

abbrev never : ℕ → Option Error
never i = none

reconnect_backoff_lem_example :
    reconnect_backoff (pos 4) (pos second) (pos (30 * second)) ≡ pos (8 * second)
reconnect_backoff_lem_example =
    reconnect_backoff_lem 3 second (30 * second) (omega arith) (omega arith) (omega arith)
      (omega arith)

abbrev any_message : Message → Bool
any_message m = true

cache_filter_wins_example :
    (new_dispatcher {W = ℕ} (
      dispatcher_options (
        configured (str "default") (
          some (config_with_message_cache_filter (some any_message))
          ∷ some (config_with_message_cache_mode cache_all_messages)
          ∷ [])))).config.message_cache_mode
    ≡ cache_filtered_messages
cache_filter_wins_example = cache_filter_wins ℕ (str "default") [] any_message cache_all_messages
