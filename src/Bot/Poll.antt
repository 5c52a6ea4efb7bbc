-- ===== src/Bot/Poll.antt =====
-- mtproto_bot.go: what a poll does with the difference that it gets, and a text message as the
-- handlers see it. `Date` and `Raw` of a message are left out, as in `Message`.
use mt_pro_go.Prelude.{
  ℕ, List, [], ◌∷◌, Bool, ◌&&◌, Option, none, some, if◌then◌else◌, Error, Result, ok, err,
}
use mt_pro_go.Prelude.Int.{ℤ, pos, ◌+ℤ◌, eq_ℤ}
use mt_pro_go.Prelude.Text.{str, str_eq}
use mt_pro_go.Peers.{PeerRef}
use mt_pro_go.State.{UpdatesState}
use mt_pro_go.Message.{Message}
use mt_pro_go.Message.ChatId.{normalize_chat_id}
use mt_pro_go.Difference.TextMessage.{TextMessage}
use mt_pro_go.Difference.Result.{DifferenceResult}
use mt_pro_go.Dispatcher.Dispatch.{dispatch_message}
use mt_pro_go.Bot.{Bot}
use mt_pro_go.Bot.Peers.{update_chat_type, get_peer, remember_peers, peers_from_text_message}
use mt_pro_go.Bot.State.{merge_update_state, set_state}

-- What the bot does for a message: `Reply`, `EditMessage` and `DeleteMessages`.
pub record Senders : Type 0 where
  pub reply : ℤ → ℤ → List ℕ → Result (Unit {0})
  pub edit : ℤ → ℤ → List ℕ → Result (Unit {0})
  pub delete : ℤ → List ℤ → Result (Unit {0})

-- The kind of the chat: that of the known peer, unless it has none.
unfoldable pub chat_kind_of : List (ℤ × PeerRef) → TextMessage → List ℕ
chat_kind_of peers m = elim (get_peer peers m.chat_id) [
  | none ↦ m.chat_kind
  | some p ↦ if str_eq p.kind [] then m.chat_kind else p.kind
]

abbrev pub sender_of : TextMessage → ℤ
sender_of m = if eq_ℤ m.from_id (pos 0) then m.chat_id else m.from_id

unfoldable pub chat_type_of : List (ℤ × PeerRef) → TextMessage → List ℕ
chat_type_of peers m =
    let chat_type = update_chat_type (chat_kind_of peers m) in
    if str_eq chat_type [] && eq_ℤ m.chat_id (sender_of m) then str "private" else chat_type

unfoldable pub mtproto_text_message_to_update : Senders → List (ℤ × PeerRef) → TextMessage → Message
mtproto_text_message_to_update senders peers m = record {
  id = m.id;
  chat_id = normalize_chat_id m.chat_id (chat_type_of peers m);
  raw_chat_id = m.chat_id;
  from_id = sender_of m;
  chat_type = chat_type_of peers m;
  text = m.text;
  reply_sender = some senders.reply;
  editor = some senders.edit;
  deleter = some senders.delete;
}

module _ {W : Type 0} (senders : Senders) where
  -- One round of the loop over the messages. An error of a handler is only printed.
  unfoldable pub poll_message : TextMessage → Bot W × W → Bot W × W
  poll_message m (b, w) =
      let b' = remember_peers (peers_from_text_message m) b in
      let r =
        dispatch_message (some (mtproto_text_message_to_update senders b'.peers m)) b'.dispatcher
          w in
      (record b' { dispatcher = r.0 }, r.1)

  unfoldable pub poll_messages : List TextMessage → Bot W × W → Bot W × W
  poll_messages [] s = s
  poll_messages (m ∷ ms) s = poll_messages ms (poll_message m s)

  -- The part of a poll behind a successful request; `state` is the variable of `Run`.
  unfoldable pub poll_difference :
      DifferenceResult → Option UpdatesState → Bot W × W → Option UpdatesState × Bot W × W
  poll_difference diff state (b, w) =
      let s = poll_messages diff.messages (remember_peers diff.peers b, w) in
      elim diff.state [
        | none ↦ (state, s.0, s.1)
        | some next ↦
            let state' = merge_update_state state (some next) in (state', set_state state' s.0, s.1)
      ]

-- `consecutiveErrors` after a round: `waited` is what `handleFloodWait` says, `temporary` what
-- `isTemporaryNetworkError` does.
unfoldable pub errors_after :
    {A : Type 0} → Bool → (Error → Bool) → (Error → Bool) → Result A → ℤ → ℤ
errors_after auto_reconnect waited temporary (ok a) n = pos 0
errors_after auto_reconnect waited temporary (err e) n =
    if waited e then n else if auto_reconnect && temporary e then n +ℤ pos 1 else n
