-- ===== src/Bot/Methods.antt =====
-- mtproto_bot.go: the methods that send, edit and delete, for a bot that is logged in. The calls of
-- the client are parameters; the fuel is that of the flood waits.
use mt_pro_go.Prelude.{
  ℕ, List, [], ◌∷◌, ◌||◌, Option, none, some, if◌then◌else◌, Error, Bool, true, msg,
}
use mt_pro_go.Prelude.Int.{ℤ, pos, ltb_ℤ}
use mt_pro_go.Prelude.Word.{to_int32, of_int32}
use mt_pro_go.Prelude.Text.{str, str_eq}
use mt_pro_go.Peers.{PeerRef}
use mt_pro_go.Bot.Peers.{get_peer}
use mt_pro_go.Bot.FloodWait.{WaitOptions}
use mt_pro_go.Bot.Retry.{with_flood_wait}

-- `int32(id)` of an int.
abbrev pub int32 : ℤ → ℤ
int32 z = to_int32 (of_int32 z)

-- The ids that are sent: the positive ones.
unfoldable pub positive_ids : List ℤ → List ℤ
positive_ids [] = []
positive_ids (id ∷ ids) =
    let rest = positive_ids ids in if ltb_ℤ (pos 0) id then int32 id ∷ rest else rest

module _ {W : Type 0} (trim_space : List ℕ → List ℕ) (atoi : List ℕ → Option ℤ) (opts : WaitOptions)
    (cancelled : ℕ → Option Error) (fuel : ℕ) where
  -- The shape of the methods: an error for an unknown peer, else the call with its flood waits.
  unfoldable pub with_peer :
      List (ℤ × PeerRef) → ℤ → (PeerRef → W → W × Option Error) → W → Option (W × Option Error)
  with_peer peers chat_id call w = elim (get_peer peers chat_id) [
    | none ↦ some (w, some (msg "mtproto: peer %d is not cached yet"))
    | some peer ↦ with_flood_wait trim_space atoi opts (call peer) cancelled fuel 0 w
  ]

  unfoldable pub send_message :
      (PeerRef → List ℕ → W → W × Option Error)
      → List (ℤ × PeerRef)
      → ℤ
      → List ℕ
      → W
      → Option (W × Option Error)
  send_message send peers chat_id text = with_peer peers chat_id (λ peer. send peer text)

  unfoldable pub edit_message :
      (PeerRef → ℤ → List ℕ → W → W × Option Error)
      → List (ℤ × PeerRef)
      → ℤ
      → ℤ
      → List ℕ
      → W
      → Option (W × Option Error)
  edit_message edit peers chat_id message_id text =
      with_peer peers chat_id (λ peer. edit peer (int32 message_id) text)

  -- `in_channel` is `ChannelsDeleteMessages`, `revoke` is `MessagesDeleteMessages`.
  unfoldable pub delete_messages :
      (PeerRef → List ℤ → W → W × Option Error)
      → (Bool → List ℤ → W → W × Option Error)
      → List (ℤ × PeerRef)
      → ℤ
      → List ℤ
      → W
      → Option (W × Option Error)
  delete_messages in_channel revoke peers chat_id ids = with_peer peers chat_id (λ peer.
      if str_eq peer.kind (str "channel") || str_eq peer.kind (str "supergroup")
      then in_channel peer (positive_ids ids)
      else revoke true (positive_ids ids))
