-- ===== src/Bot/Reachable.antt =====
-- mtproto_bot.go: a handler can answer in the chat of its message, for the peer of the chat is
-- known when the handler runs.
use mathlib.Core.Path.{subst}
use mt_pro_go.Prelude.{
  ℕ, ◌<◌, List, [], false, Any, ◌≡◌, ◌≢◌, refl, sym, ap, ◌∙◌, arith, inl, inr, Option-cases,
}
use mt_pro_go.Prelude.Int.{ℤ, pos, eq_ℤ, eq_ℤ_iff}
use mt_pro_go.Prelude.Text.{str_eq, str_eq_iff}
use mt_pro_go.Prelude.Assoc.{lookup, int_eq}
use mt_pro_go.Peers.{PeerRef}
use mt_pro_go.Message.ChatId.{normalize_chat_id, raw_chat_id}
use mt_pro_go.Message.ChatId.RoundTrip.{raw_chat_id-normalize_chat_id}
use mt_pro_go.Difference.TextMessage.{TextMessage}
use mt_pro_go.Bot.{Bot}
use mt_pro_go.Bot.Peers.{get_peer, found_or, remember_peers, peers_from_text_message}
use mt_pro_go.Bot.Known.{Has, Known, remember_listed-Has}
use mt_pro_go.Bot.Poll.{Senders, chat_type_of, mtproto_text_message_to_update}

-- What stands under the raw id is found under the dialog id, or something else stands there.
raw-Known : (m : List (ℤ × PeerRef)) (id : ℤ) → Has (raw_chat_id id) m → Known id m
unfolding get_peer
raw-Known m id (p, e) = elim (Option-cases (lookup id m)) [
  | inl absent ↦ (p, rw absent e)
  | inr (q, found) ↦ (q, ap (λ o. found_or o (lookup (raw_chat_id id) m)) found)
]

-- The chat of a message is among its peers.
chat_listed :
    (m : TextMessage)
    → m.chat_id ≢ pos 0
    → m.chat_kind ≢ []
    → Any (λ p. p.id ≡ m.chat_id) (peers_from_text_message m)
unfolding peers_from_text_message
chat_listed m h k =
    let id : eq_ℤ m.chat_id (pos 0) ≡ false = ground (arith, eq_ℤ_iff m.chat_id (pos 0)) in
    let kind : str_eq m.chat_kind [] ≡ false = ground (arith, str_eq_iff m.chat_kind []) in
    rw (id, kind) (inl refl)

-- The chat id that a handler gets leads to a peer, for a message of a chat with a raw id from 1 to
-- 10^12 - 1 and a kind: an answer to it is not refused as one to an unknown peer.
pub reply_peer_Known :
    {W : Type 0} (senders : Senders) (m : TextMessage) (b : Bot W) (raw : ℕ)
    → m.chat_id ≡ pos raw
    → 0 < raw
    → raw < 1000000000000
    → m.chat_kind ≢ []
    → Known
        (mtproto_text_message_to_update senders
          (remember_peers (peers_from_text_message m) b).peers
          m).chat_id
        (remember_peers (peers_from_text_message m) b).peers
unfolding mtproto_text_message_to_update
reply_peer_Known senders m b raw e positive small kind =
    let b' = remember_peers (peers_from_text_message m) b in
    let t = chat_type_of b'.peers m in
    let some_id : m.chat_id ≢ pos 0 =
      λ z. absurd (let z' : raw ≡ 0 = zero_raw (sym e ∙ z) in omega arith) in
    let there : Has m.chat_id b'.peers =
      remember_listed-Has m.chat_id (peers_from_text_message m) b some_id
        (chat_listed m some_id kind) in
    let back : raw_chat_id (normalize_chat_id m.chat_id t) ≡ m.chat_id =
      ap (λ i. raw_chat_id (normalize_chat_id i t)) e
      ∙ raw_chat_id-normalize_chat_id raw t positive small
      ∙ sym e in
    raw-Known b'.peers (normalize_chat_id m.chat_id t)
      (subst (λ i. Has i b'.peers) (sym back) there)
  where
    zero_raw : pos raw ≡ pos 0 → raw ≡ 0
    zero_raw h = cc
