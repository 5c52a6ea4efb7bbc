-- ===== src/Difference/Peer.antt =====
-- mtproto/difference.go, `parsePeer`.
use mt_pro_go.Prelude.{ℕ, List, ◌==◌, if◌then◌else◌, msg_num}
use mt_pro_go.Prelude.Int.{ℤ}
use mt_pro_go.Prelude.Text.{str}
use mt_pro_go.Prelude.Word.{to_int64}
use mt_pro_go.Tl.Constructors.{
  constructor_peer_user, constructor_peer_chat, constructor_peer_channel,
}
use mt_pro_go.Tl.Reader.{Parse, ◌>>=◌, pure, fail, int, long}

pub record ParsedPeer : Type 0 where
  pub id : ℤ
  pub kind : List ℕ

unfoldable pub peer_of_constructor : ℕ → ℕ → Parse ParsedPeer
peer_of_constructor constructor id =
    if constructor == constructor_peer_user
    then pure (record { id = to_int64 id; kind = str "user" })
    else if constructor == constructor_peer_chat
    then pure (record { id = to_int64 id; kind = str "chat" })
    else if constructor == constructor_peer_channel
    then pure (record { id = to_int64 id; kind = str "channel" })
    else fail (msg_num "mtproto: unsupported Peer constructor 0x%08x" constructor)

unfoldable pub parse_peer : Parse ParsedPeer
parse_peer = do constructor ← int; id ← long; peer_of_constructor constructor id
