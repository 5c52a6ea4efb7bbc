-- ===== src/Difference/TextMessage.antt =====
-- mtproto/difference.go, `parseTextMessage`: flag by flag, in the order of the source.
use mt_pro_go.Prelude.{
  ℕ, List, [], Bool, Option, none, some, String, ◌==◌, if◌then◌else◌, msg, msg_num,
}
use mt_pro_go.Prelude.Int.{ℤ, pos}
use mt_pro_go.Prelude.Word.{to_int32, has_bit}
use mt_pro_go.Tl.Constructors.{constructor_message, constructor_message_empty}
use mt_pro_go.Tl.Reader.{Parse, ◌>>=◌, ◌>>◌, pure, fail, int, long, string}
use mt_pro_go.Difference.Peer.{ParsedPeer, parse_peer}
use mt_pro_go.Difference.Entities.{skip_message_entities, skip_raw_vector}

pub record TextMessage : Type 0 where
  pub id : ℤ
  pub chat_id : ℤ
  pub from_id : ℤ
  pub chat_kind : List ℕ
  pub from_kind : List ℕ
  pub date : ℤ
  pub text : List ℕ
  pub raw : List ℕ

-- A field that is read and forgotten when its flag is set.
abbrev pub skip_if : {A : Type 0} → Bool → Parse A → Parse (Unit {0})
skip_if b p = if b then (p >> pure tt) else pure tt

abbrev pub refuse_if : Bool → String → Parse (Unit {0})
refuse_if b text = if b then fail (msg text) else pure tt

-- `messageEmpty`: nothing to return.
unfoldable pub empty_message : Parse (Option TextMessage)
empty_message = do flags ← int; _ ← int; _ ← skip_if (has_bit flags 0) parse_peer; pure none

-- The sender: the zero peer without its flag.
unfoldable pub parse_sender : ℕ → Parse ParsedPeer
parse_sender flags = if has_bit flags 8 then parse_peer else pure (record { id = pos 0; kind = [] })

-- Between the chat and the date.
unfoldable pub skip_before_date : ℕ → ℕ → Parse (Unit {0})
skip_before_date flags flags2 = do
  _ ← skip_if (has_bit flags 28) parse_peer
  _ ← refuse_if (has_bit flags 2) "mtproto: message fwd_from parsing not implemented"
  _ ← skip_if (has_bit flags 11) long
  _ ← skip_if (has_bit flags2 0) long
  refuse_if (has_bit flags 3) "mtproto: reply_to parsing not implemented"

-- Between the text and the end: the fields of `flags`.
unfoldable pub skip_after_text : ℕ → Parse (Unit {0})
skip_after_text flags = do
  _ ← refuse_if (has_bit flags 9) "mtproto: media parsing not implemented"
  _ ← refuse_if (has_bit flags 6) "mtproto: reply_markup parsing not implemented"
  _ ← skip_if (has_bit flags 7) skip_message_entities
  _ ← skip_if (has_bit flags 10) (int >> int)
  _ ← refuse_if (has_bit flags 23) "mtproto: replies parsing not implemented"
  _ ← skip_if (has_bit flags 15) int
  _ ← skip_if (has_bit flags 16) string
  _ ← skip_if (has_bit flags 17) long
  _ ← refuse_if (has_bit flags 20) "mtproto: reactions parsing not implemented"
  _ ← skip_if (has_bit flags 22) skip_raw_vector
  _ ← skip_if (has_bit flags 25) int
  skip_if (has_bit flags 30) int

-- The fields of `flags2`.
unfoldable pub skip_flags2 : ℕ → Parse (Unit {0})
skip_flags2 flags2 = do
  _ ← skip_if (has_bit flags2 2) long
  _ ← refuse_if (has_bit flags2 3) "mtproto: factcheck parsing not implemented"
  _ ← skip_if (has_bit flags2 5) int
  _ ← skip_if (has_bit flags2 6) long
  refuse_if (has_bit flags2 7) "mtproto: suggested_post parsing not implemented"

unfoldable pub full_message : Parse (Option TextMessage)
full_message = do
  flags ← int
  flags2 ← int
  id ← int
  sender ← parse_sender flags
  _ ← skip_if (has_bit flags 29) int
  chat ← parse_peer
  _ ← skip_before_date flags flags2
  date ← int
  text ← string
  _ ← skip_after_text flags
  _ ← skip_flags2 flags2
  pure (
      some (record {
        id = to_int32 id;
        chat_id = chat.id;
        from_id = sender.id;
        chat_kind = chat.kind;
        from_kind = sender.kind;
        date = to_int32 date;
        text = text;
        raw = [];
      }))

unfoldable pub message_of_constructor : ℕ → Parse (Option TextMessage)
message_of_constructor constructor =
    if constructor == constructor_message_empty
    then empty_message
    else if constructor == constructor_message
    then full_message
    else fail (msg_num "mtproto: unsupported Message constructor 0x%08x" constructor)

-- The message with `ok`, or `none` where the source returns `ok == false`.
unfoldable pub parse_text_message : Parse (Option TextMessage)
parse_text_message = int >>= message_of_constructor
