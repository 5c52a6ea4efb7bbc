-- ===== src/Difference/RoundTrip.antt =====
-- mtproto/difference.go: `encodeTestMessage` writes what `parseTextMessage` reads.
use mathlib.Core.Path.{subst}
use mt_pro_go.Prelude.{
  ℕ, ◌^◌, ◌<◌, ◌≡◌, refl, ap, ◌∙◌, arith, List, [], ◌++◌, append_assoc, append-nil, some, length,
  ok,
}
use mt_pro_go.Prelude.Int.{ℤ, pos}
use mt_pro_go.Prelude.Text.{str}
use mt_pro_go.Prelude.Word.{
  to_int32, to_int64, of_int32, of_int64, le_bytes, IsI32, IsI64, of_int32-lt, of_int64-lt,
  to_int32-of_int32, to_int64-of_int64,
}
use mt_pro_go.Tl.Constructors.{
  constructor_message, constructor_peer_user, constructor_vector,
  constructor_message_entity_bot_command,
}
use mt_pro_go.Tl.Writer.{◌>>◌, put_int, put_long, put_string, bytes_encoding, put_bytes-append}
use mt_pro_go.Tl.Reader.{Parse, value, new_reader, pure, ◌>>=◌}
use mt_pro_go.Tl.Reads.{
  Reads, Reads-bind, Reads-int, Reads-long, Reads-string, Reads-pure, Reads-whole,
}
use mt_pro_go.Difference.Peer.{parse_peer, peer_of_constructor}
use mt_pro_go.Difference.Entities.{
  skip_message_entities, skip_entities, skip_entity, is_among, expect_vector,
}
use mt_pro_go.Difference.TextMessage.{
  TextMessage, parse_text_message, message_of_constructor, full_message, parse_sender,
  skip_before_date, skip_after_text, skip_flags2,
}

unfoldable pub encode_test_message : ℤ → ℤ → ℤ → List ℕ → List ℕ
encode_test_message id from_id chat_id text =
    (put_int constructor_message
        >> put_int 384
        >> put_int 0
        >> put_int (of_int32 id)
        >> put_int constructor_peer_user
        >> put_long (of_int64 from_id)
        >> put_int constructor_peer_user
        >> put_long (of_int64 chat_id)
        >> put_int 123
        >> put_string text
        >> put_int constructor_vector
        >> put_int 1
        >> put_int constructor_message_entity_bot_command
        >> put_int 0
        >> put_int (length text))
      []

peer_bytes : ℤ → List ℕ
peer_bytes id = le_bytes 4 constructor_peer_user ++ (le_bytes 8 (of_int64 id) ++ [])

entities_bytes : List ℕ → List ℕ
entities_bytes text =
    ((le_bytes 4 constructor_vector ++ []) ++ le_bytes 4 1)
    ++ ((le_bytes 4 constructor_message_entity_bot_command
          ++ ((le_bytes 4 0 ++ le_bytes 4 (length text)) ++ []))
        ++ [])

Reads-peer :
    (id : ℤ)
    → Reads parse_peer (peer_bytes id) (record { id = to_int64 (of_int64 id); kind = str "user" })
unfolding parse_peer peer_of_constructor peer_bytes
Reads-peer id =
    Reads-bind _ _ (Reads-int constructor_peer_user (omega arith))
      (Reads-bind _ _ (Reads-long (of_int64 id) (of_int64-lt id)) (Reads-pure _))

Reads-entities :
    (text : List ℕ) → length text < 2 ^ 24 → Reads skip_message_entities (entities_bytes text) tt
unfolding skip_message_entities skip_entities skip_entity is_among expect_vector entities_bytes
Reads-entities text h =
    Reads-bind _ _
      (Reads-bind _ _ (Reads-bind _ _ (Reads-int constructor_vector (omega arith)) (Reads-pure tt))
        (Reads-int 1 (omega arith)))
      (Reads-bind _ _
        (Reads-bind _ _ (Reads-int constructor_message_entity_bot_command (omega arith)) (
          Reads-bind _ _
            (Reads-bind _ _ (Reads-int 0 (omega arith)) (Reads-int (length text) (omega arith)))
            (Reads-pure tt)))
        (Reads-pure tt))

-- A step that reads nothing.
Reads-none :
    {A : Type 0} (f : Unit {0} → Parse A) {bs : List ℕ} {a : A}
    → Reads (f tt) bs a
    → Reads (pure tt >>= f) bs a
Reads-none f h = Reads-bind _ f (Reads-pure tt) h

before_date : Reads (skip_before_date 384 0) [] tt
unfolding skip_before_date
before_date = Reads-none _ (Reads-none _ (Reads-none _ (Reads-none _ (Reads-pure tt))))

after_text :
    (text : List ℕ)
    → length text < 2 ^ 24
    → Reads (skip_after_text 384) ((entities_bytes text ++ []) ++ []) tt
unfolding skip_after_text
after_text text h = Reads-none _ (
    Reads-none _ (
      Reads-bind _ _ (Reads-bind _ _ (Reads-entities text h) (Reads-pure tt)) (
        Reads-none _ (
          Reads-none _ (
            Reads-none _ (
              Reads-none _
                (Reads-none _ (Reads-none _ (Reads-none _ (Reads-none _ (Reads-pure tt)))))))))))

flags2_none : Reads (skip_flags2 0) [] tt
unfolding skip_flags2
flags2_none = Reads-none _ (Reads-none _ (Reads-none _ (Reads-none _ (Reads-pure tt))))

message_bytes : ℤ → ℤ → ℤ → List ℕ → List ℕ
message_bytes id from_id chat_id text =
    le_bytes 4 constructor_message
    ++ (le_bytes 4 384
        ++ (le_bytes 4 0
            ++ (le_bytes 4 (of_int32 id)
                ++ (peer_bytes from_id
                    ++ (peer_bytes chat_id
                        ++ (le_bytes 4 123
                            ++ (bytes_encoding text
                                ++ (((entities_bytes text ++ []) ++ []) ++ []))))))))

read_message : ℤ → ℤ → ℤ → List ℕ → TextMessage
read_message id from_id chat_id text = record {
  id = to_int32 (of_int32 id);
  chat_id = to_int64 (of_int64 chat_id);
  from_id = to_int64 (of_int64 from_id);
  chat_kind = str "user";
  from_kind = str "user";
  date = pos 123;
  text = text;
  raw = [];
}

Reads-message :
    (id from_id chat_id : ℤ) (text : List ℕ)
    → length text < 2 ^ 24
    → Reads parse_text_message
        (message_bytes id from_id chat_id text)
        (some (read_message id from_id chat_id text))
unfolding parse_text_message message_of_constructor full_message message_bytes read_message
    parse_sender
Reads-message id from_id chat_id text h =
    Reads-bind _ _ (Reads-int constructor_message (omega arith)) (
      Reads-bind _ _ (Reads-int 384 (omega arith)) (
        Reads-bind _ _ (Reads-int 0 (omega arith)) (
          Reads-bind _ _ (Reads-int (of_int32 id) (of_int32-lt id)) (
            Reads-bind _ _ (Reads-peer from_id) (
              Reads-none _ (
                Reads-bind _ _ (Reads-peer chat_id) (
                  Reads-bind _ _ before_date (
                    Reads-bind _ _ (Reads-int 123 (omega arith)) (
                      Reads-bind _ _ (Reads-string text h) (
                        Reads-bind _ _ (after_text text h)
                          (Reads-bind _ _ flags2_none (Reads-pure _))))))))))))

encode_test_message-bytes :
    (id from_id chat_id : ℤ) (text : List ℕ)
    → encode_test_message id from_id chat_id text ≡ message_bytes id from_id chat_id text
unfolding encode_test_message message_bytes peer_bytes entities_bytes put_int put_long put_string
encode_test_message-bytes id from_id chat_id text =
    rw put_bytes-append (simp (append_assoc, append-nil))

-- The message that is read where `encodeTestMessage` has written.
abbrev pub sent_message : ℤ → ℤ → ℤ → List ℕ → TextMessage
sent_message id from_id chat_id text = record {
  id = id;
  chat_id = chat_id;
  from_id = from_id;
  chat_kind = str "user";
  from_kind = str "user";
  date = pos 123;
  text = text;
  raw = [];
}

pub Reads-encoded :
    (id from_id chat_id : ℤ) (text : List ℕ)
    → IsI32 id
    → IsI64 from_id
    → IsI64 chat_id
    → length text < 2 ^ 24
    → Reads parse_text_message
        (encode_test_message id from_id chat_id text)
        (some (sent_message id from_id chat_id text))
unfolding read_message
Reads-encoded id from_id chat_id text hi hf hc h =
    rw (encode_test_message-bytes id from_id chat_id text) (
      subst (Reads parse_text_message (message_bytes id from_id chat_id text))
        (rw (to_int32-of_int32 id hi, to_int64-of_int64 from_id hf, to_int64-of_int64 chat_id hc)
          refl)
        (Reads-message id from_id chat_id text h))

-- A message that `encodeTestMessage` writes is read back by `parseTextMessage` with its id, its
-- sender, its chat, its date and its text, whatever follows it: for ids of the right width and a
-- text of less than 2^24 bytes.
pub parse_text_message-encode :
    (id from_id chat_id : ℤ) (text rest : List ℕ)
    → IsI32 id
    → IsI64 from_id
    → IsI64 chat_id
    → length text < 2 ^ 24
    → value (parse_text_message (new_reader (encode_test_message id from_id chat_id text ++ rest)))
      ≡ ok (
          some (record {
            id = id;
            chat_id = chat_id;
            from_id = from_id;
            chat_kind = str "user";
            from_kind = str "user";
            date = pos 123;
            text = text;
            raw = [];
          }))
unfolding read_message
parse_text_message-encode id from_id chat_id text rest hi hf hc h =
    ap (λ b. value (parse_text_message (new_reader (b ++ rest))))
      (encode_test_message-bytes id from_id chat_id text)
    ∙ Reads-whole rest (Reads-message id from_id chat_id text h)
    ∙ rw (to_int32-of_int32 id hi, to_int64-of_int64 from_id hf, to_int64-of_int64 chat_id hc) refl
