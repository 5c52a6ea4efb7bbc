-- ===== src/Difference/Vectors.antt =====
-- mtproto/difference.go: the vectors of messages, of encrypted messages and of updates. A caller
-- drops what a vector returns with an error, so an error carries no messages.
use mt_pro_go.Prelude.{
  ℕ, zero, suc, ◌-◌, List, [], ◌∷◌, ◌||◌, Option, none, some, take, drop, ◌==◌, if◌then◌else◌, ok,
  and_then, msg_num,
}
use mt_pro_go.Tl.Constructors.{
  constructor_update_new_message, constructor_update_new_channel_message,
}
use mt_pro_go.Tl.Reader.{Parse, ◌>>=◌, ◌>>◌, pure, fail, int}
use mt_pro_go.Difference.Entities.{expect_vector}
use mt_pro_go.Difference.TextMessage.{TextMessage, parse_text_message}

-- `r.buf[start:r.off]`, for a parse that starts at `start`: its value with the bytes it has read.
unfoldable pub with_raw : {A : Type 0} → Parse A → Parse (A × List ℕ)
with_raw p r = and_then (p r) (λ q. ok ((q.0, take (q.1.off - r.off) (drop r.off q.1.buf)), q.1))

-- `if ok { msg.Raw = ...; out = append(out, msg) }`, in front of the later messages.
unfoldable pub keep : Option TextMessage × List ℕ → List TextMessage → List TextMessage
keep (none, raw) out = out
keep (some m, raw) out = record m { raw = raw } ∷ out

unfoldable pub parse_messages : ℕ → Parse (List TextMessage)
parse_messages zero = pure []
parse_messages (suc count) = do
  m ← with_raw parse_text_message
  rest ← parse_messages count
  pure (keep m rest)

-- The memory that `make` sets aside for the count is not modelled.
unfoldable pub parse_message_vector : Parse (List TextMessage)
parse_message_vector =
    int >>= expect_vector "mtproto: expected vector, got 0x%08x" >> int >>= parse_messages

-- A message, `pts` and `pts_count`.
abbrev pub parse_update : Parse (Option TextMessage)
parse_update = do m ← parse_text_message; _ ← int; _ ← int; pure m

abbrev pub known_or_end : ℕ → Parse (List TextMessage) → Parse (List TextMessage)
known_or_end constructor known =
    if constructor == constructor_update_new_message
      || constructor == constructor_update_new_channel_message
    then known
    else pure []

-- An update of an unknown kind ends the vector.
unfoldable pub parse_updates : ℕ → Parse (List TextMessage)
parse_updates zero = pure []
parse_updates (suc count) =
    let known = do m ← with_raw parse_update; rest ← parse_updates count; pure (keep m rest)
    in int >>= (λ constructor. known_or_end constructor known)

unfoldable pub parse_update_vector : Parse (List TextMessage)
parse_update_vector =
    int >>= expect_vector "mtproto: expected updates vector, got 0x%08x" >> int >>= parse_updates

-- Encrypted messages are not supported: the vector has to be empty.
unfoldable pub reject_encrypted : ℕ → Parse (Unit {0})
reject_encrypted count =
    if count == 0
    then pure tt
    else fail (msg_num "mtproto: encrypted message vector with %d items is not supported yet" count)

unfoldable pub skip_encrypted_message_vector : Parse (Unit {0})
skip_encrypted_message_vector =
    int
    >>= expect_vector "mtproto: expected encrypted messages vector, got 0x%08x"
    >> int
    >>= reject_encrypted
