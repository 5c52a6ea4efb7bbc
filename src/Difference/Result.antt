-- ===== src/Difference/Result.antt =====
-- mtproto/difference.go, `parseDifferenceResult`.
use mt_pro_go.Prelude.{
  ℕ, List, [], ◌++◌, ◌||◌, Option, some, ◌==◌, if◌then◌else◌, Result, ok, err, msg_num,
}
use mt_pro_go.Prelude.Word.{to_int32}
use mt_pro_go.Peers.{PeerRef, scan_peer_refs}
use mt_pro_go.State.{UpdatesState, zero_state}
use mt_pro_go.State.Scan.{scan_updates_state}
use mt_pro_go.Tl.Constructors.{
  constructor_difference_empty, constructor_difference, constructor_difference_slice,
  constructor_difference_too_long,
}
use mt_pro_go.Tl.Reader.{Reader, Parse, ◌>>=◌, ◌>>◌, pure, fail, value, new_reader, int}
use mt_pro_go.Difference.TextMessage.{TextMessage}
use mt_pro_go.Difference.Vectors.{
  parse_message_vector, skip_encrypted_message_vector, parse_update_vector,
}

pub record DifferenceResult : Type 0 where
  pub constructor_id : ℕ
  pub state : Option UpdatesState
  pub messages : List TextMessage
  pub peers : List PeerRef
  pub users : List PeerRef
  pub raw : List ℕ

-- What is known before the constructor is looked at.
unfoldable pub scanned_result : List ℕ → ℕ → DifferenceResult
scanned_result body constructor = record {
  constructor_id = constructor;
  state = scan_updates_state body;
  messages = [];
  peers = scan_peer_refs body;
  users = scan_peer_refs body;
  raw = body;
}

-- The rest of the parse behind the first vector. An error keeps what has been read before it.
unfoldable pub updates_after :
    DifferenceResult → Result (List TextMessage × Reader) → DifferenceResult
updates_after out (err e) = out
updates_after out (ok (ms, r)) = record out { messages = out.messages ++ ms }

unfoldable pub messages_after :
    DifferenceResult → Result (List TextMessage × Reader) → DifferenceResult
messages_after out (err e) = out
messages_after out (ok (ms, r)) =
    updates_after (record out { messages = out.messages ++ ms })
      ((skip_encrypted_message_vector >> parse_update_vector) r)

unfoldable pub difference_of : DifferenceResult → Parse DifferenceResult
difference_of out =
    let empty = do
      date ← int
      seq ← int
      pure (record out {
        state = some (record zero_state { date = to_int32 date; seq = to_int32 seq });
      })
    in let too_long = int >>= λ pts.
    pure (record out { state = some (record zero_state { pts = to_int32 pts }) }) in
      if out.constructor_id == constructor_difference_empty
      then empty
      else if out.constructor_id == constructor_difference_too_long
      then too_long
      else if out.constructor_id == constructor_difference
          || out.constructor_id == constructor_difference_slice
      then (λ r. ok (messages_after out (parse_message_vector r), r))
      else fail (msg_num "mtproto: expected updates.Difference, got 0x%08x" out.constructor_id)

unfoldable pub parse_difference_result : List ℕ → Result DifferenceResult
parse_difference_result body =
    value
      ((int >>= λ constructor. difference_of (scanned_result body constructor)) (new_reader body))
