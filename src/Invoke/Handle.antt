-- ===== src/Invoke/Handle.antt =====
-- mtproto/invoke.go, `handleMessage`.
use mt_pro_go.Prelude.{
  ℕ, zero, suc, ◌+◌, ◌%◌, List, ◌&&◌, not, ltb, ◌==◌, if◌then◌else◌, length, Result, ok, err, Error,
  msg, bad_server_salt, bad_message,
}
use mt_pro_go.Prelude.Int.{ℤ, eq_ℤ}
use mt_pro_go.Prelude.Word.{to_int32, to_int64}
use mt_pro_go.Tl.Constructors.{
  constructor_msg_container, constructor_rpc_result, constructor_new_session_created,
  constructor_bad_server_salt, constructor_bad_msg_notification,
}
use mt_pro_go.Tl.Reader.{Reader, Parse, ◌>>=◌, ◌>>◌, pure, new_reader, int, long, raw, remaining}
use mt_pro_go.Invoke.State.{EncryptedState}
use mt_pro_go.Invoke.Rpc.{InvokeResult, parse_rpc_result_object}

pub record EncryptedMessage : Type 0 where
  pub salt : ℤ
  pub session_id : ℤ
  pub msg_id : ℤ
  pub seq_no : ℤ
  pub body : List ℕ

-- `(result, true, nil)`, `(nil, false, nil)` and `(nil, false, err)`.
pub data Outcome : Type 0 where
  answered : InvokeResult → Outcome
  waiting : Outcome
  failed : Error → Outcome

-- What `handleMessage` does: the session after it, and what it returns.
abbrev pub Handler : Type 0
Handler = EncryptedMessage → EncryptedState → EncryptedState × Outcome

-- A parse that fails returns its error at once and leaves the session alone.
abbrev pub parsed :
    {A : Type 0}
    → Result (A × Reader)
    → (A → Reader → EncryptedState → EncryptedState × Outcome)
    → EncryptedState
    → EncryptedState × Outcome
parsed (ok (a, r)) f s = f a r s
parsed (err e) f s = (s, failed e)

-- `for r.off%4 != 0 && r.off < len(r.buf) { r.off++ }`: three rounds reach a multiple of 4.
unfoldable pub align : ℕ → Reader → Reader
align zero r = r
align (suc rounds) r =
    let rest = align rounds (record r { off = r.off + 1 }) in
    if not (r.off % 4 == 0) && ltb r.off (length r.buf) then rest else r

-- The id, the sequence number and the body of a message in a container.
unfoldable pub child_message : EncryptedMessage → Parse EncryptedMessage
child_message m = do
  child_msg_id ← long
  child_seq_no ← int
  child_len ← int
  child_body ← raw child_len
  pure (record {
    salt = m.salt;
    session_id = m.session_id;
    msg_id = to_int64 child_msg_id;
    seq_no = to_int32 child_seq_no;
    body = child_body;
  })

-- The loop goes on while no message answers the request or fails.
abbrev pub unless_waiting :
    EncryptedState × Outcome
    → (EncryptedState → EncryptedState × Outcome)
    → EncryptedState × Outcome
unless_waiting (s, answered res) rest = (s, answered res)
unless_waiting (s, waiting) rest = rest s
unless_waiting (s, failed e) rest = (s, failed e)

unfoldable pub handle_children :
    Handler → EncryptedMessage → ℕ → Reader → EncryptedState → EncryptedState × Outcome
handle_children handle m zero r s = (s, waiting)
handle_children handle m (suc count) r s =
    parsed (child_message m r)
      (λ child r' s'.
        unless_waiting (handle child s') (handle_children handle m count (align 3 r')))
      s

abbrev pub install_salt : ℕ → EncryptedState → EncryptedState
install_salt new_salt s = record s { server_salt = to_int64 new_salt }

abbrev pub outcome_of : Result InvokeResult → Outcome
outcome_of (ok res) = answered res
outcome_of (err e) = failed e

module _ (trim_space : List ℕ → List ℕ) (gunzip : List ℕ → Result (List ℕ))
    (request_msg_id : ℤ) where
  unfoldable pub handle_rpc_result :
      EncryptedMessage → Reader → EncryptedState → EncryptedState × Outcome
  handle_rpc_result m r s =
      parsed (long r)
        (λ req_id r' s'. (
          s',
          if eq_ℤ (to_int64 req_id) request_msg_id
              then outcome_of (parse_rpc_result_object trim_space gunzip m.msg_id (remaining r'))
              else waiting,
        ))
        s

  unfoldable pub handle_new_session_created : Reader → EncryptedState → EncryptedState × Outcome
  handle_new_session_created r s =
      parsed ((long >> long >> long) r) (λ new_salt r' s'. (install_salt new_salt s', waiting)) s

  unfoldable pub handle_bad_server_salt : Reader → EncryptedState → EncryptedState × Outcome
  handle_bad_server_salt r s =
      parsed (long r)
        (λ bad_msg_id r₁. parsed (int r₁) (λ bad_seq_no r₂. parsed (int r₂) (λ code r₃.
          parsed (long r₃) (λ new_salt r₄ s'. (
            install_salt new_salt s',
            failed (
                bad_server_salt (to_int64 bad_msg_id) (to_int32 bad_seq_no) (to_int32 code)
                  (to_int64 new_salt)),
          )))))
        s

  unfoldable pub handle_bad_msg_notification : Reader → EncryptedState → EncryptedState × Outcome
  handle_bad_msg_notification r s =
      parsed (long r)
        (λ bad_msg_id r₁. parsed (int r₁) (λ bad_seq_no r₂. parsed (int r₂) (λ code r₃ s'.
          (s', failed (bad_message (to_int64 bad_msg_id) (to_int32 bad_seq_no) (to_int32 code))))))
        s

  unfoldable pub by_constructor :
      Handler → EncryptedMessage → ℕ → Reader → EncryptedState → EncryptedState × Outcome
  by_constructor handle m constructor r s =
      if constructor == constructor_msg_container
      then parsed (int r) (λ count r'. handle_children handle m count r') s
      else if constructor == constructor_rpc_result
      then handle_rpc_result m r s
      else if constructor == constructor_new_session_created
      then handle_new_session_created r s
      else if constructor == constructor_bad_server_salt
      then handle_bad_server_salt r s
      else if constructor == constructor_bad_msg_notification
      then handle_bad_msg_notification r s
      else (s, waiting)

  -- The body of `handleMessage`, where `handle` is what it calls for the messages of a container.
  unfoldable pub handled_with : Handler → Handler
  handled_with handle m s =
      if ltb (length m.body) 4
      then (s, failed (msg "mtproto: empty encrypted message body"))
      else parsed (int (new_reader m.body)) (by_constructor handle m) s

  -- A container holds messages; the fuel bounds how deep they nest.
  unfoldable pub handle_message : ℕ → Handler
  handle_message zero m s = (s, failed (msg "out of fuel"))
  handle_message (suc fuel) m s = handled_with (handle_message fuel) m s
