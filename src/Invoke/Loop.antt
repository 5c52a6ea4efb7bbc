-- ===== src/Invoke/Loop.antt =====
-- mtproto/invoke.go, `invoke`: the request is sent up to three times. The deadline of the
-- connection is not modelled. `clock attempt offset` is the time of an attempt, in nanoseconds.
use mt_pro_go.Prelude.{
  ℕ, zero, suc, ◌/◌, ◌^◌, true, List, length, if◌then◌else◌, Result, ok, err, Error, msg, msg_num,
  rpc_error, bad_server_salt, bad_message, and_then, ◌||◌,
}
use mt_pro_go.Prelude.Int.{ℤ, pos, eq_ℤ}
use mt_pro_go.Abridged.{Conn, abridged_write, abridged_read}
use mt_pro_go.Crypto.Ige.{Cipher}
use mt_pro_go.Invoke.State.{
  EncryptedState, next_msg_id, next_seq_no, is_retriable_bad_message_code,
  adjust_time_offset_from_bad_message,
}
use mt_pro_go.Invoke.Rpc.{InvokeResult}
use mt_pro_go.Invoke.Handle.{EncryptedMessage, Outcome, answered, waiting, failed, handle_message}
use mt_pro_go.Invoke.Packet.{build_encrypted_packet, parse_encrypted_packet}

-- How the inner loop ends: `invoke` returns, or the loop is left for another attempt.
pub data Next : Type 0 where
  return : Result InvokeResult → Next
  retry : Error → Next

-- After an error of `handleMessage`: a new salt or a retriable code asks for another attempt.
unfoldable pub after_error : ℕ → ℤ → EncryptedState → Error → EncryptedState × Next
after_error now request_msg_id s (bad_server_salt a b c d) = (s, retry (bad_server_salt a b c d))
after_error now request_msg_id s (bad_message a b code) =
    if is_retriable_bad_message_code code
    then (
      if eq_ℤ code (pos 16) || eq_ℤ code (pos 17)
          then adjust_time_offset_from_bad_message now request_msg_id code s
          else s,
      retry (bad_message a b code),
    )
    else (s, return (err (bad_message a b code)))
after_error now request_msg_id s (msg text) = (s, return (err (msg text)))
after_error now request_msg_id s (msg_num text n) = (s, return (err (msg_num text n)))
after_error now request_msg_id s (rpc_error code text) = (s, return (err (rpc_error code text)))

abbrev pub with_conn : Conn → EncryptedState × Next → EncryptedState × Conn × Next
with_conn conn (s, next) = (s, conn, next)

module _ (sha256 : List ℕ → List ℕ) (new_cipher : List ℕ → Result Cipher)
    (random : ℕ → Result (List ℕ)) (trim_space : List ℕ → List ℕ)
    (gunzip : List ℕ → Result (List ℕ)) (clock : ℕ → ℤ → ℕ) where
  -- What a received message leads to: an answer, an error, or the next round of the loop.
  unfoldable pub after_message :
      ℕ
      → ℤ
      → Conn
      → (EncryptedState → EncryptedState × Conn × Next)
      → EncryptedState × Outcome
      → EncryptedState × Conn × Next
  after_message now request_msg_id conn rest (s, answered res) =
      (s, conn, return (ok (record res { request_message_id = request_msg_id })))
  after_message now request_msg_id conn rest (s, waiting) = rest s
  after_message now request_msg_id conn rest (s, failed e) =
      with_conn conn (after_error now request_msg_id s e)

  unfoldable pub received : EncryptedState → Conn → Result (EncryptedMessage × Conn)
  received s conn =
      and_then (abridged_read conn)
        (λ p. and_then (parse_encrypted_packet sha256 new_cipher s p.0) (λ m. ok (m, p.1)))

  -- The inner loop. Each round takes a byte of the connection at least.
  unfoldable pub read_replies : ℕ → ℕ → ℤ → Conn → EncryptedState → EncryptedState × Conn × Next
  read_replies zero now request_msg_id conn s = (s, conn, return (err (msg "out of fuel")))
  read_replies (suc fuel) now request_msg_id conn s = elim (received s conn) [
    | err e ↦ (s, conn, return (err e))
    | ok (m, conn') ↦
        after_message now request_msg_id conn' (read_replies fuel now request_msg_id conn')
          (handle_message trim_space gunzip request_msg_id (suc (length m.body)) m s)
  ]

  -- One attempt: the packet is built and written, and the replies are read.
  unfoldable pub attempt : ℕ → List ℕ → Conn → EncryptedState → EncryptedState × Conn × Next
  attempt n body conn s =
      let id = next_msg_id (clock n) s in
      let number = next_seq_no true id.1 in
      elim (and_then (build_encrypted_packet sha256 new_cipher random number.1 id.0 number.0 body)
        (λ packet. abridged_write packet conn)) [
          | err e ↦ (number.1, conn, return (err e))
          | ok conn' ↦
              read_replies (suc (length conn'.incoming)) (clock n (pos 0) / 10 ^ 9) id.0 conn'
                number.1
        ]

  -- What `invoke` does with the end of an attempt.
  abbrev pub next_attempt :
      (Error → Conn → EncryptedState → EncryptedState × Conn × Result InvokeResult)
      → EncryptedState × Conn × Next
      → EncryptedState × Conn × Result InvokeResult
  next_attempt again (s, conn, return res) = (s, conn, res)
  next_attempt again (s, conn, retry e) = again e conn s

  -- The loop `for attempt := 0; attempt < 3; attempt++` with `left` attempts to go, and `lastErr`.
  unfoldable pub attempts :
      ℕ → Error → List ℕ → Conn → EncryptedState → EncryptedState × Conn × Result InvokeResult
  attempts zero last body conn s = (s, conn, err last)
  attempts (suc left) last body conn s =
      next_attempt (λ e conn' s'. attempts left e body conn' s') (attempt (suc left) body conn s)

  unfoldable pub invoke :
      List ℕ → Conn → EncryptedState → EncryptedState × Conn × Result InvokeResult
  invoke body conn s = attempts 3 (msg "mtproto: invoke retry limit reached") body conn s
