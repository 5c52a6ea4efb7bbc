-- ===== src/Invoke/Answer.antt =====
-- mtproto/invoke.go, `invoke`: which request an answer belongs to, and how many requests are sent.
use mathlib.Core.Path.{subst}
use mt_pro_go.Prelude.{
  ℕ, zero, suc, ◌+◌, ◌/◌, ◌%◌, ◌^◌, ◌<◌, ◌≤◌, ◌≡◌, refl, sym, ap, ◌∙◌, arith, Bool, true, false,
  not, ◌&&◌, ◌||◌, List, ◌==◌, length, if◌then◌else◌, Result, ok, err, Error, msg, msg_num,
  rpc_error, bad_server_salt, bad_message,
}
use mt_pro_go.Prelude.Int.{ℤ, pos, eq_ℤ, ◌-ℤ◌}
use mt_pro_go.Prelude.Word.{of_int64}
use mt_pro_go.Abridged.{Conn}
use mt_pro_go.Crypto.Ige.{Cipher}
use mt_pro_go.Invoke.State.{
  EncryptedState, next_msg_id-ids, next_msg_id, next_seq_no, is_retriable_bad_message_code,
  adjust_time_offset_from_bad_message,
}
use mt_pro_go.Invoke.Rpc.{InvokeResult}
use mt_pro_go.Invoke.Handle.{EncryptedMessage, Outcome, answered, waiting, failed, handle_message}
use mt_pro_go.Invoke.Session.{KeepsAllButSalt, handle_message-KeepsAllButSalt}
use mt_pro_go.Invoke.Loop.{
  Next, return, retry, after_error, after_message, received, read_replies, attempt, next_attempt,
  attempts, invoke,
}

-- The last message id and the sequence number are the same.
abbrev SameIds : EncryptedState → EncryptedState → Type 0
SameIds s t = (t.last_msg_id ≡ s.last_msg_id) × (t.seq ≡ s.seq)

-- A result carries the id of the request.
abbrev pub Answers : ℤ → Next → Type 0
Answers id (return (ok res)) = res.request_message_id ≡ id
Answers id (return (err e)) = Unit
Answers id (retry e) = Unit

abbrev IsReply : ℤ → EncryptedState → EncryptedState × Conn × Next → Type 0
IsReply id s p = SameIds s p.0 × Answers id p.2

adjust-SameIds :
    (now : ℕ) (id code : ℤ) (s : EncryptedState)
    → SameIds s (adjust_time_offset_from_bad_message now id code s)
unfolding adjust_time_offset_from_bad_message
adjust-SameIds now id code s =
    (by_test (not (eq_ℤ code (pos 16)) && not (eq_ℤ code (pos 17)) || eq_ℤ id (pos 0))
      (of_int64 id / 2 ^ 32 == 0))
  where
    by_test :
        (a b : Bool)
        → SameIds s (
            if a
            then s
            else if b
            then s
            else record s { time_offset = pos (of_int64 id / 2 ^ 32) -ℤ pos now })
    by_test true b = (refl, refl)
    by_test false true = (refl, refl)
    by_test false false = (refl, refl)

after_error-IsReply :
    (now : ℕ) (id : ℤ) (s : EncryptedState) (e : Error)
    → SameIds s (after_error now id s e).0 × Answers id (after_error now id s e).1
unfolding after_error
after_error-IsReply now id s (bad_server_salt a b c d) = ((refl, refl), tt)
after_error-IsReply now id s (msg text) = ((refl, refl), tt)
after_error-IsReply now id s (msg_num text n) = ((refl, refl), tt)
after_error-IsReply now id s (rpc_error code text) = ((refl, refl), tt)
after_error-IsReply now id s (bad_message a b code) =
    by_test (is_retriable_bad_message_code code) (eq_ℤ code (pos 16) || eq_ℤ code (pos 17))
  where
    outcome : Bool → Bool → EncryptedState × Next
    outcome p q =
        if p
        then (
          if q then adjust_time_offset_from_bad_message now id code s else s,
          retry (bad_message a b code),
        )
        else (s, return (err (bad_message a b code)))

    by_test : (p q : Bool) → SameIds s (outcome p q).0 × Answers id (outcome p q).1
    by_test true true = (adjust-SameIds now id code s, tt)
    by_test true false = ((refl, refl), tt)
    by_test false q = ((refl, refl), tt)

module _ (sha256 : List ℕ → List ℕ) (new_cipher : List ℕ → Result Cipher)
    (random : ℕ → Result (List ℕ)) (trim_space : List ℕ → List ℕ)
    (gunzip : List ℕ → Result (List ℕ)) (clock : ℕ → ℤ → ℕ) where
  after_message-IsReply :
      (now : ℕ) (id : ℤ) (conn : Conn) (rest : EncryptedState → EncryptedState × Conn × Next)
      (s : EncryptedState) (p : EncryptedState × Outcome)
      → SameIds s p.0
      → ((t : EncryptedState) → SameIds s t → IsReply id s (rest t))
      → IsReply id s
          (after_message sha256 new_cipher random trim_space gunzip clock now id conn rest p)
  unfolding after_message
  after_message-IsReply now id conn rest s (t, answered res) same h = (same, refl)
  after_message-IsReply now id conn rest s (t, waiting) same h = h t same
  after_message-IsReply now id conn rest s (t, failed e) same h =
      let ((a, b), c) = after_error-IsReply now id t e in ((a ∙ same.0, b ∙ same.1), c)

  read_replies-IsReply :
      (fuel now : ℕ) (id : ℤ) (conn : Conn) (s : EncryptedState)
      → IsReply id s
          (read_replies sha256 new_cipher random trim_space gunzip clock fuel now id conn s)
  unfolding read_replies KeepsAllButSalt
  read_replies-IsReply zero now id conn s = ((refl, refl), tt)
  read_replies-IsReply (suc fuel) now id conn s =
      by_received (received sha256 new_cipher random trim_space gunzip clock s conn)
        (λ conn' t. read_replies-IsReply fuel now id conn' t)
    where
      by_received :
          (p : Result (EncryptedMessage × Conn))
          → ((conn' : Conn) (t : EncryptedState)
              → IsReply id t (
                  read_replies sha256 new_cipher random trim_space gunzip clock fuel now id conn'
                    t))
          → IsReply id s (elim p [
            | err e ↦ (s, conn, return (err e))
            | ok (m, conn') ↦
                after_message sha256 new_cipher random trim_space gunzip clock now id conn'
                  (read_replies sha256 new_cipher random trim_space gunzip clock fuel now id conn')
                  (handle_message trim_space gunzip id (suc (length m.body)) m s)
          ])
      by_received (err e) ih = ((refl, refl), tt)
      by_received (ok (m, conn')) ih =
          let keeps =
            handle_message-KeepsAllButSalt trim_space gunzip id (suc (length m.body)) m s in
          after_message-IsReply now id conn' _ s
            (handle_message trim_space gunzip id (suc (length m.body)) m s)
            (ap (λ t. t.last_msg_id) keeps, ap (λ t. t.seq) keeps)
            (λ t same. let ((a, b), c) = ih conn' t in ((a ∙ same.0, b ∙ same.1), c))

  -- What an attempt leaves behind: one more sequence number, and a reply to the last message id.
  IsAttempt : EncryptedState → EncryptedState × Conn × Next → Type 0
  IsAttempt s p = (p.0.seq ≡ (s.seq + 1) % 2 ^ 32) × Answers p.0.last_msg_id p.2

  sent-IsAttempt :
      (n : ℕ) (id : ℤ) (conn : Conn) (s t : EncryptedState) (sent : Result Conn)
      → (t.seq ≡ (s.seq + 1) % 2 ^ 32)
      → (t.last_msg_id ≡ id)
      → IsAttempt s (elim sent [
        | err e ↦ (t, conn, return (err e))
        | ok conn' ↦
            read_replies sha256 new_cipher random trim_space gunzip clock
              (suc (length conn'.incoming))
              (clock n (pos 0) / 10 ^ 9)
              id
              conn'
              t
      ])
  unfolding IsAttempt
  sent-IsAttempt n id conn s t (err e) seq last = (seq, tt)
  sent-IsAttempt n id conn s t (ok conn') seq last =
      let p =
        read_replies sha256 new_cipher random trim_space gunzip clock (suc (length conn'.incoming))
          (clock n (pos 0) / 10 ^ 9) id conn' t in
      let ((a, b), c) =
        read_replies-IsReply (suc (length conn'.incoming)) (clock n (pos 0) / 10 ^ 9) id conn' t in
      (b ∙ seq, subst (λ k. Answers k p.2) (sym (a ∙ last)) c)

  attempt-IsAttempt :
      (n : ℕ) (body : List ℕ) (conn : Conn) (s : EncryptedState)
      → IsAttempt s (attempt sha256 new_cipher random trim_space gunzip clock n body conn s)
  unfolding attempt next_seq_no
  attempt-IsAttempt n body conn s =
      let (kept, last) = next_msg_id-ids (clock n) s in
      sent-IsAttempt n (next_msg_id (clock n) s).0 conn s
        (next_seq_no true (next_msg_id (clock n) s).1).1 _ (ap (λ k. (k + 1) % 2 ^ 32) kept) last

  -- The end of `invoke`: the sequence number moved by at most `left`, and a result carries the
  -- last message id.
  Ends : ℕ → EncryptedState → EncryptedState × Conn × Result InvokeResult → Type 0
  Ends left s p =
      (s.seq ≤ p.0.seq) × (p.0.seq ≤ s.seq + left) × Answers p.0.last_msg_id (return p.2)

  next_attempt-Ends :
      (left : ℕ) (s : EncryptedState) (p : EncryptedState × Conn × Next)
      (again : Error → Conn → EncryptedState → EncryptedState × Conn × Result InvokeResult)
      → s.seq + suc left < 2 ^ 32
      → IsAttempt s p
      → ((e : Error) (conn : Conn) (t : EncryptedState)
          → t.seq + left < 2 ^ 32
          → Ends left t (again e conn t))
      → Ends (suc left) s (next_attempt sha256 new_cipher random trim_space gunzip clock again p)
  unfolding IsAttempt Ends
  next_attempt-Ends left s (t, conn, return (ok res)) again room h rest =
      (omega (arith, h.0), omega (arith, h.0), h.1)
  next_attempt-Ends left s (t, conn, return (err e)) again room h rest =
      (omega (arith, h.0), omega (arith, h.0), tt)
  next_attempt-Ends left s (t, conn, retry e) again room h rest =
      let (low, high, reply) = rest e conn t (omega (arith, h.0)) in
      (omega (arith, h.0), omega (arith, h.0), reply)

  attempts-Ends :
      (left : ℕ) (last : Error) (body : List ℕ) (conn : Conn) (s : EncryptedState)
      → s.seq + left < 2 ^ 32
      → Ends left s
          (attempts sha256 new_cipher random trim_space gunzip clock left last body conn s)
  unfolding attempts
  attempts-Ends zero last body conn s room = unfold Ends in (omega arith, omega arith, tt)
  attempts-Ends (suc left) last body conn s room =
      next_attempt-Ends left s
        (attempt sha256 new_cipher random trim_space gunzip clock (suc left) body conn s) _ room
        (attempt-IsAttempt (suc left) body conn s)
        (λ e conn' t room'. attempts-Ends left e body conn' t room')

  -- However the connection answers, `invoke` takes at most three sequence numbers, one for each
  -- packet that it builds, as long as they do not wrap; and a result that it returns answers the
  -- last message id that the session gave out.
  pub invoke-Answers :
      (body : List ℕ) (conn : Conn) (s : EncryptedState)
      → s.seq + 3 < 2 ^ 32
      → let end = invoke sha256 new_cipher random trim_space gunzip clock body conn s in
        (s.seq ≤ end.0.seq) × (end.0.seq ≤ s.seq + 3) × Answers end.0.last_msg_id (return end.2)
  unfolding invoke Ends
  invoke-Answers body conn s room =
      attempts-Ends 3 (msg "mtproto: invoke retry limit reached") body conn s room
