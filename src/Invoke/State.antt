-- ===== src/Invoke/State.antt =====
-- mtproto/invoke.go, `encryptedState`: sequence numbers, message ids and the clock offset. The
-- clock is a parameter: `clock offset` is `time.Now()` moved by the offset, in nanoseconds, at a
-- time after 1970. An int32 `seq` is kept as its 32-bit word.
use mt_pro_go.Prelude.{
  ℕ, ◌+◌, ◌-◌, ◌*◌, ◌/◌, ◌%◌, ◌^◌, ◌<◌, ◌≡◌, refl, arith, Bool, true, false, ◌||◌, not, ◌&&◌, List,
  ◌==◌, if◌then◌else◌, Bool-cases, inl, inr,
}
use mt_pro_go.Prelude.Int.{ℤ, pos, negsuc, ◌+ℤ◌, ◌-ℤ◌, ◌<ℤ◌, ◌≤ℤ◌, ltb_ℤ, eq_ℤ}
use mt_pro_go.Prelude.Word.{to_int64, of_int64, wrap64, of_int64-to_int64}

pub record EncryptedState : Type 0 where
  pub auth_key : List ℕ
  pub auth_key_id : ℕ
  pub server_salt : ℤ
  pub session_id : ℤ
  pub time_offset : ℤ
  pub seq : ℕ
  pub last_msg_id : ℤ

-- The session id is read from the random source.
abbrev pub new_encrypted_state : List ℕ → ℕ → ℤ → ℤ → ℤ → EncryptedState
new_encrypted_state auth_key auth_key_id server_salt time_offset session_id = record {
  auth_key = auth_key;
  auth_key_id = auth_key_id;
  server_salt = server_salt;
  session_id = session_id;
  time_offset = time_offset;
  seq = 0;
  last_msg_id = pos 0;
}

unfoldable pub next_seq_no : Bool → EncryptedState → ℕ × EncryptedState
next_seq_no content_related s =
    if content_related
    then ((s.seq * 2 + 1) % 2 ^ 32, record s { seq = (s.seq + 1) % 2 ^ 32 })
    else (s.seq * 2 % 2 ^ 32, s)

-- `(seconds << 32) | ((nanos << 32) / second)` with the two low bits cleared, as an int64. The
-- second part is below 2^32, so `|` adds.
unfoldable pub clock_msg_id : ℕ → ℤ
clock_msg_id now =
    let w = (now / 10 ^ 9 * 2 ^ 32 + now % 10 ^ 9 * 2 ^ 32 / 10 ^ 9) % 2 ^ 64 in
    to_int64 (w - w % 4)

unfoldable pub next_msg_id : (ℤ → ℕ) → EncryptedState → ℤ × EncryptedState
next_msg_id clock s =
    let msg_id = clock_msg_id (clock s.time_offset) in
    let bumped = wrap64 (s.last_msg_id +ℤ pos 4) in
    if ltb_ℤ s.last_msg_id msg_id
    then (msg_id, record s { last_msg_id = msg_id })
    else (bumped, record s { last_msg_id = bumped })

unfoldable pub is_retriable_bad_message_code : ℤ → Bool
is_retriable_bad_message_code code =
    eq_ℤ code (pos 16)
    || eq_ℤ code (pos 17)
    || eq_ℤ code (pos 32)
    || eq_ℤ code (pos 33)
    || eq_ℤ code (pos 48)

-- `now` is `time.Now().Unix()`.
unfoldable pub adjust_time_offset_from_bad_message : ℕ → ℤ → ℤ → EncryptedState → EncryptedState
adjust_time_offset_from_bad_message now bad_msg_id code s =
    let server_seconds = of_int64 bad_msg_id / 2 ^ 32 in
    if not (eq_ℤ code (pos 16)) && not (eq_ℤ code (pos 17)) || eq_ℤ bad_msg_id (pos 0)
    then s
    else if server_seconds == 0
    then s
    else record s { time_offset = pos server_seconds -ℤ pos now }

-- The identifiers of a session: multiples of 4 that leave room for the next one.
unfoldable pub IsMsgId : ℤ → Type 0
IsMsgId z = (pos 0 ≤ℤ z) × (z <ℤ pos (2 ^ 63 - 4)) × (of_int64 z % 4 ≡ 0)

clock_msg_id_aligned : (now : ℕ) → of_int64 (clock_msg_id now) % 4 ≡ 0
unfolding clock_msg_id
clock_msg_id_aligned now =
    aligned ((now / 10 ^ 9 * 2 ^ 32 + now % 10 ^ 9 * 2 ^ 32 / 10 ^ 9) % 2 ^ 64) (omega arith)
  where
    aligned : (w : ℕ) → w < 2 ^ 64 → of_int64 (to_int64 (w - w % 4)) % 4 ≡ 0
    aligned w h = rw (of_int64-to_int64 (w - w % 4) (omega arith)) (omega arith)

bumped_id :
    (z : ℤ) → IsMsgId z → (z <ℤ wrap64 (z +ℤ pos 4)) × (of_int64 (wrap64 (z +ℤ pos 4)) % 4 ≡ 0)
unfolding IsMsgId
bumped_id (pos n) h = ground arith
bumped_id (negsuc n) h = absurd (ground arith)

-- Whatever the clock says, an identifier is above every earlier one and divisible by 4, and it is
-- the one that the session remembers.
pub next_msg_id_increases :
    (clock : ℤ → ℕ) (s : EncryptedState)
    → IsMsgId s.last_msg_id
    → (s.last_msg_id <ℤ (next_msg_id clock s).0)
      × (of_int64 (next_msg_id clock s).0 % 4 ≡ 0)
      × ((next_msg_id clock s).1.last_msg_id ≡ (next_msg_id clock s).0)
unfolding next_msg_id
next_msg_id_increases clock s h =
    elim (Bool-cases (ltb_ℤ s.last_msg_id (clock_msg_id (clock s.time_offset)))) [
      | inl above ↦ rw above (ground arith, clock_msg_id_aligned (clock s.time_offset), refl)
      | inr below ↦ rw below ((bumped_id s.last_msg_id h).0, (bumped_id s.last_msg_id h).1, refl)
    ]

-- Two content-related messages in a row have sequence numbers that are odd and differ by 2; a
-- message between them that is not content-related has the even number between them.
pub next_seq_no_lem :
    (s : EncryptedState)
    → s.seq < 2 ^ 30
    → let s₁ = (next_seq_no true s).1 in
      ((next_seq_no true s).0 % 2 ≡ 1)
      × ((next_seq_no true s₁).0 ≡ (next_seq_no true s).0 + 2)
      × ((next_seq_no false s₁).0 ≡ (next_seq_no true s).0 + 1)
      × ((next_seq_no false s₁).1 ≡ s₁)
unfolding next_seq_no
next_seq_no_lem s h = (omega arith, omega arith, omega arith, refl)

pub next_msg_id-ids :
    (clock : ℤ → ℕ) (s : EncryptedState)
    → ((next_msg_id clock s).1.seq ≡ s.seq)
      × ((next_msg_id clock s).1.last_msg_id ≡ (next_msg_id clock s).0)
unfolding next_msg_id
next_msg_id-ids clock s =
    elim (Bool-cases (ltb_ℤ s.last_msg_id (clock_msg_id (clock s.time_offset)))) [
      | inl above ↦ rw above (refl, refl)
      | inr below ↦ rw below (refl, refl)
    ]
