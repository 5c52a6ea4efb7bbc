-- ===== src/Unencrypted.antt =====
-- mtproto/abridged.go: messages outside an encrypted session, `buildUnencryptedMessage` and
-- `parseUnencryptedMessage`.
use mt_pro_go.Prelude.{
  ℕ, zero, suc, ◌+◌, ◌%◌, ◌^◌, ◌<◌, ◌≤◌, ◌≡◌, refl, sym, ◌∙◌, arith, List, [], ◌∷◌, ◌++◌,
  append_assoc, append-nil, ltb, le→ltb, ◌==◌, if◌then◌else◌, length, length-append, Result, ok,
  err, msg, false, ◌-◌, Bool-cases, inl, inr,
}
use mt_pro_go.Prelude.Int.{ℤ}
use mt_pro_go.Prelude.Word.{of_int64, of_int64-lt, le_bytes, length-le_bytes}
use mt_pro_go.Tl.Reader.{Parse, ◌>>=◌, pure, fail, value, new_reader, int, long, raw}
use mt_pro_go.Tl.Writer.{Write}
use mt_pro_go.Tl.Reads.{
  Reads, Reads-bind, Reads-int, Reads-long, Reads-raw, Reads-pure, Reads-whole,
}

-- `for len(out)%4 != 0`: three rounds reach a multiple of 4.
unfoldable pub pad_words : ℕ → Write
pad_words zero out = out
pad_words (suc rounds) out =
    let rest = pad_words rounds (out ++ (0 ∷ [])) in if length out % 4 == 0 then out else rest

unfoldable pub build_unencrypted_message : ℤ → List ℕ → List ℕ
build_unencrypted_message msg_id body =
    pad_words 3
      (le_bytes 8 0 ++ (le_bytes 8 (of_int64 msg_id) ++ (le_bytes 4 (length body) ++ body)))

unfoldable pub check_key_id : ℕ → Parse (Unit {0})
check_key_id auth_key_id =
    if auth_key_id == 0 then pure tt else fail (msg "mtproto: expected unencrypted auth key id 0")

unfoldable pub unencrypted_body : Parse (List ℕ)
unencrypted_body = do
  auth_key_id ← long
  _ ← check_key_id auth_key_id
  _ ← long
  size ← int
  raw size

unfoldable pub parse_unencrypted_message : List ℕ → Result (List ℕ)
parse_unencrypted_message payload =
    if ltb (length payload) 20
    then err (msg "mtproto: short unencrypted message")
    else value (unencrypted_body (new_reader payload))

-- The padding stands behind what there is.
pad_words-append :
    (rounds : ℕ) (out : List ℕ) → (zeros : List ℕ) × (pad_words rounds out ≡ out ++ zeros)
unfolding pad_words
pad_words-append zero out = ([], sym (append-nil out))
pad_words-append (suc rounds) out = elim (Bool-cases (length out % 4 == 0)) [
  | inl whole ↦ rw whole ([], sym (append-nil out))
  | inr more ↦
      let (zeros, e) = pad_words-append rounds (out ++ (0 ∷ [])) in
      rw more (0 ∷ zeros, e ∙ append_assoc out (0 ∷ []) zeros)
]

pad_words-whole :
    (rounds : ℕ) (out : List ℕ)
    → (4 - length out % 4) % 4 ≤ rounds
    → length (pad_words rounds out) % 4 ≡ 0
unfolding pad_words
pad_words-whole zero out h = omega arith
pad_words-whole (suc rounds) out h = elim (Bool-cases (length out % 4 == 0)) [
  | inl whole ↦ rw whole (ground arith)
  | inr more ↦
      let longer = length-append out (0 ∷ []) in
      let left : (4 - length (out ++ (0 ∷ [])) % 4) % 4 ≤ rounds = ground arith in
      rw more (pad_words-whole rounds (out ++ (0 ∷ [])) left)
]

message_bytes : ℤ → List ℕ → List ℕ
message_bytes msg_id body =
    le_bytes 8 0 ++ (le_bytes 8 (of_int64 msg_id) ++ (le_bytes 4 (length body) ++ body))

Reads-body :
    (msg_id : ℤ) (body : List ℕ)
    → length body < 2 ^ 32
    → Reads unencrypted_body (message_bytes msg_id body) body
unfolding unencrypted_body check_key_id message_bytes
Reads-body msg_id body h = Reads-bind _ _ (Reads-long 0 (omega arith)) (
    Reads-bind _ _ (Reads-pure tt) (
      Reads-bind _ _ (Reads-long (of_int64 msg_id) (of_int64-lt msg_id))
        (Reads-bind _ _ (Reads-int (length body) h) (Reads-raw (length body) body refl))))

-- A body of less than 2^32 bytes is read back from the unencrypted message built around it, and
-- the message is a whole number of words, as the framing wants it.
pub parse_unencrypted_message-build :
    (msg_id : ℤ) (body : List ℕ)
    → length body < 2 ^ 32
    → (parse_unencrypted_message (build_unencrypted_message msg_id body) ≡ ok body)
      × (length (build_unencrypted_message msg_id body) % 4 ≡ 0)
unfolding parse_unencrypted_message build_unencrypted_message message_bytes
parse_unencrypted_message-build msg_id body h =
    let (zeros, padded) = pad_words-append 3 (message_bytes msg_id body) in
    let size : length (message_bytes msg_id body) ≡ 20 + length body = omega (
      arith,
      length-append (le_bytes 8 0)
          (le_bytes 8 (of_int64 msg_id) ++ (le_bytes 4 (length body) ++ body)),
      length-append (le_bytes 8 (of_int64 msg_id)) (le_bytes 4 (length body) ++ body),
      length-append (le_bytes 4 (length body)) body,
      length-le_bytes 8 0,
      length-le_bytes 8 (of_int64 msg_id),
      length-le_bytes 4 (length body),
    ) in
    let long_enough : ltb (length (message_bytes msg_id body ++ zeros)) 20 ≡ false =
      le→ltb _ 20 (omega (arith, length-append (message_bytes msg_id body) zeros)) in
    (
      rw (padded, long_enough) (Reads-whole zeros (Reads-body msg_id body h)),
      pad_words-whole 3 (message_bytes msg_id body) (omega arith),
    )
