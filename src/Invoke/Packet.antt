-- ===== src/Invoke/Packet.antt =====
-- mtproto/invoke.go: encrypted packets. SHA-256, AES and the random source are parameters.
use mt_pro_go.Prelude.{
  ℕ, ◌+◌, ◌-◌, ◌%◌, List, ◌++◌, ◌||◌, not, ltb, ◌==◌, if◌then◌else◌, length, take, drop, Result, ok,
  err, msg, msg_num, and_then,
}
use mt_pro_go.Prelude.Int.{ℤ}
use mt_pro_go.Prelude.Word.{to_int32, to_int64, of_int64, le_bytes}
use mt_pro_go.Tl.Reader.{Parse, ◌>>=◌, pure, fail, value, new_reader, int, long, raw, remaining}
use mt_pro_go.Crypto.Bytes.{equal_bytes}
use mt_pro_go.Crypto.Ige.{Cipher, aes_ige_encrypt, aes_ige_decrypt}
use mt_pro_go.Invoke.State.{EncryptedState}
use mt_pro_go.Invoke.Handle.{EncryptedMessage}

-- `b[low:high]`.
abbrev pub slice : ℕ → ℕ → List ℕ → List ℕ
slice low high b = take (high - low) (drop low b)

-- What is encrypted, up to the padding. `seq_no` is the 32-bit word.
unfoldable pub inner_bytes : EncryptedState → ℤ → ℕ → List ℕ → List ℕ
inner_bytes s msg_id seq_no body =
    le_bytes 8 (of_int64 s.server_salt)
    ++ (le_bytes 8 (of_int64 s.session_id)
        ++ (le_bytes 8 (of_int64 msg_id)
            ++ (le_bytes 4 seq_no ++ (le_bytes 4 (length body) ++ body))))

abbrev pub padding_length : ℕ → ℕ
padding_length plain = 12 + (16 - (plain + 12) % 16) % 16

-- The rest of the decrypted bytes is padding.
unfoldable pub inner_message : Parse EncryptedMessage
inner_message = do
  salt ← long
  session_id ← long
  msg_id ← long
  seq_no ← int
  size ← int
  body ← raw size
  pure (record {
    salt = to_int64 salt;
    session_id = to_int64 session_id;
    msg_id = to_int64 msg_id;
    seq_no = to_int32 seq_no;
    body = body;
  })

-- The key id, which has to be the session's, and the message key.
unfoldable pub packet_head : EncryptedState → Parse (List ℕ)
packet_head s = long >>= λ auth_key_id.
    if auth_key_id == s.auth_key_id
    then raw 16
    else fail (msg_num "mtproto: auth key id mismatch: got %x" auth_key_id)

module _ (sha256 : List ℕ → List ℕ) (new_cipher : List ℕ → Result Cipher) where
  abbrev pub aes_key : List ℕ → List ℕ → ℕ → List ℕ
  aes_key auth_key msg_key x =
      let a = sha256 (msg_key ++ slice x (x + 36) auth_key) in
      let b = sha256 (slice (40 + x) (76 + x) auth_key ++ msg_key) in
      slice 0 8 a ++ (slice 8 24 b ++ slice 24 32 a)

  abbrev pub aes_iv : List ℕ → List ℕ → ℕ → List ℕ
  aes_iv auth_key msg_key x =
      let a = sha256 (msg_key ++ slice x (x + 36) auth_key) in
      let b = sha256 (slice (40 + x) (76 + x) auth_key ++ msg_key) in
      slice 0 8 b ++ (slice 8 24 a ++ slice 24 32 b)

  -- `mtproto2AESKeyIV`, for a key of 256 bytes, as a session has; Go would panic on a short one.
  unfoldable pub mtproto2_aes_key_iv : List ℕ → List ℕ → ℕ → List ℕ × List ℕ
  mtproto2_aes_key_iv auth_key msg_key x = (aes_key auth_key msg_key x, aes_iv auth_key msg_key x)

  -- The packet around a padded plain text: `from` is 88 and `x` 0 for the client's packets.
  unfoldable pub sealed : EncryptedState → ℕ → ℕ → List ℕ → Result (List ℕ)
  sealed s from x plain =
      let msg_key = slice 8 24 (sha256 (slice from (from + 32) s.auth_key ++ plain)) in
      let keys = mtproto2_aes_key_iv s.auth_key msg_key x in
      and_then (aes_ige_encrypt new_cipher plain keys.0 keys.1)
        (λ ciphertext. ok (le_bytes 8 s.auth_key_id ++ (msg_key ++ ciphertext)))

  -- `random n` is what `rand.Read` puts into `n` bytes.
  unfoldable pub build_encrypted_packet :
      (ℕ → Result (List ℕ)) → EncryptedState → ℤ → ℕ → List ℕ → Result (List ℕ)
  build_encrypted_packet random s msg_id seq_no body =
      let plain = inner_bytes s msg_id seq_no body in
      and_then (random (padding_length (length plain)))
        (λ padding. sealed s 88 0 (plain ++ padding))

  unfoldable pub open_packet : EncryptedState → List ℕ → List ℕ → Result EncryptedMessage
  open_packet s msg_key ciphertext =
      let keys = mtproto2_aes_key_iv s.auth_key msg_key 8 in
      and_then (aes_ige_decrypt new_cipher ciphertext keys.0 keys.1) (λ plain.
        if equal_bytes msg_key (slice 8 24 (sha256 (slice 96 128 s.auth_key ++ plain)))
        then value (inner_message (new_reader plain))
        else err (msg "mtproto: inbound msg_key verification failed"))

  unfoldable pub parse_encrypted_packet : EncryptedState → List ℕ → Result EncryptedMessage
  parse_encrypted_packet s payload =
      if ltb (length payload) 24 || not ((length payload - 24) % 16 == 0)
      then err (msg "mtproto: invalid encrypted packet length")
      else and_then (packet_head s (new_reader payload)) (λ p. open_packet s p.0 (remaining p.1))
