-- ===== src/Auth/ClientDh.antt =====
-- mtproto/auth.go, `sendSetClientDHParams` and `parseDHGenAnswer`: the client's side of the
-- Diffie-Hellman exchange.
use mt_pro_go.Prelude.{
  ℕ, List, [], if◌then◌else◌, ◌==◌, length, Result, ok, err, msg, msg_num, and_then,
}
use mt_pro_go.Prelude.Int.{ℤ, pos_part}
use mt_pro_go.Tl.Constructors.{
  constructor_set_client_dh_params, constructor_client_dh_inner_data, constructor_dh_gen_ok,
  constructor_dh_gen_retry, constructor_dh_gen_fail,
}
use mt_pro_go.Tl.Reader.{Parse, ◌>>=◌, pure, value, new_reader, int, raw}
use mt_pro_go.Tl.Writer.{put_int, put_long, put_raw, put_bytes}
use mt_pro_go.Crypto.Bytes.{equal_bytes}
use mt_pro_go.Crypto.Big.{set_bytes, pad_big_int_bytes}
use mt_pro_go.Crypto.Modular.{mod_exp}
use mt_pro_go.Crypto.Ige.{Cipher, aes_ige_encrypt}
use mt_pro_go.Crypto.Sha1.{temp_aes_keys, add_sha1_and_pad16, new_nonce_hash}
use mt_pro_go.Auth.{AuthKeyResult, ServerDhInnerData, Conn, send_unencrypted, expect_raw}

-- `gb` and `authKey` for the secret bytes `b`. The generator is positive here: it has been validated.
unfoldable pub client_gb : ServerDhInnerData → List ℕ → List ℕ
client_gb server_dh b =
    pad_big_int_bytes (mod_exp (pos_part server_dh.g) (set_bytes b) (set_bytes server_dh.dh_prime))
      (length server_dh.dh_prime)

unfoldable pub client_auth_key : ServerDhInnerData → List ℕ → List ℕ
client_auth_key server_dh b =
    pad_big_int_bytes
      (mod_exp (set_bytes server_dh.ga) (set_bytes b) (set_bytes server_dh.dh_prime))
      (length server_dh.dh_prime)

unfoldable pub client_inner : AuthKeyResult → List ℕ → List ℕ
client_inner result gb = put_bytes gb (
    put_long 0 (
      put_raw result.server_nonce
        (put_raw result.nonce (put_int constructor_client_dh_inner_data []))))

unfoldable pub set_client_dh_params : AuthKeyResult → List ℕ → List ℕ
set_client_dh_params result encrypted = put_bytes encrypted (
    put_raw result.server_nonce
      (put_raw result.nonce (put_int constructor_set_client_dh_params [])))

-- The constructor and the hash of an answer with both nonces of the exchange.
unfoldable pub dh_gen_answer : AuthKeyResult → Parse (ℕ × List ℕ)
dh_gen_answer result = do
  constructor ← int
  _ ← expect_raw result.nonce "mtproto: nonce mismatch in dh_gen response"
  _ ← expect_raw result.server_nonce "mtproto: server_nonce mismatch in dh_gen response"
  hash ← raw 16
  pure (constructor, hash)

module _ (sha1 : List ℕ → List ℕ) where
  -- The cases of the answer, for the hash that it has.
  unfoldable pub dh_gen_case : AuthKeyResult → List ℕ → ℕ → List ℕ → Result (Unit {0})
  dh_gen_case result auth_key constructor hash =
      let same =
        λ (number : ℕ). equal_bytes hash (new_nonce_hash sha1 result.new_nonce number auth_key) in
      if constructor == constructor_dh_gen_ok
      then (if same 1 then ok tt else err (msg "mtproto: new_nonce_hash1 mismatch"))
      else if constructor == constructor_dh_gen_retry
      then err
          (msg (if same 2 then "mtproto: dh_gen_retry" else "mtproto: new_nonce_hash2 mismatch"))
      else if constructor == constructor_dh_gen_fail
      then err
          (msg (if same 3 then "mtproto: dh_gen_fail" else "mtproto: new_nonce_hash3 mismatch"))
      else err (msg_num "mtproto: unknown dh_gen response 0x%08x" constructor)

  unfoldable pub parse_dh_gen_answer : List ℕ → AuthKeyResult → List ℕ → Result (Unit {0})
  parse_dh_gen_answer body result auth_key =
      and_then (value (dh_gen_answer result (new_reader body)))
        (λ a. dh_gen_case result auth_key a.0 a.1)

  -- `b` is the 256 random bytes, `pad` the bytes of `addSHA1AndPad16`. It ends with the
  -- authorization key and `gb`.
  unfoldable pub send_set_client_dh_params :
      (List ℕ → Result Cipher)
      → Result (List ℕ)
      → (ℕ → Result (List ℕ))
      → ℤ
      → AuthKeyResult
      → ServerDhInnerData
      → Conn
      → Result (List ℕ × List ℕ)
  send_set_client_dh_params new_cipher random_b pad msg_id result server_dh c =
      and_then random_b (λ b.
        let gb = client_gb server_dh b in
        let auth_key = client_auth_key server_dh b in
        let keys = temp_aes_keys sha1 result.new_nonce result.server_nonce in
        and_then (add_sha1_and_pad16 sha1 pad (client_inner result gb)) (λ data_with_hash.
          and_then (aes_ige_encrypt new_cipher data_with_hash keys.0 keys.1) (λ encrypted.
            and_then (send_unencrypted msg_id (set_client_dh_params result encrypted) c) (λ reply.
              and_then (parse_dh_gen_answer reply.0 result auth_key) (λ _. ok (auth_key, gb))))))
