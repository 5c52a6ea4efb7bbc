-- ===== src/Auth/ServerDh.antt =====
-- mtproto/auth.go, `sendReqDHParams` and `parseServerDHParams`.
use mt_pro_go.Prelude.{ℕ, List, if◌then◌else◌, ◌==◌, [], Result, msg, msg_num, and_then}
use mt_pro_go.Prelude.Int.{ℤ}
use mt_pro_go.Prelude.Word.{to_int32, of_int32}
use mt_pro_go.Tl.Constructors.{
  constructor_server_dh_params_bad, constructor_server_dh_params_ok,
  constructor_server_dh_inner_data, constructor_pq_inner_data_dc, constructor_req_dh_params,
}
use mt_pro_go.Tl.Reader.{Parse, ◌>>=◌, pure, fail, value, new_reader, int, bytes}
use mt_pro_go.Tl.Writer.{put_int, put_long, put_raw, put_bytes}
use mt_pro_go.Crypto.Ige.{Cipher, aes_ige_decrypt}
use mt_pro_go.Crypto.Sha1.{temp_aes_keys, strip_sha1_and_padding}
use mt_pro_go.Auth.{AuthKeyResult, ServerDhInnerData, expect_raw}

unfoldable pub pq_inner_data : ℤ → AuthKeyResult → List ℕ
pq_inner_data dc_id result = put_int (of_int32 dc_id) (
    put_raw result.new_nonce (
      put_raw result.server_nonce (
        put_raw result.nonce (
          put_bytes result.q
            (put_bytes result.p (put_bytes result.pq (put_int constructor_pq_inner_data_dc [])))))))

unfoldable pub req_dh_params : AuthKeyResult → ℕ → List ℕ → List ℕ
req_dh_params result fingerprint encrypted_data = put_bytes encrypted_data (
    put_long fingerprint (
      put_bytes result.q (
        put_bytes result.p (
          put_raw result.server_nonce
            (put_raw result.nonce (put_int constructor_req_dh_params []))))))

unfoldable pub check_dh_params : ℕ → Parse (Unit {0})
check_dh_params constructor =
    if constructor == constructor_server_dh_params_bad
    then fail (msg "mtproto: server_DH_params_fail")
    else if constructor == constructor_server_dh_params_ok
    then pure tt
    else fail (msg_num "mtproto: expected server_DH_params_ok, got 0x%08x" constructor)

-- The encrypted answer, once both nonces are those of the exchange.
unfoldable pub encrypted_answer : AuthKeyResult → Parse (List ℕ)
encrypted_answer result = do
  constructor ← int
  _ ← check_dh_params constructor
  _ ← expect_raw result.nonce "mtproto: nonce mismatch in server_DH_params_ok"
  _ ← expect_raw result.server_nonce "mtproto: server_nonce mismatch in server_DH_params_ok"
  bytes

unfoldable pub check_inner_data : ℕ → Parse (Unit {0})
check_inner_data constructor =
    if constructor == constructor_server_dh_inner_data
    then pure tt
    else fail (msg_num "mtproto: expected server_DH_inner_data, got 0x%08x" constructor)

unfoldable pub inner_data : AuthKeyResult → Parse ServerDhInnerData
inner_data result = do
  constructor ← int
  _ ← check_inner_data constructor
  _ ← expect_raw result.nonce "mtproto: nonce mismatch in server_DH_inner_data"
  _ ← expect_raw result.server_nonce "mtproto: server_nonce mismatch in server_DH_inner_data"
  g ← int
  dh_prime ← bytes
  ga ← bytes
  server_time ← int
  pure (record { g = to_int32 g; dh_prime = dh_prime; ga = ga; server_time = to_int32 server_time })

module _ (sha1 : List ℕ → List ℕ) (new_cipher : List ℕ → Result Cipher) where
  -- What is behind the encryption: the answer with its hash checked and taken off.
  unfoldable pub decrypted_answer : AuthKeyResult → List ℕ → Result (List ℕ)
  decrypted_answer result encrypted =
      let keys = temp_aes_keys sha1 result.new_nonce result.server_nonce in
      and_then (aes_ige_decrypt new_cipher encrypted keys.0 keys.1) (strip_sha1_and_padding sha1)

  unfoldable pub parse_server_dh_params : List ℕ → AuthKeyResult → Result ServerDhInnerData
  parse_server_dh_params body result =
      and_then (value (encrypted_answer result (new_reader body))) (λ encrypted.
        and_then (decrypted_answer result encrypted)
          (λ answer. value (inner_data result (new_reader answer))))
