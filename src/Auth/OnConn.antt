-- ===== src/Auth/OnConn.antt =====
-- mtproto/auth.go, `authKeyOnConn`: the three requests of the exchange, in their order.
use mt_pro_go.Prelude.{ℕ, List, [], if◌then◌else◌, Result, ok, err, msg, ◌>>=◌}
use mt_pro_go.Prelude.Int.{ℤ, pos, ◌-ℤ◌}
use mt_pro_go.Prelude.Text.{str_eq}
use mt_pro_go.Tl.Constructors.{constructor_req_pq_multi}
use mt_pro_go.Tl.Writer.{put_int, put_raw}
use mt_pro_go.Crypto.Ige.{Cipher}
use mt_pro_go.Crypto.Sha1
use mt_pro_go.Auth.{
  AuthKeyResult, ServerDhInnerData, Conn, start, send_unencrypted, validate_dh_params,
}
use mt_pro_go.Auth.ResPq.{ResPq, RsaPublicKey, parse_res_pq, find_rsa_public_key, next_message_id}
use mt_pro_go.Auth.RsaPad.{Drawn, rsa_pad}
use mt_pro_go.Auth.ServerDh.{pq_inner_data, req_dh_params, parse_server_dh_params}
use mt_pro_go.Auth.ClientDh.{send_set_client_dh_params}

-- What an exchange takes from elsewhere: the libraries, the random bytes, the clock at each of the
-- three messages, and `time.Now().Unix()` between the second and the third.
pub record Env : Type 0 where
  pub sha1 : List ℕ → List ℕ
  pub sha256 : List ℕ → List ℕ
  pub new_cipher : List ℕ → Result Cipher
  pub factor_pq : List ℕ → List ℕ × List ℕ
  pub production_keys : Result (List RsaPublicKey)
  pub random_nonce : Result (List ℕ)
  pub random_new_nonce : Result (List ℕ)
  pub random_b : Result (List ℕ)
  pub random_pad : ℕ → Result (List ℕ)
  pub rsa_rng : ℕ → Drawn
  pub now_1 : ℕ
  pub now_2 : ℕ
  pub now_3 : ℕ
  pub now_unix : ℕ

unfoldable pub send_req_pq : Env → List ℕ → Conn → Result (ResPq × Conn)
send_req_pq env nonce c =
    send_unencrypted (next_message_id env.now_1)
      (put_raw nonce (put_int constructor_req_pq_multi [])) c
    >>= λ reply. parse_res_pq env.factor_pq reply.0 >>= λ res_pq. ok (res_pq, reply.1)

unfoldable pub send_req_dh_params :
    Env → ℤ → AuthKeyResult → RsaPublicKey → Conn → Result (ServerDhInnerData × Conn)
send_req_dh_params env dc_id result key c =
    rsa_pad env.sha256 env.new_cipher env.rsa_rng (pq_inner_data dc_id result) key
    >>= λ encrypted_data.
        send_unencrypted (next_message_id env.now_2)
          (req_dh_params result key.fingerprint encrypted_data) c
        >>= λ reply. parse_server_dh_params env.sha1 env.new_cipher reply.0 result >>= λ server_dh.
            ok (server_dh, reply.1)

-- The result after `resPQ` and after the parameters of the server.
abbrev pub with_res_pq : AuthKeyResult → ResPq → AuthKeyResult
with_res_pq result res_pq = record result {
  server_nonce = res_pq.server_nonce;
  pq = res_pq.pq;
  p = res_pq.p;
  q = res_pq.q;
}

abbrev pub with_server_dh : Env → AuthKeyResult → ServerDhInnerData → AuthKeyResult
with_server_dh env result server_dh = record result {
  g = server_dh.g;
  dh_prime = server_dh.dh_prime;
  ga = server_dh.ga;
  server_time = server_dh.server_time;
  time_offset = server_dh.server_time -ℤ pos env.now_unix;
}

-- The last fields, for an authorization key and `gb`.
abbrev pub with_auth_key : Env → AuthKeyResult → List ℕ × List ℕ → AuthKeyResult
with_auth_key env result keys = record result {
  auth_key = keys.0;
  gb = keys.1;
  auth_key_id = Sha1.auth_key_id env.sha1 keys.0;
  server_salt = Sha1.server_salt result.new_nonce result.server_nonce;
}

-- The part behind the server's parameters.
unfoldable pub finish : Env → AuthKeyResult → ServerDhInnerData → Conn → Result AuthKeyResult
finish env result server_dh c =
    validate_dh_params server_dh.g server_dh.dh_prime server_dh.ga >>= λ _.
    send_set_client_dh_params env.sha1 env.new_cipher env.random_b env.random_pad
      (next_message_id env.now_3) (with_server_dh env result server_dh) server_dh c
    >>= λ keys. ok (with_auth_key env (with_server_dh env result server_dh) keys)

-- The part behind `resPQ`.
unfoldable pub with_key : Env → ℤ → AuthKeyResult → ResPq → Conn → Result AuthKeyResult
with_key env dc_id result res_pq c = env.production_keys >>= λ keys.
    find_rsa_public_key keys res_pq.rsa_fingerprints >>= λ key.
    let result' = record (with_res_pq result res_pq) { rsa_fingerprint = key.fingerprint } in
    send_req_dh_params env dc_id result' key c >>= λ reply. finish env result' reply.0 reply.1

unfoldable pub auth_key_on_conn : Env → ℤ → Conn → Result AuthKeyResult
auth_key_on_conn env dc_id c = env.random_nonce >>= λ nonce. env.random_new_nonce >>= λ new_nonce.
    send_req_pq env nonce c >>= λ reply.
    if str_eq reply.0.nonce nonce
    then with_key env dc_id (start nonce new_nonce) reply.0 reply.1
    else err (msg "mtproto: nonce mismatch in resPQ")
