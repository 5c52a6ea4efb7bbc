-- ===== src/Tests/Auth.antt =====
-- The key exchange and the login with a password at concrete inputs.
use mt_pro_go.Prelude.{
  ℕ, suc, zero, ◌^◌, ◌<◌, ◌≡◌, refl, arith, Bool, true, false, List, [], ◌∷◌, ◌++◌, All, some,
  length, replicate, ltb, ◌&&◌, ◌⊎◌, inr, Result, ok, err,
}
use mt_pro_go.Prelude.Int.{pos}
use mt_pro_go.Prelude.Text.{str_eq}
use mt_pro_go.Prelude.Word.{IsByte, le_bytes, le_value}
use mt_pro_go.Tests.Session.{plain_cipher, plain_cipher-IsBlockCipher, zeros-IsByte}
use mt_pro_go.Crypto.Big.{set_bytes, set_bytes_from, big_bytes, bytes_from, pad_big_int_bytes}
use mt_pro_go.Auth.{
  AuthKeyResult, ServerDhInnerData, Conn, closed, conn, start, send_unencrypted, expect_raw,
  validate_dh_params,
}
use mt_pro_go.Tl.Constructors.{constructor_dh_gen_ok}
use mt_pro_go.Tl.Reader.{parsing}
use mt_pro_go.Tl.Writer.{
  bytes_encoding, padding, put_int, put_long, put_raw, put_padding, put_bytes,
}
use mt_pro_go.Unencrypted.{
  build_unencrypted_message, pad_words, check_key_id, unencrypted_body, parse_unencrypted_message,
}
use mt_pro_go.Crypto.Bytes.{
  xor_bytes, xor_bits, or_bits, equal_bytes, difference_bits, reverse_bytes,
}
use mt_pro_go.Crypto.Ige.{Cipher, aes_ige_encrypt, ige_encrypt, aes_ige_decrypt, ige_decrypt}
use mt_pro_go.Crypto.Sha1.{
  IsSha1, temp_aes_keys, strip_from, strip_sha1_and_padding, add_sha1_and_pad16,
}
use mt_pro_go.Auth.ResPq.{
  RsaPublicKey, res_pq_bytes, next_message_id, expect_constructor, expect_vector, fingerprints,
  res_pq, parse_res_pq, key_for, find_rsa_public_key,
}
use mt_pro_go.Auth.RsaPad.{key_aes_encrypted, encrypt_below, rsa_pad_from, rsa_pad}
use mt_pro_go.Auth.ServerDh.{
  parse_server_dh_params, pq_inner_data, req_dh_params, check_dh_params, encrypted_answer,
  check_inner_data, inner_data, decrypted_answer,
}
use mt_pro_go.Auth.OnConn.{Env, send_req_pq, send_req_dh_params, finish, with_key, auth_key_on_conn}
use mt_pro_go.Auth.Checked.{IsAgreed, auth_key_on_conn-IsAgreed}
use mt_pro_go.Auth.ServerAnswer.{
  inner_bytes, answer_bytes, HasNonces, parse_server_dh_params-answer,
}
use mt_pro_go.Auth.ClientDh.{
  client_gb, client_auth_key, client_inner, set_client_dh_params, dh_gen_answer, dh_gen_case,
  parse_dh_gen_answer, send_set_client_dh_params,
}
use mt_pro_go.Auth.Factor.{
  gcd_from, gcd, rho_step, distance, walk, walks, pollard_rho, sorted_bytes, factors_of,
  factors_found, factor_pq,
}
use mt_pro_go.Auth.FactorPq.{GivesUp, AreFactors, factor_pq_ends}
use mt_pro_go.Auth.Agreement.{server_side, server_auth_key, client_auth_key_agrees}
use mt_pro_go.Password.{AccountPassword}
use mt_pro_go.Password.Random.{
  random_big_int_less_than, random_big_int_less_than_ends, Draws, IsOutOfRange,
}
use mt_pro_go.Password.Proof.{proof_for, srp_k, srp_u}
use mt_pro_go.Password.Agreement.{server_proof, proof_for_agrees}

-- The generator 5 modulo 23, with the secret exponents 6 and 15.
client_auth_key_agrees_example :
    (client_auth_key (server_side 5 6 (23 ∷ []) (pos 0)) (15 ∷ [])
      ≡ server_auth_key 6 (23 ∷ []) (client_gb (server_side 5 6 (23 ∷ []) (pos 0)) (15 ∷ [])))
    × (length (client_auth_key (server_side 5 6 (23 ∷ []) (pos 0)) (15 ∷ [])) ≡ 1)
client_auth_key_agrees_example =
    client_auth_key_agrees 5 6 (23 ∷ []) (15 ∷ []) (pos 0) (omega arith, tt) positive
  where
    positive : 0 < set_bytes (23 ∷ [])
    positive = unfold set_bytes set_bytes_from in omega arith

-- The first draw is 200, the others are 7.
abbrev draws : Draws
draws zero n = ok (200 ∷ [])
draws (suc i) n = ok (7 ∷ [])

first_too_large : (j : ℕ) → j < 1 → IsOutOfRange 100 (draws j (length (big_bytes 100)))
first_too_large zero h =
    unfold set_bytes set_bytes_from in
    record { bytes = 200 ∷ []; read = refl; outside = inr (omega arith) }
first_too_large (suc j) h = absurd (omega arith)

random_big_int_less_than_ends_example :
    random_big_int_less_than 4 draws 100 ≡ some (ok (set_bytes (7 ∷ [])))
unfolding set_bytes set_bytes_from
random_big_int_less_than_ends_example =
    random_big_int_less_than_ends draws 100 1 4 (7 ∷ []) first_too_large refl (omega arith)
      (omega arith) (omega arith)

-- No number is taken for a prime.
abbrev no_primes : ℕ → Bool
no_primes n = false

factor_pq_15 : factor_pq no_primes 15 (15 ∷ []) ≡ some (3 ∷ [], 5 ∷ [])
unfolding factor_pq factors_found factors_of sorted_bytes pollard_rho walks walk rho_step distance
    gcd gcd_from set_bytes set_bytes_from big_bytes bytes_from
factor_pq_15 = refl

factor_pq_ends_example :
    (p : List ℕ) × (q : List ℕ) × (factor_pq no_primes 15 (15 ∷ []) ≡ some (p, q))
    × (((p ≡ []) × (q ≡ []) × GivesUp no_primes 15 (set_bytes (15 ∷ [])))
        ⊎ AreFactors (set_bytes (15 ∷ [])) p q)
unfolding set_bytes set_bytes_from
factor_pq_ends_example = factor_pq_ends no_primes 15 (15 ∷ []) (omega arith) (omega arith)

abbrev hash_7 : List ℕ → List ℕ
hash_7 b = 7 ∷ []

abbrev password_params : AccountPassword
password_params = record {
  flags = 4;
  has_recovery = false;
  has_password = true;
  hint = [];
  srp_id = pos 1;
  srp_b = 3 ∷ [];
  current_algo = record { constructor' = 0; salt1 = []; salt2 = []; g = pos 5; p = 23 ∷ [] };
}

-- The verifier of x = 3 is 10; with k = 7 and b = 2 the server sends 7 * 10 + 2 modulo 23, which is 3.
proof_for_agrees_example :
    proof_for hash_7 password_params 3 4 ≡ ok (server_proof hash_7 password_params 3 4 2)
unfolding set_bytes set_bytes_from srp_k srp_u
proof_for_agrees_example =
    proof_for_agrees hash_7 password_params 3 4 2 (omega arith) refl (omega arith) (omega arith)
      (omega arith)

-- Lists of bytes, by a test.
unfoldable pub is_bytes : List ℕ → Bool
is_bytes [] = true
is_bytes (b ∷ bs) = ltb b 256 && is_bytes bs

pub is_bytes-All : (bs : List ℕ) → is_bytes bs ≡ true → All IsByte bs
unfolding is_bytes
is_bytes-All [] h = tt
is_bytes-All (b ∷ bs) h = (ground arith, is_bytes-All bs (ground arith))

unwrap : Result (List ℕ) → List ℕ
unwrap (ok b) = b
unwrap (err e) = []

abbrev hash_20 : List ℕ → List ℕ
hash_20 b = replicate 20 0

hash_20-IsSha1 : IsSha1 hash_20
hash_20-IsSha1 = record { size = λ b. refl; in_bytes = λ b. zeros-IsByte 20 }

abbrev new_cipher : List ℕ → Result Cipher
new_cipher key = ok plain_cipher

-- An exchange whose server nonce is known.
abbrev exchange : AuthKeyResult
exchange = record (start (replicate 16 1) (replicate 32 3)) { server_nonce = replicate 16 2 }

abbrev small_dh : ServerDhInnerData
small_dh = record { g = pos 3; dh_prime = 23 ∷ []; ga = 9 ∷ []; server_time = pos 5 }

-- The encrypted data of a server, with eight bytes of padding.
abbrev encrypted_of : ServerDhInnerData → Result (List ℕ)
encrypted_of d =
    aes_ige_encrypt new_cipher (hash_20 [] ++ (inner_bytes exchange d ++ replicate 8 0))
      (temp_aes_keys hash_20 exchange.new_nonce exchange.server_nonce).0
      (temp_aes_keys hash_20 exchange.new_nonce exchange.server_nonce).1

exchange-HasNonces : HasNonces exchange
exchange-HasNonces =
    unfold is_bytes in
    record {
      nonce_size = refl;
      nonce_bytes = is_bytes-All (replicate 16 1) refl;
      server_nonce_size = refl;
      server_nonce_bytes = is_bytes-All (replicate 16 2) refl;
    }

parse_server_dh_params-answer_example :
    parse_server_dh_params hash_20 new_cipher
      (answer_bytes exchange (unwrap (encrypted_of small_dh)) ++ [])
      exchange
    ≡ ok small_dh
unfolding is_bytes unwrap le_bytes bytes_encoding padding aes_ige_encrypt ige_encrypt xor_bytes
    xor_bits
parse_server_dh_params-answer_example =
    parse_server_dh_params-answer hash_20 new_cipher plain_cipher exchange small_dh (replicate 8 0)
      (unwrap (encrypted_of small_dh)) [] hash_20-IsSha1 plain_cipher-IsBlockCipher
      exchange-HasNonces (is_bytes-All (replicate 32 3) refl) (omega arith)
      (omega arith, omega arith) (omega arith, omega arith) (omega arith) (omega arith)
      (is_bytes-All (inner_bytes exchange small_dh ++ replicate 8 0) refl) (omega arith) refl refl
      refl (omega arith)

-- A modulus of 256 bytes; it need not be prime for the bounds that are tested.
abbrev large_dh : ServerDhInnerData
large_dh = record { g = pos 3; dh_prime = 128 ∷ replicate 255 0; ga = 9 ∷ []; server_time = pos 5 }

abbrev rsa_key : RsaPublicKey
rsa_key = record { fingerprint = 11; size = 256; modulus = 2 ^ 2048; exponent = 1 }

abbrev env : Env
env = record {
  sha1 = hash_20;
  sha256 = λ b. replicate 32 0;
  new_cipher = new_cipher;
  factor_pq = λ pq. (3 ∷ [], 5 ∷ []);
  production_keys = ok (rsa_key ∷ []);
  random_nonce = ok (replicate 16 1);
  random_new_nonce = ok (replicate 32 3);
  random_b = ok (2 ∷ []);
  random_pad = λ n. ok (replicate n 0);
  rsa_rng = λ i. record { padding = λ n. ok (replicate n 0); temp_key = ok (replicate 32 0) };
  now_1 = 0;
  now_2 = 0;
  now_3 = 0;
  now_unix = 1;
}

-- The last answer has the hash of zeros.
abbrev dh_gen_bytes : List ℕ
dh_gen_bytes =
    le_bytes 4 constructor_dh_gen_ok ++ (replicate 16 1 ++ (replicate 16 2 ++ replicate 16 0))

abbrev answering : List ℕ → Conn → Conn
answering body next = conn (λ _. ok (build_unencrypted_message (pos 1) body)) (λ _. next)

-- It sends the three answers of an exchange.
abbrev server : Conn
server = answering (res_pq_bytes (replicate 16 1) (replicate 16 2) (15 ∷ []) (11 ∷ [])) (
    answering (answer_bytes exchange (unwrap (encrypted_of large_dh)))
      (answering dh_gen_bytes closed))

result_of : Result AuthKeyResult → AuthKeyResult
result_of (ok r) = r
result_of (err e) = start [] []

is_ok : Result AuthKeyResult → Bool
is_ok (ok r) = true
is_ok (err e) = false

when_ok : (res : Result AuthKeyResult) → is_ok res ≡ true → res ≡ ok (result_of res)
unfolding is_ok result_of
when_ok (ok r) h = refl
when_ok (err e) h = cc

abbrev agreed : AuthKeyResult
agreed = result_of (auth_key_on_conn env (pos 2) server)

exchange_works : is_ok (auth_key_on_conn env (pos 2) server) ≡ true
unfolding is_ok unwrap le_bytes le_value bytes_encoding padding aes_ige_encrypt ige_encrypt
    aes_ige_decrypt ige_decrypt xor_bytes xor_bits or_bits equal_bytes difference_bits reverse_bytes
    set_bytes set_bytes_from big_bytes bytes_from pad_big_int_bytes strip_from
    strip_sha1_and_padding add_sha1_and_pad16 parsing build_unencrypted_message pad_words
    check_key_id unencrypted_body parse_unencrypted_message put_int put_long put_raw put_padding
    put_bytes send_unencrypted expect_raw validate_dh_params next_message_id expect_constructor
    expect_vector fingerprints res_pq parse_res_pq key_for find_rsa_public_key key_aes_encrypted
    encrypt_below rsa_pad_from rsa_pad pq_inner_data req_dh_params check_dh_params encrypted_answer
    check_inner_data inner_data decrypted_answer parse_server_dh_params client_gb client_auth_key
    client_inner set_client_dh_params dh_gen_answer dh_gen_case parse_dh_gen_answer
    send_set_client_dh_params send_req_pq send_req_dh_params finish with_key auth_key_on_conn str_eq
exchange_works = refl

auth_key_on_conn-IsAgreed_example : IsAgreed env server agreed
auth_key_on_conn-IsAgreed_example =
    auth_key_on_conn-IsAgreed env (pos 2) server agreed
      (when_ok (auth_key_on_conn env (pos 2) server) exchange_works)
