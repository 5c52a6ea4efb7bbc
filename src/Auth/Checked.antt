-- ===== src/Auth/Checked.antt =====
-- mtproto/auth.go: what holds of a result that `authKeyOnConn` returns.
use mt_pro_go.Prelude.{
  ℕ, [], msg, ◌-◌, ◌^◌, ◌<◌, ◌≤◌, ◌≡◌, ◌||◌, refl, ap, ◌∙◌, arith, Bool, true, false, List,
  if◌then◌else◌, ltb, leb, ◌==◌, Result, ok, err, Error, and_then-eq-ok, Bool-cases, inl, inr,
  ltb→le, ==_iff,
}
use mathlib.Core.Path.{subst}
use mt_pro_go.Prelude.Int.{ℤ, pos, ltb_ℤ, ◌≤ℤ◌, ◌-ℤ◌}
use mt_pro_go.Tl.Writer.{put_int, put_raw}
use mt_pro_go.Prelude.Text.{str_eq}
use mt_pro_go.Tl.Constructors.{
  constructor_req_pq_multi, constructor_dh_gen_ok, constructor_dh_gen_retry,
  constructor_dh_gen_fail,
}
use mt_pro_go.Tl.Reader.{value, new_reader}
use mt_pro_go.Crypto.Bytes.{equal_bytes}
use mt_pro_go.Crypto.Big.{set_bytes}
use mt_pro_go.Crypto.Ige.{aes_ige_encrypt}
use mt_pro_go.Crypto.Sha1.{
  temp_aes_keys, add_sha1_and_pad16, new_nonce_hash, auth_key_id, server_salt,
}
use mt_pro_go.Auth.{
  AuthKeyResult, ServerDhInnerData, Conn, start, send_unencrypted, validate_dh_params,
}
use mt_pro_go.Auth.ResPq.{ResPq, parse_res_pq, find_rsa_public_key, next_message_id}
use mt_pro_go.Auth.RsaPad.{rsa_pad}
use mt_pro_go.Auth.ServerDh.{
  pq_inner_data, req_dh_params, encrypted_answer, inner_data, decrypted_answer,
  parse_server_dh_params,
}
use mt_pro_go.Auth.ClientDh.{
  client_gb, client_inner, set_client_dh_params, client_auth_key, dh_gen_case, dh_gen_answer,
  parse_dh_gen_answer, send_set_client_dh_params,
}
use mt_pro_go.Auth.OnConn.{
  Env, send_req_pq, send_req_dh_params, with_res_pq, finish, with_key, auth_key_on_conn,
  with_server_dh, with_auth_key,
}

-- The bounds that the parameters of the server have to meet.
pub record IsValidDh (g : ℤ) (dh_prime ga : List ℕ) : Type 0 where
  pub generator_from : pos 2 ≤ℤ g
  pub generator_to : g ≤ℤ pos 7
  pub prime_size : 2 ^ 2039 ≤ set_bytes dh_prime
  pub ga_from : 1 < set_bytes ga
  pub ga_to : set_bytes ga < set_bytes dh_prime - 1

-- The parameters of the server in a result.
abbrev pub server_dh_of : AuthKeyResult → ServerDhInnerData
server_dh_of r = record { g = r.g; dh_prime = r.dh_prime; ga = r.ga; server_time = r.server_time }

-- The first two of the answers that a connection `c` gives to the requests with the nonces of the
-- result, after which it is `c'`: the first has these nonces, the second the parameters.
pub record IsOpened (env : Env) (c c' : Conn) (r : AuthKeyResult) : Type 0 where
  pub nonce : env.random_nonce ≡ ok r.nonce
  pub new_nonce : env.random_new_nonce ≡ ok r.new_nonce
  pub reply_1 : List ℕ
  pub c₁ : Conn
  pub first :
      send_unencrypted
        (next_message_id env.now_1)
        (put_raw r.nonce (put_int constructor_req_pq_multi []))
        c
      ≡ ok (reply_1, c₁)
  pub res_pq : ResPq
  pub parsed_1 : parse_res_pq env.factor_pq reply_1 ≡ ok res_pq
  pub same_nonce : str_eq res_pq.nonce r.nonce ≡ true
  pub server_nonce : r.server_nonce ≡ res_pq.server_nonce
  pub encrypted : List ℕ
  pub reply_2 : List ℕ
  pub second :
      send_unencrypted (next_message_id env.now_2) (req_dh_params r r.rsa_fingerprint encrypted) c₁
      ≡ ok (reply_2, c')
  pub parsed_2 : parse_server_dh_params env.sha1 env.new_cipher reply_2 r ≡ ok (server_dh_of r)
  pub offset : r.time_offset ≡ r.server_time -ℤ pos env.now_unix

-- The key belongs to valid parameters and to random bytes `b` that were drawn; the connection `c`
-- has answered the last request with both nonces and the hash of the new nonce and of this key.
pub record IsConfirmed (env : Env) (c : Conn) (r : AuthKeyResult) : Type 0 where
  pub valid : IsValidDh r.g r.dh_prime r.ga
  pub b : List ℕ
  pub drawn : env.random_b ≡ ok b
  pub key : r.auth_key ≡ client_auth_key (server_dh_of r) b
  pub public : r.gb ≡ client_gb (server_dh_of r) b
  pub encrypted : List ℕ
  pub reply : List ℕ × Conn
  pub third :
      send_unencrypted (next_message_id env.now_3) (set_client_dh_params r encrypted) c ≡ ok reply
  pub hash : List ℕ
  pub read : value (dh_gen_answer r (new_reader reply.0)) ≡ ok (constructor_dh_gen_ok, hash)
  pub confirmed : equal_bytes hash (new_nonce_hash env.sha1 r.new_nonce 1 r.auth_key) ≡ true
  pub id : r.auth_key_id ≡ auth_key_id env.sha1 r.auth_key
  pub salt : r.server_salt ≡ server_salt r.new_nonce r.server_nonce

-- The three answers of a connection.
pub record IsAgreed (env : Env) (c : Conn) (r : AuthKeyResult) : Type 0 where
  pub c' : Conn
  pub opened : IsOpened env c c' r
  pub confirmed : IsConfirmed env c' r

ok_injective : {A : Type 0} {a b : A} → ok a ≡ ok b → a ≡ b
ok_injective e = cc

-- A test that ends in an error, passed.
guard-eq-ok :
    {A : Type 0} (test : Bool) (e : Error) {rest : Result A} {a : A}
    → (if test then err e else rest) ≡ ok a
    → (test ≡ false) × (rest ≡ ok a)
guard-eq-ok true e h = cc
guard-eq-ok false e h = (refl, h)

validate_dh_params-IsValidDh :
    (g : ℤ) (dh_prime ga : List ℕ)
    → validate_dh_params g dh_prime ga ≡ ok tt
    → IsValidDh g dh_prime ga
unfolding validate_dh_params
validate_dh_params-IsValidDh g dh_prime ga h =
    let (generator, h₁) = guard-eq-ok (ltb_ℤ g (pos 2) || ltb_ℤ (pos 7) g) _ h in
    let (_, h₂) = guard-eq-ok (set_bytes dh_prime == 0 || set_bytes ga == 0) _ h₁ in
    let (range, h₃) =
      guard-eq-ok (leb (set_bytes ga) 1 || leb (set_bytes dh_prime - 1) (set_bytes ga)) _ h₂ in
    let (size, _) = guard-eq-ok (ltb (set_bytes dh_prime) (2 ^ 2039)) _ h₃ in
    record {
      generator_from = ground (arith, generator);
      generator_to = ground (arith, generator);
      prime_size = ltb→le _ _ size;
      ga_from = ground (arith, range);
      ga_to = ground (arith, range);
    }

dh_gen_case-eq-ok :
    (sha1 : List ℕ → List ℕ) (r : AuthKeyResult) (auth_key : List ℕ) (constructor : ℕ)
    (hash : List ℕ)
    → dh_gen_case sha1 r auth_key constructor hash ≡ ok tt
    → (constructor ≡ constructor_dh_gen_ok)
      × (equal_bytes hash (new_nonce_hash sha1 r.new_nonce 1 auth_key) ≡ true)
unfolding dh_gen_case
dh_gen_case-eq-ok sha1 r auth_key constructor hash h =
    elim (Bool-cases (constructor == constructor_dh_gen_ok)) [
      | inl good ↦
          let this : constructor ≡ constructor_dh_gen_ok =
            (==_iff constructor constructor_dh_gen_ok).0 good in
          let test = equal_bytes hash (new_nonce_hash sha1 r.new_nonce 1 auth_key) in
          (
            this,
            elim (Bool-cases test) [
              | inl same ↦ same
              | inr other ↦ absurd (let h' = rw (good, other) at h in cc)
            ],
          )
      | inr other ↦ absurd (
          let h' = rw other at h in
          let (_, h₁) = guard-eq-ok (constructor == constructor_dh_gen_retry) _ h' in
          let (_, h₂) = guard-eq-ok (constructor == constructor_dh_gen_fail) _ h₁ in cc)
    ]

finish-IsConfirmed :
    (env : Env) (result : AuthKeyResult) (server_dh : ServerDhInnerData) (c : Conn)
    (r : AuthKeyResult)
    → finish env result server_dh c ≡ ok r
    → (keys : List ℕ × List ℕ) × (with_auth_key env (with_server_dh env result server_dh) keys ≡ r)
      × IsConfirmed env c r
unfolding finish send_set_client_dh_params parse_dh_gen_answer
finish-IsConfirmed env result server_dh c r h =
    let result' = with_server_dh env result server_dh in
    let msg_id = next_message_id env.now_3 in
    let secret = temp_aes_keys env.sha1 result.new_nonce result.server_nonce in
    let (_, valid, h₁) =
      and_then-eq-ok (validate_dh_params server_dh.g server_dh.dh_prime server_dh.ga) _ h in
    let (keys, sent, h₂) =
      and_then-eq-ok
        (send_set_client_dh_params env.sha1 env.new_cipher env.random_b env.random_pad msg_id
          result' server_dh c)
        _ h₁ in
    let (b, drawn, s₁) = and_then-eq-ok env.random_b _ sent in
    let inner = client_inner result' (client_gb server_dh b) in
    let (padded, _, s₂) = and_then-eq-ok (add_sha1_and_pad16 env.sha1 env.random_pad inner) _ s₁ in
    let (encrypted, _, s₃) =
      and_then-eq-ok (aes_ige_encrypt env.new_cipher padded secret.0 secret.1) _ s₂ in
    let (reply, third, s₄) =
      and_then-eq-ok (send_unencrypted msg_id (set_client_dh_params result' encrypted) c) _ s₃ in
    let (_, parsed, s₅) =
      and_then-eq-ok (parse_dh_gen_answer env.sha1 reply.0 result' (client_auth_key server_dh b)) _
        s₄ in
    let (a, read, good) =
      and_then-eq-ok (value (dh_gen_answer result' (new_reader reply.0))) _ parsed in
    let (right, confirmed) = dh_gen_case-eq-ok env.sha1 result' _ a.0 a.1 good in
    let whole = ap (with_auth_key env result') (ok_injective s₅) ∙ ok_injective h₂ in
    (
      keys,
      ok_injective h₂,
      subst (IsConfirmed env c) whole (record {
        valid = validate_dh_params-IsValidDh server_dh.g server_dh.dh_prime server_dh.ga valid;
        b = b;
        drawn = drawn;
        key = refl;
        public = refl;
        encrypted = encrypted;
        reply = reply;
        third = unfold set_client_dh_params in third;
        hash = a.1;
        read = unfold dh_gen_answer in read ∙ ap (λ k. ok (k, a.1)) right;
        confirmed = confirmed;
        id = refl;
        salt = refl;
      }),
    )

-- The parameters are read with the nonces alone.
parse_server_dh_params-later :
    (env : Env) (reply : List ℕ) (result : AuthKeyResult) (server_dh : ServerDhInnerData)
    (keys : List ℕ × List ℕ)
    → parse_server_dh_params env.sha1 env.new_cipher reply
        (with_auth_key env (with_server_dh env result server_dh) keys)
      ≡ parse_server_dh_params env.sha1 env.new_cipher reply result
unfolding parse_server_dh_params encrypted_answer decrypted_answer inner_data
parse_server_dh_params-later env reply result server_dh keys = refl

-- What is known of the exchange when `resPQ` has been read.
module _ (env : Env) (dc_id : ℤ) (c c₁ : Conn) (nonce new_nonce reply_1 : List ℕ) (res_pq : ResPq)
    (drawn : env.random_nonce ≡ ok nonce) (drawn_new : env.random_new_nonce ≡ ok new_nonce)
    (first : send_unencrypted
        (next_message_id env.now_1)
        (put_raw nonce (put_int constructor_req_pq_multi []))
        c
      ≡ ok (reply_1, c₁))
    (parsed : parse_res_pq env.factor_pq reply_1 ≡ ok res_pq)
    (same : str_eq res_pq.nonce nonce ≡ true) where
  with_key-IsAgreed :
      (r : AuthKeyResult)
      → with_key env dc_id (start nonce new_nonce) res_pq c₁ ≡ ok r
      → IsAgreed env c r
  unfolding with_key send_req_dh_params
  with_key-IsAgreed r h =
      let (keys, _, h₁) = and_then-eq-ok env.production_keys _ h in
      let (key, _, h₂) = and_then-eq-ok (find_rsa_public_key keys res_pq.rsa_fingerprints) _ h₁ in
      let result' = record (with_res_pq (start nonce new_nonce) res_pq) {
        rsa_fingerprint = key.fingerprint;
      } in
      let (dh, sent, h₃) = and_then-eq-ok (send_req_dh_params env dc_id result' key c₁) _ h₂ in
      let (encrypted, _, s₁) =
        and_then-eq-ok
          (rsa_pad env.sha256 env.new_cipher env.rsa_rng (pq_inner_data dc_id result') key) _
          sent in
      let (reply, second, s₂) =
        and_then-eq-ok
          (send_unencrypted (next_message_id env.now_2)
            (req_dh_params result' key.fingerprint encrypted) c₁)
          _ s₁ in
      let (server_dh, parsed_2, s₃) =
        and_then-eq-ok (parse_server_dh_params env.sha1 env.new_cipher reply.0 result') _ s₂ in
      let both = ok_injective s₃ in
      let done : finish env result' server_dh reply.1 ≡ ok r =
        ap (λ q. finish env result' q.0 q.1) both ∙ h₃ in
      let (made, whole, confirmed) = finish-IsConfirmed env result' server_dh reply.1 r done in
      record {
        c' = reply.1;
        opened = subst (IsOpened env c reply.1) whole (record {
          nonce = drawn;
          new_nonce = drawn_new;
          reply_1 = reply_1;
          c₁ = c₁;
          first = first;
          res_pq = res_pq;
          parsed_1 = parsed;
          same_nonce = same;
          server_nonce = refl;
          encrypted = encrypted;
          reply_2 = reply.0;
          second = unfold req_dh_params in second;
          parsed_2 = parse_server_dh_params-later env reply.0 result' server_dh made ∙ parsed_2;
          offset = refl;
        });
        confirmed = confirmed;
      }

-- Whenever the exchange returns a result, whatever the server sends, it has made its three requests
-- on the connection: with the nonces that were drawn, of which the first stands in the first
-- answer; the second answer has the parameters of the result, which are in their bounds; the key
-- and `g_b` are those of these parameters and of the random bytes that were drawn; and the third
-- answer has both nonces and the hash of the new nonce and this key.
pub auth_key_on_conn-IsAgreed :
    (env : Env) (dc_id : ℤ) (c : Conn) (r : AuthKeyResult)
    → auth_key_on_conn env dc_id c ≡ ok r
    → IsAgreed env c r
unfolding auth_key_on_conn send_req_pq
auth_key_on_conn-IsAgreed env dc_id c r h =
    let (nonce, drawn, h₁) = and_then-eq-ok env.random_nonce _ h in
    let (new_nonce, drawn_new, h₂) = and_then-eq-ok env.random_new_nonce _ h₁ in
    let (asked, sent, h₃) = and_then-eq-ok (send_req_pq env nonce c) _ h₂ in
    let (reply, first, s₁) =
      and_then-eq-ok
        (send_unencrypted (next_message_id env.now_1)
          (put_raw nonce (put_int constructor_req_pq_multi [])) c)
        _ sent in
    let (res_pq, parsed, s₂) = and_then-eq-ok (parse_res_pq env.factor_pq reply.0) _ s₁ in
    let both = ok_injective s₂ in
    let rest : (if str_eq res_pq.nonce nonce
          then with_key env dc_id (start nonce new_nonce) res_pq reply.1
          else err (msg "mtproto: nonce mismatch in resPQ"))
        ≡ ok r =
      ap
        (λ (q : ResPq × Conn).
          if str_eq q.0.nonce nonce
          then with_key env dc_id (start nonce new_nonce) q.0 q.1
          else err (msg "mtproto: nonce mismatch in resPQ"))
        both
      ∙ h₃ in
    elim (Bool-cases (str_eq res_pq.nonce nonce)) [
      | inl same ↦
          with_key-IsAgreed env dc_id c reply.1 nonce new_nonce reply.0 res_pq drawn drawn_new first
            parsed same r (rw same at rest)
      | inr other ↦ absurd (let h' = rw other at rest in cc)
    ]
