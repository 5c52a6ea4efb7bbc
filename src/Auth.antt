-- ===== src/Auth.antt =====
-- mtproto/auth.go: the exchange of an authorization key. The nonces are lists of 16 and 32 bytes.
-- The random bytes, the time, the hashes, AES, the RSA keys, the factors of `pq` and the server
-- behind the connection are parameters.
pub mod ResPq
pub mod RsaPad
pub mod ServerDh
pub mod ClientDh
pub mod OnConn
pub mod ServerAnswer
pub mod Checked
pub mod Agreement
pub mod Cycle
pub mod Factor
pub mod Factored
pub mod FactorPq
use mt_pro_go.Prelude.{
  ℕ, ◌^◌, List, [], String, ◌||◌, ◌-◌, if◌then◌else◌, ltb, leb, ◌==◌, Result, ok, err, msg, ◌>>=◌,
}
use mt_pro_go.Prelude.Int.{ℤ, pos, ltb_ℤ}
use mt_pro_go.Crypto.Bytes.{equal_bytes}
use mt_pro_go.Crypto.Big.{set_bytes}
use mt_pro_go.Tl.Reader
use mt_pro_go.Tl.Reader.{Parse}
use mt_pro_go.Unencrypted.{build_unencrypted_message, parse_unencrypted_message}

-- Without `DCID` and `Address`, which are those of the data center, and the constant `Message`.
pub record AuthKeyResult : Type 0 where
  pub nonce : List ℕ
  pub new_nonce : List ℕ
  pub server_nonce : List ℕ
  pub pq : List ℕ
  pub p : List ℕ
  pub q : List ℕ
  pub rsa_fingerprint : ℕ
  pub g : ℤ
  pub dh_prime : List ℕ
  pub ga : List ℕ
  pub gb : List ℕ
  pub server_time : ℤ
  pub time_offset : ℤ
  pub auth_key : List ℕ
  pub auth_key_id : ℕ
  pub server_salt : ℤ

-- `&AuthKeyResult{...}` with its two nonces drawn.
abbrev pub start : List ℕ → List ℕ → AuthKeyResult
start nonce new_nonce = record {
  nonce = nonce;
  new_nonce = new_nonce;
  server_nonce = [];
  pq = [];
  p = [];
  q = [];
  rsa_fingerprint = 0;
  g = pos 0;
  dh_prime = [];
  ga = [];
  gb = [];
  server_time = pos 0;
  time_offset = pos 0;
  auth_key = [];
  auth_key_id = 0;
  server_salt = pos 0;
}

-- `serverDHInnerData`, without the nonces, which are those of the result.
pub record ServerDhInnerData : Type 0 where
  pub g : ℤ
  pub dh_prime : List ℕ
  pub ga : List ℕ
  pub server_time : ℤ

-- What stands at the other end of a connection: its answer to a message, and what it is after it;
-- or nothing any more.
pub data Conn : Type 0 where
  closed : Conn
  conn : (List ℕ → Result (List ℕ)) → (List ℕ → Conn) → Conn

abbrev pub answer : Conn → List ℕ → Result (List ℕ)
answer closed packet = err (msg "EOF")
answer (conn f next) packet = f packet

abbrev pub after : Conn → List ℕ → Conn
after closed packet = closed
after (conn f next) packet = next packet

-- `msg_id` is what `nextMessageID` returns. The framing of the message is `Abridged`.
unfoldable pub send_unencrypted : ℤ → List ℕ → Conn → Result (List ℕ × Conn)
send_unencrypted msg_id body c =
    let packet = build_unencrypted_message msg_id body in
    answer c packet >>= λ payload.
    parse_unencrypted_message payload >>= λ reply. ok (reply, after c packet)

-- `r.raw(16)` and the test that it is the nonce that is wanted.
unfoldable pub expect_raw : List ℕ → String → Parse (Unit {0})
expect_raw want text =
    Reader.◌>>=◌ (Reader.raw 16)
      (λ nonce. if equal_bytes nonce want then Reader.pure tt else Reader.fail (msg text))

unfoldable pub validate_dh_params : ℤ → List ℕ → List ℕ → Result (Unit {0})
validate_dh_params g dh_prime_bytes ga_bytes =
    let dh_prime = set_bytes dh_prime_bytes in
    let ga = set_bytes ga_bytes in
    if ltb_ℤ g (pos 2) || ltb_ℤ (pos 7) g
    then err (msg "mtproto: unsupported generator %d")
    else if dh_prime == 0 || ga == 0
    then err (msg "mtproto: invalid DH values")
    else if leb ga 1 || leb (dh_prime - 1) ga
    then err (msg "mtproto: g_a outside valid range")
    else if ltb dh_prime (2 ^ 2039)
    then err (msg "mtproto: dh_prime is too small")
    else ok tt
