-- ===== src/Auth/ResPq.antt =====
-- mtproto/probe.go, `parseResPQ` and `nextMessageID`, and mtproto/rsa_keys.go, `findRSAPublicKey`.
-- What `factorPQ` returns is a parameter here; it is modelled in Auth/Factor.
use mt_pro_go.Prelude.{
  ℕ, zero, suc, ◌+◌, ◌*◌, ◌/◌, ◌%◌, ◌-◌, ◌^◌, ◌<◌, ◌≡◌, arith, List, [], ◌∷◌, ◌++◌, length, Option,
  none, some, if◌then◌else◌, ◌==◌, Result, ok, err, msg, msg_num, All,
}
use mt_pro_go.Prelude.Word.{le_bytes, IsU64}
use mt_pro_go.Prelude.Int.{ℤ}
use mt_pro_go.Prelude.Word.{to_int64}
use mt_pro_go.Tl.Constructors.{constructor_res_pq, constructor_vector}
use mt_pro_go.Tl.Reader.{Parse, ◌>>=◌, pure, fail, value, new_reader, int, long, raw, bytes}
use mt_pro_go.Tl.Reads.{
  Reads, Reads-bind, Reads-int, Reads-long, Reads-raw, Reads-bytes, Reads-pure, Reads-whole,
  Reads-end,
}
use mt_pro_go.Tl.Writer.{bytes_encoding}

-- `(seconds << 32) | ((nanos << 32) / 1e9)` with the last two bits cleared, at `now` nanoseconds.
-- The second part is below 2^32, so that `|` is a sum.
unfoldable pub next_message_id : ℕ → ℤ
next_message_id now =
    let id = now / 1000000000 * 2 ^ 32 + now % 1000000000 * 2 ^ 32 / 1000000000 in
    to_int64 ((id - id % 4) % 2 ^ 64)

pub record ResPq : Type 0 where
  pub nonce : List ℕ
  pub server_nonce : List ℕ
  pub pq : List ℕ
  pub p : List ℕ
  pub q : List ℕ
  pub rsa_fingerprints : List ℕ

unfoldable pub expect_constructor : ℕ → Parse (Unit {0})
expect_constructor constructor =
    if constructor == constructor_res_pq
    then pure tt
    else fail (msg_num "mtproto: expected resPQ constructor, got 0x%08x" constructor)

unfoldable pub expect_vector : ℕ → Parse (Unit {0})
expect_vector constructor =
    if constructor == constructor_vector
    then pure tt
    else fail (msg_num "mtproto: expected vector constructor, got 0x%08x" constructor)

-- A round for each fingerprint that is announced.
unfoldable pub fingerprints : ℕ → Parse (List ℕ)
fingerprints zero = pure []
fingerprints (suc count) = do
  fingerprint ← long
  rest ← fingerprints count
  pure (fingerprint ∷ rest)

unfoldable pub res_pq : (List ℕ → List ℕ × List ℕ) → Parse ResPq
res_pq factor_pq = do
  constructor ← int
  _ ← expect_constructor constructor
  nonce ← raw 16
  server_nonce ← raw 16
  pq ← bytes
  vector_constructor ← int
  _ ← expect_vector vector_constructor
  count ← int
  rsa_fingerprints ← fingerprints count
  pure (record {
    nonce = nonce;
    server_nonce = server_nonce;
    pq = pq;
    p = (factor_pq pq).0;
    q = (factor_pq pq).1;
    rsa_fingerprints = rsa_fingerprints;
  })

unfoldable pub parse_res_pq : (List ℕ → List ℕ × List ℕ) → List ℕ → Result ResPq
parse_res_pq factor_pq body = value (res_pq factor_pq (new_reader body))

-- `RSAPublicKey`, with the size, modulus and exponent of its `rsa.PublicKey`.
pub record RsaPublicKey : Type 0 where
  pub fingerprint : ℕ
  pub size : ℕ
  pub modulus : ℕ
  pub exponent : ℕ

unfoldable pub key_for : ℕ → List RsaPublicKey → Option RsaPublicKey
key_for fp [] = none
key_for fp (k ∷ ks) = let rest = key_for fp ks in if k.fingerprint == fp then some k else rest

-- The first key that a fingerprint of the server names, in the server's order.
unfoldable pub find_rsa_public_key : List RsaPublicKey → List ℕ → Result RsaPublicKey
find_rsa_public_key keys [] =
    err (msg "mtproto: no matching RSA public key for server fingerprints %x")
find_rsa_public_key keys (fp ∷ fps) =
    let rest = find_rsa_public_key keys fps in
    elim (key_for fp keys) [ some k ↦ ok k | none ↦ rest ]

abbrev pub longs : List ℕ → List ℕ
longs [] = []
longs (v ∷ vs) = le_bytes 8 v ++ longs vs

-- The bytes of a `resPQ` in the schema.
abbrev pub res_pq_bytes : List ℕ → List ℕ → List ℕ → List ℕ → List ℕ
res_pq_bytes nonce server_nonce pq fps =
    le_bytes 4 constructor_res_pq
    ++ (nonce
        ++ (server_nonce
            ++ (bytes_encoding pq
                ++ (le_bytes 4 constructor_vector
                    ++ (le_bytes 4 (length fps) ++ (longs fps ++ []))))))

Reads-fingerprints :
    (fps : List ℕ) → All IsU64 fps → Reads (fingerprints (length fps)) (longs fps) fps
unfolding fingerprints
Reads-fingerprints [] h = Reads-pure []
Reads-fingerprints (v ∷ vs) (hv, hvs) =
    Reads-bind _ _ (Reads-long v hv)
      (Reads-end (Reads-bind _ _ (Reads-fingerprints vs hvs) (Reads-pure (v ∷ vs))))

-- A `resPQ` of the schema is read back, with the two factors of its `pq`, whatever follows it.
pub parse_res_pq-bytes :
    (factor_pq : List ℕ → List ℕ × List ℕ) (nonce server_nonce pq fps rest : List ℕ)
    → length nonce ≡ 16
    → length server_nonce ≡ 16
    → length pq < 2 ^ 24
    → length fps < 2 ^ 32
    → All IsU64 fps
    → parse_res_pq factor_pq (res_pq_bytes nonce server_nonce pq fps ++ rest)
      ≡ ok (record {
        nonce = nonce;
        server_nonce = server_nonce;
        pq = pq;
        p = (factor_pq pq).0;
        q = (factor_pq pq).1;
        rsa_fingerprints = fps;
      })
unfolding parse_res_pq res_pq expect_constructor expect_vector
parse_res_pq-bytes factor_pq nonce server_nonce pq fps rest hn hs hp hl hf = Reads-whole rest (
    Reads-bind _ _ (Reads-int constructor_res_pq (omega arith)) (
      Reads-bind _ _ (Reads-pure tt) (
        Reads-bind _ _ (Reads-raw 16 nonce hn) (
          Reads-bind _ _ (Reads-raw 16 server_nonce hs) (
            Reads-bind _ _ (Reads-bytes pq hp) (
              Reads-bind _ _ (Reads-int constructor_vector (omega arith)) (
                Reads-bind _ _ (Reads-pure tt) (
                  Reads-bind _ _ (Reads-int (length fps) hl)
                    (Reads-bind _ _ (Reads-fingerprints fps hf) (Reads-pure _))))))))))
