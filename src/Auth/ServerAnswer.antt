-- ===== src/Auth/ServerAnswer.antt =====
-- mtproto/auth.go, `parseServerDHParams`, on the answer of a server that follows the schema.
use mt_pro_go.Prelude.{
  ℕ, zero, suc, All-append, All-take, All-drop, ◌+◌, ◌%◌, ◌^◌, ◌<◌, ◌≤◌, ◌≡◌, refl, sym, ap, ◌∙◌,
  arith, true, List, [], ◌∷◌, ◌++◌, All, length, take, drop, length-append, length-take,
  length-drop, Result, ok, and_then,
}
use mathlib.Core.Path.{subst}
use mt_pro_go.Prelude.Word.{
  le_bytes, to_int32, of_int32, of_int32-lt, to_int32-of_int32, IsByte, IsI32,
}
use mt_pro_go.Tl.Constructors.{constructor_server_dh_params_ok, constructor_server_dh_inner_data}
use mt_pro_go.Tl.Reads.{
  Reads, Reads-bind, Reads-int, Reads-raw, Reads-bytes, Reads-pure, Reads-whole, Reads-end,
}
use mt_pro_go.Tl.Writer.{bytes_encoding}
use mt_pro_go.Crypto.Bytes.{equal_bytes, equal_bytes_iff}
use mt_pro_go.Crypto.Ige.{Cipher, aes_ige_encrypt, aes_ige_decrypt}
use mt_pro_go.Crypto.IgeInverse.{IsBlockCipher, aes_ige_decrypt-encrypt}
use mt_pro_go.Crypto.Sha1.{
  IsSha1, temp_aes_keys, strip_sha1_and_padding, strip_sha1_and_padding-finds,
}
use mt_pro_go.Auth.{AuthKeyResult, ServerDhInnerData, expect_raw}
use mt_pro_go.Auth.ServerDh.{
  check_dh_params, encrypted_answer, check_inner_data, inner_data, decrypted_answer,
  parse_server_dh_params,
}

-- `server_DH_inner_data` and `server_DH_params_ok` in the schema.
abbrev pub inner_bytes : AuthKeyResult → ServerDhInnerData → List ℕ
inner_bytes result d =
    le_bytes 4 constructor_server_dh_inner_data
    ++ (result.nonce
        ++ (result.server_nonce
            ++ (le_bytes 4 (of_int32 d.g)
                ++ (bytes_encoding d.dh_prime
                    ++ (bytes_encoding d.ga ++ (le_bytes 4 (of_int32 d.server_time) ++ []))))))

abbrev pub answer_bytes : AuthKeyResult → List ℕ → List ℕ
answer_bytes result encrypted =
    le_bytes 4 constructor_server_dh_params_ok
    ++ (result.nonce ++ (result.server_nonce ++ bytes_encoding encrypted))

-- Two nonces of sixteen bytes each.
pub record HasNonces (result : AuthKeyResult) : Type 0 where
  pub nonce_size : length result.nonce ≡ 16
  pub nonce_bytes : All IsByte result.nonce
  pub server_nonce_size : length result.server_nonce ≡ 16
  pub server_nonce_bytes : All IsByte result.server_nonce

Reads-expect :
    (want : List ℕ) (text : _)
    → length want ≡ 16
    → All IsByte want
    → Reads (expect_raw want text) want tt
unfolding expect_raw
Reads-expect want text size h =
    let same : equal_bytes want want ≡ true = (equal_bytes_iff want want h h).1 refl in
    Reads-end (Reads-bind _ _ (Reads-raw 16 want size) (rw same (Reads-pure tt)))

Reads-answer :
    (result : AuthKeyResult) (encrypted : List ℕ)
    → HasNonces result
    → length encrypted < 2 ^ 24
    → Reads (encrypted_answer result) (answer_bytes result encrypted) encrypted
unfolding encrypted_answer check_dh_params
Reads-answer result encrypted h short =
    Reads-bind _ _ (Reads-int constructor_server_dh_params_ok (omega arith)) (
      Reads-bind _ _ (Reads-pure tt) (
        Reads-bind _ _ (Reads-expect result.nonce _ h.nonce_size h.nonce_bytes) (
          Reads-bind _ _
            (Reads-expect result.server_nonce _ h.server_nonce_size h.server_nonce_bytes)
            (Reads-bytes encrypted short))))

-- The parameters as they are read: each number as an `int32`.
Reads-inner :
    (result : AuthKeyResult) (d : ServerDhInnerData)
    → HasNonces result
    → IsI32 d.g
    → IsI32 d.server_time
    → length d.dh_prime < 2 ^ 24
    → length d.ga < 2 ^ 24
    → Reads (inner_data result) (inner_bytes result d) d
unfolding inner_data check_inner_data
Reads-inner result d h hg ht hp ha =
    subst (Reads (inner_data result) (inner_bytes result d)) read_back (
      Reads-bind _ _ (Reads-int constructor_server_dh_inner_data (omega arith)) (
        Reads-bind _ _ (Reads-pure tt) (
          Reads-bind _ _ (Reads-expect result.nonce _ h.nonce_size h.nonce_bytes) (
            Reads-bind _ _
              (Reads-expect result.server_nonce _ h.server_nonce_size h.server_nonce_bytes)
              (Reads-bind _ _ (Reads-int (of_int32 d.g) (of_int32-lt d.g)) (
                Reads-bind _ _ (Reads-bytes d.dh_prime hp) (
                  Reads-bind _ _ (Reads-bytes d.ga ha) (
                    Reads-bind _ _ (Reads-int (of_int32 d.server_time) (of_int32-lt d.server_time))
                      (Reads-pure _)))))))))
  where
    read_back :
        record d { g = to_int32 (of_int32 d.g); server_time = to_int32 (of_int32 d.server_time) }
        ≡ d
    read_back = rw (to_int32-of_int32 d.g hg, to_int32-of_int32 d.server_time ht) refl

-- The initialization vector of the exchange has 32 bytes.
length-temp_iv :
    (sha1 : List ℕ → List ℕ) (new_nonce server_nonce : List ℕ)
    → IsSha1 sha1
    → 4 ≤ length new_nonce
    → length (temp_aes_keys sha1 new_nonce server_nonce).1 ≡ 32
length-temp_iv sha1 n s h enough =
    let b = sha1 (s ++ n) in
    let c = sha1 (n ++ n) in
    omega (
      arith,
      length-append (take 8 (drop 12 b)) (c ++ take 4 n),
      length-append c (take 4 n),
      length-take 8 (drop 12 b),
      length-drop 12 b,
      length-take 4 n,
      h.size (s ++ n),
      h.size (n ++ n),
    )

temp_iv_bytes :
    (sha1 : List ℕ → List ℕ) (new_nonce server_nonce : List ℕ)
    → IsSha1 sha1
    → All IsByte new_nonce
    → All IsByte (temp_aes_keys sha1 new_nonce server_nonce).1
temp_iv_bytes sha1 n s h hn =
    All-append IsByte _ _ (All-take IsByte 8 _ (All-drop IsByte 12 _ (h.in_bytes (s ++ n))))
      (All-append IsByte _ _ (h.in_bytes (n ++ n)) (All-take IsByte 4 n hn))

take_past :
    (content pad : List ℕ) (j : ℕ)
    → length content ≤ j
    → (more : List ℕ) × (take j (content ++ pad) ≡ content ++ more)
take_past [] pad j h = (take j pad, refl)
take_past (x ∷ content) pad zero h = absurd (omega arith)
take_past (x ∷ content) pad (suc j) h =
    let (more, e) = take_past content pad j (omega arith) in (more, ap (λ l. x ∷ l) e)

-- Behind the encryption, the content is found again, with a part of the padding behind it.
decrypted_answer_lem :
    (sha1 : List ℕ → List ℕ) (new_cipher : List ℕ → Result Cipher) (block : Cipher)
    (result : AuthKeyResult) (content pad encrypted : List ℕ)
    → IsSha1 sha1
    → IsBlockCipher block
    → All IsByte result.new_nonce
    → 4 ≤ length result.new_nonce
    → All IsByte (content ++ pad)
    → length pad < 16
    → (20 + length (content ++ pad)) % 16 ≡ 0
    → new_cipher (temp_aes_keys sha1 result.new_nonce result.server_nonce).0 ≡ ok block
    → aes_ige_encrypt new_cipher
        (sha1 content ++ (content ++ pad))
        (temp_aes_keys sha1 result.new_nonce result.server_nonce).0
        (temp_aes_keys sha1 result.new_nonce result.server_nonce).1
      ≡ ok encrypted
    → (more : List ℕ) × (decrypted_answer sha1 new_cipher result encrypted ≡ ok (content ++ more))
unfolding decrypted_answer
decrypted_answer_lem sha1 new_cipher block result content pad encrypted laws aes hn enough hb short
      whole hc he =
    let keys = temp_aes_keys sha1 result.new_nonce result.server_nonce in
    let plain = sha1 content ++ (content ++ pad) in
    let size : length plain % 16 ≡ 0 =
      omega (arith, length-append (sha1 content) (content ++ pad), laws.size content) in
    let back : aes_ige_decrypt new_cipher encrypted keys.0 keys.1 ≡ ok plain =
      ap (λ m. and_then m (λ c. aes_ige_decrypt new_cipher c keys.0 keys.1)) (sym he)
      ∙ aes_ige_decrypt-encrypt new_cipher block plain keys.0 keys.1 hc aes size
          (length-temp_iv sha1 result.new_nonce result.server_nonce laws enough)
          (All-append IsByte (sha1 content) (content ++ pad) (laws.in_bytes content) hb)
          (temp_iv_bytes sha1 result.new_nonce result.server_nonce laws hn) in
    let (j, low, found) = strip_sha1_and_padding-finds sha1 content pad laws short in
    let (more, e) = take_past content pad j low in
    (more, ap (λ m. and_then m (strip_sha1_and_padding sha1)) back ∙ found ∙ ap ok e)

-- The parameters of a server that answers by the schema are read: it has the nonces of the
-- exchange, its data is encrypted under the temporary keys behind its SHA-1 hash and in front of
-- at most fifteen bytes of padding, and the block cipher and the hash have the sizes of AES and
-- SHA-1.
pub parse_server_dh_params-answer :
    (sha1 : List ℕ → List ℕ) (new_cipher : List ℕ → Result Cipher) (block : Cipher)
    (result : AuthKeyResult) (d : ServerDhInnerData) (pad encrypted rest : List ℕ)
    → IsSha1 sha1
    → IsBlockCipher block
    → HasNonces result
    → All IsByte result.new_nonce
    → 4 ≤ length result.new_nonce
    → IsI32 d.g
    → IsI32 d.server_time
    → length d.dh_prime < 2 ^ 24
    → length d.ga < 2 ^ 24
    → All IsByte (inner_bytes result d ++ pad)
    → length pad < 16
    → (20 + length (inner_bytes result d ++ pad)) % 16 ≡ 0
    → new_cipher (temp_aes_keys sha1 result.new_nonce result.server_nonce).0 ≡ ok block
    → aes_ige_encrypt new_cipher
        (sha1 (inner_bytes result d) ++ (inner_bytes result d ++ pad))
        (temp_aes_keys sha1 result.new_nonce result.server_nonce).0
        (temp_aes_keys sha1 result.new_nonce result.server_nonce).1
      ≡ ok encrypted
    → length encrypted < 2 ^ 24
    → parse_server_dh_params sha1 new_cipher (answer_bytes result encrypted ++ rest) result ≡ ok d
unfolding parse_server_dh_params
parse_server_dh_params-answer sha1 new_cipher block result d pad encrypted rest laws aes nonces hn
      enough hg ht hp ha hb short whole hc he small =
    let (more, back) =
      decrypted_answer_lem sha1 new_cipher block result (inner_bytes result d) pad encrypted laws
        aes hn enough hb short whole hc he in
    rw (Reads-whole rest (Reads-answer result encrypted nonces small), back)
      (Reads-whole more (Reads-inner result d nonces hg ht hp ha))
