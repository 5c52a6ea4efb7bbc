-- ===== src/Auth/RsaPad.antt =====
-- mtproto/crypto.go, `rsaPad` and `rsaRawEncrypt`. SHA-256, AES and the random bytes are parameters.
use mt_pro_go.Prelude.{
  ℕ, zero, suc, ◌-◌, List, ◌++◌, not, length, replicate, if◌then◌else◌, ltb, leb, ◌==◌, Result, ok,
  err, msg, ◌>>=◌,
}
use mt_pro_go.Crypto.Bytes.{reverse_bytes, xor_bytes}
use mt_pro_go.Crypto.Big.{set_bytes, pad_big_int_bytes}
use mt_pro_go.Crypto.Modular.{mod_exp}
use mt_pro_go.Crypto.Ige.{Cipher, aes_ige_encrypt}
use mt_pro_go.Auth.ResPq.{RsaPublicKey}

-- What an attempt reads from `rng`: the padding of the given size, then the temporary key.
pub record Drawn : Type 0 where
  pub padding : ℕ → Result (List ℕ)
  pub temp_key : Result (List ℕ)

abbrev pub rsa_raw_encrypt : RsaPublicKey → List ℕ → List ℕ
rsa_raw_encrypt key plain =
    pad_big_int_bytes (mod_exp (set_bytes plain) key.exponent key.modulus) key.size

module _ (sha256 : List ℕ → List ℕ) (new_cipher : List ℕ → Result Cipher) where
  -- The bytes of one attempt, before RSA.
  unfoldable pub key_aes_encrypted : List ℕ → List ℕ → Result (List ℕ)
  key_aes_encrypted data_with_padding temp_key =
      let data_with_hash =
        reverse_bytes data_with_padding ++ sha256 (temp_key ++ data_with_padding) in
      aes_ige_encrypt new_cipher data_with_hash temp_key (replicate 32 0) >>= λ aes_encrypted.
      ok (xor_bytes temp_key (sha256 aes_encrypted) ++ aes_encrypted)

  -- `again` is the next round of the loop.
  unfoldable pub encrypt_below : RsaPublicKey → Result (List ℕ) → List ℕ → Result (List ℕ)
  encrypt_below key again whole =
      if not (length whole == 256)
      then err (msg "mtproto: invalid RSA_PAD length")
      else if leb key.modulus (set_bytes whole)
      then again
      else ok (rsa_raw_encrypt key whole)

  -- `for attempt := 0; attempt < 32`, with the attempts that are left.
  unfoldable pub rsa_pad_from : ℕ → (ℕ → Drawn) → ℕ → List ℕ → RsaPublicKey → Result (List ℕ)
  rsa_pad_from zero rng attempt content key = err (msg "mtproto: RSA_PAD failed after retries")
  rsa_pad_from (suc left) rng attempt content key =
      let again = rsa_pad_from left rng (suc attempt) content key in
      (rng attempt).padding (192 - length content) >>= λ padding.
      (rng attempt).temp_key >>= λ temp_key.
      key_aes_encrypted (content ++ padding) temp_key >>= λ whole. encrypt_below key again whole

  unfoldable pub rsa_pad : (ℕ → Drawn) → List ℕ → RsaPublicKey → Result (List ℕ)
  rsa_pad rng content key =
      if ltb 144 (length content)
      then err (msg "mtproto: RSA_PAD data is longer than 144 bytes")
      else if not (key.size == 256)
      then err (msg "mtproto: expected 2048-bit RSA key")
      else rsa_pad_from 32 rng 0 content key
