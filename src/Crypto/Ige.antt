-- ===== src/Crypto/Ige.antt =====
-- mtproto/crypto.go: AES in IGE mode. `aes.NewCipher` is a parameter.
use mt_pro_go.Prelude.{
  ℕ, zero, suc, ◌/◌, ◌%◌, List, [], ◌++◌, not, ◌==◌, if◌then◌else◌, length, take, drop, Result, ok,
  err, msg, and_then,
}
use mt_pro_go.Crypto.Bytes.{xor_bytes}

-- A `cipher.Block`.
pub record Cipher : Type 0 where
  pub encrypt : List ℕ → List ℕ
  pub decrypt : List ℕ → List ℕ

-- `for off := 0; off < len(plain); off += 16`, a round for each block.
unfoldable pub ige_encrypt : Cipher → ℕ → List ℕ → List ℕ → List ℕ → List ℕ
ige_encrypt block zero prev_c prev_p plain = []
ige_encrypt block (suc rounds) prev_c prev_p plain =
    let p = take 16 plain in
    let c = xor_bytes (block.encrypt (xor_bytes p prev_c)) prev_p in
    c ++ ige_encrypt block rounds c p (drop 16 plain)

unfoldable pub ige_decrypt : Cipher → ℕ → List ℕ → List ℕ → List ℕ → List ℕ
ige_decrypt block zero prev_c prev_p ciphertext = []
ige_decrypt block (suc rounds) prev_c prev_p ciphertext =
    let c = take 16 ciphertext in
    let p = xor_bytes (block.decrypt (xor_bytes c prev_p)) prev_c in
    p ++ ige_decrypt block rounds c p (drop 16 ciphertext)

module _ (new_cipher : List ℕ → Result Cipher) where
  unfoldable pub aes_ige_encrypt : List ℕ → List ℕ → List ℕ → Result (List ℕ)
  aes_ige_encrypt plain key iv =
      if not (length plain % 16 == 0)
      then err (msg "aes-ige: plaintext length must be a multiple of 16")
      else if not (length iv == 32)
      then err (msg "aes-ige: iv must be 32 bytes")
      else and_then (new_cipher key)
          (λ block. ok (ige_encrypt block (length plain / 16) (take 16 iv) (drop 16 iv) plain))

  unfoldable pub aes_ige_decrypt : List ℕ → List ℕ → List ℕ → Result (List ℕ)
  aes_ige_decrypt ciphertext key iv =
      if not (length ciphertext % 16 == 0)
      then err (msg "aes-ige: ciphertext length must be a multiple of 16")
      else if not (length iv == 32)
      then err (msg "aes-ige: iv must be 32 bytes")
      else and_then (new_cipher key) (λ block.
        ok (ige_decrypt block (length ciphertext / 16) (take 16 iv) (drop 16 iv) ciphertext))
