-- ===== src/Password/Hash.antt =====
-- mtproto/password.go: `passwordHashPH2`, `saltedHash` and `pbkdf2HMACSHA512`. `sha256Bytes` is the
-- hash of the bytes of all its arguments one behind the other.
use mt_pro_go.Prelude.{ℕ, zero, suc, ◌+◌, ◌-◌, ◌/◌, ◌%◌, ◌^◌, List, [], ◌∷◌, ◌++◌, take}
use mt_pro_go.Crypto.Bytes.{xor_bytes}

-- The four bytes of a block's number, most significant first.
abbrev pub int_block : ℕ → List ℕ
int_block block =
    (block / 2 ^ 24 % 256) ∷ (block / 2 ^ 16 % 256) ∷ (block / 2 ^ 8 % 256) ∷ (block % 256) ∷ []

module _ (hmac_sha512 : List ℕ → List ℕ → List ℕ) where
  -- The rounds that are left of `for i := 1; i < iter; i++`.
  unfoldable pub pbkdf2_rounds : ℕ → List ℕ → List ℕ → List ℕ → List ℕ
  pbkdf2_rounds zero password u t = t
  pbkdf2_rounds (suc left) password u t =
      let u' = hmac_sha512 password u in pbkdf2_rounds left password u' (xor_bytes t u')

  -- The blocks that are left, from the given one on.
  unfoldable pub pbkdf2_blocks : ℕ → ℕ → List ℕ → List ℕ → ℕ → List ℕ
  pbkdf2_blocks zero block password salt iter = []
  pbkdf2_blocks (suc left) block password salt iter =
      let u = hmac_sha512 password (salt ++ int_block block) in
      pbkdf2_rounds (iter - 1) password u u ++ pbkdf2_blocks left (block + 1) password salt iter

  -- For a positive number of rounds and of bytes, as the one caller asks for. A block has 64 bytes.
  unfoldable pub pbkdf2_hmac_sha512 : List ℕ → List ℕ → ℕ → ℕ → List ℕ
  pbkdf2_hmac_sha512 password salt iter key_len =
      take key_len (pbkdf2_blocks ((key_len + 64 - 1) / 64) 1 password salt iter)

unfoldable pub salted_hash : (List ℕ → List ℕ) → List ℕ → List ℕ → List ℕ
salted_hash sha256 content salt = sha256 (salt ++ (content ++ salt))

unfoldable pub password_hash_ph2 :
    (List ℕ → List ℕ) → (List ℕ → List ℕ → List ℕ) → List ℕ → List ℕ → List ℕ → List ℕ
password_hash_ph2 sha256 hmac_sha512 password salt1 salt2 =
    let ph1 = salted_hash sha256 (salted_hash sha256 password salt1) salt2 in
    salted_hash sha256 (pbkdf2_hmac_sha512 hmac_sha512 ph1 salt1 100000 64) salt2
