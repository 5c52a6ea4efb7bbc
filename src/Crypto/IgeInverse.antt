-- ===== src/Crypto/IgeInverse.antt =====
-- What AES-IGE encrypts, it decrypts, for any block cipher whose decryption undoes its encryption.
use mathlib.Core.Path.{subst}
use mt_pro_go.Prelude.{
  ℕ, zero, suc, ◌*◌, ◌/◌, ◌%◌, ◌≡◌, refl, sym, ◌∙◌, arith, List, [], ◌∷◌, ◌++◌, All, length, take,
  drop, Result, ok, and_then, take-length_append, drop-length_append, take-append-drop,
  length-append, length-take, length-drop, ◌==◌, true, ==_iff,
}
use mt_pro_go.Prelude.Word.{IsByte}
use mt_pro_go.Crypto.Bytes.{xor_bytes, length-xor_bytes, xor_bytes-IsByte, xor_bytes_cancel}
use mt_pro_go.Crypto.Ige.{Cipher, ige_encrypt, ige_decrypt, aes_ige_encrypt, aes_ige_decrypt}

-- A block cipher on blocks of sixteen bytes.
pub record IsBlockCipher (block : Cipher) : Type 0 where
  pub size : (b : List ℕ) → length b ≡ 16 → length (block.encrypt b) ≡ 16
  pub in_bytes : (b : List ℕ) → length b ≡ 16 → All IsByte (block.encrypt b)
  pub inverse : (b : List ℕ) → length b ≡ 16 → All IsByte b → block.decrypt (block.encrypt b) ≡ b

IsBlock : List ℕ → Type 0
IsBlock b = (length b ≡ 16) × All IsByte b

encrypted-IsBlock :
    (block : Cipher)
    → IsBlockCipher block
    → (p prev_c prev_p : List ℕ) → IsBlock p
    → IsBlock prev_c
    → IsBlock prev_p
    → (IsBlock (xor_bytes (block.encrypt (xor_bytes p prev_c)) prev_p))
      × (xor_bytes
            (block.decrypt
              (xor_bytes (xor_bytes (block.encrypt (xor_bytes p prev_c)) prev_p) prev_p))
            prev_c
          ≡ p)
unfolding IsBlock
encrypted-IsBlock block laws p prev_c prev_p (lp, bp) (lc, bc) (lq, bq) =
    let masked = xor_bytes p prev_c in
    let lm : length masked ≡ 16 = length-xor_bytes p prev_c (lp ∙ sym lc) ∙ lp in
    let bm : All IsByte masked = xor_bytes-IsByte p prev_c in
    let le : length (block.encrypt masked) ≡ 16 = laws.size masked lm in
    let be = laws.in_bytes masked lm in
    (
      (
        length-xor_bytes (block.encrypt masked) prev_p (le ∙ sym lq) ∙ le,
        xor_bytes-IsByte (block.encrypt masked) prev_p,
      ),
      rw
          (
            xor_bytes_cancel (block.encrypt masked) prev_p (le ∙ sym lq) be,
            laws.inverse masked lm bm,
          )
          (xor_bytes_cancel p prev_c (lp ∙ sym lc) bp),
    )

All-take : (n : ℕ) (bs : List ℕ) → All IsByte bs → All IsByte (take n bs)
All-take zero bs h = tt
All-take (suc n) [] h = tt
All-take (suc n) (b ∷ bs) h = (h.0, All-take n bs h.1)

All-drop : (n : ℕ) (bs : List ℕ) → All IsByte bs → All IsByte (drop n bs)
All-drop zero bs h = h
All-drop (suc n) [] h = tt
All-drop (suc n) (b ∷ bs) h = All-drop n bs h.1

ige_encrypt_block : (block : Cipher) → List ℕ → List ℕ → List ℕ → List ℕ
ige_encrypt_block block prev_c prev_p p = xor_bytes (block.encrypt (xor_bytes p prev_c)) prev_p

ige_inverse :
    (block : Cipher) (rounds : ℕ) (prev_c prev_p plain : List ℕ)
    → IsBlockCipher block
    → IsBlock prev_c
    → IsBlock prev_p
    → length plain ≡ 16 * rounds
    → All IsByte plain
    → (length (ige_encrypt block rounds prev_c prev_p plain) ≡ 16 * rounds)
      × (ige_decrypt block rounds prev_c prev_p (ige_encrypt block rounds prev_c prev_p plain)
          ≡ plain)
unfolding ige_encrypt ige_decrypt IsBlock
ige_inverse block zero prev_c prev_p plain laws hc hp size h = (refl, sym (empty plain size))
  where
    empty : (bs : List ℕ) → length bs ≡ 0 → bs ≡ []
    empty [] e = refl
    empty (b ∷ bs) e = absurd (omega arith)
ige_inverse block (suc rounds) prev_c prev_p plain laws hc hp size h =
    let p = take 16 plain in
    let rest = drop 16 plain in
    let lp : length p ≡ 16 = omega (arith, length-take 16 plain) in
    let lr : length rest ≡ 16 * rounds = omega (arith, length-drop 16 plain) in
    let (hc', back) =
      encrypted-IsBlock block laws p prev_c prev_p (lp, All-take 16 plain h) hc hp in
    let c = xor_bytes (block.encrypt (xor_bytes p prev_c)) prev_p in
    let (sizes, ih) =
      ige_inverse block rounds c p rest laws hc' (lp, All-take 16 plain h) lr
        (All-drop 16 plain h) in
    let tail = ige_encrypt block rounds c p rest in
    let first : take 16 (c ++ tail) ≡ c =
      subst (λ n. take n (c ++ tail) ≡ c) hc'.0 (take-length_append c tail) in
    let later : drop 16 (c ++ tail) ≡ tail =
      subst (λ n. drop n (c ++ tail) ≡ tail) hc'.0 (drop-length_append c tail) in
    (
      omega (arith, length-append c tail, hc'.0, sizes),
      rw (first, later, back, ih) (take-append-drop 16 plain),
    )

-- Decryption gives back what encryption was given, for a plain text of whole blocks, an
-- initialisation vector of 32 bytes, and any block cipher whose decryption undoes its encryption.
pub aes_ige_decrypt-encrypt :
    (new_cipher : List ℕ → Result Cipher) (block : Cipher) (plain key iv : List ℕ)
    → new_cipher key ≡ ok block
    → IsBlockCipher block
    → length plain % 16 ≡ 0
    → length iv ≡ 32
    → All IsByte plain
    → All IsByte iv
    → and_then
        (aes_ige_encrypt new_cipher plain key iv)
        (λ ciphertext. aes_ige_decrypt new_cipher ciphertext key iv)
      ≡ ok plain
unfolding aes_ige_encrypt aes_ige_decrypt IsBlock
aes_ige_decrypt-encrypt new_cipher block plain key iv made laws whole size hp hi =
    let lc : length (take 16 iv) ≡ 16 = omega (arith, length-take 16 iv) in
    let lq : length (drop 16 iv) ≡ 16 = omega (arith, length-drop 16 iv) in
    let (sizes, back) =
      ige_inverse block (length plain / 16) (take 16 iv) (drop 16 iv) plain laws
        (lc, All-take 16 iv hi) (lq, All-drop 16 iv hi) (omega arith) hp in
    let ct = ige_encrypt block (length plain / 16) (take 16 iv) (drop 16 iv) plain in
    let g₁ : (length plain % 16 == 0) ≡ true = rw whole refl in
    let g₂ : (length iv == 32) ≡ true = rw size refl in
    let g₃ : (length ct % 16 == 0) ≡ true = (==_iff (length ct % 16) 0).1 (omega arith) in
    let q : length ct / 16 ≡ length plain / 16 = omega arith in rw (g₁, made, g₂, g₃, q, back) refl
