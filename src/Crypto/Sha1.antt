-- ===== src/Crypto/Sha1.antt =====
-- mtproto/crypto.go: what the key exchange takes from SHA-1, which is a parameter.
use mathlib.Core.Path.{subst}
use mt_pro_go.Prelude.{
  ◌≢◌, le→ltb, ℕ, zero, suc, ◌+◌, ◌-◌, ◌%◌, ◌<◌, ◌≤◌, ◌≡◌, refl, sym, ap, ◌∙◌, arith, false, List,
  ◌∷◌, ◌++◌, All, length, take, drop, ltb, ◌==◌, if◌then◌else◌, Result, ok, err, msg, and_then,
  Bool-cases, inl, inr, length-append, take-length_append, drop-length_append,
}
use mt_pro_go.Prelude.Int.{ℤ}
use mt_pro_go.Prelude.Word.{to_int64, le_value, IsByte}
use mt_pro_go.Crypto.Bytes.{xor_bytes, equal_bytes, equal_bytes_iff}

-- `b[low:high]`.
abbrev pub slice : ℕ → ℕ → List ℕ → List ℕ
slice low high b = take (high - low) (drop low b)

module _ (sha1 : List ℕ → List ℕ) where
  -- The loop over the candidates, from `n` bytes downwards, for `rounds` more lengths.
  unfoldable pub strip_from : ℕ → ℕ → List ℕ → List ℕ → Result (List ℕ)
  strip_from zero n want payload = err (msg "mtproto: SHA1 check failed")
  strip_from (suc rounds) n want payload =
      let rest = strip_from rounds (n - 1) want payload in
      if equal_bytes (sha1 (take n payload)) want
      then ok (take n payload)
      else if n == 0
      then err (msg "mtproto: SHA1 check failed")
      else rest

  -- At most fifteen bytes of padding: sixteen lengths.
  unfoldable pub strip_sha1_and_padding : List ℕ → Result (List ℕ)
  strip_sha1_and_padding payload =
      if ltb (length payload) 20
      then err (msg "mtproto: short SHA1 protected data")
      else strip_from 16 (length (drop 20 payload)) (take 20 payload) (drop 20 payload)

  -- `random n` is what `randomBytes` returns.
  unfoldable pub add_sha1_and_pad16 : (ℕ → Result (List ℕ)) → List ℕ → Result (List ℕ)
  add_sha1_and_pad16 random payload =
      let out = sha1 payload ++ payload in
      if length out % 16 == 0
      then ok out
      else and_then (random (16 - length out % 16)) (λ pad. ok (out ++ pad))

  abbrev pub temp_aes_keys : List ℕ → List ℕ → List ℕ × List ℕ
  temp_aes_keys new_nonce server_nonce =
      let a = sha1 (new_nonce ++ server_nonce) in
      let b = sha1 (server_nonce ++ new_nonce) in
      let c = sha1 (new_nonce ++ new_nonce) in
      (a ++ take 12 b, slice 12 20 b ++ (c ++ take 4 new_nonce))

  abbrev pub auth_key_id : List ℕ → ℕ
  auth_key_id auth_key = le_value (slice 12 20 (sha1 auth_key))

  abbrev pub auth_key_aux_hash : List ℕ → List ℕ
  auth_key_aux_hash auth_key = take 8 (sha1 auth_key)

  abbrev pub new_nonce_hash : List ℕ → ℕ → List ℕ → List ℕ
  new_nonce_hash new_nonce number auth_key =
      slice 4 20 (sha1 (new_nonce ++ (number ∷ auth_key_aux_hash auth_key)))

-- The first eight bytes of both nonces.
abbrev pub server_salt : List ℕ → List ℕ → ℤ
server_salt new_nonce server_nonce =
    to_int64 (le_value (xor_bytes (take 8 new_nonce) (take 8 server_nonce)))

-- A hash of twenty bytes.
pub record IsSha1 (sha1 : List ℕ → List ℕ) : Type 0 where
  pub size : (b : List ℕ) → length (sha1 b) ≡ 20
  pub in_bytes : (b : List ℕ) → All IsByte (sha1 b)

-- The loop ends at a candidate that has the hash that is wanted, if one of those it tries has it.
strip_from-finds :
    (sha1 : List ℕ → List ℕ) (rounds n k : ℕ) (want payload : List ℕ)
    → IsSha1 sha1
    → All IsByte want
    → k ≤ n
    → n < k + rounds
    → sha1 (take k payload) ≡ want
    → (j : ℕ) × (k ≤ j) × (strip_from sha1 rounds n want payload ≡ ok (take j payload))
unfolding strip_from
strip_from-finds sha1 zero n k want payload laws hw low high e = absurd (omega arith)
strip_from-finds sha1 (suc rounds) n k want payload laws hw low high e =
    let test = equal_bytes_iff (sha1 (take n payload)) want (laws.in_bytes (take n payload)) hw in
    elim (Bool-cases (equal_bytes (sha1 (take n payload)) want)) [
      | inl found ↦ rw found (n, low, refl)
      | inr other ↦
          let differs : sha1 (take n payload) ≢ want = ground (arith, test) in
          let below : k ≢ n = λ same. differs (ap (λ j. sha1 (take j payload)) (sym same) ∙ e) in
          let positive : (n == 0) ≡ false = ground arith in
          rw (other, positive)
            (strip_from-finds sha1 rounds (n - 1) k want payload laws hw (omega arith) (omega arith)
              e)
    ]

-- The hash in front of data with at most fifteen bytes of padding behind it is found: what is
-- returned is the data and a part of the padding.
pub strip_sha1_and_padding-finds :
    (sha1 : List ℕ → List ℕ) (content pad : List ℕ)
    → IsSha1 sha1
    → length pad < 16
    → (j : ℕ) × (length content ≤ j)
      × (strip_sha1_and_padding sha1 (sha1 content ++ (content ++ pad))
          ≡ ok (take j (content ++ pad)))
unfolding strip_sha1_and_padding
strip_sha1_and_padding-finds sha1 content pad laws h =
    let whole = sha1 content ++ (content ++ pad) in
    let size = laws.size content in
    let enough : ltb (length whole) 20 ≡ false =
      le→ltb _ 20 (omega (arith, length-append (sha1 content) (content ++ pad), size)) in
    let front : take 20 whole ≡ sha1 content =
      subst (λ n. take n whole ≡ sha1 content) size
        (take-length_append (sha1 content) (content ++ pad)) in
    let back : drop 20 whole ≡ content ++ pad =
      subst (λ n. drop n whole ≡ content ++ pad) size
        (drop-length_append (sha1 content) (content ++ pad)) in
    let hash : sha1 (take (length content) (content ++ pad)) ≡ sha1 content =
      ap sha1 (take-length_append content pad) in
    let total = length-append content pad in
    rw (enough, front, back)
      (strip_from-finds sha1 16 (length (content ++ pad)) (length content) (sha1 content)
        (content ++ pad) laws (laws.in_bytes content) (omega arith) (omega arith) hash)
