-- ===== src/Crypto/Big.antt =====
-- Natural numbers as big-endian bytes: `SetBytes` and `Bytes` of math/big, and `padBigIntBytes` of
-- mtproto/auth.go.
use native.Mathlib.Nat.{pow-zero, pow-suc, mul-le-mul_right}
use mt_pro_go.Prelude.{
  ℕ, zero, suc, ◌+◌, ◌-◌, ◌*◌, ◌/◌, ◌%◌, ◌^◌, ◌<◌, ◌≤◌, ◌≡◌, refl, sym, ap, ◌∙◌, arith, true, false,
  List, [], ◌∷◌, ◌++◌, All, length, replicate, leb, ◌==◌, if◌then◌else◌, length-append,
  length-replicate, Bool-cases, inl, inr,
}
use mt_pro_go.Prelude.Word.{IsByte}

unfoldable pub set_bytes_from : ℕ → List ℕ → ℕ
set_bytes_from v [] = v
set_bytes_from v (b ∷ bs) = set_bytes_from (v * 256 + b) bs

-- `new(big.Int).SetBytes(b)`.
unfoldable pub set_bytes : List ℕ → ℕ
set_bytes bs = set_bytes_from 0 bs

-- The bytes of `v` in front of `out`, without leading zeros. A unit of fuel for each unit of `v`
-- is enough.
unfoldable pub bytes_from : ℕ → ℕ → List ℕ → List ℕ
bytes_from zero v out = out
bytes_from (suc fuel) v out = elim (v == 0) [
  | true ↦ out
  | false ↦ bytes_from fuel (v / 256) (v % 256 ∷ out)
]

pub set_bytes_from-lt :
    (v : ℕ) (bs : List ℕ) → All IsByte bs → set_bytes_from v bs < suc v * 256 ^ length bs
unfolding set_bytes_from
set_bytes_from-lt v [] h = rw (pow-zero 256) (omega arith)
set_bytes_from-lt v (b ∷ bs) (hb, hbs) =
    let rest = set_bytes_from-lt (v * 256 + b) bs hbs in
    let grows : suc (v * 256 + b) * 256 ^ length bs ≤ (256 * suc v) * 256 ^ length bs =
      mul-le-mul_right (256 ^ length bs) (omega arith) in
    rw (pow-suc 256 (length bs)) (grind arith)

pub set_bytes-lt : (bs : List ℕ) → All IsByte bs → set_bytes bs < 256 ^ length bs
unfolding set_bytes
set_bytes-lt bs h = let below = set_bytes_from-lt 0 bs h in omega arith

-- `v.Bytes()`.
unfoldable pub big_bytes : ℕ → List ℕ
big_bytes v = bytes_from v v []

unfoldable pub pad_big_int_bytes : ℕ → ℕ → List ℕ
pad_big_int_bytes v size =
    let b = big_bytes v in if leb size (length b) then b else replicate (size - length b) 0 ++ b

bytes_from_done : (fuel v : ℕ) (out : List ℕ) → (v == 0) ≡ true → bytes_from (suc fuel) v out ≡ out
unfolding bytes_from
bytes_from_done fuel v out h = ground arith

bytes_from_more :
    (fuel v : ℕ) (out : List ℕ)
    → (v == 0) ≡ false
    → bytes_from (suc fuel) v out ≡ bytes_from fuel (v / 256) (v % 256 ∷ out)
unfolding bytes_from
bytes_from_more fuel v out h = ground arith

bytes_from-value :
    (fuel v : ℕ) (out : List ℕ)
    → v ≤ fuel
    → set_bytes_from 0 (bytes_from fuel v out) ≡ set_bytes_from v out
unfolding set_bytes_from
bytes_from-value zero v out h = unfold bytes_from in ap (λ k. set_bytes_from k out) (omega arith)
bytes_from-value (suc fuel) v out h = elim (Bool-cases (v == 0)) [
  | inl none ↦
      let z : v ≡ 0 = ground arith in
      rw (bytes_from_done fuel v out none) (ap (λ k. set_bytes_from k out) (sym z))
  | inr some_left ↦
      let smaller : v / 256 ≤ fuel = ground arith in
      let whole : v / 256 * 256 + v % 256 ≡ v = omega arith in
      rw (bytes_from_more fuel v out some_left) (
        bytes_from-value fuel (v / 256) (v % 256 ∷ out) smaller
        ∙ ap (λ k. set_bytes_from k out) whole)
]

pub set_bytes-big_bytes : (v : ℕ) → set_bytes (big_bytes v) ≡ v
unfolding set_bytes big_bytes
set_bytes-big_bytes v = unfold set_bytes_from in bytes_from-value v v [] (omega arith)

bytes_from-length :
    (fuel n v : ℕ) (out : List ℕ) → v < 256 ^ n → length (bytes_from fuel v out) ≤ n + length out
bytes_from-length zero n v out h = unfold bytes_from in omega arith
bytes_from-length (suc fuel) zero v out h = elim (Bool-cases (v == 0)) [
  | inl none ↦ rw (bytes_from_done fuel v out none) (omega arith)
  | inr some_left ↦ absurd (let small : v < 1 = rw (pow-zero 256) at h in ground arith)
]
bytes_from-length (suc fuel) (suc n) v out h = elim (Bool-cases (v == 0)) [
  | inl none ↦ rw (bytes_from_done fuel v out none) (omega arith)
  | inr some_left ↦
      let small : v < 256 ^ n * 256 = rw (pow-suc 256 n) at h in
      rw (bytes_from_more fuel v out some_left)
        (omega (arith, bytes_from-length fuel n (v / 256) (v % 256 ∷ out) (omega arith)))
]

bytes_from-IsByte :
    (fuel v : ℕ) (out : List ℕ) → All IsByte out → All IsByte (bytes_from fuel v out)
bytes_from-IsByte zero v out h = unfold bytes_from in h
bytes_from-IsByte (suc fuel) v out h = elim (Bool-cases (v == 0)) [
  | inl none ↦ rw (bytes_from_done fuel v out none) h
  | inr some_left ↦
      rw (bytes_from_more fuel v out some_left)
        (bytes_from-IsByte fuel (v / 256) (v % 256 ∷ out) (omega arith, h))
]

zeros_value : (n : ℕ) (bs : List ℕ) → set_bytes_from 0 (replicate n 0 ++ bs) ≡ set_bytes_from 0 bs
unfolding set_bytes_from
zeros_value zero bs = refl
zeros_value (suc n) bs = zeros_value n bs

-- The padded bytes of a number are those of a given size that it fits, and read back as it.
pub pad_big_int_bytes_lem :
    (v size : ℕ)
    → v < 256 ^ size
    → (length (pad_big_int_bytes v size) ≡ size) × (set_bytes (pad_big_int_bytes v size) ≡ v)
unfolding pad_big_int_bytes set_bytes big_bytes
pad_big_int_bytes_lem v size h =
    let b = bytes_from v v [] in
    let fits : length b ≤ size + 0 = bytes_from-length v size v [] h in
    let back : set_bytes_from 0 b ≡ v =
      unfold set_bytes_from in bytes_from-value v v [] (omega arith) in
    elim (Bool-cases (leb size (length b))) [
      | inl full ↦ rw full (ground arith, back)
      | inr short ↦ rw short (
        omega (
          arith,
          length-append (replicate (size - length b) 0) b,
          length-replicate {A = ℕ} (size - length b) 0,
        ),
        zeros_value (size - length b) b ∙ back,
      )
    ]
