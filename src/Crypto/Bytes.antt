-- ===== src/Crypto/Bytes.antt =====
-- mtproto/crypto.go: `xorBytes`, `reverseBytes` and `equalBytes`, on bytes as numbers below 256.
use mt_pro_go.Prelude.{
  ℕ, zero, suc, ◌+◌, ◌*◌, ◌/◌, ◌%◌, ◌^◌, ◌<◌, ◌≡◌, ◌↔◌, refl, ap, arith, Bool, true, false, List,
  [], ◌∷◌, ◌++◌, All, length, ◌==◌, if◌then◌else◌,
}
use mt_pro_go.Prelude.Word.{IsByte}

-- `a ^ b` on the lowest `k` bits.
unfoldable pub xor_bits : ℕ → ℕ → ℕ → ℕ
xor_bits zero a b = 0
xor_bits (suc k) a b = (a % 2 + b % 2) % 2 + 2 * xor_bits k (a / 2) (b / 2)

-- `a | b` on the lowest `k` bits.
unfoldable pub or_bits : ℕ → ℕ → ℕ → ℕ
or_bits zero a b = 0
or_bits (suc k) a b = (a % 2 + b % 2 + 1) / 2 + 2 * or_bits k (a / 2) (b / 2)

-- `out[i] = a[i] ^ b[i]` for each index of `a`. No caller has a shorter `b`, on which the source
-- panics; here the result ends with it.
unfoldable pub xor_bytes : List ℕ → List ℕ → List ℕ
xor_bytes [] b = []
xor_bytes (x ∷ a) [] = []
xor_bytes (x ∷ a) (y ∷ b) = xor_bits 8 x y ∷ xor_bytes a b

unfoldable pub reverse_bytes : List ℕ → List ℕ
reverse_bytes [] = []
reverse_bytes (x ∷ b) = reverse_bytes b ++ (x ∷ [])

-- The loop `v |= a[i] ^ b[i]`, over slices of the same length.
unfoldable pub difference_bits : ℕ → List ℕ → List ℕ → ℕ
difference_bits v [] b = v
difference_bits v (x ∷ a) [] = v
difference_bits v (x ∷ a) (y ∷ b) = difference_bits (or_bits 8 v (xor_bits 8 x y)) a b

unfoldable pub equal_bytes : List ℕ → List ℕ → Bool
equal_bytes a b = if length a == length b then difference_bits 0 a b == 0 else false

xor_bits-lt : (k a b : ℕ) → xor_bits k a b < 2 ^ k
unfolding xor_bits
xor_bits-lt zero a b = omega arith
xor_bits-lt (suc k) a b = omega (arith, xor_bits-lt k (a / 2) (b / 2))

xor_bits_cancel : (k a b : ℕ) → a < 2 ^ k → xor_bits k (xor_bits k a b) b ≡ a
unfolding xor_bits
xor_bits_cancel zero a b h = omega arith
xor_bits_cancel (suc k) a b h =
    let tail = xor_bits k (a / 2) (b / 2) in
    let half : ((a % 2 + b % 2) % 2 + 2 * tail) / 2 ≡ tail = omega arith in
    rw half (omega (arith, xor_bits_cancel k (a / 2) (b / 2) (omega arith)))

pub length-xor_bytes : (a b : List ℕ) → length a ≡ length b → length (xor_bytes a b) ≡ length a
unfolding xor_bytes
length-xor_bytes [] b h = refl
length-xor_bytes (x ∷ a) [] h = absurd (omega arith)
length-xor_bytes (x ∷ a) (y ∷ b) h = ap suc (length-xor_bytes a b (omega arith))

pub xor_bytes-IsByte : (a b : List ℕ) → All IsByte (xor_bytes a b)
unfolding xor_bytes
xor_bytes-IsByte [] b = tt
xor_bytes-IsByte (x ∷ a) [] = tt
xor_bytes-IsByte (x ∷ a) (y ∷ b) = (xor_bits-lt 8 x y, xor_bytes-IsByte a b)

-- The same mask twice gives back the bytes.
pub xor_bytes_cancel :
    (a b : List ℕ) → length a ≡ length b → All IsByte a → xor_bytes (xor_bytes a b) b ≡ a
unfolding xor_bytes
xor_bytes_cancel [] b h v = refl
xor_bytes_cancel (x ∷ a) [] h v = absurd (omega arith)
xor_bytes_cancel (x ∷ a) (y ∷ b) h v =
    rw (xor_bits_cancel 8 x y v.0, xor_bytes_cancel a b (omega arith) v.1) refl

xor_bits_zero : (k a b : ℕ) → a < 2 ^ k → b < 2 ^ k → (xor_bits k a b ≡ 0) ↔ (a ≡ b)
unfolding xor_bits
xor_bits_zero zero a b ha hb = (λ _. omega arith, λ _. refl)
xor_bits_zero (suc k) a b ha hb =
    let ih = xor_bits_zero k (a / 2) (b / 2) (omega arith) (omega arith) in ground (arith, ih)

or_bits_zero : (k a b : ℕ) → a < 2 ^ k → b < 2 ^ k → (or_bits k a b ≡ 0) ↔ ((a ≡ 0) × (b ≡ 0))
unfolding or_bits
or_bits_zero zero a b ha hb = (λ _. (omega arith, omega arith), λ _. refl)
or_bits_zero (suc k) a b ha hb =
    let ih = or_bits_zero k (a / 2) (b / 2) (omega arith) (omega arith) in ground (arith, ih)

or_bits-lt : (k a b : ℕ) → or_bits k a b < 2 ^ k
unfolding or_bits
or_bits-lt zero a b = omega arith
or_bits-lt (suc k) a b = omega (arith, or_bits-lt k (a / 2) (b / 2))

difference_bits_zero :
    (v : ℕ) (a b : List ℕ)
    → v < 2 ^ 8
    → length a ≡ length b
    → All IsByte a
    → All IsByte b
    → (difference_bits v a b ≡ 0) ↔ ((v ≡ 0) × (a ≡ b))
unfolding difference_bits
difference_bits_zero v [] [] hv h ha hb = (λ e. (e, refl), λ p. p.0)
difference_bits_zero v [] (y ∷ b) hv h ha hb = absurd (omega arith)
difference_bits_zero v (x ∷ a) [] hv h ha hb = absurd (omega arith)
difference_bits_zero v (x ∷ a) (y ∷ b) hv h ha hb =
    let ih =
      difference_bits_zero (or_bits 8 v (xor_bits 8 x y)) a b (or_bits-lt 8 v (xor_bits 8 x y))
        (omega arith) ha.1 hb.1 in
    ground (
      arith,
      ih,
      or_bits_zero 8 v (xor_bits 8 x y) hv (xor_bits-lt 8 x y),
      xor_bits_zero 8 x y ha.0 hb.0,
    )

-- The comparison without an early exit decides equality of byte strings.
pub equal_bytes_iff :
    (a b : List ℕ) → All IsByte a → All IsByte b → (equal_bytes a b ≡ true) ↔ (a ≡ b)
unfolding equal_bytes
equal_bytes_iff a b ha hb = (
  λ e. ground (arith, difference_bits_zero 0 a b (omega arith)),
  λ e.
      let same : length a ≡ length b = ap length e in
      ground (arith, difference_bits_zero 0 a b (omega arith) same ha hb),
)
