-- ===== src/Prelude/Word.antt =====
-- Fixed-width words: Go's conversions between signed and unsigned integers, and the
-- little-endian byte order of `encoding/binary`.
use Prim.Native.Nat.{ℕ, zero, suc, ◌+◌, ◌-◌, ◌*◌, ◌/◌, ◌%◌, ◌^◌, ◌<◌}
use mathlib.Core.Path.{◌≡◌, refl, ap}
use mathlib.Core.Bool.{Bool}
use mathlib.Core.List.{List, [], ◌∷◌}
use native.Mathlib.Omega.{arith}
use mt_pro_go.Prelude.Tests.{ltb, ◌==◌, if◌then◌else◌}
use mt_pro_go.Prelude.Lists.{length, All}
use mt_pro_go.Prelude.Int.{ℤ, pos, negsuc, ◌≤ℤ◌}

abbrev pub IsByte : ℕ → Type 0
IsByte b = b < 256

abbrev pub IsU32 : ℕ → Type 0
IsU32 v = v < 2 ^ 32

abbrev pub IsU64 : ℕ → Type 0
IsU64 v = v < 2 ^ 64

abbrev pub IsI32 : ℤ → Type 0
IsI32 z = (negsuc (2 ^ 31 - 1) ≤ℤ z) × (z ≤ℤ pos (2 ^ 31 - 1))

abbrev pub IsI64 : ℤ → Type 0
IsI64 z = (negsuc (2 ^ 63 - 1) ≤ℤ z) × (z ≤ℤ pos (2 ^ 63 - 1))

-- `int32(x)` of a uint32, and `int64(x)` of a uint64: the same bits read as two's complement.
abbrev pub to_int32 : ℕ → ℤ
to_int32 w = if ltb w (2 ^ 31) then pos w else negsuc (2 ^ 32 - w - 1)

abbrev pub to_int64 : ℕ → ℤ
to_int64 w = if ltb w (2 ^ 63) then pos w else negsuc (2 ^ 64 - w - 1)

-- `uint32(x)` and `uint64(x)` of a signed integer.
abbrev pub of_int32 : ℤ → ℕ
of_int32 (pos n) = n % 2 ^ 32
of_int32 (negsuc n) = 2 ^ 32 - 1 - n % 2 ^ 32

abbrev pub of_int64 : ℤ → ℕ
of_int64 (pos n) = n % 2 ^ 64
of_int64 (negsuc n) = 2 ^ 64 - 1 - n % 2 ^ 64

-- The int64 that the result of an operation wraps to.
abbrev pub wrap64 : ℤ → ℤ
wrap64 z = to_int64 (of_int64 z)

pub of_int32-lt : (z : ℤ) → IsU32 (of_int32 z)
of_int32-lt (pos n) = omega arith
of_int32-lt (negsuc n) = omega arith

pub of_int64-lt : (z : ℤ) → IsU64 (of_int64 z)
of_int64-lt (pos n) = omega arith
of_int64-lt (negsuc n) = omega arith

pub to_int32-of_int32 : (z : ℤ) → IsI32 z → to_int32 (of_int32 z) ≡ z
to_int32-of_int32 (pos n) h = ground arith
to_int32-of_int32 (negsuc n) h = ground arith

pub to_int64-of_int64 : (z : ℤ) → IsI64 z → to_int64 (of_int64 z) ≡ z
to_int64-of_int64 (pos n) h = ground arith
to_int64-of_int64 (negsuc n) h = ground arith

pub of_int64-to_int64 : (w : ℕ) → IsU64 w → of_int64 (to_int64 w) ≡ w
of_int64-to_int64 w h = ground arith

-- `flags & (1 << k) != 0`.
abbrev pub has_bit : ℕ → ℕ → Bool
has_bit flags k = flags / 2 ^ k % 2 == 1

-- The `k` bytes of a word, lowest first, and the word that bytes stand for.
unfoldable pub le_bytes : ℕ → ℕ → List ℕ
le_bytes zero v = []
le_bytes (suc k) v = (v % 256) ∷ le_bytes k (v / 256)

unfoldable pub le_value : List ℕ → ℕ
le_value [] = 0
le_value (b ∷ bs) = b + 256 * le_value bs

pub length-le_bytes : (k v : ℕ) → length (le_bytes k v) ≡ k
unfolding le_bytes
length-le_bytes zero v = refl
length-le_bytes (suc k) v = ap suc (length-le_bytes k (v / 256))

pub le_bytes-IsByte : (k v : ℕ) → All IsByte (le_bytes k v)
unfolding le_bytes
le_bytes-IsByte zero v = tt
le_bytes-IsByte (suc k) v = (omega arith, le_bytes-IsByte k (v / 256))

pub le_value-le_bytes : (k v : ℕ) → v < 256 ^ k → le_value (le_bytes k v) ≡ v
unfolding le_bytes le_value
le_value-le_bytes zero v h = omega arith
le_value-le_bytes (suc k) v h = omega (arith, le_value-le_bytes k (v / 256) (omega arith))
