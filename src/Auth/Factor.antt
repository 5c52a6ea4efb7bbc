-- ===== src/Auth/Factor.antt =====
-- mtproto/probe.go, `factorPQ`, `pollardRho` and `rhoStep`. What `ProbablyPrime(20)` of math/big
-- says of a number is a parameter.

use mt_pro_go.Prelude.{
  ℕ, zero, suc, ◌+◌, ◌*◌, ◌/◌, ◌%◌, ◌-◌, Bool, true, false, List, [], Option, none, some, ltb, ◌==◌,
  if◌then◌else◌,
}
use mt_pro_go.Crypto.Big.{set_bytes, big_bytes}

-- `GCD` of math/big for natural numbers. A unit more than `b` is enough fuel.
unfoldable pub gcd_from : ℕ → ℕ → ℕ → ℕ
gcd_from zero a b = a
gcd_from (suc fuel) a b = elim (b == 0) [ true ↦ a | false ↦ gcd_from fuel b (a % b) ]

unfoldable pub gcd : ℕ → ℕ → ℕ
gcd a b = gcd_from (suc b) a b

unfoldable pub rho_step : ℕ → ℕ → ℕ → ℕ
rho_step x c n = (x * x + c) % n

-- `new(big.Int).Abs` of a difference.
unfoldable pub distance : ℕ → ℕ → ℕ
distance x y = x - y + (y - x)

-- `for d.Cmp(one) == 0 { ... }` with fuel: `none` is that the fuel is used up.
unfoldable pub walk : ℕ → ℕ → ℕ → ℕ → ℕ → Option ℕ
walk zero c n x y = none
walk (suc fuel) c n x y =
    let x' = rho_step x c n in
    let y' = rho_step (rho_step y c n) c n in
    let d = gcd (distance x' y') n in elim (d == 1) [ true ↦ walk fuel c n x' y' | false ↦ some d ]

-- The walks for `left` values of `c`.
unfoldable pub walks : ℕ → ℕ → ℕ → ℕ → Option (Option ℕ)
walks zero fuel c n = some none
walks (suc left) fuel c n = elim (walk fuel c n 2 2) [
  | none ↦ none
  | some d ↦ elim (d == n) [ true ↦ walks left fuel (suc c) n | false ↦ some (some d) ]
]

unfoldable pub pollard_rho : (ℕ → Bool) → ℕ → ℕ → Option (Option ℕ)
pollard_rho probably_prime fuel n = elim (probably_prime n) [
  | true ↦ some (some n)
  | false ↦ elim (n % 2 == 0) [ true ↦ some (some 2) | false ↦ walks 19 fuel 1 n ]
]

-- The two numbers in order.
unfoldable pub sorted_bytes : ℕ → ℕ → List ℕ × List ℕ
sorted_bytes factor other =
    if ltb other factor
    then (big_bytes other, big_bytes factor)
    else (big_bytes factor, big_bytes other)

unfoldable pub factors_of : ℕ → Option ℕ → List ℕ × List ℕ
factors_of n none = ([], [])
factors_of n (some factor) =
    if factor == 0
    then ([], [])
    else (if factor == n then ([], []) else sorted_bytes factor (n / factor))

unfoldable pub factors_found : ℕ → Option (Option ℕ) → Option (List ℕ × List ℕ)
factors_found n none = none
factors_found n (some factor) = some (factors_of n factor)

unfoldable pub factor_pq : (ℕ → Bool) → ℕ → List ℕ → Option (List ℕ × List ℕ)
factor_pq probably_prime fuel pq_bytes =
    let n = set_bytes pq_bytes in
    elim (n == 0) [
      | true ↦ some ([], [])
      | false ↦ factors_found n (pollard_rho probably_prime fuel n)
    ]
