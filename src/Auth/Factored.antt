-- ===== src/Auth/Factored.antt =====
-- The factorisation of mtproto/probe.go ends, and gives factors.
use mathlib.Core.Path.{subst}
use native.Mathlib.Nat.{div-add-mod, add-suc, add-zero}
use mt_pro_go.Prelude.{
  ℕ, zero, suc, ◌+◌, ◌*◌, ◌/◌, ◌%◌, ◌-◌, ◌<◌, ◌≤◌, ◌≡◌, ◌≢◌, sym, ap, ◌∙◌, arith, true, false, some,
  ◌==◌, Bool-cases, inl, inr,
}
use mt_pro_go.Auth.Cycle.{pigeonhole}
use mt_pro_go.Auth.Factor.{gcd_from, gcd, rho_step, distance, walk}

gcd_from-done : (fuel a b : ℕ) → (b == 0) ≡ true → gcd_from (suc fuel) a b ≡ a
unfolding gcd_from
gcd_from-done fuel a b h = ground arith

gcd_from-more :
    (fuel a b : ℕ) → (b == 0) ≡ false → gcd_from (suc fuel) a b ≡ gcd_from fuel b (a % b)
unfolding gcd_from
gcd_from-more fuel a b h = ground arith

multiple_add : (k l q g : ℕ) → k * g * q + l * g ≡ (k * q + l) * g
multiple_add k l q g = grind arith

gcd_from-divides :
    (fuel a b : ℕ)
    → b < fuel
    → (k : ℕ) × (l : ℕ) × (a ≡ k * gcd_from fuel a b) × (b ≡ l * gcd_from fuel a b)
gcd_from-divides zero a b h = absurd (omega arith)
gcd_from-divides (suc fuel) a b h = elim (Bool-cases (b == 0)) [
  | inl last ↦ rw (gcd_from-done fuel a b last) (1, 0, omega arith, ground (arith, last))
  | inr more ↦
      let smaller : a % b < b = ground (arith, more) in
      let rest = gcd_from-divides fuel b (a % b) (omega arith) in
      let g = gcd_from fuel b (a % b) in
      let whole : b * (a / b) + a % b ≡ a = div-add-mod a b in
      let e : a ≡ (rest.0 * (a / b) + rest.1) * g =
        sym whole
        ∙ ap (λ z. z * (a / b) + a % b) rest.2
        ∙ ap (λ z. rest.0 * g * (a / b) + z) rest.3
        ∙ multiple_add rest.0 rest.1 (a / b) g in
      rw (gcd_from-more fuel a b more) (rest.0 * (a / b) + rest.1, rest.0, e, rest.2)
]

pub gcd-zero : (n : ℕ) → 0 < n → gcd 0 n ≡ n
unfolding gcd
gcd-zero zero h = absurd (omega arith)
gcd-zero (suc m) h =
    let some_left : (suc m == 0) ≡ false = ground arith in
    gcd_from-more (suc m) 0 (suc m) some_left ∙ gcd_from-done m (suc m) (0 % suc m) (ground arith)

-- The number that the walk for `c` has after `k` steps.
orbit : ℕ → ℕ → ℕ → ℕ
orbit c n zero = 2
orbit c n (suc k) = rho_step (orbit c n k) c n

orbit-lt : (c n k : ℕ) → 0 < n → orbit c n (suc k) < n
unfolding orbit rho_step
orbit-lt c n k h = omega arith

orbit-shift : (c n a b t : ℕ) → orbit c n a ≡ orbit c n b → orbit c n (a + t) ≡ orbit c n (b + t)
unfolding orbit
orbit-shift c n a b zero h = rw (add-zero a, add-zero b) h
orbit-shift c n a b (suc t) h =
    rw (add-suc a t, add-suc b t) (ap (λ v. rho_step v c n) (orbit-shift c n a b t h))

orbit-period :
    (c n a l q t : ℕ)
    → orbit c n a ≡ orbit c n (a + l)
    → orbit c n (a + t) ≡ orbit c n (a + t + q * l)
orbit-period c n a l zero t h = ap (orbit c n) (omega arith)
orbit-period c n a l (suc q) t h =
    orbit-period c n a l q t h
    ∙ ap (orbit c n) (grind arith)
    ∙ orbit-shift c n a (a + l) (t + q * l) h
    ∙ ap (orbit c n) (grind arith)

-- Within `n` rounds of a walk its two numbers meet.
orbit-meets : (c n : ℕ) → 0 < n → (k : ℕ) × (0 < k) × (k ≤ n) × (orbit c n k ≡ orbit c n (k + k))
orbit-meets c n h =
    let same = pigeonhole n (λ i. orbit c n (suc i)) (λ i _. orbit-lt c n i h) in
    let i = same.0 in
    let l = same.1 - same.0 in
    let q = suc (i / l) in
    let positive : 0 < l = omega (arith, same.2) in
    let k = q * l in
    let whole : l * (i / l) + i % l ≡ i = div-add-mod i l in
    let short : i % l < l = omega arith in
    let size : k ≡ l * (i / l) + l = grind arith in
    let far : suc i ≤ k = omega (arith, size, whole, short) in
    let near : k ≤ n = omega (arith, size, whole, same.2, same.3) in
    let start : suc i + (k - suc i) ≡ k = omega (arith, far) in
    let ends : suc i + l ≡ suc same.1 = omega (arith, same.2) in
    let period = orbit-period c n (suc i) l q (k - suc i) (same.4 ∙ ap (orbit c n) (sym ends)) in
    (
      k,
      omega (arith, far),
      near,
      ap (orbit c n) (sym start) ∙ period ∙ ap (λ v. orbit c n (v + k)) start,
    )

-- What the walk computes in the round after its first number has made `i` steps.
found_at : ℕ → ℕ → ℕ → ℕ
found_at c n i = gcd (distance (orbit c n (suc i)) (orbit c n (suc (suc (i + i))))) n

walk-found :
    (c n i fuel : ℕ)
    → (found_at c n i == 1) ≡ false
    → walk (suc fuel) c n (orbit c n i) (orbit c n (i + i)) ≡ some (found_at c n i)
unfolding walk found_at orbit
walk-found c n i fuel h = ground arith

walk-goes_on :
    (c n i fuel : ℕ)
    → (found_at c n i == 1) ≡ true
    → walk (suc fuel) c n (orbit c n i) (orbit c n (i + i))
      ≡ walk fuel c n (orbit c n (suc i)) (orbit c n (suc i + suc i))
unfolding walk found_at orbit
walk-goes_on c n i fuel h =
    ground arith ∙ ap (λ k. walk fuel c n (orbit c n (suc i)) (orbit c n k)) double
  where
    double : suc (suc (i + i)) ≡ suc i + suc i
    double = omega arith

-- Where the two numbers meet, the walk ends at `n`.
found_at-meet :
    (c n i : ℕ) → 0 < n → orbit c n (suc i) ≡ orbit c n (suc i + suc i) → found_at c n i ≡ n
unfolding found_at distance
found_at-meet c n i h meet =
    let same : orbit c n (suc i) ≡ orbit c n (suc (suc (i + i))) =
      meet ∙ ap (orbit c n) (omega arith) in
    ap (λ d. gcd d n) (omega (arith, same)) ∙ gcd-zero n h

-- A divisor of `n` that is not 1.
abbrev pub IsFactor : ℕ → ℕ → Type 0
IsFactor n d = (d ≢ 1) × (m : ℕ) × (n ≡ m * d)

found_at-divides : (c n i : ℕ) → (found_at c n i == 1) ≡ false → IsFactor n (found_at c n i)
unfolding found_at gcd
found_at-divides c n i h =
    let both =
      gcd_from-divides (suc n) (distance (orbit c n (suc i)) (orbit c n (suc (suc (i + i))))) n
        (omega arith) in
    ((λ e. ground (arith, h, e)), both.1, both.3)

-- A walk ends when its numbers meet at the latest.
walk-ends :
    (c n k i fuel : ℕ)
    → 1 < n
    → orbit c n k ≡ orbit c n (k + k)
    → i < k
    → k ≤ i + fuel
    → (d : ℕ) × (walk fuel c n (orbit c n i) (orbit c n (i + i)) ≡ some d) × IsFactor n d
walk-ends c n k i zero hn meet hi hk = absurd (omega arith)
walk-ends c n k i (suc fuel) hn meet hi hk = elim (Bool-cases (found_at c n i == 1)) [
  | inr found ↦ (found_at c n i, walk-found c n i fuel found, found_at-divides c n i found)
  | inl one ↦ elim (Bool-cases (suc i == k)) [
    | inl there ↦ absurd (
        let e : k ≡ suc i = ground (arith, there) in
        let whole : found_at c n i ≡ n =
          found_at-meet c n i (omega arith) (subst (λ j. orbit c n j ≡ orbit c n (j + j)) e meet) in
        ground (arith, one, whole))
    | inr before ↦
        rw (walk-goes_on c n i fuel one)
          (walk-ends c n k (suc i) fuel hn meet (ground (arith, before)) (omega arith))
  ]
]

-- With a unit of fuel for each unit of `n`, every walk ends.
pub walk-IsFactor :
    (fuel c n : ℕ) → 1 < n → n ≤ fuel → (d : ℕ) × (walk fuel c n 2 2 ≡ some d) × IsFactor n d
unfolding orbit
walk-IsFactor fuel c n hn hf =
    let meet = orbit-meets c n (omega arith) in
    walk-ends c n meet.0 0 fuel hn meet.3 meet.1 (omega (arith, meet.2))
