-- ===== src/Auth/FactorPq.antt =====
-- What `factorPQ` of mtproto/probe.go returns.
use native.Mathlib.Nat.{add-zero, mul_comm, zero-div, add-mul-div_right}
use mt_pro_go.Prelude.{
  ℕ, zero, suc, ◌+◌, ◌*◌, ◌/◌, ◌%◌, ◌<◌, ◌≤◌, ◌≡◌, ◌≢◌, refl, sym, ap, ◌∙◌, arith, Bool, true,
  false, List, [], Option, none, some, ltb, ◌==◌, Bool-cases, inl, inr, ◌⊎◌,
}
use mt_pro_go.Crypto.Big.{set_bytes, set_bytes-big_bytes}
use mt_pro_go.Auth.Factor.{
  gcd, distance, rho_step, walk, walks, pollard_rho, sorted_bytes, factors_of, factors_found,
  factor_pq,
}
use mt_pro_go.Auth.Factored.{gcd-zero, IsFactor, walk-IsFactor}

-- The walks for `left` values from `c` on all end at `n` itself.
abbrev pub AllEndAt : ℕ → ℕ → ℕ → ℕ → Type 0
AllEndAt n left fuel c = (i : ℕ) → i < left → walk fuel (c + i) n 2 2 ≡ some n

walks-next :
    (left fuel c n d : ℕ)
    → walk fuel c n 2 2 ≡ some d
    → (d == n) ≡ true
    → walks (suc left) fuel c n ≡ walks left fuel (suc c) n
unfolding walks
walks-next left fuel c n d e h = ground (arith, e, h)

walks-found :
    (left fuel c n d : ℕ)
    → walk fuel c n 2 2 ≡ some d
    → (d == n) ≡ false
    → walks (suc left) fuel c n ≡ some (some d)
unfolding walks
walks-found left fuel c n d e h = ground (arith, e, h)

all_end-suc :
    (n left fuel c : ℕ)
    → walk fuel c n 2 2 ≡ some n
    → AllEndAt n left fuel (suc c)
    → AllEndAt n (suc left) fuel c
all_end-suc n left fuel c first rest zero h = ap (λ k. walk fuel k n 2 2) (add-zero c) ∙ first
all_end-suc n left fuel c first rest (suc i) h =
    let moved : c + suc i ≡ suc c + i = omega arith in
    ap (λ k. walk fuel k n 2 2) moved ∙ rest i (omega arith)

walks-ends :
    (left fuel c n : ℕ)
    → 1 < n
    → n ≤ fuel
    → ((walks left fuel c n ≡ some none) × AllEndAt n left fuel c)
      ⊎ ((d : ℕ) × (walks left fuel c n ≡ some (some d)) × (d ≢ n) × IsFactor n d)
walks-ends zero fuel c n hn hf = inl (unfold walks in refl, λ i h. absurd (omega arith))
walks-ends (suc left) fuel c n hn hf =
    let found = walk-IsFactor fuel c n hn hf in
    let d = found.0 in
    elim (Bool-cases (d == n)) [
      | inr proper ↦
          inr (
            d,
            walks-found left fuel c n d found.1 proper,
            (λ e. ground (arith, proper, e)),
            found.2,
          )
      | inl whole ↦
          let next = walks-next left fuel c n d found.1 whole in
          let e : d ≡ n = ground (arith, whole) in
          elim (walks-ends left fuel (suc c) n hn hf) [
            | inl failed ↦
                inl (next ∙ failed.0, all_end-suc n left fuel c (found.1 ∙ ap some e) failed.1)
            | inr done ↦ inr (done.0, next ∙ done.1, done.2, done.3)
          ]
    ]

factors_of-whole : (n : ℕ) → factors_of n (some n) ≡ ([], [])
unfolding factors_of
factors_of-whole n = ground arith

factors_of-proper : (n d : ℕ) → d ≢ 0 → d ≢ n → factors_of n (some d) ≡ sorted_bytes d (n / d)
unfolding factors_of
factors_of-proper n d h0 hn = ground arith

-- Why no factors are found.
abbrev pub GivesUp : (ℕ → Bool) → ℕ → ℕ → Type 0
GivesUp probably_prime fuel n = (probably_prime n ≡ true) ⊎ ((n ≡ 2) ⊎ AllEndAt n 19 fuel 1)

-- Two numbers in order with the product `n`, neither of them 1.
abbrev pub AreFactors : ℕ → List ℕ → List ℕ → Type 0
AreFactors n p q = (set_bytes p * set_bytes q ≡ n) × (1 < set_bytes p) × (set_bytes p ≤ set_bytes q)

cofactor : (n m d : ℕ) → 1 < n → d ≢ n → d ≢ 1 → n ≡ m * d → (0 < d) × (1 < d) × (1 < m)
cofactor n zero d hn h h1 e = absurd (omega (arith, e))
cofactor n (suc zero) d hn h h1 e = absurd (h (omega (arith, e)))
cofactor n (suc (suc m)) zero hn h h1 e = absurd (omega (arith, e))
cofactor n (suc (suc m)) (suc zero) hn h h1 e = absurd (h1 refl)
cofactor n (suc (suc m)) (suc (suc d)) hn h h1 e = (omega arith, omega arith, omega arith)

sorted_bytes-AreFactors :
    (n m d : ℕ) → n ≡ m * d → 1 < d → 1 < m → AreFactors n (sorted_bytes d m).0 (sorted_bytes d m).1
unfolding sorted_bytes
sorted_bytes-AreFactors n m d e hd hm = elim (Bool-cases (ltb m d)) [
  | inl less ↦
      rw (less, set_bytes-big_bytes m, set_bytes-big_bytes d) (sym e, hm, ground (arith, less))
  | inr more ↦
      rw (more, set_bytes-big_bytes m, set_bytes-big_bytes d)
        (mul_comm d m ∙ sym e, hd, ground (arith, more))
]

quotient : (m d : ℕ) → 0 < d → m * d / d ≡ m
quotient m d h =
    ap (λ k. k / d) (omega arith)
    ∙ add-mul-div_right 0 m h
    ∙ ap (λ z. z + m) (zero-div d)
    ∙ omega arith

pollard_rho-whole :
    (probably_prime : ℕ → Bool) (fuel n : ℕ)
    → probably_prime n ≡ true
    → pollard_rho probably_prime fuel n ≡ some (some n)
unfolding pollard_rho
pollard_rho-whole probably_prime fuel n h = ground (arith, h)

pollard_rho-even :
    (probably_prime : ℕ → Bool) (fuel n : ℕ)
    → probably_prime n ≡ false
    → (n % 2 == 0) ≡ true
    → pollard_rho probably_prime fuel n ≡ some (some 2)
unfolding pollard_rho
pollard_rho-even probably_prime fuel n h e = ground (arith, h, e)

pollard_rho-odd :
    (probably_prime : ℕ → Bool) (fuel n : ℕ)
    → probably_prime n ≡ false
    → (n % 2 == 0) ≡ false
    → pollard_rho probably_prime fuel n ≡ walks 19 fuel 1 n
unfolding pollard_rho
pollard_rho-odd probably_prime fuel n h e = ground (arith, h, e)

pollard_rho-ends :
    (probably_prime : ℕ → Bool) (fuel n : ℕ)
    → 1 < n
    → n ≤ fuel
    → ((r : Option ℕ) × (pollard_rho probably_prime fuel n ≡ some r)
        × (factors_of n r ≡ ([], []))
        × GivesUp probably_prime fuel n)
      ⊎ ((d : ℕ) × (pollard_rho probably_prime fuel n ≡ some (some d)) × (d ≢ n) × IsFactor n d)
pollard_rho-ends prime fuel n hn hf = elim (Bool-cases (prime n)) [
  | inl taken ↦ inl (some n, pollard_rho-whole prime fuel n taken, factors_of-whole n, inl taken)
  | inr no_prime ↦ elim (Bool-cases (n % 2 == 0)) [
    | inl even ↦ elim (Bool-cases (n == 2)) [
      | inl two ↦
          let e : n ≡ 2 = ground (arith, two) in
          inl (
            some 2,
            pollard_rho-even prime fuel n no_prime even,
            ap (λ k. factors_of n (some k)) (sym e) ∙ factors_of-whole n,
            inr (inl e),
          )
      | inr other ↦ inr (
        2,
        pollard_rho-even prime fuel n no_prime even,
        (λ e. ground (arith, other, e)),
        ((λ e. absurd (omega (arith, e))), n / 2, ground (arith, even)),
      )
    ]
    | inr odd ↦
        let step = pollard_rho-odd prime fuel n no_prime odd in
        elim (walks-ends 19 fuel 1 n hn hf) [
          | inl failed ↦ inl (none, step ∙ failed.0, unfold factors_of in refl, inr (inr failed.1))
          | inr done ↦ inr (done.0, step ∙ done.1, done.2, done.3)
        ]
  ]
]

factor_pq-positive :
    (probably_prime : ℕ → Bool) (fuel : ℕ) (pq : List ℕ)
    → (set_bytes pq == 0) ≡ false
    → factor_pq probably_prime fuel pq
      ≡ factors_found (set_bytes pq) (pollard_rho probably_prime fuel (set_bytes pq))
unfolding factor_pq
factor_pq-positive prime fuel pq h = ground (arith, h)

factor_pq-found :
    (probably_prime : ℕ → Bool) (fuel : ℕ) (pq : List ℕ) (r : Option ℕ)
    → 1 < set_bytes pq
    → pollard_rho probably_prime fuel (set_bytes pq) ≡ some r
    → factor_pq probably_prime fuel pq ≡ some (factors_of (set_bytes pq) r)
factor_pq-found prime fuel pq r h e =
    factor_pq-positive prime fuel pq (ground arith)
    ∙ ap (factors_found (set_bytes pq)) e
    ∙ (unfold factors_found in refl)

-- With a unit of fuel for each unit of `pq`, the factorisation of every number above 1 ends: with
-- two numbers above 1 in order, whose product is `pq`, or with none when `pq` is taken for a prime,
-- is 2, or all nineteen walks end at it.
pub factor_pq_ends :
    (probably_prime : ℕ → Bool) (fuel : ℕ) (pq : List ℕ)
    → 1 < set_bytes pq
    → set_bytes pq ≤ fuel
    → (p : List ℕ) × (q : List ℕ) × (factor_pq probably_prime fuel pq ≡ some (p, q))
      × (((p ≡ []) × (q ≡ []) × GivesUp probably_prime fuel (set_bytes pq))
          ⊎ AreFactors (set_bytes pq) p q)
factor_pq_ends prime fuel pq hn hf =
    let n = set_bytes pq in
    elim (pollard_rho-ends prime fuel n hn hf) [
      | inl up ↦ (
        [],
        [],
        factor_pq-found prime fuel pq up.0 hn up.1 ∙ ap some up.2,
        inl (refl, refl, up.3),
      )
      | inr found ↦
          let d = found.0 in
          let m = found.3.1 in
          let e : n ≡ m * d = found.3.2 in
          let sizes = cofactor n m d hn found.2 found.3.0 e in
          let other : n / d ≡ m = ap (λ k. k / d) e ∙ quotient m d sizes.0 in
          let both =
            factors_of-proper n d (λ z. omega (arith, z, sizes.0)) found.2
            ∙ ap (sorted_bytes d) other in
          (
            (sorted_bytes d m).0,
            (sorted_bytes d m).1,
            factor_pq-found prime fuel pq (some d) hn found.1 ∙ ap some both,
            inr (sorted_bytes-AreFactors n m d e sizes.1 sizes.2),
          )
    ]

walk_on-one :
    (fuel c x y : ℕ)
    → gcd (distance (rho_step x c 1) (rho_step (rho_step y c 1) c 1)) 1 ≡ 1
    → walk (suc fuel) c 1 x y ≡ walk fuel c 1 (rho_step x c 1) (rho_step (rho_step y c 1) c 1)
unfolding walk
walk_on-one fuel c x y h = ground (arith, h)

walks-stuck : (left fuel c n : ℕ) → walk fuel c n 2 2 ≡ none → walks (suc left) fuel c n ≡ none
unfolding walks
walks-stuck left fuel c n h = ground (arith, h)

walk-one : (fuel c x y : ℕ) → walk fuel c 1 x y ≡ none
walk-one zero c x y = unfold walk in refl
walk-one (suc fuel) c x y =
    let x' = rho_step x c 1 in
    let y' = rho_step (rho_step y c 1) c 1 in
    walk_on-one fuel c x y
      (unfold rho_step distance in (ap (λ d. gcd d 1) (omega arith) ∙ gcd-zero 1 (omega arith)))
    ∙ walk-one fuel c x' y'

-- A `pq` of 1 that is not taken for a prime keeps the loop of the first walk for ever: no fuel is
-- enough.
factor_pq-one :
    (probably_prime : ℕ → Bool) (fuel : ℕ) (pq : List ℕ)
    → set_bytes pq ≡ 1
    → probably_prime 1 ≡ false
    → factor_pq probably_prime fuel pq ≡ none
factor_pq-one prime fuel pq e no_prime =
    factor_pq-positive prime fuel pq (ground (arith, e))
    ∙ ap (λ n. factors_found n (pollard_rho prime fuel n)) e
    ∙ ap (factors_found 1)
        (pollard_rho-odd prime fuel 1 no_prime refl ∙ walks-stuck 18 fuel 1 1 (walk-one fuel 1 2 2))
    ∙ (unfold factors_found in refl)
