-- ===== src/Auth/Cycle.antt =====
-- Floyd's cycle: a sequence that repeats has a place `k` where it is what it is at `2 * k`.
use mt_pro_go.Prelude.{
  ℕ, zero, suc, ◌<◌, ◌≤◌, ◌≡◌, ap, ◌∙◌, arith, false, ◌==◌, if◌then◌else◌, Bool-cases, inl, inr,
  ◌⊎◌,
}

-- Whether an earlier place has the value `v`.
earlier :
    (f : ℕ → ℕ) (v n : ℕ) → ((i : ℕ) × (i < n) × (f i ≡ v)) ⊎ ((i : ℕ) → i < n → (f i == v) ≡ false)
earlier f v zero = inr (λ i h. absurd (omega arith))
earlier f v (suc n) = elim (Bool-cases (f n == v)) [
  | inl same ↦ inl (n, omega arith, ground (arith, same))
  | inr other ↦ elim (earlier f v n) [
    | inl found ↦ inl (found.0, omega (arith, found.1), found.2)
    | inr no_one ↦ inr (λ i h. elim (Bool-cases (i == n)) [
      | inl last ↦ let e : i ≡ n = ground (arith, last) in ap (λ k. f k == v) e ∙ other
      | inr before ↦ no_one i (ground (arith, before, h))
    ])
  ]
]

-- The sequence with the value `m` replaced by what stands at `m + 1`.
moved : (ℕ → ℕ) → ℕ → ℕ → ℕ
moved f m i = if f i == m then f (suc m) else f i

moved-lt :
    (f : ℕ → ℕ) (m : ℕ)
    → ((i : ℕ) → i ≤ suc m → f i < suc m)
    → ((i : ℕ) → i < suc m → (f i == f (suc m)) ≡ false)
    → (i : ℕ) → i ≤ m
    → moved f m i < m
unfolding moved
moved-lt f m h alone i hi =
    let a = h i (omega arith) in
    let b = h (suc m) (omega arith) in let c = alone i (omega arith) in ground arith

moved-back :
    (f : ℕ → ℕ) (m i j : ℕ)
    → (f i == f (suc m)) ≡ false
    → (f j == f (suc m)) ≡ false
    → moved f m i ≡ moved f m j
    → f i ≡ f j
unfolding moved
moved-back f m i j a b h = ground arith

-- Of `n + 1` values below `n`, two are the same.
pub pigeonhole :
    (n : ℕ) (f : ℕ → ℕ)
    → ((i : ℕ) → i ≤ n → f i < n)
    → (i : ℕ) × (j : ℕ) × (i < j) × (j ≤ n) × (f i ≡ f j)
pigeonhole zero f h = absurd (let none_below = h 0 (omega arith) in omega arith)
pigeonhole (suc m) f h = elim (earlier f (f (suc m)) (suc m)) [
  | inl found ↦ (found.0, suc m, found.1, omega arith, found.2)
  | inr alone ↦
      let again = pigeonhole m (moved f m) (moved-lt f m h alone) in
      let i = again.0 in
      let j = again.1 in
      (
        i,
        j,
        again.2,
        omega (arith, again.3),
        moved-back f m i j (alone i (omega (arith, again.2, again.3)))
            (alone j (omega (arith, again.3))) again.4,
      )
]
