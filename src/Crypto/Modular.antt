-- ===== src/Crypto/Modular.antt =====
-- Powers modulo a number, as `big.Int.Exp` computes them, and the laws that key exchange rests on.
use native.Mathlib.Nat.{
  div-add-mod, add-mul-mod_self_left, pow-zero, pow-suc, mul_comm, add-zero, add-suc, mul-one,
  mul-zero, mul-suc,
}
use mt_pro_go.Prelude.{ℕ, zero, suc, ◌+◌, ◌*◌, ◌/◌, ◌%◌, ◌^◌, ◌≡◌, refl, sym, ap, ◌∙◌, arith}

-- `new(big.Int).Exp(x, y, m)` for a positive `m` and natural `x` and `y`.
abbrev pub mod_exp : ℕ → ℕ → ℕ → ℕ
mod_exp x y m = x ^ y % m

pub mod-mul-mod : (a b m : ℕ) → a % m * b % m ≡ a * b % m
mod-mul-mod a b m = sym (
    ap (λ k. k * b % m) (sym (div-add-mod a m))
    ∙ ap (λ k. k % m) expand
    ∙ add-mul-mod_self_left (a % m * b) m (a / m * b))
  where
    expand : (m * (a / m) + a % m) * b ≡ a % m * b + m * (a / m * b)
    expand = grind arith

pub mul-mod-mod : (a b m : ℕ) → a * (b % m) % m ≡ a * b % m
mul-mod-mod a b m =
    ap (λ k. k % m) (mul_comm a (b % m)) ∙ mod-mul-mod b a m ∙ ap (λ k. k % m) (mul_comm b a)

pub mod-pow-mod : (a n m : ℕ) → (a % m) ^ n % m ≡ a ^ n % m
mod-pow-mod a zero m = rw (pow-zero (a % m), pow-zero a) refl
mod-pow-mod a (suc n) m =
    rw (pow-suc (a % m) n, pow-suc a n)
      (mul-mod-mod ((a % m) ^ n) a m
        ∙ sym (mod-mul-mod ((a % m) ^ n) a m)
        ∙ ap (λ k. k * a % m) (mod-pow-mod a n m)
        ∙ mod-mul-mod (a ^ n) a m)

pub pow-add : (a m n : ℕ) → a ^ (m + n) ≡ a ^ m * a ^ n
pow-add a m zero = rw (pow-zero a, add-zero m) (sym (mul-one (a ^ m)))
pow-add a m (suc n) = rw (add-suc m n, pow-suc a (m + n), pow-suc a n, pow-add a m n) (grind arith)

pub pow-mul : (a m n : ℕ) → (a ^ m) ^ n ≡ a ^ (m * n)
pow-mul a m zero = rw (mul-zero m, pow-zero (a ^ m), pow-zero a) refl
pow-mul a m (suc n) = rw (pow-suc (a ^ m) n, mul-suc m n, pow-add a (m * n) m, pow-mul a m n) refl

pub mul-pow : (a b n : ℕ) → (a * b) ^ n ≡ a ^ n * b ^ n
mul-pow a b zero = rw (pow-zero (a * b), pow-zero a, pow-zero b) refl
mul-pow a b (suc n) = rw (pow-suc (a * b) n, pow-suc a n, pow-suc b n, mul-pow a b n) (grind arith)

-- Both sides of an exchange get the same number.
pub mod_exp_exchange : (g a b p : ℕ) → mod_exp (mod_exp g a p) b p ≡ mod_exp (mod_exp g b p) a p
mod_exp_exchange g a b p =
    mod-pow-mod (g ^ a) b p
    ∙ ap (λ k. k % p) (pow-mul g a b ∙ ap (λ k. g ^ k) (mul_comm a b) ∙ sym (pow-mul g b a))
    ∙ sym (mod-pow-mod (g ^ b) a p)
