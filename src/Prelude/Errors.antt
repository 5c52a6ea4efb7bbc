-- ===== src/Prelude/Errors.antt =====
-- Go's (value, error) pairs. An error is its text, a text with the number that is printed into it,
-- or one of the typed errors that callers take apart (`errors.As`).
use Prim.Native.Nat.{ℕ}
use Prim.Native.String.{String}
use mathlib.Core.Path.{◌≡◌, refl}
use mathlib.Core.List.{List}
use mt_pro_go.Prelude.Int.{ℤ}

pub data Error : Type 0 where
  msg : String → Error
  msg_num : String → ℕ → Error
  rpc_error : ℤ → List ℕ → Error
  bad_server_salt : ℤ → ℤ → ℤ → ℤ → Error
  bad_message : ℤ → ℤ → ℤ → Error

pub data Result {ℓ} (A : Type ℓ) : Type ℓ where
  ok : A → Result A
  err : Error → Result A

-- The rest of a Go function behind `if err != nil { return err }`.
abbrev pub and_then {ℓ κ} : {A : Type ℓ} {B : Type κ} → Result A → (A → Result B) → Result B
and_then (ok a) f = f a
and_then (err e) f = err e

infixl 5 ◌>>=◌
abbrev pub ◌>>=◌ {ℓ κ} : {A : Type ℓ} {B : Type κ} → Result A → (A → Result B) → Result B
m >>= f = and_then m f

pub and_then-eq-ok {ℓ κ} :
    {A : Type ℓ} {B : Type κ} (m : Result A) (f : A → Result B) {b : B}
    → and_then m f ≡ ok b
    → (a : A) × (m ≡ ok a) × (f a ≡ ok b)
and_then-eq-ok (ok a) f h = (a, refl, h)
and_then-eq-ok (err e) f h = cc
