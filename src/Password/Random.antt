-- ===== src/Password/Random.antt =====
-- mtproto/password.go, `randomBigIntLessThan`: it draws until a number is in its range. What the
-- draws give is a parameter.
use mathlib.Core.Path.{subst}
use native.Mathlib.Nat.{add-zero}
use mt_pro_go.Prelude.{
  ℕ, zero, suc, ◌+◌, sym, ap, ◌∙◌, ◌⊎◌, ◌<◌, ◌≤◌, ◌≡◌, refl, arith, ◌&&◌, Bool, true, false, List,
  Option, none, some, ltb, ◌==◌, if◌then◌else◌, length, Result, ok, err, msg,
}
use mt_pro_go.Crypto.Big.{set_bytes, big_bytes}

-- The draw number `i`, of the given number of bytes.
abbrev pub Draws : Type 0
Draws = ℕ → ℕ → Result (List ℕ)

abbrev pub in_range : ℕ → ℕ → Bool
in_range max n = ltb 0 n && ltb n max

-- What a draw leads to, where `again` is the rest of the loop.
unfoldable pub after_draw : ℕ → Result (List ℕ) → Option (Result ℕ) → Option (Result ℕ)
after_draw max (err e) again = some (err e)
after_draw max (ok b) again = if in_range max (set_bytes b) then some (ok (set_bytes b)) else again

-- `for { ... }` with fuel: `none` is that the fuel is used up.
unfoldable pub draw_from : ℕ → Draws → ℕ → ℕ → Option (Result ℕ)
draw_from zero draws i max = none
draw_from (suc fuel) draws i max =
    after_draw max (draws i (length (big_bytes max))) (draw_from fuel draws (suc i) max)

unfoldable pub random_big_int_less_than : ℕ → Draws → ℕ → Option (Result ℕ)
random_big_int_less_than fuel draws max =
    if max == 0 then some (err (msg "invalid max random integer")) else draw_from fuel draws 0 max

-- A draw that cannot be used: its number is zero or too large.
pub record IsOutOfRange (max : ℕ) (drawn : Result (List ℕ)) : Type 0 where
  pub bytes : List ℕ
  pub read : drawn ≡ ok bytes
  pub outside : (set_bytes bytes ≡ 0) ⊎ (max ≤ set_bytes bytes)

draw_from-first :
    (draws : Draws) (max i n fuel : ℕ) (b : List ℕ)
    → ((j : ℕ) → j < n → IsOutOfRange max (draws (i + j) (length (big_bytes max))))
    → draws (i + n) (length (big_bytes max)) ≡ ok b
    → 0 < set_bytes b
    → set_bytes b < max
    → n < fuel
    → draw_from fuel draws i max ≡ some (ok (set_bytes b))
unfolding draw_from after_draw
draw_from-first draws max i n zero b bad e h0 hm h = absurd (omega arith)
draw_from-first draws max i zero (suc fuel) b bad e h0 hm h =
    let good : in_range max (set_bytes b) ≡ true = ground arith in
    rw (rw (add-zero i) at e, good) refl
draw_from-first draws max i (suc n) (suc fuel) b bad e h0 hm h =
    let first = bad 0 (omega arith) in
    let read = rw (add-zero i) at first.read in
    let outside = first.outside in
    let no : in_range max (set_bytes first.bytes) ≡ false = ground (arith, outside) in
    rw (read, no)
      (draw_from-first draws max (suc i) n fuel b
        (λ j hj.
          subst (λ k. IsOutOfRange max (draws k (length (big_bytes max)))) (moved i j)
            (bad (suc j) (omega arith)))
        (rw (moved i n) at e) h0 hm (omega arith))
  where
    moved : (i j : ℕ) → i + suc j ≡ suc i + j
    moved i j = omega arith

-- The loop returns the first draw that is in range, as a number: when each of the first `n` draws
-- is zero or not below the maximum, and the next one is neither, with fuel for all of them.
pub random_big_int_less_than_ends :
    (draws : Draws) (max n fuel : ℕ) (b : List ℕ)
    → ((j : ℕ) → j < n → IsOutOfRange max (draws j (length (big_bytes max))))
    → draws n (length (big_bytes max)) ≡ ok b
    → 0 < set_bytes b
    → set_bytes b < max
    → n < fuel
    → random_big_int_less_than fuel draws max ≡ some (ok (set_bytes b))
unfolding random_big_int_less_than
random_big_int_less_than_ends draws max n fuel b bad e h0 hm h =
    let some_max : (max == 0) ≡ false = ground arith in
    rw some_max (
      draw_from-first draws max 0 n fuel b
        (λ j hj.
          subst (λ k. IsOutOfRange max (draws k (length (big_bytes max)))) (start j) (bad j hj))
        (ap (λ k. draws k (length (big_bytes max))) (sym (start n)) ∙ e) h0 hm h)
  where
    start : (j : ℕ) → j ≡ 0 + j
    start j = omega arith
