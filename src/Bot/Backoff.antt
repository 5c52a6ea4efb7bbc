-- ===== src/Bot/Backoff.antt =====
-- mtproto_bot.go, `reconnectBackoff`: durations are int64 nanoseconds, whose product wraps.
use native.Mathlib.Nat.{pow-zero, pow-suc}
use mt_pro_go.Prelude.{
  ℕ, zero, suc, ◌-◌, ◌*◌, ◌^◌, ◌<◌, ◌≤◌, ◌≡◌, sym, ap, arith, false, leb, if◌then◌else◌, Bool-cases,
  inl, inr,
}
use mt_pro_go.Prelude.Int.{ℤ, pos, pos_part, ◌+ℤ◌, ltb_ℤ, leb_ℤ}
use mt_pro_go.Prelude.Word.{wrap64}

-- `time.Second`.
abbrev pub second : ℕ
second = 1000000000

-- `for i := 1; i < attempt; i++`, with the rounds that are left.
unfoldable pub backoff_from : ℕ → ℤ → ℤ → ℤ
backoff_from zero delay max = if ltb_ℤ max delay then max else delay
backoff_from (suc rounds) delay max =
    let rest = backoff_from rounds (wrap64 (delay +ℤ delay)) max in
    if leb_ℤ max (wrap64 (delay +ℤ delay)) then max else rest

unfoldable pub reconnect_backoff : ℤ → ℤ → ℤ → ℤ
reconnect_backoff attempt initial max =
    let initial' = if leb_ℤ initial (pos 0) then pos second else initial in
    let max' = if leb_ℤ max (pos 0) then pos (30 * second) else max in
    if leb_ℤ attempt (pos 0) then pos 0 else backoff_from (pos_part attempt - 1) initial' max'

abbrev pub least : ℕ → ℕ → ℕ
least a b = if leb a b then a else b

double : (d : ℕ) → d < 2 ^ 62 → wrap64 (pos d +ℤ pos d) ≡ pos (d * 2)
double d h = ground arith

least_grows : (m d n : ℕ) → m ≤ d → least m (d * 2 ^ n) ≡ m
least_grows m d zero h = rw (pow-zero 2) (ground arith)
least_grows m d (suc n) h =
    let e : d * 2 ^ suc n ≡ d * 2 * 2 ^ n = rw (pow-suc 2 n) (grind arith) in
    rw e (least_grows m (d * 2) n (omega arith))

backoff_from_lem :
    (n d m : ℕ)
    → d < 2 ^ 62
    → m ≤ 2 ^ 62
    → backoff_from n (pos d) (pos m) ≡ pos (least m (d * 2 ^ n))
unfolding backoff_from
backoff_from_lem zero d m hd hm = rw (pow-zero 2) (ground arith)
backoff_from_lem (suc n) d m hd hm =
    let e : d * 2 ^ suc n ≡ d * 2 * 2 ^ n = rw (pow-suc 2 n) (grind arith) in
    rw (double d hd, e)
      (elim (Bool-cases (leb_ℤ (pos m) (pos (d * 2)))) [
        | inl reached ↦ rw reached (ap pos (sym (least_grows m (d * 2) n (ground arith))))
        | inr below ↦ rw below (backoff_from_lem n (d * 2) m (ground arith) hm)
      ])

-- The delay before attempt n + 1 is the initial delay doubled n times, or the maximum if that is
-- less, for positive delays of less than 2^62 nanoseconds and up to it.
pub reconnect_backoff_lem :
    (n initial max : ℕ)
    → 0 < initial
    → initial < 2 ^ 62
    → 0 < max
    → max ≤ 2 ^ 62
    → reconnect_backoff (pos (suc n)) (pos initial) (pos max) ≡ pos (least max (initial * 2 ^ n))
unfolding reconnect_backoff
reconnect_backoff_lem n initial max hi small hm top =
    let positive_initial : leb_ℤ (pos initial) (pos 0) ≡ false = ground arith in
    let positive_max : leb_ℤ (pos max) (pos 0) ≡ false = ground arith in
    let rounds : suc n - 1 ≡ n = omega arith in
    let some_attempt : leb_ℤ (pos (suc n)) (pos 0) ≡ false = ground arith in
    rw (positive_initial, positive_max, rounds, some_attempt)
      (backoff_from_lem n initial max small top)
