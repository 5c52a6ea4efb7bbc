-- ===== src/Peers/Key.antt =====
-- mtproto/peers.go, `int64Key`: the decimal digits of an int64.
use mt_pro_go.Prelude.{ℕ, zero, suc, ◌+◌, ◌/◌, ◌%◌, List, [], ◌∷◌, ◌==◌, if◌then◌else◌}
use mt_pro_go.Prelude.Int.{ℤ, pos, negsuc}

-- The loop `for u > 0` fills the buffer from its end; an int64 has at most nineteen digits.
unfoldable pub digits : ℕ → ℕ → List ℕ → List ℕ
digits zero u out = out
digits (suc rounds) u out =
    let rest = digits rounds (u / 10) ((48 + u % 10) ∷ out) in if u == 0 then out else rest

unfoldable pub int64_key : ℤ → List ℕ
int64_key (pos n) = if n == 0 then 48 ∷ [] else digits 20 n []
int64_key (negsuc n) = 45 ∷ digits 20 (n + 1) []
