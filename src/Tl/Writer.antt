-- ===== src/Tl/Writer.antt =====
-- mtproto/tl.go, `tlBuffer`: every method appends to the buffer `b.buf`.
use mt_pro_go.Prelude.{
  ℕ, zero, suc, ◌+◌, ◌%◌, ◌/◌, ◌^◌, ◌≡◌, sym, ◌∙◌, ap, arith, Bool-cases, inl, inr, true, List, [],
  ◌∷◌, ◌++◌, append_assoc, append-nil, ltb, ◌==◌, if◌then◌else◌, length,
}
use mt_pro_go.Prelude.Word.{le_bytes}

-- A method that writes: the buffer before and after it.
abbrev pub Write : Type 0
Write = List ℕ → List ℕ

infixl 5 ◌>>◌
abbrev pub ◌>>◌ : Write → Write → Write
◌>>◌ m n b = n (m b)

unfoldable pub put_int : ℕ → Write
put_int v b = b ++ le_bytes 4 v

unfoldable pub put_long : ℕ → Write
put_long v b = b ++ le_bytes 8 v

unfoldable pub put_raw : List ℕ → Write
put_raw v b = b ++ v

-- The loop `for (header+n)%4 != 0`, over the sum `header + n`. Three rounds reach a multiple of 4.
unfoldable pub put_padding : ℕ → ℕ → Write
put_padding zero total b = b
put_padding (suc rounds) total b =
    let rest = put_padding rounds (total + 1) (b ++ (0 ∷ [])) in if total % 4 == 0 then b else rest

unfoldable pub put_bytes : List ℕ → Write
put_bytes v b =
    if ltb (length v) 254
    then put_padding 3 (1 + length v) ((b ++ ((length v % 256) ∷ [])) ++ v)
    else put_padding 3 (4 + length v) (
        (b ++ (254 ∷ (length v % 256) ∷ (length v / 2 ^ 8 % 256) ∷ (length v / 2 ^ 16 % 256) ∷ []))
        ++ v)

unfoldable pub put_string : List ℕ → Write
put_string v = put_bytes v

-- The zeros that the padding loop appends to `total` bytes.
unfoldable pub padding : ℕ → ℕ → List ℕ
padding zero total = []
padding (suc rounds) total =
    let rest = 0 ∷ padding rounds (total + 1) in if total % 4 == 0 then [] else rest

-- What `putBytes` appends: a header of one or four bytes, the bytes, and the padding.
unfoldable pub bytes_encoding : List ℕ → List ℕ
bytes_encoding v =
    if ltb (length v) 254
    then (length v ∷ []) ++ (v ++ padding 3 (1 + length v))
    else (254 ∷ []) ++ (le_bytes 3 (length v) ++ (v ++ padding 3 (4 + length v)))

pub put_padding-append :
    (rounds total : ℕ) (b : List ℕ) → put_padding rounds total b ≡ b ++ padding rounds total
unfolding put_padding padding
put_padding-append zero total b = sym (append-nil b)
put_padding-append (suc rounds) total b = ground (
  arith,
  put_padding-append rounds (total + 1) (b ++ (0 ∷ [])),
  append_assoc b (0 ∷ []) (padding rounds (total + 1)),
  append-nil b,
)

-- The padding fills up to the next multiple of 4, and is at most three bytes.
pub padding_fills : (total : ℕ) → (total + length (padding 3 total)) % 4 ≡ 0
unfolding padding
padding_fills total = ground arith

three_bytes : (n : ℕ) → le_bytes 3 n ≡ (n % 256) ∷ (n / 2 ^ 8 % 256) ∷ (n / 2 ^ 16 % 256) ∷ []
unfolding le_bytes
three_bytes n = ap (λ k. (n % 256) ∷ (n / 256 % 256) ∷ (k % 256) ∷ []) (omega arith)

pub put_bytes-append : (v b : List ℕ) → put_bytes v b ≡ b ++ bytes_encoding v
unfolding put_bytes bytes_encoding
put_bytes-append v b = elim (Bool-cases (ltb (length v) 254)) [
  | inl short ↦
      rw (short, put_padding-append)
        (ap (λ k. ((b ++ (k ∷ [])) ++ v) ++ padding 3 (1 + length v)) (small (length v) short)
          ∙ simp append_assoc)
  | inr long ↦ rw (long, put_padding-append, three_bytes) (simp append_assoc)
]
  where
    small : (n : ℕ) → ltb n 254 ≡ true → n % 256 ≡ n
    small n h = ground arith
