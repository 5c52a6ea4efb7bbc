-- ===== src/Tl/RoundTrip.antt =====
-- What the reader and the writer of mtproto/tl.go promise one another.
use mt_pro_go.Prelude.{
  ℕ, ◌+◌, ◌-◌, ◌%◌, ◌^◌, ◌≤◌, ◌<◌, ◌≡◌, sym, ap, ◌∙◌, arith, zero, suc, String, List, ◌++◌, length,
  ok, inl, inr, append_assoc, drop-length_append, length-append, length-take, length-drop, drop,
  ltb, Bool-cases,
}
use mt_pro_go.Prelude.Word.{le_bytes, length-le_bytes}
use mt_pro_go.Tl.Writer.{put_bytes, put_bytes-append, bytes_encoding, padding, padding_fills}
use mt_pro_go.Tl.Reader.{Reader, bytes, next}
use mt_pro_go.Tl.Reads.{Reads-bytes}

-- Reading at the place where `putBytes` wrote returns the bytes, and stops just behind them,
-- whatever stands before and after, for fewer than 2^24 bytes.
pub bytes-put_bytes :
    (before v after : List ℕ)
    → length v < 2 ^ 24
    → bytes (record { buf = put_bytes v before ++ after; off = length before })
      ≡ ok (v, record { buf = put_bytes v before ++ after; off = length (put_bytes v before) })
bytes-put_bytes before v after h =
    (Reads-bytes v h).at r after (omega (arith, length-append (put_bytes v before) after, longer))
      split
    ∙ ap (λ k. ok (v, record { buf = put_bytes v before ++ after; off = k })) (sym longer)
  where
    r : Reader
    r = record { buf = put_bytes v before ++ after; off = length before }

    longer : length (put_bytes v before) ≡ length before + length (bytes_encoding v)
    longer = ap length (put_bytes-append v before) ∙ length-append before (bytes_encoding v)

    split : drop (length before) (put_bytes v before ++ after) ≡ bytes_encoding v ++ after
    split =
        ap (λ b. drop (length before) (b ++ after)) (put_bytes-append v before)
        ∙ ap (drop (length before)) (append_assoc before (bytes_encoding v) after)
        ∙ drop-length_append before (bytes_encoding v ++ after)

length-padding-le : (rounds total : ℕ) → length (padding rounds total) ≤ rounds
unfolding padding
length-padding-le zero total = omega arith
length-padding-le (suc rounds) total = ground (arith, length-padding-le rounds (total + 1))

encoding_shape :
    (v : List ℕ)
    → (length (bytes_encoding v) % 4 ≡ 0)
      × (length v < length (bytes_encoding v))
      × (length (bytes_encoding v) ≤ length v + 7)
unfolding bytes_encoding
encoding_shape v = elim (Bool-cases (ltb (length v) 254)) [
  | inl short ↦ rw short (
      omega (
        arith,
        length-append v (padding 3 (1 + length v)),
        length-padding-le 3 (1 + length v),
        padding_fills (1 + length v),
      ))
  | inr long ↦ rw long (
      omega (
        arith,
        length-append (le_bytes 3 (length v)) (v ++ padding 3 (4 + length v)),
        length-le_bytes 3 (length v),
        length-append v (padding 3 (4 + length v)),
        length-padding-le 3 (4 + length v),
        padding_fills (4 + length v),
      ))
]

-- What `putBytes` appends to a buffer is a multiple of 4 bytes long: it is longer than the bytes
-- themselves, by at most 7.
pub put_bytes_aligned :
    (v b : List ℕ)
    → ((length (put_bytes v b) - length b) % 4 ≡ 0)
      × (length b + length v < length (put_bytes v b))
      × (length (put_bytes v b) ≤ length b + length v + 7)
put_bytes_aligned v b =
    rw (put_bytes-append v b) (omega (arith, length-append b (bytes_encoding v), encoding_shape v))

-- A read of `n` bytes returns that many, and ends inside the buffer.
pub next-length :
    (n : ℕ) (text : String) (r r' : Reader) (v : List ℕ)
    → next n text r ≡ ok (v, r')
    → (length v ≡ n) × (r'.buf ≡ r.buf) × (r'.off ≡ r.off + n) × (r'.off ≤ length r.buf)
unfolding next
next-length n text r r' v e =
    ground (arith, length-take n (drop r.off r.buf), length-drop r.off r.buf)
