-- ===== src/Tl/TooLong.antt =====
-- mtproto/tl.go: `putBytes` writes the low 24 bits of a length. Of 2^24 bytes or more it writes a
-- header that `bytes` reads as a smaller length.
use mt_pro_go.Prelude.{
  ℕ, ◌+◌, ◌^◌, ◌≤◌, ◌<◌, ◌≡◌, ◌≢◌, refl, arith, ◌∙◌, sym, length-drop, append_assoc, List, [], ◌∷◌,
  ◌++◌, length, ok, and_then, and_then-eq-ok, le→ltb, ap,
}
use mt_pro_go.Prelude.Word.{le_bytes, le_value, length-le_bytes}
use mt_pro_go.Tl.Writer.{put_bytes, put_bytes-append, bytes_encoding, padding}
use mt_pro_go.Tl.Reader.{
  Reader, new_reader, advance, rest_of, bytes, bytes_after, next, payload, skip_padding, value,
  ◌>>=◌, pure,
}
use mt_pro_go.Tl.Reads.{Reads-next, rest_of-advance}
use mt_pro_go.Tl.RoundTrip.{next-length}

payload-length :
    (header n : ℕ) (r r' : Reader) (v : List ℕ) → payload header n r ≡ ok (v, r') → length v ≡ n
unfolding payload ◌>>=◌ pure
payload-length header n r r' v e =
    let (p, ep, eq) = and_then-eq-ok (next n _ r) _ e in
    let (q, eq', ev) = and_then-eq-ok (skip_padding 3 (header + n) p.1) _ eq in
    let got : v ≡ p.0 = cc ev in ap length got ∙ (next-length n _ r p.1 p.0 ep).0

three_bytes-lt : (n : ℕ) → le_value (le_bytes 3 n) < 2 ^ 24
unfolding le_bytes le_value
three_bytes-lt n = omega arith

long_encoding :
    (v : List ℕ)
    → 2 ^ 24 ≤ length v
    → bytes_encoding v ≡ (254 ∷ []) ++ (le_bytes 3 (length v) ++ (v ++ padding 3 (4 + length v)))
unfolding bytes_encoding
long_encoding v h = rw (le→ltb (length v) 254 (omega arith))

-- The read of the long header, and then of as many bytes as it says.
long_read :
    (n : ℕ) (r r' : Reader) (v rest : List ℕ)
    → r.off ≤ length r.buf
    → rest_of r ≡ (254 ∷ []) ++ (le_bytes 3 n ++ rest)
    → bytes r ≡ ok (v, r')
    → length v ≡ le_value (le_bytes 3 n)
unfolding bytes bytes_after ◌>>=◌ le_value
long_read n r r' v rest fits e got =
    let first =
      (Reads-next 1 (254 ∷ []) "tl: not enough bytes for bytes length" refl).at r
        (le_bytes 3 n ++ rest) fits e in
    let r₁ = advance 1 r in
    let e₁ = rest_of-advance r (254 ∷ []) (le_bytes 3 n ++ rest) e in
    let fits₁ : r₁.off ≤ length r₁.buf = omega (arith, ap length e, length-drop r.off r.buf) in
    let second =
      (Reads-next 3 (le_bytes 3 n) "tl: not enough bytes for long bytes length"
          (length-le_bytes 3 n)).at
        r₁ rest fits₁ e₁ in
    payload-length 4 (le_value (le_bytes 3 n)) (advance (length (le_bytes 3 n)) r₁) r' v (
      sym (ap (λ q. and_then q (λ p. payload 4 (le_value p.0) p.1)) second)
      ∙ sym (ap (λ q. and_then q (λ p. bytes_after p.0 p.1)) first)
      ∙ got)

-- Bytes that are 2^24 long or longer are never read back: `putBytes` silently drops the high bits
-- of their length.
pub bytes-put_bytes_too_long :
    (v after : List ℕ)
    → 2 ^ 24 ≤ length v
    → value (bytes (new_reader (put_bytes v [] ++ after))) ≢ ok v
bytes-put_bytes_too_long v after h e =
    let r = new_reader (put_bytes v [] ++ after) in
    let ((w, r'), read, same) = and_then-eq-ok (bytes r) (λ q. ok q.0) e in
    let back : v ≡ w = cc same in
    let split : rest_of r
        ≡ (254 ∷ []) ++ (le_bytes 3 (length v) ++ ((v ++ padding 3 (4 + length v)) ++ after)) =
      ap (λ b. b ++ after) (put_bytes-append v [] ∙ long_encoding v h)
      ∙ append_assoc (254 ∷ []) _ after
      ∙ ap (◌∷◌ 254) (append_assoc (le_bytes 3 (length v)) _ after) in
    omega (
      arith,
      three_bytes-lt (length v),
      ap length back,
      long_read (length v) r r' w _ (omega arith) split read,
    )
