-- ===== src/Tl/Reads.antt =====
-- How a parse meets the bytes it expects: `Reads p bs a` says that wherever the bytes `bs` come
-- next, `p` returns `a` and moves the offset behind them. The rules follow the shape of a parser.
use mathlib.Core.Path.{subst, subst⁻¹, subst₂}
use mt_pro_go.Prelude.{
  append-nil, true, if◌then◌else◌, Bool-cases, inl, inr, ltb, ◌==◌, ℕ, zero, suc, ◌+◌, ◌^◌, ◌%◌,
  ◌≤◌, ◌<◌, ◌≡◌, refl, sym, ap, ◌∙◌, arith, List, [], ◌∷◌, ◌++◌, append_assoc, String, length, drop,
  ok, drop-drop, drop-length_append, take-length_append, length-append, length-drop, le→ltb,
  and_then,
}
use mt_pro_go.Prelude.Word.{le_bytes, le_value, length-le_bytes, le_value-le_bytes, IsU32, IsU64}
use mt_pro_go.Tl.Writer.{padding, bytes_encoding}
use mt_pro_go.Tl.Reader.{
  raw, skip_padding, payload, bytes, bytes_after, string, Reader, new_reader, Parse, ◌>>=◌, pure,
  advance, rest_of, next, int, long, raw, value,
}

pub record Reads {A : Type 0} (p : Parse A) (bs : List ℕ) (a : A) : Type 0 where
  pub at :
      (r : Reader) (rest : List ℕ)
      → r.off ≤ length r.buf
      → rest_of r ≡ bs ++ rest
      → p r ≡ ok (a, advance (length bs) r)

-- Byte strings one after the other, grouped to the right.
abbrev pub join : List (List ℕ) → List ℕ
join [] = []
join (b ∷ bs) = b ++ join bs

pub rest_of-advance :
    (r : Reader) (bs rest : List ℕ)
    → rest_of r ≡ bs ++ rest
    → rest_of (advance (length bs) r) ≡ rest
rest_of-advance r bs rest h =
    drop-drop r.off (length bs) r.buf ∙ ap (drop (length bs)) h ∙ drop-length_append bs rest

advance-zero : (r : Reader) → advance 0 r ≡ r
advance-zero r = ap (λ k. record r { off = k }) (omega arith)

advance-advance :
    (r : Reader) (bs cs : List ℕ)
    → advance (length cs) (advance (length bs) r) ≡ advance (length (bs ++ cs)) r
advance-advance r bs cs = ap (λ k. record r { off = k }) (omega (arith, length-append bs cs))

pub Reads-pure : {A : Type 0} (a : A) → Reads (pure a) [] a
unfolding pure
Reads-pure a = record { at = λ r rest _ h. ap (λ q. ok (a, q)) (sym (advance-zero r)) }

off_bound :
    (r : Reader) (bs rest : List ℕ)
    → r.off ≤ length r.buf
    → rest_of r ≡ bs ++ rest
    → r.off + length bs ≤ length r.buf
off_bound r bs rest v h = omega (arith, length-drop r.off r.buf, ap length h, length-append bs rest)

pub Reads-bind :
    {A B : Type 0} (m : Parse A) (f : A → Parse B) {bs cs : List ℕ} {a : A} {b : B}
    → Reads m bs a
    → Reads (f a) cs b
    → Reads (m >>= f) (bs ++ cs) b
unfolding ◌>>=◌
Reads-bind m f {bs} {cs} {a} {b} hm hf = record {
  at = λ r rest v h.
      let h' = h ∙ append_assoc bs cs rest in
      ap (λ q. and_then q (λ p. f p.0 p.1)) (hm.at r (cs ++ rest) v h')
      ∙ hf.at (advance (length bs) r) rest (off_bound r bs (cs ++ rest) v h')
          (rest_of-advance r bs (cs ++ rest) h')
      ∙ ap (λ q. ok (b, q)) (advance-advance r bs cs);
}

-- A parse of the whole input, from its first byte.
pub Reads-whole :
    {A : Type 0} {p : Parse A} {bs : List ℕ} {a : A} (rest : List ℕ)
    → Reads p bs a
    → value (p (new_reader (bs ++ rest))) ≡ ok a
Reads-whole {bs = bs} rest h = ap value (h.at (new_reader (bs ++ rest)) rest (omega arith) refl)

pub Reads-next : (n : ℕ) (bs : List ℕ) (text : String) → length bs ≡ n → Reads (next n text) bs bs
unfolding next
Reads-next n bs text e = rw (← e) (record {
  at = λ r rest v h. rw (le→ltb _ _ (off_bound r bs rest v h), h, take-length_append bs rest) refl;
})

Reads-word :
    (k v : ℕ) (text : String)
    → v < 256 ^ k
    → Reads (next k text >>= λ b. pure (le_value b)) (le_bytes k v) v
Reads-word k v text h =
    subst₂ (Reads (next k text >>= λ b. pure (le_value b))) (append-nil _) (le_value-le_bytes k v h)
      (Reads-bind _ _ (Reads-next k (le_bytes k v) text (length-le_bytes k v))
        (Reads-pure (le_value (le_bytes k v))))

pub Reads-int : (v : ℕ) → IsU32 v → Reads int (le_bytes 4 v) v
Reads-int v h = unfold int in Reads-word 4 v _ h

pub Reads-long : (v : ℕ) → IsU64 v → Reads long (le_bytes 8 v) v
Reads-long v h = unfold long in Reads-word 8 v _ h

pub Reads-raw : (n : ℕ) (bs : List ℕ) → length bs ≡ n → Reads (raw n) bs bs
Reads-raw n bs e = unfold raw in Reads-next n bs _ e

-- The last step of a parse that ends with `pure`.
pub Reads-end :
    {A : Type 0} {p : Parse A} {bs : List ℕ} {a : A} → Reads p (bs ++ []) a → Reads p bs a
Reads-end {p = p} {a = a} h = subst (λ cs. Reads p cs a) (append-nil _) h

Reads-padding : (rounds total : ℕ) → Reads (skip_padding rounds total) (padding rounds total) tt
unfolding skip_padding padding
Reads-padding zero total = Reads-pure tt
Reads-padding (suc rounds) total = elim (Bool-cases (total % 4 == 0)) [
  | inl done ↦ rw done (Reads-pure tt)
  | inr more ↦
      rw more (Reads-bind _ _ (Reads-next 1 (0 ∷ []) _ refl) (Reads-padding rounds (total + 1)))
]

Reads-payload :
    (header : ℕ) (v : List ℕ)
    → Reads (payload header (length v)) (v ++ padding 3 (header + length v)) v
unfolding payload
Reads-payload header v =
    Reads-bind _ _ (Reads-next (length v) v _ refl)
      (Reads-end (Reads-bind _ _ (Reads-padding 3 (header + length v)) (Reads-pure v)))

Reads-short :
    (v : List ℕ)
    → ltb (length v) 254 ≡ true
    → Reads (bytes_after (length v ∷ [])) (v ++ padding 3 (1 + length v)) v
unfolding bytes_after
Reads-short v short =
    subst⁻¹
      (λ n. Reads (if ltb n 254 then payload 1 n else long n) (v ++ padding 3 (1 + length v)) v) one
      (rw short (Reads-payload 1 v))
  where
    long : ℕ → Parse (List ℕ)
    long n = next 3 "tl: not enough bytes for long bytes length" >>= λ b. payload 4 (le_value b)

    one : le_value (length v ∷ []) ≡ length v
    one = unfold le_value in omega arith

Reads-long_form :
    (v : List ℕ)
    → length v < 2 ^ 24
    → Reads (bytes_after (254 ∷ [])) (le_bytes 3 (length v) ++ (v ++ padding 3 (4 + length v))) v
unfolding bytes_after le_value
Reads-long_form v h =
    Reads-bind _ _ (Reads-next 3 (le_bytes 3 (length v)) _ (length-le_bytes 3 (length v)))
      (rw (le_value-le_bytes 3 (length v) h) (Reads-payload 4 v))

-- `bytes` reads back what `putBytes` wrote, up to the 16 MiB that the long header can say.
pub Reads-bytes : (v : List ℕ) → length v < 2 ^ 24 → Reads bytes (bytes_encoding v) v
unfolding bytes bytes_encoding
Reads-bytes v h = elim (Bool-cases (ltb (length v) 254)) [
  | inl short ↦
      rw short (Reads-bind _ _ (Reads-next 1 (length v ∷ []) _ refl) (Reads-short v short))
  | inr long ↦ rw long (Reads-bind _ _ (Reads-next 1 (254 ∷ []) _ refl) (Reads-long_form v h))
]

pub Reads-string : (v : List ℕ) → length v < 2 ^ 24 → Reads string (bytes_encoding v) v
Reads-string v h = unfold string in Reads-bytes v h
