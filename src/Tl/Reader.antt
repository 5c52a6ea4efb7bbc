-- ===== src/Tl/Reader.antt =====
-- mtproto/tl.go, `tlReader`: a buffer and the offset of the next byte. A method returns its value
-- with the reader that it leaves behind, or an error. No caller looks at a reader after an error,
-- so an error carries none. `len(r.buf)-r.off < n` is written `length buf < off + n`.
use mt_pro_go.Prelude.{
  ℕ, zero, suc, ◌+◌, ◌%◌, List, [], String, ltb, ◌==◌, if◌then◌else◌, length, take, drop, leb,
  Result, ok, err, Error, msg, and_then,
}
use mt_pro_go.Prelude.Word.{le_value}

pub record Reader : Type 0 where
  pub buf : List ℕ
  pub off : ℕ

abbrev pub new_reader : List ℕ → Reader
new_reader buf = record { buf = buf; off = 0 }

abbrev pub Parse : Type 0 → Type 0
Parse A = Reader → Result (A × Reader)

infixl 5 ◌>>=◌ ◌>>◌
unfoldable pub ◌>>=◌ : {A B : Type 0} → Parse A → (A → Parse B) → Parse B
◌>>=◌ m f r = and_then (m r) (λ p. f p.0 p.1)

abbrev pub ◌>>◌ : {A B : Type 0} → Parse A → Parse B → Parse B
m >> k = m >>= λ _. k

unfoldable pub pure : {A : Type 0} → A → Parse A
pure a r = ok (a, r)

unfoldable pub fail : {A : Type 0} → Error → Parse A
fail e r = err e

-- The value part of a result, for a parse that ends a Go function.
abbrev pub value : {A : Type 0} → Result (A × Reader) → Result A
value p = and_then p (λ q. ok q.0)

abbrev pub advance : ℕ → Reader → Reader
advance n r = record r { off = r.off + n }

-- The bytes that are still to be read.
abbrev pub rest_of : Reader → List ℕ
rest_of r = drop r.off r.buf

-- The check that each method makes first, then `r.buf[r.off : r.off+n]` and `r.off += n`.
unfoldable pub next : ℕ → String → Parse (List ℕ)
next n text r =
    if ltb (length r.buf) (r.off + n) then err (msg text) else ok (take n (rest_of r), advance n r)

unfoldable pub int : Parse ℕ
int = next 4 "tl: not enough bytes for int" >>= λ v. pure (le_value v)

unfoldable pub long : Parse ℕ
long = next 8 "tl: not enough bytes for long" >>= λ v. pure (le_value v)

unfoldable pub raw : ℕ → Parse (List ℕ)
raw n = next n "tl: not enough bytes for raw"

-- The padding loop of `bytes`, over `header + n`; three rounds reach a multiple of 4.
unfoldable pub skip_padding : ℕ → ℕ → Parse (Unit {0})
skip_padding zero total = pure tt
skip_padding (suc rounds) total =
    let more =
      (next 1 "tl: not enough bytes for bytes padding" >> skip_padding rounds (total + 1)) in
    if total % 4 == 0 then pure tt else more

-- The payload and the padding behind a header of `header` bytes that says `n`.
unfoldable pub payload : ℕ → ℕ → Parse (List ℕ)
payload header n = do
  v ← next n "tl: not enough bytes for bytes payload"
  skip_padding 3 (header + n)
  pure v

-- What follows the first byte: the length itself, or the mark of a length in three more bytes.
unfoldable pub bytes_after : List ℕ → Parse (List ℕ)
bytes_after first =
    if ltb (le_value first) 254
    then payload 1 (le_value first)
    else next 3 "tl: not enough bytes for long bytes length" >>= λ b. payload 4 (le_value b)

unfoldable pub bytes : Parse (List ℕ)
bytes = next 1 "tl: not enough bytes for bytes length" >>= bytes_after

unfoldable pub string : Parse (List ℕ)
string = bytes

unfoldable pub remaining : Reader → List ℕ
remaining r = if leb (length r.buf) r.off then [] else drop r.off r.buf

-- Opened by a test that runs a parse.
unfoldable pub parsing : Unit {0}
unfolding ◌>>=◌ pure fail next int long raw skip_padding payload bytes_after bytes string remaining
    le_value
parsing = tt
