-- ===== src/Abridged.antt =====
-- mtproto/abridged.go: packets on a TCP connection in the abridged framing.
pub mod RoundTrip
use mt_pro_go.Prelude.{
  ℕ, suc, zero, ◌+◌, ◌*◌, ◌/◌, ◌%◌, ◌^◌, List, [], ◌∷◌, ◌++◌, Bool, true, false, length, take, drop,
  ltb, ◌==◌, if◌then◌else◌, Result, ok, err, Error, msg, and_then, not,
}
use mt_pro_go.Prelude.Word.{le_value}

-- A `net.Conn`: the bytes that the peer has sent and nobody has read, the bytes that were written,
-- and whether writes fail.
pub record Conn : Type 0 where
  pub incoming : List ℕ
  pub sent : List ℕ
  pub broken : Bool

-- `conn.Write`.
unfoldable pub write : List ℕ → Conn → Result Conn
write bs conn =
    if conn.broken then err (msg "write") else ok (record conn { sent = conn.sent ++ bs })

-- `io.ReadFull` into a slice of `n` bytes.
unfoldable pub read_full : ℕ → Conn → Result (List ℕ × Conn)
read_full n conn =
    if ltb (length conn.incoming) n
    then err (msg "EOF")
    else ok (take n conn.incoming, record conn { incoming = drop n conn.incoming })

unfoldable pub abridged_init : Conn → Result Conn
abridged_init conn = write (0xef ∷ []) conn

abbrev pub write_both : List ℕ → List ℕ → Conn → Result Conn
write_both header body conn = and_then (write header conn) (write body)

unfoldable pub abridged_write : List ℕ → Conn → Result Conn
abridged_write body conn =
    if not (length body % 4 == 0)
    then err (msg "abridged packet length must be divisible by 4")
    else let size = length body / 4 in
      if ltb size 127
      then write_both ((size % 256) ∷ []) body conn
      else if ltb 0xffffff size
      then err (msg "abridged packet too large")
      else write_both (0x7f ∷ (size % 256) ∷ (size / 2 ^ 8 % 256) ∷ (size / 2 ^ 16 % 256) ∷ []) body
          conn

-- The payload behind a header that gave its length in words.
unfoldable pub read_payload : ℕ → Conn → Result (List ℕ × Conn)
read_payload size conn =
    if size == 0 then err (msg "abridged invalid length") else read_full (size * 4) conn

unfoldable pub abridged_read : Conn → Result (List ℕ × Conn)
abridged_read conn = and_then (read_full 1 conn) (λ p.
    let size = le_value p.0 in
    if size == 0x7f
    then and_then (read_full 3 p.1) (λ q. read_payload (le_value q.0) q.1)
    else read_payload size p.1)
