-- ===== src/Abridged/RoundTrip.antt =====
-- mtproto/abridged.go: what is written is read back, packet by packet.
use mt_pro_go.Prelude.{
  ℕ, zero, suc, ◌*◌, ◌/◌, ◌%◌, ◌^◌, ◌≤◌, ◌<◌, ◌≡◌, ◌≢◌, ◌↔◌, refl, drop, sym, ap, ◌∙◌, arith, List,
  [], ◌∷◌, ◌++◌, All, true, false, length, ltb, ◌==◌, if◌then◌else◌, Result, ok, err, and_then,
  append_assoc, msg, append-nil, length-append, take-length_append, drop-length_append, Bool-cases,
  inl, inr,
}
use mt_pro_go.Prelude.Word.{le_bytes, le_value, length-le_bytes, le_value-le_bytes}
use mt_pro_go.Abridged.{Conn, write, read_full, abridged_write, read_payload, abridged_read}

-- The payloads that the framing can carry.
abbrev pub IsPacket : List ℕ → Type 0
IsPacket body = (0 < length body) × (length body % 4 ≡ 0) × (length body / 4 ≤ 0xffffff)

-- A packet on the wire: its length in words in one byte or in four, and the payload.
unfoldable pub frame : List ℕ → List ℕ
frame body =
    if ltb (length body / 4) 127
    then (length body / 4) ∷ body
    else 0x7f ∷ (le_bytes 3 (length body / 4) ++ body)

pub frames : List (List ℕ) → List ℕ
frames [] = []
frames (p ∷ ps) = frame p ++ frames ps

three : (n : ℕ) → le_bytes 3 n ≡ (n % 256) ∷ (n / 2 ^ 8 % 256) ∷ (n / 2 ^ 16 % 256) ∷ []
unfolding le_bytes
three n = ap (λ k. (n % 256) ∷ (n / 256 % 256) ∷ (k % 256) ∷ []) (omega arith)

-- A packet that the framing can carry is written whole, as its frame, on a working connection.
pub abridged_write-frame :
    (body : List ℕ) (conn : Conn)
    → IsPacket body
    → conn.broken ≡ false
    → abridged_write body conn ≡ ok (record conn { sent = conn.sent ++ frame body })
unfolding abridged_write frame write
abridged_write-frame body conn (pos, aligned, fits) works = ground (
  arith,
  three (length body / 4),
  append_assoc conn.sent ((length body / 4 % 256) ∷ []) body,
  append_assoc conn.sent (0x7f ∷ le_bytes 3 (length body / 4)) body,
)

read_full-append :
    (bs rest : List ℕ) (conn : Conn)
    → conn.incoming ≡ bs ++ rest
    → read_full (length bs) conn ≡ ok (bs, record conn { incoming = rest })
unfolding read_full
read_full-append bs rest conn e =
    ground (arith, length-append bs rest, take-length_append bs rest, drop-length_append bs rest)

read_payload-body :
    (n : ℕ) (body rest : List ℕ) (conn : Conn)
    → n ≢ 0
    → length body ≡ n * 4
    → conn.incoming ≡ body ++ rest
    → read_payload n conn ≡ ok (body, record conn { incoming = rest })
unfolding read_payload
read_payload-body n body rest conn h size e = ground (arith, read_full-append body rest conn e)

read_short :
    (body rest : List ℕ) (conn : Conn)
    → 0 < length body
    → length body % 4 ≡ 0
    → ltb (length body / 4) 127 ≡ true
    → conn.incoming ≡ ((length body / 4) ∷ []) ++ (body ++ rest)
    → abridged_read conn ≡ ok (body, record conn { incoming = rest })
unfolding abridged_read le_value
read_short body rest conn pos aligned short e = ground (
  arith,
  read_full-append ((length body / 4) ∷ []) (body ++ rest) conn e,
  read_payload-body (length body / 4) body rest (record conn { incoming = body ++ rest }),
)

read_long :
    (body rest : List ℕ) (conn : Conn)
    → 0 < length body
    → length body % 4 ≡ 0
    → length body / 4 ≤ 0xffffff
    → ltb (length body / 4) 127 ≡ false
    → conn.incoming ≡ (0x7f ∷ []) ++ (le_bytes 3 (length body / 4) ++ (body ++ rest))
    → abridged_read conn ≡ ok (body, record conn { incoming = rest })
unfolding abridged_read
read_long body rest conn pos aligned fits long e = ground (
  arith,
  one,
  read_full-append (0x7f ∷ []) (le_bytes 3 (length body / 4) ++ (body ++ rest)) conn e,
  read_three,
  le_value-le_bytes 3 (length body / 4),
  read_payload-body (length body / 4) body rest (record conn { incoming = body ++ rest }),
)
  where
    one : le_value (0x7f ∷ []) ≡ 0x7f
    one = unfold le_value in refl

    after : Conn
    after = record conn { incoming = le_bytes 3 (length body / 4) ++ (body ++ rest) }

    read_three :
        read_full 3 after
        ≡ ok (le_bytes 3 (length body / 4), record conn { incoming = body ++ rest })
    read_three =
        rw (length-le_bytes 3 (length body / 4)) at
          (read_full-append (le_bytes 3 (length body / 4)) (body ++ rest) after refl)

-- What the reader returns on a frame, whatever follows it.
pub abridged_read-frame :
    (body rest : List ℕ) (conn : Conn)
    → IsPacket body
    → conn.incoming ≡ frame body ++ rest
    → abridged_read conn ≡ ok (body, record conn { incoming = rest })
unfolding abridged_read frame
abridged_read-frame body rest conn (pos, aligned, fits) e =
    elim (Bool-cases (ltb (length body / 4) 127)) [
      | inl short ↦ read_short body rest conn pos aligned short (rw (short, frame) at e)
      | inr long ↦
          read_long body rest conn pos aligned fits long
            (rw (long, frame) at e ∙ ap (◌∷◌ 0x7f) (append_assoc _ body rest))
    ]

-- A reader of a stream of packets, `n` of them.
pub read_packets : ℕ → Conn → Result (List (List ℕ))
read_packets zero conn = ok []
read_packets (suc n) conn =
    and_then (abridged_read conn) (λ p. and_then (read_packets n p.1) (λ ps. ok (p.0 ∷ ps)))

unfoldable pub write_packets : List (List ℕ) → Conn → Result Conn
write_packets [] conn = ok conn
write_packets (p ∷ ps) conn = and_then (abridged_write p conn) (write_packets ps)

write_packets-frames :
    (ps : List (List ℕ)) (conn : Conn)
    → All IsPacket ps
    → conn.broken ≡ false
    → write_packets ps conn ≡ ok (record conn { sent = conn.sent ++ frames ps })
unfolding write_packets frames
write_packets-frames [] conn h works =
    ap (λ b. ok (record conn { sent = b })) (sym (append-nil conn.sent))
write_packets-frames (p ∷ ps) conn (hp, hps) works =
    let next = record conn { sent = conn.sent ++ frame p } in
    ap (λ q. and_then q (write_packets ps)) (abridged_write-frame p conn hp works)
    ∙ write_packets-frames ps next hps works
    ∙ ap (λ b. ok (record conn { sent = b })) (append_assoc conn.sent (frame p) (frames ps))

read_packets-frames :
    (ps : List (List ℕ)) (rest : List ℕ) (conn : Conn)
    → All IsPacket ps
    → conn.incoming ≡ frames ps ++ rest
    → read_packets (length ps) conn ≡ ok ps
unfolding read_packets frames
read_packets-frames [] rest conn h e = refl
read_packets-frames (p ∷ ps) rest conn (hp, hps) e =
    let e' = e ∙ append_assoc (frame p) (frames ps) rest in
    rw (abridged_read-frame p (frames ps ++ rest) conn hp e') (
      rw (read_packets-frames ps rest (record conn { incoming = frames ps ++ rest }) hps refl) refl)

ok_injective : {A : Type 0} {a b : A} → ok a ≡ ok b → a ≡ b
ok_injective e = cc

-- Packets with a payload of at least one and at most 2^24 - 1 whole words, written one after the
-- other on a connection, are read at the other end, as many and in the same order, when what was
-- sent before them has been read there, and whatever the writer sends after them.
pub read_packets-write_packets :
    (ps : List (List ℕ)) (more : List ℕ) (near far sent : Conn)
    → All IsPacket ps
    → write_packets ps near ≡ ok sent
    → near.broken ≡ false
    → far.incoming ≡ drop (length near.sent) sent.sent ++ more
    → read_packets (length ps) far ≡ ok ps
read_packets-write_packets ps more near far sent h wrote works wire =
    let written : sent.sent ≡ near.sent ++ frames ps =
      ap (λ c. c.sent) (ok_injective (sym wrote ∙ write_packets-frames ps near h works)) in
    read_packets-frames ps more far h (
      wire
      ∙ ap (λ b. b ++ more)
          (ap (drop (length near.sent)) written ∙ drop-length_append near.sent (frames ps)))

-- What the other end of a connection reads when a payload is written and `more` follows it.
abbrev pub through : List ℕ → List ℕ → Conn → Conn → Result (List ℕ × Conn)
through body more near far =
    and_then (abridged_write body near)
      (λ sent. abridged_read (record far { incoming = drop (length near.sent) sent.sent ++ more }))

through-packet :
    (body more : List ℕ) (near far : Conn)
    → near.broken ≡ false
    → IsPacket body
    → through body more near far ≡ ok (body, record far { incoming = more })
through-packet body more near far works h =
    rw (abridged_write-frame body near h works, drop-length_append near.sent (frame body))
      (abridged_read-frame body more (record far { incoming = frame body ++ more }) h refl)

read_zero :
    (more : List ℕ) (conn : Conn)
    → conn.incoming ≡ 0 ∷ more
    → abridged_read conn ≡ err (msg "abridged invalid length")
unfolding abridged_read read_payload le_value
read_zero more conn e = rw (read_full-append (0 ∷ []) more conn e) refl

-- The empty payload is written as a header that the other end refuses.
through-empty :
    (more : List ℕ) (near far : Conn)
    → near.broken ≡ false
    → through [] more near far ≡ err (msg "abridged invalid length")
unfolding abridged_write write
through-empty more near far works = rw works (
    rw (append-nil (near.sent ++ (0 ∷ [])), drop-length_append near.sent (0 ∷ []))
      (read_zero more (record far { incoming = 0 ∷ more }) refl))

abridged_write-unaligned :
    (body : List ℕ) (conn : Conn)
    → (length body % 4 == 0) ≡ false
    → abridged_write body conn ≡ err (msg "abridged packet length must be divisible by 4")
unfolding abridged_write
abridged_write-unaligned body conn h = ground (arith, h)

abridged_write-too_large :
    (body : List ℕ) (conn : Conn)
    → (length body % 4 == 0) ≡ true
    → 0xffffff < length body / 4
    → abridged_write body conn ≡ err (msg "abridged packet too large")
unfolding abridged_write
abridged_write-too_large body conn h large = ground (arith, h, large)

through-IsPacket :
    (body more : List ℕ) (near far : Conn)
    → near.broken ≡ false
    → through body more near far ≡ ok (body, record far { incoming = more })
    → IsPacket body
through-IsPacket [] more near far works h =
    absurd (let e = sym h ∙ through-empty more near far works in cc)
through-IsPacket (b ∷ bs) more near far works h =
    let body = b ∷ bs in
    elim (Bool-cases (length body % 4 == 0)) [
      | inr odd ↦ absurd (let h' = rw (abridged_write-unaligned body near odd) at h in cc)
      | inl aligned ↦ elim (Bool-cases (ltb 0xffffff (length body / 4))) [
        | inl large ↦ absurd (
            let h' = rw (abridged_write-too_large body near aligned (ground (arith, large))) at h in
            cc)
        | inr fits ↦ (omega arith, ground (arith, aligned), ground (arith, fits))
      ]
    ]

-- On a working connection, a payload arrives at the other end, with what follows it left to be
-- read, exactly if it is not empty, a whole number of words, and shorter than 2^24 words.
pub through_iff :
    (body more : List ℕ) (near far : Conn)
    → near.broken ≡ false
    → (through body more near far ≡ ok (body, record far { incoming = more })) ↔ IsPacket body
through_iff body more near far works =
    (through-IsPacket body more near far works, through-packet body more near far works)
