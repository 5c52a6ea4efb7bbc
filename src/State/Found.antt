-- ===== src/State/Found.antt =====
-- mtproto/peers.go, `scanUpdatesState`: it finds a state at the end of a response.
use mt_pro_go.Prelude.{
  ℕ, suc, ◌+◌, ◌-◌, ◌^◌, ◌<◌, ◌≡◌, refl, ap, ◌∙◌, arith, List, ◌++◌, some, length, take, drop,
  drop-drop, drop-length_append, length-append, ltb, le→ltb, false,
}
use mt_pro_go.Prelude.Int.{ℤ}
use mt_pro_go.Prelude.Word.{
  of_int32, le_bytes, le_value, IsI32, of_int32-lt, to_int32-of_int32, le_value-le_bytes,
}
use mt_pro_go.Peers.{uint32_at}
use mt_pro_go.State.{state_bytes}
use mt_pro_go.State.Scan.{state_at, scan_state_from, scan_updates_state}
use mt_pro_go.Tl.Constructors.{constructor_updates_state}

-- The word that stands `k` bytes behind the front.
word_behind :
    (front bs : List ℕ) (k v : ℕ)
    → take 4 (drop k bs) ≡ le_bytes 4 v
    → v < 2 ^ 32
    → uint32_at (front ++ bs) (length front + k) ≡ v
unfolding uint32_at
word_behind front bs k v e h =
    ap (λ l. le_value (take 4 l))
      (drop-drop (length front) k (front ++ bs) ∙ ap (drop k) (drop-length_append front bs))
    ∙ ap le_value e
    ∙ le_value-le_bytes 4 v h

-- The fields of the state behind the front.
state_at-bytes :
    (front : List ℕ) (pts qts date seq unread : ℤ)
    → IsI32 pts
    → IsI32 qts
    → IsI32 date
    → IsI32 seq
    → IsI32 unread
    → state_at (front ++ state_bytes pts qts date seq unread) (length front) ≡ record {
      pts = pts;
      qts = qts;
      date = date;
      seq = seq;
      unread_count = unread;
      raw = state_bytes pts qts date seq unread;
    }
unfolding state_at le_bytes
state_at-bytes front pts qts date seq unread hp hq hd hs hu =
    let bs = state_bytes pts qts date seq unread in
    rw
      (
        word_behind front bs 4 (of_int32 pts) refl (of_int32-lt pts),
        word_behind front bs 8 (of_int32 qts) refl (of_int32-lt qts),
        word_behind front bs 12 (of_int32 date) refl (of_int32-lt date),
        word_behind front bs 16 (of_int32 seq) refl (of_int32-lt seq),
        word_behind front bs 20 (of_int32 unread) refl (of_int32-lt unread),
        to_int32-of_int32 pts hp,
        to_int32-of_int32 qts hq,
        to_int32-of_int32 date hd,
        to_int32-of_int32 seq hs,
        to_int32-of_int32 unread hu,
        drop-length_append front bs,
      )
      refl

-- A state that ends a response is found there, whatever stands before it.
pub scan_updates_state-bytes :
    (front : List ℕ) (pts qts date seq unread : ℤ)
    → IsI32 pts
    → IsI32 qts
    → IsI32 date
    → IsI32 seq
    → IsI32 unread
    → scan_updates_state (front ++ state_bytes pts qts date seq unread)
      ≡ some (record {
        pts = pts;
        qts = qts;
        date = date;
        seq = seq;
        unread_count = unread;
        raw = state_bytes pts qts date seq unread;
      })
unfolding scan_updates_state
scan_updates_state-bytes front pts qts date seq unread hp hq hd hs hu =
    let bs = state_bytes pts qts date seq unread in
    let size : length (front ++ bs) ≡ suc (length front + 23) = whole in
    let off : suc (length front + 23) - 24 ≡ length front = omega arith in
    let enough : ltb (suc (length front + 23)) 24 ≡ false = le→ltb _ 24 (omega arith) in
    rw (size, enough, off) (here (length front + 23))
  where
    sized : length (state_bytes pts qts date seq unread) ≡ 24
    sized = unfold le_bytes in refl

    whole : length (front ++ state_bytes pts qts date seq unread) ≡ suc (length front + 23)
    whole = omega (arith, length-append front (state_bytes pts qts date seq unread), sized)

    first :
        uint32_at (front ++ state_bytes pts qts date seq unread) (length front)
        ≡ constructor_updates_state
    first =
        unfold le_bytes in
        ap (uint32_at (front ++ state_bytes pts qts date seq unread)) (omega arith)
        ∙ word_behind front (state_bytes pts qts date seq unread) 0 constructor_updates_state refl
            (omega arith)

    here :
        (fuel : ℕ)
        → scan_state_from (suc fuel) (front ++ state_bytes pts qts date seq unread) (length front)
          ≡ some (record {
            pts = pts;
            qts = qts;
            date = date;
            seq = seq;
            unread_count = unread;
            raw = state_bytes pts qts date seq unread;
          })
    here fuel =
        unfold scan_state_from in
        rw first (ap some (state_at-bytes front pts qts date seq unread hp hq hd hs hu))
