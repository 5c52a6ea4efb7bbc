-- ===== src/State.antt =====
-- mtproto/state.go and the search for a state in mtproto/peers.go: `updates.state`.
use mt_pro_go.Prelude.{
  ℕ, zero, suc, ◌+◌, ◌-◌, ◌*◌, ◌^◌, ◌≤◌, ◌<◌, ◌/◌, ◌≡◌, refl, ap, sym, ◌∙◌, arith, List, [], ◌∷◌,
  ◌++◌, Bool, true, Option, none, some, ltb, ◌==◌, if◌then◌else◌, length, take, drop, Result, ok,
  err, Error, msg, msg_num, and_then,
}
use mt_pro_go.Prelude.Int.{ℤ, pos}
use mt_pro_go.Prelude.Word.{
  to_int32, of_int32, le_value, le_bytes, IsI32, of_int32-lt, to_int32-of_int32,
}
use mt_pro_go.Tl.Constructors.{constructor_updates_state}
use mt_pro_go.Tl.Writer.{Write, put_int}
use mt_pro_go.Tl.Reader.{Parse, ◌>>=◌, ◌>>◌, pure, fail, value, new_reader, int}
use mt_pro_go.Tl.Reads.{Reads, Reads-bind, Reads-int, Reads-pure, Reads-whole, Reads-end, join}
pub mod Scan
pub mod Found

pub record UpdatesState : Type 0 where
  pub pts : ℤ
  pub qts : ℤ
  pub date : ℤ
  pub seq : ℤ
  pub unread_count : ℤ
  pub raw : List ℕ

-- `UpdatesState{Date: date, Seq: seq}` and the like leave the other fields zero.
abbrev pub zero_state : UpdatesState
zero_state = record {
  pts = pos 0;
  qts = pos 0;
  date = pos 0;
  seq = pos 0;
  unread_count = pos 0;
  raw = [];
}

-- The constructor has been read.
unfoldable pub state_fields : List ℕ → ℕ → Parse UpdatesState
state_fields body constructor =
    let fields = do
      pts ← int
      qts ← int
      date ← int
      seq ← int
      unread ← int
      pure (record {
        pts = to_int32 pts;
        qts = to_int32 qts;
        date = to_int32 date;
        seq = to_int32 seq;
        unread_count = to_int32 unread;
        raw = body;
      })
    in if constructor == constructor_updates_state
      then fields
      else fail (msg_num "mtproto: expected updates.state, got 0x%08x" constructor)

unfoldable pub parse_updates_state : List ℕ → Result UpdatesState
parse_updates_state body = value ((int >>= state_fields body) (new_reader body))

-- The bytes of `updates.state` in the schema.
abbrev pub state_bytes : ℤ → ℤ → ℤ → ℤ → ℤ → List ℕ
state_bytes pts qts date seq unread =
    le_bytes 4 constructor_updates_state
    ++ (le_bytes 4 (of_int32 pts)
        ++ (le_bytes 4 (of_int32 qts)
            ++ (le_bytes 4 (of_int32 date)
                ++ (le_bytes 4 (of_int32 seq) ++ (le_bytes 4 (of_int32 unread) ++ [])))))

-- The same as the parser gives it: each word read back as an `int32`.
Reads-state :
    (body : List ℕ) (pts qts date seq unread : ℤ)
    → Reads (int >>= state_fields body) (state_bytes pts qts date seq unread) (record {
      pts = to_int32 (of_int32 pts);
      qts = to_int32 (of_int32 qts);
      date = to_int32 (of_int32 date);
      seq = to_int32 (of_int32 seq);
      unread_count = to_int32 (of_int32 unread);
      raw = body;
    })
unfolding state_fields
Reads-state body pts qts date seq unread =
    Reads-bind _ _ (Reads-int constructor_updates_state (omega arith)) (
      Reads-bind _ _ (Reads-int (of_int32 pts) (of_int32-lt pts)) (
        Reads-bind _ _ (Reads-int (of_int32 qts) (of_int32-lt qts)) (
          Reads-bind _ _ (Reads-int (of_int32 date) (of_int32-lt date)) (
            Reads-bind _ _ (Reads-int (of_int32 seq) (of_int32-lt seq))
              (Reads-bind _ _ (Reads-int (of_int32 unread) (of_int32-lt unread)) (Reads-pure _))))))

-- The five fields of an `updates.state` are read back, whatever follows it.
pub parse_updates_state-bytes :
    (pts qts date seq unread : ℤ) (rest : List ℕ)
    → IsI32 pts
    → IsI32 qts
    → IsI32 date
    → IsI32 seq
    → IsI32 unread
    → parse_updates_state (state_bytes pts qts date seq unread ++ rest)
      ≡ ok (record {
        pts = pts;
        qts = qts;
        date = date;
        seq = seq;
        unread_count = unread;
        raw = state_bytes pts qts date seq unread ++ rest;
      })
unfolding parse_updates_state
parse_updates_state-bytes pts qts date seq unread rest hp hq hd hs hu =
    Reads-whole rest
      (Reads-state (state_bytes pts qts date seq unread ++ rest) pts qts date seq unread)
    ∙ rw
        (
          to_int32-of_int32 pts hp,
          to_int32-of_int32 qts hq,
          to_int32-of_int32 date hd,
          to_int32-of_int32 seq hs,
          to_int32-of_int32 unread hu,
        )
        refl
