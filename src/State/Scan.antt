-- ===== src/State/Scan.antt =====
-- mtproto/peers.go, `scanUpdatesState`: the last state that stands on a step of four bytes from
-- the end of the body.
use mt_pro_go.Prelude.{
  ℕ, zero, suc, ◌+◌, ◌-◌, List, Option, none, some, ltb, ◌==◌, if◌then◌else◌, length, take, drop,
}
use mt_pro_go.Prelude.Word.{to_int32}
use mt_pro_go.Peers.{uint32_at}
use mt_pro_go.State.{UpdatesState}
use mt_pro_go.Tl.Constructors.{constructor_updates_state}

unfoldable pub state_at : List ℕ → ℕ → UpdatesState
state_at body off = record {
  pts = to_int32 (uint32_at body (off + 4));
  qts = to_int32 (uint32_at body (off + 8));
  date = to_int32 (uint32_at body (off + 12));
  seq = to_int32 (uint32_at body (off + 16));
  unread_count = to_int32 (uint32_at body (off + 20));
  raw = take 24 (drop off body);
}

-- `for off := len(body) - 24; off >= 0; off -= 4`, with `off + 24 <= len(body)` in every round.
-- One unit of fuel for each byte is enough.
unfoldable pub scan_state_from : ℕ → List ℕ → ℕ → Option UpdatesState
scan_state_from zero body off = none
scan_state_from (suc fuel) body off =
    let rest = scan_state_from fuel body (off - 4) in
    if uint32_at body off == constructor_updates_state
    then some (state_at body off)
    else if ltb off 4
    then none
    else rest

unfoldable pub scan_updates_state : List ℕ → Option UpdatesState
scan_updates_state body =
    if ltb (length body) 24 then none else scan_state_from (length body) body (length body - 24)
