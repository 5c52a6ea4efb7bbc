-- ===== src/Difference/Query.antt =====
-- mtproto/difference.go, `makeUpdatesGetDifferenceQuery`.
use mt_pro_go.Prelude.{ℕ, Bool, List, [], if◌then◌else◌}
use mt_pro_go.Prelude.Int.{ℤ, pos, ltb_ℤ}
use mt_pro_go.Prelude.Word.{of_int32}
use mt_pro_go.State.{UpdatesState}
use mt_pro_go.Tl.Constructors.{constructor_updates_get_difference}
use mt_pro_go.Tl.Writer.{Write, ◌>>◌, put_int}

-- `if b { ... }` around writes.
abbrev pub write_if : Bool → Write → Write
write_if b w buf = if b then w buf else buf

unfoldable pub make_updates_get_difference_query : UpdatesState → ℤ → List ℕ
make_updates_get_difference_query state pts_limit =
    let limited = ltb_ℤ (pos 0) pts_limit in
    (put_int constructor_updates_get_difference
        >> put_int (if limited then 2 else 0)
        >> put_int (of_int32 state.pts)
        >> write_if limited (put_int (of_int32 pts_limit))
        >> put_int (of_int32 state.date)
        >> put_int (of_int32 state.qts))
      []
