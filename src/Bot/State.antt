-- ===== src/Bot/State.antt =====
-- mtproto_bot.go: the state of updates that the bot keeps. A copy of a state is the state.
use mt_pro_go.Prelude.{Option, none, some, ◌==◌, if◌then◌else◌, length, ◌≡◌, refl, ap, arith}
use mt_pro_go.Prelude.Int.{ℤ, pos, eq_ℤ}
use mt_pro_go.State.{UpdatesState}
use mt_pro_go.Bot.{Bot}

-- A field of the next state, unless it is zero.
abbrev pub newer : ℤ → ℤ → ℤ
newer old next = if eq_ℤ next (pos 0) then old else next

unfoldable pub merge_states : UpdatesState → UpdatesState → UpdatesState
merge_states old next = record {
  pts = newer old.pts next.pts;
  qts = newer old.qts next.qts;
  date = newer old.date next.date;
  seq = newer old.seq next.seq;
  unread_count = newer old.unread_count next.unread_count;
  raw = if length next.raw == 0 then old.raw else next.raw;
}

unfoldable pub merge_update_state : Option UpdatesState → Option UpdatesState → Option UpdatesState
merge_update_state none next = next
merge_update_state (some old) none = some old
merge_update_state (some old) (some next) = some (merge_states old next)

unfoldable pub set_state : {W : Type 0} → Option UpdatesState → Bot W → Bot W
set_state none b = b
set_state (some s) b = record b { last_state = some s }

abbrev pub snapshot_state : {W : Type 0} → Bot W → Option UpdatesState
snapshot_state b = b.last_state

newer_assoc : (a b c : ℤ) → newer (newer a b) c ≡ newer a (newer b c)
unfolding eq_ℤ
newer_assoc a b c = ground arith

merge_states_assoc :
    (a b c : UpdatesState) → merge_states (merge_states a b) c ≡ merge_states a (merge_states b c)
unfolding merge_states
merge_states_assoc a b c =
    rw
      (
        newer_assoc a.pts b.pts c.pts,
        newer_assoc a.qts b.qts c.qts,
        newer_assoc a.date b.date c.date,
        newer_assoc a.seq b.seq c.seq,
        newer_assoc a.unread_count b.unread_count c.unread_count,
        raw_assoc,
      )
      refl
  where
    raw_assoc :
        (if length c.raw == 0 then (if length b.raw == 0 then a.raw else b.raw) else c.raw) ≡ (
          if length (if length c.raw == 0 then b.raw else c.raw) == 0
          then a.raw
          else if length c.raw == 0
          then b.raw
          else c.raw)
    raw_assoc = ground arith

-- Merging states one by one or the later ones first gives the same state, so a poll that takes two
-- steps keeps what one step would; a difference without a state changes nothing.
pub merge_update_state_assoc :
    (a b c : Option UpdatesState)
    → (merge_update_state (merge_update_state a b) c
        ≡ merge_update_state a (merge_update_state b c))
      × (merge_update_state a none ≡ a)
      × (merge_update_state none a ≡ a)
unfolding merge_update_state
merge_update_state_assoc none b c = (refl, refl, refl)
merge_update_state_assoc (some a) none none = (refl, refl, refl)
merge_update_state_assoc (some a) none (some c) = (refl, refl, refl)
merge_update_state_assoc (some a) (some b) none = (refl, refl, refl)
merge_update_state_assoc (some a) (some b) (some c) =
    (ap some (merge_states_assoc a b c), refl, refl)
