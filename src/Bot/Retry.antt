-- ===== src/Bot/Retry.antt =====
-- mtproto_bot.go, `withFloodWait`: it calls again as long as the server asks to wait.
use mt_pro_go.Prelude.{
  ℕ, zero, suc, ◌*◌, ◌^◌, ◌<◌, ◌≡◌, true, false, List, ◌++◌, Option, none, some, Error, rpc_error,
}
use mt_pro_go.Prelude.Int.{ℤ, pos, ◌≤ℤ◌, ◌<ℤ◌}
use mt_pro_go.Prelude.Text.{str}
use mt_pro_go.Invoke.Rpc.{clean_rpc_error_message}
use mt_pro_go.Bot.Backoff.{second}
use mt_pro_go.Bot.FloodWait.{rpc_message, WaitOptions, wait_for}

-- Behind a call that has ended in the error `e`: the wait that it asks for, and its cancellation.
abbrev pub after_wait :
    {W : Type 0}
    → Option ℤ
    → Option Error
    → W
    → Error
    → Option (W × Option Error)
    → Option (W × Option Error)
after_wait none stop w e again = some (w, some e)
after_wait (some d) (some x) w e again = some (w, some x)
after_wait (some d) none w e again = again

module _ {W : Type 0} (trim_space : List ℕ → List ℕ) (atoi : List ℕ → Option ℤ) (opts : WaitOptions)
    (fn : W → W × Option Error) (cancelled : ℕ → Option Error) where
  -- What the result of a call leads to: `again` is the rest of the loop, behind wait number `i`.
  unfoldable pub after_call :
      ℕ → W × Option Error → (W → Option (W × Option Error)) → Option (W × Option Error)
  after_call i (w, none) again = some (w, none)
  after_call i (w, some e) again =
      after_wait (wait_for trim_space atoi opts e) (cancelled i) w e (again w)

  -- `for { ... }` with fuel: `none` is that the fuel is used up. `cancelled i` is the error of the
  -- context when it ends wait number `i`.
  unfoldable pub with_flood_wait : ℕ → ℕ → W → Option (W × Option Error)
  with_flood_wait zero i w = none
  with_flood_wait (suc fuel) i w = after_call i (fn w) (with_flood_wait fuel (suc i))

module _ (trim_space : List ℕ → List ℕ) (atoi : List ℕ → Option ℤ) (opts : WaitOptions) where
  -- An error of the server that says FLOOD_WAIT_ and a number of seconds that a duration holds.
  pub record IsFloodWait (e : Error) : Type 0 where
    pub seconds : ℕ
    pub code : ℤ
    pub message : List ℕ
    pub digits : List ℕ
    pub sent : e ≡ rpc_error code message
    pub text : clean_rpc_error_message trim_space message ≡ str "FLOOD_WAIT_" ++ digits
    pub number : atoi digits ≡ some (pos seconds)
    pub small : seconds * second < 2 ^ 63

  -- Waiting is switched on, and the wait is not longer than the longest that is allowed.
  pub record AsksToWait (e : Error) : Type 0 where
    pub flood : IsFloodWait e
    pub enabled : opts.auto_flood_wait ≡ true
    pub allowed : pos (flood.seconds * second) ≤ℤ opts.max_flood_wait

  -- No error; or one behind which the loop ends: waiting is switched off, the error is not one of
  -- the server, or it asks for too long a wait.
  pub data IsFinal : Option Error → Type 0 where
    success : IsFinal none
    switched_off : (e : Error) → opts.auto_flood_wait ≡ false → IsFinal (some e)
    not_rpc : (e : Error) → rpc_message e ≡ none → IsFinal (some e)
    too_long :
        (e : Error) (flood : IsFloodWait e)
        → opts.max_flood_wait <ℤ pos (flood.seconds * second)
        → IsFinal (some e)

  module _ {W : Type 0} (fn : W → W × Option Error) (cancelled : ℕ → Option Error) where
    -- A call that is answered with an allowed wait, which is not cancelled.
    pub record IsRepeated (i : ℕ) (w w' : W) : Type 0 where
      pub error : Error
      pub called : fn w ≡ (w', some error)
      pub asks : AsksToWait error
      pub waited : cancelled i ≡ none
