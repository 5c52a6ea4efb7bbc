-- ===== src/Dispatcher/Handlers.antt =====
-- Which handlers a dispatch runs, in which order, and where it stops.
use mt_pro_go.Prelude.{
  List, [], ◌∷◌, true, false, Option, none, some, Error, ◌≡◌, refl, arith, Bool-cases, inl, inr,
}
use mt_pro_go.Message.{Message}
use mt_pro_go.Dispatcher.Dispatch.{
  Dispatcher, MessageRoute, matching_routes, run_routes, after_handler, cache_update,
  dispatch_message,
}

module _ {W : Type 0} where
  -- The handlers of the routes that accept the message, run in order up to and with the first
  -- error; the routes between them do nothing.
  pub data Runs (m : Message) : List (MessageRoute W) → W → W → Option Error → Type 0 where
    done : {w : W} → Runs m [] w w none
    skip :
        {r : MessageRoute W} {rs : List (MessageRoute W)} {w w' : W} {e : Option Error}
        → r.filter m ≡ false
        → Runs m rs w w' e
        → Runs m (r ∷ rs) w w' e
    call :
        {r : MessageRoute W} {rs : List (MessageRoute W)} {w w₁ w' : W} {e : Option Error}
        → r.filter m ≡ true
        → r.handler m w ≡ (w₁, none)
        → Runs m rs w₁ w' e
        → Runs m (r ∷ rs) w w' e
    stop :
        {r : MessageRoute W} {rs : List (MessageRoute W)} {w w' : W} {x : Error}
        → r.filter m ≡ true
        → r.handler m w ≡ (w', some x)
        → Runs m (r ∷ rs) w w' (some x)

  Run : Message → List (MessageRoute W) → W → W × Option Error → Type 0
  Run m rs w p = Runs m rs w p.0 p.1

  Run-first :
      (m : Message) (r : MessageRoute W) (rs : List (MessageRoute W)) (w : W) (p : W × Option Error)
      → r.filter m ≡ true
      → r.handler m w ≡ p
      → ((w₁ : W) → Run m rs w₁ (run_routes m (matching_routes m rs) w₁))
      → Run m (r ∷ rs) w (after_handler p (run_routes m (matching_routes m rs)))
  unfolding Run
  Run-first m r rs w (w₁, some x) accepted e rest = stop accepted e
  Run-first m r rs w (w₁, none) accepted e rest = call accepted e (rest w₁)

  run_routes-Run :
      (m : Message) (rs : List (MessageRoute W)) (w : W)
      → Run m rs w (run_routes m (matching_routes m rs) w)
  unfolding Run run_routes matching_routes
  run_routes-Run m [] w = done
  run_routes-Run m (r ∷ rs) w = elim (Bool-cases (r.filter m)) [
    | inr rejects ↦ rw rejects (skip rejects (run_routes-Run m rs w))
    | inl accepted ↦
        rw accepted
          (Run-first m r rs w (r.handler m w) accepted refl (λ w₁. run_routes-Run m rs w₁))
  ]

  -- An enabled dispatcher runs the handlers of the routes that accept the message, in the order of
  -- their registration, up to and with the first that returns an error, which the dispatch returns;
  -- its caches are those that the cache policy gives.
  pub dispatch_message-Runs :
      (m : Message) (d : Dispatcher W) (w : W)
      → d.config.updates_enabled ≡ true
      → Runs m d.message_routes w
          (dispatch_message (some m) d w).1
          (dispatch_message (some m) d w).2
        × ((dispatch_message (some m) d w).0 ≡ cache_update m d)
  unfolding dispatch_message Run
  dispatch_message-Runs m d w enabled =
      (rw enabled (run_routes-Run m d.message_routes w), ground arith)
