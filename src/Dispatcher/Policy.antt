-- ===== src/Dispatcher/Policy.antt =====
-- Which messages a dispatcher keeps: the configuration decides, and the cache is bounded.
use mathlib.Core.Path.{subst⁻¹}
use mt_pro_go.Prelude.{
  ℕ, List, [], ◌∷◌, Bool, true, false, ◌||◌, ◌&&◌, not, Option, none, some, if◌then◌else◌, length,
  ltb, ◌≡◌, refl, ap, ◌∙◌, arith, last_n,
}
use mt_pro_go.Prelude.Int.{ℤ, pos, negsuc, eq_ℤ, ◌≤ℤ◌}
use mt_pro_go.Message.{Message}
use mt_pro_go.Cache.MessageCache
use mt_pro_go.Cache.MessageCache.{MessageCache}
use mt_pro_go.Cache.Recent.{add_all, add_nothing, all-add_all}
use mt_pro_go.Cache.PeerCache
use mt_pro_go.Dispatcher.Config.{
  DispatcherConfig, DispatcherOption, default_dispatcher_config, apply_options, normalize_config,
  normalize_mode, clamp, cache_none, cache_all_messages, cache_matched_messages,
  cache_filtered_messages,
}
use mt_pro_go.Dispatcher.Dispatch.{
  Dispatcher, MessageRoute, new_dispatcher, matching_routes, should_cache_message, cache_update,
  dispatch_message,
}

-- Whether some route accepts the message.
unfoldable pub accepts : {W : Type 0} → Message → List (MessageRoute W) → Bool
accepts m [] = false
accepts m (r ∷ rs) = r.filter m || accepts m rs

-- The messages that a configuration asks to keep.
unfoldable pub wants : {W : Type 0} → DispatcherConfig → List (MessageRoute W) → Message → Bool
wants c routes m =
    if eq_ℤ c.message_cache_mode cache_none
    then false
    else if eq_ℤ c.message_cache_mode cache_all_messages
    then true
    else if eq_ℤ c.message_cache_mode cache_filtered_messages
        && not (eq_ℤ c.message_cache_mode cache_matched_messages)
    then elim c.message_cache_filter [ none ↦ false | some f ↦ f m ]
    else accepts m routes

unfoldable pub wanted :
    {W : Type 0} → DispatcherConfig → List (MessageRoute W) → List Message → List Message
wanted c routes [] = []
wanted c routes (m ∷ ms) =
    let rest = wanted c routes ms in if wants c routes m then m ∷ rest else rest

-- Messages dispatched one after the other; an error of a handler does not stop the bot.
pub dispatch_all : {W : Type 0} → List Message → Dispatcher W → W → Dispatcher W
dispatch_all [] d w = d
dispatch_all (m ∷ ms) d w = let p = dispatch_message (some m) d w in dispatch_all ms p.0 p.1

module _ {W : Type 0} where
  matched-accepts :
      (m : Message) (rs : List (MessageRoute W))
      → ltb 0 (length (matching_routes m rs)) ≡ accepts m rs
  unfolding matching_routes accepts
  matched-accepts m [] = refl
  matched-accepts m (r ∷ rs) = ground (arith, matched-accepts m rs)

  dispatch-state :
      (m : Message) (d : Dispatcher W) (w : W)
      → (dispatch_message (some m) d w).0 ≡ cache_update m d
  unfolding dispatch_message
  dispatch-state m d w = ground arith

  -- One dispatch adds the message to the cache if the configuration wants it.
  cache_update-messages :
      (m : Message) (d : Dispatcher W)
      → (cache_update m d).messages
        ≡ (if wants d.config d.message_routes m then MessageCache.add m d.messages else d.messages)
  unfolding cache_update should_cache_message wants
  cache_update-messages m d =
      ground (arith, matched-accepts m d.message_routes, add_nothing m d.messages)

  dispatch_all-messages :
      (ms : List Message) (d : Dispatcher W) (w : W)
      → (dispatch_all ms d w).messages ≡ add_all (wanted d.config d.message_routes ms) d.messages
  unfolding dispatch_all add_all wanted cache_update
  dispatch_all-messages [] d w = refl
  dispatch_all-messages (m ∷ ms) d w =
      subst⁻¹
        (λ d'.
          (dispatch_all ms d' (dispatch_message (some m) d w).1).messages
          ≡ add_all (wanted d.config d.message_routes (m ∷ ms)) d.messages)
        (dispatch-state m d w)
        (dispatch_all-messages ms (cache_update m d) (dispatch_message (some m) d w).1
          ∙ ap (add_all (wanted d.config d.message_routes ms)) (cache_update-messages m d)
          ∙ choose (wants d.config d.message_routes m))
    where
      choose :
          (b : Bool)
          → add_all
              (wanted d.config d.message_routes ms)
              (if b then MessageCache.add m d.messages else d.messages)
            ≡ add_all
                (if b
                  then m ∷ wanted d.config d.message_routes ms
                  else wanted d.config d.message_routes ms)
                d.messages
      choose true = refl
      choose false = refl

  -- However many messages are dispatched, a dispatcher that starts with an empty cache keeps
  -- exactly the last `size` of those that its configuration wants, oldest first.
  pub dispatch_all-cached :
      (ms : List Message) (d : Dispatcher W) (w : W) (size : ℕ)
      → d.messages ≡ MessageCache.new_message_cache (pos size)
      → MessageCache.all (dispatch_all ms d w).messages
        ≡ last_n size (wanted d.config d.message_routes ms)
  dispatch_all-cached ms d w size fresh =
      ap MessageCache.all
        (dispatch_all-messages ms d w ∙ ap (add_all (wanted d.config d.message_routes ms)) fresh)
      ∙ (all-add_all size 0 (wanted d.config d.message_routes ms)).0

message_cache-clamp :
    (M : Type 0) (z : ℤ) → pos (MessageCache.new_message_cache {M = M} (clamp z)).limit ≡ clamp z
unfolding MessageCache.new_message_cache
message_cache-clamp M (pos n) = ground arith
message_cache-clamp M (negsuc n) = ground arith

peer_cache-clamp : (z : ℤ) → pos (PeerCache.new_peer_cache (clamp z)).limit ≡ clamp z
unfolding PeerCache.new_peer_cache
peer_cache-clamp (pos n) = ground arith
peer_cache-clamp (negsuc n) = ground arith

clamp-nonneg : (z : ℤ) → pos 0 ≤ℤ clamp z
clamp-nonneg z = ground arith

normalize_mode_real : (z : ℤ) → (pos 1 ≤ℤ normalize_mode z) × (normalize_mode z ≤ℤ pos 4)
unfolding normalize_mode eq_ℤ
normalize_mode_real z = ground arith

-- Whatever the options, a new dispatcher has caches of the sizes that its configuration names,
-- none of them negative, and a cache mode that is one of the four real ones.
pub new_dispatcher_limits :
    (W : Type 0) (opts : List (Option DispatcherOption))
    → (pos (new_dispatcher {W = W} opts).messages.limit
        ≡ (new_dispatcher {W = W} opts).config.message_cache_size)
      × (pos (new_dispatcher {W = W} opts).peers.limit
          ≡ (new_dispatcher {W = W} opts).config.peer_cache_size)
      × (pos 0 ≤ℤ (new_dispatcher {W = W} opts).config.update_queue_size)
      × (pos 1 ≤ℤ (new_dispatcher {W = W} opts).config.message_cache_mode)
      × ((new_dispatcher {W = W} opts).config.message_cache_mode ≤ℤ pos 4)
unfolding new_dispatcher normalize_config
new_dispatcher_limits W opts =
    let c = apply_options opts default_dispatcher_config in
    (
      message_cache-clamp Message c.message_cache_size,
      peer_cache-clamp c.peer_cache_size,
      clamp-nonneg c.update_queue_size,
      (normalize_mode_real c.message_cache_mode).0,
      (normalize_mode_real c.message_cache_mode).1,
    )
