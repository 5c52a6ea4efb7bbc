-- ===== src/Client/Configured.antt =====
-- client.go: what holds of every configuration that a client or a bot keeps.
use mt_pro_go.Prelude.{ℕ, List, [], ◌∷◌, ◌++◌, Bool, Option, none, some, ◌≡◌, refl, arith}
use mt_pro_go.Prelude.Int.{ℤ, pos, eq_ℤ, ◌≤ℤ◌, ◌<ℤ◌}
use mt_pro_go.Message.{Message}
use mt_pro_go.Dispatcher.Config.{
  cache_filtered_messages, normalize_config, normalize_mode, apply_options, with_updates,
  with_message_cache_size, with_message_cache_mode, with_message_cache_filter, with_peer_cache_size,
  with_update_queue_size,
}
use mt_pro_go.Dispatcher.Dispatch.{new_dispatcher}
use mt_pro_go.Client.{
  Config, ConfigOption, configured, clamp_config, apply_config_options, default_config,
  config_with_message_cache_filter, config_with_message_cache_mode, dispatcher_options,
}

-- No size is negative, and the three durations are positive.
pub record IsUsable (c : Config) : Type 0 where
  pub messages : pos 0 ≤ℤ c.message_cache_size
  pub peers : pos 0 ≤ℤ c.peer_cache_size
  pub queue : pos 0 ≤ℤ c.update_queue_size
  pub initial : pos 0 <ℤ c.reconnect_initial_backoff
  pub max : pos 0 <ℤ c.reconnect_max_backoff
  pub flood : pos 0 <ℤ c.max_flood_wait

-- Whatever the options do, the configuration is usable.
pub configured-IsUsable :
    (session_name : List ℕ) (opts : List (Option ConfigOption))
    → IsUsable (configured session_name opts)
unfolding clamp_config
configured-IsUsable session_name opts =
    let c = apply_config_options opts (default_config session_name) in
    record {
      messages = ground arith;
      peers = ground arith;
      queue = ground arith;
      initial = ground arith;
      max = ground arith;
      flood = ground arith;
    }

apply_config_options-append :
    (opts more : List (Option ConfigOption)) (c : Config)
    → apply_config_options (opts ++ more) c
      ≡ apply_config_options more (apply_config_options opts c)
unfolding apply_config_options
apply_config_options-append [] more c = refl
apply_config_options-append (none ∷ opts) more c = apply_config_options-append opts more c
apply_config_options-append (some opt ∷ opts) more c = apply_config_options-append opts more (opt c)

-- A cache filter that an earlier option has set decides the mode of the dispatcher's cache: a mode
-- that the last option asks for is not the one that the dispatcher gets.
pub cache_filter_wins :
    (W : Type 0) (session_name : List ℕ) (opts : List (Option ConfigOption)) (f : Message → Bool)
    (mode : ℤ)
    → (new_dispatcher {W = W} (
        dispatcher_options (
          configured session_name (
            opts
            ++ (some (config_with_message_cache_filter (some f))
                ∷ some (config_with_message_cache_mode mode)
                ∷ []))))).config.message_cache_mode
      ≡ cache_filtered_messages
unfolding new_dispatcher dispatcher_options clamp_config apply_config_options
    config_with_message_cache_filter config_with_message_cache_mode apply_options
    with_message_cache_mode with_message_cache_filter normalize_config
cache_filter_wins W session_name opts f mode =
    rw
      (apply_config_options-append opts
        (some (config_with_message_cache_filter (some f))
          ∷ some (config_with_message_cache_mode mode)
          ∷ [])
        (default_config session_name))
      (unfold normalize_mode with_update_queue_size with_peer_cache_size with_message_cache_size
          with_updates eq_ℤ in
        refl)
