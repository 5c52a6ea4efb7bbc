-- ===== src/Client.antt =====
-- client.go and `NewMTProtoBot` of mtproto_bot.go: the configuration of a client and of a bot, and
-- the dispatcher that is made from it. The session store, the API id and hash and the token are only
-- carried along and are left out of the configuration.
pub mod Configured
use mt_pro_go.Prelude.{
  ℕ, zero, List, [], ◌∷◌, Bool, true, false, Option, none, some, if◌then◌else◌, ◌*◌, Result, ok,
  err, msg,
}
use mt_pro_go.Prelude.Int.{ℤ, pos, ltb_ℤ, leb_ℤ}
use mt_pro_go.Prelude.Text.{str, str_eq}
use mt_pro_go.Message.{Message}
use mt_pro_go.Dispatcher.Config.{
  DispatcherOption, cache_matched_messages, cache_filtered_messages, default_message_cache_size,
  default_peer_cache_size, clamp, with_updates, with_message_cache_size, with_message_cache_mode,
  with_message_cache_filter, with_peer_cache_size, with_update_queue_size,
}
use mt_pro_go.Dispatcher.Dispatch.{Dispatcher, new_dispatcher}
use mt_pro_go.Bot.Backoff.{second}

pub record Config : Type 0 where
  pub session_name : List ℕ
  pub updates : Bool
  pub message_cache_size : ℤ
  pub message_cache_mode : ℤ
  pub message_cache_filter : Option (Message → Bool)
  pub peer_cache_size : ℤ
  pub update_queue_size : ℤ
  pub debug : Bool
  pub auto_reconnect : Bool
  pub max_reconnect_attempts : ℤ
  pub reconnect_initial_backoff : ℤ
  pub reconnect_max_backoff : ℤ
  pub auto_flood_wait : Bool
  pub max_flood_wait : ℤ

abbrev pub ConfigOption : Type 0
ConfigOption = Config → Config

unfoldable pub default_config : List ℕ → Config
default_config session_name = record {
  session_name = session_name;
  updates = true;
  message_cache_size = default_message_cache_size;
  message_cache_mode = cache_matched_messages;
  message_cache_filter = none;
  peer_cache_size = default_peer_cache_size;
  update_queue_size = pos 256;
  debug = false;
  auto_reconnect = true;
  max_reconnect_attempts = pos 0;
  reconnect_initial_backoff = pos second;
  reconnect_max_backoff = pos (30 * second);
  auto_flood_wait = false;
  max_flood_wait = pos (60 * second);
}

unfoldable pub with_session_name : List ℕ → ConfigOption
with_session_name name c = if str_eq name [] then c else record c { session_name = name }

unfoldable pub config_with_updates : Bool → ConfigOption
config_with_updates enabled c = record c { updates = enabled }

unfoldable pub config_with_message_cache_size : ℤ → ConfigOption
config_with_message_cache_size size c = record c { message_cache_size = size }

unfoldable pub config_with_message_cache_mode : ℤ → ConfigOption
config_with_message_cache_mode mode c = record c { message_cache_mode = mode }

-- A nil filter is kept as it is, with the mode.
unfoldable pub config_with_message_cache_filter : Option (Message → Bool) → ConfigOption
config_with_message_cache_filter filter c = record c {
  message_cache_filter = filter;
  message_cache_mode = cache_filtered_messages;
}

unfoldable pub config_with_peer_cache_size : ℤ → ConfigOption
config_with_peer_cache_size size c = record c { peer_cache_size = size }

unfoldable pub config_with_update_queue_size : ℤ → ConfigOption
config_with_update_queue_size size c = record c { update_queue_size = size }

unfoldable pub with_debug : Bool → ConfigOption
with_debug enabled c = record c { debug = enabled }

unfoldable pub with_auto_reconnect : Bool → ConfigOption
with_auto_reconnect enabled c = record c { auto_reconnect = enabled }

-- `if value > 0 { field = value }`.
abbrev pub positive_or : ℤ → ℤ → ℤ
positive_or old value = if ltb_ℤ (pos 0) value then value else old

unfoldable pub with_reconnect_backoff : ℤ → ℤ → ConfigOption
with_reconnect_backoff initial max c = record c {
  reconnect_initial_backoff = positive_or c.reconnect_initial_backoff initial;
  reconnect_max_backoff = positive_or c.reconnect_max_backoff max;
}

unfoldable pub with_max_reconnect_attempts : ℤ → ConfigOption
with_max_reconnect_attempts n c = record c { max_reconnect_attempts = n }

unfoldable pub with_auto_flood_wait : Bool → ℤ → ConfigOption
with_auto_flood_wait enabled max_wait c = record c {
  auto_flood_wait = enabled;
  max_flood_wait = positive_or c.max_flood_wait max_wait;
}

-- The loop over the options; a nil option is passed over.
unfoldable pub apply_config_options : List (Option ConfigOption) → Config → Config
apply_config_options [] c = c
apply_config_options (none ∷ opts) c = apply_config_options opts c
apply_config_options (some opt ∷ opts) c = apply_config_options opts (opt c)

abbrev pub or_default : ℕ → ℤ → ℤ
or_default default value = if leb_ℤ value (pos 0) then pos default else value

-- The tests behind the options.
unfoldable pub clamp_config : Config → Config
clamp_config c = record c {
  message_cache_size = clamp c.message_cache_size;
  peer_cache_size = clamp c.peer_cache_size;
  update_queue_size = clamp c.update_queue_size;
  reconnect_initial_backoff = or_default second c.reconnect_initial_backoff;
  reconnect_max_backoff = or_default (30 * second) c.reconnect_max_backoff;
  max_flood_wait = or_default (60 * second) c.max_flood_wait;
}

-- The options that a configuration passes to `NewDispatcher`.
unfoldable pub dispatcher_options : Config → List (Option DispatcherOption)
dispatcher_options c =
    some (with_updates c.updates)
    ∷ some (with_message_cache_size c.message_cache_size)
    ∷ some (with_message_cache_mode c.message_cache_mode)
    ∷ some (with_message_cache_filter c.message_cache_filter)
    ∷ some (with_peer_cache_size c.peer_cache_size)
    ∷ some (with_update_queue_size c.update_queue_size)
    ∷ []

abbrev pub configured : List ℕ → List (Option ConfigOption) → Config
configured session_name opts =
    clamp_config (apply_config_options opts (default_config session_name))

module _ {W : Type 0} where
  unfoldable pub new_client :
      ℤ → List ℕ → List (Option ConfigOption) → Result (Config × Dispatcher W)
  new_client api_id api_hash opts =
      let cfg = configured (str "default") opts in
      if leb_ℤ api_id (pos 0)
      then err (msg "api id must be greater than zero")
      else if str_eq api_hash []
      then err (msg "api hash is required")
      else ok (cfg, new_dispatcher (dispatcher_options cfg))

-- `MTProtoBotConfig`, without the API id and hash and the token.
pub record PollConfig : Type 0 where
  pub poll_interval : ℤ
  pub pts_limit : ℤ

module _ {W : Type 0} where
  unfoldable pub new_mtproto_bot :
      ℤ
      → List ℕ
      → List ℕ
      → PollConfig
      → List (Option ConfigOption)
      → Result (PollConfig × Config × Dispatcher W)
  new_mtproto_bot api_id api_hash token config opts =
      let cfg = configured (str "mtproto_bot") opts in
      let poll : PollConfig = record {
        poll_interval = or_default (2 * second) config.poll_interval;
        pts_limit = or_default 100 config.pts_limit;
      } in
      if leb_ℤ api_id (pos 0)
      then err (msg "api id is required")
      else if str_eq api_hash []
      then err (msg "api hash is required")
      else if str_eq token []
      then err (msg "bot token is required")
      else ok (poll, cfg, new_dispatcher (dispatcher_options cfg))
