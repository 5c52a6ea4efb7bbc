-- ===== src/Dispatcher/Config.antt =====
-- updates/options.go: the configuration, its options and the clamps of `NewDispatcher`.
use mt_pro_go.Prelude.{ℕ, List, [], ◌∷◌, Bool, true, Option, none, some, if◌then◌else◌, ◌||◌}
use mt_pro_go.Prelude.Int.{ℤ, pos, eq_ℤ, ltb_ℤ}
use mt_pro_go.Prelude.Text.{str}
use mt_pro_go.Message.{Message}

-- `MessageCacheMode` is an int, so any int can stand there.
abbrev pub cache_default : ℤ
cache_default = pos 0

abbrev pub cache_none : ℤ
cache_none = pos 1

abbrev pub cache_all_messages : ℤ
cache_all_messages = pos 2

abbrev pub cache_matched_messages : ℤ
cache_matched_messages = pos 3

abbrev pub cache_filtered_messages : ℤ
cache_filtered_messages = pos 4

abbrev pub default_message_cache_size : ℤ
default_message_cache_size = pos 1000

abbrev pub default_peer_cache_size : ℤ
default_peer_cache_size = pos 1000

-- `MessageCacheMode.String`.
unfoldable pub mode_string : ℤ → List ℕ
mode_string m =
    if eq_ℤ m cache_default
    then str "matched"
    else if eq_ℤ m cache_none
    then str "none"
    else if eq_ℤ m cache_all_messages
    then str "all"
    else if eq_ℤ m cache_matched_messages
    then str "matched"
    else if eq_ℤ m cache_filtered_messages
    then str "filtered"
    else str "matched"

pub record DispatcherConfig : Type 0 where
  pub updates_enabled : Bool
  pub message_cache_size : ℤ
  pub peer_cache_size : ℤ
  pub update_queue_size : ℤ
  pub message_cache_mode : ℤ
  pub message_cache_filter : Option (Message → Bool)

abbrev pub DispatcherOption : Type 0
DispatcherOption = DispatcherConfig → DispatcherConfig

unfoldable pub default_dispatcher_config : DispatcherConfig
default_dispatcher_config = record {
  updates_enabled = true;
  message_cache_size = default_message_cache_size;
  peer_cache_size = default_peer_cache_size;
  update_queue_size = pos 256;
  message_cache_mode = cache_matched_messages;
  message_cache_filter = none;
}

unfoldable pub with_updates : Bool → DispatcherOption
with_updates enabled c = record c { updates_enabled = enabled }

unfoldable pub with_message_cache_size : ℤ → DispatcherOption
with_message_cache_size size c = record c { message_cache_size = size }

unfoldable pub with_peer_cache_size : ℤ → DispatcherOption
with_peer_cache_size size c = record c { peer_cache_size = size }

unfoldable pub with_update_queue_size : ℤ → DispatcherOption
with_update_queue_size size c = record c { update_queue_size = size }

unfoldable pub with_message_cache_mode : ℤ → DispatcherOption
with_message_cache_mode mode c = record c { message_cache_mode = mode }

-- A nil filter changes nothing.
unfoldable pub with_message_cache_filter : Option (Message → Bool) → DispatcherOption
with_message_cache_filter none c = c
with_message_cache_filter (some filter) c = record c {
  message_cache_filter = some filter;
  message_cache_mode = cache_filtered_messages;
}

-- The loop over the options; a nil option is passed over.
unfoldable pub apply_options : List (Option DispatcherOption) → DispatcherConfig → DispatcherConfig
apply_options [] c = c
apply_options (none ∷ opts) c = apply_options opts c
apply_options (some opt ∷ opts) c = apply_options opts (opt c)

-- `if size < 0 { size = 0 }`.
abbrev pub clamp : ℤ → ℤ
clamp size = if ltb_ℤ size (pos 0) then pos 0 else size

-- The two tests on the mode: the default one, and one out of range.
unfoldable pub normalize_mode : ℤ → ℤ
normalize_mode mode =
    let mode' = if eq_ℤ mode cache_default then cache_matched_messages else mode in
    if ltb_ℤ mode' cache_default || ltb_ℤ cache_filtered_messages mode'
    then cache_matched_messages
    else mode'

-- The configuration that `NewDispatcher` keeps.
unfoldable pub normalize_config : DispatcherConfig → DispatcherConfig
normalize_config c = record c {
  message_cache_size = clamp c.message_cache_size;
  peer_cache_size = clamp c.peer_cache_size;
  update_queue_size = clamp c.update_queue_size;
  message_cache_mode = normalize_mode c.message_cache_mode;
}
