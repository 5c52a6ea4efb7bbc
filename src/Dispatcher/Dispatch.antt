-- ===== src/Dispatcher/Dispatch.antt =====
-- updates/dispatcher.go: routes, caches and the dispatch of one message. What handlers do outside
-- the dispatcher is a change of a state `W` of any type. Nil dispatchers are not modelled, and the
-- two caches of a dispatcher are never nil.
use mt_pro_go.Prelude.{
  ℕ, List, [], ◌∷◌, ◌++◌, Bool, true, false, ◌||◌, not, Option, none, some, Error, if◌then◌else◌,
  length, ltb, ◌==◌,
}
use mt_pro_go.Prelude.Int.{ℤ, pos, eq_ℤ}
use mt_pro_go.Prelude.Text.{str, str_eq}
use mt_pro_go.Message.{Message}
use mt_pro_go.Cache.MessageCache
use mt_pro_go.Cache.MessageCache.{MessageCache}
use mt_pro_go.Cache.PeerCache
use mt_pro_go.Cache.PeerCache.{PeerCache, Peer}
use mt_pro_go.Dispatcher.Config.{
  DispatcherConfig, DispatcherOption, default_dispatcher_config, apply_options, normalize_config,
  cache_none, cache_all_messages, cache_matched_messages, cache_filtered_messages, mode_string,
}

-- A handler: the state after it, and its error if it returns one.
abbrev pub MessageHandler : Type 0 → Type 0
MessageHandler W = Message → W → W × Option Error

pub record MessageRoute (W : Type 0) : Type 0 where
  pub filter : Message → Bool
  pub handler : MessageHandler W

pub record Dispatcher (W : Type 0) : Type 0 where
  pub config : DispatcherConfig
  pub message_routes : List (MessageRoute W)
  pub messages : MessageCache Message
  pub peers : PeerCache

pub record CacheSnapshot : Type 0 where
  pub message_count : ℕ
  pub message_limit : ℕ
  pub peer_count : ℕ
  pub peer_limit : ℕ
  pub cache_mode : List ℕ

-- `Peer{ID: id, Kind: kind}`.
abbrev pub peer_of : ℤ → List ℕ → Peer
peer_of id kind = record {
  id = id;
  access_hash = pos 0;
  kind = kind;
  username = [];
  first_name = [];
  last_name = [];
  title = [];
}

unfoldable pub cache_peers : Message → PeerCache → PeerCache
cache_peers m c =
    let c₁ =
      if eq_ℤ m.from_id (pos 0) then c else PeerCache.put (peer_of m.from_id (str "user")) c in
    let kind =
      if str_eq m.chat_type []
      then (if eq_ℤ m.chat_id m.from_id then str "user" else str "chat")
      else m.chat_type in
    if eq_ℤ m.chat_id (pos 0) then c₁ else PeerCache.put (peer_of m.chat_id kind) c₁

-- What a handler's result leads to: its error, or the rest of the loop.
abbrev pub after_handler :
    {W : Type 0} → W × Option Error → (W → W × Option Error) → W × Option Error
after_handler (w, some x) rest = (w, some x)
after_handler (w, none) rest = rest w

module _ {W : Type 0} where
  unfoldable pub new_dispatcher : List (Option DispatcherOption) → Dispatcher W
  new_dispatcher opts =
      let cfg = normalize_config (apply_options opts default_dispatcher_config) in
      record {
        config = cfg;
        message_routes = [];
        messages = MessageCache.new_message_cache cfg.message_cache_size;
        peers = PeerCache.new_peer_cache cfg.peer_cache_size;
      }

  unfoldable pub cache_snapshot : Dispatcher W → CacheSnapshot
  cache_snapshot d = record {
    message_count = MessageCache.len d.messages;
    message_limit = d.messages.limit;
    peer_count = PeerCache.len d.peers;
    peer_limit = d.peers.limit;
    cache_mode = mode_string d.config.message_cache_mode;
  }

  -- A nil handler registers nothing, a nil filter accepts every message.
  unfoldable pub on_message :
      Option (Message → Bool) → Option (MessageHandler W) → Dispatcher W → Dispatcher W
  on_message filter none d = d
  on_message none (some h) d = record d {
    message_routes = d.message_routes ++ (record { filter = λ _. true; handler = h } ∷ []);
  }
  on_message (some f) (some h) d = record d {
    message_routes = d.message_routes ++ (record { filter = f; handler = h } ∷ []);
  }

  unfoldable pub put_peer : Peer → Dispatcher W → Dispatcher W
  put_peer p d = record d { peers = PeerCache.put p d.peers }

  -- The routes whose filter accepts the message, in the order of registration.
  unfoldable pub matching_routes : Message → List (MessageRoute W) → List (MessageRoute W)
  matching_routes m [] = []
  matching_routes m (r ∷ rs) =
      let rest = matching_routes m rs in if r.filter m then r ∷ rest else rest

  unfoldable pub should_cache_message : Message → Bool → Dispatcher W → Bool
  should_cache_message m matched d =
      if d.messages.limit == 0
      then false
      else if eq_ℤ d.config.message_cache_mode cache_none
      then false
      else if eq_ℤ d.config.message_cache_mode cache_all_messages
      then true
      else if eq_ℤ d.config.message_cache_mode cache_matched_messages
      then matched
      else if eq_ℤ d.config.message_cache_mode cache_filtered_messages
      then elim d.config.message_cache_filter [ none ↦ false | some f ↦ f m ]
      else matched

  -- The last loop: the handlers in turn, until one returns an error.
  unfoldable pub run_routes : Message → List (MessageRoute W) → W → W × Option Error
  run_routes m [] w = (w, none)
  run_routes m (r ∷ rs) w = after_handler (r.handler m w) (run_routes m rs)

  abbrev pub is_matched : Message → Dispatcher W → Bool
  is_matched m d = ltb 0 (length (matching_routes m d.message_routes))

  -- The dispatcher with the message and its peers in the caches, as far as the policy wants them.
  unfoldable pub cache_update : Message → Dispatcher W → Dispatcher W
  cache_update m d =
      let matched = is_matched m d in
      let cache_this = should_cache_message m matched d in
      record d {
        messages = if cache_this then MessageCache.add m d.messages else d.messages;
        peers = if cache_this || matched then cache_peers m d.peers else d.peers;
      }

  unfoldable pub dispatch_message :
      Option Message → Dispatcher W → W → Dispatcher W × W × Option Error
  dispatch_message none d w = (d, w, none)
  dispatch_message (some m) d w =
      if not d.config.updates_enabled
      then (cache_update m d, w, none)
      else let p = run_routes m (matching_routes m d.message_routes) w in
        (cache_update m d, p.0, p.1)
