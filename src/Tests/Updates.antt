-- ===== src/Tests/Updates.antt =====
-- The update layer at concrete inputs.
use mt_pro_go.Prelude.{
  ℕ, ◌+◌, ◌≤◌, ◌≡◌, ◌↔◌, refl, arith, true, not, ◌&&◌, List, [], ◌∷◌, Option, none, some, length,
  last_n, msg,
}
use mt_pro_go.Prelude.Int.{pos, negsuc, ◌≤ℤ◌, eq_ℤ}
use mt_pro_go.Prelude.Text.{str, str_eq}
use mt_pro_go.Message.{Message}
use mt_pro_go.Message.ChatId.{normalize_chat_id, raw_chat_id}
use mt_pro_go.Message.ChatId.RoundTrip
use mt_pro_go.Message.ChatId.RoundTrip.{
  raw_chat_id-normalize_chat_id, normalize_chat_id-injective, looks_like_channel-normalize,
  normalize_chat_id_idempotent,
}
use mt_pro_go.Filters
use mt_pro_go.Filters.{filter_and, filter_or}
use mt_pro_go.Filters.Combine.{AllAccept, filter_and_iff}
use mt_pro_go.Cache.MessageCache
use mt_pro_go.Cache.MessageCache.{MessageCache, new_message_cache}
use mt_pro_go.Cache.Recent.{add_all, all-add_all}
use mt_pro_go.Cache.PeerCache
use mt_pro_go.Cache.PeerCache.{Peer, new_peer_cache}
use mt_pro_go.Cache.Listed.{find}
use mt_pro_go.Cache.Eviction.{listed, put_all, all-put_all}
use mt_pro_go.Dispatcher.Config.{
  DispatcherOption, with_message_cache_size, normalize_config, apply_options,
  default_dispatcher_config,
}
use mt_pro_go.Dispatcher.Dispatch.{
  Dispatcher, MessageHandler, new_dispatcher, on_message, dispatch_message, cache_update, peer_of,
}
use mt_pro_go.Dispatcher.Policy.{wanted, dispatch_all, dispatch_all-cached, new_dispatcher_limits}
use mt_pro_go.Dispatcher.Handlers.{Runs, dispatch_message-Runs}

raw_chat_id-normalize_chat_id_example :
    raw_chat_id (normalize_chat_id (pos 1234567890) (str "supergroup")) ≡ pos 1234567890
raw_chat_id-normalize_chat_id_example =
    raw_chat_id-normalize_chat_id 1234567890 (str "supergroup") (omega arith) (omega arith)

abbrev seven : ℕ
seven = 7

normalize_chat_id-injective_example :
    (seven ≡ seven)
    × (RoundTrip.group (str "channel") ≡ RoundTrip.group (str "supergroup"))
    × ((not (RoundTrip.group (str "channel")) && RoundTrip.channel (str "channel"))
        ≡ (not (RoundTrip.group (str "supergroup")) && RoundTrip.channel (str "supergroup")))
normalize_chat_id-injective_example =
    normalize_chat_id-injective 7 7 (str "channel") (str "supergroup") (omega arith) (omega arith)
      (omega arith) (omega arith) same
  where
    same : normalize_chat_id (pos 7) (str "channel") ≡ normalize_chat_id (pos 7) (str "supergroup")
    same = unfold normalize_chat_id eq_ℤ str_eq in refl

abbrev message_with : ℕ → List ℕ → Message
message_with id chat_type = record {
  id = pos id;
  chat_id = pos 5;
  raw_chat_id = pos 5;
  from_id = pos 5;
  chat_type = chat_type;
  text = str "hello";
  reply_sender = none;
  editor = none;
  deleter = none;
}

abbrev hello : Message
hello = message_with 1 (str "private")

filter_and_iff_example :
    (filter_and (some Filters.private ∷ none ∷ some Filters.text ∷ []) (some hello) ≡ true)
    ↔ AllAccept (some Filters.private ∷ none ∷ some Filters.text ∷ []) (some hello)
filter_and_iff_example =
    filter_and_iff (some Filters.private ∷ none ∷ some Filters.text ∷ []) (some hello)

abbrev four : List ℕ
four = 1 ∷ 2 ∷ 3 ∷ 4 ∷ []

abbrev cached_four : MessageCache ℕ
cached_four = add_all four (new_message_cache (pos 3))

all-add_all_example :
    (MessageCache.all cached_four ≡ last_n 3 four)
    × (MessageCache.last (pos 2) cached_four ≡ last_n 2 (last_n 3 four))
    × ((k : ℕ) → MessageCache.all (add_all four (new_message_cache (negsuc k))) ≡ [])
    × ((k : ℕ) (c : MessageCache ℕ) → MessageCache.last (negsuc k) c ≡ [])
all-add_all_example = all-add_all 3 2 four

abbrev user_peer : ℕ → Peer
user_peer id = peer_of (pos id) (str "user")

abbrev three_peers : List Peer
three_peers = user_peer 1 ∷ user_peer 2 ∷ user_peer 3 ∷ []

all-put_all_example :
    (PeerCache.all (put_all three_peers (new_peer_cache (pos 2))) ≡ listed 2 three_peers [])
    × (PeerCache.get (pos 3) (put_all three_peers (new_peer_cache (pos 2)))
        ≡ find (pos 3) (listed 2 three_peers []))
    × (PeerCache.len (put_all three_peers (new_peer_cache (pos 2)))
        ≡ length (listed 2 three_peers []))
    × (PeerCache.len (put_all three_peers (new_peer_cache (pos 2))) ≤ 2)
all-put_all_example = all-put_all 2 three_peers (pos 3)

-- A handler that counts its calls, and one that fails.
abbrev count : MessageHandler ℕ
count m n = (n + 1, none)

abbrev fail_always : MessageHandler ℕ
fail_always m n = (n, some (msg "no"))

abbrev counting : Dispatcher ℕ
counting = on_message none (some fail_always) (
    on_message (some (λ m. true)) (some count)
      (new_dispatcher (some (with_message_cache_size (pos 2)) ∷ [])))

counting_enabled : counting.config.updates_enabled ≡ true
unfolding on_message new_dispatcher normalize_config apply_options with_message_cache_size
    default_dispatcher_config
counting_enabled = refl

dispatch_message-Runs_example :
    Runs hello counting.message_routes 0
      (dispatch_message (some hello) counting 0).1
      (dispatch_message (some hello) counting 0).2
    × ((dispatch_message (some hello) counting 0).0 ≡ cache_update hello counting)
dispatch_message-Runs_example = dispatch_message-Runs hello counting 0 counting_enabled

abbrev some_messages : List Message
some_messages =
    message_with 1 (str "private")
    ∷ message_with 2 (str "group")
    ∷ message_with 3 (str "private")
    ∷ []

counting_fresh : counting.messages ≡ new_message_cache (pos 2)
unfolding on_message new_dispatcher normalize_config apply_options with_message_cache_size
    default_dispatcher_config new_message_cache
counting_fresh = refl

dispatch_all-cached_example :
    MessageCache.all (dispatch_all some_messages counting 0).messages
    ≡ last_n 2 (wanted counting.config counting.message_routes some_messages)
dispatch_all-cached_example = dispatch_all-cached some_messages counting 0 2 counting_fresh

abbrev options : List (Option DispatcherOption)
options = some (with_message_cache_size (negsuc 4)) ∷ none ∷ []

new_dispatcher_limits_example :
    (pos (new_dispatcher {W = ℕ} options).messages.limit
      ≡ (new_dispatcher {W = ℕ} options).config.message_cache_size)
    × (pos (new_dispatcher {W = ℕ} options).peers.limit
        ≡ (new_dispatcher {W = ℕ} options).config.peer_cache_size)
    × (pos 0 ≤ℤ (new_dispatcher {W = ℕ} options).config.update_queue_size)
    × (pos 1 ≤ℤ (new_dispatcher {W = ℕ} options).config.message_cache_mode)
    × ((new_dispatcher {W = ℕ} options).config.message_cache_mode ≤ℤ pos 4)
new_dispatcher_limits_example = new_dispatcher_limits ℕ options
