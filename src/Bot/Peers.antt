-- ===== src/Bot/Peers.antt =====
-- mtproto_bot.go: the map of known peers, under their raw ids and under their dialog ids.
use mt_pro_go.Prelude.{
  ℕ, List, [], ◌∷◌, ◌++◌, Bool, true, ◌||◌, ◌&&◌, not, Option, none, some, if◌then◌else◌,
}
use mt_pro_go.Prelude.Int.{ℤ, pos, eq_ℤ}
use mt_pro_go.Prelude.Text.{str, str_eq}
use mt_pro_go.Prelude.Assoc.{lookup, insert, int_eq, string_eq}
use mt_pro_go.Peers.{PeerRef, peer_ref, peer_key}
use mt_pro_go.Message.ChatId.{normalize_chat_id, raw_chat_id}
use mt_pro_go.Cache.PeerCache.{Peer}
use mt_pro_go.Dispatcher.Dispatch.{put_peer}
use mt_pro_go.Difference.TextMessage.{TextMessage}
use mt_pro_go.Bot.{Bot}

unfoldable pub update_chat_type : List ℕ → List ℕ
update_chat_type kind =
    if str_eq kind (str "user")
    then str "private"
    else if str_eq kind (str "chat")
    then str "group"
    else if str_eq kind (str "supergroup")
    then str "supergroup"
    else if str_eq kind (str "channel")
    then str "channel"
    else []

unfoldable pub public_peer_id : PeerRef → ℤ
public_peer_id p = normalize_chat_id p.id (update_chat_type p.kind)

-- What a known peer gives to one that is stored again: the fields that this one lacks, and the
-- more specific kind.
unfoldable pub fill_from : PeerRef → PeerRef → PeerRef
fill_from old peer = record peer {
  access_hash = if eq_ℤ peer.access_hash (pos 0) then old.access_hash else peer.access_hash;
  kind =
      if str_eq peer.kind []
        || (str_eq peer.kind (str "channel") && str_eq old.kind (str "supergroup"))
      then old.kind
      else peer.kind;
  username = if str_eq peer.username [] then old.username else peer.username;
  title = if str_eq peer.title [] then old.title else peer.title;
}

-- The body of the loop over the two keys.
unfoldable pub merge_key : List (ℤ × PeerRef) → ℤ → PeerRef → PeerRef
merge_key peers key peer =
    if eq_ℤ key (pos 0)
    then peer
    else elim (lookup key peers) [ none ↦ peer | some old ↦ fill_from old peer ]

-- Both keys are those of the peer as it is given.
unfoldable pub merge_peer_locked : List (ℤ × PeerRef) → PeerRef → PeerRef
merge_peer_locked peers peer =
    if eq_ℤ peer.id (pos 0)
    then peer
    else merge_key peers (public_peer_id peer) (merge_key peers peer.id peer)

abbrev pub found_or : Option PeerRef → Option PeerRef → Option PeerRef
found_or (some p) other = some p
found_or none other = other

unfoldable pub get_peer : List (ℤ × PeerRef) → ℤ → Option PeerRef
get_peer peers id = found_or (lookup id peers) (lookup (raw_chat_id id) peers)

-- The entry of the dispatcher's cache.
abbrev pub cached_peer : PeerRef → Peer
cached_peer p = record {
  id = public_peer_id p;
  access_hash = p.access_hash;
  kind = p.kind;
  username = p.username;
  first_name = [];
  last_name = [];
  title = p.title;
}

abbrev pub store_keys : PeerRef → List (ℤ × PeerRef) → List (ℤ × PeerRef)
store_keys peer peers =
    let m = insert peer.id peer peers in
    if eq_ℤ (public_peer_id peer) (pos 0) then m else insert (public_peer_id peer) peer m

module _ {W : Type 0} where
  unfoldable pub store_peer_locked : PeerRef → Bot W → Bot W
  store_peer_locked peer b = if eq_ℤ peer.id (pos 0) then b else record b {
    peers = store_keys peer b.peers;
    dispatcher = put_peer (cached_peer peer) b.dispatcher;
  }

  unfoldable pub remember_peers : List PeerRef → Bot W → Bot W
  remember_peers [] b = b
  remember_peers (p ∷ ps) b =
      let b' = if eq_ℤ p.id (pos 0) then b else store_peer_locked (merge_peer_locked b.peers p) b in
      remember_peers ps b'

-- The loop of `snapshotPeers` over the values of the map, with the keys it has seen.
unfoldable pub snapshot_from : List (ℤ × PeerRef) → List (List ℕ × Bool) → List PeerRef
snapshot_from [] seen = []
snapshot_from ((k, p) ∷ m) seen = elim (lookup (peer_key p) seen) [
  | some _ ↦ snapshot_from m seen
  | none ↦
      let skipped = snapshot_from m seen in
      let kept = p ∷ snapshot_from m (insert (peer_key p) true seen) in
      if eq_ℤ p.id (pos 0) then skipped else kept
]

unfoldable pub snapshot_peers : List (ℤ × PeerRef) → List PeerRef
snapshot_peers peers = snapshot_from peers []

unfoldable pub peers_from_text_message : TextMessage → List PeerRef
peers_from_text_message m =
    (if not (eq_ℤ m.chat_id (pos 0)) && not (str_eq m.chat_kind [])
      then peer_ref m.chat_id (pos 0) m.chat_kind ∷ []
      else [])
    ++ (if not (eq_ℤ m.from_id (pos 0)) && not (str_eq m.from_kind [])
        then peer_ref m.from_id (pos 0) m.from_kind ∷ []
        else [])
