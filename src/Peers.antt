-- ===== src/Peers.antt =====
-- mtproto/peers.go: the references to users, chats and channels that a response mentions.
use mt_pro_go.Prelude.{
  ℕ, zero, suc, ◌+◌, ◌^◌, ◌<◌, Bool, true, false, ◌&&◌, ◌||◌, not, List, [], ◌∷◌, ◌++◌, Option,
  none, some, ltb, leb, ◌==◌, if◌then◌else◌, length, take, drop, map,
}
use mt_pro_go.Prelude.Int.{ℤ, pos, eq_ℤ}
use mt_pro_go.Prelude.Text.{str, str_eq}
use mt_pro_go.Prelude.Word.{to_int64, has_bit, le_value}
use mt_pro_go.Prelude.Assoc.{Eq, string_eq, lookup, insert}
use mt_pro_go.Peers.Key.{int64_key}
use mt_pro_go.Tl.Constructors.{
  constructor_user, constructor_user_empty, constructor_chat, constructor_chat_forbidden,
  constructor_channel, constructor_channel_legacy, constructor_channel_forbidden,
}
pub mod Key
pub mod Scanned

pub record PeerRef : Type 0 where
  pub id : ℤ
  pub access_hash : ℤ
  pub kind : List ℕ
  pub title : List ℕ
  pub username : List ℕ

-- `PeerRef{ID: id, AccessHash: accessHash, Kind: kind}`.
abbrev pub peer_ref : ℤ → ℤ → List ℕ → PeerRef
peer_ref id access_hash kind = record {
  id = id;
  access_hash = access_hash;
  kind = kind;
  title = [];
  username = [];
}

-- `binary.LittleEndian.Uint32(body[off:])` and `Uint64`.
unfoldable pub uint32_at : List ℕ → ℕ → ℕ
uint32_at body off = le_value (take 4 (drop off body))

unfoldable pub int64_at : List ℕ → ℕ → ℤ
int64_at body off = to_int64 (le_value (take 8 (drop off body)))

abbrev pub channel_kind : ℕ → List ℕ
channel_kind flags = if has_bit flags 8 then str "supergroup" else str "channel"

-- An access hash is read when its flag is set and the body holds it.
abbrev pub hash_at : List ℕ → ℕ → Bool → ℤ
hash_at body off flag =
    if flag && leb (off + 28) (length body) then int64_at body (off + 20) else pos 0

-- The body of the loop: the peer that stands at the offset, if one does.
unfoldable pub peer_at : List ℕ → ℕ → Option PeerRef
peer_at body off =
    let constructor = uint32_at body off in
    let flags = uint32_at body (off + 4) in
    if constructor == constructor_user
    then if ltb (length body) (off + 20)
      then none
      else some
          (peer_ref (int64_at body (off + 12)) (hash_at body off (has_bit flags 0)) (str "user"))
    else if constructor == constructor_user_empty
    then if ltb (length body) (off + 12)
      then none
      else some (peer_ref (int64_at body (off + 4)) (pos 0) (str "user"))
    else if constructor == constructor_chat
    then if ltb (length body) (off + 16)
      then none
      else some (peer_ref (int64_at body (off + 8)) (pos 0) (str "chat"))
    else if constructor == constructor_chat_forbidden
    then if ltb (length body) (off + 12)
      then none
      else some (peer_ref (int64_at body (off + 4)) (pos 0) (str "chat"))
    else if constructor == constructor_channel || constructor == constructor_channel_legacy
    then if ltb (length body) (off + 20)
      then none
      else some (
          peer_ref (int64_at body (off + 12)) (hash_at body off (has_bit flags 13))
            (channel_kind flags))
    else if constructor == constructor_channel_forbidden
    then if ltb (length body) (off + 24)
      then none
      else some (peer_ref (int64_at body (off + 8)) (int64_at body (off + 16)) (channel_kind flags))
    else none

-- The map `seen` of `scanPeerRefs`.
abbrev pub Seen : Type 0
Seen = List (List ℕ × PeerRef)

abbrev pub peer_key : PeerRef → List ℕ
peer_key p = p.kind ++ (str ":" ++ int64_key p.id)

-- A known peer keeps what it has and takes the fields that it lacks.
unfoldable pub merge_ref : PeerRef → PeerRef → PeerRef
merge_ref old peer = record old {
  access_hash =
      if eq_ℤ old.access_hash (pos 0) && not (eq_ℤ peer.access_hash (pos 0))
      then peer.access_hash
      else old.access_hash;
  title = if str_eq old.title [] && not (str_eq peer.title []) then peer.title else old.title;
  username =
      if str_eq old.username [] && not (str_eq peer.username [])
      then peer.username
      else old.username;
}

unfoldable pub merged_with : Option PeerRef → PeerRef → PeerRef
merged_with none peer = peer
merged_with (some old) peer = merge_ref old peer

unfoldable pub put : PeerRef → Seen → Seen
put peer seen =
    if eq_ℤ peer.id (pos 0) || str_eq peer.kind []
    then seen
    else insert (peer_key peer) (merged_with (lookup (peer_key peer) seen) peer) seen

unfoldable pub put_found : Option PeerRef → Seen → Seen
put_found none seen = seen
put_found (some peer) seen = put peer seen

-- `for off := 0; off+12 <= len(body); off += 4`. One unit of fuel for each byte is enough.
unfoldable pub scan_from : ℕ → List ℕ → ℕ → Seen → Seen
scan_from zero body off seen = seen
scan_from (suc fuel) body off seen =
    let rest = scan_from fuel body (off + 4) (put_found (peer_at body off) seen) in
    if leb (off + 12) (length body) then rest else seen

-- A Go map is listed in any order; here it is the order of the first sighting.
unfoldable pub scan_peer_refs : List ℕ → List PeerRef
scan_peer_refs body = map (λ e. e.1) (scan_from (length body) body 0 [])

unfoldable pub only_users : List PeerRef → List PeerRef
only_users [] = []
only_users (p ∷ ps) =
    let rest = only_users ps in if str_eq p.kind (str "user") then p ∷ rest else rest

unfoldable pub scan_user_refs : List ℕ → List PeerRef
scan_user_refs body = only_users (scan_peer_refs body)

-- `DifferenceResult.UserAccessHash`, over its peers.
unfoldable pub user_access_hash : List PeerRef → ℤ → Option ℤ
user_access_hash [] user_id = none
user_access_hash (p ∷ ps) user_id =
    let rest = user_access_hash ps user_id in
    if eq_ℤ user_id (pos 0)
    then none
    else if eq_ℤ p.id user_id && not (eq_ℤ p.access_hash (pos 0)) && str_eq p.kind (str "user")
    then some p.access_hash
    else rest
