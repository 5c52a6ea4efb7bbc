-- ===== src/Highlevel/Resolve.antt =====
-- mtproto/highlevel.go, `parseResolvedPeer` and `parsePeerAt`.
use mt_pro_go.Prelude.{
  ℕ, ◌+◌, List, [], ◌∷◌, Bool, ◌||◌, ◌&&◌, Option, none, some, ltb, ◌==◌, not, length,
  if◌then◌else◌,
}
use mt_pro_go.Prelude.Int.{ℤ, pos, eq_ℤ}
use mt_pro_go.Prelude.Text.{str, str_eq}
use mt_pro_go.Tl.Constructors.{
  constructor_contacts_resolved_peer, constructor_peer_user, constructor_peer_chat,
  constructor_peer_channel,
}
use mt_pro_go.Peers.{PeerRef, peer_ref, uint32_at, int64_at, scan_peer_refs}

unfoldable pub parse_peer_at : List ℕ → ℕ → Option (List ℕ × ℤ)
parse_peer_at body off =
    let constructor = uint32_at body off in
    let id = int64_at body (off + 4) in
    if ltb (length body) (off + 12)
    then none
    else if constructor == constructor_peer_user
    then some (str "user", id)
    else if constructor == constructor_peer_chat
    then some (str "chat", id)
    else if constructor == constructor_peer_channel
    then some (str "channel", id)
    else none

abbrev pub first : List PeerRef → Option PeerRef
first [] = none
first (p ∷ ps) = some p

-- Whether a peer is the one that the response names.
abbrev pub matches : List ℕ → ℤ → PeerRef → Bool
matches kind id p =
    eq_ℤ p.id id
    && (str_eq kind []
        || str_eq p.kind kind
        || (str_eq kind (str "channel") && str_eq p.kind (str "supergroup")))

unfoldable pub match_in : List ℕ → ℤ → List PeerRef → PeerRef
match_in kind id [] = peer_ref id (pos 0) kind
match_in kind id (p ∷ ps) = let rest = match_in kind id ps in if matches kind id p then p else rest

-- `all` is what the scan of the response finds.
unfoldable pub resolve_in : List ℕ → List PeerRef → Option PeerRef
resolve_in body all =
    if ltb (length body) 16 || not (uint32_at body 0 == constructor_contacts_resolved_peer)
    then first all
    else elim (parse_peer_at body 4) [
      | none ↦ first all
      | some (kind, id) ↦ some (match_in kind id all)
    ]

unfoldable pub parse_resolved_peer : List ℕ → Option PeerRef
parse_resolved_peer body = resolve_in body (scan_peer_refs body)
