-- ===== src/Cache/PeerCache.antt =====
-- updates/cache.go, `PeerCache`: at most `limit` peers, the first one stored leaving first. The
-- field `Raw` of a peer is only carried along and is left out; a nil cache is not modelled.
use mt_pro_go.Prelude.{ℕ, List, [], ◌∷◌, ◌++◌, length, ltb, ◌==◌, if◌then◌else◌, Option, none, some}
use mt_pro_go.Prelude.Int.{ℤ, pos, negsuc, eq_ℤ}
use mt_pro_go.Prelude.Assoc.{lookup, insert, erase, int_eq}

pub record Peer : Type 0 where
  pub id : ℤ
  pub access_hash : ℤ
  pub kind : List ℕ
  pub username : List ℕ
  pub first_name : List ℕ
  pub last_name : List ℕ
  pub title : List ℕ

pub record PeerCache : Type 0 where
  pub limit : ℕ
  pub order : List ℤ
  pub items : List (ℤ × Peer)

-- `NewPeerCache`, with its clamp of a negative size.
unfoldable pub new_peer_cache : ℤ → PeerCache
new_peer_cache (pos n) = record { limit = n; order = []; items = [] }
new_peer_cache (negsuc n) = record { limit = 0; order = []; items = [] }

abbrev pub len : PeerCache → ℕ
len c = length c.items

-- `if len(c.order) >= c.limit { … }`: the oldest peer leaves.
unfoldable pub evict : PeerCache → PeerCache
evict c =
    if ltb (length c.order) c.limit
    then c
    else elim c.order [ [] ↦ c | old ∷ rest ↦ record c { order = rest; items = erase old c.items } ]

unfoldable pub put : Peer → PeerCache → PeerCache
put peer c =
    if eq_ℤ peer.id (pos 0) then c else if c.limit == 0 then c else elim (lookup peer.id c.items) [
      | some _ ↦ record c { items = insert peer.id peer c.items }
      | none ↦
          let c' = evict c in
          record c' { order = c'.order ++ (peer.id ∷ []); items = insert peer.id peer c'.items }
    ]

unfoldable pub get : ℤ → PeerCache → Option Peer
get id c = lookup id c.items

-- The loop of `All` over the order.
unfoldable pub all_from : List ℤ → List (ℤ × Peer) → List Peer
all_from [] items = []
all_from (id ∷ ids) items = elim (lookup id items) [
  | some peer ↦ peer ∷ all_from ids items
  | none ↦ all_from ids items
]

unfoldable pub all : PeerCache → List Peer
all c = all_from c.order c.items
