-- ===== src/Bot/Latest.antt =====
-- mtproto_bot.go: the map after a peer has been remembered, and two peers with one raw id.
use mt_pro_go.Prelude.{
  ℕ, ◌<◌, List, [], ◌∷◌, false, some, ◌≡◌, ◌≢◌, refl, sym, ap, ◌∙◌, arith, inl, inr, Option-cases,
  Bool-cases,
}
use mt_pro_go.Prelude.Int.{ℤ, pos, eq_ℤ, eq_ℤ_iff}
use mt_pro_go.Prelude.Text.{str, str_eq}
use mt_pro_go.Prelude.Assoc.{lookup, insert, lookup-insert, int_eq}
use mt_pro_go.Peers.{PeerRef, peer_ref}
use mt_pro_go.Message.ChatId.{normalize_chat_id, raw_chat_id}
use mt_pro_go.Bot.{Bot}
use mt_pro_go.Bot.Peers.{
  public_peer_id, fill_from, merge_key, merge_peer_locked, get_peer, found_or, store_keys,
  store_peer_locked, remember_peers,
}
use mt_pro_go.Bot.Known.{merge_peer_locked-id}

-- The two keys of a peer lead to it.
lookup-store_keys : (p : PeerRef) (m : List (ℤ × PeerRef)) → lookup p.id (store_keys p m) ≡ some p
lookup-store_keys p m =
    let own : lookup p.id (insert p.id p m) ≡ some p =
      lookup-insert p.id p.id p m ∙ rw ((eq_ℤ_iff p.id p.id).1 refl) refl in
    elim (Bool-cases (eq_ℤ (public_peer_id p) (pos 0))) [
      | inl nil ↦ rw nil own
      | inr set ↦ rw set (
          lookup-insert (public_peer_id p) p.id p (insert p.id p m)
          ∙ elim (Bool-cases (eq_ℤ (public_peer_id p) p.id)) [
            | inl same ↦ rw same refl
            | inr other ↦ rw other own
          ])
    ]

remember_one_lem :
    {W : Type 0} (p : PeerRef) (b : Bot W)
    → p.id ≢ pos 0
    → (remember_peers (p ∷ []) b).peers ≡ store_keys (merge_peer_locked b.peers p) b.peers
unfolding remember_peers store_peer_locked
remember_one_lem p b h =
    let set : eq_ℤ p.id (pos 0) ≡ false = ground (arith, eq_ℤ_iff p.id (pos 0)) in
    let same : eq_ℤ (merge_peer_locked b.peers p).id (pos 0) ≡ false =
      ap (λ i. eq_ℤ i (pos 0)) (merge_peer_locked-id b.peers p) ∙ set in
    rw (set, same) refl

-- A peer that has just been remembered is what its raw id leads to, with the fields that it took
-- from the peers known before.
pub get_peer-remember_peers :
    {W : Type 0} (p : PeerRef) (b : Bot W)
    → p.id ≢ pos 0
    → get_peer (remember_peers (p ∷ []) b).peers p.id ≡ some (merge_peer_locked b.peers p)
unfolding get_peer
get_peer-remember_peers p b h =
    let q = merge_peer_locked b.peers p in
    let here : lookup p.id (store_keys q b.peers) ≡ some q =
      ap (λ i. lookup i (store_keys q b.peers)) (sym (merge_peer_locked-id b.peers p))
      ∙ lookup-store_keys q b.peers in
    rw (remember_one_lem p b h)
      (ap (λ o. found_or o (lookup (raw_chat_id p.id) (store_keys q b.peers))) here)

merge_key-chat :
    (m : List (ℤ × PeerRef)) (key : ℤ) (p : PeerRef)
    → p.kind ≡ str "chat"
    → (merge_key m key p).kind ≡ str "chat"
unfolding merge_key fill_from
merge_key-chat m key p h = elim (Bool-cases (eq_ℤ key (pos 0))) [
  | inl nil ↦ rw nil h
  | inr set ↦ rw set (elim (Option-cases (lookup key m)) [
    | inl absent ↦ rw absent h
    | inr (old, found) ↦ rw (found, h) (unfold str_eq in refl)
  ])
]

-- A basic group takes the place of any peer with the same raw id, also of a user, whose dialog id
-- that is: the private chat's id then leads to the group.
pub group_takes_place :
    {W : Type 0} (n : ℕ) (b : Bot W)
    → 0 < n
    → (p : PeerRef) × (get_peer
          (remember_peers (peer_ref (pos n) (pos 0) (str "chat") ∷ []) b).peers
          (normalize_chat_id (pos n) (str "private"))
        ≡ some p)
      × (p.kind ≡ str "chat")
unfolding merge_peer_locked
group_takes_place n b h =
    let g = peer_ref (pos n) (pos 0) (str "chat") in
    let set : pos n ≢ pos 0 = λ z. absurd (let z' : n ≡ 0 = zero_id z in omega arith) in
    let dialog : normalize_chat_id (pos n) (str "private") ≡ pos n = same_id in
    let set' : eq_ℤ (pos n) (pos 0) ≡ false = ground (arith, eq_ℤ_iff (pos n) (pos 0)) in
    (
      merge_peer_locked b.peers g,
      ap (get_peer (remember_peers (g ∷ []) b).peers) dialog ∙ get_peer-remember_peers g b set,
      rw set' (
          merge_key-chat b.peers (public_peer_id g) (merge_key b.peers (pos n) g)
            (merge_key-chat b.peers (pos n) g refl)),
    )
  where
    zero_id : pos n ≡ pos 0 → n ≡ 0
    zero_id e = cc

    same_id : normalize_chat_id (pos n) (str "private") ≡ pos n
    same_id = unfold normalize_chat_id str_eq eq_ℤ in ground arith
