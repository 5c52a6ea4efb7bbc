-- ===== src/Bot/Known.antt =====
-- mtproto_bot.go: which peers the map knows after some have been remembered.
use mathlib.Core.Path.{subst}
use mt_pro_go.Prelude.{
  List, [], ◌∷◌, false, some, ◌≡◌, ◌≢◌, refl, sym, ap, ◌∙◌, arith, if◌then◌else◌, Any, Bool-cases,
  Option-cases, inl, inr,
}
use mt_pro_go.Prelude.Int.{ℤ, pos, eq_ℤ, eq_ℤ_iff}
use mt_pro_go.Prelude.Assoc.{lookup, insert, lookup-insert, int_eq}
use mt_pro_go.Peers.{PeerRef}
use mt_pro_go.Bot.{Bot}
use mt_pro_go.Bot.Peers.{
  public_peer_id, fill_from, merge_key, merge_peer_locked, get_peer, store_keys, store_peer_locked,
  remember_peers,
}

-- The map has an entry.
abbrev pub Has : ℤ → List (ℤ × PeerRef) → Type 0
Has id peers = (p : PeerRef) × (lookup id peers ≡ some p)

-- `getPeer` finds a peer.
abbrev pub Known : ℤ → List (ℤ × PeerRef) → Type 0
Known id peers = (p : PeerRef) × (get_peer peers id ≡ some p)

insert-Has : (k j : ℤ) (p : PeerRef) (m : List (ℤ × PeerRef)) → Has j m → Has j (insert k p m)
insert-Has k j p m (q, h) = elim (Bool-cases (eq_ℤ k j)) [
  | inl same ↦ (p, lookup-insert k j p m ∙ rw same refl)
  | inr other ↦ (q, lookup-insert k j p m ∙ rw other h)
]

insert_same-Has : (k : ℤ) (p : PeerRef) (m : List (ℤ × PeerRef)) → Has k (insert k p m)
insert_same-Has k p m = (p, lookup-insert k k p m ∙ rw ((eq_ℤ_iff k k).1 refl) refl)

store_keys-Has : (j : ℤ) (p : PeerRef) (m : List (ℤ × PeerRef)) → Has j m → Has j (store_keys p m)
store_keys-Has j p m h = elim (Bool-cases (eq_ℤ (public_peer_id p) (pos 0))) [
  | inl nil ↦ rw nil (insert-Has p.id j p m h)
  | inr set ↦ rw set (insert-Has (public_peer_id p) j p _ (insert-Has p.id j p m h))
]

store_same-Has : (p : PeerRef) (m : List (ℤ × PeerRef)) → Has p.id (store_keys p m)
store_same-Has p m = elim (Bool-cases (eq_ℤ (public_peer_id p) (pos 0))) [
  | inl nil ↦ rw nil (insert_same-Has p.id p m)
  | inr set ↦ rw set (insert-Has (public_peer_id p) p.id p _ (insert_same-Has p.id p m))
]

-- A peer keeps its id when it takes fields from those known.
merge_key-id : (m : List (ℤ × PeerRef)) (key : ℤ) (p : PeerRef) → (merge_key m key p).id ≡ p.id
unfolding merge_key fill_from
merge_key-id m key p = elim (Bool-cases (eq_ℤ key (pos 0))) [
  | inl nil ↦ rw nil refl
  | inr set ↦ rw set (elim (Option-cases (lookup key m)) [
    | inl absent ↦ rw absent refl
    | inr (old, found) ↦ rw found refl
  ])
]

pub merge_peer_locked-id :
    (m : List (ℤ × PeerRef)) (p : PeerRef) → (merge_peer_locked m p).id ≡ p.id
unfolding merge_peer_locked
merge_peer_locked-id m p = elim (Bool-cases (eq_ℤ p.id (pos 0))) [
  | inl nil ↦ rw nil refl
  | inr set ↦
      rw set (merge_key-id m (public_peer_id p) (merge_key m p.id p) ∙ merge_key-id m p.id p)
]

module _ {W : Type 0} where
  -- One round of the loop.
  remember_one : PeerRef → Bot W → Bot W
  remember_one p b =
      if eq_ℤ p.id (pos 0) then b else store_peer_locked (merge_peer_locked b.peers p) b

  remember_one-peers :
      (p : PeerRef) (b : Bot W)
      → eq_ℤ p.id (pos 0) ≡ false
      → (remember_one p b).peers ≡ store_keys (merge_peer_locked b.peers p) b.peers
  unfolding remember_one store_peer_locked
  remember_one-peers p b h =
      let same : eq_ℤ (merge_peer_locked b.peers p).id (pos 0) ≡ false =
        ap (λ i. eq_ℤ i (pos 0)) (merge_peer_locked-id b.peers p) ∙ h in
      rw (h, same) refl

  remember_one-Has :
      (id : ℤ) (p : PeerRef) (b : Bot W) → Has id b.peers → Has id (remember_one p b).peers
  remember_one-Has id p b h = elim (Bool-cases (eq_ℤ p.id (pos 0))) [
    | inl nil ↦ unfold remember_one in rw nil h
    | inr set ↦
        rw (remember_one-peers p b set) (store_keys-Has id (merge_peer_locked b.peers p) b.peers h)
  ]

  remember_one-Has_it : (p : PeerRef) (b : Bot W) → p.id ≢ pos 0 → Has p.id (remember_one p b).peers
  remember_one-Has_it p b h =
      let yes : eq_ℤ p.id (pos 0) ≡ false = ground (arith, eq_ℤ_iff p.id (pos 0)) in
      let q = merge_peer_locked b.peers p in
      let (r, e) = store_same-Has q b.peers in
      rw (remember_one-peers p b yes)
        (r, ap (λ i. lookup i (store_keys q b.peers)) (sym (merge_peer_locked-id b.peers p)) ∙ e)

  remember_all-Has :
      (id : ℤ) (ps : List PeerRef) (b : Bot W) → Has id b.peers → Has id (remember_peers ps b).peers
  unfolding remember_peers remember_one
  remember_all-Has id [] b h = h
  remember_all-Has id (p ∷ ps) b h =
      remember_all-Has id ps (remember_one p b) (remember_one-Has id p b h)

  pub remember_listed-Has :
      (id : ℤ) (ps : List PeerRef) (b : Bot W)
      → id ≢ pos 0
      → Any (λ p. p.id ≡ id) ps
      → Has id (remember_peers ps b).peers
  unfolding remember_peers remember_one
  remember_listed-Has id [] b h none_left = absurd none_left
  remember_listed-Has id (p ∷ ps) b h (inl e) =
      let here : Has id (remember_one p b).peers =
        subst (λ i. Has i (remember_one p b).peers) e
          (remember_one-Has_it p b (λ z. h (sym e ∙ z))) in
      remember_all-Has id ps (remember_one p b) here
  remember_listed-Has id (p ∷ ps) b h (inr later) =
      remember_listed-Has id ps (remember_one p b) h later
