-- ===== src/Peers/Scanned.antt =====
-- mtproto/peers.go: the fuel of the scan of a response, and the search for an access hash.
use mt_pro_go.Prelude.{
  ℕ, zero, suc, ◌+◌, ◌*◌, ◌<◌, ◌≡◌, ◌≢◌, refl, arith, ◌&&◌, not, List, [], ◌∷◌, some, leb, length,
  Bool-cases, inl, inr, Any,
}
use mt_pro_go.Prelude.Int.{ℤ, pos, eq_ℤ, eq_ℤ_iff}
use mt_pro_go.Prelude.Text.{str, str_eq, str_eq_iff}
use mt_pro_go.Peers.{PeerRef, Seen, peer_at, put_found, scan_from, user_access_hash}

-- A round that finds the end of the body leaves the map alone, so more fuel changes nothing.
scan_from_enough :
    (fuel more : ℕ) (body : List ℕ) (off : ℕ) (seen : Seen)
    → length body < off + 12 + 4 * fuel
    → scan_from (fuel + more) body off seen ≡ scan_from fuel body off seen
unfolding scan_from
scan_from_enough zero zero body off seen h = refl
scan_from_enough zero (suc more) body off seen h = ground arith
scan_from_enough (suc fuel) more body off seen h =
    let one_more : suc fuel + more ≡ suc (fuel + more) = omega arith in
    let rest = scan_from_enough fuel more body (off + 4) (put_found (peer_at body off) seen) in
    rw one_more (elim (Bool-cases (leb (off + 12) (length body))) [
      | inl inside ↦ rw inside (rest (omega arith))
      | inr outside ↦ rw outside refl
    ])

-- The access hash of a user is the one of a peer of the list.
pub IsHashOf : ℤ → ℤ → PeerRef → Type 0
IsHashOf user_id hash p = (p.id ≡ user_id) × (p.access_hash ≡ hash) × (p.kind ≡ str "user")

-- What `UserAccessHash` returns stands in the list, on a peer that is a user with that id; neither
-- the id nor the hash is zero.
pub user_access_hash_sound :
    (peers : List PeerRef) (user_id hash : ℤ)
    → user_access_hash peers user_id ≡ some hash
    → Any (IsHashOf user_id hash) peers × (hash ≢ pos 0) × (user_id ≢ pos 0)
unfolding user_access_hash IsHashOf
user_access_hash_sound [] user_id hash h = absurd (cc h)
user_access_hash_sound (p ∷ ps) user_id hash h =
    elim (Bool-cases
      (eq_ℤ p.id user_id && not (eq_ℤ p.access_hash (pos 0)) && str_eq p.kind (str "user"))) [
        | inl here ↦
            let facts : (IsHashOf user_id hash p) × (hash ≢ pos 0) × (user_id ≢ pos 0) = ground (
              arith,
              eq_ℤ_iff p.id user_id,
              eq_ℤ_iff p.access_hash (pos 0),
              eq_ℤ_iff user_id (pos 0),
              str_eq_iff p.kind (str "user"),
            ) in
            (inl facts.0, facts.1, facts.2)
        | inr other ↦
            let later : user_access_hash ps user_id ≡ some hash = ground arith in
            let (found, h₁, h₂) = user_access_hash_sound ps user_id hash later in
            (inr found, h₁, h₂)
      ]
