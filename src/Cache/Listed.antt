-- ===== src/Cache/Listed.antt =====
-- The peer cache as a list of peers, oldest first: the lists that a cache shows.

use mathlib.Core.List.{map-append}
use mt_pro_go.Prelude.{
  ℕ, ◌<◌, ◌≤◌, ◌≡◌, refl, sym, ap, ◌∙◌, arith, List, [], ◌∷◌, ◌++◌, length, if◌then◌else◌, Option,
  none, some, Bool-cases, inl, inr, All, last_n, map, length-append, append_assoc,
}
use mt_pro_go.Prelude.Int.{ℤ, pos, eq_ℤ, eq_ℤ_iff}
use mt_pro_go.Prelude.Assoc.{
  lookup, insert, erase, int_eq, Unique, lookup-insert, lookup-erase, length-insert_new,
  length-insert_old, insert-Unique, length-erase, erase-Unique,
}
use mt_pro_go.Cache.PeerCache.{Peer, PeerCache, all_from, all}

-- The first peer of the list with the id.
unfoldable pub find : ℤ → List Peer → Option Peer
find id [] = none
find id (q ∷ qs) = if eq_ℤ q.id id then some q else find id qs

-- The list with the peer put in the place of the one that has its id.
unfoldable pub replace : Peer → List Peer → List Peer
replace p [] = []
replace p (q ∷ qs) = if eq_ℤ q.id p.id then p ∷ qs else q ∷ replace p qs

-- No two peers have one id.
unfoldable pub Distinct : List Peer → Type 0
Distinct [] = Unit
Distinct (q ∷ qs) = (find q.id qs ≡ none) × Distinct qs

abbrev pub ids : List Peer → List ℤ
ids = map (λ (p : Peer). p.id)

-- The cache shows the list `xs`: the order is that of `xs`, and the map holds these peers.
pub record Shows (c : PeerCache) (xs : List Peer) : Type 0 where
  pub order : c.order ≡ ids xs
  pub held : (id : ℤ) → lookup id c.items ≡ find id xs
  pub distinct : Distinct xs
  pub unique : Unique c.items
  pub bounded : length xs ≤ c.limit
  pub size : length c.items ≡ length xs

all_from-held :
    (items : List (ℤ × Peer)) (xs : List Peer)
    → All (λ (p : Peer). lookup p.id items ≡ some p) xs
    → all_from (ids xs) items ≡ xs
unfolding all_from
all_from-held items [] h = refl
all_from-held items (x ∷ xs) (here, later) =
    rw (here, all_from) (ap (◌∷◌ x) (all_from-held items xs later))

find_behind :
    (p y : Peer) (ys : List Peer)
    → find y.id ys ≡ none
    → find p.id ys ≡ some p
    → find p.id (y ∷ ys) ≡ some p
unfolding find
find_behind p y ys absent h = elim (Bool-cases (eq_ℤ y.id p.id)) [
  | inl same ↦ absurd (clash (rw ((eq_ℤ_iff y.id p.id).0 same) at absent))
  | inr other ↦ rw other h
]
  where
    clash : find p.id ys ≡ none → ⊥
    clash q = cc

find_self : (p : Peer) (ys : List Peer) → find p.id (p ∷ ys) ≡ some p
unfolding find
find_self p ys = rw ((eq_ℤ_iff p.id p.id).1 refl)

-- Each peer of a list without repeated ids is the one that its id finds.
finds_each :
    (xs front : List Peer)
    → ((p : Peer) → find p.id xs ≡ some p → find p.id (front ++ xs) ≡ some p)
    → Distinct xs
    → All (λ (p : Peer). find p.id (front ++ xs) ≡ some p) xs
unfolding Distinct
finds_each [] front up d = tt
finds_each (x ∷ xs) front up (absent, d) = (
  up x (find_self x xs),
  rw (append_assoc front (x ∷ []) xs) at (
      finds_each xs (front ++ (x ∷ []))
        (λ p h. rw (append_assoc front (x ∷ []) xs) (up p (find_behind p x xs absent h))) d),
)

-- The peers that `All` returns are those that the cache shows, in their order.
pub all-eq_shown : {c : PeerCache} {xs : List Peer} → Shows c xs → all c ≡ xs
unfolding all
all-eq_shown {c} {xs} s =
    rw s.order (all_from-held c.items xs (by_held xs (finds_each xs [] (λ p h. h) s.distinct)))
  where
    by_held :
        (ys : List Peer)
        → All (λ (p : Peer). find p.id xs ≡ some p) ys
        → All (λ (p : Peer). lookup p.id c.items ≡ some p) ys
    by_held [] h = tt
    by_held (y ∷ ys) (here, later) = (s.held y.id ∙ here, by_held ys later)

-- `Put` on the list of peers: an update in place, or a new last peer and the oldest one out.
unfoldable pub put_listed : ℕ → Peer → List Peer → List Peer
put_listed limit p xs =
    if eq_ℤ p.id (pos 0)
    then xs
    else elim (find p.id xs) [ some _ ↦ replace p xs | none ↦ last_n limit (xs ++ (p ∷ [])) ]

find-replace :
    (id : ℤ) (p : Peer) (xs : List Peer) (q : Peer)
    → find p.id xs ≡ some q
    → find id (replace p xs) ≡ (if eq_ℤ p.id id then some p else find id xs)
unfolding find replace
find-replace id p [] q h = cc
find-replace id p (x ∷ xs) q h =
    ground (arith, eq_ℤ_iff x.id p.id, eq_ℤ_iff p.id id, eq_ℤ_iff x.id id, find-replace id p xs q)

ids-replace : (p : Peer) (xs : List Peer) → ids (replace p xs) ≡ ids xs
unfolding replace
ids-replace p [] = refl
ids-replace p (x ∷ xs) = ground (arith, eq_ℤ_iff x.id p.id, ids-replace p xs)

find-append :
    (id : ℤ) (p : Peer) (xs : List Peer)
    → find p.id xs ≡ none
    → find id (xs ++ (p ∷ [])) ≡ (if eq_ℤ p.id id then some p else find id xs)
unfolding find
find-append id p [] h = refl
find-append id p (x ∷ xs) h =
    ground (arith, eq_ℤ_iff x.id p.id, eq_ℤ_iff p.id id, eq_ℤ_iff x.id id, find-append id p xs)

Distinct-replace :
    (p : Peer) (xs : List Peer) (q : Peer)
    → find p.id xs ≡ some q
    → Distinct xs
    → Distinct (replace p xs)
unfolding Distinct replace find
Distinct-replace p [] q h d = tt
Distinct-replace p (x ∷ xs) q h (absent, d) = elim (Bool-cases (eq_ℤ x.id p.id)) [
  | inl same ↦ rw same (rw (← (eq_ℤ_iff x.id p.id).0 same) absent, d)
  | inr other ↦ rw other (
    ground (arith, eq_ℤ_iff x.id p.id, eq_ℤ_iff p.id x.id, find-replace x.id p xs q),
    Distinct-replace p xs q (rw other at h) d,
  )
]

Distinct-append :
    (p : Peer) (xs : List Peer) → find p.id xs ≡ none → Distinct xs → Distinct (xs ++ (p ∷ []))
unfolding Distinct find
Distinct-append p [] h d = (refl, tt)
Distinct-append p (x ∷ xs) h (absent, d) = (
  ground (arith, eq_ℤ_iff x.id p.id, eq_ℤ_iff p.id x.id, find-append x.id p xs),
  Distinct-append p xs (ground arith) d,
)

length-replace : (p : Peer) (xs : List Peer) → length (replace p xs) ≡ length xs
unfolding replace
length-replace p [] = refl
length-replace p (x ∷ xs) = ground (arith, length-replace p xs)

pub Shows-replace :
    (p q : Peer) (c : PeerCache) (xs : List Peer)
    → Shows c xs
    → find p.id xs ≡ some q
    → Shows (record c { items = insert p.id p c.items }) (replace p xs)
Shows-replace p q c xs s known = record {
  order = s.order ∙ sym (ids-replace p xs);
  held = λ id. rw (lookup-insert p.id id p c.items, s.held id) (sym (find-replace id p xs q known));
  distinct = Distinct-replace p xs q known s.distinct;
  unique = insert-Unique p.id p c.items s.unique;
  bounded = omega (arith, s.bounded, length-replace p xs);
  size =
      length-insert_old p.id p q c.items (s.held p.id ∙ known) ∙ s.size ∙ sym (length-replace p xs);
}

pub Shows-append :
    (p : Peer) (c : PeerCache) (xs : List Peer)
    → Shows c xs
    → find p.id xs ≡ none
    → length xs < c.limit
    → Shows
        (record c { order = c.order ++ (p.id ∷ []); items = insert p.id p c.items })
        (xs ++ (p ∷ []))
Shows-append p c xs s new room = record {
  order = ap (λ l. l ++ (p.id ∷ [])) s.order ∙ sym (map-append (λ (q : Peer). q.id) xs (p ∷ []));
  held = λ id. rw (lookup-insert p.id id p c.items, s.held id) (sym (find-append id p xs new));
  distinct = Distinct-append p xs new s.distinct;
  unique = insert-Unique p.id p c.items s.unique;
  bounded = omega (arith, length-append xs (p ∷ []));
  size =
      let grown = length-insert_new p.id p c.items (s.held p.id ∙ new) in
      omega (arith, grown, s.size, length-append xs (p ∷ []));
}

Distinct-tail :
    (x : Peer) (xs : List Peer) → Distinct (x ∷ xs) → (find x.id xs ≡ none) × Distinct xs
unfolding Distinct
Distinct-tail x xs d = d

pub Shows-tail :
    (x : Peer) (c : PeerCache) (xs : List Peer)
    → Shows c (x ∷ xs)
    → Shows (record c { order = ids xs; items = erase x.id c.items }) xs
Shows-tail x c xs s = record {
  order = refl;
  held = λ id. rw (lookup-erase x.id id c.items, s.held id) (without id);
  distinct = (Distinct-tail x xs s.distinct).1;
  unique = erase-Unique x.id c.items s.unique;
  bounded = omega (arith, s.bounded);
  size = omega (arith, s.size, length-erase x.id x c.items s.unique (s.held x.id ∙ find_self x xs));
}
  where
    without : (id : ℤ) → (if eq_ℤ x.id id then none else find id (x ∷ xs)) ≡ find id xs
    without id = unfold find in ground (arith, eq_ℤ_iff x.id id, (Distinct-tail x xs s.distinct).0)
