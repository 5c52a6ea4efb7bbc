-- ===== src/Cache/Eviction.antt =====
-- What `Put` does to the list of peers that the cache shows, and what `Get` finds in it.
use mathlib.Core.Path.{subst}
use mt_pro_go.Prelude.{
  ℕ, suc, ◌-◌, ◌<◌, ◌≤◌, ◌≡◌, refl, ap, ◌∙◌, arith, List, [], ◌∷◌, ◌++◌, false, length, ltb, none,
  some, Bool-cases, Option-cases, inl, inr, drop, last_n, length-append, ltb→lt, ltb→le,
}
use mt_pro_go.Prelude.Int.{ℤ, pos, eq_ℤ}
use mt_pro_go.Prelude.Assoc.{lookup, insert, erase, int_eq, Unique}
use mt_pro_go.Cache.PeerCache.{Peer, PeerCache, new_peer_cache, len, evict, put, get, all}
use mt_pro_go.Cache.Listed.{
  find, Distinct, ids, Shows, all-eq_shown, put_listed, Shows-replace, Shows-append, Shows-tail,
}

evict_room : (c : PeerCache) → length c.order < c.limit → evict c ≡ c
unfolding evict
evict_room c h = ground arith

evict_full :
    (c : PeerCache) (old : ℤ) (rest : List ℤ)
    → c.limit ≤ length c.order
    → c.order ≡ old ∷ rest
    → evict c ≡ record c { order = rest; items = erase old c.items }
unfolding evict
evict_full c old rest full e = ground arith

length-ids : (xs : List Peer) → length (ids xs) ≡ length xs
length-ids [] = refl
length-ids (x ∷ xs) = ap suc (length-ids xs)

last_n_all : (n : ℕ) (xs : List Peer) → length xs ≤ n → last_n n xs ≡ xs
last_n_all n xs h = ap (λ k. drop k xs) all_of
  where
    all_of : length xs - n ≡ 0
    all_of = omega arith

last_n_tail :
    (n : ℕ) (x p : Peer) (xs : List Peer)
    → length (x ∷ xs) ≡ n
    → last_n n ((x ∷ xs) ++ (p ∷ [])) ≡ xs ++ (p ∷ [])
last_n_tail n x p xs h = ap (λ k. drop k ((x ∷ xs) ++ (p ∷ []))) one
  where
    one : length ((x ∷ xs) ++ (p ∷ [])) - n ≡ 1
    one = omega (arith, length-append (x ∷ xs) (p ∷ []))

-- The new peer's part of `put`, behind the eviction.
put_new :
    (p : Peer) (c : PeerCache) (xs : List Peer)
    → Shows c xs
    → find p.id xs ≡ none
    → 0 < c.limit
    → Shows
        (record (evict c) {
          order = (evict c).order ++ (p.id ∷ []);
          items = insert p.id p (evict c).items;
        })
        (last_n c.limit (xs ++ (p ∷ [])))
put_new p c xs s new positive = elim (Bool-cases (ltb (length c.order) c.limit)) [
  | inl free ↦
      let room : length xs < c.limit =
        omega (arith, ltb→lt _ _ free, ap length s.order, length-ids xs) in
      rw
        (
          evict_room c (ltb→lt _ _ free),
          last_n_all c.limit (xs ++ (p ∷ [])) (omega (arith, length-append xs (p ∷ []))),
        )
        (Shows-append p c xs s new room)
  | inr none_free ↦ full xs s new (ltb→le _ _ none_free)
]
  where
    full :
        (ys : List Peer)
        → Shows c ys
        → find p.id ys ≡ none
        → c.limit ≤ length c.order
        → Shows
            (record (evict c) {
              order = (evict c).order ++ (p.id ∷ []);
              items = insert p.id p (evict c).items;
            })
            (last_n c.limit (ys ++ (p ∷ [])))
    full [] t absent size = absurd (omega (arith, ap length t.order))
    full (y ∷ ys) t absent size =
        let e = evict_full c y.id (ids ys) size t.order in
        let at_limit : length (y ∷ ys) ≡ c.limit =
          omega (arith, t.bounded, ap length t.order, length-ids ys) in
        let missing : find p.id ys ≡ none = unfold find in ground arith in
        rw (e, last_n_tail c.limit y p ys at_limit)
          (Shows-append p (record c { order = ids ys; items = erase y.id c.items }) ys
            (Shows-tail y c ys t) missing (omega arith))

put-limit : (p : Peer) (c : PeerCache) → (put p c).limit ≡ c.limit
unfolding put evict
put-limit p c = ground arith

put_known :
    (p q : Peer) (c : PeerCache)
    → eq_ℤ p.id (pos 0) ≡ false
    → 0 < c.limit
    → lookup p.id c.items ≡ some q
    → put p c ≡ record c { items = insert p.id p c.items }
unfolding put
put_known p q c h positive e = ground arith

put_unknown :
    (p : Peer) (c : PeerCache)
    → eq_ℤ p.id (pos 0) ≡ false
    → 0 < c.limit
    → lookup p.id c.items ≡ none
    → put p c ≡ record (evict c) {
      order = (evict c).order ++ (p.id ∷ []);
      items = insert p.id p (evict c).items;
    }
unfolding put
put_unknown p c h positive e = ground arith

put_disabled : (p : Peer) (c : PeerCache) → c.limit ≡ 0 → put p c ≡ c
unfolding put
put_disabled p c h = ground arith

put-Shows_positive :
    (p : Peer) (c : PeerCache) (xs : List Peer)
    → Shows c xs
    → eq_ℤ p.id (pos 0) ≡ false
    → 0 < c.limit
    → Shows (put p c) (put_listed c.limit p xs)
unfolding put_listed
put-Shows_positive p c xs s h positive = elim (Option-cases (find p.id xs)) [
  | inl new ↦
      rw (put_unknown p c h positive (s.held p.id ∙ new), h, new) (put_new p c xs s new positive)
  | inr (q, known) ↦
      rw (put_known p q c h positive (s.held p.id ∙ known), h, known)
        (Shows-replace p q c xs s known)
]

put-Shows_disabled :
    (p : Peer) (c : PeerCache) (xs : List Peer)
    → Shows c xs
    → c.limit ≡ 0
    → Shows (put p c) (put_listed c.limit p xs)
unfolding put_listed find
put-Shows_disabled p c [] s e = rw put_disabled (subst (Shows c) nothing s)
  where
    nothing : [] ≡ put_listed c.limit p []
    nothing = elim (Bool-cases (eq_ℤ p.id (pos 0))) [
      | inl ignored ↦ rw ignored refl
      | inr h ↦ rw (h, e) refl
    ]
put-Shows_disabled p c (x ∷ xs) s e = absurd (omega (arith, s.bounded))

-- `Put` does to the cache what `put_listed` does to the list that it shows: a peer with id 0 is
-- ignored, a known peer is updated in its place, and a new one becomes the last, with the oldest
-- out if there is no room.
pub put-Shows :
    (p : Peer) (c : PeerCache) (xs : List Peer)
    → Shows c xs
    → Shows (put p c) (put_listed c.limit p xs)
unfolding put put_listed
put-Shows p c xs s = elim (Bool-cases (eq_ℤ p.id (pos 0))) [
  | inl ignored ↦ rw ignored s
  | inr h ↦ elim (Bool-cases (ltb 0 c.limit)) [
    | inl positive ↦ put-Shows_positive p c xs s h (ltb→lt _ _ positive)
    | inr off ↦ put-Shows_disabled p c xs s (omega (arith, ltb→le _ _ off))
  ]
]

pub put_all : List Peer → PeerCache → PeerCache
put_all [] c = c
put_all (p ∷ ps) c = put_all ps (put p c)

pub listed : ℕ → List Peer → List Peer → List Peer
listed limit [] xs = xs
listed limit (p ∷ ps) xs = listed limit ps (put_listed limit p xs)

put_all-Shows :
    (ps : List Peer) (c : PeerCache) (xs : List Peer)
    → Shows c xs
    → Shows (put_all ps c) (listed c.limit ps xs)
unfolding put_all listed
put_all-Shows [] c xs s = s
put_all-Shows (p ∷ ps) c xs s =
    subst (λ n. Shows (put_all ps (put p c)) (listed n ps (put_listed c.limit p xs)))
      (put-limit p c) (put_all-Shows ps (put p c) (put_listed c.limit p xs) (put-Shows p c xs s))

put_all-limit : (ps : List Peer) (c : PeerCache) → (put_all ps c).limit ≡ c.limit
unfolding put_all
put_all-limit [] c = refl
put_all-limit (p ∷ ps) c = put_all-limit ps (put p c) ∙ put-limit p c

pub new-Shows : (size : ℕ) → Shows (new_peer_cache (pos size)) []
unfolding new_peer_cache find Distinct Unique lookup
new-Shows size = record {
  order = refl;
  held = λ id. refl;
  distinct = tt;
  unique = tt;
  bounded = omega arith;
  size = refl;
}

-- After any sequence of `Put`s to a new cache of `size` peers: `All` is the list that `put_listed`
-- makes of them, `Get` finds what that list holds, and there are never more than `size` peers.
pub all-put_all :
    (size : ℕ) (ps : List Peer) (id : ℤ)
    → (all (put_all ps (new_peer_cache (pos size))) ≡ listed size ps [])
      × (get id (put_all ps (new_peer_cache (pos size))) ≡ find id (listed size ps []))
      × (len (put_all ps (new_peer_cache (pos size))) ≡ length (listed size ps []))
      × (len (put_all ps (new_peer_cache (pos size))) ≤ size)
unfolding new_peer_cache get
all-put_all size ps id = (
  all-eq_shown s,
  s.held id,
  s.size,
  omega (arith, s.size, s.bounded, put_all-limit ps (new_peer_cache (pos size))),
)
  where
    s : Shows (put_all ps (new_peer_cache (pos size))) (listed size ps [])
    s = put_all-Shows ps (new_peer_cache (pos size)) [] (new-Shows size)
