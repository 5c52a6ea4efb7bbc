-- ===== src/Cache/Ring.antt =====
-- updates/cache.go, `MessageCache`: the ring that holds the messages, oldest entry first.
use mathlib.Core.Path.{ap₂}
use native.Mathlib.Decide.{dec_lt}
use native.Mathlib.Nat.{mod-eq_of_lt}
use mt_pro_go.Prelude.{
  ℕ, zero, suc, ◌+◌, ◌-◌, ◌%◌, ◌<◌, ◌≤◌, ◌≡◌, refl, sym, ap, ◌∙◌, arith, List, [], ◌∷◌, ◌++◌, true,
  false, length, take, drop, set, last_n, length-append, length-set, append-nil, drop_all,
  Bool-cases, inl, inr,
}
use mt_pro_go.Prelude.Int.{ℤ, pos, negsuc}
use mt_pro_go.Cache.MessageCache.{MessageCache, new_message_cache, add, ordered}

module _ {M : Type 0} where
  -- Either the ring still grows from its start, or it is full and `position` is the oldest entry.
  pub record IsValid (c : MessageCache M) : Type 0 where
    pub bounded : length c.items ≤ c.limit
    pub growing : c.full ≡ false → c.position ≡ 0
    pub wrapped : c.full ≡ true → (length c.items ≡ c.limit) × (c.position < c.limit)

  pub new-IsValid : (size : ℤ) → IsValid (new_message_cache size)
  unfolding new_message_cache
  new-IsValid (pos n) = ground arith
  new-IsValid (negsuc n) = ground arith

  pub add-IsValid : (m : M) (c : MessageCache M) → IsValid c → IsValid (add m c)
  unfolding add
  add-IsValid m c v =
      ground (
        arith,
        length-append c.items (m ∷ []),
        length-set c.items c.position m,
        v.growing,
        v.wrapped,
      )

  set-split :
      (xs : List M) (i : ℕ) (m : M)
      → i < length xs
      → set xs i m ≡ take i xs ++ (m ∷ drop (suc i) xs)
  set-split [] i m h = absurd (omega arith)
  set-split (x ∷ xs) zero m h = refl
  set-split (x ∷ xs) (suc i) m h = ap (◌∷◌ x) (set-split xs i m (omega arith))

  pub drop-split : (xs : List M) (i : ℕ) → i < length xs → drop 1 (drop i xs) ≡ drop (suc i) xs
  drop-split [] i h = absurd (omega arith)
  drop-split (x ∷ xs) zero h = refl
  drop-split (x ∷ xs) (suc i) h = drop-split xs i (omega arith)

  pub last_n_short : (n : ℕ) (xs : List M) → length xs ≤ n → last_n n xs ≡ xs
  last_n_short n xs h = ap (λ k. drop k xs) zero_left
    where
      zero_left : length xs - n ≡ 0
      zero_left = omega arith

  -- Dropping the oldest of `n` entries when one more comes.
  pub last_n_full :
      (n : ℕ) (xs : List M) (m : M)
      → length xs ≡ n
      → last_n n (xs ++ (m ∷ [])) ≡ drop 1 (xs ++ (m ∷ []))
  last_n_full n xs m h = ap (λ k. drop k (xs ++ (m ∷ []))) one
    where
      one : length (xs ++ (m ∷ [])) - n ≡ 1
      one = omega (arith, length-append xs (m ∷ []))

  pub ordered_growing : (c : MessageCache M) → c.full ≡ false → ordered c ≡ c.items
  unfolding ordered
  ordered_growing c h = ground (arith, empty c.items)
    where
      empty : (xs : List M) → length xs ≡ 0 → [] ≡ xs
      empty [] e = refl
      empty (x ∷ xs) e = absurd (omega arith)

  -- A ring that has no free slot, read from its oldest entry.
  pub ordered_full :
      (c : MessageCache M)
      → IsValid c
      → 0 < c.limit
      → length c.items ≡ c.limit
      → ordered c ≡ drop c.position c.items ++ take c.position c.items
  unfolding ordered
  ordered_full c v some full = elim (Bool-cases c.full) [
    | inl f ↦ ground arith
    | inr f ↦ ordered_growing c f ∙ sym (rw (v.growing f) (append-nil c.items))
  ]

  after_write :
      (p : ℕ) (xs : List M) (m : M) → p < length xs → drop (suc p) (set xs p m) ≡ drop (suc p) xs
  after_write p [] m h = absurd (omega arith)
  after_write zero (x ∷ xs) m h = refl
  after_write (suc p) (x ∷ xs) m h = after_write p xs m (omega arith)

  upto_write :
      (p : ℕ) (xs : List M) (m : M)
      → p < length xs
      → take (suc p) (set xs p m) ≡ take p xs ++ (m ∷ [])
  upto_write p [] m h = absurd (omega arith)
  upto_write zero (x ∷ xs) m h = refl
  upto_write (suc p) (x ∷ xs) m h = ap (◌∷◌ x) (upto_write p xs m (omega arith))

  -- The ring after a write at `p`, read from the next position.
  pub ring_write :
      (n p : ℕ) (xs : List M) (m : M)
      → length xs ≡ n
      → p < n
      → drop ((p + 1) % n) (set xs p m) ++ take ((p + 1) % n) (set xs p m)
        ≡ drop (suc p) xs ++ (take p xs ++ (m ∷ []))
  ring_write n p xs m size h = elim (dec_lt (p + 1) n) [
    | yes inside ↦
        let e : (p + 1) % n ≡ suc p = grind (arith, mod-eq_of_lt) in
        rw e (ap₂ ◌++◌ (after_write p xs m (omega arith)) (upto_write p xs m (omega arith)))
    | no outside ↦
        let last_slot : p + 1 ≡ n = omega arith in
        let e : (p + 1) % n ≡ 0 = rw last_slot (grind arith) in
        rw e (
          append-nil (set xs p m)
          ∙ set-split xs p m (omega arith)
          ∙ rw (drop_all (suc p) xs (omega arith)) refl)
  ]
