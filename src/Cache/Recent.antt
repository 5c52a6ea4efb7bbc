-- ===== src/Cache/Recent.antt =====
-- The message cache holds exactly the most recent messages, in the order in which they came.
use mathlib.Core.Path.{ap₂}
use mt_pro_go.Prelude.{
  ℕ, zero, suc, ◌+◌, ◌-◌, ◌%◌, ◌<◌, ◌≡◌, refl, sym, ap, ◌∙◌, arith, List, [], ◌∷◌, ◌++◌, true,
  false, length, take, drop, set, ltb, ltb→lt, ltb→le, last_n, length-append, length-take,
  length-drop, length-set, drop-append, drop-drop, append_assoc, append-nil, drop_all, Bool-cases,
  inl, inr,
}
use mt_pro_go.Prelude.Int.{pos, negsuc}
use mt_pro_go.Cache.MessageCache.{MessageCache, new_message_cache, add, ordered, all, last}
use mt_pro_go.Cache.Ring.{
  IsValid, new-IsValid, add-IsValid, drop-split, last_n_short, last_n_full, ordered_growing,
  ordered_full, ring_write,
}

module _ {M : Type 0} where
  add_room :
      (m : M) (c : MessageCache M)
      → IsValid c
      → length c.items < c.limit
      → ordered (add m c) ≡ ordered c ++ (m ∷ [])
  unfolding add
  add_room m c v room =
      let still : c.full ≡ false = ground (arith, v.wrapped) in
      let e : (add m c) ≡ record c { items = c.items ++ (m ∷ []) } = ground arith in
      rw e (
        ordered_growing (record c { items = c.items ++ (m ∷ []) }) still
        ∙ ap (λ xs. xs ++ (m ∷ [])) (sym (ordered_growing c still)))

  add_full :
      (m : M) (c : MessageCache M)
      → IsValid c
      → 0 < c.limit
      → length c.items ≡ c.limit
      → ordered (add m c) ≡ drop (suc c.position) c.items ++ (take c.position c.items ++ (m ∷ []))
  unfolding add
  add_full m c v some size =
      let within : c.position < c.limit = ground (arith, v.growing, v.wrapped) in
      let c' : MessageCache M = record c {
        items = set c.items c.position m;
        position = (c.position + 1) % c.limit;
        full = true;
      } in
      let e : add m c ≡ c' = ground arith in
      let v' : IsValid c' = rw e at (add-IsValid m c v) in
      rw e (
        ordered_full c' v' some (length-set c.items c.position m ∙ size)
        ∙ ring_write c.limit c.position c.items m size within)

  ordered-length : (c : MessageCache M) → IsValid c → length (ordered c) ≡ length c.items
  unfolding ordered
  ordered-length c v = ground (
    arith,
    length-append (drop c.position c.items) (take c.position c.items),
    length-drop c.position c.items,
    length-take c.position c.items,
    v.growing,
    v.wrapped,
  )

  -- The entries of a full ring and one more, without the oldest.
  oldest_out :
      (p : ℕ) (xs : List M) (m : M)
      → p < length xs
      → drop 1 ((drop p xs ++ take p xs) ++ (m ∷ [])) ≡ drop (suc p) xs ++ (take p xs ++ (m ∷ []))
  oldest_out p xs m h =
      ap (drop 1) (append_assoc (drop p xs) (take p xs) (m ∷ []))
      ∙ drop-append 1 (drop p xs) (take p xs ++ (m ∷ [])) (omega (arith, length-drop p xs))
      ∙ ap (λ ys. ys ++ (take p xs ++ (m ∷ []))) (drop-split xs p h)

  -- What an addition does to the messages as they are read back.
  ordered-add :
      (m : M) (c : MessageCache M)
      → IsValid c
      → 0 < c.limit
      → ordered (add m c) ≡ last_n c.limit (ordered c ++ (m ∷ []))
  ordered-add m c v some = elim (Bool-cases (ltb (length c.items) c.limit)) [
    | inl room ↦
        add_room m c v (ltb→lt _ _ room)
        ∙ sym (
            last_n_short c.limit (ordered c ++ (m ∷ [])) (
              omega
                (arith, ltb→lt _ _ room, ordered-length c v, length-append (ordered c) (m ∷ []))))
    | inr none_left ↦
        let size : length c.items ≡ c.limit = omega (arith, ltb→le _ _ none_left, v.bounded) in
        let within : c.position < length c.items = ground (arith, v.growing, v.wrapped) in
        add_full m c v some size
        ∙ sym (
            last_n_full c.limit (ordered c) m (ordered-length c v ∙ size)
            ∙ ap (λ ys. drop 1 (ys ++ (m ∷ []))) (ordered_full c v some size)
            ∙ oldest_out c.position c.items m within)
  ]

  add-limit : (m : M) (c : MessageCache M) → (add m c).limit ≡ c.limit
  unfolding add
  add-limit m c = ground arith

  unfoldable pub add_all : List M → MessageCache M → MessageCache M
  add_all [] c = c
  add_all (m ∷ ms) c = add_all ms (add m c)

  -- Keeping the last `n` along the way changes nothing at the end.
  last_n-last_n : (n : ℕ) (xs ys : List M) → last_n n (last_n n xs ++ ys) ≡ last_n n (xs ++ ys)
  last_n-last_n n xs ys =
      let k = length xs - n in
      let inside : drop k xs ++ ys ≡ drop k (xs ++ ys) = sym (drop-append k xs ys (omega arith)) in
      let count : k + (length (drop k xs ++ ys) - n) ≡ length (xs ++ ys) - n =
        omega (arith, length-append (drop k xs) ys, length-append xs ys, length-drop k xs) in
      ap (drop (length (drop k xs ++ ys) - n)) inside
      ∙ sym (drop-drop k (length (drop k xs ++ ys) - n) (xs ++ ys))
      ∙ ap (λ j. drop j (xs ++ ys)) count

  add_all-ordered :
      (ms : List M) (c : MessageCache M)
      → IsValid c
      → 0 < c.limit
      → (IsValid (add_all ms c)) × (ordered (add_all ms c) ≡ last_n c.limit (ordered c ++ ms))
  unfolding add_all
  add_all-ordered [] c v some = (
    v,
    sym (
        ap (last_n c.limit) (append-nil (ordered c))
        ∙ last_n_short c.limit (ordered c) (omega (arith, ordered-length c v, v.bounded))),
  )
  add_all-ordered (m ∷ ms) c v some =
      let same = add-limit m c in
      let (v', e) = add_all-ordered ms (add m c) (add-IsValid m c v) (rw same some) in
      (
        v',
        e
            ∙ ap₂ (λ k xs. last_n k (xs ++ ms)) same (ordered-add m c v some)
            ∙ last_n-last_n c.limit (ordered c ++ (m ∷ [])) ms
            ∙ ap (last_n c.limit) (append_assoc (ordered c) (m ∷ []) ms),
      )

  pub add_nothing : (m : M) (c : MessageCache M) → c.limit ≡ 0 → add m c ≡ c
  unfolding add
  add_nothing m c h = ground arith

  add_all-nothing : (ms : List M) (c : MessageCache M) → c.limit ≡ 0 → add_all ms c ≡ c
  unfolding add_all
  add_all-nothing [] c h = refl
  add_all-nothing (m ∷ ms) c h = rw (add_nothing m c h) (add_all-nothing ms c h)

  read_back :
      (size : ℕ) (ms : List M)
      → ordered (add_all ms (new_message_cache (pos size))) ≡ last_n size ms
  unfolding new_message_cache ordered
  read_back zero ms =
      rw (add_all-nothing ms (new_message_cache (pos 0)) refl)
        (sym (drop_all (length ms - 0) ms (omega arith)))
  read_back (suc size) ms =
      (add_all-ordered ms (new_message_cache (pos (suc size))) (new-IsValid (pos (suc size)))
        (omega arith)).1

  last-last_n : (n : ℕ) (c : MessageCache M) → last (pos n) c ≡ last_n n (ordered c)
  unfolding last
  last-last_n zero c = sym (drop_all (length (ordered c) - 0) (ordered c) (omega arith))
  last-last_n (suc n) c = ground (arith, few)
    where
      few :
          length (ordered c) < suc n
          → length (ordered c) - length (ordered c) ≡ length (ordered c) - suc n
      few h = omega arith

  -- After any sequence of additions to a new cache, `All` returns the last `size` messages, oldest
  -- first, and `Last` of `n` returns the last `n` of these; a size or an `n` of 0 or less gives
  -- none.
  pub all-add_all :
      (size n : ℕ) (ms : List M)
      → (all (add_all ms (new_message_cache (pos size))) ≡ last_n size ms)
        × (last (pos n) (add_all ms (new_message_cache (pos size))) ≡ last_n n (last_n size ms))
        × ((k : ℕ) → all (add_all ms (new_message_cache (negsuc k))) ≡ [])
        × ((k : ℕ) (c : MessageCache M) → last (negsuc k) c ≡ [])
  all-add_all size n ms = (
    unfold all in read_back size ms,
    last-last_n n (add_all ms (new_message_cache (pos size))) ∙ ap (last_n n) (read_back size ms),
    λ k. unfold all in nothing k,
    λ k c. unfold last in refl,
  )
    where
      nothing : (k : ℕ) → ordered (add_all ms (new_message_cache (negsuc k))) ≡ []
      nothing k =
          unfold new_message_cache ordered in
          rw (add_all-nothing ms (new_message_cache (pos 0)) refl) refl
