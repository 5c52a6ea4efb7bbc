-- ===== src/Cache/MessageCache.antt =====
-- updates/cache.go, `MessageCache`: a ring of at most `limit` messages. The cache stores copies and
-- hands out copies, so a message is a value. A nil cache, which every method treats as one of size
-- 0, is not modelled, and the mutex makes each method one step.
use mt_pro_go.Prelude.{
  ℕ, ◌+◌, ◌-◌, ◌%◌, List, [], ◌∷◌, ◌++◌, Bool, true, false, not, length, take, drop, set, ltb, ◌==◌,
  if◌then◌else◌,
}
use mt_pro_go.Prelude.Int.{ℤ, pos, negsuc}

pub record MessageCache (M : Type 0) : Type 0 where
  pub limit : ℕ
  pub items : List M
  pub position : ℕ
  pub full : Bool

module _ {M : Type 0} where
  -- `NewMessageCache`, with its clamp of a negative size.
  unfoldable pub new_message_cache : ℤ → MessageCache M
  new_message_cache (pos n) = record { limit = n; items = []; position = 0; full = false }
  new_message_cache (negsuc n) = record { limit = 0; items = []; position = 0; full = false }

  abbrev pub len : MessageCache M → ℕ
  len c = length c.items

  unfoldable pub add : M → MessageCache M → MessageCache M
  add m c =
      if c.limit == 0
      then c
      else if ltb (length c.items) c.limit
      then record c { items = c.items ++ (m ∷ []) }
      else record c {
        items = set c.items c.position m;
        position = (c.position + 1) % c.limit;
        full = true;
      }

  unfoldable pub ordered : MessageCache M → List M
  ordered c =
      if length c.items == 0
      then []
      else if not c.full
      then c.items
      else drop c.position c.items ++ take c.position c.items

  unfoldable pub all : MessageCache M → List M
  all c = ordered c

  unfoldable pub last : ℤ → MessageCache M → List M
  last (negsuc n) c = []
  last (pos n) c =
      if n == 0
      then []
      else let k = if ltb (length (ordered c)) n then length (ordered c) else n in
        drop (length (ordered c) - k) (ordered c)
