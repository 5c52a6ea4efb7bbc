-- ===== src/Highlevel/Users.antt =====
-- mtproto/highlevel.go, `ScanUsers` and `parseUserAt`.
use mt_pro_go.Prelude.{
  ℕ, zero, suc, ◌+◌, List, [], ◌∷◌, Bool, true, false, Option, none, some, drop, length, leb, ◌==◌,
  if◌then◌else◌, ok, err,
}
use mt_pro_go.Prelude.Int.{ℤ, pos, eq_ℤ}
use mt_pro_go.Prelude.Word.{to_int64, has_bit}
use mt_pro_go.Prelude.Assoc.{lookup, insert, int_eq}
use mt_pro_go.Tl.Constructors.{constructor_user}
use mt_pro_go.Tl.Reader.{Parse, Reader, new_reader, int, long, string, ◌>>=◌, pure}
use mt_pro_go.Peers.{uint32_at}

pub record User : Type 0 where
  pub id : ℤ
  pub access_hash : ℤ
  pub username : List ℕ
  pub first_name : List ℕ
  pub last_name : List ℕ
  pub phone : List ℕ
  pub bot : Bool
  pub self : Bool

-- A field with a flag: when it cannot be read, the user is returned as far as it is known.
abbrev pub field :
    {A : Type 0}
    → Bool
    → Parse A
    → (A → User → User)
    → (User → Reader → User)
    → User
    → Reader
    → User
field false p set next u r = next u r
field true p set next u r = elim (p r) [ err e ↦ u | ok q ↦ next (set q.0 u) q.1 ]

unfoldable pub user_fields : ℕ → User → Reader → User
user_fields flags =
    field (has_bit flags 0) long (λ v u. record u { access_hash = to_int64 v })
      (field (has_bit flags 1) string (λ v u. record u { first_name = v })
        (field (has_bit flags 2) string (λ v u. record u { last_name = v })
          (field (has_bit flags 3) string (λ v u. record u { username = v })
            (field (has_bit flags 4) string (λ v u. record u { phone = v }) (λ u r. u)))))

abbrev pub bare_user : ℕ → ℕ → User
bare_user flags id = record {
  id = to_int64 id;
  access_hash = pos 0;
  username = [];
  first_name = [];
  last_name = [];
  phone = [];
  bot = has_bit flags 14;
  self = has_bit flags 10;
}

-- The constructor, both words of flags and the id.
unfoldable pub user_head : Parse (ℕ × ℕ × ℕ)
user_head = do constructor ← int; flags ← int; _ ← int; id ← long; pure (constructor, flags, id)

unfoldable pub parse_user_at : List ℕ → ℕ → Option User
parse_user_at body off = elim (user_head (new_reader (drop off body))) [
  | err e ↦ none
  | ok h ↦
      let user = user_fields h.0.1 (bare_user h.0.1 h.0.2) h.1 in
      if h.0.0 == constructor_user then some user else none
]

-- A user is kept when its id is not zero and new; `rest` is what the loop finds after it.
abbrev pub kept_user : Option User → List (ℤ × Bool) → (List (ℤ × Bool) → List User) → List User
kept_user none seen rest = rest seen
kept_user (some u) seen rest =
    let skipped = rest seen in
    let kept = u ∷ rest (insert u.id true seen) in
    if eq_ℤ u.id (pos 0)
    then skipped
    else elim (lookup u.id seen) [ some _ ↦ skipped | none ↦ kept ]

-- `for off := 0; off+20 <= len(body); off += 4`. One unit of fuel for each byte is enough.
unfoldable pub scan_users_from : ℕ → List ℕ → ℕ → List (ℤ × Bool) → List User
scan_users_from zero body off seen = []
scan_users_from (suc fuel) body off seen =
    let here = if uint32_at body off == constructor_user then parse_user_at body off else none in
    let found = kept_user here seen (scan_users_from fuel body (off + 4)) in
    if leb (off + 20) (length body) then found else []

unfoldable pub scan_users : List ℕ → List User
scan_users body = scan_users_from (length body) body 0 []
