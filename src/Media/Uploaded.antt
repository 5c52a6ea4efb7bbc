-- ===== src/Media/Uploaded.antt =====
-- mtproto/media.go, `UploadFile`: what a server that accepts every part has got.
use native.Mathlib.Nat.{div-add-mod, mod-lt, mul_comm}
use mathlib.Core.Path.{subst}
use mt_pro_go.Prelude.{
  ℕ, zero, suc, ◌+◌, ◌-◌, ◌*◌, ◌/◌, ◌<◌, ◌≤◌, ◌≡◌, refl, sym, ap, ◌∙◌, arith, List, [], ◌∷◌, ◌++◌,
  append-nil, append_assoc, false, All, length, take, drop, if◌then◌else◌, ltb, le→ltb, ◌==◌,
  length-take, length-drop, Result, ok, and_then, Bool-cases, inl, inr,
}
use mt_pro_go.Prelude.Int.{ℤ}
use mt_pro_go.Prelude.Text.{str, str_eq}
use mt_pro_go.Prelude.Word.{le_bytes, le_value}
use mt_pro_go.Tl.Constructors.{constructor_bool_true}
use mt_pro_go.Media.{UploadedFile}
use mt_pro_go.Media.PartSize.{normalize_part_size, normalize_part_size_bounds}
use mt_pro_go.Media.Answer.{parse_tl_bool}
use mt_pro_go.Media.Upload.{upload_parts, part_count, upload_file, save_query, small_file_limit}

-- It answers `boolTrue` and keeps the requests in their order.
abbrev pub accepting : List ℕ → List (List ℕ) → List (List ℕ) × Result (List ℕ)
accepting request log = (log ++ (request ∷ []), ok (le_bytes 4 constructor_bool_true))

-- The requests for chunks, numbered from `part` on.
abbrev pub queries_from : (ℕ → List ℕ → List ℕ) → ℕ → List (List ℕ) → List (List ℕ)
queries_from query part [] = []
queries_from query part (c ∷ cs) = query part c ∷ queries_from query (suc part) cs

abbrev pub concat : List (List ℕ) → List ℕ
concat [] = []
concat (c ∷ cs) = c ++ concat cs

-- What has been sent: chunks of at most `part_size` bytes that are the content, one request each.
pub record IsSent (query : ℕ → List ℕ → List ℕ) (part_size part parts : ℕ) (content : List ℕ)
    (log log' : List (List ℕ)) : Type 0 where
  pub chunks : List (List ℕ)
  pub whole : concat chunks ≡ content
  pub sizes : All (λ c. length c ≤ part_size) chunks
  pub count : length chunks ≡ parts
  pub requests : log' ≡ log ++ queries_from query part chunks

take_split : (n m : ℕ) (xs : List ℕ) → n ≤ m → take n xs ++ take (m - n) (drop n xs) ≡ take m xs
take_split zero m xs h = ap (λ k. take k xs) (omega arith)
take_split (suc n) zero xs h = absurd (omega arith)
take_split (suc n) (suc m) [] h = nothing (suc m - suc n)
  where
    nothing : (k : ℕ) → take {A = ℕ} k [] ≡ []
    nothing zero = refl
    nothing (suc k) = refl
take_split (suc n) (suc m) (x ∷ xs) h =
    ap (λ l. x ∷ l)
      (ap (λ k. take n xs ++ take k (drop n xs)) (omega arith) ∙ take_split n m xs (omega arith))

module _ (query : ℕ → List ℕ → List ℕ) (part_size : ℕ) where
  -- The log and the result of a loop.
  abbrev Sends : ℕ → ℕ → List ℕ → List (List ℕ) → List (List ℕ) × Result (Unit {0}) → Type 0
  Sends part rounds sent log r = (r.1 ≡ ok tt) × IsSent query part_size part rounds sent log r.0

  one_more :
      (part rounds : ℕ) (chunk sent : List ℕ) (log : List (List ℕ))
      (r : List (List ℕ) × Result (Unit {0}))
      → length chunk ≤ part_size
      → Sends (suc part) rounds sent (log ++ (query part chunk ∷ [])) r
      → Sends part (suc rounds) (chunk ++ sent) log r
  one_more part rounds chunk sent log r short (good, s) = (
    good,
    record {
      chunks = chunk ∷ s.chunks;
      whole = ap (λ l. chunk ++ l) s.whole;
      sizes = (short, s.sizes);
      count = ap suc s.count;
      requests =
          s.requests
          ∙ append_assoc log (query part chunk ∷ []) (queries_from query (suc part) s.chunks);
    },
  )

  -- The loop of a round whose part is accepted.
  upload_step :
      (rounds part left want : ℕ) (content : List ℕ) (log : List (List ℕ))
      → want ≡ (if ltb left part_size then left else part_size)
      → want ≤ length content
      → upload_parts accepting query (suc rounds) part_size part left content log
        ≡ upload_parts accepting query rounds part_size
            (suc part)
            (left - want)
            (drop want content)
            (log ++ (query part (take want content) ∷ []))
  unfolding upload_parts parse_tl_bool le_bytes le_value
  upload_step rounds part left want content log e h =
      let enough : ltb (length content) want ≡ false = le→ltb _ _ h in rw (sym e, enough) refl

  upload_parts-Sends :
      (rounds part left : ℕ) (content : List ℕ) (log : List (List ℕ))
      → left ≤ rounds * part_size
      → left ≤ length content
      → Sends part rounds
          (take left content)
          log
          (upload_parts accepting query rounds part_size part left content log)
  unfolding upload_parts
  upload_parts-Sends zero part left content log few h =
      let none_left : left ≡ 0 = omega arith in
      rw none_left (
        refl,
        record {
          chunks = [];
          whole = refl;
          sizes = tt;
          count = refl;
          requests = sym (append-nil log);
        },
      )
  upload_parts-Sends (suc rounds) part left content log few h =
      let want = if ltb left part_size then left else part_size in
      let next : suc rounds * part_size ≡ part_size + rounds * part_size = grind arith in
      let low : want ≤ left = ground arith in
      let short : want ≤ part_size = ground arith in
      let rest : left - want ≤ rounds * part_size = ground arith in
      let size : length (take want content) ≤ part_size = omega (arith, length-take want content) in
      let left_over : left - want ≤ length (drop want content) =
        omega (arith, length-drop want content) in
      let log' = log ++ (query part (take want content) ∷ []) in
      let end =
        upload_parts accepting query rounds part_size (suc part) (left - want) (drop want content)
          log' in
      let later =
        upload_parts-Sends rounds (suc part) (left - want) (drop want content) log' rest
          left_over in
      subst (λ r. Sends part (suc rounds) (take left content) log r)
        (sym (upload_step rounds part left want content log refl (omega arith)))
        (subst (λ sent. Sends part (suc rounds) sent log end) (take_split want left content low)
          (one_more part rounds (take want content) _ log end size later))

-- The number of parts is enough for the file.
part_count_enough :
    (size part_size : ℕ) → 0 < part_size → size ≤ part_count size part_size * part_size
part_count_enough size part_size h =
    let q = (size + part_size - 1) / part_size in
    let whole = div-add-mod (size + part_size - 1) part_size in
    let small = mod-lt (size + part_size - 1) h in
    let enough : size ≤ q * part_size = omega (arith, whole, small, mul_comm part_size q) in
    elim (Bool-cases (q == 0)) [
      | inl nil ↦
          let z : q ≡ 0 = ground arith in
          let e : size ≤ 0 * part_size = subst (λ k. size ≤ k * part_size) z enough in
          rw nil (omega arith)
      | inr set ↦ rw set enough
    ]

-- Against a server that accepts every part, the upload of a file of `size` bytes, from a reader
-- that has them, succeeds: the server has got, in their order and numbered from 0, as many parts
-- as the result says, each of them no longer than the part size, that make up the file.
pub upload_file-IsSent :
    (trim_space base md5_hex : List ℕ → List ℕ) (file_id : ℤ) (content : List ℕ) (size : ℕ)
    (name : List ℕ) (part_size_option : ℤ) (log : List (List ℕ))
    → size ≤ length content
    → (f : UploadedFile) × ((upload_file accepting trim_space base md5_hex file_id content size name
          part_size_option log).1
        ≡ ok f)
      × IsSent
          (save_query (ltb small_file_limit size) file_id f.parts)
          (normalize_part_size part_size_option)
          0
          f.parts
          (take size content)
          log
          (upload_file accepting trim_space base md5_hex file_id content size name part_size_option
            log).0
unfolding upload_file
upload_file-IsSent trim_space base md5_hex file_id content size name part_size_option log h =
    let part_size = normalize_part_size part_size_option in
    let bounds = normalize_part_size_bounds part_size_option in
    let positive : 0 < part_size = omega (arith, bounds.0) in
    let parts = part_count size part_size in
    let (good, sent) =
      upload_parts-Sends (save_query (ltb small_file_limit size) file_id parts) part_size parts 0
        size content log (part_count_enough size part_size positive) h in
    let big = ltb small_file_limit size in
    let file : UploadedFile = record {
      id = file_id;
      parts = parts;
      name = base (if str_eq (trim_space name) [] then str "file" else name);
      md5_checksum = if big then [] else md5_hex (take size content);
      big = big;
    } in
    (file, ap (λ r. and_then r (λ _. ok file)) good, sent)
