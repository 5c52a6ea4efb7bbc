-- ===== src/Media/Downloaded.antt =====
-- mtproto/media.go, `DownloadFile`: the parts of a file make up its front, or all of it.

use mt_pro_go.Prelude.{
  ℕ, zero, suc, ◌+◌, ◌-◌, ◌<◌, ◌≤◌, ◌≡◌, refl, sym, ap, ◌∙◌, arith, List, [], ◌∷◌, ◌++◌,
  append_assoc, append-nil, true, false, Option, none, some, length, take, drop, take_all, drop_all,
  drop-drop, length-take, length-drop, take-append-drop, if◌then◌else◌, ltb, ◌==◌, ==_refl, Error,
  Result, ok, Bool-cases, inl, inr,
}
use mt_pro_go.Prelude.Int.{pos}
use mt_pro_go.Media.{DownloadedPart}
use mt_pro_go.Media.Download.{Ended, next_limit, download_from}

-- A server that serves a file, and a writer that takes everything.
abbrev pub serves : List ℕ → ℕ → ℕ → Result DownloadedPart
serves file offset limit = ok (record {
  file_type_constructor = 0;
  m_time = pos 0;
  bytes = take limit (drop offset file);
  cdn_redirect = false;
})

abbrev pub appends : List ℕ → List ℕ → List ℕ × ℕ × Option Error
appends b w = (w ++ b, length b, none)

-- What is to be downloaded: the file up to the total, if there is one.
abbrev pub wanted : List ℕ → ℕ → List ℕ
wanted file total = if ltb 0 total then take total file else file

-- The end of a download without an error.
abbrev ends : List ℕ → ℕ → Option (Ended (List ℕ))
ends w n = some (w, n, none)

take-take : (n m : ℕ) (xs : List ℕ) → n ≤ m → take n (take m xs) ≡ take n xs
take-take zero m xs h = refl
take-take (suc n) zero xs h = absurd (omega arith)
take-take (suc n) (suc m) [] h = refl
take-take (suc n) (suc m) (x ∷ xs) h = ap (λ l. x ∷ l) (take-take n m xs (omega arith))

drop-take : (n m : ℕ) (xs : List ℕ) → n ≤ m → drop n (take m xs) ≡ take (m - n) (drop n xs)
drop-take zero m xs h = ap (λ k. take k xs) (omega arith)
drop-take (suc n) zero xs h = absurd (omega arith)
drop-take (suc n) (suc m) [] h = sym (take_all (suc m - suc n) [] (omega arith))
drop-take (suc n) (suc m) (x ∷ xs) h =
    drop-take n m xs (omega arith) ∙ ap (λ k. take k (drop n xs)) (omega arith)

module _ (file : List ℕ) (part_size total : ℕ) where
  -- A round, for the chunk that the server gives.
  step :
      (fuel offset limit : ℕ) (w chunk : List ℕ)
      → next_limit part_size total offset ≡ limit
      → take limit (drop offset file) ≡ chunk
      → download_from (serves file) appends (suc fuel) part_size total offset w ≡ (
          if limit == 0
          then some (w, offset, none)
          else if length chunk == 0
          then some (w, offset, none)
          else if ltb (length chunk) limit
          then some (w ++ chunk, offset + length chunk, none)
          else download_from
              (serves file)
              appends
              fuel
              part_size
              total
              (offset + length chunk)
              (w ++ chunk))
  unfolding download_from
  step fuel offset limit w chunk e f = rw (e, f, ==_refl (length chunk)) refl

  -- The server's chunk is one of what is wanted.
  chunk_wanted :
      (offset : ℕ)
      → offset ≤ length (wanted file total)
      → take (next_limit part_size total offset) (drop offset file)
        ≡ take (next_limit part_size total offset) (drop offset (wanted file total))
  chunk_wanted offset h = elim (Bool-cases (ltb 0 total)) [
    | inr all ↦ rw all refl
    | inl some_total ↦
        let g : wanted file total ≡ take total file = rw some_total refl in
        let low : offset ≤ total = omega (arith, ap length g, length-take total file) in
        let limit = next_limit part_size total offset in
        let fits : limit ≤ total - offset = ground (arith, some_total) in
        sym (
          ap (λ l. take limit (drop offset l)) g
          ∙ ap (take limit) (drop-take offset total file low)
          ∙ take-take limit (total - offset) (drop offset file) fits)
  ]

  cong_some : {w w' : List ℕ} {n n' : ℕ} → w ≡ w' → n ≡ n' → ends w n ≡ ends w' n'
  cong_some e f = rw (e, f) refl

  -- Nothing is left.
  at_end :
      (offset : ℕ) (w : List ℕ)
      → offset ≤ length (wanted file total)
      → length (wanted file total) ≤ offset
      → ends w offset ≡ ends (w ++ drop offset (wanted file total)) (length (wanted file total))
  at_end offset w h k =
      cong_some (sym (ap (λ l. w ++ l) (drop_all offset (wanted file total) k) ∙ append-nil w))
        (omega arith)

  -- Only a limit that has been reached asks for nothing.
  limit_zero :
      (offset : ℕ)
      → 0 < part_size
      → (next_limit part_size total offset == 0) ≡ true
      → length (wanted file total) ≤ offset
  limit_zero offset hp e = elim (Bool-cases (ltb 0 total)) [
    | inr all ↦ absurd (ground (arith, all))
    | inl some_total ↦
        let size : length (wanted file total) ≤ total =
          rw some_total (omega (arith, length-take total file)) in
        let reached : total ≤ offset = ground (arith, some_total) in omega arith
  ]

  -- From an offset on, the rest of what is wanted is written.
  download_from_lem :
      (fuel offset : ℕ) (w : List ℕ)
      → 0 < part_size
      → offset ≤ length (wanted file total)
      → length (wanted file total) < offset + fuel
      → download_from (serves file) appends fuel part_size total offset w
        ≡ some (w ++ drop offset (wanted file total), length (wanted file total), none)
  download_from_lem zero offset w hp h enough = absurd (omega arith)
  download_from_lem (suc fuel) offset w hp h enough =
      let goal = wanted file total in
      let limit = next_limit part_size total offset in
      let left = drop offset goal in
      let chunk = take limit left in
      let left_size = length-drop offset goal in
      let chunk_size = length-take limit left in
      step fuel offset limit w chunk refl (chunk_wanted offset h) ∙ elim (Bool-cases (limit == 0)) [
        | inl zero_limit ↦ rw zero_limit (at_end offset w h (limit_zero offset hp zero_limit))
        | inr asks ↦ elim (Bool-cases (length chunk == 0)) [
          | inl empty ↦ rw (asks, empty) (at_end offset w h (ground arith))
          | inr some_chunk ↦ elim (Bool-cases (ltb (length chunk) limit)) [
            | inl short ↦
                let whole : chunk ≡ left = take_all limit left (ground arith) in
                let end : offset + length chunk ≡ length goal = omega (arith, ap length whole) in
                rw (asks, some_chunk, short) (cong_some (ap (λ l. w ++ l) whole) end)
            | inr full ↦
                let size : length chunk ≡ limit = ground arith in
                let next : drop (offset + length chunk) goal ≡ drop limit left =
                  ap (λ k. drop (offset + k) goal) size ∙ drop-drop offset limit goal in
                let text : (w ++ chunk) ++ drop (offset + length chunk) goal ≡ w ++ left =
                  append_assoc w chunk _
                  ∙ ap (λ l. w ++ (chunk ++ l)) next
                  ∙ ap (λ l. w ++ l) (take-append-drop limit left) in
                let later =
                  download_from_lem fuel (offset + length chunk) (w ++ chunk) hp (ground arith)
                    (ground arith) in
                rw (asks, some_chunk, full) (later ∙ cong_some text refl)
          ]
        ]
      ]

-- A download of a file, or of its first bytes, from a server that serves it: with fuel for each of
-- the bytes and one more, the loop ends without an error, all that is wanted has been written behind
-- what was there, and its length is returned.
pub download_from_whole :
    (file : List ℕ) (part_size total fuel : ℕ) (w : List ℕ)
    → 0 < part_size
    → length (wanted file total) < fuel
    → download_from (serves file) appends fuel part_size total 0 w
      ≡ some (w ++ wanted file total, length (wanted file total), none)
download_from_whole file part_size total fuel w hp enough =
    download_from_lem file part_size total fuel 0 w hp (omega arith) (omega arith)
