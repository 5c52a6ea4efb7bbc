-- ===== src/Media/Upload.antt =====
-- mtproto/media.go, `UploadFile`: the loop over the parts. The reader is the bytes that it gives;
-- MD5 and its text, `filepath.Base`, the random id and the server are parameters. The number of
-- parts is the exact quotient, which the quotient of two float64 is for sizes below 2^48.
use mt_pro_go.Prelude.{
  ℕ, zero, suc, ◌+◌, ◌-◌, ◌/◌, List, [], Bool, true, false, length, take, drop, if◌then◌else◌, ltb,
  ◌==◌, Result, ok, err, msg_num, and_then,
}
use mt_pro_go.Prelude.Int.{ℤ}
use mt_pro_go.Prelude.Text.{str, str_eq}
use mt_pro_go.Media.{UploadedFile}
use mt_pro_go.Media.PartSize.{normalize_part_size}
use mt_pro_go.Media.Encode.{make_upload_save_file_part_query, make_upload_save_big_file_part_query}
use mt_pro_go.Media.Answer.{parse_tl_bool}

abbrev pub small_file_limit : ℕ
small_file_limit = 10485760

-- The request of a part of a file of `total` parts.
unfoldable pub save_query : Bool → ℤ → ℕ → ℕ → List ℕ → List ℕ
save_query true file_id total part chunk =
    make_upload_save_big_file_part_query file_id part total chunk
save_query false file_id total part chunk = make_upload_save_file_part_query file_id part chunk

abbrev pub accepted : ℕ → Result (List ℕ) → Result (Unit {0})
accepted part answer = and_then answer (λ body.
    and_then (parse_tl_bool body)
      (λ yes. if yes then ok tt else err (msg_num "telegram rejected upload part %d" part)))

module _ {W : Type 0} (invoke : List ℕ → W → W × Result (List ℕ))
    (query : ℕ → List ℕ → List ℕ) where
  -- Behind the request of a part: `again` is the rest of the loop.
  abbrev pub after_part :
      ℕ → W × Result (List ℕ) → (W → W × Result (Unit {0})) → W × Result (Unit {0})
  after_part part (w, answer) again = elim (accepted part answer) [
    | err e ↦ (w, err e)
    | ok _ ↦ again w
  ]

  -- The rounds that are left, from the given part on, with the bytes that are still to be read; the
  -- last part is what is missing to `size`.
  unfoldable pub upload_parts : ℕ → ℕ → ℕ → ℕ → List ℕ → W → W × Result (Unit {0})
  upload_parts zero part_size part left content w = (w, ok tt)
  upload_parts (suc rounds) part_size part left content w =
      let want = if ltb left part_size then left else part_size in
      let sent =
        after_part part (invoke (query part (take want content)) w)
          (upload_parts rounds part_size (suc part) (left - want) (drop want content)) in
      if ltb (length content) want then (w, err (msg_num "read upload chunk %d: %w" part)) else sent

-- The quotient that is rounded up; `math.Ceil` of two floats gives it for sizes below 2^53.
abbrev pub part_count : ℕ → ℕ → ℕ
part_count size part_size =
    let parts = (size + part_size - 1) / part_size in if parts == 0 then 1 else parts

module _ {W : Type 0} (invoke : List ℕ → W → W × Result (List ℕ))
    (trim_space base md5_hex : List ℕ → List ℕ) where
  -- The checksum is that of the bytes that were read: of all `size` of them, since every part was.
  unfoldable pub upload_file : ℤ → List ℕ → ℕ → List ℕ → ℤ → W → W × Result UploadedFile
  upload_file file_id content size name part_size_option w =
      let part_size = normalize_part_size part_size_option in
      let parts = part_count size part_size in
      let big = ltb small_file_limit size in
      let name' = if str_eq (trim_space name) [] then str "file" else name in
      let file : UploadedFile = record {
        id = file_id;
        parts = parts;
        name = base name';
        md5_checksum = if big then [] else md5_hex (take size content);
        big = big;
      } in
      let r = upload_parts invoke (save_query big file_id parts) parts part_size 0 size content w in
      (r.0, and_then r.1 (λ _. ok file))
