-- ===== src/Media/Download.antt =====
-- mtproto/media.go, `DownloadFile` and `UploadGetFilePart`. The server and the writer are
-- parameters. A limit that the next offset has passed is one of 0 here, of less than 0 there: both
-- end the loop.
use mt_pro_go.Prelude.{
  ℕ, zero, suc, ◌+◌, ◌-◌, List, Bool, ◌&&◌, Option, none, some, length, if◌then◌else◌, ltb, ◌==◌,
  Error, Result, ok, err, msg, and_then, not,
}
use mt_pro_go.Prelude.Int.{ℤ, pos_part}
use mt_pro_go.Media.{DownloadedPart, InputFileLocation}
use mt_pro_go.Media.PartSize.{normalize_part_size}
use mt_pro_go.Media.Encode.{make_upload_get_file_query}
use mt_pro_go.Media.Answer.{parse_upload_file}

-- For a positive limit, as the loop asks for.
unfoldable pub upload_get_file_part :
    (List ℕ → Result (List ℕ)) → InputFileLocation → Bool → Bool → ℕ → ℕ → Result DownloadedPart
upload_get_file_part invoke loc precise cdn_supported offset limit =
    and_then (make_upload_get_file_query loc offset limit precise cdn_supported)
      (λ q. and_then (invoke q) parse_upload_file)

-- What ends a download: its error, if it is one.
abbrev pub Ended : Type 0 → Type 0
Ended W = W × ℕ × Option Error

-- The limit of the next request; `total` is `opts.Limit`, or 0 if that is not positive.
abbrev pub next_limit : ℕ → ℕ → ℕ → ℕ
next_limit part_size total offset =
    if ltb 0 total && ltb total (offset + part_size) then total - offset else part_size

module _ {W : Type 0} (part : ℕ → ℕ → Result DownloadedPart)
    (write : List ℕ → W → W × ℕ × Option Error) where
  -- Behind a write, of `n` bytes, of a part that was asked for with a limit.
  abbrev pub after_write :
      DownloadedPart → ℕ → ℕ → W × ℕ × Option Error → (ℕ → W → Option (Ended W)) → Option (Ended W)
  after_write p limit offset (w, n, some e) again = some (w, offset + n, some e)
  after_write p limit offset (w, n, none) again =
      let next = again (offset + n) w in
      if not (n == length p.bytes)
      then some (w, offset + n, some (msg "short write"))
      else if ltb (length p.bytes) limit
      then some (w, offset + n, none)
      else next

  -- Behind the answer of the server.
  abbrev pub after_answer :
      ℕ → ℕ → W → Result DownloadedPart → (ℕ → W → Option (Ended W)) → Option (Ended W)
  after_answer limit offset w (err e) again = some (w, offset, some e)
  after_answer limit offset w (ok p) again =
      let written = after_write p limit offset (write p.bytes w) again in
      if p.cdn_redirect
      then some (w, offset, some (msg "mtproto: CDN redirect downloads are not implemented yet"))
      else if length p.bytes == 0
      then some (w, offset, none)
      else written

  -- `for { ... }` with fuel: `none` is that the fuel is used up.
  unfoldable pub download_from : ℕ → ℕ → ℕ → ℕ → W → Option (Ended W)
  download_from zero part_size total offset w = none
  download_from (suc fuel) part_size total offset w =
      let limit = next_limit part_size total offset in
      let answered =
        after_answer limit offset w (part offset limit) (download_from fuel part_size total) in
      if limit == 0 then some (w, offset, none) else answered

unfoldable pub download_file :
    {W : Type 0}
    → (List ℕ → Result (List ℕ))
    → (List ℕ → W → W × ℕ × Option Error)
    → ℕ
    → InputFileLocation
    → Bool
    → Bool
    → ℤ
    → ℤ
    → W
    → Option (Ended W)
download_file invoke write fuel loc precise cdn_supported part_size limit w =
    download_from (upload_get_file_part invoke loc precise cdn_supported) write fuel
      (normalize_part_size part_size) (pos_part limit) 0 w
