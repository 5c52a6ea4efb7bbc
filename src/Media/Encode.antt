-- ===== src/Media/Encode.antt =====
-- mtproto/media.go: the requests. `strings.TrimSpace` and `filepath.Base` are parameters, and so is
-- the random id of a message.
use mt_pro_go.Prelude.{
  ℕ, ◌+◌, ◌^◌, List, [], Bool, ◌||◌, if◌then◌else◌, ◌==◌, Result, ok, err, msg, ◌>>=◌,
}
use mt_pro_go.Prelude.Int.{ℤ, pos, eq_ℤ, ltb_ℤ}
use mt_pro_go.Prelude.Text.{str, str_eq}
use mt_pro_go.Prelude.Word.{of_int64, of_int32}
use mt_pro_go.Tl.Constructors.{
  constructor_input_document_file_location, constructor_input_photo_file_location,
  constructor_input_file, constructor_input_file_big, constructor_input_media_uploaded_photo,
  constructor_input_media_uploaded_document, constructor_vector,
  constructor_document_attribute_filename, constructor_upload_save_file_part,
  constructor_upload_save_big_file_part, constructor_upload_get_file,
  constructor_messages_send_media, constructor_input_reply_to_message,
}
use mt_pro_go.Tl.Writer.{put_int, put_long, put_bytes, put_string}
use mt_pro_go.InputPeer.{InputPeer, encode}
use mt_pro_go.Media.{
  UploadedFile, InputFileLocation, document, photo, SendMediaOptions, InputMedia, uploaded_photo,
  uploaded_document,
}

-- `1 << bit`, when the flag is set.
abbrev pub flag : Bool → ℕ → ℕ
flag set bit = if set then 2 ^ bit else 0

unfoldable pub location_fields : ℕ → ℤ → ℤ → List ℕ → List ℕ → List ℕ → List ℕ
location_fields constructor id access_hash file_reference thumb_size b = put_string thumb_size (
    put_bytes file_reference
      (put_long (of_int64 access_hash) (put_long (of_int64 id) (put_int constructor b))))

unfoldable pub encode_input_file_location : InputFileLocation → List ℕ → Result (List ℕ)
encode_input_file_location (document id access_hash file_reference thumb_size) b =
    if eq_ℤ id (pos 0) || eq_ℤ access_hash (pos 0)
    then err (msg "document location requires id and access hash")
    else ok (
        location_fields constructor_input_document_file_location id access_hash file_reference
          thumb_size b)
encode_input_file_location (photo id access_hash file_reference thumb_size) b =
    if eq_ℤ id (pos 0) || eq_ℤ access_hash (pos 0)
    then err (msg "photo location requires id and access hash")
    else ok (
        location_fields constructor_input_photo_file_location id access_hash file_reference
          thumb_size b)

unfoldable pub encode_input_file : UploadedFile → List ℕ → Result (List ℕ)
encode_input_file f b =
    if eq_ℤ f.id (pos 0) || f.parts == 0
    then err (msg "input file requires id and parts")
    else if f.big
    then ok (
        put_string f.name
          (put_int f.parts (put_long (of_int64 f.id) (put_int constructor_input_file_big b))))
    else ok (
        put_string f.md5_checksum (
          put_string f.name
            (put_int f.parts (put_long (of_int64 f.id) (put_int constructor_input_file b)))))

-- The first of the texts that is not empty.
abbrev pub or_else : List ℕ → List ℕ → List ℕ
or_else s t = if str_eq s [] then t else s

module _ (trim_space base : List ℕ → List ℕ) where
  -- The MIME type and the one attribute, the name of the file.
  unfoldable pub document_fields : UploadedFile → SendMediaOptions → List ℕ → List ℕ
  document_fields f opts b =
      let mime_type = or_else (trim_space opts.mime_type) (str "application/octet-stream") in
      let name = or_else (or_else (trim_space opts.file_name) f.name) (str "file") in
      put_string (base name) (
        put_int constructor_document_attribute_filename
          (put_int 1 (put_int constructor_vector (put_string mime_type b))))

  unfoldable pub encode_input_media : InputMedia → List ℕ → Result (List ℕ)
  encode_input_media (uploaded_photo f opts) b =
      encode_input_file f
        (put_int (flag opts.spoiler 2) (put_int constructor_input_media_uploaded_photo b))
  encode_input_media (uploaded_document f opts) b =
      encode_input_file f (
        put_int (flag opts.force_file 4 + flag opts.spoiler 5)
          (put_int constructor_input_media_uploaded_document b))
      >>= λ b'. ok (document_fields f opts b')

  unfoldable pub make_messages_send_media_query :
      ℤ → InputPeer → InputMedia → SendMediaOptions → Result (List ℕ)
  make_messages_send_media_query random_id peer media opts =
      let replies = ltb_ℤ (pos 0) opts.reply_to_message_id in
      let flags = flag replies 0 + flag opts.silent 5 + flag opts.background 6 in
      encode peer (put_int flags (put_int constructor_messages_send_media [])) >>= λ b.
      encode_input_media media (
        if replies
        then put_int (of_int32 opts.reply_to_message_id)
            (put_int 0 (put_int constructor_input_reply_to_message b))
        else b)
      >>= λ b'. ok (put_long (of_int64 random_id) (put_string opts.caption b'))

unfoldable pub make_upload_save_file_part_query : ℤ → ℕ → List ℕ → List ℕ
make_upload_save_file_part_query file_id part content =
    put_bytes content
      (put_int part (put_long (of_int64 file_id) (put_int constructor_upload_save_file_part [])))

unfoldable pub make_upload_save_big_file_part_query : ℤ → ℕ → ℕ → List ℕ → List ℕ
make_upload_save_big_file_part_query file_id part total content = put_bytes content (
    put_int total (
      put_int part
        (put_long (of_int64 file_id) (put_int constructor_upload_save_big_file_part []))))

unfoldable pub make_upload_get_file_query :
    InputFileLocation → ℕ → ℕ → Bool → Bool → Result (List ℕ)
make_upload_get_file_query loc offset limit precise cdn_supported =
    encode_input_file_location loc
      (put_int (flag precise 0 + flag cdn_supported 1) (put_int constructor_upload_get_file []))
    >>= λ b. ok (put_int limit (put_long offset b))
