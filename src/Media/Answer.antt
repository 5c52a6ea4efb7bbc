-- ===== src/Media/Answer.antt =====
-- mtproto/media.go: `parseTLBool` and `parseUploadFile`.
use mt_pro_go.Prelude.{
  ℕ, ◌^◌, ◌<◌, ◌≡◌, refl, ◌∙◌, arith, List, [], ◌++◌, Bool, true, false, length, take, drop,
  if◌then◌else◌, ltb, le→ltb, ◌==◌, length-append, take-length_append, drop-length_append, Result,
  ok, err, msg, msg_num,
}
use mathlib.Core.Path.{subst}
use mt_pro_go.Prelude.Int.{ℤ, pos}
use mt_pro_go.Prelude.Word.{
  le_value, le_bytes, length-le_bytes, le_value-le_bytes, to_int32, of_int32, of_int32-lt,
  to_int32-of_int32, IsI32, IsU32,
}
use mt_pro_go.Tl.Constructors.{
  constructor_bool_true, constructor_bool_false, constructor_upload_file,
  constructor_upload_file_cdn_redirect,
}
use mt_pro_go.Tl.Reader.{Parse, ◌>>=◌, pure, value, new_reader, int, bytes}
use mt_pro_go.Tl.Reads.{Reads-bind, Reads-int, Reads-bytes, Reads-pure, Reads-whole}
use mt_pro_go.Tl.Writer.{bytes_encoding}
use mt_pro_go.Media.{DownloadedPart}

unfoldable pub parse_tl_bool : List ℕ → Result Bool
parse_tl_bool body =
    let constructor = le_value (take 4 body) in
    if ltb (length body) 4
    then err (msg "tl bool response too short")
    else if constructor == constructor_bool_true
    then ok true
    else if constructor == constructor_bool_false
    then ok false
    else err (msg_num "unexpected bool constructor 0x%08x" constructor)

unfoldable pub upload_file_fields : Parse DownloadedPart
upload_file_fields = do
  file_type ← int
  m_time ← int
  content ← bytes
  pure (record {
    file_type_constructor = file_type;
    m_time = to_int32 m_time;
    bytes = content;
    cdn_redirect = false;
  })

unfoldable pub parse_upload_file : List ℕ → Result DownloadedPart
parse_upload_file body =
    let constructor = le_value (take 4 body) in
    if ltb (length body) 4
    then err (msg "upload.file response too short")
    else if constructor == constructor_upload_file
    then value (upload_file_fields (new_reader (drop 4 body)))
    else if constructor == constructor_upload_file_cdn_redirect
    then ok (record { file_type_constructor = 0; m_time = pos 0; bytes = []; cdn_redirect = true })
    else err (msg_num "unexpected upload.File constructor 0x%08x" constructor)

-- An `upload.file` in the schema.
abbrev pub upload_file_bytes : ℕ → ℤ → List ℕ → List ℕ
upload_file_bytes file_type m_time content =
    le_bytes 4 file_type ++ (le_bytes 4 (of_int32 m_time) ++ (bytes_encoding content ++ []))

-- The bytes of a part are read back from an `upload.file`, whatever follows it.
pub parse_upload_file-bytes :
    (file_type : ℕ) (m_time : ℤ) (content rest : List ℕ)
    → IsU32 file_type
    → IsI32 m_time
    → length content < 2 ^ 24
    → parse_upload_file
        (le_bytes 4 constructor_upload_file ++ (upload_file_bytes file_type m_time content ++ rest))
      ≡ ok (record {
        file_type_constructor = file_type;
        m_time = m_time;
        bytes = content;
        cdn_redirect = false;
      })
unfolding parse_upload_file upload_file_fields
parse_upload_file-bytes file_type m_time content rest hf hm hc =
    let front = le_bytes 4 constructor_upload_file in
    let back = upload_file_bytes file_type m_time content ++ rest in
    let size : length front ≡ 4 = length-le_bytes 4 constructor_upload_file in
    let enough : ltb (length (front ++ back)) 4 ≡ false =
      le→ltb _ 4 (omega (arith, length-append front back, size)) in
    let first : take 4 (front ++ back) ≡ front =
      subst (λ n. take n (front ++ back) ≡ front) size (take-length_append front back) in
    let after : drop 4 (front ++ back) ≡ back =
      subst (λ n. drop n (front ++ back) ≡ back) size (drop-length_append front back) in
    rw (enough, first, after, le_value-le_bytes 4 constructor_upload_file (omega arith))
      (Reads-whole rest (
          Reads-bind _ _ (Reads-int file_type hf) (
            Reads-bind _ _ (Reads-int (of_int32 m_time) (of_int32-lt m_time))
              (Reads-bind _ _ (Reads-bytes content hc) (Reads-pure _))))
        ∙ rw (to_int32-of_int32 m_time hm) refl)
