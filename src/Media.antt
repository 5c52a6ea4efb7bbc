-- ===== src/Media.antt =====
-- mtproto/media.go: files in parts. Lengths and offsets are natural numbers; the parts of a file
-- have at most 512 KiB.
pub mod PartSize
pub mod Encode
pub mod Answer
pub mod Upload
pub mod Uploaded
pub mod Download
pub mod Downloaded
use mt_pro_go.Prelude.{ℕ, List, Bool}
use mt_pro_go.Prelude.Int.{ℤ}

-- `UploadedFile`, which `InputFile` wraps. `Size` is only carried along.
pub record UploadedFile : Type 0 where
  pub id : ℤ
  pub parts : ℕ
  pub name : List ℕ
  pub md5_checksum : List ℕ
  pub big : Bool

pub record DownloadedPart : Type 0 where
  pub file_type_constructor : ℕ
  pub m_time : ℤ
  pub bytes : List ℕ
  pub cdn_redirect : Bool

-- `DocumentFileLocation` and `PhotoFileLocation`.
pub data InputFileLocation : Type 0 where
  document : ℤ → ℤ → List ℕ → List ℕ → InputFileLocation
  photo : ℤ → ℤ → List ℕ → List ℕ → InputFileLocation

pub record SendMediaOptions : Type 0 where
  pub caption : List ℕ
  pub reply_to_message_id : ℤ
  pub silent : Bool
  pub background : Bool
  pub spoiler : Bool
  pub force_file : Bool
  pub mime_type : List ℕ
  pub file_name : List ℕ

pub data InputMedia : Type 0 where
  uploaded_photo : UploadedFile → SendMediaOptions → InputMedia
  uploaded_document : UploadedFile → SendMediaOptions → InputMedia
