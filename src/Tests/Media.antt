-- ===== src/Tests/Media.antt =====
-- Uploads and downloads at concrete inputs.
use mt_pro_go.Prelude.{ℕ, ◌≡◌, arith, List, [], ◌∷◌, none, some, ltb, take, ok}
use mt_pro_go.Prelude.Int.{pos}
use mt_pro_go.Prelude.Text.{str}
use mt_pro_go.Media.{UploadedFile}
use mt_pro_go.Media.PartSize.{normalize_part_size}
use mt_pro_go.Media.Upload.{upload_file, save_query, small_file_limit}
use mt_pro_go.Media.Uploaded.{accepting, IsSent, upload_file-IsSent}
use mt_pro_go.Media.Download.{download_from}
use mt_pro_go.Media.Downloaded.{serves, appends, download_from_whole}

abbrev five : List ℕ
five = 1 ∷ 2 ∷ 3 ∷ 4 ∷ 5 ∷ []

abbrev same_text : List ℕ → List ℕ
same_text s = s

upload_file-IsSent_example :
    (f : UploadedFile) × ((upload_file accepting same_text same_text same_text
        (pos 9)
        five
        5
        (str "a")
        (pos 0)
        []).1
      ≡ ok f)
    × IsSent
        (save_query (ltb small_file_limit 5) (pos 9) f.parts)
        (normalize_part_size (pos 0))
        0
        f.parts
        (take 5 five)
        []
        (upload_file accepting same_text same_text same_text (pos 9) five 5 (str "a") (pos 0) []).0
upload_file-IsSent_example =
    upload_file-IsSent same_text same_text same_text (pos 9) five 5 (str "a") (pos 0) []
      (omega arith)

download_from_whole_example :
    download_from (serves five) appends 9 2 3 0 [] ≡ some (1 ∷ 2 ∷ 3 ∷ [], 3, none)
download_from_whole_example = download_from_whole five 2 3 9 [] (omega arith) (omega arith)
