-- ===== src/Media/PartSize.antt =====
-- mtproto/media.go, `normalizePartSize`.
use mt_pro_go.Prelude.{ℕ, ◌*◌, ◌/◌, ◌%◌, ◌≤◌, ◌≡◌, arith, if◌then◌else◌, ltb, ◌==◌}
use mt_pro_go.Prelude.Int.{ℤ, pos, pos_part, leb_ℤ}

abbrev pub default_upload_part_size : ℕ
default_upload_part_size = 524288

abbrev pub min_upload_part_size : ℕ
min_upload_part_size = 32768

abbrev pub max_upload_part_size : ℕ
max_upload_part_size = 524288

-- What is positive here is a natural number from the first test on.
unfoldable pub normalize_part_size : ℤ → ℕ
normalize_part_size v =
    let v₁ = if leb_ℤ v (pos 0) then default_upload_part_size else pos_part v in
    let v₂ = if ltb v₁ min_upload_part_size then min_upload_part_size else v₁ in
    let v₃ = if ltb max_upload_part_size v₂ then max_upload_part_size else v₂ in
    let v₄ = v₃ / 1024 * 1024 in if v₄ == 0 then min_upload_part_size else v₄

-- A part has from 32 to 512 KiB, whole ones; a size that is such is kept.
pub normalize_part_size_bounds :
    (v : ℤ)
    → (min_upload_part_size ≤ normalize_part_size v)
      × (normalize_part_size v ≤ max_upload_part_size)
      × (normalize_part_size v % 1024 ≡ 0)
      × (normalize_part_size (pos (normalize_part_size v)) ≡ normalize_part_size v)
unfolding normalize_part_size
normalize_part_size_bounds v = (ground arith, ground arith, ground arith, ground arith)
