-- ===== src/Media/Sizes/Bounds.antt =====
-- The images are large enough and aligned, for any tree that an image of 2 ^ 62 bytes can hold.
use incusos_builder.Base.{
  [], ◌∷◌, refl, ◌∙◌, ℕ, ◌+◌, ◌-◌, ◌*◌, ◌/◌, ◌%◌, ◌^◌, ◌≤◌, ◌<◌, ◌≡◌, List, arith,
}
use incusos_builder.Errdefs.{ok}
use incusos_builder.Io.{Reader}
use incusos_builder.Media.Tree.{TreeFile}
use incusos_builder.Media.Sizes.{
  wrap64, max64, iso_slack, raw_sector, gpt_head, gpt_tail, fat_slack, fat_table_overhead_divisor,
  fat32_floor, add_sizes, content_bytes, align_up, raw_sizes_for, iso_backing_size, last_sector,
  to_uint64,
}

align_up_sector :
    (n : ℕ)
    → n < 2 ^ 63
    → (n ≤ align_up n 512) × (align_up n 512 < n + 512) × (align_up n 512 % 512 ≡ 0)
unfolding align_up
align_up_sector n h = omega arith

align_up_block :
    (n : ℕ)
    → n < 2 ^ 63
    → (n ≤ align_up n 2048) × (align_up n 2048 < n + 2048) × (align_up n 2048 % 2048 ≡ 0)
unfolding align_up
align_up_block n h = omega arith

max64_bounds :
    (content : ℕ)
    → content < 2 ^ 62
    → (content + fat_slack ≤ max64 (wrap64 (content + fat_slack)) fat32_floor)
      × (fat32_floor ≤ max64 (wrap64 (content + fat_slack)) fat32_floor)
      × (max64 (wrap64 (content + fat_slack)) fat32_floor < 2 ^ 62 + 2 ^ 29)
max64_bounds content h =
    let same : wrap64 (content + fat_slack) ≡ content + fat_slack = omega arith in
    rw same (ground arith, ground arith, ground arith)

last_sector_lem :
    (part : ℕ)
    → part < 2 ^ 63 - 2 ^ 21
    → to_uint64 (last_sector part) ≡ ok ((gpt_head + part) / raw_sector - 1)
unfolding last_sector to_uint64
last_sector_lem part h =
    let same : wrap64 (gpt_head + part) ≡ gpt_head + part = omega arith in rw same (ground arith)

-- What follows for a partition that rounds a size and a fiftieth of it up to sectors.
partition_bounds :
    (size m part : ℕ)
    → size ≤ m
    → fat32_floor ≤ m
    → m < 2 ^ 62 + 2 ^ 29
    → m + m / fat_table_overhead_divisor ≤ part
    → part < m + m / fat_table_overhead_divisor + 512
    → part % 512 ≡ 0
    → (size + size / fat_table_overhead_divisor ≤ part)
      × (fat32_floor ≤ part)
      × (part % raw_sector ≡ 0)
      × (wrap64 (wrap64 (gpt_head + part) + gpt_tail) ≡ gpt_head + part + gpt_tail)
      × (to_uint64 (last_sector part) ≡ ok ((gpt_head + part) / raw_sector - 1))
      × (((gpt_head + part) / raw_sector - 1) * raw_sector + raw_sector ≡ gpt_head + part)
partition_bounds size m part le floor small low high whole =
    (omega arith, omega arith, whole, omega arith, last_sector_lem part (omega arith), omega arith)

-- For a content of less than 2 ^ 62 bytes, the partition of raw media holds the content, 1 MiB, and a
-- fiftieth of both; it is not below the FAT32 floor and consists of whole sectors; the disk is the
-- partition with 1 MiB in front and 1 MiB behind; and the last sector that the GPT names is the last
-- one of the partition.
pub raw_sizes_for_bounds :
    (content : ℕ)
    → content < 2 ^ 62
    → let (part, disk) = raw_sizes_for content in
      ((content + fat_slack) + (content + fat_slack) / fat_table_overhead_divisor ≤ part)
      × (fat32_floor ≤ part)
      × (part % raw_sector ≡ 0)
      × (disk ≡ gpt_head + part + gpt_tail)
      × (to_uint64 (last_sector part) ≡ ok ((gpt_head + part) / raw_sector - 1))
      × (((gpt_head + part) / raw_sector - 1) * raw_sector + raw_sector ≡ gpt_head + part)
unfolding raw_sizes_for
raw_sizes_for_bounds content h =
    let m : ℕ = max64 (wrap64 (content + fat_slack)) fat32_floor in
    let (holds, floor, small) = max64_bounds content h in
    let grown : ℕ = m + m / fat_table_overhead_divisor in
    let same : wrap64 grown ≡ grown = omega arith in
    let (low, high, whole) = align_up_sector grown (omega arith) in
    rw same (
      partition_bounds (content + fat_slack) m (align_up grown 512) holds floor small low high
        whole)

-- The bytes of all files, as a sum that does not wrap around.
abbrev pub total_size : (R : Reader) → List (TreeFile R) → ℕ
total_size R [] = 0
total_size R (f ∷ fs) = f.size + total_size R fs

add_sizes-total_size :
    (R : Reader) (total : ℕ) (files : List (TreeFile R))
    → total + total_size R files < 2 ^ 64
    → add_sizes R total files ≡ total + total_size R files
unfolding add_sizes
add_sizes-total_size R total [] h = omega arith
add_sizes-total_size R total (f ∷ fs) h =
    let same : wrap64 (total + f.size) ≡ total + f.size = omega (arith, h) in
    rw same (add_sizes-total_size R (total + f.size) fs (omega (arith, h)) ∙ omega arith)

-- For files of less than 2 ^ 62 bytes in all, `contentBytes` is the sum of the sizes of all files, and the
-- ISO holds that many bytes and 8 MiB, and consists of whole blocks of 2048 bytes, of which it has no more
-- than it needs.
pub iso_backing_size_bounds :
    (R : Reader) (files : List (TreeFile R))
    → total_size R files < 2 ^ 62
    → (content_bytes R files ≡ total_size R files)
      × (total_size R files + 8 * 2 ^ 20 ≤ iso_backing_size R files)
      × (iso_backing_size R files < total_size R files + 8 * 2 ^ 20 + 2048)
      × (iso_backing_size R files % 2048 ≡ 0)
unfolding iso_backing_size content_bytes
iso_backing_size_bounds R files h =
    let counted : add_sizes R 0 files ≡ total_size R files =
      add_sizes-total_size R 0 files (omega (arith, h)) ∙ omega arith in
    let same : wrap64 (total_size R files + iso_slack) ≡ total_size R files + iso_slack =
      omega (arith, h) in
    let (low, high, whole) = align_up_block (total_size R files + iso_slack) (omega (arith, h)) in
    rw (counted, same) (refl, low, high, whole)
