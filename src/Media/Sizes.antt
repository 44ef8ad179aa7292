-- ===== src/Media/Sizes.antt =====
-- The sizes of the images of internal/media/rescue.go, fat.go and iso.go. An int64 is a number below
-- 2 ^ 64, sums wrap around, and it is negative from 2 ^ 63 on.
pub mod Bounds
use incusos_builder.Base.{
  ℕ, ◌+◌, ◌-◌, ◌*◌, ◌/◌, ◌%◌, ◌^◌, Bool, List, [], ◌∷◌, leb, ltb, ◌==◌, if◌then◌else◌,
}
use incusos_builder.Base.Int.{ℤ, pos, negsuc}
use incusos_builder.Errdefs.{Result, ok, err, errorf, output, lit, int}
use incusos_builder.Io.{Reader}
use incusos_builder.Media.Tree.{TreeFile}

abbrev pub wrap64 : ℕ → ℕ
wrap64 n = n % 2 ^ 64

abbrev pub is_negative64 : ℕ → Bool
is_negative64 n = leb (2 ^ 63) n

-- `max` on int64, for a second argument that is not negative.
abbrev pub max64 : ℕ → ℕ → ℕ
max64 a b = if is_negative64 a then b else if ltb a b then b else a

abbrev pub iso_block : ℕ
iso_block = 2048

abbrev pub iso_slack : ℕ
iso_slack = 8 * 2 ^ 20

abbrev pub raw_sector : ℕ
raw_sector = 512

abbrev pub gpt_head : ℕ
gpt_head = 2 ^ 20

abbrev pub gpt_tail : ℕ
gpt_tail = 2 ^ 20

abbrev pub fat_slack : ℕ
fat_slack = 2 ^ 20

abbrev pub fat_table_overhead_divisor : ℕ
fat_table_overhead_divisor = 50

abbrev pub fat32_floor : ℕ
fat32_floor = 256 * 2 ^ 20

unfoldable pub add_sizes : (R : Reader) → ℕ → List (TreeFile R) → ℕ
add_sizes R total [] = total
add_sizes R total (f ∷ fs) = add_sizes R (wrap64 (total + f.size)) fs

-- `contentBytes`.
unfoldable pub content_bytes : (R : Reader) → List (TreeFile R) → ℕ
content_bytes R files = add_sizes R 0 files

-- `alignUp`. `&^ (block - 1)` clears the low bits, which rounds down to a multiple of a power of two.
unfoldable pub align_up : ℕ → ℕ → ℕ
align_up n block = let m = wrap64 (n + block - 1) in m / block * block

-- `rawSizesFor`: the partition and the disk.
unfoldable pub raw_sizes_for : ℕ → ℕ × ℕ
raw_sizes_for content =
    let part = max64 (wrap64 (content + fat_slack)) fat32_floor in
    let aligned = align_up (wrap64 (part + part / fat_table_overhead_divisor)) raw_sector in
    (aligned, wrap64 (wrap64 (gpt_head + aligned) + gpt_tail))

-- `rawSizes`.
unfoldable pub raw_sizes : (R : Reader) → List (TreeFile R) → ℕ × ℕ
raw_sizes R files = raw_sizes_for (content_bytes R files)

-- `isoBackingSize`.
unfoldable pub iso_backing_size : (R : Reader) → List (TreeFile R) → ℕ
iso_backing_size R files = align_up (wrap64 (content_bytes R files + iso_slack)) iso_block

-- `(gptHead+partSize)/rawSector - 1`, which is negative if the sum is or if it is below a sector.
unfoldable pub last_sector : ℕ → ℤ
last_sector part =
    let end = wrap64 (gpt_head + part) in
    if is_negative64 end
    then negsuc ((2 ^ 64 - end) / raw_sector)
    else if end / raw_sector == 0
    then negsuc 0
    else pos (end / raw_sector - 1)

-- `toUint64`.
unfoldable pub to_uint64 : ℤ → Result ℕ
to_uint64 (pos n) = ok n
to_uint64 (negsuc n) = err (errorf output (lit "negative size " ∷ int (negsuc n) ∷ []))
