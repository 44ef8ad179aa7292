-- ===== src/Media/Tests.antt =====
-- The rescue tree of two assets, and the sizes of its images.
use incusos_builder.Base.{
  ◌^◌, ℕ, ◌+◌, ◌*◌, ◌/◌, ◌%◌, ◌-◌, ◌≤◌, ◌<◌, ◌≡◌, refl, ◌++◌, some, List, [], ◌∷◌, arith,
}
use incusos_builder.Base.Int.{pos}
use incusos_builder.Base.Text.{Text, text_eq, has_prefix, mem, split, mem_byte, codes}
use incusos_builder.Errdefs.{ok, err, plain}
use incusos_builder.Build.Samples.{two_bytes}
use incusos_builder.Update.Validate.{validate_filename, check_segments, valid_ident, is_ident_rune}
use incusos_builder.Media.Tree.{
  Asset, RescueInput, TreeFile, streamed, document_file, update_json_path, update_sjson_path,
  validate_rel_path, sized_file, asset_file, stage_assets, prepare_tree,
}
use incusos_builder.Build.Pipeline.{rescue_rel_path, rescue_tree_prefix}
use incusos_builder.Media.Tree.Accepted.{validate_rel_path-rescue_rel_path}
use incusos_builder.Media.Tree.Prepared.{IsTree, prepare_tree-IsTree}
use incusos_builder.Media.Sizes.{
  content_bytes, raw_sizes_for, iso_backing_size, align_up, last_sector, to_uint64, fat_slack,
  fat_table_overhead_divisor, fat32_floor, gpt_head, gpt_tail, raw_sector,
}
use incusos_builder.Media.Sizes.Bounds.{raw_sizes_for_bounds, iso_backing_size_bounds}

abbrev asset_of : ℕ → Asset two_bytes
asset_of n = record { size = pos n; open_result = err (plain []) }

abbrev pub input : RescueInput two_bytes
input = record {
  assets =
      record { rel_path = codes "update/x86_64/incus.raw.gz"; handle = some (asset_of 5) }
      ∷ record { rel_path = codes "update/os.raw.gz"; handle = some (asset_of 9) }
      ∷ [];
  update_json = 7 ∷ [];
  update_sjson = 8 ∷ 8 ∷ [];
}

abbrev file_of : Text → ℕ → TreeFile two_bytes
file_of rel n = record { rel = rel; size = n; contents = streamed (asset_of n) }

abbrev pub files : List (TreeFile two_bytes)
files =
    document_file two_bytes update_json_path (7 ∷ [])
    ∷ document_file two_bytes update_sjson_path (8 ∷ 8 ∷ [])
    ∷ file_of (codes "update/x86_64/incus.raw.gz") 5
    ∷ file_of (codes "update/os.raw.gz") 9
    ∷ []

pub prepared : prepare_tree two_bytes input ≡ ok files
unfolding prepare_tree stage_assets validate_rel_path validate_filename check_segments valid_ident
    split mem_byte mem has_prefix text_eq asset_file sized_file
prepared = refl

prepare_tree-IsTree_example : IsTree two_bytes input files
prepare_tree-IsTree_example = prepare_tree-IsTree two_bytes input files prepared

raw_sizes_for_bounds_example :
    let (part, disk) = raw_sizes_for 300_000_000 in
    ((300_000_000 + fat_slack) + (300_000_000 + fat_slack) / fat_table_overhead_divisor ≤ part)
    × (fat32_floor ≤ part)
    × (part % raw_sector ≡ 0)
    × (disk ≡ gpt_head + part + gpt_tail)
    × (to_uint64 (last_sector part) ≡ ok ((gpt_head + part) / raw_sector - 1))
    × (((gpt_head + part) / raw_sector - 1) * raw_sector + raw_sector ≡ gpt_head + part)
raw_sizes_for_bounds_example = raw_sizes_for_bounds 300_000_000 (omega arith)

floor_sizes : raw_sizes_for 1000 ≡ (273_804_288, 275_901_440)
unfolding raw_sizes_for align_up
floor_sizes = refl

iso_backing_size_bounds_example :
    (content_bytes two_bytes files ≡ 17)
    × (17 + 8 * 2 ^ 20 ≤ iso_backing_size two_bytes files)
    × (iso_backing_size two_bytes files < 17 + 8 * 2 ^ 20 + 2048)
    × (iso_backing_size two_bytes files % 2048 ≡ 0)
iso_backing_size_bounds_example = iso_backing_size_bounds two_bytes files (omega arith)

incus_valid : validate_filename (codes "x/a.raw.gz") ≡ ok tt
unfolding validate_filename check_segments valid_ident is_ident_rune has_prefix mem_byte split
    text_eq
incus_valid = refl

validate_rel_path-rescue_rel_path_example :
    (rescue_rel_path (codes "x/a.raw.gz") ≡ rescue_tree_prefix ++ codes "x/a.raw.gz")
    × (validate_rel_path (rescue_rel_path (codes "x/a.raw.gz")) ≡ ok tt)
validate_rel_path-rescue_rel_path_example =
    validate_rel_path-rescue_rel_path (codes "x/a.raw.gz") incus_valid
