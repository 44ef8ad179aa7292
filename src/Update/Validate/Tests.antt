-- ===== src/Update/Validate/Tests.antt =====
-- The checks of untrusted fields on concrete fields.
use incusos_builder.Base.{◌≡◌, refl, ◌↔◌, false, All}
use incusos_builder.Base.Int.{pos}
use incusos_builder.Base.Text.{codes, split, text_eq}
use incusos_builder.Errdefs.{ok, FailsWith, fetch}
use incusos_builder.Images.{image_raw, UpdateFile}
use incusos_builder.Update.Validate.{
  slash, valid_ident, validate_filename, validate_version, validate_asset, all_lower_hex,
}
use incusos_builder.Update.Validate.Laws.{
  IsSafeName, IsSafeAsset, validate_filename_iff, validate_version_iff, validate_asset_iff,
  validate_asset-FailsWith,
}

abbrev good_file : UpdateFile
good_file = record {
  architecture = codes "x86_64";
  filename = codes "x86_64/IncusOS_202501.img.gz";
  sha256 = codes "e3b0c44298fc1c149afbf4c8996fb92427ae41e4649b934ca495991b7852b855";
  size = pos 42;
  file_type = image_raw;
}

abbrev unsafe_file : UpdateFile
unsafe_file = record good_file { filename = codes "../seed" }

dots_rejected : valid_ident (codes "..") ≡ false
unfolding valid_ident text_eq
dots_rejected = refl

upper_hex_rejected : all_lower_hex (codes "0aF") ≡ false
unfolding all_lower_hex
upper_hex_rejected = refl

validate_filename_iff_example :
    (validate_filename (codes "x86_64/os.img") ≡ ok tt)
    ↔ All IsSafeName (split slash (codes "x86_64/os.img"))
validate_filename_iff_example = validate_filename_iff (codes "x86_64/os.img")

validate_version_iff_example :
    (validate_version (codes "202501") ≡ ok tt) ↔ IsSafeName (codes "202501")
validate_version_iff_example = validate_version_iff (codes "202501")

validate_asset_iff_example :
    (validate_asset (codes "202501") good_file ≡ ok tt) ↔ IsSafeAsset (codes "202501") good_file
validate_asset_iff_example = validate_asset_iff (codes "202501") good_file

validate_asset-FailsWith_example : FailsWith fetch (validate_asset (codes "202501") unsafe_file)
validate_asset-FailsWith_example = validate_asset-FailsWith (codes "202501") unsafe_file
