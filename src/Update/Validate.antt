-- ===== src/Update/Validate.antt =====
-- internal/update/validate.go: the checks of untrusted fields before they name a URL or a path.
-- The source ranges over runes in `validIdent` and over bytes elsewhere; a byte above 127 and the
-- rune it belongs to are both outside the allowlist, so the model ranges over bytes throughout.
pub mod Laws
mod Tests
use incusos_builder.Base.{
  ℕ, ◌*◌, ◌^◌, ◌≡◌, Bool, true, false, not, ◌&&◌, ◌||◌, List, [], ◌∷◌, all, leb, ltb, ◌==◌, length,
  if◌then◌else◌,
}
use incusos_builder.Base.Int.{ℤ, is_nonpositive, exceeds}
use incusos_builder.Base.Text.{Text, text_eq, has_prefix, split, mem_byte}
use incusos_builder.Errdefs.{Result, ok, err, errorf, fetch, lit, quoted, int, ◌>>=◌, ◌>>◌}
use incusos_builder.Images.{UpdateFile}

-- '/'
abbrev pub slash : ℕ
slash = 47

abbrev pub sha256_hex_len : ℕ
sha256_hex_len = 64

-- 8 GiB.
abbrev pub max_asset_size : ℕ
max_asset_size = 8 * 2 ^ 30

-- `isIdentRune`: in [A-Za-z0-9._-].
unfoldable pub is_ident_rune : ℕ → Bool
is_ident_rune r =
    r == b'-'
    || (r == b'.'
        || (r == b'_'
            || ((leb b'0' r && leb r b'9')
                || ((leb b'A' r && leb r b'Z') || (leb b'a' r && leb r b'z')))))

-- `validIdent`.
unfoldable pub valid_ident : Text → Bool
unfolding is_ident_rune
valid_ident s =
    if text_eq s [] || (text_eq s (b'.' ∷ []) || text_eq s (b'.' ∷ b'.' ∷ []))
    then false
    else all is_ident_rune s

-- `allLowerHex`.
unfoldable pub all_lower_hex : Text → Bool
all_lower_hex [] = true
all_lower_hex (c ∷ s) =
    let rest = all_lower_hex s in
    if (ltb c b'0' || ltb b'9' c) && (ltb c b'a' || ltb b'f' c) then false else rest

-- `ValidateVersion`.
unfoldable pub validate_version : Text → Result (Unit {0})
validate_version version =
    if not (valid_ident version)
    then err (
        errorf fetch (
          lit "version "
          ∷ quoted version
          ∷ lit " rejected; untrusted metadata; possible tampering"
          ∷ []))
    else ok tt

-- The loop of `ValidateFilename` over the segments.
unfoldable pub check_segments : Text → List Text → Result (Unit {0})
check_segments filename [] = ok tt
check_segments filename (segment ∷ segments) =
    let rest = check_segments filename segments in
    if not (valid_ident segment)
    then err (
        errorf fetch (
          lit "filename "
          ∷ quoted filename
          ∷ lit " rejected; untrusted metadata; possible tampering"
          ∷ []))
    else rest

-- `ValidateFilename`.
unfoldable pub validate_filename : Text → Result (Unit {0})
validate_filename filename =
    if text_eq filename [] || (has_prefix filename (slash ∷ []) || mem_byte b'\\' filename)
    then err (
        errorf fetch (
          lit "filename "
          ∷ quoted filename
          ∷ lit " rejected; untrusted metadata; possible tampering"
          ∷ []))
    else check_segments filename (split slash filename)

-- `ValidateSHA256`.
unfoldable pub validate_sha256 : Text → Result (Unit {0})
validate_sha256 digest =
    if not (length digest == sha256_hex_len) || not (all_lower_hex digest)
    then err (
        errorf fetch (
          lit "sha256 "
          ∷ quoted digest
          ∷ lit " rejected; untrusted metadata; possible tampering"
          ∷ []))
    else ok tt

-- `validateSize`: 0 < size ≤ 8 GiB.
unfoldable pub validate_size : ℤ → Result (Unit {0})
validate_size size =
    if is_nonpositive size || exceeds size max_asset_size
    then err (
        errorf fetch
          (lit "size " ∷ int size ∷ lit " rejected; untrusted metadata; possible tampering" ∷ []))
    else ok tt

-- `validateAsset`.
unfoldable pub validate_asset : Text → UpdateFile → Result (Unit {0})
validate_asset version file = do
  validate_version version
  validate_filename file.filename
  validate_sha256 file.sha256
  validate_size file.size
