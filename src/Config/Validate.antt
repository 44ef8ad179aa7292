-- ===== src/Config/Validate.antt =====
-- The checks of internal/config/validate.go. All errors wrap `config` and name a field.
use incusos_builder.Base.{
  ◌+◌, Bool, true, false, not, ◌&&◌, ◌||◌, Option, none, some, List, [], ◌∷◌, map, leb, ◌==◌,
  if◌then◌else◌,
}
use incusos_builder.Base.Int.{ℤ, pos, negsuc}
use incusos_builder.Base.Text.{Text, text_eq, codes}
use incusos_builder.Seeds.{Install, InstallTarget, Security, Applications}
use incusos_builder.Errdefs.{Result, ok, err, errorf, config, lit, Message, ◌>>◌, fail_if}
use incusos_builder.Build.Spec.{image_type_iso, image_type_raw, arch_x86_64, arch_aarch64}
use incusos_builder.Config.Schema.{Image, Document}

-- `*doc.Version != currentSchemaVersion`.
abbrev pub is_current : ℤ → Bool
is_current (pos n) = n == 1
is_current (negsuc n) = false

-- `checkVersion`.
unfoldable pub check_version : Option ℤ → Result (Unit {0})
check_version none = err (errorf config (lit "version: required" ∷ []))
check_version (some v) =
    if not (is_current v)
    then err
        (errorf config (lit "version: unsupported schema version; a newer CLI is required" ∷ []))
    else ok tt

abbrev pub bad_type : Message
bad_type = lit "image.type: must be iso or raw" ∷ []

abbrev pub bad_architecture : Message
bad_architecture = lit "image.architecture: must be x86_64 or aarch64" ∷ []

-- `validateImage`.
unfoldable pub validate_image : Image → Result (Unit {0})
validate_image img = do
  fail_if (not (text_eq img.image_type image_type_iso || text_eq img.image_type image_type_raw))
      (errorf config bad_type)
  fail_if (not (text_eq img.architecture arch_x86_64 || text_eq img.architecture arch_aarch64))
      (errorf config bad_architecture)

-- `strings.ToLower` as far as its result is compared with words that have no `i` and no `k`, the
-- only ASCII letters that are the lower case of other characters than ASCII letters.
unfoldable pub to_lower : Text → Text
to_lower = map (λ c. if leb b'A' c && leb c b'Z' then c + 32 else c)

abbrev pub sort_order_smallest : Text
sort_order_smallest = codes "smallest"

abbrev pub sort_order_largest : Text
sort_order_largest = codes "largest"

abbrev pub is_sort_order : Text → Bool
is_sort_order s = text_eq s [] || (text_eq s sort_order_smallest || text_eq s sort_order_largest)

unfoldable pub validate_target : Option InstallTarget → Result (Unit {0})
validate_target none = ok tt
validate_target (some target) =
    if is_sort_order (to_lower target.sort_order)
    then ok tt
    else err (
        errorf config
          (lit "seeds.install.target.sort_order: must be empty, smallest, or largest" ∷ []))

-- `validateInstall`.
unfoldable pub validate_install : Option Install → Result (Unit {0})
validate_install none = ok tt
validate_install (some install) = validate_target install.target

abbrev pub recovery_keys_rejected : Message
recovery_keys_rejected =
    lit "seeds.security.encryption_recovery_keys: it is not possible to set encryption recovery "
    ∷ lit "key(s) via the security seed; see "
    ∷ lit "https://linuxcontainers.org/incus-os/docs/main/reference/system/security/"
    ∷ []

abbrev pub is_empty {ℓ} : {A : Type ℓ} → List A → Bool
is_empty [] = true
is_empty (x ∷ xs) = false

-- `validateSecurity`.
unfoldable pub validate_security : Option Security → Result (Unit {0})
validate_security none = ok tt
validate_security (some sec) =
    if is_empty sec.encryption_recovery_keys
    then ok tt
    else err (errorf config recovery_keys_rejected)

abbrev pub has_applications : Option Applications → Bool
has_applications none = false
has_applications (some a) = not (is_empty a.applications)

-- `validateOffline`.
unfoldable pub validate_offline : Document → Result (Unit {0})
validate_offline doc =
    if not doc.image.offline
    then ok tt
    else if not (has_applications doc.seeds.applications)
    then err (errorf config (lit "seeds.applications: required when image.offline is true" ∷ []))
    else ok tt

-- `validate`.
unfoldable pub validate : Document → Result (Unit {0})
validate doc = do
  validate_image doc.image
  validate_install doc.seeds.install
  validate_security doc.seeds.security
  validate_offline doc
