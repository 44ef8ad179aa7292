-- ===== src/Build/Spec.antt =====
-- internal/build/spec.go and plan.go: the build specification and the resolved plan.
use incusos_builder.Base.{ℕ, Bool, List, Option}
use incusos_builder.Base.Text.{Text, codes}
use incusos_builder.Images.{UpdateFile}
use incusos_builder.Seeds.{Section, Applications, Install, UpdateSeed, Security}

abbrev pub image_type_iso : Text
image_type_iso = codes "iso"

abbrev pub image_type_raw : Text
image_type_raw = codes "raw"

abbrev pub arch_x86_64 : Text
arch_x86_64 = codes "x86_64"

abbrev pub arch_aarch64 : Text
arch_aarch64 = codes "aarch64"

abbrev pub default_channel : Text
default_channel = codes "stable"

-- `Seeds`: a nil section is `none`.
pub record Seeds : Type 0 where
  pub applications : Option Applications
  pub incus : Option Section
  pub install : Option Install
  pub migration_manager : Option Section
  pub network : Option Section
  pub operations_center : Option Section
  pub provider : Option Section
  pub services : Option Section
  pub update : Option UpdateSeed
  pub kernel : Option Section
  pub security : Option Security

-- `Spec`. `ImageType`, `Architecture`, `Channel` and `Release` are strings in the source too.
pub record Spec : Type 0 where
  pub image_type : Text
  pub architecture : Text
  pub channel : Text
  pub release : Text
  pub offline : Bool
  pub seeds : Seeds

-- `Plan`.
pub record Plan : Type 0 where
  pub version : Text
  pub image : UpdateFile
  pub apps : List UpdateFile

-- `Result` of a build.
pub record BuildResult : Type 0 where
  pub version : Text
  pub channel : Text
  pub image_type : Text
  pub architecture : Text
  pub bytes_written : ℕ
  pub seed_bytes : ℕ
  pub offline : Bool
  pub resources_tmp : Text
