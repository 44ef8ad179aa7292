-- ===== src/Config/Schema.antt =====
-- internal/config/schema.go: the decoded document and its conversion into a build specification.
use incusos_builder.Base.{Bool, Option}
use incusos_builder.Base.Int.{ℤ}
use incusos_builder.Base.Text.{Text}
use incusos_builder.Seeds.{Section, Applications, Install, UpdateSeed, Security}
use incusos_builder.Build.Spec
use incusos_builder.Build.Spec.{Spec}

-- `image`.
pub record Image : Type 0 where
  pub image_type : Text
  pub architecture : Text
  pub channel : Text
  pub release : Text
  pub offline : Bool

-- `seeds`: a section that the document does not have is `none`.
pub record Seeds : Type 0 where
  pub applications : Option Applications
  pub incus : Option Section
  pub install : Option Install
  pub migration_manager : Option Section
  pub network : Option Section
  pub operations_center : Option Section
  pub provider : Option Section
  pub services : Option Section
  pub update : Option UpdateSeed
  pub kernel : Option Section
  pub security : Option Security

-- `document`.
pub record Document : Type 0 where
  pub version : Option ℤ
  pub image : Image
  pub seeds : Seeds

-- The seeds of the specification.
abbrev pub sections : Seeds → Spec.Seeds
sections s = record {
  applications = s.applications;
  incus = s.incus;
  install = s.install;
  migration_manager = s.migration_manager;
  network = s.network;
  operations_center = s.operations_center;
  provider = s.provider;
  services = s.services;
  update = s.update;
  kernel = s.kernel;
  security = s.security;
}

-- `document.spec`.
unfoldable pub spec_of : Document → Spec
spec_of d = record {
  image_type = d.image.image_type;
  architecture = d.image.architecture;
  channel = d.image.channel;
  release = d.image.release;
  offline = d.image.offline;
  seeds = sections d.seeds;
}
