-- ===== src/Config/Defaults.antt =====
-- `applyDefaults` of internal/config/validate.go. The source sets fields of the document through
-- pointers; here each step returns the new value.
use incusos_builder.Base.{Bool, not, Option, none, some, if◌then◌else◌, [], ◌∷◌}
use incusos_builder.Base.Text.{Text, text_eq, codes}
use incusos_builder.Seeds.{Section, Applications, Install, UpdateSeed, Security}
use incusos_builder.Build.Spec.{default_channel}
use incusos_builder.Config.Schema.{Image, Seeds, Document}
use mathlib.Core.Option as Opt

abbrev pub default_seed_version : Text
default_seed_version = b'1' ∷ []

abbrev pub check_frequency_never : Text
check_frequency_never = codes "never"

-- `setDefaultVersion`.
unfoldable pub set_default_version : Text → Text
set_default_version version = if text_eq version [] then default_seed_version else version

abbrev pub versioned_section : Section → Section
versioned_section s = record s { version = set_default_version s.version }

abbrev pub versioned_applications : Applications → Applications
versioned_applications s = record s { version = set_default_version s.version }

abbrev pub versioned_install : Install → Install
versioned_install s = record s { version = set_default_version s.version }

abbrev pub versioned_update : UpdateSeed → UpdateSeed
versioned_update s = record s { version = set_default_version s.version }

abbrev pub versioned_security : Security → Security
versioned_security s = record s { version = set_default_version s.version }

-- `defaultSeedVersions` over the fields of `presentSeedVersions`.
unfoldable pub default_seed_versions : Seeds → Seeds
default_seed_versions s = record {
  applications = Opt.map versioned_applications s.applications;
  incus = Opt.map versioned_section s.incus;
  install = Opt.map versioned_install s.install;
  migration_manager = Opt.map versioned_section s.migration_manager;
  network = Opt.map versioned_section s.network;
  operations_center = Opt.map versioned_section s.operations_center;
  provider = Opt.map versioned_section s.provider;
  services = Opt.map versioned_section s.services;
  update = Opt.map versioned_update s.update;
  kernel = Opt.map versioned_section s.kernel;
  security = Opt.map versioned_security s.security;
}

-- `&apiseed.Update{Version: defaultSeedVersion}`: its other fields are empty.
abbrev pub new_update : UpdateSeed
new_update = record { version = default_seed_version; check_frequency = []; body = [] }

-- The update seed of an offline build.
unfoldable pub never_checked : Option UpdateSeed → UpdateSeed
never_checked none = record new_update { check_frequency = check_frequency_never }
never_checked (some u) = record u { check_frequency = check_frequency_never }

-- The image section with its channel.
unfoldable pub default_image : Image → Image
default_image i = record i { channel = if text_eq i.channel [] then default_channel else i.channel }

-- The seeds of a document with the update seed that an offline build forces.
unfoldable pub offline_seeds : Bool → Seeds → Seeds
offline_seeds offline seeds =
    if not offline then seeds else record seeds { update = some (never_checked seeds.update) }

-- `applyDefaults`.
unfoldable pub apply_defaults : Document → Document
apply_defaults doc = record doc {
  image = default_image doc.image;
  seeds = offline_seeds doc.image.offline (default_seed_versions doc.seeds);
}
