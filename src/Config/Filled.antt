-- ===== src/Config/Filled.antt =====
-- What `applyDefaults` fills in: every section that is present gets a version, the image a channel,
-- and an offline build an update seed that never checks. A second application changes nothing.
use incusos_builder.Base.{◌≡◌, refl, ◌≢◌, Bool, true, false, Option, none, some, [], arith}
use incusos_builder.Base.Text.{Text, text_eq_iff}
use incusos_builder.Seeds.{Section, Applications, Install, UpdateSeed, Security}
use incusos_builder.Build.Spec
use incusos_builder.Config.Schema.{Image, Seeds, Document, sections}
use incusos_builder.Config.Defaults.{
  set_default_version, default_seed_versions, default_image, never_checked, offline_seeds,
  check_frequency_never, apply_defaults, versioned_section, versioned_applications,
  versioned_install, versioned_update, versioned_security,
}
use mathlib.Core.Option as Opt

-- A statement about a section, if it is present.
abbrev pub IfPresent {ℓ κ} : {A : Type ℓ} → (A → Type κ) → Option A → Type κ
IfPresent P none = Unit
IfPresent P (some a) = P a

-- Every section that is present has a version.
pub record IsVersioned (s : Spec.Seeds) : Type 0 where
  pub applications : IfPresent (λ (a : Applications). a.version ≢ []) s.applications
  pub incus : IfPresent (λ (a : Section). a.version ≢ []) s.incus
  pub install : IfPresent (λ (a : Install). a.version ≢ []) s.install
  pub migration_manager : IfPresent (λ (a : Section). a.version ≢ []) s.migration_manager
  pub network : IfPresent (λ (a : Section). a.version ≢ []) s.network
  pub operations_center : IfPresent (λ (a : Section). a.version ≢ []) s.operations_center
  pub provider : IfPresent (λ (a : Section). a.version ≢ []) s.provider
  pub services : IfPresent (λ (a : Section). a.version ≢ []) s.services
  pub update : IfPresent (λ (a : UpdateSeed). a.version ≢ []) s.update
  pub kernel : IfPresent (λ (a : Section). a.version ≢ []) s.kernel
  pub security : IfPresent (λ (a : Security). a.version ≢ []) s.security

pub set_default_version-ne-nil : (v : Text) → set_default_version v ≢ []
unfolding set_default_version
set_default_version-ne-nil v e = ground (arith, text_eq_iff v [])

-- A section that is there after a map comes from one that was there before.
IfPresent-map {ℓ κ} :
    {A : Type ℓ} (P : A → Type κ) (f : A → A) (o : Option A)
    → ((a : A) → P (f a))
    → IfPresent P (Opt.map f o)
IfPresent-map P f none h = tt
IfPresent-map P f (some a) h = h a

default_seed_versions-IsVersioned : (s : Seeds) → IsVersioned (sections (default_seed_versions s))
unfolding default_seed_versions
default_seed_versions-IsVersioned s = record {
  applications =
      IfPresent-map _ versioned_applications s.applications
        (λ a. set_default_version-ne-nil a.version);
  incus = IfPresent-map _ versioned_section s.incus (λ a. set_default_version-ne-nil a.version);
  install = IfPresent-map _ versioned_install s.install (λ a. set_default_version-ne-nil a.version);
  migration_manager =
      IfPresent-map _ versioned_section s.migration_manager
        (λ a. set_default_version-ne-nil a.version);
  network = IfPresent-map _ versioned_section s.network (λ a. set_default_version-ne-nil a.version);
  operations_center =
      IfPresent-map _ versioned_section s.operations_center
        (λ a. set_default_version-ne-nil a.version);
  provider =
      IfPresent-map _ versioned_section s.provider (λ a. set_default_version-ne-nil a.version);
  services =
      IfPresent-map _ versioned_section s.services (λ a. set_default_version-ne-nil a.version);
  update = IfPresent-map _ versioned_update s.update (λ a. set_default_version-ne-nil a.version);
  kernel = IfPresent-map _ versioned_section s.kernel (λ a. set_default_version-ne-nil a.version);
  security =
      IfPresent-map _ versioned_security s.security (λ a. set_default_version-ne-nil a.version);
}

never_checked-IfPresent :
    (o : Option UpdateSeed)
    → IfPresent (λ (a : UpdateSeed). a.version ≢ []) o
    → (never_checked o).version ≢ []
unfolding never_checked
never_checked-IfPresent none h = λ e. cc
never_checked-IfPresent (some u) h = h

offline_seeds-IsVersioned :
    (offline : Bool) (s : Seeds)
    → IsVersioned (sections s)
    → IsVersioned (sections (offline_seeds offline s))
unfolding offline_seeds
offline_seeds-IsVersioned false s v = v
offline_seeds-IsVersioned true s v = record {
  applications = v.applications;
  incus = v.incus;
  install = v.install;
  migration_manager = v.migration_manager;
  network = v.network;
  operations_center = v.operations_center;
  provider = v.provider;
  services = v.services;
  update = never_checked-IfPresent s.update v.update;
  kernel = v.kernel;
  security = v.security;
}

-- Each section that is present has a version once the defaults are applied.
pub apply_defaults-IsVersioned : (d : Document) → IsVersioned (sections (apply_defaults d).seeds)
unfolding apply_defaults
apply_defaults-IsVersioned d =
    offline_seeds-IsVersioned d.image.offline _ (default_seed_versions-IsVersioned d.seeds)

-- The image of a filled document has a channel.
pub default_image-HasChannel : (i : Image) → (default_image i).channel ≢ []
unfolding default_image
default_image-HasChannel i e = ground (arith, text_eq_iff i.channel [])

-- An offline build has an update seed that never checks.
pub offline_seeds-Never :
    (offline : Bool) (s : Seeds)
    → offline ≡ true
    → (u : UpdateSeed) × ((offline_seeds offline s).update ≡ some u)
      × (u.check_frequency ≡ check_frequency_never)
unfolding offline_seeds
offline_seeds-Never true s h = (never_checked s.update, refl, checked s.update)
  where
    checked : (o : Option UpdateSeed) → (never_checked o).check_frequency ≡ check_frequency_never
    checked none = unfold never_checked in refl
    checked (some u) = unfold never_checked in refl
offline_seeds-Never false s h = cc
