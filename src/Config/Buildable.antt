-- ===== src/Config/Buildable.antt =====
-- What a specification that `Parse` returned may be relied on for.
use incusos_builder.Base.{◌≡◌, ◌≢◌, true, some, [], sym}
use mathlib.Core.Path.{subst}
use incusos_builder.Base.Text.{Text}
use incusos_builder.Seeds.{UpdateSeed}
use incusos_builder.Errdefs.{ok}
use incusos_builder.Build.Spec.{Spec, image_type_iso, image_type_raw, arch_x86_64, arch_aarch64}
use incusos_builder.Config.Schema.{Document, spec_of}
use incusos_builder.Config.Defaults.{
  apply_defaults, default_image, check_frequency_never, default_seed_versions,
}
use incusos_builder.Config.Filled.{
  IsVersioned, apply_defaults-IsVersioned, default_image-HasChannel, offline_seeds-Never,
}
use incusos_builder.Config.Valid.{IsAccepted, OneOf, HasSortOrder, HasNoKeys, HasApplications}
use incusos_builder.Config.Load.{Decoders, parse}
use incusos_builder.Config.Parsed.{parse-Parses}

-- The update seed never checks.
abbrev pub NeverChecks : Spec → Type 0
NeverChecks spec =
    (u : UpdateSeed) × (spec.seeds.update ≡ some u) × (u.check_frequency ≡ check_frequency_never)

pub record IsBuildable (spec : Spec) : Type 0 where
  pub image_type : OneOf spec.image_type image_type_iso image_type_raw
  pub architecture : OneOf spec.architecture arch_x86_64 arch_aarch64
  pub channel : spec.channel ≢ []
  pub versions : IsVersioned spec.seeds
  pub sort_order : HasSortOrder spec.seeds.install
  pub no_keys : HasNoKeys spec.seeds.security
  pub applications : spec.offline ≡ true → HasApplications spec.seeds.applications
  pub never : spec.offline ≡ true → NeverChecks spec

spec_of-IsBuildable :
    (d : Document) → IsAccepted (apply_defaults d) → IsBuildable (spec_of (apply_defaults d))
unfolding spec_of apply_defaults default_image
spec_of-IsBuildable d a = record {
  image_type = a.image_type;
  architecture = a.architecture;
  channel = default_image-HasChannel d.image;
  versions = apply_defaults-IsVersioned d;
  sort_order = a.sort_order;
  no_keys = a.no_keys;
  applications = a.applications;
  never = offline_seeds-Never d.image.offline (default_seed_versions d.seeds);
}

-- A specification that `Parse` returns has the type iso or raw, the architecture x86_64 or aarch64, a
-- channel, a version in each seed that is present, a sort order that is empty, smallest or largest,
-- and no recovery keys; an offline one has applications, and an update seed that never checks.
pub parse-IsBuildable :
    (D : Decoders) (raw : Text) (spec : Spec) → parse D raw ≡ ok spec → IsBuildable spec
parse-IsBuildable D raw spec h =
    let p = (parse-Parses D raw spec).0 h in
    subst (λ s. IsBuildable s) (sym p.converted) (spec_of-IsBuildable p.document p.accepted)
