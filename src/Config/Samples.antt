-- ===== src/Config/Samples.antt =====
-- A document, decoders that know a few texts, and what they parse to, for the tests.
use incusos_builder.Base.{◌≡◌, refl, inl, inr, ◌⊎◌, true, none, some, [], ◌∷◌, ◌||◌, if◌then◌else◌}
use incusos_builder.Base.Int.{pos}
use incusos_builder.Base.Text.{Text, text_eq, mem, codes}
use incusos_builder.Errdefs.{ok}
use incusos_builder.Config.Schema.{Document, spec_of}
use incusos_builder.Config.Defaults.{
  apply_defaults, default_image, default_seed_versions, offline_seeds, never_checked,
  set_default_version,
}
use incusos_builder.Config.Validate.{
  check_version, validate, validate_image, validate_install, validate_target, validate_security,
  validate_offline, to_lower,
}
use incusos_builder.Config.Load.{
  Decoders, LoadFailure, load_error, parse, plaintext_of, decrypted, decoded, has_top_level_sops,
}

-- An offline ISO with one application and no versions or channel.
abbrev pub offline_document : Document
offline_document = record {
  version = some (pos 1);
  image = record {
    image_type = codes "iso";
    architecture = codes "x86_64";
    channel = [];
    release = [];
    offline = true;
  };
  seeds = record {
    applications =
        some (record { version = []; applications = (record { name = codes "incus" }) ∷ [] });
    incus = none;
    install = some (record {
      version = [];
      target = some (record { sort_order = codes "Smallest"; body = [] });
      body = [];
    });
    migration_manager = none;
    network = none;
    operations_center = none;
    provider = none;
    services = none;
    update = none;
    kernel = none;
    security = none;
  };
}

abbrev pub knows : Text → Document ⊎ LoadFailure
knows plaintext =
    if text_eq plaintext (codes "offline")
    then inl offline_document
    else inr (load_error (codes "field colour not found in type config.image"))

-- "sealed" decrypts to "offline", "broken" to nothing.
abbrev pub decoders : Decoders
decoders = record {
  load_keys = λ raw.
      if text_eq raw (codes "sealed") || text_eq raw (codes "broken") || text_eq raw (codes "stale")
      then inl (codes "version" ∷ codes "sops" ∷ [])
      else inl (codes "version" ∷ []);
  decrypt_data = λ raw.
      if text_eq raw (codes "broken")
      then inr (codes "no key")
      else if text_eq raw (codes "stale")
      then inl (codes "old")
      else inl (codes "offline");
  load_document = knows;
}

pub sealed_parses : parse decoders (codes "sealed") ≡ ok (spec_of (apply_defaults offline_document))
unfolding parse plaintext_of decrypted decoded has_top_level_sops check_version validate
    validate_image validate_install validate_target validate_security validate_offline to_lower
    text_eq mem apply_defaults default_image default_seed_versions offline_seeds never_checked
    spec_of set_default_version
sealed_parses = refl
