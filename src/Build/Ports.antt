-- ===== src/Build/Ports.antt =====
-- internal/build/ports.go: what a build needs of the outside world. The ports are parameters of the
-- model: each takes the state of the world and returns its answer and the next state.
use incusos_builder.Base.{ℕ, List}
use incusos_builder.Base.Text.{Text}
use incusos_builder.Errdefs.{Result}
use incusos_builder.Io.{Reader}
use incusos_builder.Images.{UpdateFile, Index}
use incusos_builder.Build.Probe.{Stream}

module _ (R : Reader) where
  -- `VerifiedAsset`: what its first `Open` gives, decompressed, as far as the probe reads it, and
  -- the decompressed reader that its second `Open` gives.
  pub record VerifiedAsset : Type 0 where
    pub opened : Result Stream
    pub reopened : Result R.State

  pub record ReleaseMetadata : Type 0 where
    pub update_json : List ℕ
    pub update_sjson : List ℕ

  pub record RescueAsset : Type 0 where
    pub rel_path : Text
    pub asset : VerifiedAsset

  pub record RescueInput : Type 0 where
    pub assets : List RescueAsset
    pub update_json : List ℕ
    pub update_sjson : List ℕ

  -- `ImageSource` and `RescueWriter`.
  pub record Ports : Type 1 where
    pub World : Type 0
    pub index : World → Result Index × World
    pub asset : Text → UpdateFile → World → Result VerifiedAsset × World
    pub release_metadata : Text → List UpdateFile → World → Result ReleaseMetadata × World
    pub write_rescue : Text → RescueInput → Text → World → Result (Unit {0}) × World
