-- ===== src/Build/Pipeline/Built.antt =====
-- `Build` as a whole, over ports that keep their contracts.
use incusos_builder.Base.{
  ℕ, ◌+◌, ◌≤◌, ◌<◌, ◌≡◌, ◌⊎◌, List, [], ◌∷◌, ◌++◌, length, take, All, In, if◌then◌else◌,
}
use incusos_builder.Base.Text.{Text}
use incusos_builder.Errdefs.{
  Error, ok, err, Wraps, FailsWith, config, fetch, output, version_not_found,
}
use incusos_builder.Io.{Reader, Writer, IsReader, IsWriter}
use incusos_builder.Images.{UpdateFile, Index}
use incusos_builder.Build.Spec.{Spec, Plan, BuildResult}
use incusos_builder.Build.Resolve.{resolve}
use incusos_builder.Build.Probe.{Stream, SeedPartition, gpt_head_limit}
use incusos_builder.Build.Probe.Exact.{IsByte, IsSeedData}
use incusos_builder.Build.Splice.Spliced.{spliced}
use incusos_builder.Build.Splice.Whole.{Enough}
use incusos_builder.Build.Ports.{VerifiedAsset, RescueInput, Ports}
use incusos_builder.Build.Pipeline.{
  step_resolve, step_acquire, step_probe, step_seed, step_splice, step_rescue, Event, started,
  finished, Renderer, State,
}

-- The events of a build, in order.
abbrev pub online_events : List Event
online_events =
    started step_resolve
    ∷ finished step_resolve
    ∷ started step_acquire
    ∷ finished step_acquire
    ∷ started step_probe
    ∷ finished step_probe
    ∷ started step_seed
    ∷ finished step_seed
    ∷ started step_splice
    ∷ finished step_splice
    ∷ []

abbrev pub all_events : List Event
all_events = online_events ++ (started step_rescue ∷ finished step_rescue ∷ [])

-- An error that the command line maps to an exit code of its own, or the renderer's.
pub data Classified (spec : Spec) (render : Renderer) (e : Error) : Type 0 where
  not_resolved : Wraps version_not_found e → Classified spec render e
  not_fetched : Wraps fetch e → Classified spec render e
  too_large : Wraps config e → Classified spec render e
  not_written : Wraps output e → Classified spec render e
  not_rendered : render spec.seeds ≡ err e → Classified spec render e

module _ (R : Reader) (W : Writer) (content : R.State → List ℕ) (sent : W.State → List ℕ)
    (reads : IsReader R content) (writes : IsWriter W sent) (P : Ports R) where
  -- A handle opens twice over the same bytes, and the fuel exceeds their number.
  pub record IsVerified (fuel : ℕ) (a : VerifiedAsset R) : Type 0 where
    pub bytes : (r : Stream) → a.opened ≡ ok r → All IsByte r.content
    pub same_bytes :
        (r : Stream) (source : R.State)
        → a.opened ≡ ok r
        → a.reopened ≡ ok source
        → content source ≡ r.content
    pub enough : Enough R W content sent reads writes fuel a.reopened

  -- The documented contracts of the ports: which errors they return, and that handles are reusable.
  pub record IsSource (fuel : ℕ) : Type 0 where
    pub index_fails : (w : P.World) → FailsWith fetch (P.index w).0
    pub asset_fails :
        (version : Text) (file : UpdateFile) (w : P.World)
        → FailsWith fetch (P.asset version file w).0
    pub asset_verified :
        (version : Text) (file : UpdateFile) (w : P.World) (a : VerifiedAsset R)
        → (P.asset version file w).0 ≡ ok a
        → IsVerified fuel a
    pub metadata_fails :
        (version : Text) (files : List UpdateFile) (w : P.World)
        → FailsWith fetch (P.release_metadata version files w).0
    pub rescue_fails :
        (image_type : Text) (input : RescueInput R) (path : Text) (w : P.World)
        → FailsWith output (P.write_rescue image_type input path w).0

  -- The renderer reports the length of its tar, which the fuel exceeds.
  abbrev pub IsRenderer : ℕ → Renderer → Type 0
  IsRenderer fuel render =
      (spec : Spec) (tar : List ℕ) (n : ℕ)
      → render spec.seeds ≡ ok (tar, n)
      → (n ≡ length tar) × (length tar < fuel)

  module _ (spec : Spec) (render : Renderer) (expected_start : ℕ) (s : State R W P) where
    -- A failed build has reported a prefix of the events, and it has written nothing unless the
    -- splice had started.
    pub record Stopped (e : Error) (t : State R W P) : Type 0 where
      pub failing : Classified spec render e
      pub remaining : List Event
      pub in_order : t.events ++ remaining ≡ all_events
      pub untouched : (t.sink ≡ s.sink) ⊎ In (started step_splice) t.events

    -- A build that returned.
    pub record IsBuilt (result : BuildResult) (t : State R W P) : Type 0 where
      pub index : Index
      pub plan : Plan
      pub resolved : resolve spec index ≡ ok plan
      pub version : result.version ≡ plan.version
      pub image : List ℕ
      pub part : SeedPartition
      pub starts : part.start_byte ≡ expected_start
      pub located : IsSeedData (take gpt_head_limit image) part
      pub tar : List ℕ
      pub rendered : render spec.seeds ≡ ok (tar, result.seed_bytes)
      pub measured : result.seed_bytes ≡ length tar
      pub fits : length tar ≤ part.length_bytes
      pub inside : part.start_byte + length tar ≤ length image
      pub sends : sent t.sink ≡ sent s.sink ++ spliced part.start_byte tar image
      pub counts : result.bytes_written ≡ length image
      pub reports : t.events ≡ (if spec.offline then all_events else online_events)
