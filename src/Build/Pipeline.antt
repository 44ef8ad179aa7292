-- ===== src/Build/Pipeline.antt =====
-- internal/build/build.go, `Build`: resolve, acquire, probe, seed, splice and rescue, over the ports.
-- The reporter is the list of the events that it has received. A size in int64 is a number of at
-- least 0 here; `splice` runs on fuel, and `diverged` means that it ran out.
pub mod Ends
pub mod Built
pub mod Checks
pub mod Rescue
pub mod Finish
pub mod Correct
pub mod Staging
mod Tests
use incusos_builder.Base.{
  ℕ, ◌≡◌, Bool, true, false, not, Option, none, some, List, [], ◌∷◌, ◌++◌, length, drop, ltb, ◌==◌,
  if◌then◌else◌,
}
use incusos_builder.Base.Text.{Text, codes}
use incusos_builder.Base.Path.{clean, slash}
use incusos_builder.Errdefs.{Error, Result, ok, err, config, plain, errorf, lit, num}
use incusos_builder.Io.{Reader, Writer, Polls}
use incusos_builder.Images.{UpdateFile}
use incusos_builder.Run.{Run}
use incusos_builder.Build.Spec.{Seeds, Spec, Plan, BuildResult}
use incusos_builder.Build.Resolve.{resolve}
use incusos_builder.Build.Probe.{probe, SeedPartition}
use incusos_builder.Build.Splice.{splice}
use incusos_builder.Build.Ports.{VerifiedAsset, ReleaseMetadata, RescueAsset, RescueInput, Ports}

-- The named steps of a build.
pub data BuildStep : Type 0 where
  step_resolve step_acquire step_probe step_seed step_splice step_rescue : BuildStep

-- `Reporter.Step` and `Reporter.Done`.
pub data Event : Type 0 where
  started finished : BuildStep → Event

abbrev pub production_seed_start : ℕ
production_seed_start = 2148532224

abbrev pub rescue_tree_prefix : Text
rescue_tree_prefix = codes "update/"

-- `rescueRelPath`: a path that is cleaned as a rooted one, without its first slash.
unfoldable pub rescue_rel_path : Text → Text
rescue_rel_path filename = rescue_tree_prefix ++ drop 1 (clean (slash ∷ filename))

-- `checkRenderedSeedSize`.
unfoldable pub check_rendered_seed_size : ℕ → List ℕ → Result (Unit {0})
check_rendered_seed_size seed_size tar =
    if seed_size == length tar
    then ok tt
    else err (
        plain (
          lit "internal: seed renderer reported "
          ∷ num seed_size
          ∷ lit " bytes but returned "
          ∷ num (length tar)
          ∷ []))

-- The test that the seed tar fits in the partition.
unfoldable pub check_fits : ℕ → ℕ → Result (Unit {0})
check_fits seed_size capacity =
    if ltb capacity seed_size
    then err (
        errorf config (
          lit "seed tar is "
          ∷ num seed_size
          ∷ lit " bytes, seed-data partition holds "
          ∷ num capacity
          ∷ []))
    else ok tt

abbrev pub Renderer : Type 0
Renderer = Seeds → Result (List ℕ × ℕ)

module _ (R : Reader) (W : Writer) (P : Ports R) where
  pub record State : Type 0 where
    pub world : P.World
    pub sink : W.State
    pub events : List Event

  pub data Outcome {ℓ} (A : Type ℓ) : Type ℓ where
    returned : A → State → Outcome A
    failed : Error → State → Outcome A
    panicked : State → Outcome A
    diverged : Outcome A

  abbrev pub Action {ℓ} : Type ℓ → Type ℓ
  Action A = State → Outcome A

  abbrev pub after {ℓ κ} : {A : Type ℓ} {B : Type κ} → Outcome A → (A → Action B) → Outcome B
  after (returned a s) f = f a s
  after (failed e s) f = failed e s
  after (panicked s) f = panicked s
  after diverged f = diverged

  infixl 5 ◌>>=◌ ◌>>◌
  abbrev pub ◌>>=◌ {ℓ κ} : {A : Type ℓ} {B : Type κ} → Action A → (A → Action B) → Action B
  (m >>= f) s = after (m s) f

  abbrev pub ◌>>◌ {ℓ κ} : {A : Type ℓ} {B : Type κ} → Action A → Action B → Action B
  (m >> k) s = after (m s) (λ _. k)

  abbrev pub report : Event → Action (Unit {0})
  report e s = returned tt (record s { events = s.events ++ (e ∷ []) })

  abbrev pub call : {A : Type 0} → Result A → Action A
  call (ok a) s = returned a s
  call (err e) s = failed e s

  -- A call of a port.
  abbrev pub answer : {A : Type 0} → Result A × P.World → Action A
  answer (ok a, w) s = returned a (record s { world = w })
  answer (err e, w) s = failed e (record s { world = w })

  abbrev pub port : {A : Type 0} → (P.World → Result A × P.World) → Action A
  port f s = answer (f s.world) s

  abbrev pub run : {A : Type 0} → Run A → Action A
  run (Run.done a) s = returned a s
  run (Run.failed e) s = failed e s
  run Run.panicked s = panicked s

  -- `splice` on the output of the build.
  abbrev pub spliced_into : Option (ℕ × Option Error × W.State) → Action ℕ
  spliced_into none s = diverged
  spliced_into (some (n, some e, out)) s = failed e (record s { sink = out })
  spliced_into (some (n, none, out)) s = returned n (record s { sink = out })

  -- The loop of `writeRescue` over the applications.
  unfoldable pub rescue_assets : Text → List UpdateFile → Action (List (RescueAsset R))
  rescue_assets version [] = λ s. returned [] s
  rescue_assets version (file ∷ files) = do
    handle ← port (P.asset version file)
    assets ← rescue_assets version files
    λ s. returned (record { rel_path = rescue_rel_path file.filename; asset = handle } ∷ assets) s

  -- `writeRescue`.
  unfoldable pub write_rescue : Spec → Plan → Text → Action (Unit {0})
  write_rescue spec plan resources_tmp = do
    assets ← rescue_assets plan.version plan.apps
    meta ← port (P.release_metadata plan.version plan.apps)
    port (
        P.write_rescue spec.image_type
          (record {
            assets = assets;
            update_json = meta.update_json;
            update_sjson = meta.update_sjson;
          })
          resources_tmp)

  -- The last part of `runBuild`: the rescue media of an offline build.
  unfoldable pub finish : Spec → Plan → Text → BuildResult → Action BuildResult
  finish spec plan resources_tmp result = if not spec.offline then (λ s. returned result s) else (do
    report (started step_rescue)
    write_rescue spec plan resources_tmp
    report (finished step_rescue)
    λ s. returned (record result { resources_tmp = resources_tmp }) s)

  -- The part of `runBuild` from the seed tar on.
  unfoldable pub fill :
      ℕ
      → Polls
      → Spec
      → Renderer
      → Plan
      → VerifiedAsset R
      → SeedPartition
      → Text
      → Action BuildResult
  fill fuel polls spec render plan image part resources_tmp = do
    rendered ← call (render spec.seeds)
    call (check_rendered_seed_size rendered.1 rendered.0)
    call (check_fits rendered.1 part.length_bytes)
    report (finished step_seed)
    report (started step_splice)
    written ← (λ s.
        spliced_into (splice R W fuel image.reopened s.sink polls part.start_byte rendered.0) s)
    report (finished step_splice)
    finish spec plan resources_tmp (record {
      version = plan.version;
      channel = spec.channel;
      image_type = spec.image_type;
      architecture = spec.architecture;
      bytes_written = written;
      seed_bytes = rendered.1;
      offline = spec.offline;
      resources_tmp = [];
    })

  -- `runBuild`, and `Build` at the start `production_seed_start`. A nil renderer is `none`.
  unfoldable pub run_build : ℕ → Polls → Spec → Option Renderer → Text → ℕ → Action BuildResult
  run_build fuel polls spec none resources_tmp expected_start =
      call (err (plain (lit "internal: seed renderer is not wired" ∷ [])))
  run_build fuel polls spec (some render) resources_tmp expected_start = do
    report (started step_resolve)
    index ← port P.index
    plan ← call (resolve spec index)
    report (finished step_resolve)
    report (started step_acquire)
    image ← port (P.asset plan.version plan.image)
    report (finished step_acquire)
    report (started step_probe)
    part ← run (probe image.opened expected_start)
    report (finished step_probe)
    report (started step_seed)
    fill fuel polls spec render plan image part resources_tmp

  unfoldable pub build : ℕ → Polls → Spec → Option Renderer → Text → Action BuildResult
  build fuel polls spec render resources_tmp =
      run_build fuel polls spec render resources_tmp production_seed_start
