-- ===== src/Build/Pipeline/Tests.antt =====
-- A build of the sample image.
use incusos_builder.Base.{
  ◌≡◌, refl, Bool, false, Option, none, some, [], ◌∷◌, length, arith, ◌≤◌, ◌⊎◌,
}
use incusos_builder.Base.Text.{codes, mem, text_eq, text_lt}
use incusos_builder.Errdefs.{Error, ok, err, is, Sentinel-discrete}
use incusos_builder.Build.Spec.{Spec, BuildResult}
use incusos_builder.Build.Resolve.{resolve, select_update, select_loop}
use incusos_builder.Cli.Exit.{exit_code}
use incusos_builder.Cli.Exit.Built.{Coded, run_build-exit_code}
use incusos_builder.Build.Ports.{VerifiedAsset, ReleaseMetadata, Ports}
use incusos_builder.Build.Pipeline.{State, Renderer, Outcome, failed, run_build}
use incusos_builder.Build.Pipeline.Ends.{Ends}
use incusos_builder.Build.Pipeline.Built.{IsSource, IsRenderer}
use incusos_builder.Build.Samples.{
  three_updates, raw_spec, image, all-IsByte, image_bytes, zeros, wide, header, entry, two_bytes,
  remaining, two_bytes-IsReader, keeper, keeper-IsWriter,
}

abbrev sample_asset : VerifiedAsset two_bytes
sample_asset = record { opened = ok image; reopened = ok image.content }

abbrev sample_metadata : ReleaseMetadata two_bytes
sample_metadata = record { update_json = 1 ∷ []; update_sjson = 2 ∷ [] }

abbrev sample_ports : Ports two_bytes
sample_ports = record {
  World = Unit {0};
  index = λ w. (ok three_updates, w);
  asset = λ version file w. (ok sample_asset, w);
  release_metadata = λ version files w. (ok sample_metadata, w);
  write_rescue = λ image_type input path w. (ok tt, w);
}

abbrev render_five : Renderer
render_five seeds = ok (1 ∷ 2 ∷ 3 ∷ 4 ∷ 5 ∷ [], 5)

image_length : length image.content ≡ 1152
unfolding zeros header entry wide
image_length = refl

sample-IsSource :
    IsSource two_bytes keeper remaining remaining two_bytes-IsReader keeper-IsWriter sample_ports
      2000
sample-IsSource = record {
  index_fails = λ w. tt;
  asset_fails = λ version file w. tt;
  asset_verified = λ version file w a got.
      let same : sample_asset ≡ a = cc in
      rw (← same) (record {
        bytes = λ r h. let e : image ≡ r = cc in rw (← e) (all-IsByte image.content image_bytes);
        same_bytes = λ r source h h'.
            let e : image ≡ r = cc in let e' : image.content ≡ source = cc in rw (← e, ← e') refl;
        enough = omega (arith, image_length);
      });
  metadata_fails = λ version files w. tt;
  rescue_fails = λ image_type input path w. tt;
}

render_five-IsRenderer :
    IsRenderer two_bytes keeper remaining remaining two_bytes-IsReader keeper-IsWriter sample_ports
      2000 render_five
render_five-IsRenderer spec tar n h =
    let e : 1 ∷ 2 ∷ 3 ∷ 4 ∷ 5 ∷ [] ≡ tar = cc in
    let e' : 5 ≡ n = cc in rw (← e, ← e') (refl, omega arith)

abbrev at_rest : State two_bytes keeper sample_ports
at_rest = record { world = tt; sink = []; events = [] }

-- A build of a release that the index does not have.
abbrev absent_spec : Spec
absent_spec = record raw_spec { release = codes "9" }

abbrev no_test : Error → Bool
no_test e = false

abbrev ends_with : Outcome two_bytes keeper sample_ports BuildResult → Option Error
ends_with (failed e s) = some e
ends_with o = none

absent_build :
    exit_code no_test no_test (
      ends_with (
        run_build two_bytes keeper sample_ports 2000 [] absent_spec
          (some render_five)
          (codes "/tmp/r")
          2048
          at_rest))
    ≡ 5
unfolding exit_code run_build resolve select_update select_loop mem text_eq text_lt is
    Sentinel-discrete
absent_build = refl

run_build-exit_code_example :
    Ends two_bytes keeper sample_ports
      (λ (e : Error) (t : State two_bytes keeper sample_ports).
        Coded no_test no_test e (exit_code no_test no_test (some e))
        × ((2 ≤ exit_code no_test no_test (some e)) ⊎ (render_five absent_spec.seeds ≡ err e)))
      (λ (result : BuildResult) (t : State two_bytes keeper sample_ports).
        exit_code no_test no_test none ≡ 0)
      (run_build two_bytes keeper sample_ports 2000 [] absent_spec
        (some render_five)
        (codes "/tmp/r")
        2048
        at_rest)
run_build-exit_code_example =
    run_build-exit_code no_test no_test two_bytes keeper remaining remaining two_bytes-IsReader
      keeper-IsWriter sample_ports 2000 sample-IsSource absent_spec render_five 2048 at_rest refl []
      (codes "/tmp/r") render_five-IsRenderer
