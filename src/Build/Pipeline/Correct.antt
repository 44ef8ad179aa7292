-- ===== src/Build/Pipeline/Correct.antt =====
-- Every build over ports that keep their contracts ends as `IsBuilt` or `Stopped` say.
use incusos_builder.Base.{
  ℕ, ◌≤◌, ◌<◌, ◌≡◌, refl, ap, inl, inr, none, some, List, [], ◌∷◌, ◌++◌, length, drop, In, arith,
}
use incusos_builder.Base.Text.{Text}
use incusos_builder.Errdefs.{Result, ok, config, fetch, version_not_found}
use incusos_builder.Io.{Reader, Writer, IsReader, IsWriter, Polls}
use incusos_builder.Images.{Index}
use incusos_builder.Run.{done}
use incusos_builder.Build.Spec.{Spec, Plan, BuildResult}
use incusos_builder.Build.Resolve.{resolve}
use incusos_builder.Build.Resolve.Failures.{resolve-FailsWith}
use incusos_builder.Build.Probe.{SeedPartition, probe}
use incusos_builder.Build.Splice.{splice}
use incusos_builder.Build.Splice.Whole.{Enough, splice_lem}
use incusos_builder.Build.Ports.{VerifiedAsset, Ports}
use incusos_builder.Build.Pipeline.{
  step_seed, step_splice, started, finished, Renderer, State, check_rendered_seed_size, check_fits,
  fill, run_build,
}
use incusos_builder.Build.Pipeline.Ends.{Ends, answer-Ends, call-Ends, run-Ends, spliced-Ends}
use incusos_builder.Build.Pipeline.Built.{
  all_events, not_resolved, not_fetched, too_large, not_rendered, IsVerified, IsSource, IsRenderer,
}
use incusos_builder.Build.Pipeline.Checks.{
  probe_panics, probe_failed, probe_done, check_rendered_seed_size_ok, check_fits_ok,
  check_fits-FailsWith, Wraps-of,
}
use incusos_builder.Build.Pipeline.Finish.{
  IsSpliced, finish-Ends, before_seed, spliced_done, spliced_failed, stopped_early, Fails, Succeeds,
}

module _ (R : Reader) (W : Writer) (content : R.State → List ℕ) (sent : W.State → List ℕ)
    (reads : IsReader R content) (writes : IsWriter W sent) (P : Ports R) (fuel : ℕ)
    (sound : IsSource R W content sent reads writes P fuel) (spec : Spec) (render : Renderer) where
  module _ (expected_start : ℕ) (s : State R W P) (fresh : s.events ≡ []) where
    splice_ends :
        (opened : Result R.State) (out : W.State) (polls : Polls) (offset : ℕ) (tar : List ℕ)
        → Enough R W content sent reads writes fuel opened
        → length tar < fuel
        → splice R W fuel opened out polls offset tar ≡ none
        → ⊥
    splice_ends opened out polls offset tar enough enough_tar h = rw h at (
        splice_lem R W content sent reads writes fuel opened out polls offset tar enough enough_tar)

    started_early : In (started step_splice) (
        before_seed R W content sent reads writes P fuel sound spec render expected_start s fresh
        ++ (finished step_seed ∷ [])
        ++ (started step_splice ∷ []))
    started_early = inr (inr (inr (inr (inr (inr (inr (inr (inl refl))))))))

    abbrev result_of : Plan → ℕ → ℕ → BuildResult
    result_of plan count n = record {
      version = plan.version;
      channel = spec.channel;
      image_type = spec.image_type;
      architecture = spec.architecture;
      bytes_written = count;
      seed_bytes = n;
      offline = spec.offline;
      resources_tmp = [];
    }

    -- What the probe and the splice have shown of the image, together.
    whole_image :
        (polls : Polls) (index : Index) (plan : Plan) (image : VerifiedAsset R)
        (part : SeedPartition) (out out' : W.State) (n count : ℕ) (tar : List ℕ)
        → resolve spec index ≡ ok plan
        → IsVerified R W content sent reads writes P fuel image
        → probe image.opened expected_start ≡ done part
        → render spec.seeds ≡ ok (tar, n)
        → n ≡ length tar
        → n ≤ part.length_bytes
        → length tar < fuel
        → splice R W fuel image.reopened out polls part.start_byte tar ≡ some (count, none, out')
        → out ≡ s.sink
        → IsSpliced R W content sent reads writes P fuel sound spec render expected_start s fresh
            (result_of plan count n)
            out'
    whole_image polls index plan image part out out' n count tar resolved verified probed rendered
          measured fits enough_tar wrote same =
        let (r, opened, starts, located) =
          probe_done image.opened expected_start part verified.bytes probed in
        let (source, reopened, is_splice) =
          spliced_done R W content sent reads writes P fuel sound spec render expected_start s fresh
            image.reopened out out' polls part.start_byte count tar verified.enough enough_tar
            wrote in
        let same_bytes = verified.same_bytes r source opened reopened in
        let (inside, counts, sends) = is_splice.whole refl in
        record {
          index = index;
          plan = plan;
          resolved = resolved;
          version = refl;
          image = r.content;
          part = part;
          starts = starts;
          located = located;
          tar = tar;
          rendered = rendered;
          measured = measured;
          fits = omega (arith, measured, fits);
          inside = rw same_bytes at inside;
          sends = rw (same_bytes, same) at sends;
          counts = rw same_bytes at counts;
        }

    fill-Ends :
        (polls : Polls) (index : Index) (plan : Plan) (image : VerifiedAsset R)
        (part : SeedPartition) (path : Text) (t : State R W P)
        → IsRenderer R W content sent reads writes P fuel render
        → resolve spec index ≡ ok plan
        → IsVerified R W content sent reads writes P fuel image
        → probe image.opened expected_start ≡ done part
        → t.events
          ≡ before_seed R W content sent reads writes P fuel sound spec render expected_start s
              fresh
        → t.sink ≡ s.sink
        → Ends R W P
            (Fails R W content sent reads writes P fuel sound spec render expected_start s fresh)
            (Succeeds R W content sent reads writes P fuel sound spec render expected_start s fresh)
            (fill R W P fuel polls spec render plan image part path t)
    unfolding fill
    fill-Ends polls index plan image part path t renders resolved verified probed events sink =
        call-Ends R W P
          (Fails R W content sent reads writes P fuel sound spec render expected_start s fresh)
          (Succeeds R W content sent reads writes P fuel sound spec render expected_start s fresh)
          (render spec.seeds) t _
          (λ e h.
            stopped_early R W content sent reads writes P fuel sound spec render expected_start s
              fresh e t (drop 7 all_events) (not_rendered h) (rw events refl) sink)
          (λ rendered h.
            let (tar, n) = rendered in
            let (measured, enough_tar) = renders spec tar n h in
            call-Ends R W P
              (Fails R W content sent reads writes P fuel sound spec render expected_start s fresh)
              (Succeeds R W content sent reads writes P fuel sound spec render expected_start s
                fresh)
              (check_rendered_seed_size n tar) t _
              (λ e bad. absurd (check_rendered_seed_size_ok n tar measured e bad))
              (λ u good.
                call-Ends R W P
                  (Fails R W content sent reads writes P fuel sound spec render expected_start s
                    fresh)
                  (Succeeds R W content sent reads writes P fuel sound spec render expected_start s
                    fresh)
                  (check_fits n part.length_bytes) t _
                  (λ e bad.
                    stopped_early R W content sent reads writes P fuel sound spec render
                      expected_start s fresh e t (drop 7 all_events)
                      (too_large
                        (Wraps-of config _ e (check_fits-FailsWith n part.length_bytes) bad))
                      (rw events refl) sink)
                  (λ u fits.
                    spliced-Ends R W P
                      (Fails R W content sent reads writes P fuel sound spec render expected_start s
                        fresh)
                      (Succeeds R W content sent reads writes P fuel sound spec render
                        expected_start s fresh)
                      (splice R W fuel image.reopened t.sink polls part.start_byte tar)
                      (record t {
                        events =
                            t.events ++ (finished step_seed ∷ []) ++ (started step_splice ∷ []);
                      })
                      _
                      (λ ran_out.
                        splice_ends image.reopened t.sink polls part.start_byte tar verified.enough
                          enough_tar ran_out)
                      (λ count e out bad. record {
                        failing =
                            spliced_failed R W content sent reads writes P fuel sound spec render
                              expected_start s fresh image.reopened t.sink out polls part.start_byte
                              count tar e verified.enough enough_tar bad;
                        remaining = drop 9 all_events;
                        in_order = rw events refl;
                        untouched = inr (rw events started_early);
                      })
                      (λ count out wrote.
                        finish-Ends R W content sent reads writes P fuel sound spec render
                          expected_start s fresh (result_of plan count n) plan path
                          (record t {
                            sink = out;
                            events =
                                t.events
                                ++ (finished step_seed ∷ [])
                                ++ (started step_splice ∷ [])
                                ++ (finished step_splice ∷ []);
                          })
                          (rw events refl)
                          (whole_image polls index plan image part t.sink out n count tar resolved
                            verified probed h measured (check_fits_ok n part.length_bytes fits)
                            enough_tar wrote sink)))))

    pub run_build_lem :
        (polls : Polls) (path : Text)
        → IsRenderer R W content sent reads writes P fuel render
        → Ends R W P
            (Fails R W content sent reads writes P fuel sound spec render expected_start s fresh)
            (Succeeds R W content sent reads writes P fuel sound spec render expected_start s fresh)
            (run_build R W P fuel polls spec (some render) path expected_start s)
    unfolding run_build
    run_build_lem polls path renders =
        answer-Ends R W P
          (Fails R W content sent reads writes P fuel sound spec render expected_start s fresh)
          (Succeeds R W content sent reads writes P fuel sound spec render expected_start s fresh)
          (P.index s.world) _ _
          (λ e w h.
            stopped_early R W content sent reads writes P fuel sound spec render expected_start s
              fresh e _ (drop 1 all_events)
              (not_fetched (Wraps-of fetch _ e (sound.index_fails s.world) (ap (λ r. r.0) h)))
              (rw fresh refl) refl)
          (λ index w h.
            call-Ends R W P
              (Fails R W content sent reads writes P fuel sound spec render expected_start s fresh)
              (Succeeds R W content sent reads writes P fuel sound spec render expected_start s
                fresh)
              (resolve spec index) _ _
              (λ e bad.
                stopped_early R W content sent reads writes P fuel sound spec render expected_start
                  s fresh e _ (drop 1 all_events)
                  (not_resolved (Wraps-of version_not_found _ e (resolve-FailsWith spec index) bad))
                  (rw fresh refl) refl)
              (λ plan resolved.
                answer-Ends R W P
                  (Fails R W content sent reads writes P fuel sound spec render expected_start s
                    fresh)
                  (Succeeds R W content sent reads writes P fuel sound spec render expected_start s
                    fresh)
                  (P.asset plan.version plan.image w) _ _
                  (λ e w' bad.
                    stopped_early R W content sent reads writes P fuel sound spec render
                      expected_start s fresh e _ (drop 3 all_events)
                      (not_fetched (
                        Wraps-of fetch _ e (sound.asset_fails plan.version plan.image w)
                          (ap (λ r. r.0) bad)))
                      (rw fresh refl) refl)
                  (λ image w' got.
                    let verified =
                      sound.asset_verified plan.version plan.image w image (ap (λ r. r.0) got) in
                    run-Ends R W P
                      (Fails R W content sent reads writes P fuel sound spec render expected_start s
                        fresh)
                      (Succeeds R W content sent reads writes P fuel sound spec render
                        expected_start s fresh)
                      (probe image.opened expected_start) _ _
                      (λ bad. probe_panics image.opened expected_start verified.bytes bad)
                      (λ e bad.
                        stopped_early R W content sent reads writes P fuel sound spec render
                          expected_start s fresh e _ (drop 5 all_events)
                          (not_fetched
                            (probe_failed image.opened expected_start e verified.bytes bad))
                          (rw fresh refl) refl)
                      (λ part probed.
                        fill-Ends polls index plan image part path _ renders resolved verified
                          probed (rw fresh refl) refl))))
