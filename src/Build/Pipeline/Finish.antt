-- ===== src/Build/Pipeline/Finish.antt =====
-- The end of a build, from the splice on.
use incusos_builder.Base.{
  ℕ, ◌+◌, ◌≤◌, ◌<◌, ◌≡◌, refl, ◌∙◌, ap, inl, inr, Bool, true, false, not, none, some, List, [], ◌∷◌,
  ◌++◌, length, take, In, if◌then◌else◌,
}
use incusos_builder.Base.Text.{Text}
use incusos_builder.Errdefs.{Error, Result, ok, err, fetch, is-join, join, sentinel}
use incusos_builder.Io.{Reader, Writer, IsReader, IsWriter, Polls}
use incusos_builder.Images.{Index}
use incusos_builder.Build.Spec.{Spec, Plan, BuildResult}
use incusos_builder.Build.Resolve.{resolve}
use incusos_builder.Build.Probe.{SeedPartition, gpt_head_limit}
use incusos_builder.Build.Probe.Exact.{IsSeedData}
use incusos_builder.Build.Splice.{splice}
use incusos_builder.Build.Splice.Spliced.{spliced, IsSplice}
use incusos_builder.Build.Splice.Whole.{Enough, splice_lem}
use incusos_builder.Build.Ports.{Ports}
use incusos_builder.Build.Pipeline.{
  step_resolve, step_acquire, step_probe, step_seed, step_splice, step_rescue, Event, started,
  finished, Renderer, State, returned, after, write_rescue, finish, Action,
}
use incusos_builder.Build.Pipeline.Ends.{Ends, after-Ends}
use incusos_builder.Build.Pipeline.Built.{
  online_events, all_events, Classified, not_fetched, not_written, IsSource, Stopped, IsBuilt,
}
use incusos_builder.Build.Pipeline.Rescue.{Same, write_rescue-Ends}

module _ (R : Reader) (W : Writer) (content : R.State → List ℕ) (sent : W.State → List ℕ)
    (reads : IsReader R content) (writes : IsWriter W sent) (P : Ports R) (fuel : ℕ)
    (sound : IsSource R W content sent reads writes P fuel) (spec : Spec) (render : Renderer) where
  module _ (expected_start : ℕ) (s : State R W P) (fresh : s.events ≡ []) where
    abbrev pub Fails : Error → State R W P → Type 0
    Fails = Stopped R W content sent reads writes P spec render expected_start s

    abbrev pub Succeeds : BuildResult → State R W P → Type 0
    Succeeds = IsBuilt R W content sent reads writes P spec render expected_start s

    -- The facts of a build whose splice has succeeded, but for the events.
    pub record IsSpliced (result : BuildResult) (out : W.State) : Type 0 where
      pub index : Index
      pub plan : Plan
      pub resolved : resolve spec index ≡ ok plan
      pub version : result.version ≡ plan.version
      pub image : List ℕ
      pub part : SeedPartition
      pub starts : part.start_byte ≡ expected_start
      pub located : IsSeedData (take gpt_head_limit image) part
      pub tar : List ℕ
      pub rendered : render spec.seeds ≡ ok (tar, result.seed_bytes)
      pub measured : result.seed_bytes ≡ length tar
      pub fits : length tar ≤ part.length_bytes
      pub inside : part.start_byte + length tar ≤ length image
      pub sends : sent out ≡ sent s.sink ++ spliced part.start_byte tar image
      pub counts : result.bytes_written ≡ length image

    built :
        (result : BuildResult) (t t' : State R W P) (path : Text)
        → IsSpliced result t.sink
        → t'.sink ≡ t.sink
        → t'.events ≡ (if spec.offline then all_events else online_events)
        → Succeeds (record result { resources_tmp = path }) t'
    built result t t' path i same reports = record {
      index = i.index;
      plan = i.plan;
      resolved = i.resolved;
      version = i.version;
      image = i.image;
      part = i.part;
      starts = i.starts;
      located = i.located;
      tar = i.tar;
      rendered = i.rendered;
      measured = i.measured;
      fits = i.fits;
      inside = i.inside;
      sends = ap sent same ∙ i.sends;
      counts = i.counts;
      reports = reports;
    }

    splice_started : In (started step_splice) (online_events ++ (started step_rescue ∷ []))
    splice_started = inr (inr (inr (inr (inr (inr (inr (inr (inl refl))))))))

    finish_offline :
        (result : BuildResult) (plan : Plan) (path : Text) (t : State R W P)
        → t.events ≡ online_events
        → spec.offline ≡ true
        → IsSpliced result t.sink
        → Ends R W P Fails Succeeds (
            after R W P
              (write_rescue R W P spec plan path
                (record t { events = t.events ++ (started step_rescue ∷ []) }))
              (λ _ t'.
                returned
                  (record result { resources_tmp = path })
                  (record t' { events = t'.events ++ (finished step_rescue ∷ []) })))
    unfolding Ends
    finish_offline result plan path t events offline i =
        let t₁ : State R W P = record t { events = t.events ++ (started step_rescue ∷ []) } in
        after-Ends R W P Fails
          (Same R W content sent reads writes P fuel sound spec render Fails t₁
            (λ e t' c sink reported. stops e t' c sink reported))
          Succeeds _ _
          (write_rescue-Ends R W content sent reads writes P fuel sound spec render Fails t₁
            (λ e t' c sink reported. stops e t' c sink reported) plan path)
          (λ u t' same.
            built result t (record t' { events = t'.events ++ (finished step_rescue ∷ []) }) path i
              same.0
              (rw offline
                (ap (λ es. es ++ (finished step_rescue ∷ [])) (same.1 ∙ reported_so_far))))
      where
        reported_so_far :
            t.events ++ (started step_rescue ∷ []) ≡ online_events ++ (started step_rescue ∷ [])
        reported_so_far = ap (λ es. es ++ (started step_rescue ∷ [])) events

        stops :
            (e : Error) (t' : State R W P)
            → Classified spec render e
            → t'.sink ≡ t.sink
            → t'.events ≡ t.events ++ (started step_rescue ∷ [])
            → Fails e t'
        stops e t' c sink reported = record {
          failing = c;
          remaining = finished step_rescue ∷ [];
          in_order = ap (λ es. es ++ (finished step_rescue ∷ [])) (reported ∙ reported_so_far);
          untouched = inr (rw (reported, reported_so_far) splice_started);
        }

    choose :
        (b : Bool) (x y : Action R W P BuildResult) (t : State R W P)
        → (b ≡ false → Ends R W P Fails Succeeds (x t))
        → (b ≡ true → Ends R W P Fails Succeeds (y t))
        → Ends R W P Fails Succeeds ((if not b then x else y) t)
    choose true x y t hx hy = hy refl
    choose false x y t hx hy = hx refl

    pub finish-Ends :
        (result : BuildResult) (plan : Plan) (path : Text) (t : State R W P)
        → t.events ≡ online_events
        → IsSpliced result t.sink
        → Ends R W P Fails Succeeds (finish R W P spec plan path result t)
    unfolding finish Ends
    finish-Ends result plan path t events i =
        choose spec.offline (λ t. returned result t) _ t
          (λ online. built result t t result.resources_tmp i refl (rw online events))
          (λ offline. finish_offline result plan path t events offline i)

    -- The events up to the start of the seed step.
    abbrev pub before_seed : List Event
    before_seed =
        started step_resolve
        ∷ finished step_resolve
        ∷ started step_acquire
        ∷ finished step_acquire
        ∷ started step_probe
        ∷ finished step_probe
        ∷ started step_seed
        ∷ []

    -- A splice without error comes from a reader, and has written the spliced image.
    pub spliced_done :
        (opened : Result R.State) (out out' : W.State) (polls : Polls) (offset n : ℕ) (tar : List ℕ)
        → Enough R W content sent reads writes fuel opened
        → length tar < fuel
        → splice R W fuel opened out polls offset tar ≡ some (n, none, out')
        → (source : R.State) × (opened ≡ ok source)
          × IsSplice offset tar (content source) (sent out) n none (sent out')
    spliced_done (err e) out out' polls offset n tar enough enough_tar h =
        let r = rw h at (
          splice_lem R W content sent reads writes fuel (err e) out polls offset tar enough
            enough_tar) in
        cc (r.2)
    spliced_done (ok source) out out' polls offset n tar enough enough_tar h = (
      source,
      refl,
      rw h at (
          splice_lem R W content sent reads writes fuel (ok source) out polls offset tar enough
            enough_tar),
    )

    pub spliced_failed :
        (opened : Result R.State) (out out' : W.State) (polls : Polls) (offset n : ℕ) (tar : List ℕ)
        (e : Error)
        → Enough R W content sent reads writes fuel opened
        → length tar < fuel
        → splice R W fuel opened out polls offset tar ≡ some (n, some e, out')
        → Classified spec render e
    spliced_failed (err e') out out' polls offset n tar e enough enough_tar h =
        let r = rw h at (
          splice_lem R W content sent reads writes fuel (err e') out polls offset tar enough
            enough_tar) in
        let same : e ≡ join (sentinel fetch) e' = cc in not_fetched (rw same (is-join fetch e'))
    spliced_failed (ok source) out out' polls offset n tar e enough enough_tar h =
        let r = rw h at (
          splice_lem R W content sent reads writes fuel (ok source) out polls offset tar enough
            enough_tar) in
        elim (r.failing) [ inl f ↦ not_fetched f | inr w ↦ not_written w ]

    -- A failure before the splice has started.
    pub stopped_early :
        (e : Error) (t : State R W P) (remaining : List Event)
        → Classified spec render e
        → t.events ++ remaining ≡ all_events
        → t.sink ≡ s.sink
        → Fails e t
    stopped_early e t remaining c in_order same = record {
      failing = c;
      remaining = remaining;
      in_order = in_order;
      untouched = inl same;
    }
