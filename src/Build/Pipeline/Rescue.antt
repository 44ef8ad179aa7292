-- ===== src/Build/Pipeline/Rescue.antt =====
-- The rescue step of a build.
use incusos_builder.Base.{ℕ, ◌≡◌, refl, ap, List, [], ◌∷◌}
use incusos_builder.Base.Text.{Text}
use incusos_builder.Errdefs.{Error, fetch, output}
use incusos_builder.Io.{Reader, Writer, IsReader, IsWriter}
use incusos_builder.Images.{UpdateFile}
use incusos_builder.Build.Spec.{Spec, Plan}
use incusos_builder.Build.Ports.{ReleaseMetadata, RescueAsset, Ports}
use incusos_builder.Build.Pipeline.{Renderer, State, rescue_assets, write_rescue, answer}
use incusos_builder.Build.Pipeline.Ends.{Ends, after-Ends, answer-Ends, reply-Ends}
use incusos_builder.Build.Pipeline.Built.{Classified, not_fetched, not_written, IsSource}
use incusos_builder.Build.Pipeline.Checks.{Wraps-of}

module _ (R : Reader) (W : Writer) (content : R.State → List ℕ) (sent : W.State → List ℕ)
    (reads : IsReader R content) (writes : IsWriter W sent) (P : Ports R) (fuel : ℕ)
    (sound : IsSource R W content sent reads writes P fuel) (spec : Spec) (render : Renderer) where
  -- The rescue step changes the world alone.
  module _ (F : Error → State R W P → Type 0) (t : State R W P)
      (stops : (e : Error) (t' : State R W P)
        → Classified spec render e
        → t'.sink ≡ t.sink
        → t'.events ≡ t.events
        → F e t') where
    abbrev pub Same : {A : Type 0} → A → State R W P → Type 0
    Same a t' = (t'.sink ≡ t.sink) × (t'.events ≡ t.events)

    rescue_assets-Ends :
        (version : Text) (files : List UpdateFile) (t' : State R W P)
        → Same tt t'
        → Ends R W P F Same (rescue_assets R W P version files t')
    unfolding rescue_assets Ends
    rescue_assets-Ends version [] t' same = same
    rescue_assets-Ends version (file ∷ files) t' same =
        answer-Ends R W P F Same (P.asset version file t'.world) t' _
          (λ e w h.
            stops e (record t' { world = w })
              (not_fetched
                (Wraps-of fetch _ e (sound.asset_fails version file t'.world) (ap (λ r. r.0) h)))
              same.0 same.1)
          (λ a w h.
            after-Ends R W P F Same Same _ _
              (rescue_assets-Ends version files (record t' { world = w }) same)
              (λ assets t'' same''. same''))

    pub write_rescue-Ends :
        (plan : Plan) (path : Text) → Ends R W P F Same (write_rescue R W P spec plan path t)
    unfolding write_rescue
    write_rescue-Ends plan path =
        after-Ends R W P F Same Same _ _ (rescue_assets-Ends plan.version plan.apps t (refl, refl))
          (λ assets t' same.
            answer-Ends R W P F Same (P.release_metadata plan.version plan.apps t'.world) t' _
              (λ e w h.
                stops e (record t' { world = w })
                  (not_fetched (
                    Wraps-of fetch _ e (sound.metadata_fails plan.version plan.apps t'.world)
                      (ap (λ r. r.0) h)))
                  same.0 same.1)
              (λ meta w h. write_media assets meta (record t' { world = w }) same))
      where
        write_media :
            (assets : List (RescueAsset R)) (meta : ReleaseMetadata R) (t' : State R W P)
            → Same tt t'
            → Ends R W P F Same (
                answer R W P
                  (P.write_rescue spec.image_type
                    (record {
                      assets = assets;
                      update_json = meta.update_json;
                      update_sjson = meta.update_sjson;
                    })
                    path
                    t'.world)
                  t')
        write_media assets meta t' same =
            reply-Ends R W P F Same _ t'
              (λ e w h.
                stops e (record t' { world = w })
                  (not_written (
                    Wraps-of output _ e (sound.rescue_fails spec.image_type _ path t'.world)
                      (ap (λ r. r.0) h)))
                  same.0 same.1)
              (λ u w h. same)
