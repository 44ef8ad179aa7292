-- ===== src/Build/Resolve/Failures.antt =====
-- Every failure of the resolution wraps ErrVersionNotFound.
use incusos_builder.Build.Resolve.Files.{channel_of}
use incusos_builder.Base.{
  inl, inr, Bool, true, false, Option, none, some, List, [], ◌∷◌, ◌++◌, if◌then◌else◌, Bool-cases,
  Option-cases,
}
use incusos_builder.Base.Text.{Text, text_eq}
use incusos_builder.Errdefs.{ok, is-errorf, version_not_found, FailsWith, >>=-FailsWith}
use incusos_builder.Images.{FileType, application, UpdateFile, UpdateFull, Index}
use incusos_builder.Seeds.{Application, Applications}
use incusos_builder.Build.Spec.{Spec, image_type_iso, image_type_raw}
use incusos_builder.Build.Resolve.{
  app_suffix, select_update, image_file_type, matching_files, find_app_file, match_loop,
  match_applications, single_image, resolve,
}
use incusos_builder.Build.Resolve.Select.{select_update-FailsWith}

match_loop-FailsWith :
    (files : List UpdateFile) (version : Text) (apps : List Application)
    → FailsWith version_not_found (match_loop files version apps)
unfolding match_loop
match_loop-FailsWith files version [] = tt
match_loop-FailsWith files version (app ∷ apps) =
    elim (Option-cases (find_app_file files (app.name ++ app_suffix))) [
      | inl e ↦ rw (e, match_loop) (is-errorf version_not_found _)
      | inr (file, e) ↦
          rw (e, match_loop)
            (>>=-FailsWith version_not_found (match_loop files version apps) (λ fs. ok (file ∷ fs))
              (match_loop-FailsWith files version apps) (λ fs done. tt))
    ]

match_applications-FailsWith :
    (spec : Spec) (update : UpdateFull)
    → FailsWith version_not_found (match_applications spec update)
unfolding match_applications
match_applications-FailsWith spec update = go spec.seeds.applications
  where
    go :
        (o : Option Applications)
        → FailsWith version_not_found (elim o [
          | none ↦ ok []
          | some seed ↦
              match_loop
                (matching_files update.files spec.architecture application)
                update.version
                seed.applications
        ])
    go none = tt
    go (some seed) = match_loop-FailsWith _ _ seed.applications

image_file_type-FailsWith : (t : Text) → FailsWith version_not_found (image_file_type t)
unfolding image_file_type
image_file_type-FailsWith t = elim (Bool-cases (text_eq t image_type_iso)) [
  | inl e ↦ rw e tt
  | inr e ↦ elim (Bool-cases (text_eq t image_type_raw)) [
    | inl f ↦ rw (e, f) tt
    | inr f ↦ rw (e, f) (is-errorf version_not_found _)
  ]
]

single_image-FailsWith :
    (spec : Spec) (t : FileType) (update : UpdateFull) (images : List UpdateFile)
    → FailsWith version_not_found (single_image spec t update images)
unfolding single_image
single_image-FailsWith spec t update [] = is-errorf version_not_found _
single_image-FailsWith spec t update (x ∷ []) = tt
single_image-FailsWith spec t update (x ∷ y ∷ xs) = is-errorf version_not_found _

apps-FailsWith :
    (b : Bool) (spec : Spec) (update : UpdateFull)
    → FailsWith version_not_found (if b then match_applications spec update else ok [])
apps-FailsWith true spec update = match_applications-FailsWith spec update
apps-FailsWith false spec update = tt

-- `Resolve` fails only with errors that wrap ErrVersionNotFound.
pub resolve-FailsWith :
    (spec : Spec) (index : Index) → FailsWith version_not_found (resolve spec index)
unfolding resolve
resolve-FailsWith spec index =
    >>=-FailsWith version_not_found (select_update index (channel_of spec) spec.release) _
      (select_update-FailsWith index (channel_of spec) spec.release)
      λ update selected.
        >>=-FailsWith version_not_found (image_file_type spec.image_type) _
          (image_file_type-FailsWith spec.image_type)
          λ t typed.
            >>=-FailsWith version_not_found
              (single_image spec t update (matching_files update.files spec.architecture t)) _
              (single_image-FailsWith spec t update _)
              λ image single.
                >>=-FailsWith version_not_found
                  (if spec.offline then match_applications spec update else ok []) _
                  (apps-FailsWith spec.offline spec update) (λ apps matched. tt)
