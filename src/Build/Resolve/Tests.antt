-- ===== src/Build/Resolve/Tests.antt =====
-- An index with three updates, on which the resolution is run.
use incusos_builder.Base.{◌≡◌, refl, ◌↔◌, true, some, [], ◌∷◌, In}
use incusos_builder.Base.Text.{Text, codes, text_eq, text_lt, mem, split}
use incusos_builder.Base.Path.{base, last_element}
use incusos_builder.Errdefs.{ok, err, FailsWith, version_not_found, Wraps}
use incusos_builder.Images.{image_raw, UpdateFull}
use incusos_builder.Build.Resolve.{
  select_loop, insert_sorted, sort, collect_versions, channel_versions, select_update, not_selected,
  matching_files, resolve, image_file_type, single_image, match_applications, match_loop,
  find_app_file,
}
use incusos_builder.Build.Resolve.Best.{first_pinned, InChannel}
use incusos_builder.Build.Resolve.Select.{
  select_update_pinned, select_update-IsHighest, select_update_none, IsHighest,
}
use incusos_builder.Build.Spec.{Spec}
use incusos_builder.Build.Resolve.Files.{IsPlan, resolve-IsPlan}
use incusos_builder.Build.Resolve.Matched.{IsLongest, matching_files-IsLongest}
use incusos_builder.Build.Resolve.Failures.{resolve-FailsWith}
use incusos_builder.Build.Resolve.Versions.{channel_versions_lem, Published, IsStrictlySorted}
use incusos_builder.Build.Samples.{
  raw_file, iso_file, release_at, three_updates, raw_spec, raw_plan,
}

select_update_newest : select_update three_updates (codes "stable") [] ≡ ok (release_at (codes "3"))
unfolding select_update select_loop text_eq text_lt mem
select_update_newest = refl

resolve_raw : resolve raw_spec three_updates ≡ ok raw_plan
unfolding resolve select_update select_loop mem text_eq text_lt image_file_type single_image
    matching_files match_applications match_loop find_app_file base last_element split
resolve_raw = refl

stable_versions : channel_versions three_updates (codes "stable") ≡ codes "2" ∷ codes "3" ∷ []
unfolding channel_versions sort collect_versions mem text_eq insert_sorted text_lt
stable_versions = refl

select_update_pinned_example :
    ((u : UpdateFull)
      → (select_update three_updates (codes "stable") (codes "2") ≡ ok u)
        ↔ (first_pinned (codes "stable") (codes "2") three_updates.updates ≡ some u))
    × FailsWith version_not_found (select_update three_updates (codes "stable") (codes "2"))
select_update_pinned_example =
    select_update_pinned three_updates (codes "stable") (codes "2") (λ e. cc)

select_update-IsHighest_example :
    IsHighest (codes "stable") three_updates.updates (release_at (codes "3"))
select_update-IsHighest_example =
    select_update-IsHighest three_updates (codes "stable") (release_at (codes "3"))
      select_update_newest

nothing_selected :
    select_update three_updates (codes "daily") []
    ≡ err (not_selected three_updates (codes "daily") [])
unfolding select_update select_loop text_eq text_lt mem
nothing_selected = refl

select_update_none_example :
    Wraps version_not_found (not_selected three_updates (codes "daily") [])
    × ((v : UpdateFull) → In v three_updates.updates → InChannel (codes "daily") v → v.version ≡ [])
select_update_none_example =
    select_update_none three_updates (codes "daily") (not_selected three_updates (codes "daily") [])
      nothing_selected

matching_files-IsLongest_example :
    IsLongest
      (raw_file ∷ iso_file ∷ raw_file ∷ [])
      (codes "x86_64")
      image_raw
      (raw_file ∷ raw_file ∷ [])
unfolding matching_files text_eq
matching_files-IsLongest_example =
    matching_files-IsLongest (raw_file ∷ iso_file ∷ raw_file ∷ []) (codes "x86_64") image_raw

resolve-IsPlan_example : (update : UpdateFull) × IsPlan raw_spec three_updates raw_plan update
resolve-IsPlan_example = resolve-IsPlan raw_spec three_updates raw_plan resolve_raw

-- A release that the index does not have.
abbrev absent_spec : Spec
absent_spec = record raw_spec { release = codes "9" }

absent :
    resolve absent_spec three_updates
    ≡ err (not_selected three_updates (codes "stable") (codes "9"))
unfolding resolve select_update select_loop mem text_eq text_lt
absent = refl

resolve-FailsWith_example :
    Wraps version_not_found (not_selected three_updates (codes "stable") (codes "9"))
unfolding resolve select_update select_loop mem text_eq text_lt
resolve-FailsWith_example = resolve-FailsWith absent_spec three_updates

channel_versions_lem_example :
    IsStrictlySorted (channel_versions three_updates (codes "stable"))
    × ((t : Text)
        → (mem t (channel_versions three_updates (codes "stable")) ≡ true)
          ↔ Published (codes "stable") three_updates.updates t)
channel_versions_lem_example = channel_versions_lem three_updates (codes "stable")
