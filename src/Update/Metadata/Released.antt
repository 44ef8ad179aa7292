-- ===== src/Update/Metadata/Released.antt =====
-- `HTTPSSource.ReleaseMetadata` of internal/update/metadata.go as a whole.
use incusos_builder.Base.{
  ℕ, ◌+◌, ◌<◌, ◌≡◌, refl, sym, true, Option, none, some, List, inl, inr, Bool-cases,
}
use mathlib.Core.Path.{subst}
use incusos_builder.Base.Text.{Text}
use incusos_builder.Errdefs.{Result, Result-cases, ok, err, is, fetch, FailsWith, is-errorf}
use incusos_builder.Images.{UpdateFile}
use incusos_builder.Io.{Reader, IsReader}
use incusos_builder.Update.Validate.{validate_version, valid_ident}
use incusos_builder.Update.Fetch.{Client}
use incusos_builder.Update.Documents.{Json, Link, get_capped}
use incusos_builder.Update.Documents.Capped.{Done}
use incusos_builder.Update.Documents.Gets.{Downloads, IsDocument, get_capped-Downloads}
use incusos_builder.Build.Ports.{ReleaseMetadata}
use incusos_builder.Update.Metadata.Bound.{IsBound, checked_metadata_sound}
use incusos_builder.Update.Metadata.Failures.{checked_metadata-FailsWith}
use incusos_builder.Update.Metadata.{
  UpdateDocument, Mime, checked_metadata, load_signed, load_both, load_release_metadata,
  release_metadata, update_json_name, update_sjson_name, metadata_cap,
}

module _ (json : Json UpdateDocument) (M : Mime) (R : Reader) (room : ℕ → ℕ) (C : Client R)
    (sha256 : List ℕ → Text) (content : R.State → List ℕ) (reads : IsReader R content)
    (version : Text) (selected : List UpdateFile) where
  abbrev Linked : Type 0
  Linked = Link R room C sha256

  -- What was read under a name, from some state of the client.
  abbrev Fetched : Text → List ℕ → Type 0
  Fetched name bytes =
      (c : C.State) × IsDocument R room C sha256 version name content reads metadata_cap c bytes

  -- Both documents as the server sent them, bound to the version and to the selected files; or an error
  -- that wraps `fetch`.
  abbrev pub IsReleased : Result (ReleaseMetadata R) → Type 0
  IsReleased (err e) = is e fetch ≡ true
  IsReleased (ok meta) =
      IsBound json M version selected meta.update_json meta.update_sjson
      × Fetched update_json_name meta.update_json
      × Fetched update_sjson_name meta.update_sjson

  -- The two documents that were read.
  checked-IsReleased :
      (plain sjson : List ℕ) (r : Result (ReleaseMetadata R))
      → checked_metadata json M R version selected plain sjson ≡ r
      → Fetched update_json_name plain
      → Fetched update_sjson_name sjson
      → IsReleased r
  checked-IsReleased plain sjson (err e) h p q =
      subst (λ r. FailsWith fetch r) h
        (checked_metadata-FailsWith json M R version selected plain sjson)
  checked-IsReleased plain sjson (ok meta) h p q =
      let (bound, first, second) =
        checked_metadata_sound json M R version selected plain sjson meta h in
      (
        subst (λ b. IsBound json M version selected b meta.update_sjson) (sym first)
            (subst (λ b. IsBound json M version selected plain b) (sym second) bound),
        subst (λ b. Fetched update_json_name b) (sym first) p,
        subst (λ b. Fetched update_sjson_name b) (sym second) q,
      )

  -- What `getCapped` returned for a name.
  abbrev IsAnswer : Text → Result (List ℕ) × Linked → Type 0
  IsAnswer name (err e, l) = is e fetch ≡ true
  IsAnswer name (ok bytes, l) = Fetched name bytes

  Downloads-IsAnswer :
      (name : Text) (c : C.State) (q : Option (Result (List ℕ) × Linked))
      → Done
          (λ (a : Result (List ℕ) × Linked).
            Downloads R room C sha256 version name content reads metadata_cap c (a.0))
          q
      → Done (IsAnswer name) q
  Downloads-IsAnswer name c none h = h
  Downloads-IsAnswer name c (some (err e, l)) h = h
  Downloads-IsAnswer name c (some (ok bytes, l)) h = (c, h)

  module _ (fuel : ℕ) (enough : metadata_cap + 1 < fuel) where
    abbrev get : Text → Linked → Option (Result (List ℕ) × Linked)
    get name l = get_capped R room C sha256 fuel version name metadata_cap l

    abbrev Releases : Option (Result (ReleaseMetadata R) × Linked) → Type 0
    Releases = Done (λ (a : Result (ReleaseMetadata R) × Linked). IsReleased (a.0))

    get-IsAnswer : (name : Text) (l : Linked) → Done (IsAnswer name) (get name l)
    get-IsAnswer name l =
        Downloads-IsAnswer name l.client (get name l) (
          get_capped-Downloads R room C sha256 version name content reads fuel metadata_cap l
            enough)

    load_signed-Releases :
        (plain : List ℕ) (q : Option (Result (List ℕ) × Linked))
        → Fetched update_json_name plain
        → Done (IsAnswer update_sjson_name) q
        → Releases (load_signed json M R Linked get version selected plain q)
    unfolding load_signed
    load_signed-Releases plain none p h = h
    load_signed-Releases plain (some (err e, l)) p h = h
    load_signed-Releases plain (some (ok sjson, l)) p h = checked-IsReleased plain sjson _ refl p h

    load_both-Releases :
        (q : Option (Result (List ℕ) × Linked))
        → Done (IsAnswer update_json_name) q
        → Releases (load_both json M R Linked get version selected q)
    unfolding load_both
    load_both-Releases none h = h
    load_both-Releases (some (err e, l)) h = h
    load_both-Releases (some (ok plain, l)) h =
        load_signed-Releases plain (get update_sjson_name l) h (get-IsAnswer update_sjson_name l)

    validate_version-FailsWith : FailsWith fetch (validate_version version)
    unfolding validate_version
    validate_version-FailsWith = elim (Bool-cases (valid_ident version)) [
      | inl e ↦ rw e tt
      | inr e ↦ rw e (is-errorf fetch _)
    ]

    -- With more fuel than a document's cap has bytes, and one, `ReleaseMetadata` ends. What it returns
    -- are the bytes of update.json and update.sjson as good responses of the server carried them, each
    -- within the cap; update.json is one JSON value of the version, and update.sjson a signed mail
    -- whose clear text is one of the version that lists every selected file by its name and digest.
    -- Its errors wrap `fetch`.
    pub release_metadata-Releases :
        (l : Linked) → Releases (release_metadata json M R room C sha256 fuel version selected l)
    unfolding release_metadata load_release_metadata
    release_metadata-Releases l = elim (Result-cases (validate_version version)) [
      | inl (u, e) ↦
          rw (e, release_metadata)
            (load_both-Releases (get update_json_name l) (get-IsAnswer update_json_name l))
      | inr (x, e) ↦
          rw (e, release_metadata) (subst (λ r. FailsWith fetch r) e validate_version-FailsWith)
    ]
