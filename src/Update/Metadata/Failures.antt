-- ===== src/Update/Metadata/Failures.antt =====
-- Every failure of the checks of internal/update/metadata.go wraps `fetch`.
use incusos_builder.Base.{ℕ, Option, none, some, List, [], ◌∷◌, inl, inr, Bool-cases, List-cases}
use incusos_builder.Base.Text.{Text, text_eq}
use incusos_builder.Errdefs.{
  Result, ok, err, fetch, FailsWith, >>-FailsWith, >>=-FailsWith, is-errorf, is-wrap,
}
use incusos_builder.Images.{UpdateFile}
use incusos_builder.Io.{Reader}
use incusos_builder.Config.Message.{fields}
use incusos_builder.Config.Validate.{to_lower}
use incusos_builder.Update.Documents.{Json, decode_json}
use incusos_builder.Update.Documents.Indexed.{single-FailsWith}
use incusos_builder.Update.Metadata.{
  UpdateDocument, Mime, has_file, bind_selected, payload_of, signed_part, parsed, signed_cleartext,
  check_document_version, validate_update_json, validate_update_sjson, checked_metadata,
  update_json_name, update_sjson_name, signed_type,
}

bind_selected-FailsWith :
    (files selected : List UpdateFile) → FailsWith fetch (bind_selected files selected)
unfolding bind_selected
bind_selected-FailsWith files [] = tt
bind_selected-FailsWith files (want ∷ selected) =
    elim (Bool-cases (has_file want.filename want.sha256 files)) [
      | inl e ↦ rw e (bind_selected-FailsWith files selected)
      | inr e ↦ rw e (is-errorf fetch _)
    ]

module _ (json : Json UpdateDocument) (M : Mime) where
  check_document_version-FailsWith :
      (name version : Text) (doc : UpdateDocument)
      → FailsWith fetch (check_document_version json M name version doc)
  unfolding check_document_version
  check_document_version-FailsWith name version doc =
      elim (Bool-cases (text_eq doc.version version)) [
        | inl e ↦ rw e tt
        | inr e ↦ rw e (is-errorf fetch _)
      ]

  parsed-FailsWith : {A : Type 0} (r : Result A) → FailsWith fetch (parsed json M r)
  unfolding parsed
  parsed-FailsWith (ok a) = tt
  parsed-FailsWith (err e) = is-wrap fetch e _

  payload_of-FailsWith : (o : Option (Result (List ℕ))) → FailsWith fetch (payload_of json M o)
  unfolding payload_of
  payload_of-FailsWith none = is-errorf fetch _
  payload_of-FailsWith (some (err e)) = is-wrap fetch e _
  payload_of-FailsWith (some (ok p)) = elim (List-cases (fields p)) [
    | inl e ↦ rw (e, payload_of, FailsWith) (is-errorf fetch _)
    | inr (w, ws, e) ↦ rw (e, payload_of, FailsWith) tt
  ]

  signed_part-FailsWith :
      (body : List ℕ) (media : Text × Text) → FailsWith fetch (signed_part json M body media)
  unfolding signed_part
  signed_part-FailsWith body (media_type, boundary) =
      elim (Bool-cases (text_eq (to_lower media_type) signed_type)) [
        | inr e ↦ rw e (is-errorf fetch _)
        | inl e ↦ rw e (elim (Bool-cases (text_eq boundary [])) [
          | inl f ↦ rw f (is-errorf fetch _)
          | inr f ↦ rw f (payload_of-FailsWith (M.first_part body boundary))
        ])
      ]

  signed_cleartext-FailsWith : (bytes : List ℕ) → FailsWith fetch (signed_cleartext json M bytes)
  unfolding signed_cleartext
  signed_cleartext-FailsWith bytes =
      >>=-FailsWith fetch (parsed json M (M.read_message bytes)) _ (parsed-FailsWith _) λ mail _.
        >>=-FailsWith fetch (parsed json M (M.parse_media_type mail.content_type)) _
          (parsed-FailsWith _) λ media _. signed_part-FailsWith mail.body media

  validate_update_json-FailsWith :
      (bytes version : Text) → FailsWith fetch (validate_update_json json M bytes version)
  unfolding validate_update_json
  validate_update_json-FailsWith bytes version =
      >>=-FailsWith fetch (decode_json json bytes update_json_name) _
        (unfold decode_json in single-FailsWith _ _ _)
        λ doc _. check_document_version-FailsWith update_json_name version doc

  validate_update_sjson-FailsWith :
      (bytes version : Text) (selected : List UpdateFile)
      → FailsWith fetch (validate_update_sjson json M bytes version selected)
  unfolding validate_update_sjson
  validate_update_sjson-FailsWith bytes version selected =
      >>=-FailsWith fetch (signed_cleartext json M bytes) _ (signed_cleartext-FailsWith bytes)
        λ payload _.
          >>=-FailsWith fetch (decode_json json payload update_sjson_name) _
            (unfold decode_json in single-FailsWith _ _ _)
            λ doc _.
              >>-FailsWith fetch (check_document_version json M update_sjson_name version doc)
                (bind_selected doc.files selected)
                (check_document_version-FailsWith update_sjson_name version doc)
                (bind_selected-FailsWith doc.files selected)

  pub checked_metadata-FailsWith :
      (R : Reader) (version : Text) (selected : List UpdateFile) (plain sjson : List ℕ)
      → FailsWith fetch (checked_metadata json M R version selected plain sjson)
  unfolding checked_metadata
  checked_metadata-FailsWith R version selected plain sjson =
      >>-FailsWith fetch (validate_update_json json M plain version) _
        (validate_update_json-FailsWith plain version)
        (>>-FailsWith fetch (validate_update_sjson json M sjson version selected)
          (ok (record { update_json = plain; update_sjson = sjson }))
          (validate_update_sjson-FailsWith sjson version selected) tt)
