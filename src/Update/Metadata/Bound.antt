-- ===== src/Update/Metadata/Bound.antt =====
-- What the release metadata of internal/update/metadata.go is bound to.
use incusos_builder.Base.{
  ℕ, ◌≡◌, refl, ap, ◌≢◌, true, ◌&&◌, Option, none, some, List, [], ◌∷◌, In, All, inl, inr, arith,
  Bool-cases, List-cases,
}
use incusos_builder.Base.Text.{Text, text_eq, text_eq_iff}
use incusos_builder.Errdefs.{Result, ok, err, ok_elim}
use incusos_builder.Images.{UpdateFile}
use incusos_builder.Io.{Reader}
use incusos_builder.Config.Message.{fields}
use incusos_builder.Config.Validate.{to_lower}
use incusos_builder.Update.Documents.{Json, at_end, decode_json}
use incusos_builder.Update.Documents.Indexed.{single_sound}
use incusos_builder.Build.Ports.{ReleaseMetadata}
use incusos_builder.Update.Metadata.{
  UpdateDocument, Mail, Mime, has_file, bind_selected, payload_of, signed_part, parsed,
  signed_cleartext, check_document_version, validate_update_json, validate_update_sjson,
  checked_metadata, update_json_name, update_sjson_name, signed_type,
}

-- A file of the list has the name and the digest.
abbrev pub HasFile : List UpdateFile → UpdateFile → Type 0
HasFile files want =
    (f : UpdateFile) × In f files × (f.filename ≡ want.filename) × (f.sha256 ≡ want.sha256)

has_file_sound :
    (want : UpdateFile) (files : List UpdateFile)
    → has_file want.filename want.sha256 files ≡ true
    → HasFile files want
unfolding has_file
has_file_sound want [] h = cc
has_file_sound want (f ∷ fs) h =
    elim (Bool-cases (text_eq f.filename want.filename && text_eq f.sha256 want.sha256)) [
      | inl e ↦ (
        f,
        inl refl,
        ground (arith, text_eq_iff f.filename want.filename),
        ground (arith, text_eq_iff f.sha256 want.sha256),
      )
      | inr e ↦
          let (g, m, name, digest) = has_file_sound want fs (rw e at h) in (g, inr m, name, digest)
    ]

bind_selected_sound :
    (files selected : List UpdateFile)
    → bind_selected files selected ≡ ok tt
    → All (HasFile files) selected
unfolding bind_selected
bind_selected_sound files [] h = tt
bind_selected_sound files (want ∷ selected) h =
    elim (Bool-cases (has_file want.filename want.sha256 files)) [
      | inl e ↦ (has_file_sound want files e, bind_selected_sound files selected (rw e at h))
      | inr e ↦ cc (rw e at h)
    ]

-- A JSON document of one value.
abbrev pub IsJson : Json UpdateDocument → List ℕ → UpdateDocument → Type 0
IsJson json bytes doc = (json.first bytes ≡ ok doc) × (json.behind bytes ≡ at_end)

decode_json_sound :
    (json : Json UpdateDocument) (bytes : List ℕ) (name : Text) (doc : UpdateDocument)
    → decode_json json bytes name ≡ ok doc
    → IsJson json bytes doc
unfolding decode_json
decode_json_sound json bytes name doc h = single_sound name _ _ doc h

check_document_version_sound :
    (json : Json UpdateDocument) (M : Mime) (name version : Text) (doc : UpdateDocument)
    → check_document_version json M name version doc ≡ ok tt
    → doc.version ≡ version
unfolding check_document_version
check_document_version_sound json M name version doc h =
    elim (Bool-cases (text_eq doc.version version)) [
      | inl e ↦ (text_eq_iff doc.version version).0 e
      | inr e ↦ cc (rw e at h)
    ]

module _ (json : Json UpdateDocument) (M : Mime) where
  -- The clear text of a signed mail: its media type is multipart/signed, in any case of the letters,
  -- with a boundary, and the first part is not blank.
  pub record IsSigned (bytes payload : List ℕ) : Type 0 where
    pub mail : Mail
    pub message : M.read_message bytes ≡ ok mail
    pub media_type : Text
    pub boundary : Text
    pub media : M.parse_media_type mail.content_type ≡ ok (media_type, boundary)
    pub signed : to_lower media_type ≡ signed_type
    pub bounded : boundary ≢ []
    pub first : M.first_part mail.body boundary ≡ some (ok payload)
    pub words : fields payload ≢ []

  parsed_sound : {A : Type 0} (r : Result A) (a : A) → parsed json M r ≡ ok a → r ≡ ok a
  unfolding parsed
  parsed_sound (ok b) a h = h
  parsed_sound (err e) a h = cc

  payload_of_sound :
      (o : Option (Result (List ℕ))) (payload : List ℕ)
      → payload_of json M o ≡ ok payload
      → (o ≡ some (ok payload)) × (fields payload ≢ [])
  unfolding payload_of
  payload_of_sound none payload h = cc
  payload_of_sound (some (err e)) payload h = cc
  payload_of_sound (some (ok p)) payload h = elim (List-cases (fields p)) [
    | inl e ↦ cc (rw (e, payload_of) at h)
    | inr (w, ws, e) ↦
        let same : p ≡ payload = cc (rw (e, payload_of) at h) in
        (ap (λ t. some (ok t)) same, λ empty. cc (e, ap fields same, empty))
  ]

  signed_part_sound :
      (body payload : List ℕ) (media_type boundary : Text)
      → signed_part json M body (media_type, boundary) ≡ ok payload
      → (to_lower media_type ≡ signed_type)
        × (boundary ≢ [])
        × (M.first_part body boundary ≡ some (ok payload))
        × (fields payload ≢ [])
  unfolding signed_part
  signed_part_sound body payload media_type boundary h =
      elim (Bool-cases (text_eq (to_lower media_type) signed_type)) [
        | inr e ↦ cc (rw e at h)
        | inl e ↦ elim (Bool-cases (text_eq boundary [])) [
          | inl f ↦ cc (rw (e, f) at h)
          | inr f ↦
              let (part, words) =
                payload_of_sound (M.first_part body boundary) payload (rw (e, f) at h) in
              (
                (text_eq_iff (to_lower media_type) signed_type).0 e,
                (λ empty. cc (f, (text_eq_iff boundary []).1 empty)),
                part,
                words,
              )
        ]
      ]

  signed_cleartext_sound :
      (bytes payload : List ℕ) → signed_cleartext json M bytes ≡ ok payload → IsSigned bytes payload
  unfolding signed_cleartext
  signed_cleartext_sound bytes payload h =
      ok_elim (parsed json M (M.read_message bytes)) _ h λ mail message rest.
        ok_elim (parsed json M (M.parse_media_type mail.content_type)) _ rest λ media typed last.
          let (signed, bounded, first, words) =
            signed_part_sound mail.body payload (media.0) (media.1) last in
          record {
            mail = mail;
            message = parsed_sound (M.read_message bytes) mail message;
            media_type = media.0;
            boundary = media.1;
            media = parsed_sound (M.parse_media_type mail.content_type) media typed;
            signed = signed;
            bounded = bounded;
            first = first;
            words = words;
          }

  -- What binds the documents of a release: `plain` holds one JSON value of the version, and the clear text
  -- of `signed_mail` one of the version that lists every selected file with its digest.
  pub record IsBound (version : Text) (selected : List UpdateFile) (plain signed_mail : List ℕ)
      : Type 0 where
    pub document : UpdateDocument
    pub decodes : IsJson json plain document
    pub of_version : document.version ≡ version
    pub payload : List ℕ
    pub cleartext : IsSigned signed_mail payload
    pub signed_document : UpdateDocument
    pub signed_decodes : IsJson json payload signed_document
    pub signed_version : signed_document.version ≡ version
    pub lists : All (HasFile signed_document.files) selected

  pub checked_metadata_sound :
      (R : Reader) (version : Text) (selected : List UpdateFile) (plain sjson : List ℕ)
      (meta : ReleaseMetadata R)
      → checked_metadata json M R version selected plain sjson ≡ ok meta
      → IsBound version selected plain sjson
        × (meta.update_json ≡ plain)
        × (meta.update_sjson ≡ sjson)
  unfolding checked_metadata validate_update_json validate_update_sjson
  checked_metadata_sound R version selected plain sjson meta h =
      ok_elim (validate_update_json json M plain version) _ h λ u first rest.
        ok_elim (decode_json json plain update_json_name) _ first λ doc decodes checked.
          ok_elim (validate_update_sjson json M sjson version selected) _ rest λ v second last.
            ok_elim (signed_cleartext json M sjson) _ second λ payload cleartext more.
              ok_elim (decode_json json payload update_sjson_name) _ more
                λ signed signed_decodes tail.
                  ok_elim (check_document_version json M update_sjson_name version signed) _ tail
                    λ w versioned bound.
                      let whole : ReleaseMetadata R = record {
                        update_json = plain;
                        update_sjson = sjson;
                      } in
                      let same : meta ≡ whole = cc last in
                      (
                        record {
                          document = doc;
                          decodes = decode_json_sound json plain update_json_name doc decodes;
                          of_version = check_document_version_sound json M _ version doc checked;
                          payload = payload;
                          cleartext = signed_cleartext_sound sjson payload cleartext;
                          signed_document = signed;
                          signed_decodes =
                              decode_json_sound json payload update_sjson_name signed
                                signed_decodes;
                          signed_version =
                              check_document_version_sound json M _ version signed versioned;
                          lists = bind_selected_sound signed.files selected bound;
                        },
                        ap (λ (r : ReleaseMetadata R). r.update_json) same,
                        ap (λ (r : ReleaseMetadata R). r.update_sjson) same,
                      )
