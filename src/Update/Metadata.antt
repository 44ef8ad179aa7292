-- ===== src/Update/Metadata.antt =====
-- internal/update/metadata.go: the release metadata. The JSON decoder and the mail and MIME parsers are
-- parameters, and so is the way to a document in `loadReleaseMetadata`.
pub mod Bound
pub mod Failures
pub mod Released
mod Tests
use incusos_builder.Base.{
  ℕ, Bool, true, false, not, ◌&&◌, ◌||◌, Option, none, some, List, [], ◌∷◌, ◌*◌, ◌^◌, if◌then◌else◌,
}
use incusos_builder.Base.Text.{Text, text_eq, codes}
use incusos_builder.Errdefs.{
  Error, Result, ok, err, fetch, sentinel, errorf, wrap, join, lit, quoted, ◌>>=◌, ◌>>◌, fail_if,
}
use incusos_builder.Images.{UpdateFile}
use incusos_builder.Io.{Reader}
use incusos_builder.Config.Message.{fields}
use incusos_builder.Config.Validate.{to_lower}
use incusos_builder.Update.Validate.{validate_version}
use incusos_builder.Update.Fetch.{Client}
use incusos_builder.Update.Documents.{Json, decode_json, Link, get_capped}
use incusos_builder.Build.Ports.{ReleaseMetadata}

abbrev pub update_json_name : Text
update_json_name = codes "update.json"

abbrev pub update_sjson_name : Text
update_sjson_name = codes "update.sjson"

abbrev pub signed_type : Text
signed_type = codes "multipart/signed"

abbrev pub metadata_cap : ℕ
metadata_cap = 2 ^ 20

-- `apiimages.Update`, with the fields that are read.
pub record UpdateDocument : Type 0 where
  pub version : Text
  pub files : List UpdateFile

-- The header `Content-Type` and the body of a mail.
pub record Mail : Type 0 where
  pub content_type : Text
  pub body : List ℕ

-- `mail.ReadMessage`; `mime.ParseMediaType`, which gives the media type, an ASCII token, and the
-- parameter `boundary`, empty if it is missing; and the first part of a multipart body, if there is
-- one, as far as it can be read.
pub record Mime : Type 0 where
  pub read_message : List ℕ → Result Mail
  pub parse_media_type : Text → Result (Text × Text)
  pub first_part : List ℕ → Text → Option (Result (List ℕ))

-- Whether a pair of name and digest is in the set that `bindSelected` builds.
unfoldable pub has_file : Text → Text → List UpdateFile → Bool
has_file name digest [] = false
has_file name digest (f ∷ fs) =
    (text_eq f.filename name && text_eq f.sha256 digest) || has_file name digest fs

-- `bindSelected`.
unfoldable pub bind_selected : List UpdateFile → List UpdateFile → Result (Unit {0})
bind_selected files [] = ok tt
bind_selected files (want ∷ selected) =
    let rest = bind_selected files selected in
    if not (has_file want.filename want.sha256 files)
    then err (
        errorf fetch (
          lit "update.sjson missing selected file "
          ∷ quoted want.filename
          ∷ lit " sha256 "
          ∷ quoted want.sha256
          ∷ []))
    else rest

module _ (json : Json UpdateDocument) (M : Mime) where
  -- The payload of the first part, which may not be blank.
  unfoldable pub payload_of : Option (Result (List ℕ)) → Result (List ℕ)
  payload_of none = err (errorf fetch (lit "update.sjson has no MIME parts" ∷ []))
  payload_of (some (err e)) =
      err (wrap (join (sentinel fetch) e) (lit "read update.sjson payload" ∷ []))
  payload_of (some (ok payload)) = elim (fields payload) [
    | [] ↦ err (errorf fetch (lit "update.sjson payload is empty" ∷ []))
    | word ∷ words ↦ ok payload
  ]

  -- The payload of a body of the media type.
  unfoldable pub signed_part : List ℕ → Text × Text → Result (List ℕ)
  signed_part body (media_type, boundary) = do
    fail_if (not (text_eq (to_lower media_type) signed_type))
        (errorf fetch (lit "update.sjson is not multipart/signed" ∷ []))
    fail_if (text_eq boundary []) (errorf fetch (lit "update.sjson missing MIME boundary" ∷ []))
    payload_of (M.first_part body boundary)

  -- An error of a parser, within one of `fetch`.
  unfoldable pub parsed : {A : Type 0} → Result A → Result A
  parsed (ok a) = ok a
  parsed (err e) = err (wrap (join (sentinel fetch) e) (lit "parse update.sjson" ∷ []))

  -- `signedCleartext`.
  unfoldable pub signed_cleartext : List ℕ → Result (List ℕ)
  signed_cleartext bytes = do
    mail ← parsed (M.read_message bytes)
    media ← parsed (M.parse_media_type mail.content_type)
    signed_part mail.body media

  unfoldable pub check_document_version : Text → Text → UpdateDocument → Result (Unit {0})
  check_document_version name version doc =
      fail_if (not (text_eq doc.version version))
        (errorf fetch (quoted name ∷ lit " version " ∷ quoted doc.version ∷ []))

  -- `validateUpdateJSON`.
  unfoldable pub validate_update_json : List ℕ → Text → Result (Unit {0})
  validate_update_json bytes version = do
    doc ← decode_json json bytes update_json_name
    check_document_version update_json_name version doc

  -- `validateUpdateSJSON`.
  unfoldable pub validate_update_sjson : List ℕ → Text → List UpdateFile → Result (Unit {0})
  validate_update_sjson bytes version selected = do
    payload ← signed_cleartext bytes
    doc ← decode_json json payload update_sjson_name
    check_document_version update_sjson_name version doc
    bind_selected doc.files selected

  module _ (R : Reader) where
    -- The checks of `loadReleaseMetadata` on the two documents.
    unfoldable pub checked_metadata :
        Text → List UpdateFile → List ℕ → List ℕ → Result (ReleaseMetadata R)
    checked_metadata version selected plain sjson = do
      validate_update_json plain version
      validate_update_sjson sjson version selected
      ok (record { update_json = plain; update_sjson = sjson })

    module _ (S : Type 0) (get : Text → S → Option (Result (List ℕ) × S)) where
      unfoldable pub load_signed :
          Text
          → List UpdateFile
          → List ℕ
          → Option (Result (List ℕ) × S)
          → Option (Result (ReleaseMetadata R) × S)
      load_signed version selected plain none = none
      load_signed version selected plain (some (err e, s)) = some (err e, s)
      load_signed version selected plain (some (ok sjson, s)) =
          some (checked_metadata version selected plain sjson, s)

      unfoldable pub load_both :
          Text
          → List UpdateFile
          → Option (Result (List ℕ) × S)
          → Option (Result (ReleaseMetadata R) × S)
      load_both version selected none = none
      load_both version selected (some (err e, s)) = some (err e, s)
      load_both version selected (some (ok plain, s)) =
          load_signed version selected plain (get update_sjson_name s)

      -- `loadReleaseMetadata`.
      unfoldable pub load_release_metadata :
          Text → List UpdateFile → S → Option (Result (ReleaseMetadata R) × S)
      load_release_metadata version selected s = load_both version selected (get update_json_name s)

    -- `HTTPSSource.ReleaseMetadata`, without its reports.
    unfoldable pub release_metadata :
        (room : ℕ → ℕ) (C : Client R) (sha256 : List ℕ → Text)
        → ℕ
        → Text
        → List UpdateFile
        → Link R room C sha256
        → Option (Result (ReleaseMetadata R) × Link R room C sha256)
    release_metadata room C sha256 fuel version selected l = elim (validate_version version) [
      | err e ↦ some (err e, l)
      | ok u ↦
          load_release_metadata (Link R room C sha256)
            (λ name l'. get_capped R room C sha256 fuel version name metadata_cap l') version
            selected l
    ]
