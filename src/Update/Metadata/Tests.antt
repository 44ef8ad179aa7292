-- ===== src/Update/Metadata/Tests.antt =====
-- The release metadata from a server whose first reply is an error.
use incusos_builder.Base.{◌+◌, ◌≡◌, refl, none, some, Option, [], ◌∷◌, arith}
use incusos_builder.Base.Text.{text_eq, codes}
use incusos_builder.Errdefs.{equals, Result, ok, is, Sentinel-discrete}
use incusos_builder.Build.Ports.{ReleaseMetadata}
use incusos_builder.Build.Samples.{two_bytes, remaining, two_bytes-IsReader}
use incusos_builder.Config.Message.{fields, segments, non_empty, space_width}
use incusos_builder.Config.Validate.{to_lower}
use incusos_builder.Update.Validate.{validate_version, valid_ident}
use incusos_builder.Update.Fetch.{get_once, check_response}
use incusos_builder.Update.Documents.{
  read_all, within_cap, read_capped, Link, after_attempt, after_sleep, get_loop, do_get, get_capped,
  decode_json, single,
}
use incusos_builder.Update.Documents.Capped.{Done}
use incusos_builder.Update.Metadata.{
  has_file, bind_selected, payload_of, signed_part, parsed, signed_cleartext,
  check_document_version, validate_update_json, validate_update_sjson, checked_metadata,
  load_signed, load_both, load_release_metadata, release_metadata, metadata_cap,
}
use incusos_builder.Update.Metadata.Released.{IsReleased, release_metadata-Releases}
use incusos_builder.Update.Samples.{server, room, digest, link, update_json, mime, listed}

abbrev result_of {ℓ} :
    {A : Type ℓ}
    → Option (Result (ReleaseMetadata two_bytes) × A)
    → Option (Result (ReleaseMetadata two_bytes))
result_of none = none
result_of (some (r, l)) = some r

bound :
    result_of (
      release_metadata update_json mime two_bytes room server digest 9
        (codes "1")
        (listed ∷ [])
        (link (503 ∷ [])))
    ≡ some (ok (record { update_json = 7 ∷ 8 ∷ []; update_sjson = 9 ∷ 7 ∷ 8 ∷ [] }))
unfolding release_metadata validate_version valid_ident load_release_metadata load_both load_signed
    checked_metadata validate_update_json validate_update_sjson check_document_version
    signed_cleartext parsed signed_part payload_of bind_selected has_file decode_json single
    get_capped do_get get_loop after_sleep after_attempt get_once check_response read_capped
    read_all within_cap text_eq to_lower fields segments non_empty space_width is equals
    Sentinel-discrete
bound = refl

release_metadata-Releases_example :
    Done
      (λ (a : Result (ReleaseMetadata two_bytes) × Link two_bytes room server digest).
        IsReleased update_json mime two_bytes room server digest remaining two_bytes-IsReader
          (codes "1")
          (listed ∷ [])
          (a.0))
      (release_metadata update_json mime two_bytes room server digest
        (metadata_cap + 2)
        (codes "1")
        (listed ∷ [])
        (link (503 ∷ [])))
release_metadata-Releases_example =
    release_metadata-Releases update_json mime two_bytes room server digest remaining
      two_bytes-IsReader (codes "1") (listed ∷ []) (metadata_cap + 2) (omega arith)
      (link (503 ∷ []))
