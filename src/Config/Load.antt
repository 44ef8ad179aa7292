-- ===== src/Config/Load.antt =====
-- `Load` and `Parse` of internal/config/load.go. The YAML and SOPS libraries are parameters, as are
-- standard input and the files that can be read.
use incusos_builder.Base.{Bool, true, false, ◌⊎◌, inl, inr, List, [], ◌∷◌, map, if◌then◌else◌}
use incusos_builder.Base.Text.{Text, text_eq, codes, mem}
use incusos_builder.Base.Text as Strings
use incusos_builder.Errdefs.{
  Error, Result, ok, err, errorf, join, config, decrypt, lit, str, ◌>>=◌, ◌>>◌,
}
use incusos_builder.Build.Spec.{Spec}
use incusos_builder.Config.Schema.{Document, spec_of}
use incusos_builder.Config.Defaults.{apply_defaults}
use incusos_builder.Config.Validate.{check_version, validate}
use incusos_builder.Config.Message.{sanitize_yaml_message, format_load_error}

-- An error of the YAML decoder: a list of errors, one error, or any other, by their messages.
pub data LoadFailure : Type 0 where
  load_errors : List Text → LoadFailure
  load_error : Text → LoadFailure
  other_error : Text → LoadFailure

-- What the code calls: the top-level keys of a YAML mapping, SOPS decryption, and the strict
-- decoding of a document. A failure of the first two is known by its message.
pub record Decoders : Type 0 where
  pub load_keys : Text → List Text ⊎ Text
  pub decrypt_data : Text → Text ⊎ Text
  pub load_document : Text → Document ⊎ LoadFailure

abbrev pub sops_key : Text
sops_key = codes "sops"

abbrev pub stdin_path : Text
stdin_path = b'-' ∷ []

-- `wrapDecodeError`.
unfoldable pub wrap_decode_error : LoadFailure → Error
wrap_decode_error (load_errors messages) =
    errorf config (str (Strings.join (codes "; ") (map format_load_error messages)) ∷ [])
wrap_decode_error (load_error message) = errorf config (str (format_load_error message) ∷ [])
wrap_decode_error (other_error message) = errorf config (str (sanitize_yaml_message message) ∷ [])

module _ (D : Decoders) where
  -- `hasTopLevelSOPS`.
  unfoldable pub has_top_level_sops : Text → Bool ⊎ Text
  has_top_level_sops raw = elim (D.load_keys raw) [
    | inl keys ↦ inl (mem sops_key keys)
    | inr message ↦ inr message
  ]

  unfoldable pub decrypted : Text ⊎ Text → Result Text
  decrypted (inl plaintext) = ok plaintext
  decrypted (inr message) = err (errorf decrypt (str (sanitize_yaml_message message) ∷ []))

  -- The plain text of a document that is encrypted or not.
  unfoldable pub plaintext_of : Text → Bool ⊎ Text → Result Text
  plaintext_of raw (inr message) = err (errorf config (str (sanitize_yaml_message message) ∷ []))
  plaintext_of raw (inl true) = decrypted (D.decrypt_data raw)
  plaintext_of raw (inl false) = ok raw

  unfoldable pub decoded : Document ⊎ LoadFailure → Result Document
  decoded (inl doc) = ok doc
  decoded (inr failure) = err (wrap_decode_error failure)

  -- `Parse`.
  unfoldable pub parse : Text → Result Spec
  parse raw = do
    plaintext ← plaintext_of raw (has_top_level_sops raw)
    doc ← decoded (D.load_document plaintext)
    check_version doc.version
    let filled = apply_defaults doc
    validate filled
    ok (spec_of filled)

  module _ (stdin : Result Text) (read_file : Text → Result Text) where
    -- An error of reading, within the error of the caller.
    unfoldable pub read_as : Error → Result Text → Result Text
    read_as context (ok raw) = ok raw
    read_as context (err e) = err (join context e)

    -- `readConfig`.
    unfoldable pub read_config : Text → Result Text
    read_config path =
        if text_eq path stdin_path
        then read_as (errorf config (lit "read stdin" ∷ [])) stdin
        else read_as (errorf config (lit "read config" ∷ [])) (read_file path)

    -- `load`.
    unfoldable pub load : Text → Result Spec
    load path = do raw ← read_config path; parse raw
