-- ===== src/Config/Parsed.antt =====
-- What `Parse` of internal/config/load.go returns, and which failures it tells apart.
use incusos_builder.Base.{
  ◌≡◌, refl, ap, sym, ◌↔◌, ◌⊎◌, inl, inr, true, false, some, List, Bool-cases,
}
use incusos_builder.Base.Int.{pos}
use incusos_builder.Base.Text.{Text, mem}
use incusos_builder.Errdefs.{ok, ok_elim}
use incusos_builder.Build.Spec.{Spec}
use incusos_builder.Config.Schema.{Document, spec_of}
use incusos_builder.Config.Defaults.{apply_defaults}
use incusos_builder.Config.Validate.{check_version, validate}
use incusos_builder.Config.Valid.{IsAccepted, validate_iff, check_version_iff}
use incusos_builder.Config.Load.{
  Decoders, sops_key, LoadFailure, has_top_level_sops, decrypted, plaintext_of, decoded, parse,
}

pub Sum-cases {ℓ κ} :
    {A : Type ℓ} {B : Type κ} (s : A ⊎ B) → ((a : A) × (s ≡ inl a)) ⊎ ((b : B) × (s ≡ inr b))
Sum-cases (inl a) = inl (a, refl)
Sum-cases (inr b) = inr (b, refl)

module _ (D : Decoders) where
  -- The text that is decoded as a document: the input, or what it decrypts to if it has a `sops` key.
  pub data IsPlaintext (raw plaintext : Text) : Type 0 where
    plain :
        (keys : List Text)
        → D.load_keys raw ≡ inl keys
        → mem sops_key keys ≡ false
        → raw ≡ plaintext
        → IsPlaintext raw plaintext
    encrypted :
        (keys : List Text)
        → D.load_keys raw ≡ inl keys
        → mem sops_key keys ≡ true
        → D.decrypt_data raw ≡ inl plaintext
        → IsPlaintext raw plaintext

  -- How a specification comes from the input.
  pub record Parses (raw : Text) (spec : Spec) : Type 0 where
    pub plaintext : Text
    pub document : Document
    pub readable : IsPlaintext raw plaintext
    pub decodes : D.load_document plaintext ≡ inl document
    pub current : document.version ≡ some (pos 1)
    pub accepted : IsAccepted (apply_defaults document)
    pub converted : spec ≡ spec_of (apply_defaults document)

  encrypted_iff :
      (raw plaintext : Text) (keys : List Text)
      → D.load_keys raw ≡ inl keys
      → mem sops_key keys ≡ true
      → decrypted D (D.decrypt_data raw) ≡ ok plaintext
      → IsPlaintext raw plaintext
  unfolding decrypted
  encrypted_iff raw plaintext keys k m h = elim (Sum-cases (D.decrypt_data raw)) [
    | inl (p, e) ↦ encrypted keys k m (cc (e, rw (e, decrypted) at h))
    | inr (b, e) ↦ cc (rw (e, decrypted) at h)
  ]

  pub readable-IsPlaintext :
      (raw plaintext : Text)
      → plaintext_of D raw (has_top_level_sops D raw) ≡ ok plaintext
      → IsPlaintext raw plaintext
  unfolding plaintext_of has_top_level_sops
  readable-IsPlaintext raw plaintext h = elim (Sum-cases (D.load_keys raw)) [
    | inr (b, e) ↦ cc (rw (e, has_top_level_sops, plaintext_of) at h)
    | inl (keys, e) ↦ elim (Bool-cases (mem sops_key keys)) [
      | inl m ↦
          encrypted_iff raw plaintext keys e m (rw (e, has_top_level_sops, plaintext_of, m) at h)
      | inr m ↦ plain keys e m (cc (rw (e, has_top_level_sops, plaintext_of, m) at h))
    ]
  ]

  IsPlaintext-readable :
      (raw plaintext : Text)
      → IsPlaintext raw plaintext
      → plaintext_of D raw (has_top_level_sops D raw) ≡ ok plaintext
  unfolding plaintext_of has_top_level_sops decrypted
  IsPlaintext-readable raw plaintext (plain keys k m r) =
      rw (k, has_top_level_sops) (rw (m, plaintext_of) (ap (λ t. ok t) r))
  IsPlaintext-readable raw plaintext (encrypted keys k m d) =
      rw (k, has_top_level_sops) (rw (m, plaintext_of) (rw (d, decrypted) refl))

  decoded_sound : (r : Document ⊎ LoadFailure) (doc : Document) → decoded D r ≡ ok doc → r ≡ inl doc
  unfolding decoded
  decoded_sound (inl d) doc h = cc
  decoded_sound (inr f) doc h = cc

  parse_sound : (raw : Text) (spec : Spec) → parse D raw ≡ ok spec → Parses raw spec
  unfolding parse
  parse_sound raw spec h =
      ok_elim (plaintext_of D raw (has_top_level_sops D raw)) _ h λ plaintext readable h₁.
        ok_elim (decoded D (D.load_document plaintext)) _ h₁ λ doc decodes h₂.
          ok_elim (check_version doc.version) _ h₂ λ u current h₃.
            ok_elim (validate (apply_defaults doc)) _ h₃ λ v accepted h₄. record {
              plaintext = plaintext;
              document = doc;
              readable = readable-IsPlaintext raw plaintext readable;
              decodes = decoded_sound (D.load_document plaintext) doc decodes;
              current = (check_version_iff doc.version).0 current;
              accepted = (validate_iff (apply_defaults doc)).0 accepted;
              converted = cc h₄;
            }

  parse_complete : (raw : Text) (spec : Spec) → Parses raw spec → parse D raw ≡ ok spec
  unfolding parse decoded
  parse_complete raw spec p = rw (IsPlaintext-readable raw p.plaintext p.readable) (
      rw (p.decodes) (
        rw ((check_version_iff (p.document).version).1 p.current) (
          rw ((validate_iff (apply_defaults p.document)).1 p.accepted)
            (ap (λ s. ok s) (sym p.converted)))))

  -- `Parse` gives a specification exactly when the input is readable, decodes as a version 1 document,
  -- and the document with its defaults is accepted; the specification is that document's.
  pub parse-Parses : (raw : Text) (spec : Spec) → (parse D raw ≡ ok spec) ↔ Parses raw spec
  parse-Parses raw spec = (parse_sound raw spec, parse_complete raw spec)
