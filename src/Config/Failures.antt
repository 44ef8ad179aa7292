-- ===== src/Config/Failures.antt =====
-- How `Parse` fails: which inputs give a decryption error, and which a configuration error.
use incusos_builder.Base.{◌≡◌, refl, ap, ◌∙◌, ◌⊎◌, inl, inr, true, false, List, [], ◌∷◌, Bool-cases}
use incusos_builder.Base.Text.{Text, mem}
use incusos_builder.Errdefs.{
  Error, Result, Result-cases, ok, err, errorf, config, decrypt, is, Sentinel-discrete, Message,
  str, ◌>>=◌, ◌>>◌,
}
use incusos_builder.Build.Spec.{Spec}
use incusos_builder.Config.Schema.{Document, spec_of}
use incusos_builder.Config.Defaults.{apply_defaults}
use incusos_builder.Config.Validate.{check_version, validate}
use incusos_builder.Config.Valid.{Refuses, >>-Refuses, check_version-Refuses, validate-Refuses}
use incusos_builder.Config.Message.{sanitize_yaml_message}
use incusos_builder.Config.Load.{
  Decoders, sops_key, LoadFailure, load_errors, load_error, other_error, wrap_decode_error,
  has_top_level_sops, decrypted, plaintext_of, decoded, parse,
}
use incusos_builder.Config.Parsed.{IsPlaintext, readable-IsPlaintext, Sum-cases}

is_config : (m : Message) → is (errorf config m) config ≡ true
unfolding is Sentinel-discrete
is_config m = refl

is_not_decrypt : (m : Message) → is (errorf config m) decrypt ≡ false
unfolding is Sentinel-discrete
is_not_decrypt m = refl

is_decrypt : (m : Message) → is (errorf decrypt m) decrypt ≡ true
unfolding is Sentinel-discrete
is_decrypt m = refl

is_not_config : (m : Message) → is (errorf decrypt m) config ≡ false
unfolding is Sentinel-discrete
is_not_config m = refl

>>=-Refuses {ℓ κ} :
    {A : Type ℓ} {B : Type κ} (m : Result A) (f : A → Result B)
    → Refuses m
    → ((a : A) → Refuses (f a))
    → Refuses (m >>= f)
>>=-Refuses (ok a) f hm hf = hf a
>>=-Refuses (err e) f hm hf = hm

module _ (D : Decoders) where
  -- The failures of `Parse` on an input. An input whose `sops` key calls for decryption, which fails,
  -- gives a decryption error; any other gives a configuration error: that the input is no YAML, or
  -- what is wrong with its plain text, decrypted or not. No error is of both kinds.
  pub data ParseFailure (raw : Text) (e : Error) : Type 0 where
    undecryptable :
        (keys : List Text) (message : Text)
        → D.load_keys raw ≡ inl keys
        → mem sops_key keys ≡ true
        → D.decrypt_data raw ≡ inr message
        → is e decrypt ≡ true
        → is e config ≡ false
        → ParseFailure raw e
    unreadable :
        (message : Text)
        → D.load_keys raw ≡ inr message
        → is e config ≡ true
        → is e decrypt ≡ false
        → ParseFailure raw e
    rejected :
        (plaintext : Text)
        → IsPlaintext D raw plaintext
        → is e config ≡ true
        → is e decrypt ≡ false
        → ParseFailure raw e

  -- What comes after the plain text.
  abbrev rest_of : Text → Result Spec
  rest_of plaintext = do
    doc ← decoded D (D.load_document plaintext)
    check_version doc.version
    let filled = apply_defaults doc
    validate filled
    ok (spec_of filled)

  decoded-Refuses : (r : Document ⊎ LoadFailure) → Refuses (decoded D r)
  unfolding decoded wrap_decode_error
  decoded-Refuses (inl d) = tt
  decoded-Refuses (inr (load_errors ms)) = (_, refl)
  decoded-Refuses (inr (load_error m)) = (_, refl)
  decoded-Refuses (inr (other_error m)) = (_, refl)

  rest_of-Refuses : (plaintext : Text) → Refuses (rest_of plaintext)
  rest_of-Refuses plaintext =
      >>=-Refuses (decoded D (D.load_document plaintext)) _ (decoded-Refuses _) λ doc.
        >>-Refuses (check_version doc.version) _ (check_version-Refuses doc.version) (
          >>-Refuses (validate (apply_defaults doc)) (ok (spec_of (apply_defaults doc)))
            (validate-Refuses (apply_defaults doc)) tt)

  -- An error of the rest on a plain text that was read.
  rest-rejected :
      (raw plaintext : Text) (r : Result Spec) (e : Error)
      → IsPlaintext D raw plaintext
      → Refuses r
      → r ≡ err e
      → ParseFailure raw e
  rest-rejected raw plaintext (ok s) e p h f = cc
  rest-rejected raw plaintext (err e') e p (m, h) f =
      let is_errorf : e ≡ errorf config m = cc (h, f) in
      rejected plaintext p (rw is_errorf (is_config m)) (rw is_errorf (is_not_decrypt m))

  decryption :
      (raw : Text) (keys : List Text) (e : Error)
      → D.load_keys raw ≡ inl keys
      → mem sops_key keys ≡ true
      → decrypted D (D.decrypt_data raw) ≡ err e
      → ParseFailure raw e
  unfolding decrypted
  decryption raw keys e k m' h = elim (Sum-cases (D.decrypt_data raw)) [
    | inl (p, f) ↦ cc (rw (f, decrypted) at h)
    | inr (b, f) ↦
        let m : Message = str (sanitize_yaml_message b) ∷ [] in
        let is_errorf : e ≡ errorf decrypt m = cc (f, rw (f, decrypted) at h) in
        undecryptable keys b k m' f (rw is_errorf (is_decrypt m)) (rw is_errorf (is_not_config m))
  ]

  not_readable :
      (raw : Text) (e : Error)
      → plaintext_of D raw (has_top_level_sops D raw) ≡ err e
      → ParseFailure raw e
  unfolding plaintext_of has_top_level_sops
  not_readable raw e h = elim (Sum-cases (D.load_keys raw)) [
    | inr (b, f) ↦
        let m : Message = str (sanitize_yaml_message b) ∷ [] in
        let is_errorf : e ≡ errorf config m = cc (rw (f, has_top_level_sops, plaintext_of) at h) in
        unreadable b f (rw is_errorf (is_config m)) (rw is_errorf (is_not_decrypt m))
    | inl (keys, f) ↦ elim (Bool-cases (mem sops_key keys)) [
      | inl m ↦ decryption raw keys e f m (rw (f, has_top_level_sops, plaintext_of, m) at h)
      | inr m ↦ cc (rw (f, has_top_level_sops, plaintext_of, m) at h)
    ]
  ]

  -- When `Parse` fails, the error is one of decryption exactly if the input has a `sops` key and does
  -- not decrypt; the error of input that is no YAML, or of a plain text that is not accepted, be it
  -- decrypted or not, is one of configuration. No error is of both kinds.
  pub parse-ParseFailure : (raw : Text) (e : Error) → parse D raw ≡ err e → ParseFailure raw e
  unfolding parse
  parse-ParseFailure raw e h = elim (Result-cases (plaintext_of D raw (has_top_level_sops D raw))) [
    | inl (plaintext, f) ↦
        rest-rejected raw plaintext (rest_of plaintext) e (readable-IsPlaintext D raw plaintext f)
          (rest_of-Refuses plaintext) (rw f at h)
    | inr (e', f) ↦ not_readable raw e (f ∙ ap (λ x. err x) (cc (rw f at h)))
  ]
