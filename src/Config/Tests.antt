-- ===== src/Config/Tests.antt =====
-- The configuration on concrete inputs, with decoders that know a few texts.
use incusos_builder.Base.{◌≡◌, refl, none, some, [], ◌∷◌, ◌++◌, ◌↔◌, All, arith, inl}
use incusos_builder.Base.Text.{Text, text_eq, mem, codes}
use incusos_builder.Errdefs.{Error, ok, err, errorf, config, str}
use incusos_builder.Config.Schema.{spec_of}
use incusos_builder.Config.Defaults.{apply_defaults}
use incusos_builder.Config.Message.{
  sanitize_yaml_message, without_literals, written, next_quote, fields, segments, non_empty,
  space_width, is_punctuation_space, format_load_error, load_error_message, parse_unknown_field,
  field_and_type, both_named, cut, cut_prefix, field_path, yaml_path_prefix, prefix_for, has_suffix,
  unknown_field_message,
}
use incusos_builder.Config.Load.{
  parse, wrap_decode_error, plaintext_of, decrypted, decoded, has_top_level_sops,
}
use incusos_builder.Base.Text as Strings
use incusos_builder.Config.Samples.{offline_document, decoders, sealed_parses}
use incusos_builder.Config.Parsed.{Parses, parse-Parses}
use incusos_builder.Config.Buildable.{IsBuildable, parse-IsBuildable}
use incusos_builder.Config.Failures.{ParseFailure, parse-ParseFailure}
use incusos_builder.Config.Redacted.{
  Alike, end, shown, opened, closed, hidden_left, hidden_right, sanitize_yaml_message-Alike,
  IsShown, sanitize_yaml_message-IsShown,
}
use incusos_builder.Config.Fields.{
  diagnostic, parse_unknown_field-diagnostic, parse_unknown_field_sound,
}

parse-Parses_example :
    (parse decoders (codes "sealed") ≡ ok (spec_of (apply_defaults offline_document)))
    ↔ Parses decoders (codes "sealed") (spec_of (apply_defaults offline_document))
parse-Parses_example =
    parse-Parses decoders (codes "sealed") (spec_of (apply_defaults offline_document))

parse-IsBuildable_example : IsBuildable (spec_of (apply_defaults offline_document))
parse-IsBuildable_example =
    parse-IsBuildable decoders (codes "sealed") (spec_of (apply_defaults offline_document))
      sealed_parses

-- The plain text of an encrypted input is refused as a configuration.
abbrev stale_error : Error
stale_error = errorf config (
    str (
      codes "image.colour: unknown to incus-os v0.0.0-20260815030500-0f5b8057f2fc; a newer "
      ++ codes "incusos-builder may accept this")
    ∷ [])

stale_fails : parse decoders (codes "stale") ≡ err stale_error
unfolding parse plaintext_of decrypted decoded has_top_level_sops text_eq mem wrap_decode_error
    format_load_error load_error_message parse_unknown_field field_and_type both_named cut
    cut_prefix field_path yaml_path_prefix prefix_for has_suffix unknown_field_message
    Strings.has_prefix
stale_fails = refl

parse-ParseFailure_example : ParseFailure decoders (codes "stale") stale_error
parse-ParseFailure_example = parse-ParseFailure decoders (codes "stale") stale_error stale_fails

-- What a literal holds, how long it is and what quotes of the other kind stand in it do not matter.
abbrev short_literal : Text
short_literal = b'a' ∷ b'"' ∷ b'x' ∷ b'"' ∷ b'c' ∷ []

abbrev long_literal : Text
long_literal = b'a' ∷ b'"' ∷ b'y' ∷ b'`' ∷ b'"' ∷ b'c' ∷ []

short_long-Alike : Alike none short_literal long_literal
short_long-Alike =
    shown ((λ h. omega (arith, h)), (λ h. omega (arith, h)))
      (opened (inl refl) (
        hidden_left (λ h. omega (arith, h))
          (hidden_right (λ h. omega (arith, h))
            (hidden_right (λ h. omega (arith, h))
              (closed (shown ((λ h. omega (arith, h)), (λ h. omega (arith, h))) end))))))

sanitize_yaml_message-Alike_example :
    sanitize_yaml_message short_literal ≡ sanitize_yaml_message long_literal
sanitize_yaml_message-Alike_example =
    sanitize_yaml_message-Alike short_literal long_literal short_long-Alike

sanitized : sanitize_yaml_message short_literal ≡ codes "a<value>c"
unfolding sanitize_yaml_message without_literals written next_quote fields segments non_empty
    space_width Strings.join text_eq
sanitized = refl

-- A value with a backtick in it, between backticks: what stands behind its own backtick is shown.
abbrev backtick_value : Text
backtick_value =
    codes "cannot unmarshal !!str "
    ++ (b'`' ∷ b'p' ∷ b'`' ∷ codes "wd1")
    ++ (b'`' ∷ codes " into int")

backtick_shown : sanitize_yaml_message backtick_value ≡ codes "cannot unmarshal !!str <value>wd1"
unfolding sanitize_yaml_message without_literals written next_quote fields segments non_empty
    space_width Strings.join text_eq Strings.has_prefix is_punctuation_space
backtick_shown = refl

sanitize_yaml_message-IsShown_example : All IsShown (sanitize_yaml_message long_literal)
sanitize_yaml_message-IsShown_example = sanitize_yaml_message-IsShown long_literal

parse_unknown_field-diagnostic_example :
    parse_unknown_field (diagnostic (codes "colour") (codes "config.image"))
    ≡ some (codes "colour", codes "config.image")
parse_unknown_field-diagnostic_example =
    parse_unknown_field-diagnostic (codes "colour") (codes "config.image") refl (λ h. cc) (λ h. cc)

parse_unknown_field_sound_example :
    diagnostic (codes "colour") (codes "config.image")
    ≡ diagnostic (codes "colour") (codes "config.image")
parse_unknown_field_sound_example =
    parse_unknown_field_sound (diagnostic (codes "colour") (codes "config.image")) (codes "colour")
      (codes "config.image") parse_unknown_field-diagnostic_example
