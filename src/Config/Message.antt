-- ===== src/Config/Message.antt =====
-- The messages of internal/config/load.go: literals are taken out of the diagnostics of the YAML and
-- SOPS libraries, and the diagnostics on unknown fields are turned into field paths.
use incusos_builder.Base.{
  ℕ, zero, suc, ◌-◌, Bool, false, ◌||◌, ◌&&◌, Option, none, some, List, [], ◌∷◌, ◌++◌, leb, ◌==◌,
  if◌then◌else◌, length, drop,
}
use incusos_builder.Base.Text.{Text, text_eq, codes, has_prefix, join, push_head}

-- U+2000 to U+200A, U+2028, U+2029 and U+202F, without their first byte.
unfoldable pub is_punctuation_space : Text → Bool
is_punctuation_space (p ∷ q ∷ s) =
    p == 0x80 && ((leb 0x80 q && leb q 0x8a) || (q == 0xa8 || (q == 0xa9 || q == 0xaf)))
is_punctuation_space s = false

-- The number of bytes of the white space (`unicode.IsSpace`) that a UTF-8 text starts with, 0 if it
-- starts with none.
unfoldable pub space_width : Text → ℕ
unfolding is_punctuation_space has_prefix
space_width [] = 0
space_width (c ∷ s) =
    if c == 32 || (leb 9 c && leb c 13)
    then 1
    else if c == 0xc2 && (has_prefix s (0x85 ∷ []) || has_prefix s (0xa0 ∷ []))
    then 2
    else if (c == 0xe1 && has_prefix s (0x9a ∷ 0x80 ∷ []))
        || ((c == 0xe2 && (is_punctuation_space s || has_prefix s (0x81 ∷ 0x9f ∷ [])))
            || (c == 0xe3 && has_prefix s (0x80 ∷ 0x80 ∷ [])))
    then 3
    else 0

-- The texts between white space, empty ones included; the first argument counts the bytes of the
-- current white space that are still to be passed.
unfoldable pub segments : ℕ → Text → List Text
segments k [] = [] ∷ []
segments (suc k) (c ∷ s) = segments k s
segments zero (c ∷ s) = elim (space_width (c ∷ s)) [
  | zero ↦ push_head c (segments zero s)
  | suc k ↦ [] ∷ segments k s
]

unfoldable pub non_empty : List Text → List Text
non_empty [] = []
non_empty (x ∷ xs) = let rest = non_empty xs in if text_eq x [] then rest else x ∷ rest

-- `strings.Fields`.
unfoldable pub fields : Text → List Text
fields s = non_empty (segments zero s)

abbrev pub is_quote : ℕ → Bool
is_quote c = c == b'"' || c == b'`'

-- `inQuote` after a byte.
unfoldable pub next_quote : Option ℕ → ℕ → Option ℕ
next_quote none c = if is_quote c then some c else none
next_quote (some q) c = if c == q then none else some q

-- What is written for a byte.
unfoldable pub written : Option ℕ → ℕ → Text
written none c = if is_quote c then [] else c ∷ []
written (some q) c = if c == q then codes "<value>" else []

-- The loop of `sanitizeYAMLMessage`.
unfoldable pub without_literals : Option ℕ → Text → Text
without_literals q [] = []
without_literals q (c ∷ s) = written q c ++ without_literals (next_quote q c) s

-- `sanitizeYAMLMessage`.
unfoldable pub sanitize_yaml_message : Text → Text
sanitize_yaml_message msg = join (32 ∷ []) (fields (without_literals none msg))

abbrev pub unknown_prefix : Text
unknown_prefix = codes "field "

abbrev pub unknown_mid : Text
unknown_mid = codes " not found in type "

abbrev pub in_front : ℕ → Option (Text × Text) → Option (Text × Text)
in_front c none = none
in_front c (some (before, after)) = some (c ∷ before, after)

-- `strings.Cut` at a separator that is not empty.
unfoldable pub cut : Text → Text → Option (Text × Text)
cut sep [] = none
cut sep (c ∷ s) =
    let rest = cut sep s in
    if has_prefix (c ∷ s) sep then some ([], drop (length sep) (c ∷ s)) else in_front c rest

-- `strings.CutPrefix`.
unfoldable pub cut_prefix : Text → Text → Option Text
cut_prefix p s = if has_prefix s p then some (drop (length p) s) else none

-- Both parts of a diagnostic, unless one is empty.
unfoldable pub both_named : Option (Text × Text) → Option (Text × Text)
both_named none = none
both_named (some (field, type_name)) =
    if text_eq field [] || text_eq type_name [] then none else some (field, type_name)

unfoldable pub field_and_type : Option Text → Option (Text × Text)
field_and_type none = none
field_and_type (some rest) = both_named (cut unknown_mid rest)

-- `parseUnknownField`.
unfoldable pub parse_unknown_field : Text → Option (Text × Text)
parse_unknown_field msg = field_and_type (cut_prefix unknown_prefix msg)

-- `strings.HasSuffix`.
unfoldable pub has_suffix : Text → Text → Bool
has_suffix s p = leb (length p) (length s) && text_eq (drop (length s - length p) s) p

-- The cases of the switch of `yamlPathPrefix`, in order.
abbrev pub path_prefixes : List (Text × Text)
path_prefixes =
    (codes ".document", codes "")
    ∷ (codes ".image", codes "image")
    ∷ (codes ".seeds", codes "seeds")
    ∷ (codes ".Applications", codes "seeds.applications")
    ∷ (codes ".Application", codes "seeds.applications")
    ∷ (codes ".InstallTarget", codes "seeds.install.target")
    ∷ (codes ".InstallSecurity", codes "seeds.install.security")
    ∷ (codes ".Install", codes "seeds.install")
    ∷ (codes ".MigrationManager", codes "seeds.migration-manager")
    ∷ (codes ".OperationsCenter", codes "seeds.operations-center")
    ∷ (codes ".Incus", codes "seeds.incus")
    ∷ (codes ".Network", codes "seeds.network")
    ∷ (codes ".Provider", codes "seeds.provider")
    ∷ (codes ".Services", codes "seeds.services")
    ∷ (codes ".Update", codes "seeds.update")
    ∷ (codes ".Kernel", codes "seeds.kernel")
    ∷ (codes ".Security", codes "seeds.security")
    ∷ []

unfoldable pub prefix_for : List (Text × Text) → Text → Text
prefix_for [] type_name = []
prefix_for ((suffix, prefix) ∷ cases) type_name =
    let rest = prefix_for cases type_name in if has_suffix type_name suffix then prefix else rest

-- `yamlPathPrefix`.
unfoldable pub yaml_path_prefix : Text → Text
yaml_path_prefix type_name = prefix_for path_prefixes type_name

-- `fieldPath`.
unfoldable pub field_path : Text → Text → Text
field_path type_name field =
    let prefix = yaml_path_prefix type_name in
    if text_eq prefix [] then field else prefix ++ (b'.' ∷ field)

-- `unknownFieldHint`.
abbrev pub unknown_field_hint : Text
unknown_field_hint =
    codes "unknown to incus-os v0.0.0-20260815030500-0f5b8057f2fc; a newer "
    ++ codes "incusos-builder may accept this"

-- `unknownFieldMessage`.
unfoldable pub unknown_field_message : Text → Text
unknown_field_message path = path ++ (codes ": " ++ unknown_field_hint)

unfoldable pub load_error_message : Text → Option (Text × Text) → Text
load_error_message message none = sanitize_yaml_message message
load_error_message message (some (field, type_name)) =
    unknown_field_message (field_path type_name field)

-- `formatLoadError`.
unfoldable pub format_load_error : Text → Text
format_load_error message = load_error_message message (parse_unknown_field message)
