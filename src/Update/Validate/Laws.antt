-- ===== src/Update/Validate/Laws.antt =====
-- What the checks of internal/update/validate.go accept, in terms of the characters allowed.
use incusos_builder.Base.{
  ℕ, zero, suc, ◌≤◌, ◌<◌, ◌≡◌, refl, ◌≢◌, ◌↔◌, ◌⊎◌, inl, inr, Bool, true, false, ◌||◌, List, [],
  ◌∷◌, all, All, ◌==◌, length, if◌then◌else◌, arith, Bool-cases,
}
use incusos_builder.Base.Int.{ℤ, pos, negsuc}
use incusos_builder.Base.Text.{Text, text_eq, text_eq_iff, has_prefix, split, mem_byte, push_head}
use incusos_builder.Base.Segments.{split-cons}
use incusos_builder.Errdefs.{
  is-errorf, errorf, Message, >>-iff, >>-FailsWith, ok, err, fetch, FailsWith,
}
use incusos_builder.Images.{UpdateFile}
use incusos_builder.Update.Validate.{
  slash, max_asset_size, is_ident_rune, valid_ident, all_lower_hex, validate_version,
  check_segments, validate_filename, validate_sha256, validate_size, validate_asset,
}

-- The documented allowlist [A-Za-z0-9._-].
abbrev pub IsAllowed : ℕ → Type 0
IsAllowed c =
    ((b'A' ≤ c) × (c ≤ b'Z'))
    ⊎ ((b'a' ≤ c) × (c ≤ b'z'))
    ⊎ ((b'0' ≤ c) × (c ≤ b'9'))
    ⊎ (c ≡ b'.')
    ⊎ (c ≡ b'_')
    ⊎ (c ≡ b'-')

-- A name that may stand as one element of a path: allowed characters, at least one, no dot names.
abbrev pub IsSafeName : Text → Type 0
IsSafeName s = (s ≢ []) × (s ≢ b'.' ∷ []) × (s ≢ b'.' ∷ b'.' ∷ []) × All IsAllowed s

abbrev pub IsLowerHex : ℕ → Type 0
IsLowerHex c = ((b'0' ≤ c) × (c ≤ b'9')) ⊎ ((b'a' ≤ c) × (c ≤ b'f'))

is_ident_rune_iff : (c : ℕ) → (is_ident_rune c ≡ true) ↔ IsAllowed c
unfolding is_ident_rune
is_ident_rune_iff c = (λ h. ground arith, λ h. ground arith)

all_ident_iff : (s : Text) → (all is_ident_rune s ≡ true) ↔ All IsAllowed s
all_ident_iff [] = (λ h. tt, λ h. refl)
all_ident_iff (c ∷ s) = (
  λ h. ((is_ident_rune_iff c).0 (ground arith), (all_ident_iff s).0 (ground arith)),
  λ h. ground (arith, (is_ident_rune_iff c).1 h.0, (all_ident_iff s).1 h.1),
)

pub valid_ident_iff : (s : Text) → (valid_ident s ≡ true) ↔ IsSafeName s
unfolding valid_ident
valid_ident_iff s = (
  λ h. (
    λ e. ground (arith, text_eq_iff s []),
    λ e. ground (arith, text_eq_iff s (b'.' ∷ [])),
    λ e. ground (arith, text_eq_iff s (b'.' ∷ b'.' ∷ [])),
    (all_ident_iff s).0 (ground arith),
  ),
  λ h. ground (
    arith,
    text_eq_iff s [],
    text_eq_iff s (b'.' ∷ []),
    text_eq_iff s (b'.' ∷ b'.' ∷ []),
    (all_ident_iff s).1 h.3,
  ),
)

check_segments_iff : (f : Text) (xs : List Text) → (check_segments f xs ≡ ok tt) ↔ All IsSafeName xs
unfolding check_segments
check_segments_iff f [] = (λ h. tt, λ h. refl)
check_segments_iff f (x ∷ xs) = (
  λ h. ((valid_ident_iff x).0 (ground arith), (check_segments_iff f xs).0 (ground arith)),
  λ h. ground (arith, (valid_ident_iff x).1 h.0, (check_segments_iff f xs).1 h.1),
)

-- A text that starts with a slash has an empty first segment.
unsafe_slash : (s : Text) → has_prefix s (slash ∷ []) ≡ true → ¬ All IsSafeName (split slash s)
unfolding has_prefix split
unsafe_slash [] h safe = cc
unsafe_slash (c ∷ s) h safe = go (c == slash) (split slash s) (ground arith) safe
  where
    go :
        (b : Bool) (r : List Text)
        → b ≡ true
        → ¬ All IsSafeName (if b then [] ∷ r else push_head c r)
    go true r e safe = safe.0.0 refl
    go false r e safe = cc

All-push_head :
    (c : ℕ) (r : List Text)
    → All (All IsAllowed) (push_head c r)
    → IsAllowed c × All (All IsAllowed) r
All-push_head c [] h = (h.0.0, tt)
All-push_head c (x ∷ r) h = (h.0.0, (h.0.1, h.1))

-- No allowed character is a backslash.
unsafe_backslash : (s : Text) → mem_byte b'\\' s ≡ true → ¬ All (All IsAllowed) (split slash s)
unfolding mem_byte
unsafe_backslash [] h safe = cc
unsafe_backslash (c ∷ s) h safe = elim (Bool-cases (c == slash)) [
  | inl e ↦ unsafe_backslash s (ground arith) ((rw (split-cons, e) at safe).1)
  | inr e ↦
      let r = All-push_head c (split slash s) (rw (split-cons, e) at safe) in
      elim (Bool-cases (c == b'\\')) [
        | inl f ↦ ground (arith, r.0)
        | inr f ↦ unsafe_backslash s (ground arith) r.1
      ]
]

All-weaken : (xs : List Text) → All IsSafeName xs → All (All IsAllowed) xs
All-weaken [] h = tt
All-weaken (x ∷ xs) h = (h.0.3, All-weaken xs h.1)

not_nil : (f : Text) → All IsSafeName (split slash f) → ¬ (f ≡ [])
unfolding split
not_nil [] h e = h.0.0 refl
not_nil (c ∷ f) h e = cc

-- A filename is accepted exactly when each of its '/'-separated segments is a safe name: the
-- tests for an empty text, a leading slash and a backslash refuse nothing more.
pub validate_filename_iff :
    (f : Text) → (validate_filename f ≡ ok tt) ↔ All IsSafeName (split slash f)
unfolding validate_filename
validate_filename_iff f = (
  λ h. (check_segments_iff f (split slash f)).0 (ground arith),
  λ h. ground (
    arith,
    (check_segments_iff f (split slash f)).1 h,
    text_eq_iff f [],
    λ (e : f ≡ []). not_nil f h e,
    λ (e : has_prefix f (slash ∷ []) ≡ true). unsafe_slash f e h,
    λ (e : mem_byte b'\\' f ≡ true). unsafe_backslash f e (All-weaken (split slash f) h),
  ),
)

-- A version is accepted exactly when it is a safe name.
pub validate_version_iff : (v : Text) → (validate_version v ≡ ok tt) ↔ IsSafeName v
unfolding validate_version
validate_version_iff v =
    (λ h. (valid_ident_iff v).0 (ground arith), λ h. ground (arith, (valid_ident_iff v).1 h))

all_lower_hex_iff : (s : Text) → (all_lower_hex s ≡ true) ↔ All IsLowerHex s
unfolding all_lower_hex
all_lower_hex_iff [] = (λ h. tt, λ h. refl)
all_lower_hex_iff (c ∷ s) = (
  λ h. (ground arith, (all_lower_hex_iff s).0 (ground arith)),
  λ h. ground (arith, (all_lower_hex_iff s).1 h.1),
)

-- A digest is accepted exactly when it is 64 lowercase hexadecimal characters.
pub validate_sha256_iff :
    (d : Text) → (validate_sha256 d ≡ ok tt) ↔ ((length d ≡ 64) × All IsLowerHex d)
unfolding validate_sha256
validate_sha256_iff d = (
  λ h. (ground arith, (all_lower_hex_iff d).0 (ground arith)),
  λ h. ground (arith, (all_lower_hex_iff d).1 h.1),
)

-- A size is accepted exactly when it lies between 1 byte and 8 GiB.
pub validate_size_iff :
    (z : ℤ) → (validate_size z ≡ ok tt) ↔ ((n : ℕ) × (z ≡ pos n) × (0 < n) × (n ≤ max_asset_size))
unfolding validate_size
validate_size_iff (pos zero) = (λ h. cc, λ h. ground arith)
validate_size_iff (pos (suc n)) =
    (λ h. (suc n, refl, ground arith, ground arith), λ h. ground arith)
validate_size_iff (negsuc n) = (λ h. cc, λ h. ground arith)

-- What an asset's untrusted fields must be before they name a URL or a path.
pub record IsSafeAsset (version : Text) (file : UpdateFile) : Type 0 where
  pub version_safe : IsSafeName version
  pub segments_safe : All IsSafeName (split slash file.filename)
  pub digest_length : length file.sha256 ≡ 64
  pub digest_hex : All IsLowerHex file.sha256
  pub size_bounds : (n : ℕ) × (file.size ≡ pos n) × (0 < n) × (n ≤ max_asset_size)

-- An asset is accepted exactly when its version, every segment of its filename, its digest and its
-- size are safe.
pub validate_asset_iff :
    (version : Text) (file : UpdateFile)
    → (validate_asset version file ≡ ok tt) ↔ IsSafeAsset version file
unfolding validate_asset
validate_asset_iff version file = (
  λ h.
      let a = (>>-iff (validate_version version) _).0 h in
      let b = (>>-iff (validate_filename file.filename) _).0 a.1 in
      let c = (>>-iff (validate_sha256 file.sha256) _).0 b.1 in
      record {
        version_safe = (validate_version_iff version).0 a.0;
        segments_safe = (validate_filename_iff file.filename).0 b.0;
        digest_length = ((validate_sha256_iff file.sha256).0 c.0).0;
        digest_hex = ((validate_sha256_iff file.sha256).0 c.0).1;
        size_bounds = (validate_size_iff file.size).0 c.1;
      },
  λ h. (>>-iff (validate_version version) _).1 (
    (validate_version_iff version).1 h.version_safe,
    (>>-iff (validate_filename file.filename) _).1 (
      (validate_filename_iff file.filename).1 h.segments_safe,
      (>>-iff (validate_sha256 file.sha256) _).1 (
        (validate_sha256_iff file.sha256).1 (h.digest_length, h.digest_hex),
        (validate_size_iff file.size).1 h.size_bounds,
      ),
    ),
  ),
)

check_segments-FailsWith : (f : Text) (xs : List Text) → FailsWith fetch (check_segments f xs)
unfolding check_segments
check_segments-FailsWith f [] = tt
check_segments-FailsWith f (x ∷ xs) = elim (Bool-cases (valid_ident x)) [
  | inl e ↦ rw e (check_segments-FailsWith f xs)
  | inr e ↦ rw e (is-errorf fetch _)
]

-- A check that returns one formatted error or passes.
guard-FailsWith :
    (b : Bool) (m : Message) → FailsWith {0} fetch (if b then err (errorf fetch m) else ok tt)
guard-FailsWith true m = is-errorf fetch m
guard-FailsWith false m = tt

-- Every refusal of an asset's fields is an acquisition failure.
pub validate_asset-FailsWith :
    (version : Text) (file : UpdateFile) → FailsWith fetch (validate_asset version file)
unfolding validate_asset validate_version validate_filename validate_sha256 validate_size
validate_asset-FailsWith version file =
    >>-FailsWith fetch (validate_version version) _ (guard-FailsWith _ _) (
      >>-FailsWith fetch (validate_filename file.filename) _ (filename file.filename) (
        >>-FailsWith fetch (validate_sha256 file.sha256) _ (guard-FailsWith _ _)
          (guard-FailsWith _ _)))
  where
    filename : (f : Text) → FailsWith fetch (validate_filename f)
    filename f =
        elim (Bool-cases (text_eq f [] || (has_prefix f (slash ∷ []) || mem_byte b'\\' f))) [
          | inl e ↦ rw e (is-errorf fetch _)
          | inr e ↦ rw e (check_segments-FailsWith f (split slash f))
        ]
