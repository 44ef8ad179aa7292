-- ===== src/Media/Dirs/Parents.antt =====
-- `path.Dir` on a path of safe names: the path without its last name.
use incusos_builder.Base.{
  ℕ, ◌≡◌, refl, ap, sym, ◌∙◌, true, false, not, List, [], ◌∷◌, ◌++◌, All, all, arith, ◌==◌,
}
use mathlib.Core.List.{foldl, reverse, reverse_aux, reverse-reverse}
use incusos_builder.Base.Text.{Text, text_eq, text_eq_iff, split, join, has_prefix, mem_byte}
use incusos_builder.Base.Segments.{split-append_sep, split_single}
use incusos_builder.Base.Path.{clean, clean_step, slash, dot_dot}
use incusos_builder.Update.Validate.Laws.{IsSafeName, IsAllowed}
use incusos_builder.Media.Dirs.{dir_part, dir}

abbrev NoSlash : Text → Type 0
NoSlash x = all (λ c. not (c == slash)) x ≡ true

safe-NoSlash : (x : Text) → All IsAllowed x → NoSlash x
safe-NoSlash [] h = refl
safe-NoSlash (c ∷ x) h = ground (arith, h.0, safe-NoSlash x h.1)

NoSlash-mem : (x : Text) → NoSlash x → mem_byte slash x ≡ false
unfolding mem_byte
NoSlash-mem [] h = refl
NoSlash-mem (c ∷ x) h = ground (arith, NoSlash-mem x)

mem-slash : (x s : Text) → mem_byte slash (x ++ (slash ∷ s)) ≡ true
unfolding mem_byte
mem-slash [] s = refl
mem-slash (c ∷ x) s = ground (arith, mem-slash x s)

dir_part-append : (x s : Text) → dir_part (x ++ (slash ∷ s)) ≡ x ++ (slash ∷ dir_part s)
unfolding dir_part
dir_part-append [] s = rw (mem-slash [] s) refl
dir_part-append (c ∷ x) s = rw (mem-slash (c ∷ x) s) (ap (λ t. c ∷ t) (dir_part-append x s))

dir_part-single : (x : Text) → NoSlash x → dir_part x ≡ []
unfolding dir_part
dir_part-single [] h = refl
dir_part-single (c ∷ x) h = rw (NoSlash-mem (c ∷ x) h) refl

-- All names but the last, each with a slash behind it.
abbrev prefixes : Text → List Text → Text
prefixes x [] = []
prefixes x (y ∷ ys) = x ++ (slash ∷ prefixes y ys)

-- All names but the last.
abbrev pub init : Text → List Text → List Text
init x [] = []
init x (y ∷ ys) = x ∷ init y ys

dir_part-join :
    (x : Text) (xs : List Text)
    → All IsSafeName (x ∷ xs)
    → dir_part (join (slash ∷ []) (x ∷ xs)) ≡ prefixes x xs
unfolding join
dir_part-join x [] h = dir_part-single x (safe-NoSlash x h.0.3)
dir_part-join x (y ∷ ys) h =
    dir_part-append x (join (slash ∷ []) (y ∷ ys))
    ∙ ap (λ t. x ++ (slash ∷ t)) (dir_part-join y ys h.1)

split-prefixes :
    (x : Text) (xs : List Text)
    → All IsSafeName (x ∷ xs)
    → split slash (prefixes x xs) ≡ init x xs ++ ([] ∷ [])
split-prefixes x [] h = unfold split in refl
split-prefixes x (y ∷ ys) h =
    split-append_sep slash x (prefixes y ys) (safe-NoSlash x h.0.3)
    ∙ ap (λ t. x ∷ t) (split-prefixes y ys h.1)

pub split-join :
    (x : Text) (xs : List Text)
    → All IsSafeName (x ∷ xs)
    → split slash (join (slash ∷ []) (x ∷ xs)) ≡ x ∷ xs
unfolding join
split-join x [] h = split_single slash x (safe-NoSlash x h.0.3)
split-join x (y ∷ ys) h =
    split-append_sep slash x (join (slash ∷ []) (y ∷ ys)) (safe-NoSlash x h.0.3)
    ∙ ap (λ t. x ∷ t) (split-join y ys h.1)

clean_step-safe :
    (stack : List Text) (x : Text) → IsSafeName x → clean_step false stack x ≡ x ∷ stack
unfolding clean_step
clean_step-safe stack x h =
    ground
      (arith, h.0, h.1, h.2, text_eq_iff x [], text_eq_iff x (b'.' ∷ []), text_eq_iff x dot_dot)

-- The empty name behind the last slash is passed over.
foldl-clean_step :
    (stack xs : List Text)
    → All IsSafeName xs
    → foldl (clean_step false) stack (xs ++ ([] ∷ [])) ≡ reverse_aux xs stack
foldl-clean_step stack [] h = unfold clean_step text_eq in refl
foldl-clean_step stack (x ∷ xs) h =
    ap (λ st. foldl (clean_step false) st (xs ++ ([] ∷ []))) (clean_step-safe stack x h.0)
    ∙ foldl-clean_step (x ∷ stack) xs h.1

pub init-All : (x : Text) (xs : List Text) → All IsSafeName (x ∷ xs) → All IsSafeName (init x xs)
init-All x [] h = tt
init-All x (y ∷ ys) h = (h.0, init-All y ys h.1)

-- A safe name has a first byte, which is no slash.
safe_head : (x : Text) → IsSafeName x → (c : ℕ) × (t : Text) × (x ≡ c ∷ t) × ((c == slash) ≡ false)
safe_head [] h = absurd (h.0 refl)
safe_head (c ∷ t) h = (c, t, refl, ground (arith, h.3.0))

clean_relative :
    (c : ℕ) (t : Text) (names : List Text)
    → (c == slash) ≡ false
    → foldl (clean_step false) [] (split slash (c ∷ t)) ≡ reverse names
    → text_eq (join (slash ∷ []) names) [] ≡ false
    → clean (c ∷ t) ≡ join (slash ∷ []) names
unfolding clean text_eq has_prefix
clean_relative c t names no_slash folded filled =
    let same : reverse (foldl (clean_step false) [] (split slash (c ∷ t))) ≡ names =
      rw folded (reverse-reverse names) in
    rw (no_slash, same) (rw filled refl)

clean-prefixes :
    (x y : Text) (ys : List Text)
    → All IsSafeName (x ∷ y ∷ ys)
    → clean (prefixes x (y ∷ ys)) ≡ join (slash ∷ []) (init x (y ∷ ys))
clean-prefixes x y ys h =
    let (c, t, e, no_slash) = safe_head x h.0 in
    let folded : foldl (clean_step false) [] (split slash (prefixes x (y ∷ ys)))
        ≡ reverse (init x (y ∷ ys)) =
      ap (λ l. foldl (clean_step false) [] l) (split-prefixes x (y ∷ ys) h)
      ∙ foldl-clean_step [] (init x (y ∷ ys)) (init-All x (y ∷ ys) h) in
    let first : x ++ (slash ∷ prefixes y ys) ≡ c ∷ (t ++ (slash ∷ prefixes y ys)) =
      ap (λ u. u ++ (slash ∷ prefixes y ys)) e in
    ap clean first
    ∙ clean_relative c (t ++ (slash ∷ prefixes y ys)) (init x (y ∷ ys)) no_slash
        (ap (λ p. foldl (clean_step false) [] (split slash p)) (sym first) ∙ folded)
        (filled c t (init y ys) x e)
  where
    filled :
        (c : ℕ) (t : Text) (zs : List Text) (x : Text)
        → x ≡ c ∷ t
        → text_eq (join (slash ∷ []) (x ∷ zs)) [] ≡ false
    filled c t [] x e = unfold join text_eq in rw e refl
    filled c t (z ∷ zs) x e = unfold join text_eq in rw e refl

pub dir-join :
    (x y : Text) (ys : List Text)
    → All IsSafeName (x ∷ y ∷ ys)
    → dir (join (slash ∷ []) (x ∷ y ∷ ys)) ≡ join (slash ∷ []) (init x (y ∷ ys))
unfolding dir
dir-join x y ys h = ap clean (dir_part-join x (y ∷ ys) h) ∙ clean-prefixes x y ys h

pub dir-single : (x : Text) → IsSafeName x → dir (join (slash ∷ []) (x ∷ [])) ≡ b'.' ∷ []
unfolding dir clean text_eq join
dir-single x h = rw (dir_part-single x (safe-NoSlash x h.3)) refl
