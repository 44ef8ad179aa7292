-- ===== src/Build/Pipeline/Staging.antt =====
-- Where the files of a release are staged in the rescue media.
use incusos_builder.Base.{◌≡◌, refl, ap, true, List, [], ◌∷◌, ◌++◌, All, arith}
use mathlib.Core.List.{foldl, reverse, reverse_aux, reverse-reverse}
use incusos_builder.Base.Text.{Text, text_eq, text_eq_iff, split, has_prefix}
use incusos_builder.Base.Segments.{join-split, split-cons}
use incusos_builder.Base.Path.{clean, clean_step, slash, dot_dot}
use incusos_builder.Errdefs.{ok}
use incusos_builder.Update.Validate.{validate_filename}
use incusos_builder.Update.Validate.Laws.{IsSafeName, validate_filename_iff}
use incusos_builder.Build.Pipeline.{rescue_rel_path, rescue_tree_prefix}

-- A safe name is kept as it is.
clean_step-IsSafeName :
    (stack : List Text) (x : Text) → IsSafeName x → clean_step true stack x ≡ x ∷ stack
unfolding clean_step
clean_step-IsSafeName stack x h =
    ground
      (arith, h.0, h.1, h.2, text_eq_iff x [], text_eq_iff x (b'.' ∷ []), text_eq_iff x dot_dot)

foldl-clean_step :
    (stack xs : List Text)
    → All IsSafeName xs
    → foldl (clean_step true) stack xs ≡ reverse_aux xs stack
foldl-clean_step stack [] h = refl
foldl-clean_step stack (x ∷ xs) h =
    rw (clean_step-IsSafeName stack x h.0) (foldl-clean_step (x ∷ stack) xs h.1)

clean_rooted : (f : Text) → All IsSafeName (split slash f) → clean (slash ∷ f) ≡ slash ∷ f
unfolding clean has_prefix text_eq
clean_rooted f h =
    let kept : foldl (clean_step true) [] (split slash (slash ∷ f)) ≡ reverse (split slash f) =
      rw split-cons (unfold clean_step text_eq in foldl-clean_step [] (split slash f) h) in
    rw (kept, reverse-reverse) (ap (λ t. slash ∷ t) (join-split slash f))

-- A filename that the checks of untrusted fields accept is staged under "update/" as it stands: the
-- cleaning of the path changes nothing.
pub rescue_rel_path_lem :
    (f : Text) → validate_filename f ≡ ok tt → rescue_rel_path f ≡ rescue_tree_prefix ++ f
unfolding rescue_rel_path
rescue_rel_path_lem f h = rw (clean_rooted f ((validate_filename_iff f).0 h)) refl
