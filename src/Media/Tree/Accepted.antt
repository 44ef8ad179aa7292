-- ===== src/Media/Tree/Accepted.antt =====
-- `rescueRelPath` of internal/build/build.go against `validateRelPath` of internal/media/rescue.go.
use incusos_builder.Base.{◌≡◌, refl, sym, ◌++◌, [], ◌∷◌, All}
use mathlib.Core.Path.{subst}
use incusos_builder.Base.Text.{Text, text_eq, has_prefix, split, codes}
use incusos_builder.Base.Segments.{split-append_sep}
use incusos_builder.Errdefs.{ok}
use incusos_builder.Build.Pipeline.{rescue_rel_path, rescue_tree_prefix}
use incusos_builder.Build.Pipeline.Staging.{rescue_rel_path_lem}
use incusos_builder.Update.Validate.{slash, validate_filename, valid_ident}
use incusos_builder.Update.Validate.Laws.{IsSafeName, valid_ident_iff, validate_filename_iff}
use incusos_builder.Media.Tree.{tree_prefix, validate_rel_path}

update-IsSafeName : IsSafeName (codes "update")
unfolding valid_ident text_eq
update-IsSafeName = (valid_ident_iff (codes "update")).0 refl

empty_unsafe : ¬ (All IsSafeName (split slash []))
unfolding split
empty_unsafe h = h.0.0 refl

below_tree :
    (f : Text) → All IsSafeName (split slash f) → All IsSafeName (split slash (tree_prefix ++ f))
below_tree f h =
    subst (λ l. All IsSafeName l) (sym (split-append_sep slash (codes "update") f refl))
      (update-IsSafeName, h)

validate_rel_path-append :
    (f : Text) → validate_filename f ≡ ok tt → validate_rel_path (tree_prefix ++ f) ≡ ok tt
unfolding validate_rel_path has_prefix text_eq
validate_rel_path-append [] h = absurd (empty_unsafe ((validate_filename_iff []).0 h))
validate_rel_path-append (c ∷ f) h =
    rw
      ((validate_filename_iff (tree_prefix ++ (c ∷ f))).1
        (below_tree (c ∷ f) ((validate_filename_iff (c ∷ f)).0 h)))
      refl

-- For a filename that passes `ValidateFilename`, `rescueRelPath` puts it below update/ unchanged, and
-- `validateRelPath` accepts the path, so that the writer of the rescue media does not refuse it.
pub validate_rel_path-rescue_rel_path :
    (f : Text)
    → validate_filename f ≡ ok tt
    → (rescue_rel_path f ≡ rescue_tree_prefix ++ f)
      × (validate_rel_path (rescue_rel_path f) ≡ ok tt)
validate_rel_path-rescue_rel_path f h = (
  rescue_rel_path_lem f h,
  subst (λ p. validate_rel_path p ≡ ok tt) (sym (rescue_rel_path_lem f h))
      (validate_rel_path-append f h),
)
