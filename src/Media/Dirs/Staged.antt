-- ===== src/Media/Dirs/Staged.antt =====
-- The directories of the files that `prepareTree` of internal/media/rescue.go returns.
use incusos_builder.Base.{ℕ, ◌<◌, ◌≡◌, ◌⊎◌, inl, inr, true, List, [], ◌∷◌, In, All, Option-cases}
use mathlib.Core.Path.{subst}
use incusos_builder.Base.Text.{Text}
use incusos_builder.Errdefs.{Result, ok}
use incusos_builder.Io.{Reader}
use incusos_builder.Update.Documents.Capped.{Done}
use incusos_builder.Media.Tree.{TreeFile, RescueInput, prepare_tree}
use incusos_builder.Media.Tree.Prepared.{IsBelowTree, rels, prepare_tree-IsTree}
use incusos_builder.Media.Dirs.{
  dir, depth, is_top, walk_files, sort_dirs, FileSystem, make_dirs, mkdir_parents,
}
use incusos_builder.Media.Dirs.Walked.{IsSafePath, IsCovered}
use incusos_builder.Media.Dirs.Collected.{AreWithin, Collected, walk_files-Collected}
use incusos_builder.Media.Dirs.Shallow.{
  sort_dirs-IsShallowFirst, sort_dirs-In, In-sort_dirs, sort_dirs-Distinct,
}
use incusos_builder.Media.Dirs.Made.{MakesOne, Buildable, Made, make_dirs-Made}

module _ (F : FileSystem) (Has : F.State → Text → Type 0) where
  -- What the staged files find: the directory of each is there, and with each directory the one above it.
  pub record IsStageable (R : Reader) (files : List (TreeFile R)) (r : Result (Unit {0}) × F.State)
      : Type 0 where
    pub succeeds : r.0 ≡ ok tt
    pub covered : All (λ f. (is_top (dir f.rel) ≡ true) ⊎ Has (r.1) (dir f.rel)) files
    pub closed :
        (x : Text) → Has (r.1) x → IsSafePath x × ((is_top (dir x) ≡ true) ⊎ Has (r.1) (dir x))

  module _ (makes_one : MakesOne F Has) where
    module _ (R : Reader) where
      covered-Has :
          (fs : List (TreeFile R)) (seen : List Text) (s : F.State)
          → ((x : Text) → In x seen → Has s x)
          → All (λ f. IsCovered seen (dir f.rel)) fs
          → All (λ f. (is_top (dir f.rel) ≡ true) ⊎ Has s (dir f.rel)) fs
      covered-Has [] seen s has h = tt
      covered-Has (f ∷ fs) seen s has h = (
        elim h.0 [ inl t ↦ inl t | inr i ↦ inr (has (dir f.rel) i) ],
        covered-Has fs seen s has h.1,
      )

      Collected-Buildable :
          (files : List (TreeFile R)) (seen : List Text) (s : F.State)
          → ((x : Text) → ¬ Has s x)
          → Collected R files [] seen
          → Buildable F Has (sort_dirs seen) s
      Collected-Buildable files seen s nothing c = record {
        fresh = λ x i. nothing x;
        distinct = sort_dirs-Distinct seen c.distinct;
        sorted = sort_dirs-IsShallowFirst seen;
        parents = λ x i.
            let (safe, up) = c.closed x (sort_dirs-In x seen i) in
            (safe, elim up [ inl t ↦ inl t | inr j ↦ inr (inl (In-sort_dirs (dir x) seen j)) ]);
      }

      Made-IsStageable :
          (files : List (TreeFile R)) (seen : List Text) (s : F.State)
          (r : Result (Unit {0}) × F.State)
          → ((x : Text) → ¬ Has s x)
          → Collected R files [] seen
          → Made F Has (sort_dirs seen) s r
          → IsStageable R files r
      Made-IsStageable files seen s r nothing c m = record {
        succeeds = m.succeeds;
        covered = covered-Has files seen (r.1) has c.covered;
        closed = λ x h. elim (m.only x h) [
          | inr old ↦ absurd (nothing x old)
          | inl i ↦
              let (safe, up) = c.closed x (sort_dirs-In x seen i) in
              (safe, elim up [ inl t ↦ inl t | inr j ↦ inr (has (dir x) j) ])
        ];
      }
        where
          has : (x : Text) → In x seen → Has (r.1) x
          has x i = m.made x (inl (In-sort_dirs x seen i))

      walked-IsStageable :
          (fuel : ℕ) (files : List (TreeFile R)) (s : F.State)
          → AreWithin R fuel files
          → ((x : Text) → ¬ Has s x)
          → Done (IsStageable R files) (mkdir_parents F R fuel files s)
      unfolding mkdir_parents
      walked-IsStageable fuel files s within nothing =
          let w : Done (Collected R files []) (walk_files R fuel files []) =
            walk_files-Collected R fuel files [] within (λ x i. absurd i) tt in
          elim (Option-cases (walk_files R fuel files [])) [
            | inl e ↦ absurd (subst (λ o. Done (Collected R files []) o) e w)
            | inr (seen, e) ↦
                let c : Collected R files [] seen =
                  subst (λ o. Done (Collected R files []) o) e w in
                rw (e, Done)
                  (Made-IsStageable files seen s (make_dirs F (sort_dirs seen) s) nothing c (
                    make_dirs-Made F Has makes_one (sort_dirs seen) s
                      (Collected-Buildable files seen s nothing c)))
          ]

      within :
          (fuel : ℕ) (files : List (TreeFile R))
          → All IsBelowTree (rels R files)
          → All (λ f. depth f.rel < fuel) files
          → AreWithin R fuel files
      within fuel [] h less = tt
      within fuel (f ∷ fs) h less = ((h.0.2, less.0), within fuel fs h.1 less.1)

      -- For the files that `prepareTree` returns, on a file system with no directories whose `Mkdir` makes
      -- one directory under one that is there: `mkdirParents` ends, if the fuel is above the number of
      -- slashes of each path, and succeeds; then the directory of each file is there, and each directory is
      -- a path of safe names whose own parent is there too or is the top.
      pub mkdir_parents-IsStageable :
          (input : RescueInput R) (files : List (TreeFile R)) (fuel : ℕ) (s : F.State)
          → prepare_tree R input ≡ ok files
          → All (λ f. depth f.rel < fuel) files
          → ((x : Text) → ¬ Has s x)
          → Done (IsStageable R files) (mkdir_parents F R fuel files s)
      mkdir_parents-IsStageable input files fuel s prepared less nothing =
          walked-IsStageable fuel files s
            (within fuel files (prepare_tree-IsTree R input files prepared).below less) nothing
