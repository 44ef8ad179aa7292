-- ===== src/Media/Dirs.antt =====
-- internal/media/rescue.go, `mkdirParents`: the directories above the staged files, shallow first.
pub mod Parents
pub mod Walked
pub mod Collected
pub mod Shallow
pub mod Made
pub mod Staged
pub mod Tests
use incusos_builder.Base.{
  ℕ, zero, suc, ◌+◌, Bool, true, false, not, ◌&&◌, ◌||◌, Option, none, some, List, [], ◌∷◌, ltb,
  ◌==◌, if◌then◌else◌,
}
use incusos_builder.Base.Text.{Text, text_eq, text_lt, mem, mem_byte}
use incusos_builder.Base.Path.{slash, clean}
use incusos_builder.Errdefs.{Error, Result, ok, err, errorf, output, lit, str}
use incusos_builder.Io.{Reader}
use incusos_builder.Media.Tree.{TreeFile}

-- The directory of `path.Split`, with its last slash.
unfoldable pub dir_part : Text → Text
dir_part [] = []
dir_part (c ∷ s) = let rest = dir_part s in if mem_byte slash (c ∷ s) then c ∷ rest else []

-- `path.Dir`.
unfoldable pub dir : Text → Text
dir p = clean (dir_part p)

-- Where the walk upwards ends.
abbrev pub is_top : Text → Bool
is_top d = text_eq d (b'.' ∷ []) || text_eq d (slash ∷ [])

unfoldable pub add_dir : Text → List Text → List Text
add_dir d seen = if mem d seen then seen else d ∷ seen

-- The walk upwards from a directory; `none` means that the fuel ran out.
unfoldable pub walk : ℕ → Text → List Text → Option (List Text)
walk zero d seen = none
walk (suc fuel) d seen = elim (is_top d) [
  | true ↦ some seen
  | false ↦ walk fuel (dir d) (add_dir d seen)
]

-- `strings.Count(d, "/")`.
unfoldable pub depth : Text → ℕ
depth [] = 0
depth (c ∷ s) = (if c == slash then 1 else 0) + depth s

-- The comparison of `sort.Slice`.
unfoldable pub is_before : Text → Text → Bool
is_before a b = if not (depth a == depth b) then ltb (depth a) (depth b) else text_lt a b

unfoldable pub insert_dir : Text → List Text → List Text
insert_dir d [] = d ∷ []
insert_dir d (x ∷ xs) = let rest = insert_dir d xs in if is_before d x then d ∷ x ∷ xs else x ∷ rest

-- `sort.Slice`, on directories that are all different.
unfoldable pub sort_dirs : List Text → List Text
sort_dirs [] = []
sort_dirs (d ∷ ds) = insert_dir d (sort_dirs ds)

module _ (R : Reader) where
  -- The directories above all files.
  unfoldable pub walk_files : ℕ → List (TreeFile R) → List Text → Option (List Text)
  walk_files fuel [] seen = some seen
  walk_files fuel (f ∷ fs) seen = elim (walk fuel (dir f.rel) seen) [
    | none ↦ none
    | some seen' ↦ walk_files fuel fs seen'
  ]

-- The file system of the image, as far as `Mkdir` goes.
pub record FileSystem : Type 1 where
  pub State : Type 0
  pub mkdir : Text → State → Option Error × State

module _ (F : FileSystem) where
  -- The loop over the directories.
  unfoldable pub make_dirs : List Text → F.State → Result (Unit {0}) × F.State
  make_dirs [] s = (ok tt, s)
  make_dirs (d ∷ ds) s =
      let m = F.mkdir (slash ∷ d) s in
      elim (m.0) [
        | some e ↦ (err (errorf output (lit "mkdir /" ∷ str d ∷ [])), m.1)
        | none ↦ make_dirs ds (m.1)
      ]

  -- `mkdirParents`.
  unfoldable pub mkdir_parents :
      (R : Reader) → ℕ → List (TreeFile R) → F.State → Option (Result (Unit {0}) × F.State)
  mkdir_parents R fuel files s = elim (walk_files R fuel files []) [
    | none ↦ none
    | some seen ↦ some (make_dirs (sort_dirs seen) s)
  ]
