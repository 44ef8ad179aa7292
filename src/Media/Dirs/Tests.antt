-- ===== src/Media/Dirs/Tests.antt =====
-- The directories of a tree of four files, on a file system whose `Mkdir` is single-level.
use incusos_builder.Base.{
  ◌≡◌, refl, ◌⊎◌, inl, inr, true, false, ◌||◌, Option, none, some, List, [], ◌∷◌, In, arith,
  Bool-cases, if◌then◌else◌,
}
use incusos_builder.Base.Text.{
  Text, text_eq, text_lt, mem, mem_byte, split, join, has_prefix, codes,
}
use mathlib.Core.Path.{subst}
use incusos_builder.Base.Path.{slash, clean, clean_step}
use incusos_builder.Errdefs.{Error, ok, plain}
use incusos_builder.Build.Samples.{two_bytes}
use incusos_builder.Update.Documents.Capped.{Done}
use incusos_builder.Media.Tests.{input, files, prepared}
use incusos_builder.Media.Tree.Prepared.{not_staged}
use incusos_builder.Media.Dirs.{
  dir_part, dir, depth, is_top, is_before, insert_dir, sort_dirs, add_dir, walk, walk_files,
  FileSystem, make_dirs, mkdir_parents,
}
use incusos_builder.Media.Dirs.Walked.{mem_sound}
use incusos_builder.Media.Dirs.Made.{MakesOne}
use incusos_builder.Media.Dirs.Staged.{IsStageable, mkdir_parents-IsStageable}

-- A directory is refused if it is there already, or if the one above it is not.
unfoldable make_dir : Text → List Text → Option Error × List Text
make_dir [] dirs = (some (plain []), dirs)
make_dir (c ∷ d) dirs =
    if mem d dirs
    then (some (plain []), dirs)
    else (if is_top (dir d) || mem (dir d) dirs then (none, d ∷ dirs) else (some (plain []), dirs))

abbrev single_level : FileSystem
single_level = record { State = List Text; mkdir = make_dir }

abbrev Has : List Text → Text → Type 0
Has dirs d = In d dirs

mem_complete : (d : Text) (dirs : List Text) → In d dirs → mem d dirs ≡ true
mem_complete d dirs i = elim (Bool-cases (mem d dirs)) [
  | inl e ↦ e
  | inr e ↦ absurd (not_staged d dirs e i)
]

mem_absent : (d : Text) (dirs : List Text) → ¬ (In d dirs) → mem d dirs ≡ false
unfolding mem
mem_absent d [] n = refl
mem_absent d (x ∷ dirs) n = elim (Bool-cases (mem d (x ∷ dirs))) [
  | inr e ↦ e
  | inl e ↦ absurd (n (mem_sound d (x ∷ dirs) e))
]

make_dir-added :
    (d : Text) (dirs : List Text)
    → mem d dirs ≡ false
    → (is_top (dir d) || mem (dir d) dirs) ≡ true
    → (none, d ∷ dirs) ≡ make_dir (slash ∷ d) dirs
unfolding make_dir
make_dir-added d dirs new up = rw (new, up) refl

top_or_there :
    (d : Text) (dirs : List Text)
    → (is_top (dir d) ≡ true) ⊎ In (dir d) dirs
    → (is_top (dir d) || mem (dir d) dirs) ≡ true
top_or_there d dirs (inl t) = ground (arith, t)
top_or_there d dirs (inr i) = ground (arith, mem_complete (dir d) dirs i)

single_level-MakesOne : MakesOne single_level Has
single_level-MakesOne d dirs n up =
    subst
      (λ (r : Option Error × List Text).
        (r.0 ≡ none)
        × ((x : Text) → (x ≡ d) ⊎ In x dirs → In x (r.1))
        × ((x : Text) → In x (r.1) → (x ≡ d) ⊎ In x dirs))
      (make_dir-added d dirs (mem_absent d dirs n) (top_or_there d dirs up))
      (refl, (λ x i. i), (λ x i. i))

stage_run :
    mkdir_parents single_level two_bytes 4 files []
    ≡ some (ok tt, codes "update/x86_64" ∷ codes "update" ∷ [])
unfolding mkdir_parents walk_files walk add_dir mem dir dir_part mem_byte clean clean_step split
    join has_prefix text_eq text_lt depth is_before insert_dir sort_dirs make_dirs make_dir
stage_run = refl

mkdir_parents-IsStageable_example :
    Done
      (IsStageable single_level Has two_bytes files)
      (mkdir_parents single_level two_bytes 4 files [])
unfolding depth
mkdir_parents-IsStageable_example =
    mkdir_parents-IsStageable single_level Has single_level-MakesOne two_bytes input files 4 []
      prepared (omega arith, (omega arith, (omega arith, (omega arith, tt)))) (λ x i. absurd i)
