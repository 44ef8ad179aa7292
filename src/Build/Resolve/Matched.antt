-- ===== src/Build/Resolve/Matched.antt =====
-- The list that `matchingFiles` of internal/build/resolve.go returns.
use incusos_builder.Base.{inl, inr, List, [], ◌∷◌, All, Bool-cases}
use incusos_builder.Base.Text.{Text, text_eq, text_eq_iff}
use incusos_builder.Images.{FileType, UpdateFile}
use incusos_builder.Build.Resolve.{file_type_eq, matching_files}
use incusos_builder.Build.Resolve.Files.{Matches, arch_differs, type_differs, file_type_eq→eq}

-- The files of the first list stand in the second in the same order, each at a place of its own.
pub data IsSubsequence : List UpdateFile → List UpdateFile → Type 0 where
  nothing : IsSubsequence [] []
  skipped :
      {f : UpdateFile} {xs ys : List UpdateFile} → IsSubsequence xs ys → IsSubsequence xs (f ∷ ys)
  taken :
      {f : UpdateFile} {xs ys : List UpdateFile}
      → IsSubsequence xs ys
      → IsSubsequence (f ∷ xs) (f ∷ ys)

-- A subsequence of files that match, which has all other such subsequences within it.
pub record IsLongest (files : List UpdateFile) (arch : Text) (t : FileType) (kept : List UpdateFile)
    : Type 0 where
  pub ordered : IsSubsequence kept files
  pub matching : All (Matches arch t) kept
  pub longest :
      (xs : List UpdateFile)
      → IsSubsequence xs files
      → All (Matches arch t) xs
      → IsSubsequence xs kept

skipped-IsLongest :
    (f : UpdateFile) (files : List UpdateFile) (arch : Text) (t : FileType) (kept : List UpdateFile)
    → ¬ Matches arch t f
    → IsLongest files arch t kept
    → IsLongest (f ∷ files) arch t kept
skipped-IsLongest f files arch t kept no_match h = record {
  ordered = skipped h.ordered;
  matching = h.matching;
  longest = longest;
}
  where
    longest :
        (xs : List UpdateFile)
        → IsSubsequence xs (f ∷ files)
        → All (Matches arch t) xs
        → IsSubsequence xs kept
    longest xs (skipped s) m = h.longest xs s m
    longest (x ∷ xs) (taken s) m = absurd (no_match m.0)

taken-IsLongest :
    (f : UpdateFile) (files : List UpdateFile) (arch : Text) (t : FileType) (kept : List UpdateFile)
    → Matches arch t f
    → IsLongest files arch t kept
    → IsLongest (f ∷ files) arch t (f ∷ kept)
taken-IsLongest f files arch t kept match h = record {
  ordered = taken h.ordered;
  matching = (match, h.matching);
  longest = longest;
}
  where
    longest :
        (xs : List UpdateFile)
        → IsSubsequence xs (f ∷ files)
        → All (Matches arch t) xs
        → IsSubsequence xs (f ∷ kept)
    longest xs (skipped s) m = skipped (h.longest xs s m)
    longest (x ∷ xs) (taken s) m = taken (h.longest xs s m.1)

-- `matchingFiles` returns the longest subsequence of the files whose members are all of the architecture
-- and the type: its files stand in the order of the list, none of them twice for one place, and any
-- subsequence of such files is a subsequence of it.
pub matching_files-IsLongest :
    (files : List UpdateFile) (arch : Text) (t : FileType)
    → IsLongest files arch t (matching_files files arch t)
unfolding matching_files
matching_files-IsLongest [] arch t = record {
  ordered = nothing;
  matching = tt;
  longest = λ xs s m. s;
}
matching_files-IsLongest (f ∷ files) arch t =
    let rest = matching_files-IsLongest files arch t in
    let kept = matching_files files arch t in
    elim (Bool-cases (text_eq f.architecture arch)) [
      | inr other ↦
          rw other (skipped-IsLongest f files arch t kept (arch_differs arch t f other) rest)
      | inl here ↦ elim (Bool-cases (file_type_eq f.file_type t)) [
        | inr other ↦
            rw (here, other)
              (skipped-IsLongest f files arch t kept (type_differs arch t f other) rest)
        | inl same ↦
            rw (here, same)
              (taken-IsLongest f files arch t kept
                ((text_eq_iff f.architecture arch).0 here, file_type_eq→eq f.file_type t same) rest)
      ]
    ]
