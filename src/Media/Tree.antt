-- ===== src/Media/Tree.antt =====
-- internal/media/rescue.go: the input of the writer and the files that are staged.
pub mod Prepared
pub mod Accepted
use incusos_builder.Base.{
  ℕ, Bool, true, false, not, ◌||◌, Option, none, some, List, [], ◌∷◌, length, if◌then◌else◌,
}
use incusos_builder.Base.Int.{ℤ, pos, negsuc}
use incusos_builder.Base.Text.{Text, text_eq, has_prefix, mem, codes}
use incusos_builder.Errdefs.{
  Error, Result, ok, err, errorf, output, lit, quoted, int, ◌>>=◌, ◌>>◌, fail_if,
}
use incusos_builder.Io.{Reader}
use incusos_builder.Update.Validate.{validate_filename}

abbrev pub tree_prefix : Text
tree_prefix = codes "update/"

abbrev pub update_json_path : Text
update_json_path = codes "update/update.json"

abbrev pub update_sjson_path : Text
update_sjson_path = codes "update/update.sjson"

-- A failure that is the output's, of which the error that it stems from gives no more than its text, as
-- at the end of `validateRelPath`.
abbrev pub as_output : {A : Type 0} → Error → Result A → Result A
as_output e (ok a) = ok a
as_output e (err cause) = err e

-- `validateRelPath`.
unfoldable pub validate_rel_path : Text → Result (Unit {0})
validate_rel_path rel = do
  fail_if (not (has_prefix rel tree_prefix) || text_eq rel tree_prefix)
      (errorf output (lit "RelPath " ∷ quoted rel ∷ lit " must start with \"update/\"" ∷ []))
  as_output (errorf output (lit "RelPath " ∷ quoted rel ∷ lit " rejected" ∷ []))
      (validate_filename rel)

module _ (R : Reader) where
  -- `build.VerifiedAsset`: its size, and what its next `Open` gives.
  pub record Asset : Type 0 where
    pub size : ℤ
    pub open_result : Result R.State

  -- `build.RescueAsset`; the handle may be nil.
  pub record RescueAsset : Type 0 where
    pub rel_path : Text
    pub handle : Option Asset

  pub record RescueInput : Type 0 where
    pub assets : List RescueAsset
    pub update_json : List ℕ
    pub update_sjson : List ℕ

  -- What a file is written from.
  pub data Contents : Type 0 where
    document : List ℕ → Contents
    streamed : Asset → Contents

  -- `treeFile`.
  pub record TreeFile : Type 0 where
    pub rel : Text
    pub size : ℕ
    pub contents : Contents

  abbrev pub document_file : Text → List ℕ → TreeFile
  document_file rel bytes = record { rel = rel; size = length bytes; contents = document bytes }

  unfoldable pub sized_file : Text → Asset → ℤ → Result TreeFile
  sized_file rel asset (pos n) = ok (record { rel = rel; size = n; contents = streamed asset })
  sized_file rel asset (negsuc n) =
      err (errorf output (lit "asset " ∷ quoted rel ∷ lit ": negative size " ∷ int (negsuc n) ∷ []))

  -- The file of a handle that is not nil.
  unfoldable pub asset_file : Text → Option Asset → Result TreeFile
  asset_file rel none = err (errorf output (lit "asset " ∷ quoted rel ∷ lit ": nil handle" ∷ []))
  asset_file rel (some asset) = sized_file rel asset asset.size

  -- The loop of `prepareTree` over the assets, with the paths that are staged already.
  unfoldable pub stage_assets : List Text → List RescueAsset → Result (List TreeFile)
  stage_assets seen [] = ok []
  stage_assets seen (a ∷ assets) = do
    validate_rel_path a.rel_path
    fail_if (mem a.rel_path seen) (
        errorf output
          (lit "RelPath " ∷ quoted a.rel_path ∷ lit " duplicates an already staged file" ∷ []))
    file ← asset_file a.rel_path a.handle
    rest ← stage_assets (a.rel_path ∷ seen) assets
    ok (file ∷ rest)

  -- `prepareTree`.
  unfoldable pub prepare_tree : RescueInput → Result (List TreeFile)
  prepare_tree input = do
    fail_if (text_eq input.update_sjson [])
        (errorf output (lit "empty UpdateSJSON; recovery would no-op" ∷ []))
    rest ← stage_assets (update_json_path ∷ update_sjson_path ∷ []) input.assets
    ok (
        document_file update_json_path input.update_json
        ∷ document_file update_sjson_path input.update_sjson
        ∷ rest)
