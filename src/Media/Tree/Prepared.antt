-- ===== src/Media/Tree/Prepared.antt =====
-- What `prepareTree` of internal/media/rescue.go lets through.
use incusos_builder.Base.{
  ◌≡◌, refl, ap, sym, ◌∙◌, ◌≢◌, Bool, true, false, Option, none, some, List, [], ◌∷◌, In, All,
  length, inl, inr, arith, Bool-cases,
}
use mathlib.Core.Path.{subst}
use incusos_builder.Base.Int.{ℤ, pos, negsuc}
use incusos_builder.Base.Text.{Text, text_eq, text_eq_iff, has_prefix, mem, split, mem_byte}
use incusos_builder.Errdefs.{Error, Result, ok, err, ok_elim, fail_if}
use incusos_builder.Io.{Reader}
use incusos_builder.Update.Validate.{slash, validate_filename, check_segments, valid_ident}
use incusos_builder.Update.Validate.Laws.{IsSafeName, validate_filename_iff}
use incusos_builder.Media.Tree.{
  tree_prefix, update_json_path, update_sjson_path, as_output, validate_rel_path, Asset,
  RescueAsset, RescueInput, streamed, TreeFile, document_file, sized_file, asset_file, stage_assets,
  prepare_tree,
}

-- A path below the tree: it starts with update/, and each of its segments is a safe name.
abbrev pub IsBelowTree : Text → Type 0
IsBelowTree rel =
    (has_prefix rel tree_prefix ≡ true) × (rel ≢ tree_prefix) × All IsSafeName (split slash rel)

abbrev pub Distinct : List Text → Type 0
Distinct [] = Unit
Distinct (x ∷ xs) = ¬ (In x xs) × Distinct xs

pub not_staged : (t : Text) (xs : List Text) → mem t xs ≡ false → ¬ (In t xs)
unfolding mem
not_staged t [] h i = absurd i
not_staged t (x ∷ xs) h (inl e) = ground (arith, (text_eq_iff x t).1 (sym e))
not_staged t (x ∷ xs) h (inr i) = not_staged t xs (ground arith) i

validate_rel_path_sound : (rel : Text) → validate_rel_path rel ≡ ok tt → IsBelowTree rel
unfolding validate_rel_path
validate_rel_path_sound rel h = elim (Bool-cases (has_prefix rel tree_prefix)) [
  | inr e ↦ cc (rw e at h)
  | inl e ↦ elim (Bool-cases (text_eq rel tree_prefix)) [
    | inl f ↦ cc (rw (e, f) at h)
    | inr f ↦ (
      e,
      (λ same. cc (f, (text_eq_iff rel tree_prefix).1 same)),
      (validate_filename_iff rel).0 (accepted _ (validate_filename rel) (rw (e, f) at h)),
    )
  ]
]
  where
    accepted : (e : Error) (r : Result (Unit {0})) → as_output e r ≡ ok tt → r ≡ ok tt
    accepted e (ok u) h = h
    accepted e (err x) h = cc

passed : (b : Bool) (e : Error) (u : Unit {0}) → fail_if b e ≡ ok u → b ≡ false
passed true e u h = cc
passed false e u h = refl

module _ (R : Reader) where
  -- The file of an asset: its path, its handle and the size that the handle reports.
  abbrev pub IsFileOf : RescueAsset R → TreeFile R → Type 0
  IsFileOf a f =
      (asset : Asset R) × (a.handle ≡ some asset)
      × (asset.size ≡ pos f.size)
      × (f.rel ≡ a.rel_path)
      × (f.contents ≡ streamed asset)

  abbrev pub AreFilesOf : List (RescueAsset R) → List (TreeFile R) → Type 0
  AreFilesOf [] [] = Unit
  AreFilesOf (a ∷ assets) (f ∷ fs) = IsFileOf a f × AreFilesOf assets fs
  AreFilesOf [] (f ∷ fs) = ⊥
  AreFilesOf (a ∷ assets) [] = ⊥

  abbrev pub rels : List (TreeFile R) → List Text
  rels [] = []
  rels (f ∷ fs) = f.rel ∷ rels fs

  sized_file_sound :
      (rel : Text) (asset : Asset R) (z : ℤ) (f : TreeFile R)
      → sized_file R rel asset z ≡ ok f
      → (z ≡ pos f.size) × (f.rel ≡ rel) × (f.contents ≡ streamed asset)
  unfolding sized_file
  sized_file_sound rel asset (pos n) f h =
      let file : TreeFile R = record { rel = rel; size = n; contents = streamed asset } in
      let same : f ≡ file = cc h in
      (
        ap (λ (g : TreeFile R). pos g.size) (sym same),
        ap (λ (g : TreeFile R). g.rel) same,
        ap (λ (g : TreeFile R). g.contents) same,
      )
  sized_file_sound rel asset (negsuc n) f h = cc

  asset_file_sound :
      (a : RescueAsset R) (o : Option (Asset R)) (f : TreeFile R)
      → a.handle ≡ o
      → asset_file R a.rel_path o ≡ ok f
      → IsFileOf a f
  unfolding asset_file
  asset_file_sound a none f e h = cc
  asset_file_sound a (some asset) f e h =
      let (size, rel, contents) = sized_file_sound a.rel_path asset asset.size f h in
      (asset, e, size, rel, contents)

  -- The files of some assets, none of which is staged already.
  pub record IsStaged (seen : List Text) (assets : List (RescueAsset R)) (files : List (TreeFile R))
      : Type 0 where
    pub below : All IsBelowTree (rels files)
    pub distinct : Distinct (rels files)
    pub matched : AreFilesOf assets files
    pub fresh : (x : Text) → In x (rels files) → ¬ (In x seen)

  cons-IsStaged :
      (seen : List Text) (a : RescueAsset R) (assets : List (RescueAsset R)) (f : TreeFile R)
      (fs : List (TreeFile R))
      → IsBelowTree a.rel_path
      → ¬ (In a.rel_path seen)
      → IsFileOf a f
      → IsStaged (a.rel_path ∷ seen) assets fs
      → IsStaged seen (a ∷ assets) (f ∷ fs)
  cons-IsStaged seen a assets f fs below new (asset, handle, size, rel, contents) rest = record {
    below = (subst (λ r. IsBelowTree r) (sym rel) below, rest.below);
    distinct = ((λ i. rest.fresh f.rel i (inl rel)), rest.distinct);
    matched = ((asset, handle, size, rel, contents), rest.matched);
    fresh = λ x i j. elim i [
      | inl e ↦ new (subst (λ r. In r seen) (e ∙ rel) j)
      | inr i' ↦ rest.fresh x i' (inr j)
    ];
  }

  stage_assets-IsStaged :
      (seen : List Text) (assets : List (RescueAsset R)) (files : List (TreeFile R))
      → stage_assets R seen assets ≡ ok files
      → IsStaged seen assets files
  unfolding stage_assets
  stage_assets-IsStaged seen [] files h =
      let none_left : [] ≡ files = cc h in
      subst (λ l. IsStaged seen [] l) none_left
        (record { below = tt; distinct = tt; matched = tt; fresh = λ x i. absurd i })
  stage_assets-IsStaged seen (a ∷ assets) files h =
      ok_elim (validate_rel_path a.rel_path) _ h λ u checked h₁.
        ok_elim (fail_if (mem a.rel_path seen) _) _ h₁ λ v new h₂.
          ok_elim (asset_file R a.rel_path a.handle) _ h₂ λ f found h₃.
            ok_elim (stage_assets R (a.rel_path ∷ seen) assets) _ h₃ λ fs staged h₄.
              let whole : f ∷ fs ≡ files = cc h₄ in
              subst (λ l. IsStaged seen (a ∷ assets) l) whole
                (cons-IsStaged seen a assets f fs (validate_rel_path_sound a.rel_path checked)
                  (not_staged a.rel_path seen (passed (mem a.rel_path seen) _ v new))
                  (asset_file_sound a a.handle f refl found)
                  (stage_assets-IsStaged (a.rel_path ∷ seen) assets fs staged))

  json-IsBelowTree : IsBelowTree update_json_path
  json-IsBelowTree = validate_rel_path_sound update_json_path accepted
    where
      accepted : validate_rel_path update_json_path ≡ ok tt
      accepted =
          unfold validate_rel_path has_prefix text_eq validate_filename check_segments valid_ident
            split mem_byte in
          refl

  sjson-IsBelowTree : IsBelowTree update_sjson_path
  sjson-IsBelowTree = validate_rel_path_sound update_sjson_path accepted
    where
      accepted : validate_rel_path update_sjson_path ≡ ok tt
      accepted =
          unfold validate_rel_path has_prefix text_eq validate_filename check_segments valid_ident
            split mem_byte in
          refl

  json-ne-sjson : update_json_path ≢ update_sjson_path
  json-ne-sjson e = omega (arith, ap (λ (t : Text). length t) e)

  -- What is staged: both documents as they are, the signed one not empty, and then a file for each
  -- asset, of the size that it reports. All paths are different and lie below update/, with safe names
  -- only.
  pub record IsTree (input : RescueInput R) (files : List (TreeFile R)) : Type 0 where
    pub signed : input.update_sjson ≢ []
    pub streams : List (TreeFile R)
    pub listed :
        files
        ≡ document_file R update_json_path input.update_json
          ∷ document_file R update_sjson_path input.update_sjson
          ∷ streams
    pub matched : AreFilesOf input.assets streams
    pub distinct : Distinct (rels files)
    pub below : All IsBelowTree (rels files)

  staged-IsTree :
      (input : RescueInput R) (streams : List (TreeFile R))
      → input.update_sjson ≢ []
      → IsStaged (update_json_path ∷ update_sjson_path ∷ []) input.assets streams
      → IsTree input (
          document_file R update_json_path input.update_json
          ∷ document_file R update_sjson_path input.update_sjson
          ∷ streams)
  staged-IsTree input streams signed staged = record {
    signed = signed;
    streams = streams;
    listed = refl;
    matched = staged.matched;
    distinct = (
      (λ i. elim i [
        | inl e ↦ json-ne-sjson e
        | inr j ↦ staged.fresh update_json_path j (inl refl)
      ]),
      ((λ j. staged.fresh update_sjson_path j (inr (inl refl))), staged.distinct),
    );
    below = (json-IsBelowTree, (sjson-IsBelowTree, staged.below));
  }

  -- If `prepareTree` returns files, the signed document is not empty, and they are the two documents as
  -- they are, of their own sizes, and then one file for each asset, in order, with its path, its handle,
  -- which is not nil, and the size that it reports, which is not negative. The paths of all files are
  -- different and lie below update/, and their segments are safe names.
  pub prepare_tree-IsTree :
      (input : RescueInput R) (files : List (TreeFile R))
      → prepare_tree R input ≡ ok files
      → IsTree input files
  unfolding prepare_tree
  prepare_tree-IsTree input files h =
      ok_elim (fail_if (text_eq input.update_sjson []) _) _ h λ u checked h₁.
        ok_elim (stage_assets R (update_json_path ∷ update_sjson_path ∷ []) input.assets) _ h₁
          λ streams staged h₂.
            let empty : text_eq input.update_sjson [] ≡ false = passed _ _ u checked in
            subst (λ l. IsTree input l) (cc h₂)
              (staged-IsTree input streams
                (λ e. cc (empty, (text_eq_iff input.update_sjson []).1 e))
                (stage_assets-IsStaged _ input.assets streams staged))
