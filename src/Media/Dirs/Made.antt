-- ===== src/Media/Dirs/Made.antt =====
-- What `mkdirParents` makes of a file system whose `Mkdir` makes one directory under one that is there.
use incusos_builder.Base.{
  ◌≤◌, ◌<◌, ◌≡◌, refl, sym, ◌⊎◌, inl, inr, true, none, List, [], ◌∷◌, In, All, arith,
}
use mathlib.Core.Path.{subst}
use incusos_builder.Base.Text.{Text}
use incusos_builder.Base.Path.{slash}
use incusos_builder.Errdefs.{Result, ok}
use incusos_builder.Media.Tree.Prepared.{Distinct}
use incusos_builder.Media.Dirs.{dir, depth, is_top, FileSystem, make_dirs}
use incusos_builder.Media.Dirs.Walked.{IsSafePath, IsAbove, dir-IsAbove}
use incusos_builder.Media.Dirs.Shallow.{IsShallowFirst}

member-All : (P : Text → Type 0) (x : Text) (xs : List Text) → All P xs → In x xs → P x
member-All P x [] h i = absurd i
member-All P x (y ∷ xs) h (inl e) = subst P (sym e) h.0
member-All P x (y ∷ xs) h (inr i) = member-All P x xs h.1 i

module _ (F : FileSystem) (Has : F.State → Text → Type 0) where
  abbrev pub after : Text → F.State → F.State
  after d s = (F.mkdir (slash ∷ d) s).1

  -- No error, and one directory more.
  abbrev pub IsOneMade : Text → F.State → Type 0
  IsOneMade d s =
      ((F.mkdir (slash ∷ d) s).0 ≡ none)
      × ((x : Text) → (x ≡ d) ⊎ Has s x → Has (after d s) x)
      × ((x : Text) → Has (after d s) x → (x ≡ d) ⊎ Has s x)

  -- `Mkdir` of a directory that is not there, under one that is: no error, and just that one is added.
  abbrev pub MakesOne : Type 0
  MakesOne =
      (d : Text) (s : F.State) → ¬ Has s d → (is_top (dir d) ≡ true) ⊎ Has s (dir d) → IsOneMade d s

  -- Directories that can be made in this order.
  pub record Buildable (ds : List Text) (s : F.State) : Type 0 where
    pub fresh : (x : Text) → In x ds → ¬ Has s x
    pub distinct : Distinct ds
    pub sorted : IsShallowFirst ds
    pub parents :
        (x : Text)
        → In x ds
        → IsSafePath x × ((is_top (dir x) ≡ true) ⊎ (In (dir x) ds ⊎ Has s (dir x)))

  -- All are made, and nothing else changes.
  pub record Made (ds : List Text) (s : F.State) (r : Result (Unit {0}) × F.State) : Type 0 where
    pub succeeds : r.0 ≡ ok tt
    pub made : (x : Text) → In x ds ⊎ Has s x → Has (r.1) x
    pub only : (x : Text) → Has (r.1) x → In x ds ⊎ Has s x

  -- The directory above the first one is not among the others, which are as deep as it or deeper.
  first_parent :
      (d : Text) (ds : List Text) (s : F.State)
      → Buildable (d ∷ ds) s
      → (is_top (dir d) ≡ true) ⊎ Has s (dir d)
  first_parent d ds s b =
      settled (dir-IsAbove d (b.parents d (inl refl)).0) (b.parents d (inl refl)).1
    where
      among :
          depth (dir d) < depth d
          → In (dir d) (d ∷ ds) ⊎ Has s (dir d)
          → (is_top (dir d) ≡ true) ⊎ Has s (dir d)
      among less (inr h) = inr h
      among less (inl (inl e)) = absurd (omega (arith, subst (λ y. depth y < depth d) e less))
      among less (inl (inr i)) =
          absurd (omega (arith, member-All (λ y. depth d ≤ depth y) (dir d) ds b.sorted.0 i))

      settled :
          IsAbove (dir d) d
          → (is_top (dir d) ≡ true) ⊎ (In (dir d) (d ∷ ds) ⊎ Has s (dir d))
          → (is_top (dir d) ≡ true) ⊎ Has s (dir d)
      settled (inl t) p = inl t
      settled (inr above) (inl t) = inl t
      settled (inr above) (inr i) = among above.1 i

  module _ (makes_one : MakesOne) where
    made_first : (d : Text) (ds : List Text) (s : F.State) → Buildable (d ∷ ds) s → IsOneMade d s
    made_first d ds s b = makes_one d s (b.fresh d (inl refl)) (first_parent d ds s b)

    later-Buildable :
        (d : Text) (ds : List Text) (s : F.State) → Buildable (d ∷ ds) s → Buildable ds (after d s)
    later-Buildable d ds s b = record {
      fresh = λ x i h. elim (step.2 x h) [
        | inl e ↦ b.distinct.0 (subst (λ y. In y ds) e i)
        | inr old ↦ b.fresh x (inr i) old
      ];
      distinct = b.distinct.1;
      sorted = b.sorted.1;
      parents = λ x i. ((b.parents x (inr i)).0, above x (b.parents x (inr i)).1);
    }
      where
        step : IsOneMade d s
        step = made_first d ds s b

        above :
            (x : Text)
            → (is_top (dir x) ≡ true) ⊎ (In (dir x) (d ∷ ds) ⊎ Has s (dir x))
            → (is_top (dir x) ≡ true) ⊎ (In (dir x) ds ⊎ Has (after d s) (dir x))
        above x (inl t) = inl t
        above x (inr (inl (inl e))) = inr (inr (step.1 (dir x) (inl e)))
        above x (inr (inl (inr i))) = inr (inl i)
        above x (inr (inr h)) = inr (inr (step.1 (dir x) (inr h)))

    Made-first :
        (d : Text) (ds : List Text) (s : F.State) (r : Result (Unit {0}) × F.State)
        → Buildable (d ∷ ds) s
        → Made ds (after d s) r
        → Made (d ∷ ds) s r
    Made-first d ds s r b m = record {
      succeeds = m.succeeds;
      made = λ x i. m.made x (sooner x i);
      only = λ x h. elim (m.only x h) [
        | inl i ↦ inl (inr i)
        | inr there ↦ elim (step.2 x there) [ inl e ↦ inl (inl e) | inr old ↦ inr old ]
      ];
    }
      where
        step : IsOneMade d s
        step = made_first d ds s b

        sooner : (x : Text) → In x (d ∷ ds) ⊎ Has s x → In x ds ⊎ Has (after d s) x
        sooner x (inl (inl e)) = inr (step.1 x (inl e))
        sooner x (inl (inr i)) = inl i
        sooner x (inr h) = inr (step.1 x (inr h))

    pub make_dirs-Made :
        (ds : List Text) (s : F.State) → Buildable ds s → Made ds s (make_dirs F ds s)
    unfolding make_dirs
    make_dirs-Made [] s b = record {
      succeeds = refl;
      made = λ x i. elim i [ inl j ↦ absurd j | inr h ↦ h ];
      only = λ x h. inr h;
    }
    make_dirs-Made (d ∷ ds) s b =
        rw ((made_first d ds s b).0, make_dirs)
          (Made-first d ds s (make_dirs F ds (after d s)) b
            (make_dirs-Made ds (after d s) (later-Buildable d ds s b)))
