-- ===== src/Media/Dirs/Collected.antt =====
-- What the walks over all staged files collect.
use incusos_builder.Base.{
  ℕ, ◌+◌, ◌<◌, ◌≡◌, ◌⊎◌, inl, inr, true, Option, none, some, List, [], ◌∷◌, In, All, arith,
  Option-cases,
}
use mathlib.Core.Path.{subst}
use incusos_builder.Base.Text.{Text}
use incusos_builder.Io.{Reader}
use incusos_builder.Update.Documents.Capped.{Done}
use incusos_builder.Media.Tree.{TreeFile}
use incusos_builder.Media.Tree.Prepared.{Distinct}
use incusos_builder.Media.Dirs.{dir, depth, is_top, walk, walk_files}
use incusos_builder.Media.Dirs.Walked.{
  IsSafePath, IsAbove, dir-IsAbove, IsClosed, IsClosedUpTo, IsCovered, Walked, walk-Walked,
}

IsCovered-kept :
    (seen seen' : List Text) (d : Text)
    → ((x : Text) → In x seen → In x seen')
    → IsCovered seen d
    → IsCovered seen' d
IsCovered-kept seen seen' d kept (inl t) = inl t
IsCovered-kept seen seen' d kept (inr i) = inr (kept d i)

IsClosed-UpTo : (d : Text) (seen : List Text) → IsClosed seen → IsClosedUpTo d seen
IsClosed-UpTo d seen h x i = ((h x i).0, above (h x i).1)
  where
    above :
        (is_top (dir x) ≡ true) ⊎ In (dir x) seen
        → (is_top (dir x) ≡ true) ⊎ (In (dir x) seen ⊎ (dir x ≡ d))
    above (inl t) = inl t
    above (inr j) = inr (inl j)

module _ (R : Reader) where
  -- Paths that the fuel is enough for.
  abbrev pub AreWithin : ℕ → List (TreeFile R) → Type 0
  AreWithin fuel files = All (λ f. IsSafePath f.rel × (depth f.rel < fuel)) files

  -- All that the walks leave behind: the directories above all files, and nothing twice.
  pub record Collected (files : List (TreeFile R)) (seen seen' : List Text) : Type 0 where
    pub closed : IsClosed seen'
    pub distinct : Distinct seen'
    pub kept : (x : Text) → In x seen → In x seen'
    pub covered : All (λ f. IsCovered seen' (dir f.rel)) files

  reached :
      (fuel : ℕ) (f : TreeFile R)
      → IsSafePath f.rel × (depth f.rel < fuel)
      → IsAbove (dir f.rel) f.rel
      → (is_top (dir f.rel) ≡ true) ⊎ (IsSafePath (dir f.rel) × (depth (dir f.rel) + 1 < fuel))
  reached fuel f h (inl t) = inl t
  reached fuel f h (inr (s, lt)) = inr (s, omega (arith, h.1))

  then_Collected :
      (f : TreeFile R) (fs : List (TreeFile R)) (seen seen' : List Text) (rest : Option (List Text))
      → Walked (dir f.rel) seen seen'
      → Done (Collected fs seen') rest
      → Done (Collected (f ∷ fs) seen) rest
  then_Collected f fs seen seen' none w h = h
  then_Collected f fs seen seen' (some last) w h = record {
    closed = h.closed;
    distinct = h.distinct;
    kept = λ x i. h.kept x (w.kept x i);
    covered = (IsCovered-kept seen' last (dir f.rel) h.kept w.covered, h.covered);
  }

  pub walk_files-Collected :
      (fuel : ℕ) (files : List (TreeFile R)) (seen : List Text)
      → AreWithin fuel files
      → IsClosed seen
      → Distinct seen
      → Done (Collected files seen) (walk_files R fuel files seen)
  unfolding walk_files
  walk_files-Collected fuel [] seen h c distinct = record {
    closed = c;
    distinct = distinct;
    kept = λ x i. i;
    covered = tt;
  }
  walk_files-Collected fuel (f ∷ fs) seen h c distinct =
      let w : Done (Walked (dir f.rel) seen) (walk fuel (dir f.rel) seen) =
        walk-Walked fuel (dir f.rel) seen (omega (arith, h.0.1))
          (reached fuel f h.0 (dir-IsAbove f.rel h.0.0)) (IsClosed-UpTo (dir f.rel) seen c)
          distinct in
      elim (Option-cases (walk fuel (dir f.rel) seen)) [
        | inl e ↦ absurd (subst (λ o. Done (Walked (dir f.rel) seen) o) e w)
        | inr (seen', e) ↦
            let walked : Walked (dir f.rel) seen seen' =
              subst (λ o. Done (Walked (dir f.rel) seen) o) e w in
            rw (e, Done)
              (then_Collected f fs seen seen' (walk_files R fuel fs seen') walked
                (walk_files-Collected fuel fs seen' h.1 walked.closed walked.distinct))
      ]
