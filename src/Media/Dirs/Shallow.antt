-- ===== src/Media/Dirs/Shallow.antt =====
-- The order of the loop in `mkdirParents`: shallow directories first.
use incusos_builder.Base.{
  ◌≤◌, ◌≡◌, sym, ◌⊎◌, inl, inr, true, false, List, [], ◌∷◌, In, All, arith, ◌==◌, Bool-cases,
}
use incusos_builder.Base.Text.{Text}
use incusos_builder.Media.Tree.Prepared.{Distinct}
use incusos_builder.Media.Dirs.{depth, is_before, insert_dir, sort_dirs}

abbrev pub IsShallowFirst : List Text → Type 0
IsShallowFirst [] = Unit
IsShallowFirst (x ∷ xs) = All (λ y. depth x ≤ depth y) xs × IsShallowFirst xs

is_before_sound : (a b : Text) → is_before a b ≡ true → depth a ≤ depth b
unfolding is_before
is_before_sound a b h = elim (Bool-cases (depth a == depth b)) [
  | inl e ↦ ground arith
  | inr e ↦ ground (arith, rw e at h)
]

is_before_complete : (a b : Text) → is_before a b ≡ false → depth b ≤ depth a
unfolding is_before
is_before_complete a b h = elim (Bool-cases (depth a == depth b)) [
  | inl e ↦ ground arith
  | inr e ↦ ground (arith, rw e at h)
]

insert_dir-All :
    (P : Text → Type 0) (d : Text) (xs : List Text) → P d → All P xs → All P (insert_dir d xs)
unfolding insert_dir
insert_dir-All P d [] p h = (p, tt)
insert_dir-All P d (x ∷ xs) p h = elim (Bool-cases (is_before d x)) [
  | inl e ↦ rw e (p, h)
  | inr e ↦ rw e (h.0, insert_dir-All P d xs p h.1)
]

middle_first : {A B C : Type 0} → A ⊎ (B ⊎ C) → B ⊎ (A ⊎ C)
middle_first (inl a) = inr (inl a)
middle_first (inr (inl b)) = inl b
middle_first (inr (inr c)) = inr (inr c)

insert_dir-In : (d x : Text) (xs : List Text) → In x (insert_dir d xs) → (x ≡ d) ⊎ In x xs
unfolding insert_dir
insert_dir-In d x [] i = i
insert_dir-In d x (y ∷ xs) i = elim (Bool-cases (is_before d y)) [
  | inl e ↦ rw e at i
  | inr e ↦
      let split_head : (x ≡ y) ⊎ In x (insert_dir d xs) = rw e at i in
      elim split_head [ inl f ↦ inr (inl f) | inr j ↦ middle_first (inr (insert_dir-In d x xs j)) ]
]

In-insert_dir : (d x : Text) (xs : List Text) → (x ≡ d) ⊎ In x xs → In x (insert_dir d xs)
unfolding insert_dir
In-insert_dir d x [] i = i
In-insert_dir d x (y ∷ xs) i = elim (Bool-cases (is_before d y)) [
  | inl e ↦ rw e i
  | inr e ↦ rw e (elim (middle_first i) [ inl f ↦ inl f | inr j ↦ inr (In-insert_dir d x xs j) ])
]

insert_dir-Distinct :
    (d : Text) (xs : List Text) → ¬ (In d xs) → Distinct xs → Distinct (insert_dir d xs)
unfolding insert_dir
insert_dir-Distinct d [] n h = (n, tt)
insert_dir-Distinct d (x ∷ xs) n h = elim (Bool-cases (is_before d x)) [
  | inl e ↦ rw e (n, h)
  | inr e ↦ rw e (
    (λ i. elim (insert_dir-In d x xs i) [ inl same ↦ n (inl (sym same)) | inr j ↦ h.0 j ]),
    insert_dir-Distinct d xs (λ i. n (inr i)) h.1,
  )
]

All-deeper :
    (d x : Text) (xs : List Text)
    → depth d ≤ depth x
    → All (λ y. depth x ≤ depth y) xs
    → All (λ y. depth d ≤ depth y) xs
All-deeper d x [] le h = tt
All-deeper d x (y ∷ xs) le h = (omega (arith, h.0), All-deeper d x xs le h.1)

insert_dir-IsShallowFirst :
    (d : Text) (xs : List Text) → IsShallowFirst xs → IsShallowFirst (insert_dir d xs)
unfolding insert_dir
insert_dir-IsShallowFirst d [] h = (tt, tt)
insert_dir-IsShallowFirst d (x ∷ xs) h = elim (Bool-cases (is_before d x)) [
  | inl e ↦
      let le : depth d ≤ depth x = is_before_sound d x e in rw e ((le, All-deeper d x xs le h.0), h)
  | inr e ↦ rw e (
    insert_dir-All (λ y. depth x ≤ depth y) d xs (is_before_complete d x e) h.0,
    insert_dir-IsShallowFirst d xs h.1,
  )
]

pub sort_dirs-IsShallowFirst : (ds : List Text) → IsShallowFirst (sort_dirs ds)
unfolding sort_dirs
sort_dirs-IsShallowFirst [] = tt
sort_dirs-IsShallowFirst (d ∷ ds) =
    insert_dir-IsShallowFirst d (sort_dirs ds) (sort_dirs-IsShallowFirst ds)

pub sort_dirs-In : (x : Text) (ds : List Text) → In x (sort_dirs ds) → In x ds
unfolding sort_dirs
sort_dirs-In x [] i = i
sort_dirs-In x (d ∷ ds) i = elim (insert_dir-In d x (sort_dirs ds) i) [
  | inl e ↦ inl e
  | inr j ↦ inr (sort_dirs-In x ds j)
]

pub In-sort_dirs : (x : Text) (ds : List Text) → In x ds → In x (sort_dirs ds)
unfolding sort_dirs
In-sort_dirs x [] i = i
In-sort_dirs x (d ∷ ds) (inl e) = In-insert_dir d x (sort_dirs ds) (inl e)
In-sort_dirs x (d ∷ ds) (inr i) = In-insert_dir d x (sort_dirs ds) (inr (In-sort_dirs x ds i))

pub sort_dirs-Distinct : (ds : List Text) → Distinct ds → Distinct (sort_dirs ds)
unfolding sort_dirs
sort_dirs-Distinct [] h = tt
sort_dirs-Distinct (d ∷ ds) h =
    insert_dir-Distinct d (sort_dirs ds) (λ i. h.0 (sort_dirs-In d ds i))
      (sort_dirs-Distinct ds h.1)
