-- ===== src/Media/Dirs/Walked.antt =====
-- The walk upwards from safe paths ends, and the directories that it collects are closed: with each of
-- them stands the directory above it.
use incusos_builder.Base.{
  ℕ, zero, suc, ◌+◌, ◌<◌, ◌≡◌, refl, ap, sym, ◌∙◌, ◌⊎◌, inl, inr, true, false, Option, none, some,
  List, [], ◌∷◌, In, All, length, arith, ◌==◌, Bool-cases, List-cases,
}
use mathlib.Core.Path.{subst}
use incusos_builder.Base.Text.{Text, text_eq, text_eq_iff, split, join, mem, push_head}
use incusos_builder.Base.Segments.{join-split, split-cons}
use incusos_builder.Base.Path.{slash}
use incusos_builder.Update.Validate.Laws.{IsSafeName}
use incusos_builder.Update.Documents.Capped.{Done}
use incusos_builder.Media.Tree.Prepared.{Distinct, not_staged}
use incusos_builder.Media.Dirs.{dir, depth, is_top, add_dir, walk}
use incusos_builder.Media.Dirs.Parents.{init, init-All, dir-join, dir-single, split-join}

-- A path of safe names.
abbrev pub IsSafePath : Text → Type 0
IsSafePath d = All IsSafeName (split slash d)

length-push_head : (c : ℕ) (r : List Text) → 0 < length r → length (push_head c r) ≡ length r
length-push_head c [] h = absurd (omega arith)
length-push_head c (x ∷ r) h = refl

-- One name more than slashes.
depth-split : (d : Text) → length (split slash d) ≡ depth d + 1
unfolding depth
depth-split [] = unfold split in refl
depth-split (c ∷ d) = rw split-cons (elim (Bool-cases (c == slash)) [
  | inl e ↦ rw e (omega (arith, depth-split d))
  | inr e ↦ rw e (
      length-push_head c (split slash d) (omega (arith, depth-split d))
      ∙ omega (arith, depth-split d))
])

length-init : (x : Text) (xs : List Text) → length (init x xs) ≡ length xs
length-init x [] = refl
length-init x (y ∷ ys) = ap (λ n. suc n) (length-init y ys)

-- Above a safe path is the top, or a safe path of fewer names.
abbrev pub IsAbove : Text → Text → Type 0
IsAbove p d = (is_top p ≡ true) ⊎ (IsSafePath p × (depth p < depth d))

names-IsAbove :
    (x : Text) (xs : List Text)
    → All IsSafeName (x ∷ xs)
    → IsAbove (dir (join (slash ∷ []) (x ∷ xs))) (join (slash ∷ []) (x ∷ xs))
names-IsAbove x [] h = inl (ap is_top (dir-single x h.0) ∙ unfold text_eq in refl)
names-IsAbove x (y ∷ ys) h =
    let p : Text = join (slash ∷ []) (init x (y ∷ ys)) in
    let above : dir (join (slash ∷ []) (x ∷ y ∷ ys)) ≡ p = dir-join x y ys h in
    let names : split slash p ≡ init x (y ∷ ys) =
      split-join x (init y ys) (init-All x (y ∷ ys) h) in
    let whole : split slash (join (slash ∷ []) (x ∷ y ∷ ys)) ≡ x ∷ y ∷ ys =
      split-join x (y ∷ ys) h in
    let fewer : depth p < depth (join (slash ∷ []) (x ∷ y ∷ ys)) = omega (
      arith,
      depth-split p,
      depth-split (join (slash ∷ []) (x ∷ y ∷ ys)),
      ap (λ (l : List Text). length l) names,
      ap (λ (l : List Text). length l) whole,
      length-init x (y ∷ ys),
    ) in
    inr (rw above (subst (λ l. All IsSafeName l) (sym names) (init-All x (y ∷ ys) h), fewer))

pub dir-IsAbove : (d : Text) → IsSafePath d → IsAbove (dir d) d
dir-IsAbove d h = elim (List-cases (split slash d)) [
  | inl e ↦ absurd (omega (arith, depth-split d, ap (λ (l : List Text). length l) e))
  | inr (x, xs, e) ↦
      let same : join (slash ∷ []) (x ∷ xs) ≡ d =
        ap (λ l. join (slash ∷ []) l) (sym e) ∙ join-split slash d in
      subst (λ t. IsAbove (dir t) t) same (names-IsAbove x xs (subst (λ l. All IsSafeName l) e h))
]

pub mem_sound : (d : Text) (xs : List Text) → mem d xs ≡ true → In d xs
unfolding mem
mem_sound d [] h = cc
mem_sound d (x ∷ xs) h = elim (Bool-cases (text_eq x d)) [
  | inl e ↦ inl (sym ((text_eq_iff x d).0 e))
  | inr e ↦ inr (mem_sound d xs (rw e at h))
]

add_dir-self : (d : Text) (seen : List Text) → In d (add_dir d seen)
unfolding add_dir
add_dir-self d seen = elim (Bool-cases (mem d seen)) [
  | inl e ↦ rw e (mem_sound d seen e)
  | inr e ↦ rw e (inl refl)
]

add_dir-keeps : (d x : Text) (seen : List Text) → In x seen → In x (add_dir d seen)
unfolding add_dir
add_dir-keeps d x seen i = elim (Bool-cases (mem d seen)) [ inl e ↦ rw e i | inr e ↦ rw e (inr i) ]

add_dir-cases : (d x : Text) (seen : List Text) → In x (add_dir d seen) → (x ≡ d) ⊎ In x seen
unfolding add_dir
add_dir-cases d x seen i = elim (Bool-cases (mem d seen)) [
  | inl e ↦ inr (rw e at i)
  | inr e ↦ rw e at i
]

add_dir-Distinct : (d : Text) (seen : List Text) → Distinct seen → Distinct (add_dir d seen)
unfolding add_dir
add_dir-Distinct d seen h = elim (Bool-cases (mem d seen)) [
  | inl e ↦ rw e h
  | inr e ↦ rw e (not_staged d seen e, h)
]

-- With each directory stands the one above it, unless that is the top.
abbrev pub IsClosed : List Text → Type 0
IsClosed seen = (x : Text) → In x seen → IsSafePath x × ((is_top (dir x) ≡ true) ⊎ In (dir x) seen)

-- The same, but for one directory that is still to be added.
abbrev pub IsClosedUpTo : Text → List Text → Type 0
IsClosedUpTo d seen =
    (x : Text)
    → In x seen
    → IsSafePath x × ((is_top (dir x) ≡ true) ⊎ (In (dir x) seen ⊎ (dir x ≡ d)))

-- A directory that the loop has dealt with: it is the top, or it is collected.
abbrev pub IsCovered : List Text → Text → Type 0
IsCovered seen d = (is_top d ≡ true) ⊎ In d seen

-- What one walk makes of the directories that were collected before.
pub record Walked (d : Text) (seen seen' : List Text) : Type 0 where
  pub closed : IsClosed seen'
  pub distinct : Distinct seen'
  pub kept : (x : Text) → In x seen → In x seen'
  pub covered : IsCovered seen' d

add_dir-IsClosedUpTo :
    (d : Text) (seen : List Text)
    → IsSafePath d
    → IsClosedUpTo d seen
    → IsClosedUpTo (dir d) (add_dir d seen)
add_dir-IsClosedUpTo d seen safe h x i = settled (add_dir-cases d x seen i)
  where
    above :
        (x : Text)
        → (is_top (dir x) ≡ true) ⊎ (In (dir x) seen ⊎ (dir x ≡ d))
        → (is_top (dir x) ≡ true) ⊎ (In (dir x) (add_dir d seen) ⊎ (dir x ≡ dir d))
    above x (inl t) = inl t
    above x (inr (inl j)) = inr (inl (add_dir-keeps d (dir x) seen j))
    above x (inr (inr e)) =
        inr (inl (subst (λ y. In y (add_dir d seen)) (sym e) (add_dir-self d seen)))

    settled :
        (x ≡ d) ⊎ In x seen
        → IsSafePath x × ((is_top (dir x) ≡ true) ⊎ (In (dir x) (add_dir d seen) ⊎ (dir x ≡ dir d)))
    settled (inl e) = (subst (λ y. IsSafePath y) (sym e) safe, inr (inr (ap dir e)))
    settled (inr j) = ((h x j).0, above x (h x j).1)

top-IsClosed : (d : Text) (seen : List Text) → is_top d ≡ true → IsClosedUpTo d seen → IsClosed seen
top-IsClosed d seen t h x i = ((h x i).0, above (h x i).1)
  where
    above :
        (is_top (dir x) ≡ true) ⊎ (In (dir x) seen ⊎ (dir x ≡ d))
        → (is_top (dir x) ≡ true) ⊎ In (dir x) seen
    above (inl e) = inl e
    above (inr (inl j)) = inr j
    above (inr (inr e)) = inl (subst (λ y. is_top y ≡ true) (sym e) t)

Walked-later :
    (d : Text) (seen : List Text) (walked : Option (List Text))
    → Done (Walked (dir d) (add_dir d seen)) walked
    → Done (Walked d seen) walked
Walked-later d seen none h = h
Walked-later d seen (some seen') h = record {
  closed = h.closed;
  distinct = h.distinct;
  kept = λ x i. h.kept x (add_dir-keeps d x seen i);
  covered = inr (h.kept d (add_dir-self d seen));
}

-- The walk ends, since each step takes a name off.
pub walk-Walked :
    (fuel : ℕ) (d : Text) (seen : List Text)
    → 0 < fuel
    → (is_top d ≡ true) ⊎ (IsSafePath d × (depth d + 1 < fuel))
    → IsClosedUpTo d seen
    → Distinct seen
    → Done (Walked d seen) (walk fuel d seen)
unfolding walk
walk-Walked zero d seen m h c distinct = absurd (omega arith)
walk-Walked (suc fuel) d seen m h c distinct = elim (Bool-cases (is_top d)) [
  | inl e ↦
      rw (e, Done)
        record {
          closed = top-IsClosed d seen e c;
          distinct = distinct;
          kept = λ x i. i;
          covered = inl e;
        }
  | inr e ↦
      rw (e, Done)
        (let (safe, less) = below e h in
          Walked-later d seen (walk fuel (dir d) (add_dir d seen)) (
            walk-Walked fuel (dir d) (add_dir d seen) (omega arith) (next less (dir-IsAbove d safe))
              (add_dir-IsClosedUpTo d seen safe c) (add_dir-Distinct d seen distinct)))
]
  where
    below :
        is_top d ≡ false
        → (is_top d ≡ true) ⊎ (IsSafePath d × (depth d + 1 < suc fuel))
        → IsSafePath d × (depth d + 1 < suc fuel)
    below e (inl t) = cc
    below e (inr k) = k

    next :
        depth d + 1 < suc fuel
        → IsAbove (dir d) d
        → (is_top (dir d) ≡ true) ⊎ (IsSafePath (dir d) × (depth (dir d) + 1 < fuel))
    next less (inl t) = inl t
    next less (inr (s, lt)) = inr (s, omega arith)
