-- ===== src/Base/Segments.antt =====
-- Splitting a text at a separator and joining it again, and what is said of all its segments.
use incusos_builder.Base.{
  ℕ, ◌≡◌, refl, Bool, true, false, not, List, [], ◌∷◌, ◌++◌, arith, all, if◌then◌else◌, ◌==◌,
  Bool-cases, inl, inr,
}
use incusos_builder.Base.Text.{Text, split, join, push_head}

abbrev pub NonEmpty {ℓ} : {A : Type ℓ} → List A → Type 0
NonEmpty [] = ⊥
NonEmpty (x ∷ xs) = Unit

pub split-NonEmpty : (sep : ℕ) (s : Text) → NonEmpty (split sep s)
unfolding split
split-NonEmpty sep [] = tt
split-NonEmpty sep (c ∷ s) = go (c == sep) (split sep s)
  where
    go : (b : Bool) (r : List Text) → NonEmpty (if b then [] ∷ r else push_head c r)
    go true r = tt
    go false [] = tt
    go false (x ∷ r) = tt

join-push_head : (c : ℕ) (sep : Text) (r : List Text) → join sep (push_head c r) ≡ c ∷ join sep r
unfolding join
join-push_head c sep [] = refl
join-push_head c sep (x ∷ []) = refl
join-push_head c sep (x ∷ y ∷ r) = refl

join-nil_cons : (sep : Text) (r : List Text) → NonEmpty r → join sep ([] ∷ r) ≡ sep ++ join sep r
unfolding join
join-nil_cons sep [] h = absurd h
join-nil_cons sep (x ∷ r) h = refl

pub split-cons :
    (sep c : ℕ) (s : Text)
    → split sep (c ∷ s) ≡ (if c == sep then [] ∷ split sep s else push_head c (split sep s))
unfolding split
split-cons sep c s = refl

-- Joining the segments of a split gives the text back.
pub join-split : (sep : ℕ) (s : Text) → join (sep ∷ []) (split sep s) ≡ s
join-split sep [] = unfold split join in refl
join-split sep (c ∷ s) = rw split-cons (elim (Bool-cases (c == sep)) [
  | inl e ↦ rw e (
      rw (join-nil_cons (sep ∷ []) (split sep s) (split-NonEmpty sep s))
        (rw (join-split sep s) (ground arith)))
  | inr e ↦ rw e (rw join-push_head (rw (join-split sep s)))
])

-- The segments of `x`, a separator, `s`, for an `x` without separators.
pub split-append_sep :
    (sep : ℕ) (x s : Text)
    → all (λ c. not (c == sep)) x ≡ true
    → split sep (x ++ (sep ∷ s)) ≡ x ∷ split sep s
split-append_sep sep [] s h = rw split-cons (ground arith)
split-append_sep sep (c ∷ x) s h = rw split-cons (ground (arith, split-append_sep sep x s))

-- A text without separators is its own only segment.
pub split_single : (sep : ℕ) (x : Text) → all (λ c. not (c == sep)) x ≡ true → split sep x ≡ x ∷ []
split_single sep [] h = unfold split in refl
split_single sep (c ∷ x) h = rw split-cons (ground (arith, split_single sep x))
