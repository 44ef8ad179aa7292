-- ===== src/Build/Resolve/Versions.antt =====
-- The versions that the error of `selectUpdate` lists as available.
use incusos_builder.Base.{
  ◌≡◌, refl, ◌↔◌, inl, inr, Bool, true, false, ◌&&◌, ◌||◌, List, [], ◌∷◌, ◌++◌, arith, In,
  Bool-cases, All,
}
use incusos_builder.Base.Text.{
  Text, text_eq, text_eq_iff, text_lt, text_lt_trans, text_lt_trichotomy, mem,
}
use incusos_builder.Images.{UpdateFull, Index}
use incusos_builder.Build.Resolve.{insert_sorted, sort, collect_versions, channel_versions}
use incusos_builder.Build.Resolve.Best.{InChannel}

-- Each version is below all that follow it: sorted, and without repetition.
abbrev pub IsStrictlySorted : List Text → Type 0
IsStrictlySorted [] = Unit
IsStrictlySorted (x ∷ xs) = All (λ y. text_lt x y ≡ true) xs × IsStrictlySorted xs

pub mem-insert_sorted : (t v : Text) (xs : List Text) → mem t (insert_sorted v xs) ≡ mem t (v ∷ xs)
unfolding mem insert_sorted
mem-insert_sorted t v [] = refl
mem-insert_sorted t v (x ∷ xs) = ground (arith, mem-insert_sorted t v xs)

mem-sort : (t : Text) (xs : List Text) → mem t (sort xs) ≡ mem t xs
unfolding mem sort
mem-sort t [] = refl
mem-sort t (x ∷ xs) = rw mem-insert_sorted (ground (arith, mem-sort t xs))

All-below_trans :
    (x y : Text) (xs : List Text)
    → text_lt x y ≡ true
    → All (λ z. text_lt y z ≡ true) xs
    → All (λ z. text_lt x z ≡ true) xs
All-below_trans x y [] h a = tt
All-below_trans x y (z ∷ xs) h a = (text_lt_trans x y z h a.0, All-below_trans x y xs h a.1)

All-below-insert_sorted :
    (x v : Text) (xs : List Text)
    → text_lt x v ≡ true
    → All (λ z. text_lt x z ≡ true) xs
    → All (λ z. text_lt x z ≡ true) (insert_sorted v xs)
unfolding insert_sorted
All-below-insert_sorted x v [] h a = (h, tt)
All-below-insert_sorted x v (y ∷ xs) h a = ground (arith, All-below-insert_sorted x v xs h a.1)

insert_sorted-IsStrictlySorted :
    (v : Text) (xs : List Text)
    → mem v xs ≡ false
    → IsStrictlySorted xs
    → IsStrictlySorted (insert_sorted v xs)
unfolding insert_sorted mem
insert_sorted-IsStrictlySorted v [] fresh s = (tt, tt)
insert_sorted-IsStrictlySorted v (x ∷ xs) fresh s = elim (Bool-cases (text_lt x v)) [
  | inl below ↦ rw below (
    All-below-insert_sorted x v xs below s.0,
    insert_sorted-IsStrictlySorted v xs (ground arith) s.1,
  )
  | inr not_below ↦
      let above : text_lt v x ≡ true = elim (Bool-cases (text_lt v x)) [
        | inl e ↦ e
        | inr e ↦
            let same : x ≡ v = text_lt_trichotomy x v not_below e in
            cc ((text_eq_iff x v).1 same, fresh_head fresh)
      ] in
      rw not_below ((above, All-below_trans v x xs above s.0), s)
]
  where
    fresh_head : mem v (x ∷ xs) ≡ false → text_eq x v ≡ false
    fresh_head h = ground arith

abbrev pub Distinct : List Text → Type 0
Distinct [] = Unit
Distinct (x ∷ xs) = (mem x xs ≡ false) × Distinct xs

sort-IsStrictlySorted : (xs : List Text) → Distinct xs → IsStrictlySorted (sort xs)
unfolding sort
sort-IsStrictlySorted [] d = tt
sort-IsStrictlySorted (x ∷ xs) d =
    insert_sorted-IsStrictlySorted x (sort xs) (rw mem-sort d.0) (sort-IsStrictlySorted xs d.1)

mem-append_single :
    (t v : Text) (xs : List Text) → mem t (xs ++ (v ∷ [])) ≡ (mem t xs || text_eq v t)
unfolding mem
mem-append_single t v [] = ground arith
mem-append_single t v (x ∷ xs) = ground (arith, mem-append_single t v xs)

Distinct-append_single :
    (v : Text) (xs : List Text) → mem v xs ≡ false → Distinct xs → Distinct (xs ++ (v ∷ []))
unfolding mem
Distinct-append_single v [] h d = (refl, tt)
Distinct-append_single v (x ∷ xs) h d = (
  rw mem-append_single (ground (arith, text_eq_iff v x, text_eq_iff x v, d.0)),
  Distinct-append_single v xs (ground arith) d.1,
)

collect-Distinct :
    (channel : Text) (seen : List Text) (us : List UpdateFull)
    → Distinct seen
    → Distinct (collect_versions channel seen us)
unfolding collect_versions
collect-Distinct channel seen [] d = d
collect-Distinct channel seen (u ∷ us) d = elim (Bool-cases (mem channel u.channels)) [
  | inr outside ↦ rw outside (collect-Distinct channel seen us d)
  | inl member ↦ elim (Bool-cases (mem u.version seen)) [
    | inl old ↦ rw (member, old) (collect-Distinct channel seen us d)
    | inr new ↦
        rw (member, new)
          (collect-Distinct channel (seen ++ (u.version ∷ [])) us
            (Distinct-append_single u.version seen new d))
  ]
]

-- An update of the channel has this version.
abbrev pub Published : Text → List UpdateFull → Text → Type 0
Published channel us t = (u : UpdateFull) × In u us × InChannel channel u × (u.version ≡ t)

published : Text → List UpdateFull → Text → Bool
published channel [] t = false
published channel (u ∷ us) t =
    (mem channel u.channels && text_eq u.version t) || published channel us t

published_iff :
    (channel : Text) (us : List UpdateFull) (t : Text)
    → (published channel us t ≡ true) ↔ Published channel us t
unfolding published
published_iff channel [] t = (λ h. cc, λ h. absurd h.1)
published_iff channel (u ∷ us) t =
    let rest = published_iff channel us t in
    (
      λ h. elim (Bool-cases (mem channel u.channels && text_eq u.version t)) [
        | inl e ↦ (u, inl refl, ground arith, (text_eq_iff u.version t).0 (ground arith))
        | inr e ↦ let r = rest.0 (ground arith) in (r.0, inr r.1, r.2, r.3)
      ],
      λ p. elim (p.1) [
        | inl e ↦ ground (arith, rw e at (p.2), (text_eq_iff u.version t).1 (rw e at (p.3)))
        | inr n ↦ ground (arith, rest.1 (p.0, n, p.2, p.3))
      ],
    )

mem-collect_versions :
    (channel : Text) (seen : List Text) (us : List UpdateFull) (t : Text)
    → mem t (collect_versions channel seen us) ≡ (mem t seen || published channel us t)
unfolding collect_versions published
mem-collect_versions channel seen [] t = ground arith
mem-collect_versions channel seen (u ∷ us) t = ground (
  arith,
  mem-collect_versions channel seen us t,
  mem-collect_versions channel (seen ++ (u.version ∷ [])) us t,
  mem-append_single t u.version seen,
  text_eq_iff u.version t,
)

-- The versions listed as available are those of the channel's updates, each once, in order.
pub channel_versions_lem :
    (index : Index) (channel : Text)
    → IsStrictlySorted (channel_versions index channel)
      × ((t : Text)
          → (mem t (channel_versions index channel) ≡ true) ↔ Published channel index.updates t)
unfolding channel_versions
channel_versions_lem index channel = (
  sort-IsStrictlySorted _ (collect-Distinct channel [] index.updates tt),
  λ t. rw (mem-sort, mem-collect_versions) (unfold mem in published_iff channel index.updates t),
)
