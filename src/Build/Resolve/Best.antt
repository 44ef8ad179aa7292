-- ===== src/Build/Resolve/Best.antt =====
-- The loop of `selectUpdate` without indices: the update that the index would name.
use incusos_builder.Base.{
  ℕ, suc, ◌+◌, ◌≡◌, refl, ◌≢◌, ◌⊎◌, inl, inr, true, false, not, ◌&&◌, Option, none, some, List, [],
  ◌∷◌, get_elem?, if◌then◌else◌, arith, In, Bool-cases,
}
use incusos_builder.Base.Text.{
  Text, text_eq, text_eq_iff, text_lt, text_lt_irrefl, text_lt_trans, text_nlt_trans, mem,
}
use incusos_builder.Images.{UpdateFull}
use incusos_builder.Build.Resolve.{select_loop}

-- The update belongs to the channel.
abbrev pub InChannel : Text → UpdateFull → Type 0
InChannel channel u = mem channel u.channels ≡ true

pub best : Text → Text → List UpdateFull → Text → Option UpdateFull → Option UpdateFull
best channel pin [] highest found = found
best channel pin (u ∷ us) highest found =
    let skip = best channel pin us highest found in
    let higher = best channel pin us u.version (some u) in
    if not (mem channel u.channels)
    then skip
    else if not (text_eq pin []) && text_eq u.version pin
    then some u
    else if text_lt highest u.version
    then higher
    else skip

abbrev pub at_index : List UpdateFull → Option ℕ → Option UpdateFull
at_index all none = none
at_index all (some i) = get_elem? all i

-- `rest` is what stands in `all` from position `i` on.
abbrev pub Tail : List UpdateFull → ℕ → List UpdateFull → Type 0
Tail all i rest = (k : ℕ) → get_elem? all (i + k) ≡ get_elem? rest k

Tail-head :
    (all : List UpdateFull) (i : ℕ) (u : UpdateFull) (us : List UpdateFull)
    → Tail all i (u ∷ us)
    → get_elem? all i ≡ some u
Tail-head all i u us h = let e : i + 0 ≡ i = omega arith in rw e at (h 0)

Tail-Tail :
    (all : List UpdateFull) (i : ℕ) (u : UpdateFull) (us : List UpdateFull)
    → Tail all i (u ∷ us)
    → Tail all (i + 1) us
Tail-Tail all i u us h k = let e : i + suc k ≡ i + 1 + k = omega arith in rw e at (h (suc k))

pub at_index-select_loop :
    (channel pin : Text) (all : List UpdateFull) (i : ℕ) (us : List UpdateFull) (highest : Text)
    (found : Option ℕ)
    → Tail all i us
    → at_index all (select_loop channel pin i us highest found)
      ≡ best channel pin us highest (at_index all found)
unfolding select_loop best
at_index-select_loop channel pin all i [] highest found h = refl
at_index-select_loop channel pin all i (u ∷ us) highest found h = ground (
  arith,
  Tail-head all i u us h,
  at_index-select_loop channel pin all (i + 1) us highest found (Tail-Tail all i u us h),
  at_index-select_loop channel pin all (i + 1) us u.version (some i) (Tail-Tail all i u us h),
)

-- The first update of the channel whose version is the pin.
pub first_pinned : Text → Text → List UpdateFull → Option UpdateFull
first_pinned channel pin [] = none
first_pinned channel pin (u ∷ us) =
    let rest = first_pinned channel pin us in
    if mem channel u.channels && text_eq u.version pin then some u else rest

pub first_pinned_version :
    (channel pin : Text) (us : List UpdateFull) (u : UpdateFull)
    → first_pinned channel pin us ≡ some u
    → text_eq u.version pin ≡ true
unfolding first_pinned
first_pinned_version channel pin [] u h = cc
first_pinned_version channel pin (v ∷ us) u h =
    ground (arith, first_pinned_version channel pin us u)

pub best_pinned :
    (channel pin : Text) (us : List UpdateFull) (highest : Text) (found : Option UpdateFull)
    (u : UpdateFull)
    → pin ≢ []
    → first_pinned channel pin us ≡ some u
    → best channel pin us highest found ≡ some u
unfolding best first_pinned
best_pinned channel pin [] highest found u ne h = cc
best_pinned channel pin (v ∷ us) highest found u ne h = ground (
  arith,
  text_eq_iff pin [],
  best_pinned channel pin us highest found u ne,
  best_pinned channel pin us v.version (some v) u ne,
)

-- With no update that has the pinned version, whatever the loop finds has another version.
pub best_unpinned :
    (channel pin : Text) (us : List UpdateFull) (highest : Text) (found : Option UpdateFull)
    (u : UpdateFull)
    → first_pinned channel pin us ≡ none
    → ((v : UpdateFull) → found ≡ some v → text_eq v.version pin ≡ false)
    → best channel pin us highest found ≡ some u
    → text_eq u.version pin ≡ false
unfolding best first_pinned
best_unpinned channel pin [] highest found u none_pinned other h = other u h
best_unpinned channel pin (v ∷ us) highest found u none_pinned other h =
    elim (Bool-cases (mem channel v.channels)) [
      | inl member ↦ elim (Bool-cases (text_eq v.version pin)) [
        | inl same ↦ ground arith
        | inr differs ↦ elim (Bool-cases (text_lt highest v.version)) [
          | inl higher ↦
              best_unpinned channel pin us v.version (some v) u (ground arith) (λ w e. ground arith)
                (ground arith)
          | inr lower ↦
              best_unpinned channel pin us highest found u (ground arith) other (ground arith)
        ]
      ]
      | inr outside ↦
          best_unpinned channel pin us highest found u (ground arith) other (ground arith)
    ]

-- What a `found` update must be while the loop has none pinned: its version is `highest`.
abbrev pub Tracks : Text → Option UpdateFull → Type 0
Tracks highest none = highest ≡ []
Tracks highest (some u) = u.version ≡ highest

-- What the loop guarantees of its result, from the updates that it has still to see.
pub record Highest (channel : Text) (us : List UpdateFull) (highest : Text)
    (found : Option UpdateFull) (u : UpdateFull) : Type 0 where
  pub source : (found ≡ some u) ⊎ (In u us × InChannel channel u)
  pub above_old : text_lt u.version highest ≡ false
  pub above_all :
      (v : UpdateFull) → In v us → InChannel channel v → text_lt u.version v.version ≡ false

-- The update `v` in front is passed over.
skip-Highest :
    (channel : Text) (v : UpdateFull) (us : List UpdateFull) (highest : Text)
    (found : Option UpdateFull) (u : UpdateFull)
    → (InChannel channel v → text_lt u.version v.version ≡ false)
    → Highest channel us highest found u
    → Highest channel (v ∷ us) highest found u
skip-Highest channel v us highest found u below h = record {
  source = elim h.source [ inl e ↦ inl e | inr m ↦ inr (inr m.0, m.1) ];
  above_old = h.above_old;
  above_all = all;
}
  where
    all :
        (w : UpdateFull) → In w (v ∷ us) → InChannel channel w → text_lt u.version w.version ≡ false
    all w (inl e) c = rw e (below (rw e at c))
    all w (inr m) c = h.above_all w m c

-- The update `v` in front becomes the highest.
take-Highest :
    (channel : Text) (v : UpdateFull) (us : List UpdateFull) (highest : Text)
    (found : Option UpdateFull) (u : UpdateFull)
    → InChannel channel v
    → text_lt highest v.version ≡ true
    → Highest channel us v.version (some v) u
    → Highest channel (v ∷ us) highest found u
take-Highest channel v us highest found u member higher h = record {
  source = elim h.source [
    | inl e ↦ let same : u ≡ v = cc in inr (inl same, rw same member)
    | inr m ↦ inr (inr m.0, m.1)
  ];
  above_old = elim (Bool-cases (text_lt u.version highest)) [
    | inl e ↦ cc (text_lt_trans u.version highest v.version e higher, h.above_old)
    | inr e ↦ e
  ];
  above_all = all;
}
  where
    all :
        (w : UpdateFull) → In w (v ∷ us) → InChannel channel w → text_lt u.version w.version ≡ false
    all w (inl e) c = rw e h.above_old
    all w (inr m) c = h.above_all w m c

-- Without a pin the result is an old or a new candidate, no update of the channel is above it, and
-- the old highest version is not either.
pub best-Highest :
    (channel : Text) (us : List UpdateFull) (highest : Text) (found : Option UpdateFull)
    (u : UpdateFull)
    → Tracks highest found
    → best channel [] us highest found ≡ some u
    → Highest channel us highest found u
unfolding best text_eq
best-Highest channel [] highest none u track h = cc
best-Highest channel [] highest (some v) u track h =
    let same : v ≡ u = cc in
    record {
      source = inl h;
      above_old = rw (← track, ← same) (text_lt_irrefl v.version);
      above_all = λ w m c. absurd m;
    }
best-Highest channel (v ∷ us) highest found u track h = elim (Bool-cases (mem channel v.channels)) [
  | inl member ↦ elim (Bool-cases (text_lt highest v.version)) [
    | inl higher ↦
        take-Highest channel v us highest found u member higher
          (best-Highest channel us v.version (some v) u refl (ground arith))
    | inr lower ↦
        let rest = best-Highest channel us highest found u track (ground arith) in
        skip-Highest channel v us highest found u
          (λ c. text_nlt_trans u.version highest v.version rest.above_old lower) rest
  ]
  | inr outside ↦
      skip-Highest channel v us highest found u (λ c. cc)
        (best-Highest channel us highest found u track (ground arith))
]

-- What has been found is never lost.
best-ne-none :
    (channel pin : Text) (us : List UpdateFull) (highest : Text) (u : UpdateFull)
    → best channel pin us highest (some u) ≢ none
unfolding best
best-ne-none channel pin [] highest u h = cc
best-ne-none channel pin (v ∷ us) highest u h =
    ground (arith, best-ne-none channel pin us highest u, best-ne-none channel pin us v.version v)

-- Without a pin nothing is found only if no update of the channel is above `highest`.
pub best-none :
    (channel : Text) (us : List UpdateFull) (highest : Text)
    → best channel [] us highest none ≡ none
    → (v : UpdateFull) → In v us
    → InChannel channel v
    → text_lt highest v.version ≡ false
unfolding best text_eq
best-none channel [] highest h v m c = absurd m
best-none channel (w ∷ us) highest h v (inl e) c = elim (Bool-cases (text_lt highest v.version)) [
  | inr lower ↦ lower
  | inl higher ↦ absurd (best-ne-none channel [] us w.version w (ground arith))
]
best-none channel (w ∷ us) highest h v (inr m) c = elim (Bool-cases (text_lt highest w.version)) [
  | inr lower ↦ best-none channel us highest (ground arith) v m c
  | inl higher ↦ elim (Bool-cases (mem channel w.channels)) [
    | inl member ↦ absurd (best-ne-none channel [] us w.version w (ground arith))
    | inr outside ↦ best-none channel us highest (ground arith) v m c
  ]
]
