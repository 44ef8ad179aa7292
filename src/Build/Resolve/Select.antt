-- ===== src/Build/Resolve/Select.antt =====
-- What `selectUpdate` selects: the first update with the pinned version, or the highest version.
use incusos_builder.Base.{
  ℕ, suc, ◌+◌, ◌≡◌, refl, ◌≢◌, ◌↔◌, inl, inr, true, false, not, ◌&&◌, Option, none, some, List, [],
  ◌∷◌, get_elem?, if◌then◌else◌, arith, In, Bool-cases, Option-cases,
}
use incusos_builder.Base.Text.{Text, text_eq, text_eq_iff, text_lt}
use incusos_builder.Errdefs.{
  Result, ok, err, Error, is, is-errorf, version_not_found, Wraps, FailsWith,
}
use incusos_builder.Images.{UpdateFull, Index}
use incusos_builder.Build.Resolve.{select_loop, select_update, not_selected}
use incusos_builder.Build.Resolve.Best.{
  InChannel, best, at_index-select_loop, first_pinned, first_pinned_version, best_pinned,
  best_unpinned, best-Highest, best-none,
}

-- The outcome of the selection, by the update that the loop finds.
abbrev outcome : Index → Text → Text → Option UpdateFull → Result UpdateFull
outcome index channel pin none = err (not_selected index channel pin)
outcome index channel pin (some u) =
    if not (text_eq pin []) && not (text_eq u.version pin)
    then err (not_selected index channel pin)
    else ok u

-- An index that the loop returns lies in the list.
select_loop_found :
    (channel pin : Text) (all : List UpdateFull) (i : ℕ) (us : List UpdateFull) (highest : Text)
    (found : Option ℕ) (j : ℕ)
    → ((k : ℕ) → get_elem? all (i + k) ≡ get_elem? us k)
    → ((k : ℕ) → found ≡ some k → get_elem? all k ≢ none)
    → select_loop channel pin i us highest found ≡ some j
    → get_elem? all j ≢ none
unfolding select_loop
select_loop_found channel pin all i [] highest found j tail fits h = fits j h
select_loop_found channel pin all i (u ∷ us) highest found j tail fits h =
    let here : get_elem? all i ≡ some u = (let e : i + 0 ≡ i = omega arith in rw e at (tail 0)) in
    let next : ((k : ℕ) → get_elem? all (i + 1 + k) ≡ get_elem? us k) =
      (λ k. let e : i + suc k ≡ i + 1 + k = omega arith in rw e at (tail (suc k))) in
    let fresh : ((k : ℕ) → some i ≡ some k → get_elem? all k ≢ none) = (λ k e. cc) in
    ground (
      arith,
      select_loop_found channel pin all (i + 1) us highest found j next fits,
      select_loop_found channel pin all (i + 1) us u.version (some i) j next fresh,
    )

-- The index of the source always names an update: the access cannot panic.
select_update-outcome :
    (index : Index) (channel pin : Text)
    → select_update index channel pin
      ≡ outcome index channel pin (best channel pin index.updates [] none)
unfolding select_update
select_update-outcome index channel pin =
    let all = index.updates in
    let tail : ((k : ℕ) → get_elem? all (0 + k) ≡ get_elem? all k) =
      (λ k. let e : 0 + k ≡ k = omega arith in rw e) in
    let same = at_index-select_loop channel pin all 0 all [] none tail in
    elim (Option-cases (select_loop channel pin 0 all [] none)) [
      | inl e ↦ ground (arith, same)
      | inr (j, e) ↦ elim (Option-cases (get_elem? all j)) [
        | inl out ↦
            absurd (select_loop_found channel pin all 0 all [] none j tail (λ k e'. cc) e out)
        | inr (u, f) ↦ ground (arith, same)
      ]
    ]

not_selected-wraps :
    (index : Index) (channel pin : Text)
    → is (not_selected index channel pin) version_not_found ≡ true
not_selected-wraps index channel pin = elim (Bool-cases (text_eq pin [])) [
  | inl e ↦ rw e (is-errorf version_not_found _)
  | inr e ↦ rw e (is-errorf version_not_found _)
]

outcome-FailsWith :
    (index : Index) (channel pin : Text) (found : Option UpdateFull)
    → FailsWith version_not_found (outcome index channel pin found)
outcome-FailsWith index channel pin none = not_selected-wraps index channel pin
outcome-FailsWith index channel pin (some u) =
    elim (Bool-cases (not (text_eq pin []) && not (text_eq u.version pin))) [
      | inl e ↦ rw e (not_selected-wraps index channel pin)
      | inr e ↦ rw e tt
    ]

-- With a pin, `selectUpdate` returns the first update of the channel that has the pinned version.
-- It fails exactly when the channel has no such update, and then wraps ErrVersionNotFound.
pub select_update_pinned :
    (index : Index) (channel pin : Text)
    → pin ≢ []
    → ((u : UpdateFull)
        → (select_update index channel pin ≡ ok u)
          ↔ (first_pinned channel pin index.updates ≡ some u))
      × FailsWith version_not_found (select_update index channel pin)
select_update_pinned index channel pin ne = (
  λ u. (
    λ h. elim (Option-cases (first_pinned channel pin index.updates)) [
      | inl none_pinned ↦ ground (
        arith,
        select_update-outcome index channel pin,
        text_eq_iff pin [],
        best_unpinned channel pin index.updates [] none u none_pinned (λ v e. cc),
      )
      | inr (v, f) ↦ ground (
        arith,
        select_update-outcome index channel pin,
        best_pinned channel pin index.updates [] none v ne f,
      )
    ],
    λ f. ground (
      arith,
      select_update-outcome index channel pin,
      best_pinned channel pin index.updates [] none u ne f,
      first_pinned_version channel pin index.updates u f,
    ),
  ),
  rw select_update-outcome (outcome-FailsWith index channel pin _),
)

outcome_unpinned :
    (index : Index) (channel : Text) (found : Option UpdateFull) (u : UpdateFull)
    → outcome index channel [] found ≡ ok u
    → found ≡ some u
unfolding text_eq
outcome_unpinned index channel none u h = cc
outcome_unpinned index channel (some v) u h = ground arith

outcome-none :
    (index : Index) (channel : Text) (found : Option UpdateFull) (e : Error)
    → outcome index channel [] found ≡ err e
    → found ≡ none
unfolding text_eq
outcome-none index channel none e h = refl
outcome-none index channel (some v) e h = cc

outcome_failed :
    (index : Index) (channel : Text) (found : Option UpdateFull) (e : Error)
    → outcome index channel [] found ≡ err e
    → Wraps version_not_found e
unfolding text_eq
outcome_failed index channel none e h =
    let same : e ≡ not_selected index channel [] = cc in
    rw same (not_selected-wraps index channel [])
outcome_failed index channel (some v) e h = cc

-- The empty text is above nothing else.
not_above : (v : Text) → text_lt [] v ≡ false → v ≡ []
unfolding text_lt
not_above [] h = refl
not_above (c ∷ v) h = cc

-- The update is in the channel, and no update of the channel has a higher version.
pub record IsHighest (channel : Text) (us : List UpdateFull) (u : UpdateFull) : Type 0 where
  pub listed : In u us
  pub member : InChannel channel u
  pub highest :
      (v : UpdateFull) → In v us → InChannel channel v → text_lt u.version v.version ≡ false

-- Without a pin, what `selectUpdate` returns is an update of the channel whose version no other
-- update of the channel exceeds in the order of strings.
pub select_update-IsHighest :
    (index : Index) (channel : Text) (u : UpdateFull)
    → select_update index channel [] ≡ ok u
    → IsHighest channel index.updates u
select_update-IsHighest index channel u h =
    let found : best channel [] index.updates [] none ≡ some u =
      outcome_unpinned index channel _ u (rw select_update-outcome at h) in
    let r = best-Highest channel index.updates [] none u refl found in
    record {
      listed = elim r.source [ inl e ↦ cc | inr m ↦ m.0 ];
      member = elim r.source [ inl e ↦ cc | inr m ↦ m.1 ];
      highest = r.above_all;
    }

-- Without a pin, `selectUpdate` fails only if all updates of the channel have an empty version, and
-- its error wraps ErrVersionNotFound.
pub select_update_none :
    (index : Index) (channel : Text) (e : Error)
    → select_update index channel [] ≡ err e
    → Wraps version_not_found e
      × ((v : UpdateFull) → In v index.updates → InChannel channel v → v.version ≡ [])
select_update_none index channel e h =
    let out = rw select_update-outcome at h in
    (
      outcome_failed index channel _ e out,
      λ v m c.
          not_above v.version
            (best-none channel index.updates [] (outcome-none index channel _ e out) v m c),
    )

-- Every failure of the selection wraps ErrVersionNotFound.
pub select_update-FailsWith :
    (index : Index) (channel pin : Text)
    → FailsWith version_not_found (select_update index channel pin)
select_update-FailsWith index channel pin =
    rw select_update-outcome (outcome-FailsWith index channel pin _)
