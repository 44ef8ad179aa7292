-- ===== src/Build/Pipeline/Checks.antt =====
-- The checks of a build, by their outcomes.
use incusos_builder.Base.{
  ℕ, ◌≤◌, ◌≡◌, refl, inl, inr, List, length, take, All, Bool-cases, arith, ltb,
}
use incusos_builder.Errdefs.{
  Error, Sentinel, Result, ok, err, Wraps, FailsWith, config, fetch, is-join, is-errorf, join,
  sentinel,
}
use incusos_builder.Run.{Run, done}
use incusos_builder.Build.Probe.{Stream, SeedPartition, probe, gpt_head_limit}
use incusos_builder.Build.Probe.Exact.{IsByte, IsSeedData, probe-Probed}
use incusos_builder.Build.Pipeline.{check_rendered_seed_size, check_fits}

-- `probe` on what the handle's `Open` gives.
pub probe_panics :
    (opened : Result Stream) (expected : ℕ)
    → ((r : Stream) → opened ≡ ok r → All IsByte r.content)
    → probe opened expected ≡ Run.panicked
    → ⊥
unfolding probe
probe_panics (err e) expected bytes h = cc
probe_panics (ok r) expected bytes h = rw h at (probe-Probed r expected (bytes r refl))

pub probe_failed :
    (opened : Result Stream) (expected : ℕ) (e : Error)
    → ((r : Stream) → opened ≡ ok r → All IsByte r.content)
    → probe opened expected ≡ Run.failed e
    → Wraps fetch e
unfolding probe
probe_failed (err e') expected e bytes h =
    let same : join (sentinel fetch) e' ≡ e = cc in rw (← same) (is-join fetch e')
probe_failed (ok r) expected e bytes h = rw h at (probe-Probed r expected (bytes r refl))

pub probe_done :
    (opened : Result Stream) (expected : ℕ) (part : SeedPartition)
    → ((r : Stream) → opened ≡ ok r → All IsByte r.content)
    → probe opened expected ≡ done part
    → (r : Stream) × (opened ≡ ok r)
      × (part.start_byte ≡ expected)
      × IsSeedData (take gpt_head_limit r.content) part
unfolding probe
probe_done (err e) expected part bytes h = cc
probe_done (ok r) expected part bytes h =
    let p = rw h at (probe-Probed r expected (bytes r refl)) in (r, refl, p.0, p.1)

pub check_rendered_seed_size_ok :
    (n : ℕ) (tar : List ℕ)
    → n ≡ length tar
    → (e : Error) → check_rendered_seed_size n tar ≡ err e
    → ⊥
unfolding check_rendered_seed_size
check_rendered_seed_size_ok n tar same e h = ground arith

pub check_fits_ok : (n capacity : ℕ) → check_fits n capacity ≡ ok tt → n ≤ capacity
unfolding check_fits
check_fits_ok n capacity h = ground arith

pub check_fits-FailsWith : (n capacity : ℕ) → FailsWith config (check_fits n capacity)
unfolding check_fits
check_fits-FailsWith n capacity = elim (Bool-cases (ltb capacity n)) [
  | inl large ↦ rw large (is-errorf config _)
  | inr small ↦ rw small tt
]

-- An error of a call that fails only with one sentinel wraps it.
pub Wraps-of :
    {A : Type 0} (k : Sentinel) (r : Result A) (e : Error) → FailsWith k r → r ≡ err e → Wraps k e
Wraps-of k r e f h = rw h at f
