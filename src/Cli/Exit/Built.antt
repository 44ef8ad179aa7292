-- ===== src/Cli/Exit/Built.antt =====
-- The exit code of internal/cli/exit.go for what a build of internal/build/build.go ends with.
use incusos_builder.Base.{
  ℕ, ◌≤◌, ◌≡◌, refl, ◌⊎◌, inl, inr, Bool, true, false, ◌||◌, none, some, List, [], arith,
  Bool-cases,
}
use incusos_builder.Base.Text.{Text}
use incusos_builder.Errdefs.{
  Error, err, is, Wraps, usage, config, decrypt, fetch, version_not_found, output,
}
use incusos_builder.Io.{Reader, Writer, IsReader, IsWriter, Polls}
use incusos_builder.Build.Spec.{Spec, BuildResult}
use incusos_builder.Build.Ports.{Ports}
use incusos_builder.Build.Pipeline.{Renderer, State, run_build}
use incusos_builder.Build.Pipeline.Ends.{Ends, Ends-weaker}
use incusos_builder.Build.Pipeline.Built.{
  Classified, not_resolved, not_fetched, too_large, not_written, not_rendered, IsSource, IsRenderer,
  Stopped, IsBuilt,
}
use incusos_builder.Build.Pipeline.Correct.{run_build_lem}
use incusos_builder.Cli.Exit.{exit_code}

module _ (is_flag_error is_unknown_command_error : Error → Bool) where
  -- An error of the command line.
  abbrev pub IsUsageError : Error → Type 0
  IsUsageError e = Wraps usage e ⊎ ((is_flag_error e ≡ true) ⊎ (is_unknown_command_error e ≡ true))

  abbrev pub IsAcquisitionError : Error → Type 0
  IsAcquisitionError e = Wraps fetch e ⊎ Wraps version_not_found e

  -- The table of the exit codes: an error has the code of the first row that it belongs to.
  pub data Coded (e : Error) : ℕ → Type 0 where
    by_usage : IsUsageError e → Coded e 2
    by_config : ¬ IsUsageError e → Wraps config e → Coded e 3
    by_decrypt : ¬ IsUsageError e → ¬ Wraps config e → Wraps decrypt e → Coded e 4
    by_fetch :
        ¬ IsUsageError e → ¬ Wraps config e → ¬ Wraps decrypt e → IsAcquisitionError e → Coded e 5
    by_output :
        ¬ IsUsageError e
        → ¬ Wraps config e
        → ¬ Wraps decrypt e
        → ¬ IsAcquisitionError e
        → Wraps output e
        → Coded e 6
    by_none :
        ¬ IsUsageError e
        → ¬ Wraps config e
        → ¬ Wraps decrypt e
        → ¬ IsAcquisitionError e
        → ¬ Wraps output e
        → Coded e 1

  abbrev is_usage_error : Error → Bool
  is_usage_error e = is e usage || (is_flag_error e || is_unknown_command_error e)

  usage_sound : (e : Error) → is_usage_error e ≡ true → IsUsageError e
  usage_sound e h = elim (Bool-cases (is e usage)) [
    | inl w ↦ inl w
    | inr w ↦ elim (Bool-cases (is_flag_error e)) [
      | inl f ↦ inr (inl f)
      | inr f ↦ inr (inr (ground (arith, h, w, f)))
    ]
  ]

  usage_absent : (e : Error) → is_usage_error e ≡ false → ¬ IsUsageError e
  usage_absent e h (inl w) = ground (arith, h, w)
  usage_absent e h (inr (inl f)) = ground (arith, h, f)
  usage_absent e h (inr (inr u)) = ground (arith, h, u)

  acquisition_sound :
      (e : Error) → (is e fetch || is e version_not_found) ≡ true → IsAcquisitionError e
  acquisition_sound e h = elim (Bool-cases (is e fetch)) [
    | inl w ↦ inl w
    | inr w ↦ inr (ground (arith, h, w))
  ]

  acquisition_absent :
      (e : Error) → (is e fetch || is e version_not_found) ≡ false → ¬ IsAcquisitionError e
  acquisition_absent e h (inl w) = ground (arith, h, w)
  acquisition_absent e h (inr v) = ground (arith, h, v)

  absent : (b : Bool) → b ≡ false → ¬ (b ≡ true)
  absent b h k = cc

  abbrev code_of : Error → ℕ
  code_of e = exit_code is_flag_error is_unknown_command_error (some e)

  exit_code-Coded : (e : Error) → Coded e (code_of e)
  unfolding exit_code
  exit_code-Coded e = elim (Bool-cases (is_usage_error e)) [
    | inl u ↦ rw u (by_usage (usage_sound e u))
    | inr u ↦ elim (Bool-cases (is e config)) [
      | inl c ↦ rw (u, c) (by_config (usage_absent e u) c)
      | inr c ↦ elim (Bool-cases (is e decrypt)) [
        | inl d ↦ rw (u, c, d) (by_decrypt (usage_absent e u) (absent _ c) d)
        | inr d ↦ elim (Bool-cases (is e fetch || is e version_not_found)) [
          | inl f ↦
              rw (u, c, d, f)
                (by_fetch (usage_absent e u) (absent _ c) (absent _ d) (acquisition_sound e f))
          | inr f ↦ elim (Bool-cases (is e output)) [
            | inl o ↦
                rw (u, c, d, f, o)
                  (by_output (usage_absent e u) (absent _ c) (absent _ d) (acquisition_absent e f)
                    o)
            | inr o ↦
                rw (u, c, d, f, o)
                  (by_none (usage_absent e u) (absent _ c) (absent _ d) (acquisition_absent e f)
                    (absent _ o))
          ]
        ]
      ]
    ]
  ]

  code_of-Classified :
      (spec : Spec) (render : Renderer) (e : Error)
      → Classified spec render e
      → (2 ≤ code_of e) ⊎ (render spec.seeds ≡ err e)
  unfolding exit_code
  code_of-Classified spec render e (not_resolved w) = inl (ground (arith, w))
  code_of-Classified spec render e (not_fetched w) = inl (ground (arith, w))
  code_of-Classified spec render e (too_large w) = inl (ground (arith, w))
  code_of-Classified spec render e (not_written w) = inl (ground (arith, w))
  code_of-Classified spec render e (not_rendered r) = inr r

  -- A build ends, over ports that keep their contracts. If it returns, the exit code is 0. If it fails,
  -- the exit code is that of the first row of the table that its error belongs to: 2 for an error of the
  -- command line, 3 for ErrConfig, 4 for ErrDecrypt, 5 for ErrFetch and ErrVersionNotFound, 6 for
  -- ErrOutput, and 1 for any other; and it is at least 2, unless the error is
  -- the seed renderer's own.
  pub run_build-exit_code :
      (R : Reader) (W : Writer) (content : R.State → List ℕ) (sent : W.State → List ℕ)
      (reads : IsReader R content) (writes : IsWriter W sent) (P : Ports R) (fuel : ℕ)
      (sound : IsSource R W content sent reads writes P fuel) (spec : Spec) (render : Renderer)
      (expected_start : ℕ) (s : State R W P)
      → s.events ≡ []
      → (polls : Polls) (path : Text) → IsRenderer R W content sent reads writes P fuel render
      → Ends R W P
          (λ (e : Error) (t : State R W P).
            Coded e (exit_code is_flag_error is_unknown_command_error (some e))
            × ((2 ≤ exit_code is_flag_error is_unknown_command_error (some e))
                ⊎ (render spec.seeds ≡ err e)))
          (λ (result : BuildResult) (t : State R W P).
            exit_code is_flag_error is_unknown_command_error none ≡ 0)
          (run_build R W P fuel polls spec (some render) path expected_start s)
  unfolding exit_code
  run_build-exit_code R W content sent reads writes P fuel sound spec render start s fresh polls
        path r =
      Ends-weaker R W P (Stopped R W content sent reads writes P spec render start s) _
        (IsBuilt R W content sent reads writes P spec render start s) _
        (run_build R W P fuel polls spec (some render) path start s)
        (λ e t stopped. (exit_code-Coded e, code_of-Classified spec render e stopped.failing))
        (λ result t built. refl)
        (run_build_lem R W content sent reads writes P fuel sound spec render start s fresh polls
          path r)
