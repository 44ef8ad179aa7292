-- ===== src/Build/Splice/Whole.antt =====
-- `splice` writes the spliced image: its steps put together.
use incusos_builder.Base.{
  ℕ, ◌-◌, ◌≤◌, ◌<◌, ◌≡◌, refl, sym, ◌∙◌, ap, Option, none, some, List, ◌++◌, length, length-drop,
  take, drop, arith, Option-cases, inl, inr,
}
use incusos_builder.Errdefs.{Error, Result, ok, err, fetch, sentinel, join}
use incusos_builder.Io.{Reader, Writer, IsReader, IsWriter, Polls}
use incusos_builder.Build.Splice.{
  Streams, copy_n, write_all, discard_n, copy_all, and_then, after_skip, add_written, wrap_output,
  splice_streams, splice,
}
use incusos_builder.Build.Splice.Spliced.{prefix_image, IsSplice}
use incusos_builder.Build.Splice.Loops.{Yields, CopiesUpTo}
use incusos_builder.Build.Splice.CopyN.{copy_n-CopiesUpTo}
use incusos_builder.Build.Splice.Chains.{Yields-and_then}
use incusos_builder.Build.Splice.Behind.{failed_outcome, Outcome, skip_rest}
use incusos_builder.Build.Splice.Tar.{WroteTar, write_all-WroteTar}

module _ (R : Reader) (W : Writer) (content : R.State → List ℕ) (sent : W.State → List ℕ)
    (reads : IsReader R content) (writes : IsWriter W sent) where
  -- The steps from the tar on.
  tar_rest :
      (fuel offset written : ℕ) (tar image before : List ℕ) (s : Streams R W)
      → offset ≤ length image
      → written ≡ offset
      → content s.source ≡ drop offset image
      → sent s.sink ≡ before ++ take offset image
      → length (content s.source) < fuel
      → length tar < fuel
      → Yields R W content sent reads writes
          (Outcome R W content sent reads writes offset tar image before)
          (and_then R W
            (add_written R W written (wrap_output R W (write_all R W fuel tar 0 s)))
            (λ n s₂.
              after_skip R W n
                (discard_n R W fuel (length tar) 0 s₂)
                (λ s₃. add_written R W n (copy_all R W fuel 0 s₃))))
  tar_rest fuel offset written tar image before s fits count source sink enough enough_tar =
      Yields-and_then R W content sent reads writes
        (WroteTar R W content sent reads writes offset tar image before s)
        (Outcome R W content sent reads writes offset tar image before)
        (add_written R W written (wrap_output R W (write_all R W fuel tar 0 s)))
        (λ n s₂.
          after_skip R W n (discard_n R W fuel (length tar) 0 s₂)
            (λ s₃. add_written R W n (copy_all R W fuel 0 s₃)))
        (rw count (
          write_all-WroteTar R W content sent reads writes fuel offset tar image before s fits sink
            enough_tar))
        (λ c e w bad.
          failed_outcome R W content sent reads writes offset tar image before (sent c.streams.sink)
            c.written e w.prefix (inr (w.failing e bad)))
        (λ c w good.
          skip_rest R W content sent reads writes fuel offset c.written tar image before c.streams
            fits (w.completes good).0 (ap content w.same ∙ source) (w.completes good).1
            (omega (arith, ap length (ap content w.same), enough)))

  splice_streams-IsSplice :
      (fuel offset : ℕ) (tar : List ℕ) (s : Streams R W)
      → length (content s.source) < fuel
      → length tar < fuel
      → Yields R W content sent reads writes
          (Outcome R W content sent reads writes offset tar (content s.source) (sent s.sink))
          (splice_streams R W fuel offset tar s)
  unfolding splice_streams
  splice_streams-IsSplice fuel offset tar s enough enough_tar =
      let image = content s.source in
      Yields-and_then R W content sent reads writes
        (CopiesUpTo R W content sent reads writes offset 0 s)
        (Outcome R W content sent reads writes offset tar image (sent s.sink))
        (copy_n R W fuel offset 0 s)
        (λ written s₁.
          and_then R W (add_written R W written (wrap_output R W (write_all R W fuel tar 0 s₁)))
            (λ n s₂.
              after_skip R W n (discard_n R W fuel (length tar) 0 s₂)
                (λ s₃. add_written R W n (copy_all R W fuel 0 s₃))))
        (copy_n-CopiesUpTo R W content sent reads writes fuel offset 0 s (omega arith) enough)
        (λ c e y bad.
          let d : c.written - 0 ≡ c.written = omega arith in
          failed_outcome R W content sent reads writes offset tar image (sent s.sink)
            (sent c.streams.sink) c.written e
            (rw d at y.sends
              ∙ ap (λ t. sent s.sink ++ t)
                  (sym (prefix_image c.written offset tar image y.bound (omega (arith, y.within)))))
            (rw bad at y.failing))
        (λ c y good.
          let done = y.completes good in
          let d : offset - 0 ≡ offset = omega arith in
          let d' : c.written - 0 ≡ offset = omega (arith, done.0) in
          tar_rest fuel offset c.written tar image (sent s.sink) c.streams (omega (arith, done.1))
            done.0 (rw d at done.2) (rw d' at y.sends)
            (omega (arith, ap length done.2, length-drop (offset - 0) image, enough)) enough_tar)

  -- What `splice` returns, given the reader or the error of opening it.
  abbrev pub SpliceResult :
      Result R.State → W.State → ℕ → List ℕ → Option (ℕ × Option Error × W.State) → Type 0
  SpliceResult opened out offset tar none = ⊥
  SpliceResult (err e) out offset tar (some (n, failure, out')) =
      (n ≡ 0) × (out' ≡ out) × (failure ≡ some (join (sentinel fetch) e))
  SpliceResult (ok source) out offset tar (some (n, failure, out')) =
      IsSplice offset tar (content source) (sent out) n failure (sent out')

  abbrev pub Enough : ℕ → Result R.State → Type 0
  Enough fuel (err e) = Unit
  Enough fuel (ok source) = length (content source) < fuel

  -- `splice` returns. If the image cannot be opened, it has written nothing and says so. Otherwise
  -- it has written a prefix of the spliced image, as many bytes as it reports; an error is an
  -- acquisition or an output failure; and without an error, the tar fits in the image and the
  -- whole of the spliced image is written, which is as long as the image. The fuel exceeds the
  -- lengths of the image and of the tar, and the reader and the writer keep their contracts.
  pub splice_lem :
      (fuel : ℕ) (opened : Result R.State) (out : W.State) (polls : Polls) (offset : ℕ)
      (tar : List ℕ)
      → Enough fuel opened
      → length tar < fuel
      → SpliceResult opened out offset tar (splice R W fuel opened out polls offset tar)
  unfolding splice
  splice_lem fuel (err e) out polls offset tar enough enough_tar = (refl, refl, refl)
  splice_lem fuel (ok source) out polls offset tar enough enough_tar =
      let s : Streams R W = record { source = source; sink = out; polls = polls } in
      elim (Option-cases (splice_streams R W fuel offset tar s)) [
        | inl ran_out ↦
            absurd (rw ran_out at (splice_streams-IsSplice fuel offset tar s enough enough_tar))
        | inr (c, returned) ↦
            rw (returned, splice, SpliceResult)
              (rw returned at (splice_streams-IsSplice fuel offset tar s enough enough_tar))
      ]
