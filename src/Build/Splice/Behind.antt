-- ===== src/Build/Splice/Behind.antt =====
-- `splice` behind the tar: the bytes that the tar covers are skipped, the rest is copied.
use incusos_builder.Base.{
  ℕ, ◌+◌, ◌-◌, ◌≤◌, ◌<◌, ◌≡◌, refl, sym, ◌∙◌, ap, Option, none, some, List, ◌++◌, length,
  length-drop, take, drop, take-length, append_assoc, arith, inl, drop-drop,
}
use incusos_builder.Errdefs.{Error}
use incusos_builder.Io.{Reader, Writer, IsReader, IsWriter}
use incusos_builder.Build.Splice.{Streams, Copied, discard_n, copy_all, after_skip, add_written}
use incusos_builder.Build.Splice.Spliced.{
  spliced, length-spliced, prefix_tar, prefix_rest, IsSplice,
}
use incusos_builder.Build.Splice.Loops.{IsIoFailure, Yields, CopiesUpTo}
use incusos_builder.Build.Splice.CopyAll.{copy_all-CopiesUpTo}
use incusos_builder.Build.Splice.Discard.{Skips, discard_n-Skips}
use incusos_builder.Build.Splice.Chains.{Yields-after_skip}

module _ (R : Reader) (W : Writer) (content : R.State → List ℕ) (sent : W.State → List ℕ)
    (reads : IsReader R content) (writes : IsWriter W sent) where
  -- An outcome that stops with an error.
  pub failed_outcome :
      (offset : ℕ) (tar image before after : List ℕ) (n : ℕ) (e : Error)
      → after ≡ before ++ take n (spliced offset tar image)
      → IsIoFailure (some e)
      → IsSplice offset tar image before n (some e) after
  failed_outcome offset tar image before after n e p f = record {
    prefix = p;
    failing = f;
    whole = λ good. cc;
  }

  -- The last step: the rest of the image, behind the tar.
  copy_rest :
      (fuel offset written : ℕ) (tar image before : List ℕ) (s : Streams R W)
      → offset + length tar ≤ length image
      → written ≡ offset + length tar
      → content s.source ≡ drop (offset + length tar) image
      → sent s.sink ≡ before ++ (take offset image ++ tar)
      → length (content s.source) < fuel
      → Yields R W content sent reads writes
          (λ c. IsSplice offset tar image before c.written c.failure (sent c.streams.sink))
          (add_written R W written (copy_all R W fuel 0 s))
  copy_rest fuel offset written tar image before s fits count source sink enough =
      go (copy_all R W fuel 0 s) (
        copy_all-CopiesUpTo R W content sent reads writes fuel (length (content s.source)) 0 s
          (omega arith) enough)
    where
      go :
          (o : Option (Copied R W))
          → Yields R W content sent reads writes
              (CopiesUpTo R W content sent reads writes (length (content s.source)) 0 s)
              o
          → Yields R W content sent reads writes
              (λ c. IsSplice offset tar image before c.written c.failure (sent c.streams.sink))
              (add_written R W written o)
      go none y = y
      go (some c) y =
          let d : c.written - 0 ≡ c.written = omega arith in
          let p : sent c.streams.sink
              ≡ before ++ take (written + c.written) (spliced offset tar image) =
            y.sends
            ∙ ap (λ t. t ++ take (c.written - 0) (content s.source)) sink
            ∙ rw
                (
                  d,
                  source,
                  count,
                  prefix_rest c.written offset tar image (omega arith),
                  append_assoc,
                  append_assoc,
                )
                refl in
          record {
            prefix = p;
            failing = y.failing;
            whole = λ good.
                let all = (y.completes good).0 in
                let n : written + c.written ≡ length image =
                  omega (arith, all, ap length source, length-drop (offset + length tar) image) in
                let full = length-spliced offset tar image fits in
                (
                  fits,
                  n,
                  p
                      ∙ ap (λ t. before ++ t)
                          (rw (n, ← full) (take-length (spliced offset tar image))),
                );
          }

  abbrev pub Outcome : ℕ → List ℕ → List ℕ → List ℕ → Copied R W → Type 0
  Outcome offset tar image before c =
      IsSplice offset tar image before c.written c.failure (sent c.streams.sink)

  -- The steps behind the tar.
  pub skip_rest :
      (fuel offset written : ℕ) (tar image before : List ℕ) (s : Streams R W)
      → offset ≤ length image
      → written ≡ offset + length tar
      → content s.source ≡ drop offset image
      → sent s.sink ≡ before ++ (take offset image ++ tar)
      → length (content s.source) < fuel
      → Yields R W content sent reads writes (Outcome offset tar image before) (
          after_skip R W written
            (discard_n R W fuel (length tar) 0 s)
            (λ s'. add_written R W written (copy_all R W fuel 0 s')))
  skip_rest fuel offset written tar image before s fits count source sink enough =
      let whole_tar : take (offset + length tar) (spliced offset tar image)
          ≡ take offset image ++ tar =
        prefix_tar (length tar) offset tar image fits (omega arith)
        ∙ ap (λ t. take offset image ++ t) (take-length tar) in
      Yields-after_skip R W content sent reads writes
        (Skips R W content sent reads writes (length tar) 0 s) (Outcome offset tar image before)
        written (discard_n R W fuel (length tar) 0 s)
        (λ s'. add_written R W written (copy_all R W fuel 0 s'))
        (discard_n-Skips R W content sent reads writes fuel (length tar) 0 s (omega arith) enough)
        (λ c e skips bad.
          failed_outcome offset tar image before (sent c.streams.sink) written e
            (ap sent skips.untouched ∙ sink ∙ ap (λ t. before ++ t) (rw count (sym whole_tar)))
            (inl (skips.failing e bad)))
        (λ c skips good.
          let done = skips.completes good in
          let d : length tar - 0 ≡ length tar = omega arith in
          let rest : content c.streams.source ≡ drop (offset + length tar) image =
            rw d at done.1 ∙ ap (drop (length tar)) source ∙ drop-drop offset (length tar) image in
          let covered : length tar ≤ length image - offset =
            omega (arith, done.0, ap length source, length-drop offset image) in
          copy_rest fuel offset written tar image before c.streams (omega (arith, covered, fits))
            count rest (ap sent skips.untouched ∙ sink)
            (omega (
              arith,
              ap length rest,
              ap length source,
              length-drop offset image,
              length-drop (offset + length tar) image,
              enough,
            )))
