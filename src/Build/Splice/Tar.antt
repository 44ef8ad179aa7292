-- ===== src/Build/Splice/Tar.antt =====
-- `splice` at the tar: what its write leaves behind.
use incusos_builder.Base.{
  ℕ, ◌+◌, ◌-◌, ◌≤◌, ◌<◌, ◌≡◌, sym, ◌∙◌, ap, none, some, List, ◌++◌, length, take, take-length,
  append_assoc, arith,
}
use incusos_builder.Errdefs.{Error, output, sentinel, join, is-join, Wraps}
use incusos_builder.Io.{Reader, Writer, IsReader, IsWriter}
use incusos_builder.Build.Splice.{Streams, Copied, write_all, add_written, wrap_output}
use incusos_builder.Build.Splice.Spliced.{spliced, prefix_tar}
use incusos_builder.Build.Splice.Loops.{Yields}
use incusos_builder.Build.Splice.WriteAll.{Writes, write_all-Writes}
use incusos_builder.Build.Splice.Chains.{Yields-add_written, Yields-wrap_output}

module _ (R : Reader) (W : Writer) (content : R.State → List ℕ) (sent : W.State → List ℕ)
    (reads : IsReader R content) (writes : IsWriter W sent) where
  -- What the write of the tar, behind the image up to the offset, leaves behind.
  pub record WroteTar (offset : ℕ) (tar image before : List ℕ) (s : Streams R W) (c : Copied R W)
      : Type 0 where
    pub prefix : sent c.streams.sink ≡ before ++ take c.written (spliced offset tar image)
    pub same : c.streams.source ≡ s.source
    pub failing : (e : Error) → c.failure ≡ some e → Wraps output e
    pub completes :
        c.failure ≡ none
        → (c.written ≡ offset + length tar)
          × (sent c.streams.sink ≡ before ++ (take offset image ++ tar))

  tar_prefix :
      (offset : ℕ) (tar image before : List ℕ) (s : Streams R W) (c : Copied R W)
      → offset ≤ length image
      → sent s.sink ≡ before ++ take offset image
      → Writes R W content sent reads writes tar 0 s c
      → sent c.streams.sink ≡ before ++ take (offset + c.written) (spliced offset tar image)
  tar_prefix offset tar image before s c fits sink w =
      let d : c.written - 0 ≡ c.written = omega arith in
      rw d at w.sends
      ∙ ap (λ t. t ++ take c.written tar) sink
      ∙ append_assoc before (take offset image) (take c.written tar)
      ∙ ap (λ t. before ++ t)
          (sym (prefix_tar c.written offset tar image fits (omega (arith, w.bound))))

  tar_whole :
      (offset : ℕ) (tar image before : List ℕ) (s : Streams R W) (c : Copied R W)
      → sent s.sink ≡ before ++ take offset image
      → Writes R W content sent reads writes tar 0 s c
      → c.failure ≡ none
      → sent c.streams.sink ≡ before ++ (take offset image ++ tar)
  tar_whole offset tar image before s c sink w good =
      let d : c.written - 0 ≡ length tar = omega (arith, w.completes good) in
      rw (d, take-length tar) at w.sends
      ∙ ap (λ t. t ++ tar) sink
      ∙ append_assoc before (take offset image) tar

  pub write_all-WroteTar :
      (fuel offset : ℕ) (tar image before : List ℕ) (s : Streams R W)
      → offset ≤ length image
      → sent s.sink ≡ before ++ take offset image
      → length tar < fuel
      → Yields R W content sent reads writes
          (WroteTar offset tar image before s)
          (add_written R W offset (wrap_output R W (write_all R W fuel tar 0 s)))
  write_all-WroteTar fuel offset tar image before s fits sink enough =
      Yields-add_written R W content sent reads writes (WroteTar offset tar image before s) offset
        (wrap_output R W (write_all R W fuel tar 0 s))
        (Yields-wrap_output R W content sent reads writes
          (Writes R W content sent reads writes tar 0 s)
          (λ c. WroteTar offset tar image before s (record c { written = offset + c.written }))
          (write_all R W fuel tar 0 s)
          (write_all-Writes R W content sent reads writes fuel tar 0 s enough)
          (λ c e w. record {
            prefix = tar_prefix offset tar image before s c fits sink w;
            same = w.untouched;
            failing =
                λ e' h. let eq : join (sentinel output) e ≡ e' = cc in rw (← eq) (is-join output e);
            completes = λ good. cc;
          })
          (λ c w good. record {
            prefix = tar_prefix offset tar image before s c fits sink w;
            same = w.untouched;
            failing = λ e' h. cc;
            completes = λ good'. (
              omega (arith, w.completes good),
              tar_whole offset tar image before s c sink w good,
            );
          }))
