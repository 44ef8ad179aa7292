-- ===== src/Build/Splice/Discard.antt =====
-- `discardN`: with more fuel than the source has bytes it ends, and it skips `n` bytes or fails; the
-- writer is left alone.
use incusos_builder.Base.{
  ℕ, zero, suc, ◌+◌, ◌-◌, ◌≤◌, ◌<◌, ◌≡◌, refl, ◌∙◌, ap, none, some, List, [], ◌++◌, length,
  length-append, drop, ltb, leb, min, arith, Bool-cases, Option-cases, drop-append_right, inl, inr,
}
use incusos_builder.Errdefs.{Error, is, eof, fetch, sentinel, join, Wraps, is-join, is-errorf}
use incusos_builder.Io.{Reader, Writer, IsReader, IsWriter, poll, polled}
use incusos_builder.Build.Splice.{copy_buf_size, Streams, Copied, discard_n}
use incusos_builder.Build.Splice.Loops.{Yields, Yields-map}

module _ (R : Reader) (W : Writer) (content : R.State → List ℕ) (sent : W.State → List ℕ)
    (reads : IsReader R content) (writes : IsWriter W sent) where
  -- What the loop leaves behind.
  pub record Skips (n dropped : ℕ) (s : Streams R W) (c : Copied R W) : Type 0 where
    pub untouched : c.streams.sink ≡ s.sink
    pub failing : (e : Error) → c.failure ≡ some e → Wraps fetch e
    pub completes :
        c.failure ≡ none
        → (n - dropped ≤ length (content s.source))
          × (content c.streams.source ≡ drop (n - dropped) (content s.source))

  Skips-failed :
      (n dropped written : ℕ) (e : Error) (s t : Streams R W)
      → t.sink ≡ s.sink
      → Wraps fetch e
      → Skips n dropped s (record { written = written; failure = some e; streams = t })
  Skips-failed n dropped written e s t same wraps = record {
    untouched = same;
    failing = λ e' h. let eq : e ≡ e' = cc in rw (← eq) wraps;
    completes = λ good. cc;
  }

  Skips-done :
      (n dropped written : ℕ) (s t : Streams R W) (bs : List ℕ)
      → t.sink ≡ s.sink
      → content s.source ≡ bs ++ content t.source
      → n - dropped ≡ length bs
      → Skips n dropped s (record { written = written; failure = none; streams = t })
  Skips-done n dropped written s t bs same split all = record {
    untouched = same;
    failing = λ e' h. cc;
    completes = λ good.
        let d : n - dropped ≡ length bs + 0 = omega arith in
        (
          rw split (omega (arith, length-append bs (content t.source))),
          rw (split, d, drop-append_right),
        );
  }

  Skips-step :
      (n dropped : ℕ) (s t : Streams R W) (bs : List ℕ) (c : Copied R W)
      → t.sink ≡ s.sink
      → content s.source ≡ bs ++ content t.source
      → dropped + length bs ≤ n
      → Skips n (dropped + length bs) t c
      → Skips n dropped s c
  Skips-step n dropped s t bs c same split small r = record {
    untouched = r.untouched ∙ same;
    failing = r.failing;
    completes = λ good.
        let done = r.completes good in
        let d : n - dropped ≡ length bs + (n - (dropped + length bs)) = omega arith in
        (
          rw split (omega (arith, length-append bs (content t.source), done.0)),
          rw (split, d, drop-append_right) done.1,
        );
  }

  pub discard_n-Skips :
      (fuel n dropped : ℕ) (s : Streams R W)
      → dropped ≤ n
      → length (content s.source) < fuel
      → Yields R W content sent reads writes (Skips n dropped s) (discard_n R W fuel n dropped s)
  unfolding discard_n
  discard_n-Skips zero n dropped s le enough = absurd (omega arith)
  discard_n-Skips (suc fuel) n dropped s le enough = elim (Bool-cases (ltb dropped n)) [
    | inr all ↦ rw (all, discard_n) (Skips-done n dropped dropped s s [] refl refl (ground arith))
    | inl more ↦ elim (Option-cases (poll s.polls)) [
      | inr (e, dead) ↦
          rw (more, dead, discard_n)
            (Skips-failed n dropped dropped (join (sentinel fetch) e) s
              (record s { polls = polled s.polls }) refl (is-join fetch e))
      | inl alive ↦
          let k = min copy_buf_size (n - dropped) in
          let r = R.read k s.source in
          let t : Streams R W = record { source = r.next; sink = s.sink; polls = polled s.polls } in
          let split = reads.delivers k s.source in
          let lt : dropped < n = ground arith in
          let small : dropped + length r.bytes ≤ n = omega (arith, reads.bounded k s.source) in
          rw (more, alive, discard_n)
            (elim (Option-cases r.failure) [
              | inr (rerr, last) ↦
                  rw (last, discard_n)
                    (elim (Bool-cases (is rerr eof)) [
                      | inr broken ↦ rw broken (
                          Skips-failed n dropped _ (join (sentinel fetch) rerr) s t refl
                            (is-join fetch rerr))
                      | inl at_end ↦ elim (Bool-cases (leb n (dropped + length r.bytes))) [
                        | inl enough_read ↦
                            rw (at_end, enough_read)
                              (Skips-done n dropped _ s t r.bytes refl split (ground arith))
                        | inr short ↦
                            rw (at_end, short)
                              (Skips-failed n dropped _ _ s t refl (is-errorf fetch _))
                      ]
                    ])
              | inl more_later ↦
                  let positive = reads.progress k s.source (omega arith) more_later in
                  let shorter : length (content r.next) < fuel =
                    omega
                      (arith, ap length split, length-append r.bytes (content r.next), positive) in
                  rw (more_later, discard_n)
                    (Yields-map R W content sent reads writes (Skips n (dropped + length r.bytes) t)
                      (Skips n dropped s) (discard_n R W fuel n (dropped + length r.bytes) t)
                      (λ c y. Skips-step n dropped s t r.bytes c refl split small y)
                      (discard_n-Skips fuel n (dropped + length r.bytes) t small shorter))
            ])
    ]
  ]
