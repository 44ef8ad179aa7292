-- ===== src/Build/Splice/CopyN.antt =====
-- `copyN`: with more fuel than the source has bytes it ends, and it copies `n` bytes or fails.
use incusos_builder.Base.{
  ℕ, zero, suc, ◌+◌, ◌-◌, ◌≤◌, ◌<◌, ◌≡◌, sym, ◌∙◌, ap, none, some, List, [], ◌++◌, length,
  length-append, take-length, append-nil, ltb, min, arith, Bool-cases, Option-cases,
  drop-append_right, inl, inr,
}
use incusos_builder.Errdefs.{Error, fetch, sentinel, join, is-join}
use incusos_builder.Io.{Reader, Writer, IsReader, IsWriter, poll, polled}
use incusos_builder.Build.Splice.{
  copy_buf_size, copy_n_read_err, Streams, Copied, finished, write_chunk, copy_n,
}
use incusos_builder.Build.Splice.Loops.{
  copy_n_read_err-IsIoFailure, copy_n_read_err-none, Yields, write_chunk-Yields, CopiesUpTo,
  CopiesUpTo-step, CopiesUpTo-failed, CopiesUpTo-stopped, CopiesUpTo-done, Yields-map,
}

module _ (R : Reader) (W : Writer) (content : R.State → List ℕ) (sent : W.State → List ℕ)
    (reads : IsReader R content) (writes : IsWriter W sent) where
  abbrev Copies : ℕ → ℕ → Streams R W → Copied R W → Type 0
  Copies = CopiesUpTo R W content sent reads writes

  -- The source has ended with the chunk.
  ended :
      (n written : ℕ) (e : Error) (s s' : Streams R W) (bs : List ℕ)
      → content s.source ≡ bs ++ content s'.source
      → content s'.source ≡ []
      → sent s'.sink ≡ sent s.sink ++ bs
      → written + length bs ≤ n
      → Copies n written s (record {
        written = written + length bs;
        failure = copy_n_read_err e (written + length bs) n;
        streams = s';
      })
  ended n written e s s' bs split empty chunk small = record {
    count = omega arith;
    bound = small;
    within = rw whole (omega arith);
    sends =
        let d : written + length bs - written ≡ length bs = omega arith in
        chunk ∙ ap (λ t. sent s.sink ++ t) (rw (d, whole) (sym (take-length bs)));
    failing = copy_n_read_err-IsIoFailure e (written + length bs) n;
    completes = λ good.
        let all = copy_n_read_err-none e (written + length bs) n good in
        let d : n - written ≡ length bs + 0 = omega arith in
        (omega arith, rw whole (omega arith), rw (empty, split, d, drop-append_right) (rw empty));
  }
    where
      whole : content s.source ≡ bs
      whole = split ∙ rw empty (append-nil bs)

  -- One round of the loop, for a loop that keeps its promise with less fuel.
  chunk_step :
      (fuel n written : ℕ) (s : Streams R W)
      → written < n
      → length (content s.source) < suc fuel
      → ((w : ℕ) (s' : Streams R W)
          → w ≤ n
          → length (content s'.source) < fuel
          → Yields R W content sent reads writes (Copies n w s') (copy_n R W fuel n w s'))
      → let r = R.read (min copy_buf_size (n - written)) s.source in
        Yields R W content sent reads writes (Copies n written s) (
          write_chunk R W r.bytes written
            (record { source = r.next; sink = s.sink; polls = polled s.polls })
            λ written' s''. elim r.failure [
              | some rerr ↦ finished R W written' (copy_n_read_err rerr written' n) s''
              | none ↦ copy_n R W fuel n written' s''
            ])
  chunk_step fuel n written s more enough rest =
      let k = min copy_buf_size (n - written) in
      let r = R.read k s.source in
      let split = reads.delivers k s.source in
      let small : written + length r.bytes ≤ n = omega (arith, reads.bounded k s.source) in
      write_chunk-Yields R W content sent reads writes (Copies n written s) r.bytes written _ _
        (λ j e t le wraps sends.
          CopiesUpTo-failed R W content sent reads writes n written j e s r.bytes (content r.next)
            r.next t (polled s.polls) split small le wraps sends)
        λ t chunk. elim (Option-cases r.failure) [
          | inr (rerr, last) ↦ rw last (
              ended n written rerr s (record { source = r.next; sink = t; polls = polled s.polls })
                r.bytes split (reads.ends k s.source rerr last) chunk small)
          | inl more_later ↦
              let s' : Streams R W = record { source = r.next; sink = t; polls = polled s.polls } in
              let positive = reads.progress k s.source (omega arith) more_later in
              let shorter : length (content r.next) < fuel =
                omega (arith, ap length split, length-append r.bytes (content r.next), positive) in
              rw more_later (
                Yields-map R W content sent reads writes (Copies n (written + length r.bytes) s')
                  (Copies n written s) (copy_n R W fuel n (written + length r.bytes) s')
                  (λ c y.
                    CopiesUpTo-step R W content sent reads writes n written s s' r.bytes c split
                      chunk small y)
                  (rest (written + length r.bytes) s' small shorter))
        ]

  pub copy_n-CopiesUpTo :
      (fuel n written : ℕ) (s : Streams R W)
      → written ≤ n
      → length (content s.source) < fuel
      → Yields R W content sent reads writes (Copies n written s) (copy_n R W fuel n written s)
  unfolding copy_n
  copy_n-CopiesUpTo zero n written s le enough = absurd (omega arith)
  copy_n-CopiesUpTo (suc fuel) n written s le enough = elim (Bool-cases (ltb written n)) [
    | inr all ↦
        rw (all, copy_n) (CopiesUpTo-done R W content sent reads writes n written s (ground arith))
    | inl more ↦ elim (Option-cases (poll s.polls)) [
      | inr (e, dead) ↦
          rw (more, dead, copy_n)
            (CopiesUpTo-stopped R W content sent reads writes n written (join (sentinel fetch) e) s
              (polled s.polls) le (is-join fetch e))
      | inl alive ↦
          rw (more, alive, copy_n)
            (chunk_step fuel n written s (ground arith) enough
              (λ w s' le' enough'. copy_n-CopiesUpTo fuel n w s' le' enough'))
    ]
  ]
