-- ===== src/Build/Splice/CopyAll.antt =====
-- `copyAll`: with more fuel than the source has bytes it ends, and it copies all of them or fails.
use incusos_builder.Base.{
  ℕ, zero, suc, ◌+◌, ◌-◌, ◌<◌, ◌≡◌, sym, ◌∙◌, ap, Option, none, some, List, [], ◌++◌, length,
  length-append, take-length, append-nil, arith, Bool-cases, Option-cases, drop-append_right, inl,
  inr,
}
use incusos_builder.Errdefs.{Error, is, eof, fetch, sentinel, join, is-join}
use incusos_builder.Io.{Reader, Writer, IsReader, IsWriter, poll, polled}
use incusos_builder.Build.Splice.{copy_buf_size, Streams, Copied, copy_all}
use incusos_builder.Build.Splice.Loops.{
  IsIoFailure, Yields, Yields-map, write_chunk-Yields, CopiesUpTo, CopiesUpTo-step,
  CopiesUpTo-failed, CopiesUpTo-stopped,
}

module _ (R : Reader) (W : Writer) (content : R.State → List ℕ) (sent : W.State → List ℕ)
    (reads : IsReader R content) (writes : IsWriter W sent) where
  abbrev Copies : ℕ → ℕ → Streams R W → Copied R W → Type 0
  Copies = CopiesUpTo R W content sent reads writes

  -- The source has ended with the chunk, by EOF or by an error.
  ended :
      (n written : ℕ) (e : Option Error) (s s' : Streams R W) (bs : List ℕ)
      → content s.source ≡ bs ++ content s'.source
      → content s'.source ≡ []
      → sent s'.sink ≡ sent s.sink ++ bs
      → written + length bs ≡ n
      → IsIoFailure e
      → Copies n written s (record { written = written + length bs; failure = e; streams = s' })
  ended n written e s s' bs split empty chunk total failing = record {
    count = omega arith;
    bound = omega arith;
    within = rw whole (omega arith);
    sends =
        let d : written + length bs - written ≡ length bs = omega arith in
        chunk ∙ ap (λ t. sent s.sink ++ t) (rw (d, whole) (sym (take-length bs)));
    failing = failing;
    completes = λ good.
        let d : n - written ≡ length bs + 0 = omega arith in
        (total, rw whole (omega arith), rw (empty, split, d, drop-append_right) (rw empty));
  }
    where
      whole : content s.source ≡ bs
      whole = split ∙ rw empty (append-nil bs)

  pub copy_all-CopiesUpTo :
      (fuel n written : ℕ) (s : Streams R W)
      → n ≡ written + length (content s.source)
      → length (content s.source) < fuel
      → Yields R W content sent reads writes (Copies n written s) (copy_all R W fuel written s)
  unfolding copy_all
  copy_all-CopiesUpTo zero n written s total enough = absurd (omega arith)
  copy_all-CopiesUpTo (suc fuel) n written s total enough = elim (Option-cases (poll s.polls)) [
    | inr (e, dead) ↦
        rw (dead, copy_all)
          (CopiesUpTo-stopped R W content sent reads writes n written (join (sentinel fetch) e) s
            (polled s.polls) (omega arith) (is-join fetch e))
    | inl alive ↦
        let r = R.read copy_buf_size s.source in
        let split = reads.delivers copy_buf_size s.source in
        let total_split : n ≡ written + (length r.bytes + length (content r.next)) =
          omega (arith, total, ap length split, length-append r.bytes (content r.next)) in
        rw (alive, copy_all)
          (write_chunk-Yields R W content sent reads writes (Copies n written s) r.bytes written _ _
            (λ j e t le wraps sends.
              CopiesUpTo-failed R W content sent reads writes n written j e s r.bytes
                (content r.next) r.next t (polled s.polls) split (omega (arith, total_split)) le
                wraps sends)
            λ t chunk. elim (Option-cases r.failure) [
              | inr (rerr, last) ↦
                  let empty = reads.ends copy_buf_size s.source rerr last in
                  let s' : Streams R W = record {
                    source = r.next;
                    sink = t;
                    polls = polled s.polls;
                  } in
                  let all : written + length r.bytes ≡ n =
                    omega (arith, total_split, ap length empty) in
                  rw last (elim (Bool-cases (is rerr eof)) [
                    | inl at_end ↦
                        rw at_end (ended n written none s s' r.bytes split empty chunk all tt)
                    | inr broken ↦ rw broken (
                        ended n written (some (join (sentinel fetch) rerr)) s s' r.bytes split empty
                          chunk all (inl (is-join fetch rerr)))
                  ])
              | inl more_later ↦
                  let s' : Streams R W = record {
                    source = r.next;
                    sink = t;
                    polls = polled s.polls;
                  } in
                  let positive = reads.progress copy_buf_size s.source (omega arith) more_later in
                  rw more_later (
                    Yields-map R W content sent reads writes
                      (Copies n (written + length r.bytes) s') (Copies n written s)
                      (copy_all R W fuel (written + length r.bytes) s')
                      (λ c y.
                        CopiesUpTo-step R W content sent reads writes n written s s' r.bytes c split
                          chunk (omega (arith, total_split)) y)
                      (copy_all-CopiesUpTo fuel n (written + length r.bytes) s'
                        (omega (arith, total_split)) (omega (arith, total_split, positive))))
            ])
  ]
