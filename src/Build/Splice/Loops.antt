-- ===== src/Build/Splice/Loops.antt =====
-- The copy loops over any reader and writer that keep their contracts: enough fuel, exact counts,
-- and what has reached the writer when a loop stops.
use incusos_builder.Base.{
  ℕ, ◌+◌, ◌-◌, ◌≤◌, ◌≡◌, refl, sym, ◌∙◌, ap, ◌⊎◌, inl, inr, Option, none, some, List, [], ◌∷◌, ◌++◌,
  length, length-append, take, drop, take-append_left, take-append_right, drop-append_right,
  eq-nil_of_length, take-length, append_assoc, append-nil, ltb, leb, ◌==◌, arith, Bool-cases,
  Option-cases,
}
use incusos_builder.Errdefs.{
  Error, is, eof, fetch, output, sentinel, errorf, join, Wraps, is-errorf, is-join, lit,
}
use incusos_builder.Io.{Reader, Writer, IsReader, IsWriter, Polls}
use incusos_builder.Build.Splice.{copy_n_read_err, Streams, Copied, write_chunk}

-- The error is an acquisition failure or an output failure.
abbrev pub IsIoFailure : Option Error → Type 0
IsIoFailure none = Unit
IsIoFailure (some e) = Wraps fetch e ⊎ Wraps output e

pub copy_n_read_err-IsIoFailure : (e : Error) (w n : ℕ) → IsIoFailure (copy_n_read_err e w n)
unfolding copy_n_read_err
copy_n_read_err-IsIoFailure e w n = elim (Bool-cases (is e eof)) [
  | inr other ↦ rw other (inl (is-join fetch e))
  | inl at_end ↦ elim (Bool-cases (leb n w)) [
    | inl all_read ↦ rw (at_end, all_read) tt
    | inr short ↦ rw (at_end, short) (inl (is-errorf fetch _))
  ]
]

-- A nil error at the end of the source says that all bytes were there.
pub copy_n_read_err-none : (e : Error) (w n : ℕ) → copy_n_read_err e w n ≡ none → n ≤ w
unfolding copy_n_read_err
copy_n_read_err-none e w n h = ground arith

module _ (R : Reader) (W : Writer) (content : R.State → List ℕ) (sent : W.State → List ℕ)
    (reads : IsReader R content) (writes : IsWriter W sent) where
  -- The loop ended, not its fuel, and `P` holds of the outcome.
  abbrev pub Yields : (Copied R W → Type 0) → Option (Copied R W) → Type 0
  Yields P none = ⊥
  Yields P (some c) = P c

  pub Yields-map :
      (P Q : Copied R W → Type 0) (o : Option (Copied R W))
      → ((c : Copied R W) → P c → Q c)
      → Yields P o
      → Yields Q o
  Yields-map P Q none f y = y
  Yields-map P Q (some c) f y = f c y

  -- A chunk is written in full, or a prefix of it is and the copy stops with an output failure.
  pub write_chunk-Yields :
      (P : Copied R W → Type 0) (bs : List ℕ) (written : ℕ) (s : Streams R W)
      (after : ℕ → Streams R W → Option (Copied R W))
      → ((k : ℕ) (e : Error) (t : W.State)
          → k ≤ length bs
          → Wraps output e
          → sent t ≡ sent s.sink ++ take k bs
          → P (record { written = written + k; failure = some e; streams = record s { sink = t } }))
      → ((t : W.State)
          → sent t ≡ sent s.sink ++ bs
          → Yields P (after (written + length bs) (record s { sink = t })))
      → Yields P (write_chunk R W bs written s after)
  unfolding write_chunk
  write_chunk-Yields P bs written s after fails goes_on =
      let w = W.write bs s.sink in
      elim (Bool-cases (ltb 0 (length bs))) [
        | inr empty ↦
            let none_left : length bs ≡ 0 = ground arith in
            let same : written + length bs ≡ written = omega arith in
            rw empty (
              rw same at (goes_on s.sink (rw (eq-nil_of_length bs none_left) (sym (append-nil _)))))
        | inl some_left ↦ elim (Option-cases w.failure) [
          | inr (werr, failed) ↦
              rw (some_left, failed, write_chunk)
                (fails w.count (join (sentinel output) werr) w.next (writes.accepted bs s.sink)
                  (is-join output werr) (writes.appends bs s.sink))
          | inl good ↦ elim (Bool-cases (w.count == length bs)) [
            | inr short ↦
                rw (some_left, good, short, write_chunk)
                  (fails w.count (errorf output (lit "short write" ∷ [])) w.next
                    (writes.accepted bs s.sink) (is-errorf output _) (writes.appends bs s.sink))
            | inl full ↦
                let all : w.count ≡ length bs = ground arith in
                rw (some_left, good, full, write_chunk)
                  (rw all (
                    goes_on w.next (
                      writes.appends bs s.sink
                      ∙ ap (λ t. sent s.sink ++ t) (rw all (take-length bs)))))
          ]
        ]
      ]

  -- What a loop that copies up to `n` bytes, with `written` of them copied, leaves behind: it has
  -- sent a prefix of the source, as long as it reports, and all of it if there is no error.
  pub record CopiesUpTo (n written : ℕ) (s : Streams R W) (c : Copied R W) : Type 0 where
    pub count : written ≤ c.written
    pub bound : c.written ≤ n
    pub within : c.written - written ≤ length (content s.source)
    pub sends : sent c.streams.sink ≡ sent s.sink ++ take (c.written - written) (content s.source)
    pub failing : IsIoFailure c.failure
    pub completes :
        c.failure ≡ none
        → (c.written ≡ n)
          × (n - written ≤ length (content s.source))
          × (content c.streams.source ≡ drop (n - written) (content s.source))

  -- A chunk that has been copied comes before what a later outcome has copied.
  sends_after :
      (bs rest : List ℕ) (before middle last : List ℕ) (k m : ℕ)
      → m ≡ length bs + k
      → middle ≡ before ++ bs
      → last ≡ middle ++ take k rest
      → last ≡ before ++ take m (bs ++ rest)
  sends_after bs rest before middle last k m e first second =
      second
      ∙ ap (λ t. t ++ take k rest) first
      ∙ append_assoc before bs (take k rest)
      ∙ ap (λ t. before ++ t) (sym (take-append_right k bs rest))
      ∙ ap (λ t. before ++ take t (bs ++ rest)) (sym e)

  pub CopiesUpTo-step :
      (n written : ℕ) (s s' : Streams R W) (bs : List ℕ) (c : Copied R W)
      → content s.source ≡ bs ++ content s'.source
      → sent s'.sink ≡ sent s.sink ++ bs
      → written + length bs ≤ n
      → CopiesUpTo n (written + length bs) s' c
      → CopiesUpTo n written s c
  CopiesUpTo-step n written s s' bs c split chunk small r = record {
    count = omega (arith, r.count);
    bound = r.bound;
    within = rw split (omega (arith, r.within, length-append bs (content s'.source)));
    sends = rw split (
        sends_after bs (content s'.source) (sent s.sink) (sent s'.sink) (sent c.streams.sink)
          (c.written - (written + length bs)) (c.written - written) (omega (arith, r.count)) chunk
          r.sends);
    failing = r.failing;
    completes = λ good.
        let done = r.completes good in
        let e : n - written ≡ length bs + (n - (written + length bs)) = omega arith in
        (
          done.0,
          rw split (omega (arith, length-append bs (content s'.source), done.1)),
          rw (split, e, drop-append_right) (done.2),
        );
  }

  -- A failed write of a chunk.
  pub CopiesUpTo-failed :
      (n written k : ℕ) (e : Error) (s : Streams R W) (bs rest : List ℕ) (source : R.State)
      (t : W.State) (polls : Polls)
      → content s.source ≡ bs ++ rest
      → written + length bs ≤ n
      → k ≤ length bs
      → Wraps output e
      → sent t ≡ sent s.sink ++ take k bs
      → CopiesUpTo n written s (record {
        written = written + k;
        failure = some e;
        streams = record { source = source; sink = t; polls = polls };
      })
  CopiesUpTo-failed n written k e s bs rest source t polls split small le wraps sends = record {
    count = omega arith;
    bound = omega arith;
    within = rw split (omega (arith, length-append bs rest));
    sends =
        let d : written + k - written ≡ k = omega arith in
        rw (d, split, take-append_left k bs rest le) sends;
    failing = inr wraps;
    completes = λ good. cc;
  }

  -- All is copied already.
  pub CopiesUpTo-done :
      (n written : ℕ) (s : Streams R W)
      → written ≡ n
      → CopiesUpTo n written s (record { written = written; failure = none; streams = s })
  CopiesUpTo-done n written s e =
      let d : written - written ≡ 0 = omega arith in
      let d' : n - written ≡ 0 = omega arith in
      record {
        count = omega arith;
        bound = omega arith;
        within = omega arith;
        sends = rw d (sym (append-nil _));
        failing = tt;
        completes = λ good. (e, omega arith, rw d' refl);
      }

  -- Nothing is copied.
  pub CopiesUpTo-stopped :
      (n written : ℕ) (e : Error) (s : Streams R W) (polls : Polls)
      → written ≤ n
      → Wraps fetch e
      → CopiesUpTo n written s
          (record { written = written; failure = some e; streams = record s { polls = polls } })
  CopiesUpTo-stopped n written e s polls le wraps = record {
    count = omega arith;
    bound = le;
    within = omega arith;
    sends = let d : written - written ≡ 0 = omega arith in rw d (sym (append-nil _));
    failing = inl wraps;
    completes = λ good. cc;
  }
