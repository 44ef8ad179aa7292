-- ===== src/Build/Splice/WriteAll.antt =====
-- `writeAll`: with more fuel than there are bytes it ends, and it writes all of them or fails; the
-- reader is left alone.
use incusos_builder.Base.{
  ℕ, zero, suc, ◌+◌, ◌-◌, ◌≤◌, ◌<◌, ◌≡◌, refl, sym, ◌∙◌, ap, none, some, List, [], ◌∷◌, ◌++◌,
  length, length-drop, take, drop, append_assoc, append-nil, ltb, ◌==◌, arith, Bool-cases,
  Option-cases, inl, inr,
}
use incusos_builder.Errdefs.{Error}
use incusos_builder.Io.{Reader, Writer, IsReader, IsWriter}
use incusos_builder.Build.Splice.{Streams, Copied, write_all}
use incusos_builder.Build.Splice.Loops.{Yields, Yields-map}

module _ (R : Reader) (W : Writer) (content : R.State → List ℕ) (sent : W.State → List ℕ)
    (reads : IsReader R content) (writes : IsWriter W sent) where
  -- What the loop leaves behind, with `rest` of the bytes still to write.
  pub record Writes (rest : List ℕ) (written : ℕ) (s : Streams R W) (c : Copied R W) : Type 0 where
    pub untouched : c.streams.source ≡ s.source
    pub count : written ≤ c.written
    pub bound : c.written ≤ written + length rest
    pub sends : sent c.streams.sink ≡ sent s.sink ++ take (c.written - written) rest
    pub completes : c.failure ≡ none → c.written ≡ written + length rest

  -- A write that accepts `k` bytes and ends the loop.
  Writes-failed :
      (rest : List ℕ) (written k : ℕ) (e : Error) (s : Streams R W) (t : W.State)
      → k ≤ length rest
      → sent t ≡ sent s.sink ++ take k rest
      → Writes rest written s
          (record { written = written + k; failure = some e; streams = record s { sink = t } })
  Writes-failed rest written k e s t le sends = record {
    untouched = refl;
    count = omega arith;
    bound = omega arith;
    sends = let d : written + k - written ≡ k = omega arith in rw d sends;
    completes = λ good. cc;
  }

  take-split :
      (k m : ℕ) (xs : List ℕ) → k ≤ length xs → take k xs ++ take m (drop k xs) ≡ take (k + m) xs
  take-split zero m xs le = let e : 0 + m ≡ m = omega arith in rw e
  take-split (suc k) m [] le = absurd (omega arith)
  take-split (suc k) m (x ∷ xs) le =
      let e : suc k + m ≡ suc (k + m) = omega arith in
      rw e (ap (λ t. x ∷ t) (take-split k m xs (omega arith)))

  Writes-step :
      (rest : List ℕ) (written k : ℕ) (s : Streams R W) (t : W.State) (c : Copied R W)
      → k ≤ length rest
      → sent t ≡ sent s.sink ++ take k rest
      → Writes (drop k rest) (written + k) (record s { sink = t }) c
      → Writes rest written s c
  Writes-step rest written k s t c le sends r =
      let d : c.written - written ≡ k + (c.written - (written + k)) = omega (arith, r.count) in
      record {
        untouched = r.untouched;
        count = omega (arith, r.count);
        bound = omega (arith, r.bound, length-drop k rest);
        sends = rw d (
            r.sends
            ∙ ap (λ u. u ++ take (c.written - (written + k)) (drop k rest)) sends
            ∙ append_assoc (sent s.sink) (take k rest)
                (take (c.written - (written + k)) (drop k rest))
            ∙ ap (λ u. sent s.sink ++ u) (take-split k (c.written - (written + k)) rest le));
        completes = λ good. omega (arith, r.completes good, length-drop k rest);
      }

  pub write_all-Writes :
      (fuel : ℕ) (rest : List ℕ) (written : ℕ) (s : Streams R W)
      → length rest < fuel
      → Yields R W content sent reads writes
          (Writes rest written s)
          (write_all R W fuel rest written s)
  unfolding write_all
  write_all-Writes zero rest written s enough = absurd (omega arith)
  write_all-Writes (suc fuel) rest written s enough = elim (Bool-cases (ltb 0 (length rest))) [
    | inr all ↦
        let none_left : length rest ≡ 0 = ground arith in
        let d : written - written ≡ 0 = omega arith in
        rw (all, write_all)
          (record {
            untouched = refl;
            count = omega arith;
            bound = omega arith;
            sends = rw d (sym (append-nil _));
            completes = λ good. omega arith;
          })
    | inl more ↦
        let w = W.write rest s.sink in
        let le = writes.accepted rest s.sink in
        let sends = writes.appends rest s.sink in
        rw (more, write_all)
          (elim (Option-cases w.failure) [
            | inr (werr, failed) ↦
                rw (failed, write_all) (Writes-failed rest written w.count werr s w.next le sends)
            | inl good ↦ elim (Bool-cases (w.count == 0)) [
              | inl nothing ↦
                  rw (good, nothing, write_all)
                    (Writes-failed rest written w.count _ s w.next le sends)
              | inr something ↦
                  let positive : 0 < w.count = ground arith in
                  rw (good, something, write_all)
                    (Yields-map R W content sent reads writes
                      (Writes (drop w.count rest) (written + w.count) (record s { sink = w.next }))
                      (Writes rest written s)
                      (write_all R W fuel (drop w.count rest) (written + w.count)
                        (record s { sink = w.next }))
                      (λ c y. Writes-step rest written w.count s w.next c le sends y)
                      (write_all-Writes fuel (drop w.count rest) (written + w.count)
                        (record s { sink = w.next })
                        (omega (arith, length-drop w.count rest, positive, le))))
            ]
          ])
  ]
