-- ===== src/Update/Documents/Capped.antt =====
-- `readCapped` of internal/update/client.go over a reader that keeps its contract: the whole body, or an
-- error.
use incusos_builder.Base.{
  ℕ, zero, suc, ◌+◌, ◌-◌, ◌≤◌, ◌<◌, ◌≡◌, refl, ap, sym, ◌∙◌, false, Option, none, some, List, [],
  ◌∷◌, ◌++◌, append_assoc, append-nil, length, length-append, length-take, take, take-append_right,
  ltb, ◌==◌, min, ◌⊎◌, inl, inr, arith, Bool-cases, Option-cases,
}
use mathlib.Core.Path.{subst}
use incusos_builder.Base.Text.{Text}
use incusos_builder.Errdefs.{Error, Result, ok, err, equals, fetch, eof, Wraps, is-errorf, is-wrap}
use incusos_builder.Io.{Reader, IsReader}
use incusos_builder.Update.Documents.{read_all, within_cap, read_capped}

-- A computation that does not run out of fuel, and whose result is as described.
abbrev pub Done : {A : Type 0} → (A → Type 0) → Option A → Type 0
Done P none = ⊥
Done P (some a) = P a

take-all : (n : ℕ) (xs : List ℕ) → length xs ≤ n → take n xs ≡ xs
take-all zero [] h = refl
take-all (suc n) [] h = refl
take-all zero (x ∷ xs) h = absurd (omega arith)
take-all (suc n) (x ∷ xs) h = ap (λ t. x ∷ t) (take-all n xs (omega arith))

take-append :
    (n : ℕ) (xs ys : List ℕ) → length xs ≤ n → take n (xs ++ ys) ≡ xs ++ take (n - length xs) ys
take-append n xs ys h =
    let e : n ≡ length xs + (n - length xs) = omega arith in
    ap (λ m. take m (xs ++ ys)) e ∙ take-append_right (n - length xs) xs ys

module _ (R : Reader) (room : ℕ → ℕ) (content : R.State → List ℕ) (reads : IsReader R content) where
  -- Reads that start at this body come to an error that is not EOF; those before it give no error.
  pub data Breaks : R.State → Error → Type 0 where
    here :
        {s : R.State} {e : Error} (k : ℕ)
        → (R.read k s).failure ≡ some e
        → equals e eof ≡ false
        → Breaks s e
    later :
        {s : R.State} {e : Error} (k : ℕ)
        → (R.read k s).failure ≡ none
        → Breaks (R.read k s).next e
        → Breaks s e

  -- All bytes up to the limit, or a failure of this reader.
  abbrev ReadsUpTo : R.State → List ℕ → Result (List ℕ) → Type 0
  ReadsUpTo source all (ok read) = read ≡ all
  ReadsUpTo source all (err e) = Breaks source e

  -- What is read from the next state on is read from this one.
  earlier-ReadsUpTo :
      (k : ℕ) (source : R.State) (all : List ℕ) (o : Option (Result (List ℕ)))
      → (R.read k source).failure ≡ none
      → Done (ReadsUpTo (R.read k source).next all) o
      → Done (ReadsUpTo source all) o
  earlier-ReadsUpTo k source all none f h = h
  earlier-ReadsUpTo k source all (some (ok read)) f h = h
  earlier-ReadsUpTo k source all (some (err e)) f h = later k f h

  read_all-ReadsUpTo :
      (fuel limit : ℕ) (copied : List ℕ) (source : R.State)
      → min limit (length (content source)) < fuel
      → Done
          (ReadsUpTo source (copied ++ take limit (content source)))
          (read_all R room fuel limit copied source)
  unfolding read_all
  read_all-ReadsUpTo zero limit copied source h = absurd (omega arith)
  read_all-ReadsUpTo (suc fuel) limit copied source h = elim (Bool-cases (limit == 0)) [
    | inl e ↦ let z : limit ≡ 0 = ground arith in rw (e, z) (sym (append-nil copied))
    | inr e ↦
        let k : ℕ = min (suc (room (length copied))) limit in
        let split = reads.delivers k source in
        let bounded = reads.bounded k source in
        let within : length (R.read k source).bytes ≤ limit = ground arith in
        elim (Option-cases (R.read k source).failure) [
          | inr (x, f) ↦
              let empty = reads.ends k source x f in
              let whole : content source ≡ (R.read k source).bytes =
                split ∙ rw empty (append-nil (R.read k source).bytes) in
              rw (e, f)
                (elim (Bool-cases (equals x eof)) [
                  | inl end ↦ rw end (
                      ap (λ t. copied ++ t)
                        (sym (take-all limit (R.read k source).bytes within)
                          ∙ ap (take limit) (sym whole)))
                  | inr bad ↦ rw bad (here k f bad)
                ])
          | inl f ↦
              let some_bytes = reads.progress k source (ground arith) f in
              let rest =
                read_all-ReadsUpTo fuel (limit - length (R.read k source).bytes)
                  (copied ++ (R.read k source).bytes) (R.read k source).next
                  (omega (
                    arith,
                    ap (λ t. length t) split,
                    length-append (R.read k source).bytes (content (R.read k source).next),
                  )) in
              let same : (copied ++ (R.read k source).bytes)
                    ++ take (limit - length (R.read k source).bytes)
                        (content (R.read k source).next)
                  ≡ copied ++ take limit (content source) =
                append_assoc copied (R.read k source).bytes _
                ∙ ap (λ t. copied ++ t)
                    (sym (take-append limit (R.read k source).bytes _ within)
                      ∙ ap (take limit) (sym split)) in
              rw (e, f)
                (subst
                  (λ all. Done (ReadsUpTo source all) (
                    read_all R room fuel (limit - length (R.read k source).bytes)
                      (copied ++ (R.read k source).bytes) (R.read k source).next))
                  same (earlier-ReadsUpTo k source _ _ f rest))
        ]
  ]

  -- The whole body, which is within the cap; or an error that wraps `fetch`, which comes only if the body
  -- is too long or the reads of it break.
  abbrev pub IsCapped : ℕ → R.State → Result (List ℕ) → Type 0
  IsCapped limit source (ok body) = (body ≡ content source) × (length body ≤ limit)
  IsCapped limit source (err e) =
      Wraps fetch e × ((limit < length (content source)) ⊎ ((x : Error) × Breaks source x))

  within_cap-IsCapped :
      (limit : ℕ) (name : Text) (source : R.State) (r : Result (List ℕ))
      → ReadsUpTo source (take (limit + 1) (content source)) r
      → IsCapped limit source (within_cap limit name r)
  unfolding within_cap
  within_cap-IsCapped limit name source (err e) h = (is-wrap fetch e _, inr (e, h))
  within_cap-IsCapped limit name source (ok body) h =
      let measured = length-take (limit + 1) (content source) in
      let size : length body ≡ min (limit + 1) (length (content source)) =
        ap (λ t. length t) h ∙ measured in
      elim (Bool-cases (ltb limit (length body))) [
        | inl e ↦ rw e (is-errorf fetch _, inl (ground arith))
        | inr e ↦
            let short : length (content source) ≤ limit + 1 = ground arith in
            rw e (h ∙ take-all (limit + 1) (content source) short, ground arith)
      ]

  -- With more fuel than the cap has bytes, and one, `readCapped` ends on every body; it returns the whole body, which is within
  -- the cap, or an error that wraps `fetch`, and an error only if the body is longer than the cap or
  -- reads of this very body come to an error that is not EOF.
  pub read_capped-IsCapped :
      (fuel limit : ℕ) (name : Text) (source : R.State)
      → limit + 1 < fuel
      → Done (IsCapped limit source) (read_capped R room fuel limit name source)
  unfolding read_capped
  read_capped-IsCapped fuel limit name source h =
      go (read_all R room fuel (limit + 1) [] source)
        (read_all-ReadsUpTo fuel (limit + 1) [] source (omega arith))
    where
      go :
          (r : Option (Result (List ℕ)))
          → Done (ReadsUpTo source (take (limit + 1) (content source))) r
          → Done
              (IsCapped limit source)
              (elim r [ none ↦ none | some r ↦ some (within_cap limit name r) ])
      go none h = absurd h
      go (some r) h = within_cap-IsCapped limit name source r h
