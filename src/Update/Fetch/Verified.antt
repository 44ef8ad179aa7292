-- ===== src/Update/Fetch/Verified.antt =====
-- `Asset` returns, and the handle that it returns is on verified bytes.
use incusos_builder.Base.{
  ℕ, zero, suc, ◌+◌, ◌≤◌, ◌<◌, ◌≡◌, refl, ◌∙◌, ap, ◌≢◌, inl, inr, Bool, true, false, Option, none,
  some, if◌then◌else◌, arith, Bool-cases, Option-cases, List,
}
use incusos_builder.Base.Text.{Text}
use incusos_builder.Errdefs.{
  Error, Result, ok, err, Wraps, Result-cases, fetch, is-join, is-errorf, join, sentinel,
}
use incusos_builder.Images.{UpdateFile}
use incusos_builder.Io.{Reader, IsReader, poll}
use incusos_builder.Update.Validate.{validate_asset}
use incusos_builder.Update.Validate.Laws.{validate_asset-FailsWith}
use incusos_builder.Update.Store.{CachedAsset, error_of, limit_of, reuse}
use incusos_builder.Update.Store.Admit.{IsSound, reuse-Reused}
use incusos_builder.Update.Fetch.{
  Client, World, admit_once, should_retry_download, sleep, fetch_loop, fetch_and_admit, asset,
  retry_attempts,
}
use incusos_builder.Update.Fetch.Attempt.{Tried, admit_once-Tries, Outcome-cases}

module _ (R : Reader) (C : Client R) (sha256 : List ℕ → Text) (content : R.State → List ℕ)
    (reads : IsReader R content) where
  -- A handle is on an entry that has the file's digest and size; an error is an acquisition failure.
  abbrev pub IsVerifiedHandle : UpdateFile → World R C sha256 → Result CachedAsset → Type 0
  IsVerifiedHandle file w (ok h) =
      (h ≡ record { digest = file.sha256; size = file.size }) × IsSound sha256 file w.store
  IsVerifiedHandle file w (err e) = Wraps fetch e

  -- What an acquisition with at most `n` admissions does to the cache.
  pub record Acquired (n : ℕ) (file : UpdateFile) (w : World R C sha256) (r : Result CachedAsset)
      (w' : World R C sha256) : Type 0 where
    pub handle : IsVerifiedHandle file w' r
    pub others : (d : Text) → d ≢ file.sha256 → w'.store.entries d ≡ w.store.entries d
    pub tries : w'.admissions ≤ w.admissions + n

  abbrev pub Acquires :
      ℕ → UpdateFile → World R C sha256 → Option (Result CachedAsset × World R C sha256) → Type 0
  Acquires n file w none = ⊥
  Acquires n file w (some (r, w')) = Acquired n file w r w'

  Acquires-after :
      (n : ℕ) (file : UpdateFile) (w w' : World R C sha256)
      (o : Option (Result CachedAsset × World R C sha256))
      → ((d : Text) → d ≢ file.sha256 → w'.store.entries d ≡ w.store.entries d)
      → w'.admissions ≤ w.admissions + 1
      → Acquires n file w' o
      → Acquires (suc n) file w o
  Acquires-after n file w w' none others tries a = a
  Acquires-after n file w w' (some (r, w'')) others tries a = record {
    handle = a.handle;
    others = λ d ne. a.others d ne ∙ others d ne;
    tries = omega (arith, a.tries, tries);
  }

  Acquired-failed :
      (n : ℕ) (file : UpdateFile) (w w' : World R C sha256) (e : Error)
      → Wraps fetch e
      → ((d : Text) → d ≢ file.sha256 → w'.store.entries d ≡ w.store.entries d)
      → w'.admissions ≤ w.admissions + n
      → Acquired n file w (err e) w'
  Acquired-failed n file w w' e wraps others tries = record {
    handle = wraps;
    others = others;
    tries = tries;
  }

  Acquires-same :
      (n : ℕ) (file : UpdateFile) (w w' : World R C sha256)
      (o : Option (Result CachedAsset × World R C sha256))
      → ((d : Text) → w'.store.entries d ≡ w.store.entries d)
      → w'.admissions ≡ w.admissions
      → Acquires n file w' o
      → Acquires n file w o
  Acquires-same n file w w' none same tries a = a
  Acquires-same n file w w' (some (r, w'')) same tries a = record {
    handle = a.handle;
    others = λ d ne. a.others d ne ∙ same d;
    tries = omega (arith, a.tries, tries);
  }

  -- What a pause changes.
  record Paused (w : World R C sha256) (e : Option Error) (w' : World R C sha256) : Type 0 where
    failing : (e' : Error) → e ≡ some e' → Wraps fetch e'
    entries : w'.store.entries ≡ w.store.entries
    admissions : w'.admissions ≡ w.admissions

  pause-Paused :
      (delayed : Bool) (w : World R C sha256)
      → Paused w
          (if delayed then sleep R C sha256 w else (none, w)).0
          (if delayed then sleep R C sha256 w else (none, w)).1
  pause-Paused false w = record { failing = λ e' h. cc; entries = refl; admissions = refl }
  pause-Paused true w = elim (Option-cases (poll w.store.polls)) [
    | inl alive ↦
        rw (alive, sleep) (record { failing = λ e' h. cc; entries = refl; admissions = refl })
    | inr (e, ended) ↦
        rw (ended, sleep)
          (record {
            failing = λ e' h.
                let same : join (sentinel fetch) e ≡ e' = cc in rw (← same) (is-join fetch e);
            entries = refl;
            admissions = refl;
          })
  ]

  fetch_loop-Acquires :
      (fuel attempts : ℕ) (delayed : Bool) (count : ℕ) (last : Error) (version : Text)
      (file : UpdateFile) (w : World R C sha256)
      → limit_of file.size < fuel
      → Wraps fetch last
      → Acquires attempts file w
          (fetch_loop R C sha256 fuel attempts delayed count last version file w)
  unfolding fetch_loop
  fetch_loop-Acquires fuel zero delayed count last version file w enough wraps =
      Acquired-failed 0 file w w last wraps (λ d ne. refl) (omega arith)
  fetch_loop-Acquires fuel (suc attempts) delayed count last version file w enough wraps =
      let s = if delayed then sleep R C sha256 w else (none, w) in
      let q = pause-Paused delayed w in
      let rested : ((d : Text) → d ≢ file.sha256 → s.1.store.entries d ≡ w.store.entries d) =
        (λ d ne. ap (λ f. f d) q.entries) in
      elim (Option-cases s.0) [
        | inr (e, ended) ↦
            rw (ended, fetch_loop)
              (Acquired-failed (suc attempts) file w s.1 e (q.failing e ended) rested
                (omega (arith, q.admissions)))
        | inl awake ↦
            let tried = admit_once-Tries R C sha256 content reads fuel version file s.1 enough in
            elim (Option-cases (admit_once R C sha256 fuel version file s.1)) [
              | inl ran_out ↦ absurd (rw ran_out at tried)
              | inr (a, attempt) ↦
                  let t : Tried R C sha256 content reads file s.1 a.0 a.1 = rw attempt at tried in
                  let others : ((d : Text)
                      → d ≢ file.sha256
                      → a.1.store.entries d ≡ w.store.entries d) =
                    (λ d ne. t.others d ne ∙ rested d ne) in
                  elim (Outcome-cases a.0) [
                    | inl (h, got_it) ↦
                        rw (awake, attempt, got_it, fetch_loop)
                          (record {
                            handle = rw got_it at t.handle;
                            others = others;
                            tries = omega (arith, t.tries, q.admissions);
                          })
                    | inr (f, bad) ↦
                        let retry = should_retry_download f count in
                        let failing : Wraps fetch (error_of f) = rw bad at t.handle in
                        elim (Bool-cases retry.0) [
                          | inr give_up ↦
                              rw (awake, attempt, bad, give_up, fetch_loop)
                                (Acquired-failed (suc attempts) file w a.1 (error_of f) failing
                                  others (omega (arith, t.tries, q.admissions)))
                          | inl again ↦
                              rw (awake, attempt, bad, again, fetch_loop)
                                (Acquires-after attempts file w a.1
                                  (fetch_loop R C sha256 fuel attempts true retry.1 (error_of f)
                                    version file a.1)
                                  others (omega (arith, t.tries, q.admissions))
                                  (fetch_loop-Acquires fuel attempts true retry.1 (error_of f)
                                    version file a.1 enough failing))
                        ]
                  ]
            ]
      ]

  -- `Asset` returns. A handle that it returns is on a cache entry with the digest and the size that
  -- the index names, whatever the server has sent and whatever the cache held; an error is an
  -- acquisition failure; no other entry has changed; and at most three bodies have been tried. The
  -- fuel exceeds the size of the file by two.
  pub asset-Acquires :
      (fuel : ℕ) (version : Text) (file : UpdateFile) (w : World R C sha256)
      → limit_of file.size < fuel
      → Acquires 3 file w (asset R C sha256 fuel version file w)
  unfolding asset fetch_and_admit
  asset-Acquires fuel version file w enough = elim (Result-cases (validate_asset version file)) [
    | inr (e, bad) ↦
        rw (bad, asset)
          (Acquired-failed 3 file w w e (rw bad at (validate_asset-FailsWith version file))
            (λ d ne. refl) (omega arith))
    | inl (u, valid) ↦
        let r = reuse R sha256 file w.store in
        let w' : World R C sha256 = record w { store = r.1 } in
        let reused = reuse-Reused sha256 R file w.store in
        elim (Outcome-cases r.0) [
          | inr (f, bad) ↦
              let q = rw bad at reused in
              rw (valid, bad, asset)
                (Acquired-failed 3 file w w' (error_of f) q.1 (λ d ne. ap (λ g. g d) q.0)
                  (omega arith))
          | inl (found, good) ↦ elim (Option-cases found) [
            | inr (h, hit) ↦
                let q = rw (good, hit) at reused in
                rw (valid, good, hit, asset)
                  (record {
                    handle = (q.1, q.2);
                    others = λ d ne. ap (λ g. g d) q.0;
                    tries = omega arith;
                  })
            | inl miss ↦
                let q = rw (good, miss) at reused in
                rw (valid, good, miss, asset)
                  (Acquires-same 3 file w w' _ (λ d. ap (λ g. g d) q) refl
                    (fetch_loop-Acquires fuel retry_attempts false 0 _ version file w' enough
                      (is-errorf fetch _)))
          ]
        ]
  ]
