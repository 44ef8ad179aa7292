-- ===== src/Update/Documents/Gets.antt =====
-- `Index` of internal/update/client.go: where the index that it returns comes from.
use incusos_builder.Base.{
  ℕ, zero, suc, ◌+◌, ◌≤◌, ◌<◌, ◌≡◌, refl, ap, sym, ◌∙◌, Bool, true, false, Option, none, some, List,
  length, inl, inr,
}
use mathlib.Core.Path.{subst}
use incusos_builder.Base.Text.{Text}
use incusos_builder.Errdefs.{Error, Result, ok, err, is, fetch, is-errorf, is-join}
use incusos_builder.Io.{Reader, IsReader, poll, polled}
use incusos_builder.Update.Store.{transient, admission, body_stream, other, Outcome, got, failed}
use incusos_builder.Update.Fetch.{Client, Response, retry_attempts, get_once}
use incusos_builder.Update.Documents.{
  Link, get_loop, do_get, after_attempt, after_sleep, get_capped, read_capped,
}
use incusos_builder.Update.Documents.Capped.{Done, IsCapped, read_capped-IsCapped}
use incusos_builder.Update.Documents.Replies.{
  IsRetried, Served, IsGood, IsFetchFailure, get_once-next, get_once-IsFetchFailure,
  get_once-IsGood, get_once-IsRetried,
}

module _ (R : Reader) (room : ℕ → ℕ) (C : Client R) (sha256 : List ℕ → Text) where
  module _ (version name : Text) where
    -- The body of a good response among the next replies, or an error that wraps `fetch`.
    abbrev IsServed : ℕ → C.State → Result R.State → Type 0
    IsServed n c (err e) = is e fetch ≡ true
    IsServed n c (ok body) =
        (r : Response R) × Served R room C sha256 n version name c r
        × IsGood R room C sha256 r
        × (r.body ≡ body)

    IsServed-retried :
        (n : ℕ) (c : C.State) (q : Result R.State)
        → IsRetried R room C sha256 (C.get version name c).0
        → IsServed n (C.get version name c).1 q
        → IsServed (suc n) c q
    IsServed-retried n c (err e) t h = h
    IsServed-retried n c (ok body) t (r, served, good, same) = (r, inr (t, served), good, same)

    abbrev Linked : Type 0
    Linked = Link R room C sha256

    after_attempt-IsServed :
        (n : ℕ) (c : C.State) (o : Outcome R.State) (l : Linked)
        (again : Error → Result R.State × Linked)
        → (get_once R C sha256 version name c).0 ≡ o
        → ((x : Error) → is x fetch ≡ true → IsServed n (C.get version name c).1 (again x).0)
        → IsServed (suc n) c (after_attempt R room C sha256 o l again).0
    unfolding after_attempt
    after_attempt-IsServed n c (got body) l again e h =
        let (r, first, good, same) = get_once-IsGood R room C sha256 version name c body e in
        (r, inl first, good, same)
    after_attempt-IsServed n c (failed (admission x)) l again e h =
        subst (λ o. IsFetchFailure R room C sha256 o) e
          (get_once-IsFetchFailure R room C sha256 version name c)
    after_attempt-IsServed n c (failed (body_stream x)) l again e h =
        subst (λ o. IsFetchFailure R room C sha256 o) e
          (get_once-IsFetchFailure R room C sha256 version name c)
    after_attempt-IsServed n c (failed (other x)) l again e h =
        subst (λ o. IsFetchFailure R room C sha256 o) e
          (get_once-IsFetchFailure R room C sha256 version name c)
    after_attempt-IsServed n c (failed (transient x)) l again e h =
        IsServed-retried n c (again x).0 (get_once-IsRetried R room C sha256 version name c x e) (
          h x (
            subst (λ o. IsFetchFailure R room C sha256 o) e
              (get_once-IsFetchFailure R room C sha256 version name c)))

    after_sleep-IsServed :
        (n : ℕ) (c : C.State) (o : Option Error) (l : Linked)
        (attempt : Linked → Result R.State × Linked)
        → IsServed n c (attempt l).0
        → IsServed n c (after_sleep R room C sha256 o l attempt).0
    unfolding after_sleep
    after_sleep-IsServed n c none l attempt h = h
    after_sleep-IsServed n c (some e) l attempt h = is-join fetch e

    -- One attempt of the loop, given what is said of those behind it.
    round-IsServed :
        (n : ℕ) (awake : Linked)
        → ((x : Error) (l : Linked)
            → is x fetch ≡ true
            → IsServed n l.client (get_loop R room C sha256 n true x version name l).0)
        → let replied : Linked = record awake {
          client = (get_once R C sha256 version name awake.client).1;
        } in
          IsServed
            (suc n)
            awake.client
            (after_attempt R room C sha256
              (get_once R C sha256 version name awake.client).0
              replied
              (λ x. get_loop R room C sha256 n true x version name replied)).0
    round-IsServed n awake later =
        let replied : Linked = record awake {
          client = (get_once R C sha256 version name awake.client).1;
        } in
        after_attempt-IsServed n awake.client (get_once R C sha256 version name awake.client).0
          replied (λ x. get_loop R room C sha256 n true x version name replied) refl
          (λ x h.
            subst (λ c. IsServed n c (get_loop R room C sha256 n true x version name replied).0)
              (get_once-next R room C sha256 version name awake.client) (later x replied h))

    get_loop-IsServed :
        (n : ℕ) (delayed : Bool) (last : Error) (l : Linked)
        → is last fetch ≡ true
        → IsServed n l.client (get_loop R room C sha256 n delayed last version name l).0
    unfolding get_loop
    get_loop-IsServed zero delayed last l h = h
    get_loop-IsServed (suc n) false last l h =
        after_sleep-IsServed (suc n) l.client none l _
          (round-IsServed n l λ x l' f. get_loop-IsServed n true x l' f)
    get_loop-IsServed (suc n) true last l h =
        let awake : Linked = record l { polls = polled l.polls } in
        after_sleep-IsServed (suc n) l.client (poll l.polls) awake _
          (round-IsServed n awake (λ x l' f. get_loop-IsServed n true x l' f))

    module _ (content : R.State → List ℕ) (reads : IsReader R content) where
      -- A document of the server: the whole body of a good response among the first three replies.
      pub record IsDocument (limit : ℕ) (c : C.State) (body : List ℕ) : Type 0 where
        pub response : Response R
        pub served : Served R room C sha256 retry_attempts version name c response
        pub good : IsGood R room C sha256 response
        pub whole : body ≡ content response.body
        pub capped : length body ≤ limit

      -- A document, or an error that wraps `fetch`.
      abbrev pub Downloads : ℕ → C.State → Result (List ℕ) → Type 0
      Downloads limit c (ok body) = IsDocument limit c body
      Downloads limit c (err e) = is e fetch ≡ true

      capped-Downloads :
          (limit : ℕ) (c : C.State) (body : R.State) (q : Result (List ℕ))
          → IsServed retry_attempts c (ok body)
          → IsCapped R room content reads limit body q
          → Downloads limit c q
      capped-Downloads limit c body (err e) served h = h.0
      capped-Downloads limit c body (ok bytes) (r, served, good, same) (whole, within) = record {
        response = r;
        served = served;
        good = good;
        whole = whole ∙ ap content (sym same);
        capped = within;
      }

      -- With more fuel than the cap has bytes, and one, `getCapped` ends. A document that it returns is
      -- the whole body of a response with status 200 whose final URL is https, and it is within the
      -- cap; that response is one of the first three replies, and those before it were server errors
      -- or no responses. Its errors wrap `fetch`.
      pub get_capped-Downloads :
          (fuel limit : ℕ) (l : Linked)
          → limit + 1 < fuel
          → Done
              (λ (q : Result (List ℕ) × Linked). Downloads limit l.client (q.0))
              (get_capped R room C sha256 fuel version name limit l)
      unfolding get_capped do_get
      get_capped-Downloads fuel limit l enough =
          go (get_loop R room C sha256 retry_attempts false _ version name l)
            (get_loop-IsServed retry_attempts false _ l (is-errorf fetch _))
        where
          read :
              (body : R.State) (l' : Linked) (q : Option (Result (List ℕ)))
              → IsServed retry_attempts l.client (ok body)
              → Done (IsCapped R room content reads limit body) q
              → Done
                  (λ (q : Result (List ℕ) × Linked). Downloads limit l.client (q.0))
                  (elim q [ none ↦ none | some r ↦ some (r, l') ])
          read body l' none served h = absurd h
          read body l' (some q) served h = capped-Downloads limit l.client body q served h

          go :
              (g : Result R.State × Linked)
              → IsServed retry_attempts l.client (g.0)
              → Done
                  (λ (q : Result (List ℕ) × Linked). Downloads limit l.client (q.0))
                  (elim (g.0) [
                    | err e ↦ some (err e, g.1)
                    | ok body ↦ elim (read_capped R room fuel limit name body) [
                      | none ↦ none
                      | some r ↦ some (r, g.1)
                    ]
                  ])
          go (err e, l') h = h
          go (ok body, l') h =
              read body l' (read_capped R room fuel limit name body) h
                (read_capped-IsCapped R room content reads fuel limit name body enough)
