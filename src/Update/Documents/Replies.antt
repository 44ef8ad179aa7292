-- ===== src/Update/Documents/Replies.antt =====
-- One GET: which of its replies are used, and which are tried again.
use incusos_builder.Base.{
  ℕ, zero, suc, ◌≤◌, ◌≡◌, refl, true, false, ◌||◌, List, leb, ◌==◌, ◌⊎◌, inl, inr, arith,
  Bool-cases,
}
use incusos_builder.Base.Text.{Text}
use incusos_builder.Errdefs.{
  Error, Result, Result-cases, ok, err, is, fetch, canceled, deadline_exceeded, is-errorf, is-join,
}
use incusos_builder.Io.{Reader}
use incusos_builder.Update.Store.{transient, error_of, Outcome, got, failed}
use incusos_builder.Update.Fetch.{Client, Response, get_once, check_response}

module _ (R : Reader) (room : ℕ → ℕ) (C : Client R) (sha256 : List ℕ → Text) where
  -- A reply after which another GET is tried: no response, unless the context has ended, or a server
  -- error.
  abbrev pub IsRetried : Result (Response R) → Type 0
  IsRetried (err e) = (is e canceled || is e deadline_exceeded) ≡ false
  IsRetried (ok r) = 500 ≤ r.status

  -- The response is one of the first replies of the client, and those before it are retried.
  abbrev pub Served : ℕ → Text → Text → C.State → Response R → Type 0
  Served zero version name c r = ⊥
  Served (suc n) version name c r =
      ((C.get version name c).0 ≡ ok r)
      ⊎ (IsRetried (C.get version name c).0 × Served n version name (C.get version name c).1 r)

  -- A response whose body is used.
  pub record IsGood (r : Response R) : Type 0 where
    pub has_url : r.has_url ≡ true
    pub is_https : r.is_https ≡ true
    pub status : r.status ≡ 200

  check_response-IsGood :
      (r : Response R) (body : R.State)
      → check_response R C sha256 r ≡ got body
      → IsGood r × (r.body ≡ body)
  unfolding check_response
  check_response-IsGood r body h = (
    record { has_url = ground arith; is_https = ground arith; status = ground arith },
    ground arith,
  )

  check_response-retried :
      (r : Response R) (e : Error)
      → check_response R C sha256 r ≡ failed (transient e)
      → 500 ≤ r.status
  unfolding check_response
  check_response-retried r e h = ground arith

  -- Every failure of the checks wraps `fetch`.
  abbrev pub IsFetchFailure : {A : Type 0} → Outcome A → Type 0
  IsFetchFailure (got a) = Unit
  IsFetchFailure (failed f) = is (error_of f) fetch ≡ true

  check_response-IsFetchFailure : (r : Response R) → IsFetchFailure (check_response R C sha256 r)
  unfolding check_response
  check_response-IsFetchFailure r = elim (Bool-cases r.has_url) [
    | inr a ↦ rw a (is-errorf fetch _)
    | inl a ↦ rw a (elim (Bool-cases r.is_https) [
      | inr b ↦ rw b (is-errorf fetch _)
      | inl b ↦ rw b (elim (Bool-cases (leb 500 r.status)) [
        | inl c ↦ rw c (is-errorf fetch _)
        | inr c ↦ rw c (elim (Bool-cases (r.status == 200)) [
          | inl d ↦ rw d tt
          | inr d ↦ rw d (is-errorf fetch _)
        ])
      ])
    ])
  ]

  module _ (version name : Text) where
    pub get_once-next :
        (c : C.State) → (get_once R C sha256 version name c).1 ≡ (C.get version name c).1
    unfolding get_once
    get_once-next c = elim (Result-cases (C.get version name c).0) [
      | inl (r, e) ↦ rw (e, get_once) refl
      | inr (x, e) ↦
          rw (e, get_once)
            (elim (Bool-cases (is x canceled || is x deadline_exceeded)) [
              | inl f ↦ rw f refl
              | inr f ↦ rw f refl
            ])
    ]

    pub get_once-IsFetchFailure :
        (c : C.State) → IsFetchFailure (get_once R C sha256 version name c).0
    unfolding get_once
    get_once-IsFetchFailure c = elim (Result-cases (C.get version name c).0) [
      | inl (r, e) ↦ rw (e, get_once, IsFetchFailure) (check_response-IsFetchFailure r)
      | inr (x, e) ↦
          rw (e, get_once, IsFetchFailure)
            (elim (Bool-cases (is x canceled || is x deadline_exceeded)) [
              | inl f ↦ rw f (is-join fetch x)
              | inr f ↦ rw f (is-join fetch x)
            ])
    ]

    pub get_once-IsGood :
        (c : C.State) (body : R.State)
        → (get_once R C sha256 version name c).0 ≡ got body
        → (r : Response R) × ((C.get version name c).0 ≡ ok r) × IsGood r × (r.body ≡ body)
    unfolding get_once
    get_once-IsGood c body h = elim (Result-cases (C.get version name c).0) [
      | inl (r, e) ↦
          let (good, same) = check_response-IsGood r body (rw (e, get_once) at h) in
          (r, e, good, same)
      | inr (x, e) ↦ elim (Bool-cases (is x canceled || is x deadline_exceeded)) [
        | inl f ↦ cc (rw (e, get_once, f) at h)
        | inr f ↦ cc (rw (e, get_once, f) at h)
      ]
    ]

    pub get_once-IsRetried :
        (c : C.State) (x : Error)
        → (get_once R C sha256 version name c).0 ≡ failed (transient x)
        → IsRetried (C.get version name c).0
    unfolding get_once
    get_once-IsRetried c x h = elim (Result-cases (C.get version name c).0) [
      | inl (r, e) ↦ rw e (check_response-retried r x (rw (e, get_once) at h))
      | inr (y, e) ↦ elim (Bool-cases (is y canceled || is y deadline_exceeded)) [
        | inl f ↦ cc (rw (e, get_once, f) at h)
        | inr f ↦ rw (e, f) refl
      ]
    ]
