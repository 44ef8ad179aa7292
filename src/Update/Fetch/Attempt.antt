-- ===== src/Update/Fetch/Attempt.antt =====
-- One attempt of the download: the GET, its checks and the admission.
use incusos_builder.Base.{
  ℕ, ◌+◌, ◌≤◌, ◌<◌, ◌≡◌, refl, ◌≢◌, ◌⊎◌, inl, inr, not, ◌||◌, Option, none, some, leb, ◌==◌, arith,
  Bool-cases, List,
}
use incusos_builder.Base.Text.{Text}
use incusos_builder.Errdefs.{
  Result-cases, is, fetch, canceled, deadline_exceeded, is-join, is-errorf,
}
use incusos_builder.Images.{UpdateFile}
use incusos_builder.Io.{Reader, IsReader}
use incusos_builder.Update.Store.{
  Store, CachedAsset, Failure, Outcome, got, failed, limit_of, admit,
}
use incusos_builder.Update.Store.Admit.{FetchFails, Admits, admit-Admits, HandleIsSound}
use incusos_builder.Update.Fetch.{Response, Client, World, check_response, get_once, admit_once}

pub Outcome-cases :
    {A : Type 0} (o : Outcome A) → ((a : A) × (o ≡ got a)) ⊎ ((f : Failure) × (o ≡ failed f))
Outcome-cases (got a) = inl (a, refl)
Outcome-cases (failed f) = inr (f, refl)

module _ (R : Reader) (C : Client R) (sha256 : List ℕ → Text) (content : R.State → List ℕ)
    (reads : IsReader R content) where
  check_response-FetchFails : (r : Response R) → FetchFails (check_response R C sha256 r)
  unfolding check_response
  check_response-FetchFails r = elim (Bool-cases (not r.has_url)) [
    | inl missing ↦ rw (missing, check_response) (is-errorf fetch _)
    | inr present ↦ elim (Bool-cases (not r.is_https)) [
      | inl plain_http ↦ rw (present, plain_http, check_response) (is-errorf fetch _)
      | inr https ↦ elim (Bool-cases (leb 500 r.status)) [
        | inl broken ↦ rw (present, https, broken, check_response) (is-errorf fetch _)
        | inr up ↦ elim (Bool-cases (not (r.status == 200))) [
          | inl refused ↦ rw (present, https, up, refused, check_response) (is-errorf fetch _)
          | inr accepted ↦ rw (present, https, up, accepted, check_response) tt
        ]
      ]
    ]
  ]

  get_once-FetchFails :
      (version filename : Text) (c : C.State)
      → FetchFails (get_once R C sha256 version filename c).0
  unfolding get_once
  get_once-FetchFails version filename c = elim (Result-cases (C.get version filename c).0) [
    | inl (r, e) ↦ rw (e, get_once) (check_response-FetchFails r)
    | inr (e, bad) ↦ elim (Bool-cases (is e canceled || is e deadline_exceeded)) [
      | inl ended ↦ rw (bad, ended, get_once) (is-join fetch e)
      | inr alive ↦ rw (bad, alive, get_once) (is-join fetch e)
    ]
  ]

  -- One attempt.
  pub record Tried (file : UpdateFile) (w : World R C sha256) (o : Outcome CachedAsset)
      (w' : World R C sha256) : Type 0 where
    pub handle : HandleIsSound sha256 file w'.store o
    pub others : (d : Text) → d ≢ file.sha256 → w'.store.entries d ≡ w.store.entries d
    pub tries : w'.admissions ≤ w.admissions + 1

  abbrev pub Tries :
      UpdateFile → World R C sha256 → Option (Outcome CachedAsset × World R C sha256) → Type 0
  Tries file w none = ⊥
  Tries file w (some (o, w')) = Tried file w o w'

  admitted-Tries :
      (file : UpdateFile) (w : World R C sha256) (c : C.State)
      (o : Option (Outcome CachedAsset × Store))
      → Admits sha256 R content reads file w.store o
      → Tries file w (elim o [
        | none ↦ none
        | some a ↦ some (a.0, record { client = c; store = a.1; admissions = w.admissions + 1 })
      ])
  admitted-Tries file w c none a = a
  admitted-Tries file w c (some (o, st)) a = record {
    handle = a.handle;
    others = a.others;
    tries = omega arith;
  }

  pub admit_once-Tries :
      (fuel : ℕ) (version : Text) (file : UpdateFile) (w : World R C sha256)
      → limit_of file.size < fuel
      → Tries file w (admit_once R C sha256 fuel version file w)
  unfolding admit_once
  admit_once-Tries fuel version file w enough =
      let g = get_once R C sha256 version file.filename w.client in
      elim (Outcome-cases g.0) [
        | inr (f, bad) ↦
            rw (bad, admit_once)
              (record {
                handle = rw bad at (get_once-FetchFails version file.filename w.client);
                others = λ d ne. refl;
                tries = omega arith;
              })
        | inl (body, good) ↦
            rw (good, admit_once)
              (admitted-Tries file w g.1 (admit R sha256 fuel file body w.store)
                (admit-Admits sha256 R content reads fuel file body w.store enough))
      ]
