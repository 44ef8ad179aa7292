-- ===== src/Update/Fetch.antt =====
-- internal/update/client.go: one GET, the download with its retries, and `Asset`. The HTTP client is
-- a parameter with a state of its own; a reply is a transport error, or a response with the scheme of
-- its final URL, its status and its body. The delays between attempts are left out; a context that
-- ends meanwhile ends the download.

pub mod Attempt
pub mod Verified
mod Tests
use incusos_builder.Base.{
  ℕ, zero, suc, ◌+◌, ◌≡◌, Bool, true, false, not, ◌&&◌, ◌||◌, Option, none, some, List, [], ◌∷◌,
  leb, ◌==◌, if◌then◌else◌,
}
use incusos_builder.Base.Text.{Text}
use incusos_builder.Errdefs.{
  Error, Result, ok, err, is, fetch, canceled, deadline_exceeded, sentinel, errorf, join, lit, num,
  quoted,
}
use incusos_builder.Images.{UpdateFile}
use incusos_builder.Io.{Reader, poll, polled}
use incusos_builder.Update.Validate.{validate_asset}
use incusos_builder.Update.Store.{
  Store, CachedAsset, Failure, transient, admission, body_stream, other, error_of, Outcome, got,
  failed, admit, reuse,
}

abbrev pub retry_attempts : ℕ
retry_attempts = 3

-- A response: whether its final URL is there and https, its status and its body.
pub record Response (R : Reader) : Type 0 where
  pub has_url : Bool
  pub is_https : Bool
  pub status : ℕ
  pub body : R.State

-- The client.
pub record Client (R : Reader) : Type 1 where
  pub State : Type 0
  pub get : Text → Text → State → Result (Response R) × State

-- `shouldRetryDownload`, with the count of admission failures before and after.
unfoldable pub should_retry_download : Failure → ℕ → Bool × ℕ
should_retry_download f tries =
    if is (error_of f) canceled || is (error_of f) deadline_exceeded
    then (false, tries)
    else elim f [
      | admission e ↦ (leb (tries + 1) 1, tries + 1)
      | transient e ↦ (true, tries)
      | body_stream e ↦ (true, tries)
      | other e ↦ (false, tries)
    ]

module _ (R : Reader) (C : Client R) (sha256 : List ℕ → Text) where
  -- The client, the cache, and the admissions that have been tried.
  pub record World : Type 0 where
    pub client : C.State
    pub store : Store
    pub admissions : ℕ

  -- `requireHTTPSFinal` and the tests of the status in `getOnce`.
  unfoldable pub check_response : Response R → Outcome R.State
  check_response r =
      if not r.has_url
      then failed (other (errorf fetch (lit "missing response URL" ∷ [])))
      else if not r.is_https
      then failed (other (errorf fetch (lit "redirected to non-https URL" ∷ [])))
      else if leb 500 r.status
      then failed (transient (errorf fetch (num r.status ∷ [])))
      else if not (r.status == 200)
      then failed (other (errorf fetch (num r.status ∷ [])))
      else got r.body

  -- `getOnce`.
  unfoldable pub get_once : Text → Text → C.State → Outcome R.State × C.State
  get_once version filename c =
      let r = C.get version filename c in
      elim (r.0) [
        | err e ↦
            if is e canceled || is e deadline_exceeded
            then (failed (other (join (sentinel fetch) e)), r.1)
            else (failed (transient (join (sentinel fetch) e)), r.1)
        | ok response ↦ (check_response response, r.1)
      ]

  -- `admitOnce`.
  unfoldable pub admit_once : ℕ → Text → UpdateFile → World → Option (Outcome CachedAsset × World)
  admit_once fuel version file w =
      let g = get_once version file.filename w.client in
      elim (g.0) [
        | failed f ↦ some (failed f, record w { client = g.1 })
        | got body ↦ elim (admit R sha256 fuel file body w.store) [
          | none ↦ none
          | some a ↦ some (a.0, record { client = g.1; store = a.1; admissions = w.admissions + 1 })
        ]
      ]

  -- `sleep` before a retry: an error if the context has ended.
  abbrev pub sleep : World → Option Error × World
  sleep w =
      let w' : World = record w { store = record w.store { polls = polled w.store.polls } } in
      elim (poll w.store.polls) [
        | none ↦ (none, w')
        | some e ↦ (some (join (sentinel fetch) e), w')
      ]

  -- The attempts of `fetchAndAdmit` that are left, the first of them without a delay.
  unfoldable pub fetch_loop :
      ℕ → ℕ → Bool → ℕ → Error → Text → UpdateFile → World → Option (Result CachedAsset × World)
  fetch_loop fuel zero delayed tries last version file w = some (err last, w)
  fetch_loop fuel (suc attempts) delayed tries last version file w =
      let s = if delayed then sleep w else (none, w) in
      elim (s.0) [
        | some e ↦ some (err e, s.1)
        | none ↦ elim (admit_once fuel version file s.1) [
          | none ↦ none
          | some a ↦ elim (a.0) [
            | got handle ↦ some (ok handle, a.1)
            | failed f ↦
                let retry = should_retry_download f tries in
                elim (retry.0) [
                  | false ↦ some (err (error_of f), a.1)
                  | true ↦ fetch_loop fuel attempts true (retry.1) (error_of f) version file a.1
                ]
          ]
        ]
      ]

  -- `fetchAndAdmit`.
  unfoldable pub fetch_and_admit :
      ℕ → Text → UpdateFile → World → Option (Result CachedAsset × World)
  fetch_and_admit fuel version file w =
      fetch_loop fuel retry_attempts false 0
        (errorf fetch (lit "download " ∷ quoted file.filename ∷ lit " failed" ∷ [])) version file w

  -- `Asset`.
  unfoldable pub asset : ℕ → Text → UpdateFile → World → Option (Result CachedAsset × World)
  asset fuel version file w = elim (validate_asset version file) [
    | err e ↦ some (err e, w)
    | ok u ↦
        let r = reuse R sha256 file w.store in
        let w' : World = record w { store = r.1 } in
        elim (r.0) [
          | failed f ↦ some (err (error_of f), w')
          | got found ↦ elim found [
            | some handle ↦ some (ok handle, w')
            | none ↦ fetch_and_admit fuel version file w'
          ]
        ]
  ]
