-- ===== src/Update/Store.antt =====
-- internal/update/cache.go: the content-addressed cache. An entry is found by its digest; the calls of
-- the file system may each meet a fault, which leaves the entries as they are. SHA-256, in hex, is a
-- parameter, and so is the reader of a response body. The temp file is what has been copied so far.
-- The free-space warning is a report and is left out.
pub mod Admit
use incusos_builder.Base.{
  ℕ, zero, suc, ◌+◌, ◌-◌, ◌*◌, ◌^◌, ◌≡◌, Bool, true, false, not, ◌&&◌, ◌||◌, Option, none, some,
  List, [], ◌∷◌, ◌++◌, length, ltb, ◌==◌, min, if◌then◌else◌,
}
use incusos_builder.Base.Int.{ℤ, pos, negsuc}
use incusos_builder.Base.Text.{Text, text_eq}
use incusos_builder.Errdefs.{
  Error, Message, Result, ok, err, is, eof, fetch, plain, sentinel, errorf, wrap, join, lit, quoted,
}
use incusos_builder.Images.{UpdateFile}
use incusos_builder.Io.{Reader, Polls, poll, polled}

abbrev pub copy_buf_size : ℕ
copy_buf_size = 2 ^ 20

-- The entries by digest, the faults of the calls to come, and the context.
pub record Store : Type 0 where
  pub entries : Text → Option (List ℕ)
  pub faults : List (Option Message)
  pub polls : Polls

-- `cachedAsset`.
pub record CachedAsset : Type 0 where
  pub digest : Text
  pub size : ℤ

-- What kind of failure an attempt met, by which the download decides on a retry. The source finds
-- the second and the third by the text of the error, and the first by its type.
pub data Failure : Type 0 where
  transient admission body_stream other : Error → Failure

abbrev pub error_of : Failure → Error
error_of (transient e) = e
error_of (admission e) = e
error_of (body_stream e) = e
error_of (other e) = e

pub data Outcome (A : Type 0) : Type 0 where
  got : A → Outcome A
  failed : Failure → Outcome A

-- The next call of the file system.
abbrev pub fault : Store → Option Message
fault st = elim st.faults [ [] ↦ none | f ∷ fs ↦ f ]

abbrev pub later : List (Option Message) → List (Option Message)
later [] = []
later (f ∷ fs) = fs

abbrev pub called : Store → Store
called st = record st { faults = later st.faults }

abbrev pub has_size : ℤ → ℕ → Bool
has_size (pos m) n = m == n
has_size (negsuc m) n = false

-- `file.Size+1`, the limit of the reader.
abbrev pub limit_of : ℤ → ℕ
limit_of (pos n) = suc n
limit_of (negsuc n) = 0

abbrev pub stopped : {A : Type 0} → (Error → Failure) → Error → Store → Option (Outcome A × Store)
stopped kind e st = some (failed (kind e), st)

-- The write of a chunk that is not empty.
unfoldable pub write_temp : List ℕ → Store → Option Message × Store
write_temp bytes st = if ltb 0 (length bytes) then (fault st, called st) else (none, st)

module _ (R : Reader) where
  -- The loop of `copyHashed` on a reader of at most `limit` bytes; `copied` has been written and
  -- hashed. The last error is of the kind that a retry may mend.
  unfoldable pub copy_hashed : ℕ → ℕ → List ℕ → R.State → Store → Option (Outcome (List ℕ) × Store)
  copy_hashed zero limit copied source st = none
  copy_hashed (suc fuel) limit copied source st = elim (poll st.polls) [
    | some e ↦ stopped other (join (sentinel fetch) e) (record st { polls = polled st.polls })
    | none ↦
        let st' : Store = record st { polls = polled st.polls } in
        if limit == 0
        then some (got copied, st')
        else (let r = R.read (min copy_buf_size limit) source in
            let copied' = copied ++ r.bytes in
            let w = write_temp r.bytes st' in
            let st'' = w.1 in
            elim (w.0) [
              | some m ↦
                  stopped other
                    (wrap (join (sentinel fetch) (plain m)) (lit "write cache temp" ∷ [])) st''
              | none ↦ elim r.failure [
                | some rerr ↦
                    if is rerr eof
                    then some (got copied', st'')
                    else stopped body_stream
                        (wrap (join (sentinel fetch) rerr) (lit "read asset" ∷ [])) st''
                | none ↦ copy_hashed fuel (limit - length r.bytes) copied' r.next st''
              ]
            ])
  ]

  module _ (sha256 : List ℕ → Text) where
    -- `admit`, from the admission test on: `Close`, `Chmod` and `Rename`.
    unfoldable pub commit : UpdateFile → List ℕ → Store → Outcome CachedAsset × Store
    commit file copied st =
        if not (has_size file.size (length copied)) || not (text_eq (sha256 copied) file.sha256)
        then (
          failed (
              admission (
                errorf fetch (
                  quoted file.filename
                  ∷ lit
                      ": asset failed size/digest admission; untrusted metadata; possible tampering"
                  ∷ []))),
          st,
        )
        else elim (fault st) [
          | some m ↦ (
            failed (other (wrap (join (sentinel fetch) (plain m)) (lit "close cache temp" ∷ []))),
            called st,
          )
          | none ↦ elim (fault (called st)) [
            | some m ↦ (
              failed (other (wrap (join (sentinel fetch) (plain m)) (lit "chmod cache temp" ∷ []))),
              called (called st),
            )
            | none ↦ elim (fault (called (called st))) [
              | some m ↦ (
                failed
                    (other (wrap (join (sentinel fetch) (plain m)) (lit "admit cache entry" ∷ []))),
                called (called (called st)),
              )
              | none ↦ (
                got (record { digest = file.sha256; size = file.size }),
                record (called (called (called st))) {
                  entries = λ d. if text_eq d file.sha256 then some copied else st.entries d;
                },
              )
            ]
          ]
        ]

    -- `admit`. A temp that is not committed is removed, which no entry notices.
    unfoldable pub admit : ℕ → UpdateFile → R.State → Store → Option (Outcome CachedAsset × Store)
    admit fuel file source st = elim (fault st) [
      | some m ↦
          stopped other (wrap (join (sentinel fetch) (plain m)) (lit "create cache" ∷ []))
            (called st)
      | none ↦ elim (fault (called st)) [
        | some m ↦
            stopped other (wrap (join (sentinel fetch) (plain m)) (lit "create cache temp" ∷ []))
              (called (called st))
        | none ↦ elim (copy_hashed fuel (limit_of file.size) [] source (called (called st))) [
          | none ↦ none
          | some c ↦ elim c.0 [
            | failed f ↦ some (failed f, c.1)
            | got copied ↦ some (commit file copied c.1)
          ]
        ]
      ]
    ]

    -- `reuse`: a handle on a sound entry, or nil.
    unfoldable pub reuse : UpdateFile → Store → Outcome (Option CachedAsset) × Store
    reuse file st = elim (fault st) [
      | some m ↦ (
        failed (other (wrap (join (sentinel fetch) (plain m)) (lit "stat cache entry" ∷ []))),
        called st,
      )
      | none ↦ elim (st.entries file.sha256) [
        | none ↦ (got none, called st)
        | some content ↦
            if not (has_size file.size (length content))
            then (got none, called st)
            else elim (fault (called st)) [
              | some m ↦ (
                failed (
                    other
                      (wrap (join (sentinel fetch) (plain m)) (lit "re-hash cache entry" ∷ []))),
                called (called st),
              )
              | none ↦
                  if not (text_eq (sha256 content) file.sha256)
                  then (got none, called (called st))
                  else (
                    got (some (record { digest = file.sha256; size = file.size })),
                    called (called st),
                  )
            ]
      ]
    ]
