-- ===== src/Update/Documents.antt =====
-- internal/update/client.go: the reads of documents of a bounded size, with their retries, and `Index`.
-- A document of the server is named by what is joined to the base URL: the version, empty for the
-- index, and the name. The reader of a body is read by `io.ReadAll` through `io.LimitReader`.
pub mod Capped
pub mod Replies
pub mod Gets
pub mod Indexed
mod Tests
use incusos_builder.Base.{
  ℕ, zero, suc, ◌+◌, ◌-◌, ◌*◌, ◌^◌, Bool, true, false, not, ◌||◌, Option, none, some, List, [], ◌∷◌,
  ◌++◌, length, ltb, ◌==◌, min, if◌then◌else◌,
}
use incusos_builder.Base.Text.{Text, codes}
use incusos_builder.Errdefs.{
  Error, Result, ok, err, equals, fetch, eof, sentinel, errorf, wrap, join, lit, num, str,
}
use incusos_builder.Images.{Index}
use incusos_builder.Io.{Reader, Polls, poll, polled}
use incusos_builder.Update.Store.{
  Failure, transient, admission, body_stream, other, error_of, Outcome, got, failed,
}
use incusos_builder.Update.Fetch.{Client, Response, retry_attempts, get_once}

abbrev pub index_name : Text
index_name = codes "index.json"

-- `indexCap`, 64 MiB, and `metadataCap`, 1 MiB.
abbrev pub index_cap : ℕ
index_cap = 64 * 2 ^ 20

-- What a second `Decode` gives behind the first value: another value, the end, or an error.
pub data Behind : Type 0 where
  another at_end : Behind
  malformed : Error → Behind

-- The decoder of JSON values of a type.
pub record Json (A : Type 0) : Type 0 where
  pub first : Text → Result A
  pub behind : Text → Behind

-- The value of a text that holds one value and nothing behind it.
unfoldable pub single : {A : Type 0} → Text → Result A → Behind → Result A
single name (err e) behind = err (wrap (join (sentinel fetch) e) (lit "decode " ∷ str name ∷ []))
single name (ok v) another = err (errorf fetch (lit "trailing data in " ∷ str name ∷ []))
single name (ok v) (malformed e) =
    err (wrap (join (sentinel fetch) e) (lit "decode " ∷ str name ∷ []))
single name (ok v) at_end = ok v

-- `decodeJSON`.
unfoldable pub decode_json : {A : Type 0} → Json A → Text → Text → Result A
decode_json json body name = single name (json.first body) (json.behind body)

-- What `readCapped` makes of what was read.
unfoldable pub within_cap : ℕ → Text → Result (List ℕ) → Result (List ℕ)
within_cap limit name (err e) = err (wrap (join (sentinel fetch) e) (lit "read " ∷ str name ∷ []))
within_cap limit name (ok body) =
    if ltb limit (length body)
    then err (errorf fetch (str name ∷ lit " exceeds " ∷ num limit ∷ lit "-byte cap" ∷ []))
    else ok body

module _ (R : Reader) (room : ℕ → ℕ) where
  -- `io.ReadAll(io.LimitReader(r, limit))`; the buffer has room for at least one byte. `none` means
  -- that the fuel ran out.
  unfoldable pub read_all : ℕ → ℕ → List ℕ → R.State → Option (Result (List ℕ))
  read_all zero limit copied source = none
  read_all (suc fuel) limit copied source =
      if limit == 0
      then some (ok copied)
      else (let r = R.read (min (suc (room (length copied))) limit) source in
          elim r.failure [
            | some e ↦ if equals e eof then some (ok (copied ++ r.bytes)) else some (err e)
            | none ↦ read_all fuel (limit - length r.bytes) (copied ++ r.bytes) r.next
          ])

  -- `readCapped`.
  unfoldable pub read_capped : ℕ → ℕ → Text → R.State → Option (Result (List ℕ))
  read_capped fuel limit name source = elim (read_all fuel (limit + 1) [] source) [
    | none ↦ none
    | some r ↦ some (within_cap limit name r)
  ]

  module _ (C : Client R) (sha256 : List ℕ → Text) where
    -- The client, and the context.
    pub record Link : Type 0 where
      pub client : C.State
      pub polls : Polls

    abbrev pub get_next : Text → Text → Link → Outcome R.State × C.State
    get_next version name l = get_once R C sha256 version name l.client

    -- `isTransient`.
    abbrev pub is_transient : Failure → Bool
    is_transient (transient e) = true
    is_transient (admission e) = false
    is_transient (body_stream e) = false
    is_transient (other e) = false

    -- What follows an attempt: the body, the error, or another attempt.
    unfoldable pub after_attempt :
        Outcome R.State → Link → (Error → Result R.State × Link) → Result R.State × Link
    after_attempt (got body) l again = (ok body, l)
    after_attempt (failed f) l again =
        if is_transient f then again (error_of f) else (err (error_of f), l)

    -- What follows `sleep`.
    unfoldable pub after_sleep :
        Option Error → Link → (Link → Result R.State × Link) → Result R.State × Link
    after_sleep none l attempt = attempt l
    after_sleep (some e) l attempt = (err (join (sentinel fetch) e), l)

    -- The attempts of `doGET` that are left, the first of them without a delay.
    unfoldable pub get_loop : ℕ → Bool → Error → Text → Text → Link → Result R.State × Link
    get_loop zero delayed last version name l = (err last, l)
    get_loop (suc attempts) delayed last version name l =
        after_sleep (if delayed then poll l.polls else none)
          (if delayed then record l { polls = polled l.polls } else l)
          λ awake.
            let g = get_next version name awake in
            let replied : Link = record awake { client = g.1 } in
            after_attempt (g.0) replied
              (λ failure. get_loop attempts true failure version name replied)

    -- `doGET`.
    unfoldable pub do_get : Text → Text → Link → Result R.State × Link
    do_get version name l =
        get_loop retry_attempts false (errorf fetch (lit "GET " ∷ str name ∷ lit " failed" ∷ []))
          version name l

    -- `getCapped`.
    unfoldable pub get_capped : ℕ → Text → Text → ℕ → Link → Option (Result (List ℕ) × Link)
    get_capped fuel version name limit l =
        let g = do_get version name l in
        elim (g.0) [
          | err e ↦ some (err e, g.1)
          | ok body ↦ elim (read_capped fuel limit name body) [
            | none ↦ none
            | some r ↦ some (r, g.1)
          ]
        ]

    -- What `Index` makes of the body.
    unfoldable pub indexed :
        Json Index → Option (Result (List ℕ) × Link) → Option (Result Index × Link)
    indexed json none = none
    indexed json (some (err e, l)) = some (err e, l)
    indexed json (some (ok body, l)) = some (decode_json json body index_name, l)

    -- `Index`, without its reports.
    unfoldable pub index : ℕ → Json Index → Link → Option (Result Index × Link)
    index fuel json l = indexed json (get_capped fuel [] index_name index_cap l)
