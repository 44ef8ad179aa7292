-- ===== src/Update/Documents/Indexed.antt =====
-- `decodeJSON` and `Index` of internal/update/client.go.
use incusos_builder.Base.{ℕ, ◌+◌, ◌<◌, ◌≡◌, refl, true, Option, none, some, List, []}
use mathlib.Core.Path.{subst}
use incusos_builder.Base.Text.{Text}
use incusos_builder.Errdefs.{Result, ok, err, is, fetch, FailsWith, is-errorf, is-wrap}
use incusos_builder.Images.{Index}
use incusos_builder.Io.{Reader, IsReader}
use incusos_builder.Update.Fetch.{Client}
use incusos_builder.Update.Documents.{
  Json, Behind, at_end, another, malformed, decode_json, single, Link, get_capped, index,
  index_name, index_cap, indexed,
}
use incusos_builder.Update.Documents.Capped.{Done}
use incusos_builder.Update.Documents.Gets.{IsDocument, Downloads, get_capped-Downloads}

pub single_sound :
    {A : Type 0} (name : Text) (r : Result A) (b : Behind) (doc : A)
    → single name r b ≡ ok doc
    → (r ≡ ok doc) × (b ≡ at_end)
unfolding single
single_sound name (err e) b doc h = cc
single_sound name (ok v) another doc h = cc
single_sound name (ok v) (malformed e) doc h = cc
single_sound name (ok v) at_end doc h = (h, refl)

pub single-FailsWith :
    {A : Type 0} (name : Text) (r : Result A) (b : Behind) → FailsWith fetch (single name r b)
unfolding single
single-FailsWith name (err e) b = is-wrap fetch e _
single-FailsWith name (ok v) another = is-errorf fetch _
single-FailsWith name (ok v) (malformed e) = is-wrap fetch e _
single-FailsWith name (ok v) at_end = tt

module _ (R : Reader) (room : ℕ → ℕ) (C : Client R) (sha256 : List ℕ → Text)
    (content : R.State → List ℕ) (reads : IsReader R content) (json : Json Index) where
  -- The index that a document of the server holds, as its one JSON value.
  abbrev pub IsIndexed : C.State → Result Index → Type 0
  IsIndexed c (err e) = is e fetch ≡ true
  IsIndexed c (ok index) =
      (body : List ℕ) × IsDocument R room C sha256 [] index_name content reads index_cap c body
      × (json.first body ≡ ok index)
      × (json.behind body ≡ at_end)

  single-IsIndexed :
      (c : C.State) (body : List ℕ) (r : Result Index)
      → IsDocument R room C sha256 [] index_name content reads index_cap c body
      → decode_json json body index_name ≡ r
      → IsIndexed c r
  unfolding decode_json
  single-IsIndexed c body (err e) d h =
      subst (λ r. FailsWith fetch r) h
        (single-FailsWith index_name (json.first body) (json.behind body))
  single-IsIndexed c body (ok index) d h =
      let (first, behind) = single_sound index_name (json.first body) (json.behind body) index h in
      (body, d, first, behind)

  decoded-IsIndexed :
      (c : C.State) (q : Option (Result (List ℕ) × Link R room C sha256))
      → Done
          (λ (a : Result (List ℕ) × Link R room C sha256).
            Downloads R room C sha256 [] index_name content reads index_cap c (a.0))
          q
      → Done
          (λ (a : Result Index × Link R room C sha256). IsIndexed c (a.0))
          (indexed R room C sha256 json q)
  unfolding indexed
  decoded-IsIndexed c none h = h
  decoded-IsIndexed c (some (err e, l)) h = h
  decoded-IsIndexed c (some (ok body, l)) h = single-IsIndexed c body _ h refl

  -- With more fuel than the cap of the index has bytes, and one, `Index` ends. The index that it returns is
  -- the one JSON value of a document that the server sent: the whole body, within the cap, of a
  -- response with status 200 and an https URL, among its first three replies and after none but
  -- server errors and missing responses. Its errors wrap `fetch`.
  pub index-IsIndexed :
      (fuel : ℕ) (l : Link R room C sha256)
      → index_cap + 1 < fuel
      → Done
          (λ (a : Result Index × Link R room C sha256). IsIndexed l.client (a.0))
          (index R room C sha256 fuel json l)
  unfolding index
  index-IsIndexed fuel l enough =
      decoded-IsIndexed l.client (get_capped R room C sha256 fuel [] index_name index_cap l)
        (get_capped-Downloads R room C sha256 [] index_name content reads fuel index_cap l enough)
