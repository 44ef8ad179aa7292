-- ===== src/Update/Documents/Tests.antt =====
-- Reads of documents from a server whose first reply is an error.
use incusos_builder.Base.{ℕ, ◌+◌, ◌≡◌, refl, none, some, Option, List, [], ◌∷◌, arith}
use incusos_builder.Base.Text.{codes, text_eq}
use incusos_builder.Errdefs.{equals, Result, ok, is, Sentinel-discrete}
use incusos_builder.Images.{Index}
use incusos_builder.Build.Samples.{two_bytes, remaining, two_bytes-IsReader}
use incusos_builder.Update.Fetch.{get_once, check_response}
use incusos_builder.Update.Documents.{
  read_all, within_cap, read_capped, Link, after_attempt, after_sleep, get_loop, do_get, get_capped,
  index, index_cap,
}
use incusos_builder.Update.Documents.Capped.{Done, IsCapped, read_capped-IsCapped}
use incusos_builder.Update.Documents.Indexed.{IsIndexed, index-IsIndexed}
use incusos_builder.Update.Samples.{server, room, digest, link, index_json}

read_capped-IsCapped_example :
    Done
      (IsCapped two_bytes room remaining two_bytes-IsReader 3 (1 ∷ 2 ∷ 3 ∷ []))
      (read_capped two_bytes room 5 3 (codes "a") (1 ∷ 2 ∷ 3 ∷ []))
read_capped-IsCapped_example =
    read_capped-IsCapped two_bytes room remaining two_bytes-IsReader 5 3 (codes "a")
      (1 ∷ 2 ∷ 3 ∷ []) (omega arith)

abbrev result_of {ℓ} : {A : Type ℓ} → Option (Result (List ℕ) × A) → Option (Result (List ℕ))
result_of none = none
result_of (some (r, l)) = some r

retried :
    result_of (
      get_capped two_bytes room server digest 9
        (codes "1")
        (codes "update.json")
        5
        (link (503 ∷ [])))
    ≡ some (ok (7 ∷ 8 ∷ []))
unfolding get_capped do_get get_loop after_sleep after_attempt get_once check_response read_capped
    read_all within_cap text_eq is equals Sentinel-discrete
retried = refl

index-IsIndexed_example :
    Done
      (λ (a : Result Index × Link two_bytes room server digest).
        IsIndexed two_bytes room server digest remaining two_bytes-IsReader index_json
          (503 ∷ [])
          (a.0))
      (index two_bytes room server digest (index_cap + 2) index_json (link (503 ∷ [])))
index-IsIndexed_example =
    index-IsIndexed two_bytes room server digest remaining two_bytes-IsReader index_json
      (index_cap + 2) (link (503 ∷ [])) (omega arith)
