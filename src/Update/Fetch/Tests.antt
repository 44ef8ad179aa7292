-- ===== src/Update/Fetch/Tests.antt =====
-- A download over a client whose first answer is a server error.
use incusos_builder.Base.{
  ℕ, ◌≡◌, refl, true, Option, none, some, List, [], ◌∷◌, arith, if◌then◌else◌,
}
use incusos_builder.Base.Int.{pos}
use incusos_builder.Base.Text.{Text, codes, text_eq}
use incusos_builder.Errdefs.{Result, ok, is, Sentinel-discrete}
use incusos_builder.Images.{image_raw, UpdateFile}
use incusos_builder.Build.Samples.{two_bytes, remaining, two_bytes-IsReader}
use incusos_builder.Update.Store.{Store, CachedAsset, copy_hashed, write_temp, commit, admit}
use incusos_builder.Update.Fetch.{
  Response, Client, World, check_response, get_once, admit_once, should_retry_download, fetch_loop,
  fetch_and_admit, asset,
}
use incusos_builder.Update.Fetch.Verified.{Acquires, asset-Acquires}

abbrev reply : ℕ → Response two_bytes
reply status = record { has_url = true; is_https = true; status = status; body = 7 ∷ 8 ∷ 9 ∷ [] }

-- The client answers with the statuses of its state.
abbrev statuses : List ℕ → Result (Response two_bytes) × List ℕ
statuses [] = (ok (reply 404), [])
statuses (s ∷ ss) = (ok (reply s), ss)

abbrev flaky : Client two_bytes
flaky = record { State = List ℕ; get = λ version filename c. statuses c }

abbrev hex_digest : Text
hex_digest = codes "e3b0c44298fc1c149afbf4c8996fb92427ae41e4649b934ca495991b7852b855"

abbrev digest : List ℕ → Text
digest bytes = if text_eq bytes (7 ∷ 8 ∷ 9 ∷ []) then hex_digest else []

abbrev wanted : UpdateFile
wanted = record {
  architecture = codes "x86_64";
  filename = codes "a";
  sha256 = hex_digest;
  size = pos 3;
  file_type = image_raw;
}

abbrev empty_cache : Store
empty_cache = record { entries = λ d. none; faults = []; polls = [] }

abbrev fresh : List ℕ → World two_bytes flaky digest
fresh c = record { client = c; store = empty_cache; admissions = 0 }

abbrev result_of :
    Option (Result CachedAsset × World two_bytes flaky digest) → Option (Result CachedAsset)
result_of none = none
result_of (some (r, w)) = some r

retried :
    result_of (fetch_and_admit two_bytes flaky digest 9 (codes "1") wanted (fresh (503 ∷ 200 ∷ [])))
    ≡ some (ok (record { digest = hex_digest; size = pos 3 }))
unfolding fetch_and_admit fetch_loop admit_once get_once check_response should_retry_download admit
    copy_hashed write_temp commit text_eq is Sentinel-discrete
retried = refl

asset-Acquires_example :
    Acquires two_bytes flaky digest remaining two_bytes-IsReader 3 wanted
      (fresh (503 ∷ 200 ∷ []))
      (asset two_bytes flaky digest 9 (codes "1") wanted (fresh (503 ∷ 200 ∷ [])))
asset-Acquires_example =
    asset-Acquires two_bytes flaky digest remaining two_bytes-IsReader 9 (codes "1") wanted
      (fresh (503 ∷ 200 ∷ [])) (omega arith)
