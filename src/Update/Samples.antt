-- ===== src/Update/Samples.antt =====
-- A server and decoders of a few texts, for the tests.
use incusos_builder.Base.{ℕ, true, some, List, [], ◌∷◌, if◌then◌else◌}
use incusos_builder.Base.Int.{pos}
use incusos_builder.Base.Text.{Text, text_eq, codes}
use incusos_builder.Errdefs.{Result, ok, err, errorf, config}
use incusos_builder.Images.{image_raw, UpdateFile, Index}
use incusos_builder.Build.Samples.{two_bytes}
use incusos_builder.Update.Fetch.{Response, Client}
use incusos_builder.Update.Documents.{Json, at_end, Link}
use incusos_builder.Update.Metadata.{UpdateDocument, Mime, update_json_name}

abbrev pub reply : ℕ → List ℕ → Response two_bytes
reply status body = record { has_url = true; is_https = true; status = status; body = body }

-- The body of a document: the signed one starts with 9.
abbrev pub body_of : Text → List ℕ
body_of name = if text_eq name update_json_name then 7 ∷ 8 ∷ [] else 9 ∷ 7 ∷ 8 ∷ []

-- A server error, while the state says so.
abbrev pub answer : Text → List ℕ → Result (Response two_bytes) × List ℕ
answer name [] = (ok (reply 200 (body_of name)), [])
answer name (status ∷ statuses) = (ok (reply status (body_of name)), statuses)

abbrev pub server : Client two_bytes
server = record { State = List ℕ; get = λ version name c. answer name c }

abbrev pub listed : UpdateFile
listed = record {
  architecture = codes "x86_64";
  filename = codes "a";
  sha256 = codes "b";
  size = pos 3;
  file_type = image_raw;
}

-- The text 7, 8 is the document of version 1.
abbrev pub update_json : Json UpdateDocument
update_json = record {
  first = λ body.
      if text_eq body (7 ∷ 8 ∷ [])
      then ok (record { version = codes "1"; files = listed ∷ [] })
      else err (errorf config []);
  behind = λ body. at_end;
}

abbrev pub index_json : Json Index
index_json = record { first = λ body. ok (record { updates = [] }); behind = λ body. at_end }

-- The payload stands behind the first byte.
abbrev pub payload : List ℕ → List ℕ
payload [] = []
payload (c ∷ s) = s

abbrev pub mime : Mime
mime = record {
  read_message = λ bytes. ok (record { content_type = []; body = bytes });
  parse_media_type = λ t. ok (codes "Multipart/Signed", b'x' ∷ []);
  first_part = λ body boundary. some (ok (payload body));
}

abbrev pub room : ℕ → ℕ
room n = 1

abbrev pub digest : List ℕ → Text
digest bytes = []

abbrev pub link : List ℕ → Link two_bytes room server digest
link statuses = record { client = statuses; polls = [] }
