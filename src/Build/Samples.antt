-- ===== src/Build/Samples.antt =====
-- Sample data of the builds: an index, a specification, an image with a GPT of one partition, a reader
-- that hands out two bytes at a time and a writer that keeps what it gets.
use incusos_builder.Base.{
  ℕ, zero, suc, ◌≤◌, ◌<◌, ◌≡◌, refl, sym, true, none, some, List, [], ◌∷◌, ◌++◌, All, all, ltb,
  arith, ltb→lt, length, take, drop, take-append-drop, length-take, take-length, min,
}
use incusos_builder.Base.Int.{pos}
use incusos_builder.Base.Text.{Text, codes}
use incusos_builder.Errdefs.{Error, eof, sentinel}
use incusos_builder.Io.{Reader, Writer, ReadStep, WriteStep, IsReader, IsWriter}
use incusos_builder.Images.{image_raw, image_iso, application, UpdateFile, UpdateFull, Index}
use incusos_builder.Build.Spec.{Seeds, Spec, Plan}
use incusos_builder.Build.Probe.{Stream, gpt_signature, seed_part_name}
use incusos_builder.Build.Probe.Exact.{IsByte}

abbrev pub raw_file : UpdateFile
raw_file = record {
  architecture = codes "x86_64";
  filename = codes "x86_64/os.img.gz";
  sha256 = codes "00";
  size = pos 7;
  file_type = image_raw;
}

abbrev pub iso_file : UpdateFile
iso_file = record raw_file { filename = codes "x86_64/os.iso.gz"; file_type = image_iso }

abbrev pub incus_file : UpdateFile
incus_file = record raw_file { filename = codes "x86_64/incus.raw.gz"; file_type = application }

abbrev pub release_at : Text → UpdateFull
release_at v = record {
  version = v;
  channels = codes "stable" ∷ [];
  files = raw_file ∷ iso_file ∷ incus_file ∷ [];
}

abbrev pub three_updates : Index
three_updates = record {
  updates =
      release_at (codes "2")
      ∷ release_at (codes "3")
      ∷ record (release_at (codes "4")) { channels = codes "testing" ∷ [] }
      ∷ [];
}

abbrev pub no_seeds : Seeds
no_seeds = record {
  applications = none;
  incus = none;
  install = none;
  migration_manager = none;
  network = none;
  operations_center = none;
  provider = none;
  services = none;
  update = none;
  kernel = none;
  security = none;
}

abbrev pub with_incus : Seeds
with_incus = record no_seeds {
  applications =
      some (record { version = codes "1"; applications = record { name = codes "incus" } ∷ [] });
}

abbrev pub raw_spec : Spec
raw_spec = record {
  image_type = codes "raw";
  architecture = codes "x86_64";
  channel = [];
  release = [];
  offline = true;
  seeds = with_incus;
}

abbrev pub raw_plan : Plan
raw_plan = record { version = codes "3"; image = raw_file; apps = incus_file ∷ [] }

unfoldable pub zeros : ℕ → List ℕ
zeros zero = []
zeros (suc n) = 0 ∷ zeros n

-- UTF-16, little endian.
unfoldable pub wide : List ℕ → List ℕ
wide [] = []
wide (b ∷ bs) = b ∷ 0 ∷ wide bs

-- The header at sector 1 points at a table of one entry at sector 2.
unfoldable pub header : List ℕ
header =
    gpt_signature ++ (zeros 64 ++ (2 ∷ zeros 7 ++ (1 ∷ 0 ∷ 0 ∷ 0 ∷ 128 ∷ 0 ∷ 0 ∷ 0 ∷ zeros 424)))

-- The entry: a type, an identity, sectors 4 to 5, and the name.
unfoldable pub entry : List ℕ
entry =
    1 ∷ zeros 31 ++ (4 ∷ zeros 7 ++ (5 ∷ zeros 7 ++ (zeros 8 ++ (wide seed_part_name ++ zeros 54))))

abbrev pub image : Stream
image = record { content = zeros 512 ++ (header ++ entry); failure = none }

pub all-IsByte : (bs : List ℕ) → all (λ b. ltb b 256) bs ≡ true → All IsByte bs
all-IsByte [] h = tt
all-IsByte (b ∷ bs) h = (ltb→lt b 256 (ground arith), all-IsByte bs (ground arith))

pub image_bytes : all (λ b. ltb b 256) image.content ≡ true
unfolding zeros header entry wide
image_bytes = refl

abbrev pub read_two : ℕ → List ℕ → ReadStep (List ℕ)
read_two k [] = record { bytes = []; failure = some (sentinel eof); next = [] }
read_two k (b ∷ bs) = record {
  bytes = take (min k 2) (b ∷ bs);
  failure = none;
  next = drop (min k 2) (b ∷ bs);
}

abbrev pub two_bytes : Reader
two_bytes = record { State = List ℕ; read = read_two }

abbrev pub remaining : List ℕ → List ℕ
remaining bs = bs

pub two_bytes-IsReader : IsReader two_bytes remaining
two_bytes-IsReader = record {
  bounded = bounded;
  delivers = delivers;
  progress = progress;
  ends = ends;
}
  where
    bounded : (k : ℕ) (s : List ℕ) → length (read_two k s).bytes ≤ k
    bounded k [] = omega arith
    bounded k (b ∷ bs) = omega (arith, length-take (min k 2) (b ∷ bs))

    delivers : (k : ℕ) (s : List ℕ) → s ≡ (read_two k s).bytes ++ (read_two k s).next
    delivers k [] = refl
    delivers k (b ∷ bs) = sym (take-append-drop (min k 2) (b ∷ bs))

    progress :
        (k : ℕ) (s : List ℕ)
        → 0 < k
        → (read_two k s).failure ≡ none
        → 0 < length (read_two k s).bytes
    progress k [] h e = cc
    progress k (b ∷ bs) h e =
        let one : length (b ∷ bs) ≡ suc (length bs) = refl in
        omega (arith, length-take (min k 2) (b ∷ bs), one)

    ends :
        (k : ℕ) (s : List ℕ) (e : Error)
        → (read_two k s).failure ≡ some e
        → (read_two k s).next ≡ []
    ends k [] e h = refl
    ends k (b ∷ bs) e h = cc

abbrev pub keep : List ℕ → List ℕ → WriteStep (List ℕ)
keep bs s = record { count = length bs; failure = none; next = s ++ bs }

abbrev pub keeper : Writer
keeper = record { State = List ℕ; write = keep }

pub keeper-IsWriter : IsWriter keeper remaining
keeper-IsWriter = record {
  accepted = λ bs s. omega arith;
  appends = λ bs s. rw (take-length bs) refl;
}
