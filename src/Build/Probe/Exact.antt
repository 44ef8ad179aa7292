-- ===== src/Build/Probe/Exact.antt =====
-- The whole probe, on an image of bytes: it fails with an acquisition error or returns the exact
-- byte span of the partition at the expected start.
use incusos_builder.Base.{
  ℕ, zero, suc, ◌+◌, ◌-◌, ◌*◌, ◌≤◌, ◌<◌, ◌≡◌, refl, inl, inr, List, [], ◌∷◌, length, All, arith,
  Bool-cases, ==_iff, leb, ◌==◌, not, if◌then◌else◌, take, drop,
}
use incusos_builder.Errdefs.{
  wrap, lit, num, Result, ok, err, Wraps, fetch, is-errorf, is-join, errorf, join, sentinel,
}
use incusos_builder.Run.{Run, done, failed, panicked, region, Ensures, length-region}
use incusos_builder.Build.Probe.{
  Stream, SeedPartition, little_endian, max_int64, max_uint64, parse_head, parse_gpt, probe,
  read_limited, gpt_head_limit,
}
use incusos_builder.Build.Probe.Words.{partition_range_iff, little_endian-lt}
use incusos_builder.Build.Probe.Entries.{Gives}
use incusos_builder.Build.Probe.Sound.{Located, parse_head-Located}

abbrev pub IsByte : ℕ → Type 0
IsByte b = b < 256

All-take : (n : ℕ) (xs : List ℕ) → All IsByte xs → All IsByte (take n xs)
All-take zero xs h = tt
All-take (suc n) [] h = tt
All-take (suc n) (x ∷ xs) h = (h.0, All-take n xs h.1)

All-drop : (n : ℕ) (xs : List ℕ) → All IsByte xs → All IsByte (drop n xs)
All-drop zero xs h = h
All-drop (suc n) [] h = tt
All-drop (suc n) (x ∷ xs) h = All-drop n xs h.1

All-region : (lo n : ℕ) (xs : List ℕ) → All IsByte xs → All IsByte (region lo n xs)
All-region lo n xs h = All-take n (drop lo xs) (All-drop lo xs h)

take-eq_self : (n : ℕ) (xs : List ℕ) → length xs ≤ n → take n xs ≡ xs
take-eq_self zero [] h = refl
take-eq_self zero (x ∷ xs) h = absurd (omega arith)
take-eq_self (suc n) [] h = refl
take-eq_self (suc n) (x ∷ xs) h = rw (take-eq_self n xs (omega arith))

-- The span of the partition in sectors, and its exact size in bytes.
pub record IsSpan (secsz first last : ℕ) (part : SeedPartition) : Type 0 where
  pub ordered : first ≤ last
  pub start_exact : part.start_byte ≡ first * secsz
  pub length_exact : part.length_bytes ≡ (last - first + 1) * secsz
  pub start_fits : part.start_byte ≤ max_int64
  pub length_fits : part.length_bytes ≤ max_int64

-- A partition that the probe returns for an image: it stands in the image's table, and spans
-- exactly the sectors that its entry names.
pub record IsSeedData (image : List ℕ) (part : SeedPartition) : Type 0 where
  pub place : Located image part
  pub entry : List ℕ
  pub entry_at :
      entry
      ≡ region
          (place.index * place.esize)
          place.esize
          (region (place.lba * place.secsz) (place.nparts * place.esize) image)
  pub exact :
      IsSpan place.secsz
        (little_endian (region 32 8 entry))
        (little_endian (region 40 8 entry))
        part

last_fits :
    (entry : List ℕ)
    → All IsByte entry
    → 48 ≤ length entry
    → little_endian (region 40 8 entry) ≤ max_uint64
last_fits entry bytes long =
    let eight = length-region 40 8 entry long in
    let below = little_endian-lt (region 40 8 entry) (All-region 40 8 entry bytes) in
    omega (arith, rw eight at below)

Gives-IsSpan :
    (entry : List ℕ) (secsz : ℕ) (part : SeedPartition)
    → All IsByte entry
    → 48 ≤ length entry
    → Gives entry secsz part
    → IsSpan secsz (little_endian (region 32 8 entry)) (little_endian (region 40 8 entry)) part
Gives-IsSpan entry secsz part bytes long g =
    let r =
      (partition_range_iff (little_endian (region 32 8 entry)) (little_endian (region 40 8 entry))
          secsz part.start_byte part.length_bytes (last_fits entry bytes long)).0
        g.spans in
    record {
      ordered = r.0;
      start_exact = r.2;
      length_exact = r.4;
      start_fits = r.3;
      length_fits = r.5;
    }

row_fits : (i n e : ℕ) → i < n → i * e + e ≤ n * e
row_fits i n e h = grind arith

Located-IsSeedData :
    (image : List ℕ) (part : SeedPartition)
    → All IsByte image
    → Located image part
    → IsSeedData image part
Located-IsSeedData image part bytes l =
    let table = region (l.lba * l.secsz) (l.nparts * l.esize) image in
    let entry = region (l.index * l.esize) l.esize table in
    let table_long = length-region (l.lba * l.secsz) (l.nparts * l.esize) image l.table_fits in
    let inside : l.index * l.esize + l.esize ≤ length table =
      omega (arith, row_fits l.index l.nparts l.esize l.index_below, table_long) in
    let entry_long = length-region (l.index * l.esize) l.esize table inside in
    record {
      place = l;
      entry = entry;
      entry_at = refl;
      exact =
          Gives-IsSpan entry l.secsz part
            (All-region (l.index * l.esize) l.esize table
              (All-region (l.lba * l.secsz) (l.nparts * l.esize) image bytes))
            (omega (arith, l.entry_size, entry_long)) l.gives;
    }

-- The part of the stream that is read: the head limit at most.
head_of :
    (limit : ℕ) (r : Stream) (image : List ℕ)
    → read_limited limit r ≡ ok image
    → image ≡ take limit r.content
head_of limit r image h = elim (Bool-cases (leb limit (length r.content))) [
  | inl long ↦ ground arith
  | inr short ↦ let whole = take-eq_self limit r.content (ground arith) in ground (arith, whole)
]

parse_gpt-Located : (r : Stream) → Ensures (Located (take gpt_head_limit r.content)) (parse_gpt r)
unfolding parse_gpt
parse_gpt-Located r =
    go (read_limited gpt_head_limit r) (λ image read. head_of gpt_head_limit r image read)
  where
    go :
        (read : Result (List ℕ))
        → ((image : List ℕ) → read ≡ ok image → image ≡ take gpt_head_limit r.content)
        → Ensures (Located (take gpt_head_limit r.content)) (elim read [
          | err e ↦ failed (wrap e (lit "read GPT head" ∷ []))
          | ok head ↦ parse_head head
        ])
    go (err e) same = tt
    go (ok image) same = rw (← same image refl) (parse_head-Located image)

-- What `probe` promises: no panic; a partition that starts where it is expected and is described
-- by the table in the first MiB of the image; or an error that wraps ErrFetch.
abbrev pub Probed : Stream → ℕ → Run SeedPartition → Type 0
Probed r expected (done part) =
    (part.start_byte ≡ expected) × IsSeedData (take gpt_head_limit r.content) part
Probed r expected (failed e) = Wraps fetch e
Probed r expected panicked = ⊥

-- For an image of bytes, whatever they are, `probe` does not panic. It fails with an error that
-- wraps ErrFetch, or it returns the exact byte span of a seed-data entry of the image's table, and
-- that span starts where the caller expects it.
pub probe-Probed :
    (r : Stream) (expected : ℕ) → All IsByte r.content → Probed r expected (probe (ok r) expected)
unfolding probe
probe-Probed r expected bytes = go (parse_gpt r) (parse_gpt-Located r)
  where
    go :
        (out : Run SeedPartition)
        → Ensures (Located (take gpt_head_limit r.content)) out
        → Probed r expected (elim out [
          | failed e ↦ failed (join (sentinel fetch) e)
          | panicked ↦ panicked
          | done part ↦
              if not (part.start_byte == expected)
              then failed (
                  errorf fetch (
                    lit "seed-data starts at byte "
                    ∷ num part.start_byte
                    ∷ lit ", expected "
                    ∷ num expected
                    ∷ []))
              else done part
        ])
    go (failed e) p = is-join fetch e
    go panicked p = p
    go (done part) p = elim (Bool-cases (part.start_byte == expected)) [
      | inr drift ↦ rw drift (is-errorf fetch _)
      | inl same ↦ rw same (
        (==_iff part.start_byte expected).0 same,
        Located-IsSeedData (take gpt_head_limit r.content) part
            (All-take gpt_head_limit r.content bytes) p,
      )
    ]
