-- ===== src/Build/Probe.antt =====
-- internal/build/probe.go: the GPT of an untrusted image head, and its seed-data partition.
-- `int` and `int64` have 64 bits; a value of either is a number of at least 0 here. The image is
-- what a reader delivers: its bytes, and the error that ends it if that is not EOF.
pub mod Words
pub mod Entries
pub mod Sound
pub mod Exact
mod Tests
use incusos_builder.Base.{
  ℕ, zero, suc, ◌+◌, ◌-◌, ◌*◌, ◌/◌, ◌%◌, ◌^◌, ◌≡◌, Bool, true, false, not, ◌&&◌, ◌||◌, List, [],
  ◌∷◌, ◌++◌, length, take, drop, ltb, leb, ◌==◌, if◌then◌else◌, Option, none, some,
}
use incusos_builder.Base.Text.{Text, codes, text_eq}
use incusos_builder.Errdefs.{
  Result, ok, err, Error, errorf, wrap, plain, Message, lit, num, fetch, join,
}
use incusos_builder.Run.{Run, done, failed, panicked, call, slice, fail_if, ◌>>=◌, ◌>>◌}

-- What a reader delivers: its bytes, and the error, if any, that a read of its own reports after the
-- last of them.
pub record Stream : Type 0 where
  pub content : List ℕ
  pub failure : Option Error

-- `seedPartition`.
pub record SeedPartition : Type 0 where
  pub start_byte : ℕ
  pub length_bytes : ℕ

-- `math.MaxInt64`, `math.MaxInt`.
abbrev pub max_int64 : ℕ
max_int64 = 2 ^ 63 - 1

abbrev pub max_uint64 : ℕ
max_uint64 = 2 ^ 64 - 1

abbrev pub gpt_head_limit : ℕ
gpt_head_limit = 2 ^ 20

abbrev pub gpt_header_len : ℕ
gpt_header_len = 92

abbrev pub gpt_signature : Text
gpt_signature = codes "EFI PART"

abbrev pub seed_part_name : Text
seed_part_name = codes "seed-data"

-- `binary.LittleEndian`.
unfoldable pub little_endian : List ℕ → ℕ
little_endian [] = 0
little_endian (b ∷ bs) = b + 256 * little_endian bs

-- `bits.Mul64`: the high and the low word of the product.
abbrev pub mul64 : ℕ → ℕ → ℕ × ℕ
mul64 a b = (a * b / 2 ^ 64, a * b % 2 ^ 64)

-- `gptBytes`.
unfoldable pub gpt_bytes : ℕ → ℕ → Result ℕ
gpt_bytes lba secsz =
    let hi = (mul64 lba secsz).0 in
    let lo = (mul64 lba secsz).1 in
    if leb secsz 0
    then err (plain (lit "invalid sector size " ∷ num secsz ∷ []))
    else if not (hi == 0) || ltb max_int64 lo
    then err (plain (lit "GPT LBA " ∷ num lba ∷ lit " overflows at sector size " ∷ num secsz ∷ []))
    else ok lo

-- `gptIndex`.
unfoldable pub gpt_index : ℕ → ℕ → Result ℕ
unfolding gpt_bytes
gpt_index lba secsz = elim (gpt_bytes lba secsz) [
  | err e ↦ err e
  | ok off ↦
      if ltb max_int64 off
      then err (
          plain (
            lit "GPT LBA "
            ∷ num lba
            ∷ lit " overflows addressable range at sector size "
            ∷ num secsz
            ∷ []))
      else ok off
]

-- `gptEntriesLen`.
unfoldable pub gpt_entries_len : ℕ → ℕ → Result ℕ
gpt_entries_len nparts esize =
    let hi = (mul64 nparts esize).0 in
    let lo = (mul64 nparts esize).1 in
    if not (hi == 0) || ltb max_int64 lo
    then err (
        plain (
          lit "GPT entry array size overflows: nparts="
          ∷ num nparts
          ∷ lit " esize="
          ∷ num esize
          ∷ []))
    else ok lo

-- `partitionRange`: start and length in bytes.
unfoldable pub partition_range : ℕ → ℕ → ℕ → Result (ℕ × ℕ)
partition_range first last secsz =
    if ltb last first
    then err (plain (lit "seed-data last LBA " ∷ num last ∷ lit " < first LBA " ∷ num first ∷ []))
    else if last - first == max_uint64
    then err (
        plain (
          lit "seed-data span overflows: first LBA "
          ∷ num first
          ∷ lit " last LBA "
          ∷ num last
          ∷ []))
    else elim (gpt_bytes first secsz) [
      | err e ↦ err e
      | ok start ↦ elim (gpt_bytes ((last - first + 1) % 2 ^ 64) secsz) [
        | err e ↦ err e
        | ok len ↦ ok (start, len)
      ]
    ]

-- The loop of `findGPTHeader` over the sector sizes left: sector size and header offset.
unfoldable pub find_header : List ℕ → List ℕ → Run (ℕ × ℕ)
find_header data' [] =
    failed (plain (lit "no EFI PART signature at LBA1 (512, 2048, or 4096)" ∷ []))
find_header data' (sz ∷ sizes) =
    let rest = find_header data' sizes in
    let test : Run (ℕ × ℕ) = (do
      sig ← slice sz (sz + length gpt_signature) data'
      (if text_eq sig gpt_signature then done (sz, sz) else rest)) in
    if ltb (length data') (sz + gpt_header_len) then rest else test

-- `findGPTHeader`.
unfoldable pub find_gpt_header : List ℕ → Run (ℕ × ℕ)
unfolding find_header
find_gpt_header data' = find_header data' (512 ∷ 2048 ∷ 4096 ∷ [])

-- `partitionTypeZero`.
unfoldable pub partition_type_zero : List ℕ → Bool
partition_type_zero [] = true
partition_type_zero (b ∷ bs) =
    let rest = partition_type_zero bs in if not (b == 0) then false else rest

-- The 16-bit code units of a partition name.
unfoldable pub units16 : List ℕ → List ℕ
units16 (a ∷ b ∷ rest) = (a + 256 * b) ∷ units16 rest
units16 (a ∷ []) = []
units16 [] = []

-- The units before the first zero.
unfoldable pub until_zero : List ℕ → List ℕ
until_zero [] = []
until_zero (c ∷ cs) = let rest = until_zero cs in if c == 0 then [] else c ∷ rest

-- `utf16.Decode`: pairs of surrogates are joined, a lone one becomes U+FFFD. `high` is a high
-- surrogate that waits for its partner.
unfoldable pub utf16_runes : Option ℕ → List ℕ → List ℕ
utf16_runes none [] = []
utf16_runes (some h) [] = 0xfffd ∷ []
utf16_runes none (c ∷ cs) =
    let high = utf16_runes (some c) cs in
    let lone = 0xfffd ∷ utf16_runes none cs in
    let plain_unit = c ∷ utf16_runes none cs in
    if leb 0xd800 c && ltb c 0xdc00
    then high
    else if leb 0xdc00 c && ltb c 0xe000
    then lone
    else plain_unit
utf16_runes (some h) (c ∷ cs) =
    let pair = (0x10000 + (h - 0xd800) * 0x400 + (c - 0xdc00)) ∷ utf16_runes none cs in
    let high = 0xfffd ∷ utf16_runes (some c) cs in
    let other = 0xfffd ∷ c ∷ utf16_runes none cs in
    if leb 0xdc00 c && ltb c 0xe000
    then pair
    else if leb 0xd800 c && ltb c 0xdc00
    then high
    else other

-- The UTF-8 bytes of a rune, as a conversion to `string` writes them.
unfoldable pub utf8_bytes : ℕ → List ℕ
utf8_bytes r =
    if ltb r 0x80
    then r ∷ []
    else if ltb r 0x800
    then (0xc0 + r / 64) ∷ (0x80 + r % 64) ∷ []
    else if ltb r 0x10000
    then (0xe0 + r / 4096) ∷ (0x80 + r / 64 % 64) ∷ (0x80 + r % 64) ∷ []
    else (0xf0 + r / 262144) ∷ (0x80 + r / 4096 % 64) ∷ (0x80 + r / 64 % 64) ∷ (0x80 + r % 64) ∷ []

unfoldable pub utf8 : List ℕ → List ℕ
utf8 [] = []
utf8 (r ∷ rs) = utf8_bytes r ++ utf8 rs

-- `gptName`, of the 72 bytes of a name.
unfoldable pub gpt_name : List ℕ → Text
gpt_name bs = utf8 (utf16_runes none (until_zero (units16 bs)))

-- The body of the loop over the entries, for one entry: `none` is `continue`.
unfoldable pub read_entry : List ℕ → ℕ → Run (Option SeedPartition)
read_entry entry secsz = do
  type_guid ← slice 0 16 entry
  (if partition_type_zero type_guid then done none else (do
    name ← slice 56 (56 + 72) entry
    (if not (text_eq (gpt_name name) seed_part_name) then done none else (do
      first ← slice 32 (32 + 8) entry
      last ← slice 40 (40 + 8) entry
      range ← call (partition_range (little_endian first) (little_endian last) secsz)
      done (some (record { start_byte = range.0; length_bytes = range.1 }))))))

-- The loop over the entries that are left, from number `i` on.
unfoldable pub entry_loop : ℕ → ℕ → List ℕ → ℕ → ℕ → Run SeedPartition
entry_loop zero i entries esize secsz = failed (plain (lit "no seed-data partition in GPT" ∷ []))
entry_loop (suc left) i entries esize secsz =
    let rest = entry_loop left (i + 1) entries esize secsz in
    (do
      entry ← slice (i * esize) (i * esize + esize) entries
      found ← read_entry entry secsz
      elim found [ none ↦ rest | some part ↦ done part ])

-- `io.ReadAll(io.LimitReader(r, limit))`.
abbrev pub read_limited : ℕ → Stream → Result (List ℕ)
read_limited limit r =
    if leb limit (length r.content)
    then ok (take limit r.content)
    else elim r.failure [ none ↦ ok r.content | some e ↦ err e ]

-- What `parseGPT` does with the head that it has read.
unfoldable pub parse_head : List ℕ → Run SeedPartition
parse_head data' = do
  header ← find_gpt_header data'
  hdr ← slice header.1 (header.1 + gpt_header_len) data'
  lba_bytes ← slice 72 (72 + 8) hdr
  nparts_bytes ← slice 80 (80 + 4) hdr
  esize_bytes ← slice 84 (84 + 4) hdr
  let part_lba = little_endian lba_bytes
  let nparts = little_endian nparts_bytes
  let esize = little_endian esize_bytes
  fail_if (ltb esize 128 || (nparts == 0 || ltb 4096 nparts))
      (plain (lit "implausible GPT: nparts=" ∷ num nparts ∷ lit " esize=" ∷ num esize ∷ []))
  entries_off ← call (gpt_index part_lba header.0)
  entries_len ← call (gpt_entries_len nparts esize)
  fail_if (ltb (length data') entries_off || ltb (length data' - entries_off) entries_len) (
      plain (
        lit "GPT entry array at LBA "
        ∷ num part_lba
        ∷ lit " does not fit in the streamed head"
        ∷ []))
  entries ← slice entries_off (entries_off + entries_len) data'
  entry_loop nparts 0 entries esize header.0

-- `parseGPT`.
unfoldable pub parse_gpt : Stream → Run SeedPartition
parse_gpt r = elim (read_limited gpt_head_limit r) [
  | err e ↦ failed (wrap e (lit "read GPT head" ∷ []))
  | ok head ↦ parse_head head
]

-- `probe`, of the handle's decompressed stream, or of the error of opening it.
unfoldable pub probe : Result Stream → ℕ → Run SeedPartition
probe opened expected_start = elim opened [
  | err e ↦ failed (join (Error.sentinel fetch) e)
  | ok r ↦ elim (parse_gpt r) [
    | failed e ↦ failed (join (Error.sentinel fetch) e)
    | panicked ↦ panicked
    | done part ↦
        if not (part.start_byte == expected_start)
        then failed (
            errorf fetch (
              lit "seed-data starts at byte "
              ∷ num part.start_byte
              ∷ lit ", expected "
              ∷ num expected_start
              ∷ []))
        else done part
  ]
]
