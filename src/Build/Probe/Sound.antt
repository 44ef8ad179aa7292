-- ===== src/Build/Probe/Sound.antt =====
-- The probe never panics, whatever the image holds, and what it returns stands in the table.
use incusos_builder.Base.{
  ℕ, ◌+◌, ◌-◌, ◌*◌, ◌≤◌, ◌<◌, ◌≡◌, refl, inl, inr, ◌||◌, List, [], ◌∷◌, length, In, arith,
  Bool-cases, ltb, ◌==◌,
}
use incusos_builder.Errdefs.{Result-cases, plain, lit, num}
use incusos_builder.Run.{
  Run, done, failed, panicked, call, region, slice, slice_within, length-region, Ensures,
  Ensures->>=, fail_if, ◌>>=◌, ◌>>◌,
}
use incusos_builder.Build.Probe.{
  SeedPartition, gpt_signature, little_endian, gpt_index, gpt_entries_len, find_gpt_header,
  entry_loop, parse_head,
}
use incusos_builder.Build.Probe.Words.{gpt_index_iff, gpt_entries_len_iff}
use incusos_builder.Build.Probe.Entries.{
  HasHeader, find_header-Ensures, FromTable, entry_loop-Ensures, Gives,
}

-- Where in the image the partition's entry stands: behind a signed header at LBA 1, in a plausible
-- table that lies in the image as a whole.
pub record Located (image : List ℕ) (part : SeedPartition) : Type 0 where
  pub secsz : ℕ
  pub index : ℕ
  pub sector : In secsz (512 ∷ 2048 ∷ 4096 ∷ [])
  pub signed : region secsz 8 image ≡ gpt_signature
  pub header_fits : secsz + 92 ≤ length image
  pub lba : ℕ
  pub nparts : ℕ
  pub esize : ℕ
  pub lba_field : lba ≡ little_endian (region 72 8 (region secsz 92 image))
  pub nparts_field : nparts ≡ little_endian (region 80 4 (region secsz 92 image))
  pub esize_field : esize ≡ little_endian (region 84 4 (region secsz 92 image))
  pub entry_size : 128 ≤ esize
  pub count_bounds : (0 < nparts) × (nparts ≤ 4096)
  pub table_fits : lba * secsz + nparts * esize ≤ length image
  pub index_below : index < nparts
  pub gives :
      Gives (region (index * esize) esize (region (lba * secsz) (nparts * esize) image)) secsz part

-- What `parse_head` does once the fields of the header are read.
abbrev parse_table : List ℕ → ℕ → ℕ → ℕ → ℕ → Run SeedPartition
parse_table image secsz lba nparts esize = do
  fail_if (ltb esize 128 || (nparts == 0 || ltb 4096 nparts))
      (plain (lit "implausible GPT: nparts=" ∷ num nparts ∷ lit " esize=" ∷ num esize ∷ []))
  entries_off ← call (gpt_index lba secsz)
  entries_len ← call (gpt_entries_len nparts esize)
  fail_if (ltb (length image) entries_off || ltb (length image - entries_off) entries_len) (
      plain
        (lit "GPT entry array at LBA " ∷ num lba ∷ lit " does not fit in the streamed head" ∷ []))
  entries ← slice entries_off (entries_off + entries_len) image
  entry_loop nparts 0 entries esize secsz

module _ (image : List ℕ) (secsz lba nparts esize : ℕ) where
  -- The table is plausible, lies in the image, and one of its entries gives the partition.
  record InTable (part : SeedPartition) : Type 0 where
    index : ℕ
    entry_size : 128 ≤ esize
    count_bounds : (0 < nparts) × (nparts ≤ 4096)
    table_fits : lba * secsz + nparts * esize ≤ length image
    index_below : index < nparts
    gives :
        Gives
          (region (index * esize) esize (region (lba * secsz) (nparts * esize) image))
          secsz
          part

  loop-InTable :
      128 ≤ esize
      → (0 < nparts) × (nparts ≤ 4096)
      → lba * secsz + nparts * esize ≤ length image
      → Ensures InTable
          (entry_loop nparts 0 (region (lba * secsz) (nparts * esize) image) esize secsz)
  loop-InTable big count fits =
      go (entry_loop nparts 0 (region (lba * secsz) (nparts * esize) image) esize secsz) (
        entry_loop-Ensures nparts 0 (region (lba * secsz) (nparts * esize) image) esize secsz nparts
          big (omega arith)
          (omega (arith, length-region (lba * secsz) (nparts * esize) image fits)))
    where
      go :
          (r : Run SeedPartition)
          → Ensures (FromTable (region (lba * secsz) (nparts * esize) image) esize secsz 0 nparts) r
          → Ensures InTable r
      go (done part) p = record {
        index = p.index;
        entry_size = big;
        count_bounds = count;
        table_fits = fits;
        index_below = p.below;
        gives = p.gives;
      }
      go (failed e) p = tt
      go panicked p = p

  parse_table-InTable : Ensures InTable (parse_table image secsz lba nparts esize)
  parse_table-InTable = elim (Bool-cases (ltb esize 128 || (nparts == 0 || ltb 4096 nparts))) [
    | inl implausible ↦ rw implausible tt
    | inr plausible ↦ elim (Result-cases (gpt_index lba secsz)) [
      | inr (e, refused) ↦ rw (plausible, refused) tt
      | inl (off, at) ↦ elim (Result-cases (gpt_entries_len nparts esize)) [
        | inr (e, refused) ↦ rw (plausible, at, refused) tt
        | inl (len, long) ↦
            let off_eq = ((gpt_index_iff lba secsz off).0 at).1 in
            let len_eq = ((gpt_entries_len_iff nparts esize len).0 long).0 in
            elim (Bool-cases (ltb (length image) off || ltb (length image - off) len)) [
              | inl outside ↦ rw (plausible, at, long, outside) tt
              | inr inside ↦
                  let fits : off + len ≤ length image = ground arith in
                  rw (plausible, at, long, inside, slice_within off len image fits)
                    (rw (off_eq, len_eq)
                      (loop-InTable (ground arith) (ground arith, ground arith) (ground arith)))
            ]
      ]
    ]
  ]

-- What the table gives is located, once the fields of the header are known.
Located-of_table :
    (image : List ℕ) (secsz : ℕ)
    → In secsz (512 ∷ 2048 ∷ 4096 ∷ [])
    → secsz + 92 ≤ length image
    → region secsz 8 image ≡ gpt_signature
    → let hdr = region secsz 92 image in
      let lba = little_endian (region 72 8 hdr) in
      let nparts = little_endian (region 80 4 hdr) in
      let esize = little_endian (region 84 4 hdr) in
      (r : Run SeedPartition)
      → Ensures (InTable image secsz lba nparts esize) r
      → Ensures (Located image) r
Located-of_table image secsz sector fits signed (done part) t = record {
  secsz = secsz;
  index = t.index;
  sector = sector;
  signed = signed;
  header_fits = fits;
  lba = _;
  nparts = _;
  esize = _;
  lba_field = refl;
  nparts_field = refl;
  esize_field = refl;
  entry_size = t.entry_size;
  count_bounds = t.count_bounds;
  table_fits = t.table_fits;
  index_below = t.index_below;
  gives = t.gives;
}
Located-of_table image secsz sector fits signed (failed e) t = tt
Located-of_table image secsz sector fits signed panicked t = t

-- The probe of a head never panics, and a partition that it returns is located in the image.
pub parse_head-Located : (image : List ℕ) → Ensures (Located image) (parse_head image)
unfolding parse_head find_gpt_header
parse_head-Located image =
    Ensures->>= (HasHeader image (512 ∷ 2048 ∷ 4096 ∷ [])) (Located image) _ _
      (find_header-Ensures image (512 ∷ 2048 ∷ 4096 ∷ []))
      λ h eq has.
        let secsz = h.0 in
        let hdr = region secsz 92 image in
        let fits : secsz + 92 ≤ length image = omega (arith, has.fits, has.at_lba1) in
        let long = length-region secsz 92 image fits in
        rw (has.at_lba1, slice_within secsz 92 image fits)
          (rw
            (
              slice_within 72 8 hdr (omega arith),
              slice_within 80 4 hdr (omega arith),
              slice_within 84 4 hdr (omega arith),
            )
            (Located-of_table image secsz has.sector fits (rw has.at_lba1 at has.signed)
              (parse_table image secsz (little_endian (region 72 8 hdr))
                (little_endian (region 80 4 hdr)) (little_endian (region 84 4 hdr)))
              (parse_table-InTable image secsz (little_endian (region 72 8 hdr))
                (little_endian (region 80 4 hdr)) (little_endian (region 84 4 hdr)))))
