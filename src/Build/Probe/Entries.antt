-- ===== src/Build/Probe/Entries.antt =====
-- The header search and the loop over the entries: neither panics, and what each of them finds.
use incusos_builder.Base.{
  ℕ, zero, suc, ◌+◌, ◌*◌, ◌≤◌, ◌<◌, ◌≡◌, refl, inl, inr, false, Option, none, some, List, [], ◌∷◌,
  length, In, arith, Bool-cases, ltb,
}
use incusos_builder.Base.Text.{text_eq, text_eq_iff}
use incusos_builder.Errdefs.{ok, Result-cases}
use incusos_builder.Run.{
  Run, done, failed, panicked, region, slice_within, length-region, Ensures, Ensures->>=,
}
use incusos_builder.Build.Probe.{
  SeedPartition, gpt_header_len, gpt_signature, seed_part_name, little_endian, partition_range,
  find_header, partition_type_zero, gpt_name, read_entry, entry_loop,
}

-- A GPT header with its signature at LBA 1.
pub record HasHeader (image : List ℕ) (sizes : List ℕ) (h : ℕ × ℕ) : Type 0 where
  pub at_lba1 : h.1 ≡ h.0
  pub sector : In h.0 sizes
  pub fits : h.1 + 92 ≤ length image
  pub signed : region h.1 8 image ≡ gpt_signature

pub find_header-Ensures :
    (image : List ℕ) (sizes : List ℕ) → Ensures (HasHeader image sizes) (find_header image sizes)
unfolding find_header
find_header-Ensures image [] = tt
find_header-Ensures image (sz ∷ sizes) =
    let later = go (find_header image sizes) (find_header-Ensures image sizes) in
    elim (Bool-cases (ltb (length image) (sz + gpt_header_len))) [
      | inl short ↦ rw short later
      | inr fits ↦
          let enough : sz + 92 ≤ length image = ground arith in
          rw (fits, slice_within sz 8 image (omega arith))
            (elim (Bool-cases (text_eq (region sz 8 image) gpt_signature)) [
              | inl signed ↦ rw signed (record {
                at_lba1 = refl;
                sector = inl refl;
                fits = enough;
                signed = (text_eq_iff (region sz 8 image) gpt_signature).0 signed;
              })
              | inr other ↦ rw other later
            ])
    ]
  where
    go :
        (r : Run (ℕ × ℕ))
        → Ensures (HasHeader image sizes) r
        → Ensures (HasHeader image (sz ∷ sizes)) r
    go (done h) p = record {
      at_lba1 = p.at_lba1;
      sector = inr p.sector;
      fits = p.fits;
      signed = p.signed;
    }
    go (failed e) p = tt
    go panicked p = p

-- The entry is in use, is named seed-data, and its two words span the partition.
pub record Gives (entry : List ℕ) (secsz : ℕ) (part : SeedPartition) : Type 0 where
  pub used : partition_type_zero (region 0 16 entry) ≡ false
  pub named : gpt_name (region 56 72 entry) ≡ seed_part_name
  pub spans :
      partition_range (little_endian (region 32 8 entry)) (little_endian (region 40 8 entry)) secsz
      ≡ ok (part.start_byte, part.length_bytes)

abbrev GivesIf : List ℕ → ℕ → Option SeedPartition → Type 0
GivesIf entry secsz none = Unit
GivesIf entry secsz (some part) = Gives entry secsz part

read_entry-Ensures :
    (entry : List ℕ) (secsz : ℕ)
    → 128 ≤ length entry
    → Ensures (GivesIf entry secsz) (read_entry entry secsz)
unfolding read_entry
read_entry-Ensures entry secsz h =
    rw (slice_within 0 16 entry (omega arith))
      (elim (Bool-cases (partition_type_zero (region 0 16 entry))) [
        | inl unused ↦ rw unused tt
        | inr used ↦
            rw (used, slice_within 56 72 entry (omega arith))
              (elim (Bool-cases (text_eq (gpt_name (region 56 72 entry)) seed_part_name)) [
                | inr other ↦ rw other tt
                | inl named ↦
                    rw
                      (
                        named,
                        slice_within 32 8 entry (omega arith),
                        slice_within 40 8 entry (omega arith),
                      )
                      (elim (Result-cases (
                        partition_range (little_endian (region 32 8 entry))
                          (little_endian (region 40 8 entry)) secsz)) [
                            | inl (range, spans) ↦ rw spans (record {
                              used = used;
                              named =
                                  (text_eq_iff (gpt_name (region 56 72 entry)) seed_part_name).0
                                    named;
                              spans = spans;
                            })
                            | inr (e, refused) ↦ rw refused tt
                          ])
              ])
      ])

-- One of the entries from `i` to the end of the table gives the partition.
pub record FromTable (entries : List ℕ) (esize secsz i bound : ℕ) (part : SeedPartition)
    : Type 0 where
  pub index : ℕ
  pub from : i ≤ index
  pub below : index < bound
  pub gives : Gives (region (index * esize) esize entries) secsz part

pub entry_loop-Ensures :
    (left i : ℕ) (entries : List ℕ) (esize secsz bound : ℕ)
    → 128 ≤ esize
    → i + left ≡ bound
    → bound * esize ≤ length entries
    → Ensures (FromTable entries esize secsz i bound) (entry_loop left i entries esize secsz)
unfolding entry_loop
entry_loop-Ensures zero i entries esize secsz bound big e fits = tt
entry_loop-Ensures (suc left) i entries esize secsz bound big e fits =
    let within : i * esize + esize ≤ length entries = grind arith in
    let entry = region (i * esize) esize entries in
    let rest =
      later (entry_loop left (i + 1) entries esize secsz)
        (entry_loop-Ensures left (i + 1) entries esize secsz bound big (omega arith) fits) in
    let long : 128 ≤ length entry = omega (arith, length-region (i * esize) esize entries within) in
    rw (slice_within (i * esize) esize entries within) (
      Ensures->>= (GivesIf entry secsz) (FromTable entries esize secsz i bound)
        (read_entry entry secsz) _ (read_entry-Ensures entry secsz long)
        (next (entry_loop left (i + 1) entries esize secsz) rest (omega arith)))
  where
    later :
        (r : Run SeedPartition)
        → Ensures (FromTable entries esize secsz (i + 1) bound) r
        → Ensures (FromTable entries esize secsz i bound) r
    later (done part) p = record {
      index = p.index;
      from = from_next p.index p.from;
      below = p.below;
      gives = p.gives;
    }
      where
        from_next : (j : ℕ) → i + 1 ≤ j → i ≤ j
        from_next j h = omega arith
    later (failed x) p = tt
    later panicked p = p

    next :
        (rest : Run SeedPartition)
        → Ensures (FromTable entries esize secsz i bound) rest
        → i < bound
        → (found : Option SeedPartition)
        → read_entry (region (i * esize) esize entries) secsz ≡ done found
        → GivesIf (region (i * esize) esize entries) secsz found
        → Ensures
            (FromTable entries esize secsz i bound)
            (elim found [ none ↦ rest | some part ↦ done part ])
    next rest p lt none eq g = p
    next rest p lt (some part) eq g = record {
      index = i;
      from = omega arith;
      below = lt;
      gives = g;
    }
