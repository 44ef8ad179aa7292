-- ===== src/Build/Probe/Words.antt =====
-- The arithmetic of the probe on untrusted 64-bit words: exact, or refused.
use incusos_builder.Base.{
  ℕ, ◌≢◌, ◌+◌, ◌-◌, ◌*◌, ◌%◌, ◌^◌, ◌≤◌, ◌<◌, ◌≡◌, ◌↔◌, List, [], ◌∷◌, All, length, arith,
}
use native.Mathlib.Nat.{pow-suc}
use incusos_builder.Errdefs.{Result, ok, err}
use incusos_builder.Build.Probe.{
  max_int64, max_uint64, little_endian, gpt_bytes, gpt_index, gpt_entries_len, partition_range,
}

-- `gptBytes` yields the exact product, and exactly when it fits in an int64.
pub gpt_bytes_iff :
    (lba secsz n : ℕ)
    → (gpt_bytes lba secsz ≡ ok n) ↔ ((0 < secsz) × (n ≡ lba * secsz) × (n ≤ max_int64))
unfolding gpt_bytes
gpt_bytes_iff lba secsz n = (λ h. ground arith, λ h. ground arith)

pub gpt_index_iff :
    (lba secsz n : ℕ)
    → (gpt_index lba secsz ≡ ok n) ↔ ((0 < secsz) × (n ≡ lba * secsz) × (n ≤ max_int64))
unfolding gpt_index
gpt_index_iff lba secsz n = (λ h. ground arith, λ h. ground arith)

pub gpt_entries_len_iff :
    (nparts esize n : ℕ)
    → (gpt_entries_len nparts esize ≡ ok n) ↔ ((n ≡ nparts * esize) × (n ≤ max_int64))
unfolding gpt_entries_len
gpt_entries_len_iff nparts esize n = (λ h. ground arith, λ h. ground arith)

-- The length of a span in words that does not wrap.
span_exact :
    (first last : ℕ)
    → last ≤ max_uint64
    → last - first ≢ max_uint64
    → (last - first + 1) % 2 ^ 64 ≡ last - first + 1
span_exact first last hl ne = omega arith

-- The two conversions of `partitionRange`, for a span of `count` sectors.
abbrev convert : ℕ → ℕ → ℕ → Result (ℕ × ℕ)
convert first count secsz = elim (gpt_bytes first secsz) [
  | err e ↦ err e
  | ok start ↦ elim (gpt_bytes count secsz) [ err e ↦ err e | ok len ↦ ok (start, len) ]
]

convert_iff :
    (first count secsz start len : ℕ)
    → (convert first count secsz ≡ ok (start, len))
      ↔ ((gpt_bytes first secsz ≡ ok start) × (gpt_bytes count secsz ≡ ok len))
convert_iff first count secsz start len = (λ h. ground arith, λ h. ground arith)

partition_range-convert :
    (first last secsz : ℕ)
    → first ≤ last
    → last ≤ max_uint64
    → last - first ≢ max_uint64
    → partition_range first last secsz ≡ convert first (last - first + 1) secsz
unfolding partition_range
partition_range-convert first last secsz le hl ne = ground (arith, span_exact first last hl ne)

partition_range_guards :
    (first last secsz start len : ℕ)
    → partition_range first last secsz ≡ ok (start, len)
    → (first ≤ last) × (last - first ≢ max_uint64)
unfolding partition_range
partition_range_guards first last secsz start len h = (ground arith, λ e. ground arith)

-- `partitionRange` of 64-bit words yields the exact first byte and length of the span, and exactly
-- when the words are in order and both products fit in an int64: nothing wraps.
pub partition_range_iff :
    (first last secsz start len : ℕ)
    → last ≤ max_uint64
    → (partition_range first last secsz ≡ ok (start, len)) ↔ (
        (first ≤ last)
        × (0 < secsz)
        × (start ≡ first * secsz)
        × (start ≤ max_int64)
        × (len ≡ (last - first + 1) * secsz)
        × (len ≤ max_int64))
partition_range_iff first last secsz start len hl = (
  λ h.
      let (le, ne) = partition_range_guards first last secsz start len h in
      let (a, b) =
        (convert_iff first (last - first + 1) secsz start len).0
          (rw (partition_range-convert first last secsz le hl ne) at h) in
      let s = (gpt_bytes_iff first secsz start).0 a in
      let l = (gpt_bytes_iff (last - first + 1) secsz len).0 b in (le, s.0, s.1, s.2, l.1, l.2),
  λ h.
      let ne : last - first ≢ max_uint64 = (λ e. grind arith) in
      rw (partition_range-convert first last secsz h.0 hl ne) (
        (convert_iff first (last - first + 1) secsz start len).1 (
          (gpt_bytes_iff first secsz start).1 (h.1, h.2, h.3),
          (gpt_bytes_iff (last - first + 1) secsz len).1 (h.1, h.4, h.5),
        )),
)

-- A little-endian number of `n` bytes is below 256 ^ n.
pub little_endian-lt : (bs : List ℕ) → All (λ b. b < 256) bs → little_endian bs < 256 ^ length bs
unfolding little_endian
little_endian-lt [] h = omega arith
little_endian-lt (b ∷ bs) h = rw pow-suc (omega (arith, little_endian-lt bs h.1))
