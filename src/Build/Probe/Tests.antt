-- ===== src/Build/Probe/Tests.antt =====
-- An image with a GPT of one partition, on which the probe is run.
use incusos_builder.Base.{◌+◌, ◌-◌, ◌*◌, ◌≤◌, ◌<◌, ◌≡◌, refl, ◌↔◌, arith}
use incusos_builder.Base.Text.{text_eq}
use incusos_builder.Errdefs.{ok}
use incusos_builder.Run.{done, slice}
use incusos_builder.Build.Probe.{
  max_int64, gpt_bytes, partition_range, probe, parse_gpt, parse_head, find_gpt_header,
  little_endian, gpt_index, gpt_entries_len, entry_loop, read_entry, partition_type_zero, gpt_name,
  utf8, utf16_runes, until_zero, units16, utf8_bytes,
}
use incusos_builder.Build.Probe.Words.{gpt_bytes_iff, partition_range_iff}
use incusos_builder.Build.Probe.Exact.{Probed, probe-Probed}
use incusos_builder.Build.Samples.{zeros, wide, header, entry, image, all-IsByte, image_bytes}

probe_image : probe (ok image) 2048 ≡ done (record { start_byte = 2048; length_bytes = 1024 })
unfolding probe zeros header entry wide parse_gpt parse_head find_gpt_header slice text_eq
    little_endian gpt_index gpt_entries_len entry_loop read_entry partition_type_zero gpt_name
    partition_range gpt_bytes utf8 utf16_runes until_zero units16 utf8_bytes
probe_image = refl

gpt_bytes_iff_example :
    (gpt_bytes 4 512 ≡ ok 2048) ↔ ((0 < 512) × (2048 ≡ 4 * 512) × (2048 ≤ max_int64))
gpt_bytes_iff_example = gpt_bytes_iff 4 512 2048

partition_range_iff_example : (partition_range 4 5 512 ≡ ok (2048, 1024)) ↔ (
    (4 ≤ 5)
    × (0 < 512)
    × (2048 ≡ 4 * 512)
    × (2048 ≤ max_int64)
    × (1024 ≡ (5 - 4 + 1) * 512)
    × (1024 ≤ max_int64))
partition_range_iff_example = partition_range_iff 4 5 512 2048 1024 (omega arith)

probe-Probed_example : Probed image 2048 (probe (ok image) 2048)
probe-Probed_example = probe-Probed image 2048 (all-IsByte image.content image_bytes)
