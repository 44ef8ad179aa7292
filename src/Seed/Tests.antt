-- ===== src/Seed/Tests.antt =====
-- The seed tar on concrete inputs, with an encoder and a tar writer of a few bytes.
use incusos_builder.Base.{ℕ, suc, ◌≡◌, refl, none, some, [], ◌∷◌, ◌++◌, length}
use incusos_builder.Base.Text.{Text, codes, text_eq}
use incusos_builder.Errdefs.{Result, ok}
use incusos_builder.Build.Spec.{Seeds}
use incusos_builder.Config.Schema.{spec_of}
use incusos_builder.Config.Defaults.{
  apply_defaults, default_image, default_seed_versions, offline_seeds, never_checked,
  set_default_version,
}
use incusos_builder.Config.Samples.{offline_document, decoders, sealed_parses}
use incusos_builder.Seed.{
  Value, applications, incus, operations_center, migration_manager, install, network, provider,
  services, update, kernel, security, Archive, TarWriter, append_yaml, append_if_present,
  append_customizer_seeds, append_cli_seeds, collect_seed_yaml, write_chunk, write_chunks, called,
  write_file, write_files, write_seed_tar, render,
}
use incusos_builder.Seed.Members.{dump_all, members, collect_seed_yaml_lem}
use incusos_builder.Seed.Counted.{render_counted}
use incusos_builder.Seed.Offline.{HasOfflineSeeds, parse-HasOfflineSeeds}

-- Only the versions are encoded.
abbrev dump : Value → Result Text
dump (applications a) = ok a.version
dump (install i) = ok i.version
dump (update u) = ok u.check_frequency
dump (security s) = ok s.version
dump (incus s) = ok s.version
dump (operations_center s) = ok s.version
dump (migration_manager s) = ok s.version
dump (network s) = ok s.version
dump (provider s) = ok s.version
dump (services s) = ok s.version
dump (kernel s) = ok s.version

-- A header is the name and its size, written in two chunks, and the end is two zeros.
abbrev writer : TarWriter
writer = record {
  State = ℕ;
  start = 0;
  write_header =
      λ name mode size n. record { chunks = name ∷ (size ∷ []) ∷ []; failure = none; next = suc n };
  write = λ contents n. record { chunks = contents ∷ []; failure = none; next = n };
  close = λ n. record { chunks = (0 ∷ 0 ∷ []) ∷ []; failure = none; next = n };
}

abbrev seeds : Seeds
seeds = record {
  applications = some (record { version = b'1' ∷ []; applications = [] });
  incus = none;
  install = none;
  migration_manager = none;
  network = none;
  operations_center = none;
  provider = none;
  services = none;
  update = none;
  kernel = some (record { version = b'2' ∷ []; body = [] });
  security = none;
}

abbrev archive : Archive
archive = (codes "applications.yaml", b'1' ∷ []) ∷ (codes "kernel.yaml", b'2' ∷ []) ∷ []

collect_seed_yaml_lem_example : collect_seed_yaml dump seeds ≡ dump_all dump (members seeds)
collect_seed_yaml_lem_example = collect_seed_yaml_lem dump seeds

collected : collect_seed_yaml dump seeds ≡ ok archive
unfolding collect_seed_yaml append_customizer_seeds append_cli_seeds append_if_present append_yaml
collected = refl

abbrev tar : Text
tar = codes "applications.yaml" ++ (1 ∷ b'1' ∷ codes "kernel.yaml") ++ (1 ∷ b'2' ∷ 0 ∷ 0 ∷ [])

rendered : render writer dump seeds ≡ ok (tar, 34)
unfolding render collect_seed_yaml append_customizer_seeds append_cli_seeds append_if_present
    append_yaml write_seed_tar write_files write_file called write_chunks write_chunk
rendered = refl

render_counted_example : 34 ≡ length tar
render_counted_example = render_counted writer dump seeds tar 34 rendered

abbrev offline_archive : Archive
offline_archive =
    (codes "applications.yaml", b'1' ∷ [])
    ∷ (codes "install.yaml", b'1' ∷ [])
    ∷ (codes "update.yaml", codes "never")
    ∷ []

offline_collected :
    collect_seed_yaml dump (spec_of (apply_defaults offline_document)).seeds ≡ ok offline_archive
unfolding collect_seed_yaml append_customizer_seeds append_cli_seeds append_if_present append_yaml
    spec_of apply_defaults default_image default_seed_versions offline_seeds never_checked
    set_default_version text_eq
offline_collected = refl

parse-HasOfflineSeeds_example : HasOfflineSeeds dump offline_archive
parse-HasOfflineSeeds_example =
    parse-HasOfflineSeeds dump decoders (codes "sealed") (spec_of (apply_defaults offline_document))
      offline_archive sealed_parses (unfold spec_of apply_defaults default_image in refl)
      offline_collected
