-- ===== src/Seed.antt =====
-- internal/seed/seed.go: the tar of seed files. The YAML encoder and the tar writer are parameters; the
-- tar writer hands chunks of bytes to the writers below it, of which one counts and one keeps them.
use incusos_builder.Base.{ℕ, ◌+◌, Option, none, some, List, [], ◌∷◌, ◌++◌, length}
use incusos_builder.Base.Text.{Text, codes}
use incusos_builder.Errdefs.{Error, Result, ok, err, ◌>>=◌}
use incusos_builder.Seeds.{Section, Applications, Install, UpdateSeed, Security}
use incusos_builder.Build.Spec.{Seeds}
use mathlib.Core.Option as Opt
pub mod Members
pub mod Counted
pub mod Offline
mod Tests

-- A section as the encoder gets it, by its type.
pub data Value : Type 0 where
  applications : Applications → Value
  incus operations_center migration_manager network provider services kernel : Section → Value
  install : Install → Value
  update : UpdateSeed → Value
  security : Security → Value

-- Names and contents of seed files, in order.
abbrev pub Archive : Type 0
Archive = List (Text × Text)

module _ (dump : Value → Result Text) where
  -- `appendYAML`.
  unfoldable pub append_yaml : Archive → Text → Value → Result Archive
  append_yaml archive name v = do contents ← dump v; ok (archive ++ ((name, contents) ∷ []))

  -- `appendIfPresent`.
  unfoldable pub append_if_present : Archive → Text → Option Value → Result Archive
  append_if_present archive name none = ok archive
  append_if_present archive name (some v) = append_yaml archive name v

  -- `appendCustomizerSeeds`.
  unfoldable pub append_customizer_seeds : Archive → Seeds → Result Archive
  append_customizer_seeds a s = do
    a ← append_if_present a (codes "applications.yaml") (Opt.map applications s.applications)
    a ← append_if_present a (codes "incus.yaml") (Opt.map incus s.incus)
    a ←
        append_if_present a (codes "operations-center.yaml")
          (Opt.map operations_center s.operations_center)
    a ←
        append_if_present a (codes "migration-manager.yaml")
          (Opt.map migration_manager s.migration_manager)
    a ← append_if_present a (codes "install.yaml") (Opt.map install s.install)
    a ← append_if_present a (codes "network.yaml") (Opt.map network s.network)
    a ← append_if_present a (codes "provider.yaml") (Opt.map provider s.provider)
    a ← append_if_present a (codes "services.yaml") (Opt.map services s.services)
    append_if_present a (codes "update.yaml") (Opt.map update s.update)

  -- `appendCLISeeds`.
  unfoldable pub append_cli_seeds : Archive → Seeds → Result Archive
  append_cli_seeds a s = do
    a ← append_if_present a (codes "kernel.yaml") (Opt.map kernel s.kernel)
    append_if_present a (codes "security.yaml") (Opt.map security s.security)

  -- `collectSeedYAML`.
  unfoldable pub collect_seed_yaml : Seeds → Result Archive
  collect_seed_yaml s = do archive ← append_customizer_seeds [] s; append_cli_seeds archive s

-- What one call of the tar writer hands to the writer below it, and its error.
pub record TarStep (S : Type 0) : Type 0 where
  pub chunks : List Text
  pub failure : Option Error
  pub next : S

pub record TarWriter : Type 1 where
  pub State : Type 0
  pub start : State
  -- The name, the mode and the size of a member.
  pub write_header : Text → ℕ → ℕ → State → TarStep State
  pub write : Text → State → TarStep State
  pub close : State → TarStep State

-- `seedTarMode`, 0o600.
abbrev pub seed_tar_mode : ℕ
seed_tar_mode = 384

-- The `writeCounter` and the buffer behind the `MultiWriter`.
pub record Output : Type 0 where
  pub size : ℕ
  pub buffer : Text

-- A chunk goes to `writeCounter.Write` and to the buffer; neither returns an error.
unfoldable pub write_chunk : Text → Output → Output
write_chunk chunk o = record o { size = o.size + length chunk; buffer = o.buffer ++ chunk }

unfoldable pub write_chunks : List Text → Output → Output
write_chunks [] o = o
write_chunks (c ∷ cs) o = write_chunks cs (write_chunk c o)

module _ (T : TarWriter) where
  -- The tar writer, and what it has written.
  pub record Tar : Type 0 where
    pub state : T.State
    pub output : Output

  abbrev failed_or : Option Error → Tar → Result Tar
  failed_or none t = ok t
  failed_or (some e) t = err e

  -- One call of the tar writer.
  unfoldable pub called : TarStep T.State → Output → Result Tar
  called step o =
      failed_or step.failure (record { state = step.next; output = write_chunks step.chunks o })

  -- One file.
  unfoldable pub write_file : Text × Text → Tar → Result Tar
  write_file (name, contents) t = do
    t ← called (T.write_header name seed_tar_mode (length contents) t.state) t.output
    called (T.write contents t.state) t.output

  -- The loop of `writeSeedTar`.
  unfoldable pub write_files : Archive → Tar → Result Tar
  write_files [] t = ok t
  write_files (file ∷ files) t = do t ← write_file file t; write_files files t

  -- `writeSeedTar`.
  unfoldable pub write_seed_tar : Archive → Result (Text × ℕ)
  write_seed_tar files = do
    t ← write_files files (record { state = T.start; output = record { size = 0; buffer = [] } })
    t ← called (T.close t.state) t.output
    ok (t.output.buffer, t.output.size)

  -- `Render`.
  unfoldable pub render : (Value → Result Text) → Seeds → Result (Text × ℕ)
  render dump s = do archive ← collect_seed_yaml dump s; write_seed_tar archive
