-- ===== src/Lib.antt =====
-- A verification library of incusos-builder, the command line tool that builds IncusOS installer
-- images: it resolves a release against the index of an update server, acquires the image, finds the
-- seed-data partition in the image's GPT, writes a tar of seed files into that partition, and for an
-- offline build also writes rescue media with the applications.
--
-- The parts of the program and their models:
--   * internal/errdefs: `Errdefs`. Errors are values, `errors.Is` is the function `is`; `Run` adds
--     panics by slices and indices out of range.
--   * internal/build/spec.go, plan.go: `Build.Spec`, the specification and the plan as records.
--   * internal/build/resolve.go: `Build.Resolve`, one function per Go function; a loop of the source is
--     a recursive function (`select_loop`, `match_loop`). Its children hold the proofs.
--   * internal/build/probe.go: `Build.Probe`, the parser of the GPT over the bytes of the image head,
--     64-bit products and differences with their wrap-around written out.
--   * internal/build/build.go: the copy loops and `splice` in `Build.Splice`, over any reader and writer
--     (`Io`); `Build` and `writeRescue` in `Build.Pipeline`, over the ports of `Build.Ports`
--     (internal/build/ports.go), which are parameters. A build is an action on a state that holds the
--     world behind the ports, the output and the events that the reporter has received.
--   * internal/update/validate.go: `Update.Validate`, the checks of fields of untrusted documents.
--   * internal/update/cache.go: `Update.Store`, the content-addressed cache; internal/update/client.go:
--     `Update.Fetch`, the download with its retries and `Asset`, and `Update.Documents`, the bounded
--     reads of documents and `Index`; internal/update/metadata.go: `Update.Metadata`. The HTTP client
--     and the JSON, mail and MIME parsers are parameters.
--   * internal/cli/publish.go: `Cli.Publish`, the methods on one artifact, and `Cli.Session`, the session
--     with `Publish` and `Abort`, over the file system of `Cli.Disk`, whose calls may each meet a fault.
--   * internal/cli/exit.go: `Cli.Exit`, the exit codes.
--   * internal/config: `Config.Schema` (schema.go), `Config.Defaults` and `Config.Validate` (validate.go),
--     `Config.Message` and `Config.Load` (load.go). The YAML and SOPS libraries are parameters.
--   * internal/seed/seed.go: `Seed`. The YAML encoder and the tar writer are parameters; what the tar
--     writer writes goes to the counter and to the buffer.
--   * internal/media: `Media.Tree`, the checks of the input and the staged files (rescue.go),
--     `Media.Dirs`, the directories above them (`mkdirParents` of rescue.go; the `Mkdir` of go-diskfs is
--     a parameter), and `Media.Sizes`, the sizes of the images (rescue.go, fat.go, iso.go), int64 with
--     its wrap-around.
-- `Base`, `Base.Text`, `Base.Path` and `Base.Int` hold lists, byte strings, path.Clean and integers;
-- `Images` and `Seeds` the shapes of the records of the incus-osd API, which is not in the repository.
--
-- Fuel: the copy loops take fuel, and `none` means that it ran out. One unit more than the bytes that
-- the source has (or than the tar has, for `writeAll`) is enough, since a read without an error
-- delivers a byte; the theorems show that the loops then end. `Update.Store.copy_hashed` needs more
-- fuel than its reader's limit, and so does `Update.Documents.read_all`. The walk upwards in
-- `Media.Dirs.walk_files` needs more fuel than a path has slashes, since `path.Dir` takes one off. All other loops recurse on
-- their lists or on the attempts left.
--
-- Left out: gzip, HTTP, YAML, SOPS, tar and terminal output, which are libraries or pure output. The
-- context is a list of the answers that `ctx.Err()` gives, the two `Open` calls of an asset are what
-- they deliver after decompression. Text is a list of bytes. Closing of readers is not modelled, since
-- its errors are discarded. The parts of internal/update and internal/cli that are not named above,
-- the other calls of go-diskfs in internal/media, internal/ux, internal/testfixture and the prototypes under
-- spikes are not modelled.
pub mod Base
pub mod Errdefs
pub mod Run
pub mod Io
pub mod Images
pub mod Seeds
pub mod Build
pub mod Update
pub mod Cli
pub mod Config
pub mod Seed
pub mod Media
