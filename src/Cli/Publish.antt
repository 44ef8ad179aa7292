-- ===== src/Cli/Publish.antt =====
-- internal/cli/publish.go: the session that publishes the image and the resources. A method on an
-- artifact of the session takes and returns the artifact and the journal, which holds the disk and
-- what a rollback has recorded. SHA-256 is a parameter. Injected step failures (`failAfter`) are for
-- tests of the source and are left out: in production the field is empty.
pub mod Steps
pub mod Claim
pub mod Rollback
use incusos_builder.Base.{
  ℕ, ◌≡◌, Bool, true, false, not, ◌&&◌, ◌||◌, Option, none, some, List, [], ◌∷◌, ◌++◌,
  if◌then◌else◌,
}
use incusos_builder.Base.Text.{Text, codes, text_eq}
use incusos_builder.Errdefs.{
  Error, Message, Result, ok, err, is, usage, output, not_exist, exist, errorf, wrap, join,
  sentinel, lit, str,
}
use incusos_builder.Cli.Disk.{Files, Disk, Answer, stat, rename, remove, create_excl, touch, put}

abbrev pub bak_suffix : Text
bak_suffix = codes ".incusos-builder.bak"

-- `outputWrap` of an error that is not nil.
unfoldable pub output_wrap : Error → Message → Error
output_wrap e m = if is e usage || is e output then wrap e m else wrap (join (sentinel output) e) m

-- `artifact`. The open image temp is `file`.
pub record Artifact : Type 0 where
  pub final : Text
  pub temp : Text
  pub bak : Text
  pub claimed : Bool
  pub published : Bool
  pub backed_up : Bool

-- A step of a rollback, and the error it met.
pub data Note : Type 0 where
  done_note : Text → Text → Note
  failed_note : Text → Text → Error → Note

pub record Journal : Type 0 where
  pub disk : Disk
  pub rollback : List Note
  pub leftovers : List Text

-- What a method on an artifact returns.
pub record Moved : Type 0 where
  pub failure : Option Error
  pub artifact : Artifact
  pub journal : Journal

abbrev pub stop : Error → Artifact → Journal → Disk → Moved
stop e a j d = record { failure = some e; artifact = a; journal = record j { disk = d } }

abbrev pub go_on : Artifact → Journal → Disk → Moved
go_on a j d = record { failure = none; artifact = a; journal = record j { disk = d } }

-- `bak`, behind the `Stat` of the final path.
unfoldable pub bak_rename : Artifact → Journal → Disk → Moved
bak_rename a j d =
    let r = rename a.final a.bak d in
    elim r.failure [
      | some e ↦
          stop (output_wrap e (lit "rename " ∷ str a.final ∷ lit " to " ∷ str a.bak ∷ [])) a j
            r.disk
      | none ↦ go_on (record a { backed_up = true }) j r.disk
    ]

-- `bak`.
unfoldable pub bak : Artifact → Journal → Moved
bak a j =
    if text_eq a.final []
    then record { failure = none; artifact = a; journal = j }
    else (let r = stat a.final j.disk in
        elim r.failure [
          | some e ↦
              if is e not_exist
              then go_on a j r.disk
              else stop (output_wrap e (lit "stat " ∷ str a.final ∷ [])) a j r.disk
          | none ↦ bak_rename a j r.disk
        ])

-- `claimThenRename`, behind the claim.
unfoldable pub rename_claimed : Artifact → Journal → Disk → Moved
rename_claimed a j d =
    let closed = touch d in
    elim closed.failure [
      | some e ↦ stop (output_wrap e (lit "close claim " ∷ str a.final ∷ [])) a j closed.disk
      | none ↦
          let r = rename a.temp a.final closed.disk in
          elim r.failure [
            | some e ↦ stop (output_wrap e (lit "publish " ∷ str a.final ∷ [])) a j r.disk
            | none ↦ go_on (record a { claimed = false; published = true; temp = [] }) j r.disk
          ]
    ]

-- `claimThenRename`.
unfoldable pub claim_then_rename : Artifact → Journal → Moved
claim_then_rename a j =
    if text_eq a.final [] || text_eq a.temp []
    then record { failure = none; artifact = a; journal = j }
    else (let r = create_excl a.final j.disk in
        elim r.failure [
          | some e ↦
              if is e exist
              then stop
                  (errorf output (lit "output appeared during the build; re-run with --force" ∷ []))
                  a j r.disk
              else stop (output_wrap e (lit "claim " ∷ str a.final ∷ [])) a j r.disk
          | none ↦ rename_claimed (record a { claimed = true }) j r.disk
        ])

-- `unpublish`.
unfoldable pub unpublish : Text → Artifact → Journal → Moved
unpublish verb a j =
    if text_eq a.final [] || (not a.published && not a.claimed)
    then record { failure = none; artifact = a; journal = j }
    else (let r = remove a.final j.disk in
        let removed : Moved = record {
          failure = none;
          artifact = record a { published = false; claimed = false };
          journal = record j {
            disk = r.disk;
            rollback = j.rollback ++ (done_note verb a.final ∷ []);
          };
        } in
        elim r.failure [
          | none ↦ removed
          | some e ↦
              if not (is e not_exist)
              then record {
                failure = none;
                artifact = a;
                journal = record {
                  disk = r.disk;
                  rollback = j.rollback ++ (failed_note verb a.final e ∷ []);
                  leftovers = j.leftovers ++ (a.final ∷ []);
                };
              }
              else removed
        ])

-- `restore`.
unfoldable pub restore : Text → Artifact → Journal → Moved
restore verb a j =
    if text_eq a.final [] || not a.backed_up
    then record { failure = none; artifact = a; journal = j }
    else (let r = rename a.bak a.final j.disk in
        elim r.failure [
          | some e ↦ record {
            failure = none;
            artifact = a;
            journal = record {
              disk = r.disk;
              rollback = j.rollback ++ (failed_note verb a.final e ∷ []);
              leftovers = j.leftovers ++ (a.bak ∷ []);
            };
          }
          | none ↦ record {
            failure = none;
            artifact = record a { backed_up = false };
            journal = record j {
              disk = r.disk;
              rollback = j.rollback ++ (done_note verb a.final ∷ []);
            };
          }
        ])

-- `removeTemp`.
unfoldable pub remove_temp : Text → Journal → Journal
remove_temp path j =
    if text_eq path []
    then j
    else (let r = remove path j.disk in
        elim r.failure [
          | none ↦ record j { disk = r.disk }
          | some e ↦
              if not (is e not_exist)
              then record j { disk = r.disk; leftovers = j.leftovers ++ (path ∷ []) }
              else record j { disk = r.disk }
        ])
