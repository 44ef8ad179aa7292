-- ===== src/Cli/Session.antt =====
-- internal/cli/publish.go: `Session`, its `Publish` and `Abort`.
pub mod Cleanup
pub mod Publishing
pub mod Restores
pub mod Swaps
pub mod Published
pub mod Hashed
use incusos_builder.Base.{
  ℕ, ◌≡◌, Bool, true, false, not, ◌&&◌, ◌||◌, Option, none, some, List, [], ◌∷◌, ◌++◌, take,
  if◌then◌else◌,
}
use incusos_builder.Base.Text.{Text, codes, text_eq, join}
use incusos_builder.Errdefs.{
  Error, Message, Result, ok, err, is, output, not_exist, errorf, wrap, lit, str, quoted,
}
use incusos_builder.Cli.Disk.{Files, Disk, Answer, stat, remove, touch, put}
use incusos_builder.Cli.Publish.{
  Artifact, Note, done_note, failed_note, Journal, Moved, output_wrap, bak, claim_then_rename,
  unpublish, restore, remove_temp,
}

-- `Session`, less the functions that the tests replace. `image_open` is a non-nil `image.file`, and
-- `hashed` the bytes that the hasher has taken.
pub record Session : Type 0 where
  pub image : Artifact
  pub resources : Artifact
  pub image_open : Bool
  pub hashed : List ℕ
  pub replace : Bool
  pub journal : Journal
  pub complete : Bool
  pub cleaned : Bool

pub record Publication : Type 0 where
  pub image_sha256 : Text
  pub resources_sha256 : Text
  pub leftovers : List Text

-- A step of the session, and the error it returns or nil.
pub record Phase : Type 0 where
  pub failure : Option Error
  pub session : Session

abbrev pub after : Phase → (Session → Phase) → Phase
after p next = elim p.failure [ some e ↦ p | none ↦ next p.session ]

abbrev pub with_disk : Session → Disk → Session
with_disk s d = record s { journal = record s.journal { disk = d } }

abbrev pub image_moved : Session → Moved → Phase
image_moved s m = record {
  failure = m.failure;
  session = record s { image = m.artifact; journal = m.journal };
}

abbrev pub resources_moved : Session → Moved → Phase
resources_moved s m = record {
  failure = m.failure;
  session = record s { resources = m.artifact; journal = m.journal };
}

abbrev pub on_image : (Artifact → Journal → Moved) → Session → Phase
on_image f s = image_moved s (f s.image s.journal)

abbrev pub on_resources : (Artifact → Journal → Moved) → Session → Phase
on_resources f s = resources_moved s (f s.resources s.journal)

-- `publishNoClobber`.
unfoldable pub publish_no_clobber : Session → Phase
publish_no_clobber s = after (on_resources claim_then_rename s) (on_image claim_then_rename)

-- `publishForce`.
unfoldable pub publish_force : Session → Phase
publish_force s = after (on_image bak s) λ s₁.
    after (on_resources bak s₁)
      λ s₂. after (on_resources claim_then_rename s₂) (on_image claim_then_rename)

-- `rollbackPublication`.
unfoldable pub rollback_publication : Session → Session
rollback_publication s =
    let s₁ = (on_image (unpublish (codes "removed new image")) s).session in
    let s₂ = (on_resources (unpublish (codes "removed new resources")) s₁).session in
    let s₃ = (on_resources (restore (codes "restored resources")) s₂).session in
    (on_image (restore (codes "restored image")) s₃).session

-- `closeImage`; the error of `Close` is discarded.
unfoldable pub close_image : Session → Session
close_image s =
    if not s.image_open
    then s
    else record (with_disk s (touch s.journal.disk).disk) { image_open = false }

-- `cleanup`.
unfoldable pub cleanup : Session → Session
cleanup s =
    if s.complete || s.cleaned
    then s
    else (let s₁ = rollback_publication (close_image (record s { cleaned = true })) in
        let j = remove_temp s₁.resources.temp (remove_temp s₁.image.temp s₁.journal) in
        record s₁ { journal = j })

-- The message of a note; the text of the error in it is not spelled out.
abbrev pub note_text : Note → Message
note_text (done_note verb path) = str verb ∷ lit " " ∷ str path ∷ []
note_text (failed_note verb path e) = str verb ∷ lit " " ∷ str path ∷ lit " failed: …" ∷ []

abbrev pub separated : List Message → Message
separated [] = []
separated (m ∷ []) = m
separated (m ∷ n ∷ ms) = m ++ (lit "; " ∷ separated (n ∷ ms))

abbrev pub note_texts : List Note → List Message
note_texts [] = []
note_texts (n ∷ ns) = note_text n ∷ note_texts ns

abbrev pub leftover_texts : List Text → List Message
leftover_texts [] = []
leftover_texts (p ∷ ps) = (lit "leftover " ∷ str (join (codes ", ") (p ∷ ps)) ∷ []) ∷ []

-- The parts that `fail` attaches to an error.
abbrev pub annotated : Error → List Message → Error
annotated e [] = e
annotated e (m ∷ ms) = wrap e (separated (m ∷ ms))

-- `fail`: the error, and the session after the cleanup.
unfoldable pub fail : Error → Session → Error × Session
fail e s =
    let s' = cleanup s in
    (annotated e (note_texts s'.journal.rollback ++ leftover_texts s'.journal.leftovers), s')

-- `Abort`.
abbrev pub abort : Session → Session
abort s = cleanup s

abbrev pub content_of : Option (List ℕ) → List ℕ
content_of none = []
content_of (some c) = c

-- `hashingWriter.Write` on the image temp, which accepts `n` of the bytes.
unfoldable pub image_write : List ℕ → ℕ → Session → Session
image_write bytes n s =
    let before = content_of (s.journal.disk.files s.image.temp) in
    let d = s.journal.disk in
    record (with_disk s
      (record d { files = put s.image.temp (some (before ++ take n bytes)) d.files })) {
        hashed = s.hashed ++ take n bytes;
      }

-- `removeBaks` on one artifact; the paths left over come first.
unfoldable pub remove_bak : Artifact → Journal → List Text × (Artifact × Journal)
remove_bak a j =
    if not a.backed_up
    then ([], (a, j))
    else (let r = remove a.bak j.disk in
        elim r.failure [
          | none ↦ ([], (record a { backed_up = false }, record j { disk = r.disk }))
          | some e ↦
              if not (is e not_exist)
              then (a.bak ∷ [], (a, record j { disk = r.disk }))
              else ([], (record a { backed_up = false }, record j { disk = r.disk }))
        ])

-- `removeBaks`.
unfoldable pub remove_baks : Session → List Text × Session
remove_baks s =
    let i = remove_bak s.image s.journal in
    let r = remove_bak s.resources i.1.1 in
    (i.0 ++ r.0, record s { image = i.1.0; resources = r.1.0; journal = r.1.1 })

module _ (sha256 : List ℕ → Text) where
  -- `finishImageTemp`.
  unfoldable pub finish_image_temp : Session → Result Text × Session
  finish_image_temp s =
      if not s.image_open
      then (err (errorf output (lit "image temp is not open" ∷ [])), s)
      else (let synced = touch s.journal.disk in
          elim synced.failure [
            | some e ↦ (err (output_wrap e (lit "fsync image temp" ∷ [])), with_disk s synced.disk)
            | none ↦
                let closed = touch synced.disk in
                let s' = record (with_disk s closed.disk) { image_open = false } in
                elim closed.failure [
                  | some e ↦ (err (output_wrap e (lit "close image temp" ∷ [])), s')
                  | none ↦ (ok (sha256 s.hashed), s')
                ]
          ])

  -- Two calls on an open file, both of which are made: the first one's error counts first.
  unfoldable pub both : Message → Message → Disk → Option Error × Disk
  both first second d =
      let a = touch d in
      let b = touch a.disk in
      elim a.failure [
        | some e ↦ (some (output_wrap e first), b.disk)
        | none ↦ elim b.failure [
          | some e ↦ (some (output_wrap e second), b.disk)
          | none ↦ (none, b.disk)
        ]
      ]

  -- `fsyncPath`.
  unfoldable pub fsync_path : Text → Disk → Option Error × Disk
  fsync_path path d =
      let opened = stat path d in
      elim opened.failure [
        | some e ↦
            (some (output_wrap e (lit "open " ∷ str path ∷ lit " for fsync" ∷ [])), opened.disk)
        | none ↦
            both (lit "fsync " ∷ str path ∷ []) (lit "close " ∷ str path ∷ lit " after fsync" ∷ [])
              opened.disk
      ]

  -- `hashPath`: the digest of what the file holds.
  unfoldable pub hash_path : Text → Disk → Result Text × Disk
  hash_path path d =
      let opened = stat path d in
      elim opened.failure [
        | some e ↦
            (err (output_wrap e (lit "open " ∷ str path ∷ lit " for hash" ∷ [])), opened.disk)
        | none ↦
            let r =
              both (lit "hash " ∷ str path ∷ []) (lit "close " ∷ str path ∷ lit " after hash" ∷ [])
                opened.disk in
            elim r.0 [
              | some e ↦ (err e, r.1)
              | none ↦ (ok (sha256 (content_of (opened.disk.files path))), r.1)
            ]
      ]

  -- `finishResourcesTemp`, if there is a resources temp.
  unfoldable pub finish_resources_temp : Session → Result Text × Session
  finish_resources_temp s =
      if text_eq s.resources.temp []
      then (ok [], s)
      else (let synced = fsync_path s.resources.temp s.journal.disk in
          elim synced.0 [
            | some e ↦ (err e, with_disk s synced.1)
            | none ↦ let h = hash_path s.resources.temp synced.1 in (h.0, with_disk s h.1)
          ])

  -- `Publish`, behind the two digests.
  unfoldable pub publish_files : Text → Text → Session → Result Publication × Session
  publish_files image_digest resources_digest s =
      let p = if s.replace then publish_force s else publish_no_clobber s in
      elim p.failure [
        | some e ↦ let f = fail e p.session in (err f.0, f.1)
        | none ↦
            let r = remove_baks p.session in
            (
              ok (record {
                image_sha256 = image_digest;
                resources_sha256 = resources_digest;
                leftovers = r.0;
              }),
              record (r.1) { complete = true; cleaned = true },
            )
      ]

  -- `Publish`.
  unfoldable pub publish : Session → Result Publication × Session
  publish s =
      let i = finish_image_temp s in
      elim (i.0) [
        | err e ↦ let f = fail e (i.1) in (err f.0, f.1)
        | ok image_digest ↦
            let r = finish_resources_temp (i.1) in
            elim (r.0) [
              | err e ↦ let f = fail e (r.1) in (err f.0, f.1)
              | ok resources_digest ↦ publish_files image_digest resources_digest (r.1)
            ]
      ]
