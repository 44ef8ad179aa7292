-- ===== src/Cli/Session/Restores.antt =====
-- A publication that fails puts the previous files back.
use incusos_builder.Base.{
  ◌≡◌, refl, ◌∙◌, ap, inl, inr, Bool, true, false, not, ◌||◌, List, [], ◌∷◌, ℕ, if◌then◌else◌,
  Bool-cases, Option-cases,
}
use incusos_builder.Base.Text.{Text, text_eq}
use incusos_builder.Errdefs.{Error, Message, Result, ok, err, Result-cases, lit, str}
use incusos_builder.Cli.Disk.{Files, Disk, touch, touch-cases, stat, stat-cases}
use incusos_builder.Cli.Publish.{Artifact}
use incusos_builder.Cli.Publish.Steps.{taken, Safe}
use incusos_builder.Cli.Session.{
  Session, Phase, Publication, publish_no_clobber, publish_force, fail, finish_image_temp,
  finish_resources_temp, both, fsync_path, hash_path, publish_files, publish, with_disk,
}
use incusos_builder.Cli.Session.Cleanup.{Names, Apart, Disjoint, PutBack, cleanup-PutBack}
use incusos_builder.Cli.Session.Publishing.{Going, publish_no_clobber-Going, publish_force-Going}

pub touch-files : (d : Disk) → (touch d).disk.files ≡ d.files
touch-files d = elim (touch-cases d) [ inl c ↦ c.same | inr c ↦ c.next ]

pub stat-files : (p : Text) (d : Disk) → (stat p d).disk.files ≡ d.files
stat-files p d = elim (stat-cases p d) [
  | inl c ↦ c.same
  | inr q ↦ elim q [ inl c ↦ c.same | inr c ↦ c.next ]
]

-- A step that neither changes the files nor the artifacts.
pub record Quiet (s t : Session) : Type 0 where
  pub files : t.journal.disk.files ≡ s.journal.disk.files
  pub image : t.image ≡ s.image
  pub resources : t.resources ≡ s.resources
  pub complete : t.complete ≡ s.complete
  pub cleaned : t.cleaned ≡ s.cleaned

pub Quiet-disk : (s : Session) (d : Disk) → d.files ≡ s.journal.disk.files → Quiet s (with_disk s d)
Quiet-disk s d same = record {
  files = same;
  image = refl;
  resources = refl;
  complete = refl;
  cleaned = refl;
}

module _ (sha256 : List ℕ → Text) where
  pub both-files : (m n : Message) (d : Disk) → (both sha256 m n d).1.files ≡ d.files
  unfolding both
  both-files m n d =
      let same = touch-files (touch d).disk ∙ touch-files d in
      elim (Option-cases (touch d).failure) [
        | inr (e, bad) ↦ rw (bad, both) same
        | inl good ↦ elim (Option-cases (touch (touch d).disk).failure) [
          | inr (e, bad) ↦ rw (good, bad, both) same
          | inl good' ↦ rw (good, good', both) same
        ]
      ]

  pub fsync_path-files : (p : Text) (d : Disk) → (fsync_path sha256 p d).1.files ≡ d.files
  unfolding fsync_path
  fsync_path-files p d = elim (Option-cases (stat p d).failure) [
    | inr (e, bad) ↦ rw (bad, fsync_path) (stat-files p d)
    | inl good ↦ rw (good, fsync_path) (both-files _ _ (stat p d).disk ∙ stat-files p d)
  ]

  pub hash_path-files : (p : Text) (d : Disk) → (hash_path sha256 p d).1.files ≡ d.files
  unfolding hash_path
  hash_path-files p d = elim (Option-cases (stat p d).failure) [
    | inr (e, bad) ↦ rw (bad, hash_path) (stat-files p d)
    | inl good ↦
        let message = lit "hash " ∷ str p ∷ [] in
        let message' = lit "close " ∷ str p ∷ lit " after hash" ∷ [] in
        let same = both-files message message' (stat p d).disk ∙ stat-files p d in
        elim (Option-cases (both sha256 message message' (stat p d).disk).0) [
          | inr (e, bad) ↦ rw (good, bad, hash_path) same
          | inl good' ↦ rw (good, good', hash_path) same
        ]
  ]

  pub finish_image_temp-Quiet : (s : Session) → Quiet s (finish_image_temp sha256 s).1
  unfolding finish_image_temp
  finish_image_temp-Quiet s = elim (Bool-cases (not s.image_open)) [
    | inl closed ↦ rw (closed, finish_image_temp) (Quiet-disk s s.journal.disk refl)
    | inr opened ↦ elim (Option-cases (touch s.journal.disk).failure) [
      | inr (e, bad) ↦
          rw (opened, bad, finish_image_temp)
            (Quiet-disk s (touch s.journal.disk).disk (touch-files s.journal.disk))
      | inl good ↦
          let same = touch-files (touch s.journal.disk).disk ∙ touch-files s.journal.disk in
          elim (Option-cases (touch (touch s.journal.disk).disk).failure) [
            | inr (e, bad) ↦
                rw (opened, good, bad, finish_image_temp)
                  (record {
                    files = same;
                    image = refl;
                    resources = refl;
                    complete = refl;
                    cleaned = refl;
                  })
            | inl good' ↦
                rw (opened, good, good', finish_image_temp)
                  (record {
                    files = same;
                    image = refl;
                    resources = refl;
                    complete = refl;
                    cleaned = refl;
                  })
          ]
    ]
  ]

  pub finish_resources_temp-Quiet : (s : Session) → Quiet s (finish_resources_temp sha256 s).1
  unfolding finish_resources_temp
  finish_resources_temp-Quiet s = elim (Bool-cases (text_eq s.resources.temp [])) [
    | inl online ↦ rw (online, finish_resources_temp) (Quiet-disk s s.journal.disk refl)
    | inr offline ↦
        let synced = fsync_path sha256 s.resources.temp s.journal.disk in
        let same = fsync_path-files s.resources.temp s.journal.disk in
        elim (Option-cases synced.0) [
          | inr (e, bad) ↦ rw (offline, bad, finish_resources_temp) (Quiet-disk s synced.1 same)
          | inl good ↦
              rw (offline, good, finish_resources_temp)
                (Quiet-disk s (hash_path sha256 s.resources.temp synced.1).1
                  (hash_path-files s.resources.temp synced.1 ∙ same))
        ]
  ]

abbrev pub names : Artifact → Names
names a = record { final = a.final; bak = a.bak; temp = a.temp }

abbrev pub IsNew : Artifact → Type 0
IsNew a = (a.claimed ≡ false) × (a.published ≡ false) × (a.backed_up ≡ false)

-- A session as `Begin` returns it.
pub record IsBegun (s : Session) : Type 0 where
  pub image_new : IsNew s.image
  pub resources_new : IsNew s.resources
  pub unfinished : (s.complete || s.cleaned) ≡ false

IsNew-Safe :
    (n : Names) (apart : Apart n) (f : Files) (a : Artifact)
    → IsNew a
    → Safe n.final n.bak n.temp apart (f n.final) f a
IsNew-Safe n apart f a new = record {
  kept = λ b t. refl;
  fresh = λ b t. let free : taken a ≡ false = rw (new.0, new.1) refl in cc;
  saved = λ b. let none_saved = new.2 in cc;
}

module _ (s : Session) (apart_i : Apart (names s.image)) (apart_r : Apart (names s.resources))
    (image_not_resources : Disjoint (names s.image) (names s.resources))
    (resources_not_image : Disjoint (names s.resources) (names s.image)) where
  abbrev pub before : Files
  before = s.journal.disk.files

  abbrev pub Restored : Session → Type 0
  Restored =
      PutBack (names s.image) (names s.resources) apart_i apart_r image_not_resources
        resources_not_image (before s.image.final) (before s.resources.final) before

  abbrev pub Runs : Session → Type 0
  Runs =
      Going (names s.image) (names s.resources) apart_i apart_r image_not_resources
        resources_not_image (before s.image.final) (before s.resources.final) before

  pub begun-Runs : IsBegun s → Runs s
  begun-Runs b = record {
    tracked = record {
      image_named = record { final = refl; bak = refl; temp = inl refl };
      image_safe = IsNew-Safe (names s.image) apart_i before s.image b.image_new;
      resources_named = record { final = refl; bak = refl; temp = inl refl };
      resources_safe = IsNew-Safe (names s.resources) apart_r before s.resources b.resources_new;
    };
    elsewhere = λ p h. refl;
    unfinished = b.unfinished;
  }

  pub Quiet-Runs : (t u : Session) → Quiet t u → Runs t → Runs u
  Quiet-Runs t u q g = record {
    tracked = record {
      image_named = rw q.image g.tracked.image_named;
      image_safe = rw (q.image, q.files) g.tracked.image_safe;
      resources_named = rw q.resources g.tracked.resources_named;
      resources_safe = rw (q.resources, q.files) g.tracked.resources_safe;
    };
    elsewhere = λ p h. ap (λ f. f p) q.files ∙ g.elsewhere p h;
    unfinished = rw (q.complete, q.cleaned) g.unfinished;
  }

  failed-Restored : (t : Session) (e : Error) → Runs t → Restored (fail e t).1
  unfolding fail
  failed-Restored t e g =
      let b =
        cleanup-PutBack (names s.image) (names s.resources) apart_i apart_r image_not_resources
          resources_not_image (before s.image.final) (before s.resources.final) t g.tracked
          g.unfinished in
      record {
        image_back = b.image_back;
        resources_back = b.resources_back;
        others_kept = λ p h ne. b.others_kept p h ne ∙ g.elsewhere p h;
      }

  -- What a failure has left; a success is another matter.
  abbrev pub IfFailed : Result Publication × Session → Type 0
  IfFailed (ok p, t) = Unit
  IfFailed (err e, t) = Restored t

  pub choose :
      (b : Bool) (x y : Phase) → Runs x.session → Runs y.session → Runs (if b then x else y).session
  choose true x y hx hy = hx
  choose false x y hx hy = hy

  publish_files-IfFailed :
      (sha256 : List ℕ → Text) (image_digest resources_digest : Text) (t : Session)
      → Runs t
      → IsNew t.image
      → IsNew t.resources
      → IfFailed (publish_files sha256 image_digest resources_digest t)
  unfolding publish_files
  publish_files-IfFailed sha256 a b t g new_i new_r =
      let free_i : taken t.image ≡ false = rw (new_i.0, new_i.1) refl in
      let free_r : taken t.resources ≡ false = rw (new_r.0, new_r.1) refl in
      let p = if t.replace then publish_force t else publish_no_clobber t in
      let g' : Runs p.session =
        choose t.replace (publish_force t) (publish_no_clobber t)
          (publish_force-Going (names s.image) (names s.resources) apart_i apart_r
            image_not_resources resources_not_image (before s.image.final)
            (before s.resources.final) before t g free_i free_r new_i.2 new_r.2)
          (publish_no_clobber-Going (names s.image) (names s.resources) apart_i apart_r
            image_not_resources resources_not_image (before s.image.final)
            (before s.resources.final) before t g free_i free_r) in
      elim (Option-cases p.failure) [
        | inr (e, bad) ↦ rw (bad, publish_files) (failed-Restored p.session e g')
        | inl good ↦ rw (good, publish_files) tt
      ]

  publish-IfFailed : (sha256 : List ℕ → Text) → IsBegun s → IfFailed (publish sha256 s)
  unfolding publish
  publish-IfFailed sha256 b =
      let q = finish_image_temp-Quiet sha256 s in
      let t = (finish_image_temp sha256 s).1 in
      let g = Quiet-Runs s t q (begun-Runs b) in
      let q' = finish_resources_temp-Quiet sha256 t in
      let u = (finish_resources_temp sha256 t).1 in
      let g' = Quiet-Runs t u q' g in
      elim (Result-cases (finish_image_temp sha256 s).0) [
        | inr (e, bad) ↦ rw (bad, publish) (failed-Restored t e g)
        | inl (digest, good) ↦ elim (Result-cases (finish_resources_temp sha256 t).0) [
          | inr (e, bad) ↦ rw (good, bad, publish) (failed-Restored u e g')
          | inl (digest', good') ↦
              rw (good, good', publish)
                (publish_files-IfFailed sha256 digest digest' u g'
                  (rw (q'.image, q.image) b.image_new)
                  (rw (q'.resources, q.resources) b.resources_new))
        ]
      ]

  -- A `Publish` that fails is all or nothing: if its cleanup leaves nothing over, each final path holds
  -- exactly what it held before, be it a file or none, with and without --force and at whatever call
  -- the failure came; and no path but those of the session has changed, leftovers or not. The session
  -- is a fresh one, and its six paths are different (an online session has no resources).
  pub publish-Restored :
      (sha256 : List ℕ → Text) (e : Error) (t : Session)
      → IsBegun s
      → publish sha256 s ≡ (err e, t)
      → Restored t
  publish-Restored sha256 e t b h = rw h at (publish-IfFailed sha256 b)
