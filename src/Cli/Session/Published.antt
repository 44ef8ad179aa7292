-- ===== src/Cli/Session/Published.antt =====
-- A publication that succeeds has put the temps at the final paths and reports their digests.
use incusos_builder.Base.{
  ◌≡◌, refl, sym, ◌∙◌, ap, ◌≢◌, inl, inr, Bool, true, false, not, none, List, [], ◌∷◌, ℕ,
  if◌then◌else◌, Bool-cases, Option-cases,
}
use incusos_builder.Base.Text.{Text, text_eq, text_eq_iff}
use incusos_builder.Errdefs.{Result, ok, err, Result-cases, lit, str}
use incusos_builder.Cli.Disk.{Files, Disk, touch, stat, put_other, remove-cases}
use incusos_builder.Cli.Publish.{Artifact, Journal}
use incusos_builder.Cli.Publish.Steps.{taken, is_not_exist}
use incusos_builder.Cli.Session.{
  Session, Phase, Publication, publish_no_clobber, publish_force, finish_image_temp,
  finish_resources_temp, both, fsync_path, hash_path, content_of, publish_files, publish,
  remove_bak, remove_baks,
}
use incusos_builder.Cli.Session.Cleanup.{Apart, Disjoint}
use incusos_builder.Cli.Session.Publishing.{publish_no_clobber-Going, publish_force-Going}
use incusos_builder.Cli.Session.Restores.{
  stat-files, finish_image_temp-Quiet, finish_resources_temp-Quiet, fsync_path-files, names, IsNew,
  IsBegun, before, Runs, begun-Runs, Quiet-Runs, choose,
}
use incusos_builder.Cli.Session.Swaps.{
  Waiting, Swapped, publish_no_clobber-Swapped, publish_force-Swapped,
}

remove_bak-others :
    (a : Artifact) (j : Journal) (p : Text)
    → p ≢ a.bak
    → (remove_bak a j).1.1.disk.files p ≡ j.disk.files p
unfolding remove_bak
remove_bak-others a j p ne = elim (Bool-cases (not a.backed_up)) [
  | inl none_made ↦ rw (none_made, remove_bak) refl
  | inr made ↦ elim (remove-cases a.bak j.disk) [
    | inl c ↦ rw (made, c.failed, c.other, remove_bak) (ap (λ f. f p) c.same)
    | inr q ↦ elim q [
      | inl c ↦ rw (made, c.failed, is_not_exist, remove_bak) (ap (λ f. f p) c.same)
      | inr c ↦
          rw (made, c.good, remove_bak)
            (ap (λ f. f p) c.next ∙ put_other a.bak p none j.disk.files ne)
    ]
  ]
]

module _ (sha256 : List ℕ → Text) where
  abbrev Digests : List ℕ → Result Text → Type 0
  Digests content (ok d) = d ≡ sha256 content
  Digests content (err e) = Unit

  Digests-same : (c c' : List ℕ) (r : Result Text) → c ≡ c' → Digests c r → Digests c' r
  Digests-same c c' (ok d) same h = h ∙ ap sha256 same
  Digests-same c c' (err e) same h = tt

  finish_image_temp-Digests : (s : Session) → Digests s.hashed (finish_image_temp sha256 s).0
  unfolding finish_image_temp
  finish_image_temp-Digests s = elim (Bool-cases (not s.image_open)) [
    | inl closed ↦ rw (closed, finish_image_temp) tt
    | inr opened ↦ elim (Option-cases (touch s.journal.disk).failure) [
      | inr (e, bad) ↦ rw (opened, bad, finish_image_temp) tt
      | inl good ↦ elim (Option-cases (touch (touch s.journal.disk).disk).failure) [
        | inr (e, bad) ↦ rw (opened, good, bad, finish_image_temp) tt
        | inl good' ↦ rw (opened, good, good', finish_image_temp) refl
      ]
    ]
  ]

  hash_path-Digests :
      (p : Text) (d : Disk) → Digests (content_of (d.files p)) (hash_path sha256 p d).0
  unfolding hash_path
  hash_path-Digests p d = elim (Option-cases (stat p d).failure) [
    | inr (e, bad) ↦ rw (bad, hash_path) tt
    | inl good ↦
        let message = lit "hash " ∷ str p ∷ [] in
        let message' = lit "close " ∷ str p ∷ lit " after hash" ∷ [] in
        elim (Option-cases (both sha256 message message' (stat p d).disk).0) [
          | inr (e, bad) ↦ rw (good, bad, hash_path) tt
          | inl good' ↦
              rw (good, good', hash_path) (ap (λ f. sha256 (content_of (f p))) (stat-files p d))
        ]
  ]

  finish_resources_temp-Digests :
      (s : Session)
      → s.resources.temp ≢ []
      → Digests
          (content_of (s.journal.disk.files s.resources.temp))
          (finish_resources_temp sha256 s).0
  unfolding finish_resources_temp
  finish_resources_temp-Digests s ne = elim (Bool-cases (text_eq s.resources.temp [])) [
    | inl online ↦ absurd (ne ((text_eq_iff s.resources.temp []).0 online))
    | inr offline ↦
        let synced = fsync_path sha256 s.resources.temp s.journal.disk in
        let same = fsync_path-files sha256 s.resources.temp s.journal.disk in
        elim (Option-cases synced.0) [
          | inr (e, bad) ↦ rw (offline, bad, finish_resources_temp) tt
          | inl good ↦
              rw (offline, good, finish_resources_temp)
                (Digests-same _ _ (hash_path sha256 s.resources.temp synced.1).0
                  (ap (λ f. content_of (f s.resources.temp)) same)
                  (hash_path-Digests s.resources.temp synced.1))
        ]
  ]

module _ (s : Session) (apart_i : Apart (names s.image)) (apart_r : Apart (names s.resources))
    (image_not_resources : Disjoint (names s.image) (names s.resources))
    (resources_not_image : Disjoint (names s.resources) (names s.image)) where
  abbrev was : Files
  was = before s apart_i apart_r image_not_resources resources_not_image

  abbrev OnTrack : Session → Type 0
  OnTrack = Runs s apart_i apart_r image_not_resources resources_not_image

  abbrev Waits : Session → Type 0
  Waits =
      Waiting (names s.image) (names s.resources) apart_i apart_r image_not_resources
        resources_not_image (was s.image.final) (was s.resources.final) was

  abbrev Swaps : Session → Type 0
  Swaps =
      Swapped (names s.image) (names s.resources) apart_i apart_r image_not_resources
        resources_not_image (was s.image.final) (was s.resources.final) was

  -- The finals hold what the temps held, and the digests are theirs.
  pub record Published (sha256 : List ℕ → Text) (p : Publication) (t : Session) : Type 0 where
    pub image_there :
        s.image.final ≢ []
        → s.image.temp ≢ []
        → t.journal.disk.files s.image.final ≡ s.journal.disk.files s.image.temp
    pub resources_there :
        s.resources.final ≢ []
        → s.resources.temp ≢ []
        → t.journal.disk.files s.resources.final ≡ s.journal.disk.files s.resources.temp
    pub image_digest : p.image_sha256 ≡ sha256 s.hashed
    pub resources_digest :
        s.resources.temp ≢ []
        → p.resources_sha256 ≡ sha256 (content_of (s.journal.disk.files s.resources.temp))

  abbrev IfPublished : (List ℕ → Text) → Result Publication × Session → Type 0
  IfPublished sha256 (ok p, t) = Published sha256 p t
  IfPublished sha256 (err e, t) = Unit

  choose_swap :
      (b : Bool) (x y : Phase)
      → (x.failure ≡ none → Swaps x.session)
      → (y.failure ≡ none → Swaps y.session)
      → (if b then x else y).failure ≡ none
      → Swaps (if b then x else y).session
  choose_swap true x y hx hy h = hx h
  choose_swap false x y hx hy h = hy h

  -- Removing the backups leaves the final paths alone.
  remove_baks-final :
      (t : Session) (p : Text)
      → OnTrack t
      → p ≢ s.image.bak
      → p ≢ s.resources.bak
      → (remove_baks t).1.journal.disk.files p ≡ t.journal.disk.files p
  unfolding remove_baks
  remove_baks-final t p g ni nr =
      let j = (remove_bak t.image t.journal).1.1 in
      remove_bak-others t.resources j p (λ e. nr (e ∙ g.tracked.resources_named.bak))
      ∙ remove_bak-others t.image t.journal p (λ e. ni (e ∙ g.tracked.image_named.bak))

  publish_files-IfPublished :
      (sha256 : List ℕ → Text) (image_digest resources_digest : Text) (t : Session)
      → OnTrack t
      → Waits t
      → IsNew t.image
      → IsNew t.resources
      → image_digest ≡ sha256 s.hashed
      → (s.resources.temp ≢ []
          → resources_digest ≡ sha256 (content_of (s.journal.disk.files s.resources.temp)))
      → IfPublished sha256 (publish_files sha256 image_digest resources_digest t)
  unfolding publish_files
  publish_files-IfPublished sha256 a b t g w new_i new_r digest digest' =
      let free_i : taken t.image ≡ false = rw (new_i.0, new_i.1) refl in
      let free_r : taken t.resources ≡ false = rw (new_r.0, new_r.1) refl in
      let p = if t.replace then publish_force t else publish_no_clobber t in
      let g' : OnTrack p.session =
        choose s apart_i apart_r image_not_resources resources_not_image t.replace (publish_force t)
          (publish_no_clobber t)
          (publish_force-Going (names s.image) (names s.resources) apart_i apart_r
            image_not_resources resources_not_image (was s.image.final) (was s.resources.final) was
            t g free_i free_r new_i.2 new_r.2)
          (publish_no_clobber-Going (names s.image) (names s.resources) apart_i apart_r
            image_not_resources resources_not_image (was s.image.final) (was s.resources.final) was
            t g free_i free_r) in
      elim (Option-cases p.failure) [
        | inr (e, bad) ↦ rw (bad, publish_files) tt
        | inl good ↦
            let swapped : Swaps p.session =
              choose_swap t.replace (publish_force t) (publish_no_clobber t)
                (publish_force-Swapped (names s.image) (names s.resources) apart_i apart_r
                  image_not_resources resources_not_image (was s.image.final)
                  (was s.resources.final) was t g w free_i free_r new_i.2 new_r.2)
                (publish_no_clobber-Swapped (names s.image) (names s.resources) apart_i apart_r
                  image_not_resources resources_not_image (was s.image.final)
                  (was s.resources.final) was t g w free_i free_r)
                good in
            rw (good, publish_files)
              (record {
                image_there = λ ne nt.
                    remove_baks-final p.session s.image.final g' (apart_i ne).0
                      (image_not_resources s.image.final (inl refl)).1
                    ∙ (swapped.image_there ne nt).0;
                resources_there = λ ne nt.
                    remove_baks-final p.session s.resources.final g'
                      (resources_not_image s.resources.final (inl refl)).1 (apart_r ne).0
                    ∙ (swapped.resources_there ne nt).0;
                image_digest = digest;
                resources_digest = digest';
              })
      ]

  publish-IfPublished : (sha256 : List ℕ → Text) → IsBegun s → IfPublished sha256 (publish sha256 s)
  unfolding publish
  publish-IfPublished sha256 b =
      let q = finish_image_temp-Quiet sha256 s in
      let t = (finish_image_temp sha256 s).1 in
      let q' = finish_resources_temp-Quiet sha256 t in
      let u = (finish_resources_temp sha256 t).1 in
      let run = Quiet-Runs s apart_i apart_r image_not_resources resources_not_image in
      let start = begun-Runs s apart_i apart_r image_not_resources resources_not_image b in
      let g' : OnTrack u = run t u q' (run s t q start) in
      let w : Waits u = record {
        image_temp = ap (λ a. a.temp) (q'.image ∙ q.image);
        resources_temp = ap (λ a. a.temp) (q'.resources ∙ q.resources);
        image_waits = λ ne. ap (λ f. f s.image.temp) (q'.files ∙ q.files);
        resources_wait = λ ne. ap (λ f. f s.resources.temp) (q'.files ∙ q.files);
      } in
      elim (Result-cases (finish_image_temp sha256 s).0) [
        | inr (e, bad) ↦ rw (bad, publish) tt
        | inl (digest, good) ↦ elim (Result-cases (finish_resources_temp sha256 t).0) [
          | inr (e, bad) ↦ rw (good, bad, publish) tt
          | inl (digest', good') ↦
              rw (good, good', publish)
                (publish_files-IfPublished sha256 digest digest' u g' w
                  (rw (q'.image, q.image) b.image_new)
                  (rw (q'.resources, q.resources) b.resources_new)
                  (rw good at (finish_image_temp-Digests sha256 s))
                  (λ ne.
                    let same : t.resources.temp ≡ s.resources.temp = ap (λ a. a.temp) q.resources in
                    let d =
                      rw good' at
                        (finish_resources_temp-Digests sha256 t (λ e. ne (sym same ∙ e))) in
                    d
                    ∙ ap (λ x. sha256 (content_of (t.journal.disk.files x))) same
                    ∙ ap (λ f. sha256 (content_of (f s.resources.temp))) q.files))
        ]
      ]

  -- A `Publish` that succeeds has put at each final path what its temp held before, whatever was
  -- there; it reports the digest of the bytes that the hasher of the image has taken, and that of
  -- what the resources temp holds. The session is a fresh one, and its six paths are different.
  pub publish-Published :
      (sha256 : List ℕ → Text) (p : Publication) (t : Session)
      → IsBegun s
      → publish sha256 s ≡ (ok p, t)
      → Published sha256 p t
  publish-Published sha256 p t b h = rw h at (publish-IfPublished sha256 b)
