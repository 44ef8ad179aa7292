-- ===== src/Cli/Tests.antt =====
-- Publications on a small disk.
use incusos_builder.Base.{
  ℕ, ◌≡◌, refl, sym, ◌∙◌, ◌≢◌, inl, inr, Bool, true, false, ◌||◌, none, some, List, [], ◌∷◌, ◌++◌,
  if◌then◌else◌,
}
use incusos_builder.Base.Text.{Text, codes, text_eq, text_eq_iff}
use incusos_builder.Errdefs.{
  Error, Result, ok, err, usage, fetch, eof, join, sentinel, lit, is, Sentinel-discrete,
}
use incusos_builder.Build.Pipeline.{Renderer}
use incusos_builder.Cli.Disk.{Files, Disk, put, move, touch, stat, rename, remove, create_excl}
use incusos_builder.Cli.Publish.{
  Artifact, output_wrap, bak, bak_rename, claim_then_rename, rename_claimed, unpublish, restore,
  remove_temp,
}
use incusos_builder.Cli.Session.{
  Session, Publication, publish, publish_files, publish_force, publish_no_clobber,
  finish_image_temp, finish_resources_temp, fsync_path, hash_path, both, fail, cleanup, close_image,
  rollback_publication, remove_bak, remove_baks,
}
use incusos_builder.Cli.Session.Cleanup.{Apart, Disjoint}
use incusos_builder.Cli.Session.{image_write, content_of}
use incusos_builder.Cli.Session.Hashed.{IsHashed, image_write-IsHashed, publish-IsHashed}
use incusos_builder.Cli.Session.Published.{Published, publish-Published}
use incusos_builder.Cli.Session.Restores.{names, Restored, publish-Restored}

abbrev new_artifact : Text → Artifact
new_artifact path = record {
  final = path;
  temp = codes "." ++ path;
  bak = path ++ codes "~";
  claimed = false;
  published = false;
  backed_up = false;
}

abbrev old_pair : Files
old_pair p =
    if text_eq p (codes "i")
    then some (1 ∷ [])
    else if text_eq p (codes "r")
    then some (2 ∷ [])
    else if text_eq p (codes ".i")
    then some (3 ∷ [])
    else if text_eq p (codes ".r")
    then some (4 ∷ [])
    else none

abbrev session_with : Disk → Session
session_with d = record {
  image = new_artifact (codes "i");
  resources = new_artifact (codes "r");
  image_open = true;
  hashed = 3 ∷ [];
  replace = true;
  journal = record { disk = d; rollback = []; leftovers = [] };
  complete = false;
  cleaned = false;
}

-- The rename of the image temp, the seventeenth call, fails.
abbrev failing : Session
failing = session_with (record {
  files = old_pair;
  faults =
      none
      ∷ none
      ∷ none
      ∷ none
      ∷ none
      ∷ none
      ∷ none
      ∷ none
      ∷ none
      ∷ none
      ∷ none
      ∷ none
      ∷ none
      ∷ none
      ∷ none
      ∷ none
      ∷ none
      ∷ some (lit "disk full" ∷ [])
      ∷ [];
})

abbrev succeeding : Session
succeeding = session_with (record { files = old_pair; faults = [] })

abbrev digest : List ℕ → Text
digest bytes = bytes

abbrev error_of : Result Publication → Error
error_of (ok p) = sentinel usage
error_of (err e) = e

published_image : (publish digest succeeding).1.journal.disk.files (codes "i") ≡ some (3 ∷ [])
unfolding publish publish_files publish_force publish_no_clobber finish_image_temp
    finish_resources_temp fsync_path hash_path both fail cleanup close_image rollback_publication
    remove_bak remove_baks output_wrap bak bak_rename claim_then_rename rename_claimed unpublish
    restore remove_temp put move touch stat rename remove create_excl text_eq is Sentinel-discrete
published_image = refl

published_resources : (publish digest succeeding).1.journal.disk.files (codes "r") ≡ some (4 ∷ [])
unfolding publish publish_files publish_force publish_no_clobber finish_image_temp
    finish_resources_temp fsync_path hash_path both fail cleanup close_image rollback_publication
    remove_bak remove_baks output_wrap bak bak_rename claim_then_rename rename_claimed unpublish
    restore remove_temp put move touch stat rename remove create_excl text_eq is Sentinel-discrete
published_resources = refl

abbrev is_error : Result Publication → Bool
is_error (ok p) = false
is_error (err e) = true

failed_pair :
    (r : Result Publication × Session) → is_error r.0 ≡ true → r ≡ (err (error_of r.0), r.1)
failed_pair (ok p, t) h = cc
failed_pair (err e, t) h = refl

failing_fails : is_error (publish digest failing).0 ≡ true
unfolding publish publish_files publish_force publish_no_clobber finish_image_temp
    finish_resources_temp fsync_path hash_path both fail cleanup close_image rollback_publication
    remove_bak remove_baks output_wrap bak bak_rename claim_then_rename rename_claimed unpublish
    restore remove_temp put move touch stat rename remove create_excl text_eq is Sentinel-discrete
failing_fails = refl

failing_restores : (publish digest failing).1.journal.disk.files (codes "r") ≡ some (2 ∷ [])
unfolding publish publish_files publish_force publish_no_clobber finish_image_temp
    finish_resources_temp fsync_path hash_path both fail cleanup close_image rollback_publication
    remove_bak remove_baks output_wrap bak bak_rename claim_then_rename rename_claimed unpublish
    restore remove_temp put move touch stat rename remove create_excl text_eq is Sentinel-discrete
failing_restores = refl

failing_tidy : (publish digest failing).1.journal.leftovers ≡ []
unfolding publish publish_files publish_force publish_no_clobber finish_image_temp
    finish_resources_temp fsync_path hash_path both fail cleanup close_image rollback_publication
    remove_bak remove_baks output_wrap bak bak_rename claim_then_rename rename_claimed unpublish
    restore remove_temp put move touch stat rename remove create_excl text_eq is Sentinel-discrete
failing_tidy = refl

image_apart : Apart (names failing.image)
image_apart = λ ne. (λ e. cc, λ e. cc, λ e. cc)

resources_apart : Apart (names failing.resources)
resources_apart = λ ne. (λ e. cc, λ e. cc, λ e. cc)

differ : (a b p : Text) → text_eq a b ≡ false → p ≡ a → p ≢ b
differ a b p h e q = let same : text_eq a b ≡ true = (text_eq_iff a b).1 (sym e ∙ q) in cc (h, same)

image_not_resources : Disjoint (names failing.image) (names failing.resources)
unfolding text_eq
image_not_resources p h = elim h [
  | inl e ↦ (differ _ _ p refl e, differ _ _ p refl e, differ _ _ p refl e)
  | inr h' ↦ elim h' [
    | inl e ↦ (differ _ _ p refl e, differ _ _ p refl e, differ _ _ p refl e)
    | inr e ↦ (differ _ _ p refl e, differ _ _ p refl e, differ _ _ p refl e)
  ]
]

resources_not_image : Disjoint (names failing.resources) (names failing.image)
unfolding text_eq
resources_not_image p h = elim h [
  | inl e ↦ (differ _ _ p refl e, differ _ _ p refl e, differ _ _ p refl e)
  | inr h' ↦ elim h' [
    | inl e ↦ (differ _ _ p refl e, differ _ _ p refl e, differ _ _ p refl e)
    | inr e ↦ (differ _ _ p refl e, differ _ _ p refl e, differ _ _ p refl e)
  ]
]

publish-Restored_example :
    Restored failing image_apart resources_apart image_not_resources resources_not_image
      (publish digest failing).1
publish-Restored_example =
    publish-Restored failing image_apart resources_apart image_not_resources resources_not_image
      digest (error_of (publish digest failing).0) (publish digest failing).1
      (record {
        image_new = (refl, refl, refl);
        resources_new = (refl, refl, refl);
        unfinished = refl;
      })
      (failed_pair (publish digest failing) failing_fails)

abbrev no_test : Error → Bool
no_test e = false

abbrev render_nothing : Renderer
render_nothing seeds = ok ([], 0)

no_usage :
    (is (join (sentinel fetch) (sentinel eof)) usage
      || (no_test (join (sentinel fetch) (sentinel eof))
          || no_test (join (sentinel fetch) (sentinel eof))))
    ≡ false
unfolding is Sentinel-discrete
no_usage = refl

-- The resources path is the name of the image's backup.
abbrev clashing : Session
clashing = record succeeding {
  resources = record (new_artifact (codes "i~")) { temp = codes ".r" };
}

clash_succeeds : is_error (publish digest clashing).0 ≡ false
unfolding publish publish_files publish_force publish_no_clobber finish_image_temp
    finish_resources_temp fsync_path hash_path both fail cleanup close_image rollback_publication
    remove_bak remove_baks output_wrap bak bak_rename claim_then_rename rename_claimed unpublish
    restore remove_temp put move touch stat rename remove create_excl text_eq is Sentinel-discrete
clash_succeeds = refl

-- The publication has removed, as a backup, the resources that it had published.
clash_loses_resources : (publish digest clashing).1.journal.disk.files (codes "i~") ≡ none
unfolding publish publish_files publish_force publish_no_clobber finish_image_temp
    finish_resources_temp fsync_path hash_path both fail cleanup close_image rollback_publication
    remove_bak remove_baks output_wrap bak bak_rename claim_then_rename rename_claimed unpublish
    restore remove_temp put move touch stat rename remove create_excl text_eq is Sentinel-discrete
clash_loses_resources = refl

abbrev no_publication : Publication
no_publication = record { image_sha256 = []; resources_sha256 = []; leftovers = [] }

abbrev publication_of : Result Publication → Publication
publication_of (ok p) = p
publication_of (err e) = no_publication

succeeded_pair :
    (r : Result Publication × Session) → is_error r.0 ≡ false → r ≡ (ok (publication_of r.0), r.1)
succeeded_pair (ok p, t) h = refl
succeeded_pair (err e, t) h = cc

succeeding_succeeds : is_error (publish digest succeeding).0 ≡ false
unfolding publish publish_files publish_force publish_no_clobber finish_image_temp
    finish_resources_temp fsync_path hash_path both fail cleanup close_image rollback_publication
    remove_bak remove_baks output_wrap bak bak_rename claim_then_rename rename_claimed unpublish
    restore remove_temp put move touch stat rename remove create_excl text_eq is Sentinel-discrete
succeeding_succeeds = refl

publish-Published_example :
    Published succeeding image_apart resources_apart image_not_resources resources_not_image digest
      (publication_of (publish digest succeeding).0)
      (publish digest succeeding).1
publish-Published_example =
    publish-Published succeeding image_apart resources_apart image_not_resources resources_not_image
      digest (publication_of (publish digest succeeding).0) (publish digest succeeding).1
      (record {
        image_new = (refl, refl, refl);
        resources_new = (refl, refl, refl);
        unfinished = refl;
      })
      (succeeded_pair (publish digest succeeding) succeeding_succeeds)

succeeding-IsHashed : IsHashed succeeding
unfolding text_eq
succeeding-IsHashed = refl

image_write-IsHashed_example : IsHashed (image_write (5 ∷ 6 ∷ []) 1 succeeding)
image_write-IsHashed_example = image_write-IsHashed (5 ∷ 6 ∷ []) 1 succeeding succeeding-IsHashed

publish-IsHashed_example :
    (publication_of (publish digest succeeding).0).image_sha256
    ≡ digest (content_of ((publish digest succeeding).1.journal.disk.files (codes "i")))
publish-IsHashed_example =
    publish-IsHashed succeeding image_apart resources_apart image_not_resources resources_not_image
      digest (publication_of (publish digest succeeding).0) (publish digest succeeding).1
      (record {
        image_new = (refl, refl, refl);
        resources_new = (refl, refl, refl);
        unfinished = refl;
      })
      succeeding-IsHashed (λ e. cc) (λ e. cc)
      (succeeded_pair (publish digest succeeding) succeeding_succeeds)
