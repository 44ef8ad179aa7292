-- ===== src/Cli/Session/Hashed.antt =====
-- The digest that a publication reports is that of the published image.
use incusos_builder.Base.{◌≡◌, ◌∙◌, ap, ◌≢◌, some, List, [], ◌++◌, ℕ, take}
use incusos_builder.Base.Text.{Text}
use incusos_builder.Errdefs.{ok}
use incusos_builder.Cli.Disk.{put_same}
use incusos_builder.Cli.Session.{Session, Publication, content_of, image_write, publish}
use incusos_builder.Cli.Session.Cleanup.{Apart, Disjoint}
use incusos_builder.Cli.Session.Restores.{names, IsBegun}
use incusos_builder.Cli.Session.Published.{publish-Published}

-- The hasher has taken exactly what the image temp holds.
abbrev pub IsHashed : Session → Type 0
IsHashed s = s.journal.disk.files s.image.temp ≡ some s.hashed

-- A write through the image writer, of which the temp accepts any number of bytes, keeps the hasher
-- and the temp in step.
pub image_write-IsHashed :
    (bytes : List ℕ) (n : ℕ) (s : Session) → IsHashed s → IsHashed (image_write bytes n s)
unfolding image_write
image_write-IsHashed bytes n s h =
    put_same s.image.temp _ s.journal.disk.files ∙ ap (λ c. some (content_of c ++ take n bytes)) h

-- If the hasher is in step with the image temp, a `Publish` that succeeds reports for the image the
-- digest of what is then at its final path. The session is a fresh one, and its six paths are different.
pub publish-IsHashed :
    (s : Session) (apart_i : Apart (names s.image)) (apart_r : Apart (names s.resources))
    (image_not_resources : Disjoint (names s.image) (names s.resources))
    (resources_not_image : Disjoint (names s.resources) (names s.image)) (sha256 : List ℕ → Text)
    (p : Publication) (t : Session)
    → IsBegun s
    → IsHashed s
    → s.image.final ≢ []
    → s.image.temp ≢ []
    → publish sha256 s ≡ (ok p, t)
    → p.image_sha256 ≡ sha256 (content_of (t.journal.disk.files s.image.final))
publish-IsHashed s apart_i apart_r i_r r_i sha256 p t b hashed ne nt h =
    let d = publish-Published s apart_i apart_r i_r r_i sha256 p t b h in
    rw (d.image_there ne nt, hashed) d.image_digest
