-- ===== src/Build/Resolve/Files.antt =====
-- What `Resolve` returns: the image of the selected update, and the applications asked for.
use incusos_builder.Base.{
  ◌≡◌, refl, sym, ◌∙◌, ◌⊎◌, ◌↔◌, inl, inr, true, false, none, some, List, [], ◌∷◌, ◌++◌,
  if◌then◌else◌, arith, In, Bool-cases, Option-cases,
}
use incusos_builder.Base.Path.{base}
use incusos_builder.Base.Text.{Text, text_eq, text_eq_iff}
use incusos_builder.Errdefs.{ok, ok_elim}
use incusos_builder.Images.{
  FileType, image_iso, image_raw, application, other_type, UpdateFile, UpdateFull, Index,
}
use incusos_builder.Seeds.{Application}
use incusos_builder.Build.Spec.{Spec, Plan, image_type_iso, image_type_raw, default_channel}
use incusos_builder.Build.Resolve.{
  app_suffix, select_update, image_file_type, file_type_eq, matching_files, find_app_file,
  match_loop, match_applications, single_image, resolve,
}

pub file_type_eq→eq : (a b : FileType) → file_type_eq a b ≡ true → a ≡ b
file_type_eq→eq (other_type s) (other_type t) h = ground (arith, text_eq_iff s t)
file_type_eq→eq a b h = ground arith

pub file_type_eq_refl : (a : FileType) → file_type_eq a a ≡ true
file_type_eq_refl (other_type s) = (text_eq_iff s s).1 refl
file_type_eq_refl _ = refl

-- A file of the architecture and the type.
abbrev pub Matches : Text → FileType → UpdateFile → Type 0
Matches arch file_type f = (f.architecture ≡ arch) × (f.file_type ≡ file_type)

-- A file in front that does not match is passed over.
passed_over :
    (arch : Text) (t : FileType) (f g : UpdateFile) (files kept : List UpdateFile)
    → ¬ Matches arch t g
    → (In f kept ↔ (In f files × Matches arch t f))
    → In f kept ↔ (In f (g ∷ files) × Matches arch t f)
passed_over arch t f g files kept no_match rest = (
  λ m. let r = rest.0 m in (inr r.0, r.1),
  λ m. elim m.0 [ inl e ↦ absurd (no_match (rw e at m.1)) | inr n ↦ rest.1 (n, m.1) ],
)

pub arch_differs :
    (arch : Text) (t : FileType) (g : UpdateFile)
    → text_eq g.architecture arch ≡ false
    → ¬ Matches arch t g
arch_differs arch t g h m = cc (h, (text_eq_iff g.architecture arch).1 m.0)

pub type_differs :
    (arch : Text) (t : FileType) (g : UpdateFile)
    → file_type_eq g.file_type t ≡ false
    → ¬ Matches arch t g
type_differs arch t g h m =
    let same : file_type_eq g.file_type t ≡ true = rw m.1 (file_type_eq_refl t) in cc (h, same)

pub matching_files_iff :
    (files : List UpdateFile) (arch : Text) (t : FileType) (f : UpdateFile)
    → In f (matching_files files arch t) ↔ (In f files × Matches arch t f)
unfolding matching_files
matching_files_iff [] arch t f = (λ m. absurd m, λ m. absurd m.0)
matching_files_iff (g ∷ files) arch t f =
    let rest = matching_files_iff files arch t f in
    let kept = matching_files files arch t in
    elim (Bool-cases (text_eq g.architecture arch)) [
      | inr other ↦ rw other (passed_over arch t f g files kept (arch_differs arch t g other) rest)
      | inl here ↦ elim (Bool-cases (file_type_eq g.file_type t)) [
        | inr other ↦
            rw (here, other) (passed_over arch t f g files kept (type_differs arch t g other) rest)
        | inl same ↦
            rw (here, same)
              (
                λ m. elim m [
                  | inl e ↦ (
                    inl e,
                    rw e (
                      (text_eq_iff g.architecture arch).0 here,
                      file_type_eq→eq g.file_type t same,
                    ),
                  )
                  | inr n ↦ let r = rest.0 n in (inr r.0, r.1)
                ],
                λ m. elim m.0 [ inl e ↦ inl e | inr n ↦ inr (rest.1 (n, m.1)) ],
              )
      ]
    ]

-- The images of a release: exactly one file matches, and the plan names it.
pub single_image_sound :
    (spec : Spec) (t : FileType) (update : UpdateFull) (images : List UpdateFile)
    (image : UpdateFile)
    → single_image spec t update images ≡ ok image
    → images ≡ image ∷ []
unfolding single_image
single_image_sound spec t update [] image h = cc
single_image_sound spec t update (x ∷ []) image h = cc
single_image_sound spec t update (x ∷ y ∷ xs) image h = cc

-- Each file, in order, carries the application of the same place.
abbrev pub Carries : List Application → List UpdateFile → Type 0
Carries [] [] = Unit
Carries [] (f ∷ fs) = ⊥
Carries (a ∷ as') [] = ⊥
Carries (a ∷ as') (f ∷ fs) = (base f.filename ≡ a.name ++ app_suffix) × Carries as' fs

find_app_file_sound :
    (files : List UpdateFile) (want : Text) (f : UpdateFile)
    → find_app_file files want ≡ some f
    → In f files × (base f.filename ≡ want)
unfolding find_app_file
find_app_file_sound [] want f h = cc
find_app_file_sound (g ∷ files) want f h = elim (Bool-cases (text_eq (base g.filename) want)) [
  | inl e ↦
      let same : g ≡ f = ground arith in
      (inl (sym same), rw (← same) ((text_eq_iff (base g.filename) want).0 e))
  | inr e ↦ let r = find_app_file_sound files want f (ground arith) in (inr r.0, r.1)
]

match_loop_sound :
    (files : List UpdateFile) (version : Text) (apps : List Application) (out : List UpdateFile)
    → match_loop files version apps ≡ ok out
    → Carries apps out × ((f : UpdateFile) → In f out → In f files)
unfolding match_loop
match_loop_sound files version [] out h = let e : [] ≡ out = cc in rw (← e) (tt, λ f m. absurd m)
match_loop_sound files version (app ∷ apps) out h =
    elim (Option-cases (find_app_file files (app.name ++ app_suffix))) [
      | inl e ↦ cc (rw (e, match_loop) at h)
      | inr (file, e) ↦
          ok_elim (match_loop files version apps) (λ fs. ok (file ∷ fs)) (rw (e, match_loop) at h)
            λ rest more done.
              let found = find_app_file_sound files (app.name ++ app_suffix) file e in
              let ih = match_loop_sound files version apps rest more in
              let same : file ∷ rest ≡ out = cc in
              rw (← same)
                ((found.1, ih.0), λ f m. elim m [ inl e' ↦ rw e' found.0 | inr n ↦ ih.1 f n ])
    ]

-- The channel that `Resolve` selects from.
abbrev pub channel_of : Spec → Text
channel_of spec = if text_eq spec.channel [] then default_channel else spec.channel

-- The applications that a spec asks for.
abbrev pub requested : Spec → List Application
requested spec = elim spec.seeds.applications [ none ↦ [] | some seed ↦ seed.applications ]

-- The type of the image file that a spec asks for.
abbrev pub AsksFor : Text → FileType → Type 0
AsksFor image_type t =
    ((image_type ≡ image_type_iso) × (t ≡ image_iso))
    ⊎ ((image_type ≡ image_type_raw) × (t ≡ image_raw))

-- What a plan says of the update that was selected.
pub record IsPlan (spec : Spec) (index : Index) (plan : Plan) (update : UpdateFull) : Type 0 where
  pub selected : select_update index (channel_of spec) spec.release ≡ ok update
  pub version : plan.version ≡ update.version
  pub image_listed : In plan.image update.files
  pub image_arch : plan.image.architecture ≡ spec.architecture
  pub image_type : AsksFor spec.image_type plan.image.file_type
  pub image_unique :
      (f : UpdateFile)
      → In f update.files
      → Matches spec.architecture plan.image.file_type f
      → f ≡ plan.image
  pub apps_online : spec.offline ≡ false → plan.apps ≡ []
  pub apps_offline : spec.offline ≡ true → Carries (requested spec) plan.apps
  pub apps_listed :
      (f : UpdateFile)
      → In f plan.apps
      → In f update.files × Matches spec.architecture application f

image_file_type_sound :
    (image_type : Text) (t : FileType) → image_file_type image_type ≡ ok t → AsksFor image_type t
unfolding image_file_type
image_file_type_sound image_type t h =
    ground (arith, text_eq_iff image_type image_type_iso, text_eq_iff image_type image_type_raw)

match_applications_sound :
    (spec : Spec) (update : UpdateFull) (out : List UpdateFile)
    → match_applications spec update ≡ ok out
    → Carries (requested spec) out
      × ((f : UpdateFile) → In f out → In f update.files × Matches spec.architecture application f)
unfolding match_applications
match_applications_sound spec update out h = elim (Option-cases spec.seeds.applications) [
  | inl e ↦ let same : [] ≡ out = cc (rw e at h) in rw (e, ← same) (tt, λ f m. absurd m)
  | inr (seed, e) ↦
      let files = matching_files update.files spec.architecture application in
      let r = match_loop_sound files update.version seed.applications out (rw e at h) in
      (
        rw e r.0,
        λ f m. (matching_files_iff update.files spec.architecture application f).0 (r.1 f m),
      )
]

apps_sound :
    (spec : Spec) (update : UpdateFull) (apps : List UpdateFile)
    → (if spec.offline then match_applications spec update else ok []) ≡ ok apps
    → (spec.offline ≡ false → apps ≡ [])
      × (spec.offline ≡ true → Carries (requested spec) apps)
      × ((f : UpdateFile) → In f apps → In f update.files × Matches spec.architecture application f)
unfolding match_applications
apps_sound spec update apps h = elim (Bool-cases spec.offline) [
  | inl offline ↦
      let r = match_applications_sound spec update apps (rw offline at h) in
      (λ e. cc, λ e. r.0, r.1)
  | inr online ↦
      let same : [] ≡ apps = cc (rw online at h) in
      (λ e. sym same, λ e. cc, rw (← same) (λ f m. absurd m))
]

IsPlan-of_steps :
    (spec : Spec) (index : Index) (update : UpdateFull) (t : FileType) (image : UpdateFile)
    (apps : List UpdateFile)
    → select_update index (channel_of spec) spec.release ≡ ok update
    → image_file_type spec.image_type ≡ ok t
    → single_image spec t update (matching_files update.files spec.architecture t) ≡ ok image
    → (if spec.offline then match_applications spec update else ok []) ≡ ok apps
    → IsPlan spec index (record { version = update.version; image = image; apps = apps }) update
IsPlan-of_steps spec index update t image apps selected typed single matched =
    let files = matching_files update.files spec.architecture t in
    let only = single_image_sound spec t update files image single in
    let listed : In image files = rw only (inl refl) in
    let here = (matching_files_iff update.files spec.architecture t image).0 listed in
    let r = apps_sound spec update apps matched in
    record {
      selected = selected;
      version = refl;
      image_listed = here.0;
      image_arch = here.1.0;
      image_type = rw (here.1.1) (image_file_type_sound spec.image_type t typed);
      image_unique = λ f m same.
          let kept : In f files =
            (matching_files_iff update.files spec.architecture t f).1
              (m, (same.0, same.1 ∙ here.1.1)) in
          elim (rw only at kept) [ inl e ↦ e | inr n ↦ absurd n ];
      apps_online = r.0;
      apps_offline = r.1;
      apps_listed = r.2;
    }

-- A plan names the selected update's version, its only image of the requested architecture and
-- type, and, only for an offline build, a file of the update for each requested application.
pub resolve-IsPlan :
    (spec : Spec) (index : Index) (plan : Plan)
    → resolve spec index ≡ ok plan
    → (update : UpdateFull) × IsPlan spec index plan update
unfolding resolve
resolve-IsPlan spec index plan h =
    ok_elim (select_update index (channel_of spec) spec.release) _ h λ update selected h1.
      ok_elim (image_file_type spec.image_type) _ h1 λ t typed h2.
        ok_elim (single_image spec t update (matching_files update.files spec.architecture t)) _ h2
          λ image single h3.
            ok_elim (if spec.offline then match_applications spec update else ok []) _ h3
              λ apps matched h4.
                let same : record { version = update.version; image = image; apps = apps } ≡ plan =
                  cc in
                (
                  update,
                  rw (← same) (
                      IsPlan-of_steps spec index update t image apps selected typed single matched),
                )
