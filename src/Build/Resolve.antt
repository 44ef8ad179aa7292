-- ===== src/Build/Resolve.antt =====
-- internal/build/resolve.go: from a spec and the server's index to a plan.
pub mod Best
pub mod Select
pub mod Versions
pub mod Files
pub mod Matched
pub mod Failures
mod Tests
use incusos_builder.Base.{
  ℕ, zero, suc, ◌+◌, ◌≡◌, Bool, true, false, not, ◌&&◌, Option, none, some, List, [], ◌∷◌, ◌++◌,
  length, get_elem?, if◌then◌else◌,
}
use incusos_builder.Base.Path.{base}
use incusos_builder.Base.Text.{Text, codes, text_eq, text_lt, mem, join}
use incusos_builder.Errdefs.{
  Result, ok, err, Error, errorf, plain, Message, lit, num, str, quoted, kind, version_not_found,
  ◌>>=◌,
}
use incusos_builder.Images.{
  FileType, undefined_type, image_iso, image_raw, application, image_manifest, changelog,
  update_efi, update_usr, update_usr_verity, update_usr_verity_signature, update_secureboot,
  other_type, UpdateFile, UpdateFull, Index,
}
use incusos_builder.Seeds.{Application, Applications}
use incusos_builder.Build.Spec.{Spec, Plan, image_type_iso, image_type_raw, default_channel}

abbrev pub app_suffix : Text
app_suffix = codes ".raw.gz"

-- The loop of `selectUpdate`: `highest_version` and `highest_idx`, with `none` for -1.
unfoldable pub select_loop : Text → Text → ℕ → List UpdateFull → Text → Option ℕ → Option ℕ
select_loop channel pin i [] highest_version highest_idx = highest_idx
select_loop channel pin i (update ∷ updates) highest_version highest_idx =
    let skip = select_loop channel pin (i + 1) updates highest_version highest_idx in
    let higher = select_loop channel pin (i + 1) updates update.version (some i) in
    if not (mem channel update.channels)
    then skip
    else if not (text_eq pin []) && text_eq update.version pin
    then some i
    else if text_lt highest_version update.version
    then higher
    else skip

-- `slices.Sort` on strings, as an insertion sort: the result of sorting is unique.
unfoldable pub insert_sorted : Text → List Text → List Text
insert_sorted v [] = v ∷ []
insert_sorted v (x ∷ xs) =
    let rest = insert_sorted v xs in if text_lt x v then x ∷ rest else v ∷ x ∷ xs

unfoldable pub sort : List Text → List Text
sort [] = []
sort (x ∷ xs) = insert_sorted x (sort xs)

-- The loop of `channelVersions`; the keys of `seen` are the versions collected so far.
unfoldable pub collect_versions : Text → List Text → List UpdateFull → List Text
collect_versions channel versions [] = versions
collect_versions channel versions (update ∷ updates) =
    collect_versions channel
      (if not (mem channel update.channels)
        then versions
        else if mem update.version versions
        then versions
        else versions ++ (update.version ∷ []))
      updates

-- `channelVersions`.
unfoldable pub channel_versions : Index → Text → List Text
channel_versions index channel = sort (collect_versions channel [] index.updates)

-- `joinOrNone`.
unfoldable pub join_or_none : List Text → Text
join_or_none [] = codes "none"
join_or_none (x ∷ xs) = join (codes ", ") (x ∷ xs)

-- The error of `selectUpdate`.
abbrev pub not_selected : Index → Text → Text → Error
not_selected index channel pin =
    let available = str (join_or_none (channel_versions index channel)) in
    if not (text_eq pin [])
    then errorf version_not_found (
        lit "release "
        ∷ quoted pin
        ∷ lit " not in channel "
        ∷ quoted channel
        ∷ lit "; available: "
        ∷ available
        ∷ [])
    else errorf version_not_found
        (lit "no updates in channel " ∷ quoted channel ∷ lit "; available: " ∷ available ∷ [])

-- `selectUpdate`. An index out of range would panic; `Select` shows that it does not.
unfoldable pub select_update : Index → Text → Text → Result UpdateFull
select_update index channel pin = elim (select_loop channel pin 0 index.updates [] none) [
  | none ↦ err (not_selected index channel pin)
  | some i ↦ elim (get_elem? index.updates i) [
    | none ↦ err (plain (lit "panic: index out of range" ∷ []))
    | some update ↦
        if not (text_eq pin []) && not (text_eq update.version pin)
        then err (not_selected index channel pin)
        else ok update
  ]
]

-- `imageFileType`.
unfoldable pub image_file_type : Text → Result FileType
image_file_type t =
    if text_eq t image_type_iso
    then ok image_iso
    else if text_eq t image_type_raw
    then ok image_raw
    else err (errorf version_not_found (lit "unknown image type " ∷ quoted t ∷ []))

-- `==` on file types.
abbrev pub file_type_eq : FileType → FileType → Bool
file_type_eq undefined_type undefined_type = true
file_type_eq image_iso image_iso = true
file_type_eq image_raw image_raw = true
file_type_eq image_manifest image_manifest = true
file_type_eq changelog changelog = true
file_type_eq update_efi update_efi = true
file_type_eq update_usr update_usr = true
file_type_eq update_usr_verity update_usr_verity = true
file_type_eq update_usr_verity_signature update_usr_verity_signature = true
file_type_eq update_secureboot update_secureboot = true
file_type_eq application application = true
file_type_eq (other_type s) (other_type t) = text_eq s t
file_type_eq _ _ = false

-- `matchingFiles`.
unfoldable pub matching_files : List UpdateFile → Text → FileType → List UpdateFile
matching_files [] arch file_type = []
matching_files (file ∷ files) arch file_type =
    let rest = matching_files files arch file_type in
    if not (text_eq file.architecture arch)
    then rest
    else if not (file_type_eq file.file_type file_type)
    then rest
    else file ∷ rest

-- `findAppFile`.
unfoldable pub find_app_file : List UpdateFile → Text → Option UpdateFile
find_app_file [] want = none
find_app_file (file ∷ files) want =
    let rest = find_app_file files want in
    if text_eq (base file.filename) want then some file else rest

-- The names of the files, for the error text.
abbrev pub filenames : List UpdateFile → List Text
filenames [] = []
filenames (file ∷ files) = file.filename ∷ filenames files

-- The loop of `matchApplications` over the requested applications.
unfoldable pub match_loop : List UpdateFile → Text → List Application → Result (List UpdateFile)
match_loop app_files version [] = ok []
match_loop app_files version (app ∷ apps) =
    let rest = match_loop app_files version apps in
    elim (find_app_file app_files (app.name ++ app_suffix)) [
      | none ↦ err (
          errorf version_not_found (
            lit "application "
            ∷ quoted app.name
            ∷ lit " not in update "
            ∷ str version
            ∷ lit "; update does carry: "
            ∷ str (join_or_none (filenames app_files))
            ∷ []))
      | some file ↦ rest >>= λ files. ok (file ∷ files)
    ]

-- `matchApplications`.
unfoldable pub match_applications : Spec → UpdateFull → Result (List UpdateFile)
match_applications spec update = elim spec.seeds.applications [
  | none ↦ ok []
  | some seed ↦
      match_loop (matching_files update.files spec.architecture application) update.version
        seed.applications
]

-- The test for exactly one image in `Resolve`.
unfoldable pub single_image : Spec → FileType → UpdateFull → List UpdateFile → Result UpdateFile
single_image spec t update (image ∷ []) = ok image
single_image spec t update images = err (
    errorf version_not_found (
      lit "expected exactly one "
      ∷ kind t
      ∷ lit " image for "
      ∷ str spec.architecture
      ∷ lit " in "
      ∷ str update.version
      ∷ lit ", found "
      ∷ num (length images)
      ∷ []))

-- `Resolve`.
unfoldable pub resolve : Spec → Index → Result Plan
resolve spec index = do
  let channel = if text_eq spec.channel [] then default_channel else spec.channel
  update ← select_update index channel spec.release
  file_type ← image_file_type spec.image_type
  image ←
      single_image spec file_type update (matching_files update.files spec.architecture file_type)
  apps ← (if spec.offline then match_applications spec update else ok [])
  ok (record { version = update.version; image = image; apps = apps })
