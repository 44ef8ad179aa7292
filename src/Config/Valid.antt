-- ===== src/Config/Valid.antt =====
-- What the checks of internal/config/validate.go accept.
use incusos_builder.Base.{
  ◌≡◌, refl, ◌≢◌, ◌↔◌, ◌⊎◌, inl, inr, Bool, true, false, not, ◌||◌, Option, none, some, List, [],
  ◌∷◌, if◌then◌else◌, Bool-cases, arith,
}
use incusos_builder.Base.Int.{ℤ, pos, negsuc}
use incusos_builder.Base.Text.{Text, text_eq, text_eq_iff}
use incusos_builder.Seeds.{Applications, Install, InstallTarget, Security}
use incusos_builder.Errdefs.{Error, Result, ok, err, fail_if, >>-iff, config, Message, ◌>>◌, errorf}
use incusos_builder.Build.Spec.{image_type_iso, image_type_raw, arch_x86_64, arch_aarch64}
use incusos_builder.Config.Schema.{Image, Document}
use incusos_builder.Config.Filled.{IfPresent}
use incusos_builder.Config.Validate.{
  check_version, validate_image, validate_target, validate_install, validate_security,
  validate_offline, validate, to_lower, sort_order_smallest, sort_order_largest, is_current,
  has_applications, is_empty, is_sort_order, bad_type, bad_architecture,
}

abbrev pub OneOf : Text → Text → Text → Type 0
OneOf t a b = (t ≡ a) ⊎ (t ≡ b)

abbrev pub IsSortOrder : Text → Type 0
IsSortOrder s = (s ≡ []) ⊎ OneOf s sort_order_smallest sort_order_largest

abbrev pub HasSortOrder : Option Install → Type 0
HasSortOrder = IfPresent (λ (i : Install).
    IfPresent (λ (t : InstallTarget). IsSortOrder (to_lower t.sort_order)) i.target)

abbrev pub HasNoKeys : Option Security → Type 0
HasNoKeys = IfPresent (λ (s : Security). s.encryption_recovery_keys ≡ [])

abbrev pub HasApplications : Option Applications → Type 0
HasApplications o = (a : Applications) × (o ≡ some a) × (a.applications ≢ [])

either_iff : (t a b : Text) → ((text_eq t a || text_eq t b) ≡ true) ↔ OneOf t a b
either_iff t a b = (
  λ h. ground (arith, text_eq_iff t a, text_eq_iff t b),
  λ h. ground (arith, text_eq_iff t a, text_eq_iff t b),
)

fail_if_iff : (b : Bool) (e : Error) → (fail_if (not b) e ≡ ok tt) ↔ (b ≡ true)
fail_if_iff b e = (λ h. ground arith, λ h. ground arith)

pub check_version_iff : (v : Option ℤ) → (check_version v ≡ ok tt) ↔ (v ≡ some (pos 1))
unfolding check_version
check_version_iff none = (λ h. cc, λ h. cc)
check_version_iff (some (pos n)) = (λ h. ground arith, λ h. ground arith)
check_version_iff (some (negsuc n)) = (λ h. cc, λ h. cc)

validate_image_iff :
    (i : Image)
    → (validate_image i ≡ ok tt) ↔ (
        OneOf i.image_type image_type_iso image_type_raw
        × OneOf i.architecture arch_x86_64 arch_aarch64)
unfolding validate_image
validate_image_iff i = (
  λ h.
      let p = (>>-iff _ _).0 h in
      (
        (either_iff _ _ _).0 ((fail_if_iff _ _).0 p.0),
        (either_iff _ _ _).0 ((fail_if_iff _ _).0 p.1),
      ),
  λ h. (>>-iff _ _).1 (
    (fail_if_iff _ _).1 ((either_iff _ _ _).1 h.0),
    (fail_if_iff _ _).1 ((either_iff _ _ _).1 h.1),
  ),
)

validate_install_iff : (o : Option Install) → (validate_install o ≡ ok tt) ↔ HasSortOrder o
unfolding validate_install
validate_install_iff none = (λ h. tt, λ h. refl)
validate_install_iff (some i) = target i.target
  where
    target :
        (o : Option InstallTarget)
        → (validate_target o ≡ ok tt)
          ↔ IfPresent (λ (t : InstallTarget). IsSortOrder (to_lower t.sort_order)) o
    target none = unfold validate_target in (λ h. tt, λ h. refl)
    target (some t) =
        unfold validate_target in
        (
          λ h. ground (
            arith,
            text_eq_iff (to_lower t.sort_order) [],
            text_eq_iff (to_lower t.sort_order) sort_order_smallest,
            text_eq_iff (to_lower t.sort_order) sort_order_largest,
          ),
          λ h. ground (
            arith,
            text_eq_iff (to_lower t.sort_order) [],
            text_eq_iff (to_lower t.sort_order) sort_order_smallest,
            text_eq_iff (to_lower t.sort_order) sort_order_largest,
          ),
        )

is_empty_iff {ℓ} : {A : Type ℓ} (xs : List A) → (is_empty xs ≡ true) ↔ (xs ≡ [])
is_empty_iff [] = (λ h. refl, λ h. refl)
is_empty_iff (x ∷ xs) = (λ h. cc, λ h. cc)

validate_security_iff : (o : Option Security) → (validate_security o ≡ ok tt) ↔ HasNoKeys o
unfolding validate_security
validate_security_iff none = (λ h. tt, λ h. refl)
validate_security_iff (some s) = elim (Bool-cases (is_empty s.encryption_recovery_keys)) [
  | inl e ↦ rw e (λ h. (is_empty_iff _).0 e, λ h. refl)
  | inr e ↦ rw e (λ h. cc, λ h. cc (e, (is_empty_iff _).1 h))
]

not_empty {ℓ} : {A : Type ℓ} (xs : List A) → (not (is_empty xs) ≡ true) ↔ (xs ≢ [])
not_empty [] = (λ h. cc, λ h. absurd (h refl))
not_empty (x ∷ xs) = (λ h e. cc, λ h. refl)

some-HasApplications :
    (o : Option Applications) (a : Applications)
    → o ≡ some a
    → a.applications ≢ []
    → has_applications o ≡ true
some-HasApplications o a e n = rw e ((not_empty a.applications).1 n)

has_applications_iff : (o : Option Applications) → (has_applications o ≡ true) ↔ HasApplications o
has_applications_iff none = (λ h. cc, λ h. cc (h.1))
has_applications_iff (some a) =
    (λ h. (a, refl, (not_empty a.applications).0 h), λ h. some-HasApplications (some a) h.0 h.1 h.2)

-- What `validate` asks of a document.
pub record IsAccepted (d : Document) : Type 0 where
  pub image_type : OneOf d.image.image_type image_type_iso image_type_raw
  pub architecture : OneOf d.image.architecture arch_x86_64 arch_aarch64
  pub sort_order : HasSortOrder d.seeds.install
  pub no_keys : HasNoKeys d.seeds.security
  pub applications : d.image.offline ≡ true → HasApplications d.seeds.applications

-- The check by its two tests.
abbrev offline_check : Bool → Option Applications → Error → Result (Unit {0})
offline_check offline o e =
    if not offline then ok tt else if not (has_applications o) then err e else ok tt

offline_check_iff :
    (offline : Bool) (o : Option Applications) (e : Error)
    → (offline_check offline o e ≡ ok tt) ↔ (offline ≡ true → HasApplications o)
offline_check_iff false o e = (λ h f. cc, λ h. refl)
offline_check_iff true o e = elim (Bool-cases (has_applications o)) [
  | inl c ↦ (λ h f. (has_applications_iff o).0 c, λ h. rw c refl)
  | inr c ↦ (λ h f. cc (rw c at h), λ h. cc (c, (has_applications_iff o).1 (h refl)))
]

validate_offline_iff :
    (d : Document)
    → (validate_offline d ≡ ok tt) ↔ (d.image.offline ≡ true → HasApplications d.seeds.applications)
unfolding validate_offline
validate_offline_iff d = offline_check_iff d.image.offline d.seeds.applications _

-- A document passes the checks exactly when its values are those that the messages ask for.
pub validate_iff : (d : Document) → (validate d ≡ ok tt) ↔ IsAccepted d
unfolding validate
validate_iff d = (
  λ h.
      let p = (>>-iff _ _).0 h in
      let q = (>>-iff _ _).0 p.1 in
      let r = (>>-iff _ _).0 q.1 in
      let i = (validate_image_iff _).0 p.0 in
      record {
        image_type = i.0;
        architecture = i.1;
        sort_order = (validate_install_iff _).0 q.0;
        no_keys = (validate_security_iff _).0 r.0;
        applications = (validate_offline_iff d).0 r.1;
      },
  λ a. (>>-iff _ _).1 (
    (validate_image_iff _).1 (a.image_type, a.architecture),
    (>>-iff _ _).1 (
      (validate_install_iff _).1 a.sort_order,
      (>>-iff _ _).1
          ((validate_security_iff _).1 a.no_keys, (validate_offline_iff d).1 a.applications),
    ),
  ),
)

-- A result that is an error only as `fmt.Errorf("%w: …", ErrConfig, …)`.
abbrev pub Refuses {ℓ} : {A : Type ℓ} → Result A → Type 0
Refuses (ok a) = Unit
Refuses (err e) = (m : Message) × (e ≡ errorf config m)

pub >>-Refuses {ℓ} :
    {A : Type ℓ} (m : Result (Unit {0})) (k : Result A) → Refuses m → Refuses k → Refuses (m >> k)
>>-Refuses (ok u) k hm hk = hk
>>-Refuses (err e) k hm hk = hm

pub check_version-Refuses : (v : Option ℤ) → Refuses (check_version v)
unfolding check_version
check_version-Refuses none = (_, refl)
check_version-Refuses (some v) = elim (Bool-cases (is_current v)) [
  | inl e ↦ rw e tt
  | inr e ↦ rw e (_, refl)
]

validate_install-Refuses : (o : Option Install) → Refuses (validate_install o)
unfolding validate_install
validate_install-Refuses none = tt
validate_install-Refuses (some i) = target i.target
  where
    target : (o : Option InstallTarget) → Refuses (validate_target o)
    target none = unfold validate_target in tt
    target (some t) =
        unfold validate_target in
        elim (Bool-cases (is_sort_order (to_lower t.sort_order))) [
          | inl e ↦ rw e tt
          | inr e ↦ rw e (_, refl)
        ]

validate_security-Refuses : (o : Option Security) → Refuses (validate_security o)
unfolding validate_security
validate_security-Refuses none = tt
validate_security-Refuses (some s) = elim (Bool-cases (is_empty s.encryption_recovery_keys)) [
  | inl e ↦ rw e tt
  | inr e ↦ rw e (_, refl)
]

validate_offline-Refuses : (d : Document) → Refuses (validate_offline d)
unfolding validate_offline
validate_offline-Refuses d = elim (Bool-cases d.image.offline) [
  | inr e ↦ rw e tt
  | inl e ↦ rw e (elim (Bool-cases (has_applications d.seeds.applications)) [
    | inl f ↦ rw f tt
    | inr f ↦ rw f (_, refl)
  ])
]

two_checks-Refuses :
    (a b : Bool) (m n : Message)
    → Refuses (fail_if a (errorf config m) >> fail_if b (errorf config n))
two_checks-Refuses true b m n = (m, refl)
two_checks-Refuses false true m n = (n, refl)
two_checks-Refuses false false m n = tt

validate_image-Refuses : (i : Image) → Refuses (validate_image i)
unfolding validate_image
validate_image-Refuses i = two_checks-Refuses _ _ bad_type bad_architecture

-- Every refusal of a document is a configuration error.
pub validate-Refuses : (d : Document) → Refuses (validate d)
unfolding validate
validate-Refuses d =
    >>-Refuses (validate_image d.image)
      (validate_install d.seeds.install
        >> (validate_security d.seeds.security >> validate_offline d))
      (validate_image-Refuses d.image)
      (>>-Refuses (validate_install d.seeds.install)
        (validate_security d.seeds.security >> validate_offline d)
        (validate_install-Refuses d.seeds.install)
        (>>-Refuses (validate_security d.seeds.security) (validate_offline d)
          (validate_security-Refuses d.seeds.security) (validate_offline-Refuses d)))
