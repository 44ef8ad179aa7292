-- ===== src/Cli/Disk.antt =====
-- The file system as the publication uses it, by the documented behaviour of `os`: regular files by
-- their paths, and the faults of the calls still to come, which leave the files as they are.
use incusos_builder.Base.{
  ◌≡◌, refl, ◌≢◌, ◌⊎◌, inl, inr, false, Option, none, some, List, [], ◌∷◌, ℕ, if◌then◌else◌,
  Option-cases, arith,
}
use incusos_builder.Base.Text.{Text, text_eq, text_eq_iff}
use incusos_builder.Errdefs.{Error, Message, plain, sentinel, not_exist, exist, is}

abbrev pub Files : Type 0
Files = Text → Option (List ℕ)

pub record Disk : Type 0 where
  pub files : Files
  pub faults : List (Option Message)

-- The fault of the next call, if it has one.
abbrev pub fault : List (Option Message) → Option Message
fault [] = none
fault (f ∷ fs) = f

abbrev pub later : List (Option Message) → List (Option Message)
later [] = []
later (f ∷ fs) = fs

unfoldable pub put : Text → Option (List ℕ) → Files → Files
put p c f q = if text_eq q p then c else f q

-- What a rename from `a` to `b` leaves at each path.
unfoldable pub move : Text → Text → Files → Files
move a b f q = if text_eq q b then f a else if text_eq q a then none else f q

-- What a call returns: its error or nil, and the disk after it.
pub record Answer : Type 0 where
  pub failure : Option Error
  pub disk : Disk

abbrev pub refused : Error → Disk → Answer
refused e d = record { failure = some e; disk = record d { faults = later d.faults } }

abbrev pub granted : Files → Disk → Answer
granted f d = record { failure = none; disk = record { files = f; faults = later d.faults } }

-- A call that changes no file: `Sync`, `Close`.
unfoldable pub touch : Disk → Answer
touch d = elim (fault d.faults) [ some m ↦ refused (plain m) d | none ↦ granted d.files d ]

unfoldable pub stat : Text → Disk → Answer
stat p d = elim (fault d.faults) [
  | some m ↦ refused (plain m) d
  | none ↦ elim (d.files p) [ none ↦ refused (sentinel not_exist) d | some c ↦ granted d.files d ]
]

unfoldable pub rename : Text → Text → Disk → Answer
rename a b d = elim (fault d.faults) [
  | some m ↦ refused (plain m) d
  | none ↦ elim (d.files a) [
    | none ↦ refused (sentinel not_exist) d
    | some c ↦ granted (move a b d.files) d
  ]
]

unfoldable pub remove : Text → Disk → Answer
remove p d = elim (fault d.faults) [
  | some m ↦ refused (plain m) d
  | none ↦ elim (d.files p) [
    | none ↦ refused (sentinel not_exist) d
    | some c ↦ granted (put p none d.files) d
  ]
]

-- `OpenFile` with O_CREATE and O_EXCL.
unfoldable pub create_excl : Text → Disk → Answer
create_excl p d = elim (fault d.faults) [
  | some m ↦ refused (plain m) d
  | none ↦ elim (d.files p) [
    | some c ↦ refused (sentinel exist) d
    | none ↦ granted (put p (some []) d.files) d
  ]
]

pub put_same : (p : Text) (c : Option (List ℕ)) (f : Files) → put p c f p ≡ c
unfolding put
put_same p c f = ground (arith, text_eq_iff p p)

pub put_other : (p q : Text) (c : Option (List ℕ)) (f : Files) → q ≢ p → put p c f q ≡ f q
unfolding put
put_other p q c f ne = ground (arith, text_eq_iff q p)

pub move_target : (a b : Text) (f : Files) → move a b f b ≡ f a
unfolding move
move_target a b f = ground (arith, text_eq_iff b b)

pub move_source : (a b : Text) (f : Files) → a ≢ b → move a b f a ≡ none
unfolding move
move_source a b f ne = ground (arith, text_eq_iff a b, text_eq_iff a a)

pub move_other : (a b q : Text) (f : Files) → q ≢ a → q ≢ b → move a b f q ≡ f q
unfolding move
move_other a b q f na nb = ground (arith, text_eq_iff q a, text_eq_iff q b)

-- A call that is refused by a fault: the error is not one that the code tests for.
pub record IsRefused (d : Disk) (r : Answer) : Type 0 where
  pub error : Error
  pub failed : r.failure ≡ some error
  pub other : is error not_exist ≡ false
  pub same : r.disk.files ≡ d.files

-- The file is not there, and the call says so.
pub record IsAbsent (p : Text) (d : Disk) (r : Answer) : Type 0 where
  pub failed : r.failure ≡ some (sentinel not_exist)
  pub absent : d.files p ≡ none
  pub same : r.disk.files ≡ d.files

-- The call leaves the files `f`.
pub record IsGranted (f : Files) (r : Answer) : Type 0 where
  pub good : r.failure ≡ none
  pub next : r.disk.files ≡ f

pub touch-cases : (d : Disk) → IsRefused d (touch d) ⊎ IsGranted d.files (touch d)
unfolding touch is
touch-cases d = elim (Option-cases (fault d.faults)) [
  | inl e ↦ rw (e, touch) (inr (record { good = refl; next = refl }))
  | inr (m, e) ↦
      rw (e, touch) (inl (record { error = plain m; failed = refl; other = refl; same = refl }))
]

pub rename-cases :
    (a b : Text) (d : Disk)
    → IsRefused d (rename a b d)
      ⊎ IsAbsent a d (rename a b d)
      ⊎ IsGranted (move a b d.files) (rename a b d)
unfolding rename is
rename-cases a b d = elim (Option-cases (fault d.faults)) [
  | inl e ↦ elim (Option-cases (d.files a)) [
    | inl n ↦ rw (e, n, rename) (inr (inl (record { failed = refl; absent = n; same = refl })))
    | inr (c, s) ↦ rw (e, s, rename) (inr (inr (record { good = refl; next = refl })))
  ]
  | inr (m, e) ↦
      rw (e, rename) (inl (record { error = plain m; failed = refl; other = refl; same = refl }))
]

pub remove-cases :
    (p : Text) (d : Disk)
    → IsRefused d (remove p d)
      ⊎ IsAbsent p d (remove p d)
      ⊎ IsGranted (put p none d.files) (remove p d)
unfolding remove is
remove-cases p d = elim (Option-cases (fault d.faults)) [
  | inl e ↦ elim (Option-cases (d.files p)) [
    | inl n ↦ rw (e, n, remove) (inr (inl (record { failed = refl; absent = n; same = refl })))
    | inr (c, s) ↦ rw (e, s, remove) (inr (inr (record { good = refl; next = refl })))
  ]
  | inr (m, e) ↦
      rw (e, remove) (inl (record { error = plain m; failed = refl; other = refl; same = refl }))
]

pub stat-cases :
    (p : Text) (d : Disk)
    → IsRefused d (stat p d) ⊎ IsAbsent p d (stat p d) ⊎ IsGranted d.files (stat p d)
unfolding stat is
stat-cases p d = elim (Option-cases (fault d.faults)) [
  | inl e ↦ elim (Option-cases (d.files p)) [
    | inl n ↦ rw (e, n, stat) (inr (inl (record { failed = refl; absent = n; same = refl })))
    | inr (c, s) ↦ rw (e, s, stat) (inr (inr (record { good = refl; next = refl })))
  ]
  | inr (m, e) ↦
      rw (e, stat) (inl (record { error = plain m; failed = refl; other = refl; same = refl }))
]

-- A refusal, also because the file is there already.
pub record IsUnclaimed (d : Disk) (r : Answer) : Type 0 where
  pub error : Error
  pub failed : r.failure ≡ some error
  pub same : r.disk.files ≡ d.files

pub create_excl-cases :
    (p : Text) (d : Disk)
    → IsUnclaimed d (create_excl p d)
      ⊎ ((d.files p ≡ none) × IsGranted (put p (some []) d.files) (create_excl p d))
unfolding create_excl
create_excl-cases p d = elim (Option-cases (fault d.faults)) [
  | inl e ↦ elim (Option-cases (d.files p)) [
    | inl n ↦ rw (e, n, create_excl) (inr (refl, record { good = refl; next = refl }))
    | inr (c, s) ↦
        rw (e, s, create_excl) (inl (record { error = sentinel exist; failed = refl; same = refl }))
  ]
  | inr (m, e) ↦ rw (e, create_excl) (inl (record { error = plain m; failed = refl; same = refl }))
]
