-- ===== src/Errdefs.antt =====
-- internal/errdefs, and the errors of the whole program as values. An error is a tree, as
-- `fmt.Errorf` builds it: a sentinel, a plain message, a message around one error (`%w: …`), or
-- two wrapped errors (`%w: %w`). `errors.Is` searches the tree.
use Prim.Native.String.{String}
use mathlib.Core.Logic.{ite, if_pos}
use incusos_builder.Base.{ℕ, ◌≡◌, refl, ◌↔◌, Bool, true, false, ◌||◌, ◌⊎◌, inl, inr, List}
use incusos_builder.Base.Int.{ℤ}
use incusos_builder.Images.{FileType}
use incusos_builder.Base.Text.{Text}

-- The sentinels of errdefs and cli, and those of the standard library that the code tests for.
pub data Sentinel : Type 0 where
  config decrypt fetch output version_not_found : Sentinel
  usage : Sentinel
  canceled deadline_exceeded eof not_exist exist : Sentinel

unfoldable pub Sentinel-discrete : Discrete Sentinel
Sentinel-discrete = hlevel

abbrev pub same : Sentinel → Sentinel → Bool
same s t = ite (Sentinel-discrete s t) true false

-- A part of a message: literal text, or what `%d`, `%s` and `%q` print.
pub data Piece : Type 0 where
  lit : String → Piece
  int : ℤ → Piece
  kind : FileType → Piece
  num : ℕ → Piece
  str quoted : Text → Piece

abbrev pub Message : Type 0
Message = List Piece

pub data Error : Type 0 where
  sentinel : Sentinel → Error
  plain : Message → Error
  wrap : Error → Message → Error
  join : Error → Error → Error

-- `errors.Is(err, target)` for a target that is a sentinel.
unfoldable pub is : Error → Sentinel → Bool
is (sentinel s) t = same s t
is (plain m) t = false
is (wrap e m) t = is e t
is (join a b) t = is a t || is b t

-- `err == target`, which an error that wraps the target does not pass.
unfoldable pub equals : Error → Sentinel → Bool
equals (sentinel s) t = same s t
equals e t = false

-- `fmt.Errorf("%w: …", sentinel, …)`.
abbrev pub errorf : Sentinel → Message → Error
errorf s m = wrap (sentinel s) m

-- A formatted error wraps its sentinel.
pub is-errorf : (s : Sentinel) (m : Message) → is (errorf s m) s ≡ true
unfolding is
is-errorf s m = if_pos (Sentinel-discrete s s) refl true false

-- Two errors wrapped together wrap the first of them.
pub is-join : (s : Sentinel) (e : Error) → is (join (sentinel s) e) s ≡ true
unfolding is
is-join s e = rw (if_pos (Sentinel-discrete s s) refl true false)

-- The value and the error of a Go function, of which one is meant.
pub data Result {ℓ} (A : Type ℓ) : Type ℓ where
  ok : A → Result A
  err : Error → Result A

infixl 5 ◌>>◌ ◌>>=◌
-- The next step, unless there is an error.
abbrev pub ◌>>=◌ {κ ℓ} : {A : Type κ} {B : Type ℓ} → Result A → (A → Result B) → Result B
err failure >>= next = err failure
ok value >>= next = next value

abbrev pub ◌>>◌ {ℓ} : {B : Type ℓ} → Result (Unit {0}) → Result B → Result B
check >> next = check >>= (λ u. next)

-- An early return of an error.
abbrev pub fail_if : Bool → Error → Result (Unit {0})
fail_if true e = err e
fail_if false e = ok tt

-- An error that wraps the sentinel, whatever else it says.
abbrev pub Wraps : Sentinel → Error → Type 0
Wraps s e = is e s ≡ true

-- A result that is not an error but for errors that wrap the sentinel.
abbrev pub FailsWith {ℓ} : {A : Type ℓ} → Sentinel → Result A → Type 0
FailsWith s (ok a) = Unit
FailsWith s (err e) = Wraps s e

pub Result-cases {ℓ} :
    {A : Type ℓ} (r : Result A) → ((a : A) × (r ≡ ok a)) ⊎ ((e : Error) × (r ≡ err e))
Result-cases (ok a) = inl (a, refl)
Result-cases (err e) = inr (e, refl)

-- A chain of checks passes exactly when each of them does.
pub >>-iff : (m k : Result (Unit {0})) → ((m >> k) ≡ ok tt) ↔ ((m ≡ ok tt) × (k ≡ ok tt))
>>-iff (ok u) k = (λ h. (refl, h), λ h. h.1)
>>-iff (err e) k = (λ h. cc, λ h. cc)

pub >>-FailsWith {ℓ} :
    {A : Type ℓ} (s : Sentinel) (m : Result (Unit {0})) (k : Result A)
    → FailsWith s m
    → FailsWith s k
    → FailsWith s (m >> k)
>>-FailsWith s (ok u) k hm hk = hk
>>-FailsWith s (err e) k hm hk = hm

pub >>=-FailsWith {ℓ κ} :
    {A : Type ℓ} {B : Type κ} (s : Sentinel) (m : Result A) (f : A → Result B)
    → FailsWith s m
    → ((a : A) → m ≡ ok a → FailsWith s (f a))
    → FailsWith s (m >>= f)
>>=-FailsWith s (ok a) f hm hf = hf a refl
>>=-FailsWith s (err e) f hm hf = hm

-- Inversion of a chain that succeeded: its first step gave a value that the rest goes on with.
pub ok_elim {ℓ κ μ} :
    {A : Type ℓ} {B : Type κ} {P : Type μ} (m : Result A) (f : A → Result B) {b : B}
    → (m >>= f) ≡ ok b
    → ((a : A) → m ≡ ok a → f a ≡ ok b → P)
    → P
ok_elim (ok a) f h k = k a refl h
ok_elim (err e) f h k = cc

-- A message around two wrapped errors still wraps the first of them.
pub is-wrap : (s : Sentinel) (e : Error) (m : Message) → is (wrap (join (sentinel s) e) m) s ≡ true
unfolding is
is-wrap s e m = rw (if_pos (Sentinel-discrete s s) refl true false)
