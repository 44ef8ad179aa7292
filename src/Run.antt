-- ===== src/Run.antt =====
-- Go code that may return an error or panic: a slice or an index out of range.
use incusos_builder.Base.{
  ℕ, ◌-◌, ◌≡◌, refl, Bool, true, false, ◌+◌, ◌≤◌, length-take, length-drop, arith, List, leb, ◌&&◌,
  length, take, drop, if◌then◌else◌,
}
use incusos_builder.Errdefs.{Error, Result, ok, err}

pub data Run {ℓ} (A : Type ℓ) : Type ℓ where
  done : A → Run A
  failed : Error → Run A
  panicked : Run A

infixl 5 ◌>>=◌ ◌>>◌
abbrev pub ◌>>=◌ {ℓ κ} : {A : Type ℓ} {B : Type κ} → Run A → (A → Run B) → Run B
done a >>= f = f a
failed e >>= f = failed e
panicked >>= f = panicked

abbrev pub ◌>>◌ {ℓ} : {B : Type ℓ} → Run (Unit {0}) → Run B → Run B
m >> k = m >>= λ _. k

-- A call that cannot panic.
abbrev pub call {ℓ} : {A : Type ℓ} → Result A → Run A
call (ok a) = done a
call (err e) = failed e

abbrev pub fail_if : Bool → Error → Run (Unit {0})
fail_if true e = failed e
fail_if false e = done tt

-- The `n` elements from position `lo` on.
abbrev pub region : {A : Type 0} → ℕ → ℕ → List A → List A
region lo n xs = take n (drop lo xs)

module _ {A : Type 0} where
  -- `xs[lo:hi]`.
  unfoldable pub slice : ℕ → ℕ → List A → Run (List A)
  slice lo hi xs =
      if leb lo hi && leb hi (length xs) then done (region lo (hi - lo) xs) else panicked

  -- A result that is no panic, and of which `P` holds if it is no error.
  abbrev pub Ensures : (A → Type 0) → Run A → Type 0
  Ensures P (done a) = P a
  Ensures P (failed e) = Unit
  Ensures P panicked = ⊥

pub Ensures->>= :
    {A : Type 0} {B : Type 0} (P : A → Type 0) (Q : B → Type 0) (m : Run A) (f : A → Run B)
    → Ensures P m
    → ((a : A) → m ≡ done a → P a → Ensures Q (f a))
    → Ensures Q (m >>= f)
Ensures->>= P Q (done a) f hm hf = hf a refl hm
Ensures->>= P Q (failed e) f hm hf = tt
Ensures->>= P Q panicked f hm hf = absurd hm

pub length-region :
    {A : Type 0} (lo n : ℕ) (xs : List A) → lo + n ≤ length xs → length (region lo n xs) ≡ n
length-region lo n xs h = omega (arith, length-take n (drop lo xs), length-drop lo xs)

-- A slice of known bounds does not panic.
pub slice_within :
    {A : Type 0} (lo n : ℕ) (xs : List A)
    → lo + n ≤ length xs
    → slice lo (lo + n) xs ≡ done (region lo n xs)
unfolding slice
slice_within lo n xs h = let e : lo + n - lo ≡ n = omega arith in rw e (ground arith)
