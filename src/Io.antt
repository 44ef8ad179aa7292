-- ===== src/Io.antt =====
-- `io.Reader` and `io.Writer` as interfaces, with the documented contracts that the copy loops rely
-- on, and a context that is polled. What is behind a reader or a writer is not modelled.
use incusos_builder.Base.{ℕ, ◌≤◌, ◌<◌, ◌≡◌, Option, none, some, List, [], ◌∷◌, ◌++◌, length, take}
use incusos_builder.Errdefs.{Error}

-- What one call of `Read` returns, with the state of the reader after it.
pub record ReadStep (S : Type 0) : Type 0 where
  pub bytes : List ℕ
  pub failure : Option Error
  pub next : S

-- What one call of `Write` returns.
pub record WriteStep (S : Type 0) : Type 0 where
  pub count : ℕ
  pub failure : Option Error
  pub next : S

pub record Reader : Type 1 where
  pub State : Type 0
  pub read : ℕ → State → ReadStep State

pub record Writer : Type 1 where
  pub State : Type 0
  pub write : List ℕ → State → WriteStep State

-- The contract of `Read` into a buffer of `k` bytes, by the bytes `content` that are still to come.
-- A call returns at most `k` of them and, if it returns no error, at least one. An error comes when
-- no bytes are left; it may come with the last ones.
pub record IsReader (R : Reader) (content : R.State → List ℕ) : Type 0 where
  pub bounded : (k : ℕ) (s : R.State) → length (R.read k s).bytes ≤ k
  pub delivers : (k : ℕ) (s : R.State) → content s ≡ (R.read k s).bytes ++ content (R.read k s).next
  pub progress :
      (k : ℕ) (s : R.State) → 0 < k → (R.read k s).failure ≡ none → 0 < length (R.read k s).bytes
  pub ends :
      (k : ℕ) (s : R.State) (e : Error)
      → (R.read k s).failure ≡ some e
      → content (R.read k s).next ≡ []

-- The contract of `Write`, by the bytes `output` accepted so far: it reports how many of the bytes
-- it accepted, and these come first. (That fewer than all come with an error is part of the
-- documented contract too; the loops do not rely on it.)
pub record IsWriter (W : Writer) (output : W.State → List ℕ) : Type 0 where
  pub accepted : (bs : List ℕ) (s : W.State) → (W.write bs s).count ≤ length bs
  pub appends :
      (bs : List ℕ) (s : W.State)
      → output (W.write bs s).next ≡ output s ++ take (W.write bs s).count bs

-- The answers of `ctx.Err()` still to come; after the last of them the context is alive.
abbrev pub Polls : Type 0
Polls = List (Option Error)

abbrev pub poll : Polls → Option Error
poll [] = none
poll (c ∷ cs) = c

abbrev pub polled : Polls → Polls
polled [] = []
polled (c ∷ cs) = cs
