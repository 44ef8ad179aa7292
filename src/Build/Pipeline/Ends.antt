-- ===== src/Build/Pipeline/Ends.antt =====
-- How an action of the build ends: it returns or it fails, and what then holds. It neither panics
-- nor runs out of fuel.
use incusos_builder.Base.{ℕ, ◌≡◌, refl, Option, none, some}
use incusos_builder.Errdefs.{Error, Result, ok, err}
use incusos_builder.Io.{Reader, Writer}
use incusos_builder.Run.{Run, done}
use incusos_builder.Build.Ports.{Ports}
use incusos_builder.Build.Pipeline.{
  State, Outcome, returned, failed, panicked, diverged, Action, after, call, answer, run,
  spliced_into,
}

module _ (R : Reader) (W : Writer) (P : Ports R) (F : Error → State R W P → Type 0) where
  -- `V` holds of a result and its state, and `F` of an error and its state.
  unfoldable pub Ends : {A : Type 0} → (A → State R W P → Type 0) → Outcome R W P A → Type 0
  Ends V (returned a s) = V a s
  Ends V (failed e s) = F e s
  Ends V (panicked s) = ⊥
  Ends V diverged = ⊥

  pub after-Ends :
      {A : Type 0} {B : Type 0} (V : A → State R W P → Type 0) (U : B → State R W P → Type 0)
      (o : Outcome R W P A) (f : A → Action R W P B)
      → Ends V o
      → ((a : A) (t : State R W P) → V a t → Ends U (f a t))
      → Ends U (after R W P o f)
  unfolding Ends
  after-Ends V U (returned a s) f h g = g a s h
  after-Ends V U (failed e s) f h g = h
  after-Ends V U (panicked s) f h g = absurd h
  after-Ends V U diverged f h g = absurd h

  pub answer-Ends :
      {A : Type 0} {B : Type 0} (U : B → State R W P → Type 0) (r : Result A × P.World)
      (s : State R W P) (f : A → Action R W P B)
      → ((e : Error) (w : P.World) → r ≡ (err e, w) → F e (record s { world = w }))
      → ((a : A) (w : P.World) → r ≡ (ok a, w) → Ends U (f a (record s { world = w })))
      → Ends U (after R W P (answer R W P r s) f)
  unfolding Ends
  answer-Ends U (ok a, w) s f fails goes_on = goes_on a w refl
  answer-Ends U (err e, w) s f fails goes_on = fails e w refl

  pub call-Ends :
      {A : Type 0} {B : Type 0} (U : B → State R W P → Type 0) (r : Result A) (s : State R W P)
      (f : A → Action R W P B)
      → ((e : Error) → r ≡ err e → F e s)
      → ((a : A) → r ≡ ok a → Ends U (f a s))
      → Ends U (after R W P (call R W P r s) f)
  unfolding Ends
  call-Ends U (ok a) s f fails goes_on = goes_on a refl
  call-Ends U (err e) s f fails goes_on = fails e refl

  pub run-Ends :
      {A : Type 0} {B : Type 0} (U : B → State R W P → Type 0) (r : Run A) (s : State R W P)
      (f : A → Action R W P B)
      → (r ≡ Run.panicked → ⊥)
      → ((e : Error) → r ≡ Run.failed e → F e s)
      → ((a : A) → r ≡ done a → Ends U (f a s))
      → Ends U (after R W P (run R W P r s) f)
  unfolding Ends
  run-Ends U (done a) s f panics fails goes_on = goes_on a refl
  run-Ends U (Run.failed e) s f panics fails goes_on = fails e refl
  run-Ends U Run.panicked s f panics fails goes_on = panics refl

  pub spliced-Ends :
      {B : Type 0} (U : B → State R W P → Type 0) (r : Option (ℕ × Option Error × W.State))
      (s : State R W P) (f : ℕ → Action R W P B)
      → (r ≡ none → ⊥)
      → ((n : ℕ) (e : Error) (out : W.State)
          → r ≡ some (n, some e, out)
          → F e (record s { sink = out }))
      → ((n : ℕ) (out : W.State) → r ≡ some (n, none, out) → Ends U (f n (record s { sink = out })))
      → Ends U (after R W P (spliced_into R W P r s) f)
  unfolding Ends
  spliced-Ends U none s f diverges fails goes_on = diverges refl
  spliced-Ends U (some (n, none, out)) s f diverges fails goes_on = goes_on n out refl
  spliced-Ends U (some (n, some e, out)) s f diverges fails goes_on = fails n e out refl

  pub reply-Ends :
      {A : Type 0} (U : A → State R W P → Type 0) (r : Result A × P.World) (s : State R W P)
      → ((e : Error) (w : P.World) → r ≡ (err e, w) → F e (record s { world = w }))
      → ((a : A) (w : P.World) → r ≡ (ok a, w) → U a (record s { world = w }))
      → Ends U (answer R W P r s)
  unfolding Ends
  reply-Ends U (ok a, w) s fails goes_on = goes_on a w refl
  reply-Ends U (err e, w) s fails goes_on = fails e w refl

-- What holds at the end may be weakened.
pub Ends-weaker :
    (R : Reader) (W : Writer) (P : Ports R) {A : Type 0} (F G : Error → State R W P → Type 0)
    (V U : A → State R W P → Type 0) (o : Outcome R W P A)
    → ((e : Error) (t : State R W P) → F e t → G e t)
    → ((a : A) (t : State R W P) → V a t → U a t)
    → Ends R W P F V o
    → Ends R W P G U o
unfolding Ends
Ends-weaker R W P F G V U (returned a s) f g h = g a s h
Ends-weaker R W P F G V U (failed e s) f g h = f e s h
Ends-weaker R W P F G V U (panicked s) f g h = h
Ends-weaker R W P F G V U diverged f g h = h
