-- ===== src/Build/Splice/Chains.antt =====
-- What the steps of `splice` yield when they follow one another.
use incusos_builder.Base.{ℕ, ◌+◌, ◌≡◌, Option, none, some, List, Option-cases, inl, inr}
use incusos_builder.Errdefs.{Error, output, sentinel, join}
use incusos_builder.Io.{Reader, Writer, IsReader, IsWriter}
use incusos_builder.Build.Splice.{Streams, Copied, and_then, after_skip, add_written, wrap_output}
use incusos_builder.Build.Splice.Loops.{Yields}

module _ (R : Reader) (W : Writer) (content : R.State → List ℕ) (sent : W.State → List ℕ)
    (reads : IsReader R content) (writes : IsWriter W sent) where
  pub Yields-add_written :
      (P : Copied R W → Type 0) (n : ℕ) (o : Option (Copied R W))
      → Yields R W content sent reads writes (λ c. P (record c { written = n + c.written })) o
      → Yields R W content sent reads writes P (add_written R W n o)
  Yields-add_written P n none y = y
  Yields-add_written P n (some c) y = y

  pub Yields-wrap_output :
      (P Q : Copied R W → Type 0) (o : Option (Copied R W))
      → Yields R W content sent reads writes P o
      → ((c : Copied R W) (e : Error)
          → P c
          → Q (record c { failure = some (join (sentinel output) e) }))
      → ((c : Copied R W) → P c → c.failure ≡ none → Q c)
      → Yields R W content sent reads writes Q (wrap_output R W o)
  Yields-wrap_output P Q none y fails goes_on = y
  Yields-wrap_output P Q (some c) y fails goes_on = elim (Option-cases c.failure) [
    | inl good ↦ rw good (goes_on c y good)
    | inr (e, bad) ↦ rw bad (fails c e y)
  ]

  pub Yields-and_then :
      (P Q : Copied R W → Type 0) (o : Option (Copied R W))
      (next : ℕ → Streams R W → Option (Copied R W))
      → Yields R W content sent reads writes P o
      → ((c : Copied R W) (e : Error)
          → P c
          → c.failure ≡ some e
          → Q (record c { failure = some e }))
      → ((c : Copied R W)
          → P c
          → c.failure ≡ none
          → Yields R W content sent reads writes Q (next c.written c.streams))
      → Yields R W content sent reads writes Q (and_then R W o next)
  Yields-and_then P Q none next y fails goes_on = y
  Yields-and_then P Q (some c) next y fails goes_on = elim (Option-cases c.failure) [
    | inl good ↦ rw good (goes_on c y good)
    | inr (e, bad) ↦ rw bad (fails c e y bad)
  ]

  pub Yields-after_skip :
      (P Q : Copied R W → Type 0) (n : ℕ) (o : Option (Copied R W))
      (next : Streams R W → Option (Copied R W))
      → Yields R W content sent reads writes P o
      → ((c : Copied R W) (e : Error)
          → P c
          → c.failure ≡ some e
          → Q (record { written = n; failure = some e; streams = c.streams }))
      → ((c : Copied R W)
          → P c
          → c.failure ≡ none
          → Yields R W content sent reads writes Q (next c.streams))
      → Yields R W content sent reads writes Q (after_skip R W n o next)
  Yields-after_skip P Q n none next y fails goes_on = y
  Yields-after_skip P Q n (some c) next y fails goes_on = elim (Option-cases c.failure) [
    | inl good ↦ rw good (goes_on c y good)
    | inr (e, bad) ↦ rw bad (fails c e y bad)
  ]
