-- ===== src/Cli/Publish/Steps.antt =====
-- What the methods on an artifact preserve: from its flags, the previous content of the final path
-- can be told at any time. No method touches a path of another artifact.
use incusos_builder.Base.{
  ◌≡◌, refl, sym, ◌∙◌, ap, ◌≢◌, ◌⊎◌, inl, inr, Bool, true, false, ◌||◌, Option, none, List, [], ℕ,
  Bool-cases, arith,
}
use incusos_builder.Base.Text.{Text, text_eq, text_eq_iff}
use incusos_builder.Errdefs.{is, not_exist, sentinel, Sentinel-discrete}
use incusos_builder.Cli.Disk.{
  Files, Disk, rename, move, move_target, move_other, rename-cases, stat-cases,
}
use incusos_builder.Cli.Publish.{Artifact, Journal, Moved, bak, bak_rename}

pub is_not_exist : is (sentinel not_exist) not_exist ≡ true
unfolding is Sentinel-discrete
is_not_exist = refl

abbrev pub taken : Artifact → Bool
taken a = a.claimed || a.published

module _ (F B T : Text) (apart : (F ≢ []) → (F ≢ B) × (F ≢ T) × (B ≢ T)) where
  pub record Named (a : Artifact) : Type 0 where
    pub final : a.final ≡ F
    pub bak : a.bak ≡ B
    pub temp : (a.temp ≡ T) ⊎ (a.temp ≡ [])

  -- The content `o` that the final path had before is known.
  pub record Safe (o : Option (List ℕ)) (f : Files) (a : Artifact) : Type 0 where
    pub kept : a.backed_up ≡ false → taken a ≡ false → f F ≡ o
    pub fresh : a.backed_up ≡ false → taken a ≡ true → o ≡ none
    pub saved : a.backed_up ≡ true → f B ≡ o

  unfoldable pub Others : Files → Files → Type 0
  Others f f' = (p : Text) → p ≢ F → p ≢ B → p ≢ T → f' p ≡ f p

  -- What a step leaves behind.
  pub record Steps (o : Option (List ℕ)) (j : Journal) (r : Moved) : Type 0 where
    pub named : Named r.artifact
    pub safe : Safe o r.journal.disk.files r.artifact
    pub others : Others j.disk.files r.journal.disk.files
    pub tidy : r.journal.leftovers ≡ j.leftovers

  module _ (o : Option (List ℕ)) where
    pub Steps-same :
        (a : Artifact) (j : Journal) (r : Moved)
        → Named a
        → Safe o j.disk.files a
        → r.artifact ≡ a
        → r.journal.disk.files ≡ j.disk.files
        → r.journal.leftovers ≡ j.leftovers
        → Steps o j r
    unfolding Others
    Steps-same a j r n s same files tidy = record {
      named = rw same n;
      safe = rw (files, same) s;
      others = λ p nf nb nt. ap (λ f. f p) files;
      tidy = tidy;
    }

    -- What moving the final path to the backup leaves behind.
    pub record Backed (a : Artifact) (j : Journal) (r : Moved) : Type 0 where
      pub steps : Steps o j r
      pub free : taken r.artifact ≡ false
      pub same_temp : r.artifact.temp ≡ a.temp
      pub temp_kept : F ≢ [] → r.journal.disk.files T ≡ j.disk.files T

    bak_rename-Backed :
        (a : Artifact) (j : Journal) (d : Disk)
        → F ≢ []
        → d.files ≡ j.disk.files
        → Named a
        → Safe o j.disk.files a
        → taken a ≡ false
        → a.backed_up ≡ false
        → Backed a j (bak_rename a j d)
    unfolding bak_rename Others
    bak_rename-Backed a j d ne files n s free new = elim (rename-cases a.final a.bak d) [
      | inl c ↦
          rw (c.failed, bak_rename)
            (record {
              steps = Steps-same a j _ n s refl (c.same ∙ files) refl;
              free = free;
              same_temp = refl;
              temp_kept = λ q. ap (λ f. f T) (c.same ∙ files);
            })
      | inr r ↦ elim r [
        | inl c ↦
            rw (c.failed, bak_rename)
              (record {
                steps = Steps-same a j _ n s refl (c.same ∙ files) refl;
                free = free;
                same_temp = refl;
                temp_kept = λ q. ap (λ f. f T) (c.same ∙ files);
              })
        | inr c ↦
            let moved : (rename a.final a.bak d).disk.files ≡ move F B j.disk.files =
              rw (← n.final, ← n.bak, ← files) c.next in
            rw (c.good, bak_rename)
              (record {
                steps = record {
                  named = record { final = n.final; bak = n.bak; temp = n.temp };
                  safe = record {
                    kept = λ b t. cc;
                    fresh = λ b t. cc;
                    saved =
                        λ b. ap (λ f. f B) moved ∙ move_target F B j.disk.files ∙ s.kept new free;
                  };
                  others = λ p nf nb nt. ap (λ f. f p) moved ∙ move_other F B p j.disk.files nf nb;
                  tidy = refl;
                };
                free = free;
                same_temp = refl;
                temp_kept = λ q.
                    let (fb, ft, bt) = apart ne in
                    ap (λ f. f T) moved
                    ∙ move_other F B T j.disk.files (λ e. ft (sym e)) (λ e. bt (sym e));
              })
      ]
    ]

    pub bak-Backed :
        (a : Artifact) (j : Journal)
        → Named a
        → Safe o j.disk.files a
        → taken a ≡ false
        → a.backed_up ≡ false
        → Backed a j (bak a j)
    unfolding bak
    bak-Backed a j n s free new = elim (Bool-cases (text_eq a.final [])) [
      | inl empty ↦
          rw (empty, bak)
            (record {
              steps = Steps-same a j _ n s refl refl refl;
              free = free;
              same_temp = refl;
              temp_kept = λ q. refl;
            })
      | inr named ↦
          let ne : F ≢ [] = λ e. ground (arith, n.final, e, text_eq_iff a.final []) in
          elim (stat-cases a.final j.disk) [
            | inl c ↦
                rw (named, c.failed, c.other, bak)
                  (record {
                    steps = Steps-same a j _ n s refl c.same refl;
                    free = free;
                    same_temp = refl;
                    temp_kept = λ q. ap (λ f. f T) c.same;
                  })
            | inr r ↦ elim r [
              | inl c ↦
                  rw (named, c.failed, is_not_exist, bak)
                    (record {
                      steps = Steps-same a j _ n s refl c.same refl;
                      free = free;
                      same_temp = refl;
                      temp_kept = λ q. ap (λ f. f T) c.same;
                    })
              | inr c ↦ rw (named, c.good, bak) (bak_rename-Backed a j _ ne c.next n s free new)
            ]
          ]
    ]
