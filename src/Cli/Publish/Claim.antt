-- ===== src/Cli/Publish/Claim.antt =====
-- Claiming the final path and moving the temp onto it.
use incusos_builder.Base.{
  ◌≡◌, refl, sym, ◌∙◌, ap, ◌≢◌, inl, inr, true, false, ◌||◌, Option, none, some, List, [], ℕ,
  Bool-cases, arith,
}
use incusos_builder.Base.Text.{Text, text_eq, text_eq_iff}
use incusos_builder.Errdefs.{Error, is, exist}
use incusos_builder.Cli.Disk.{
  Disk, rename, create_excl, touch, put, move, put_other, move_target, move_source, move_other,
  touch-cases, rename-cases, create_excl-cases,
}
use incusos_builder.Cli.Publish.{Artifact, Journal, Moved, claim_then_rename, rename_claimed}
use incusos_builder.Cli.Publish.Steps.{taken, Named, Safe, Others, Steps}

module _ (F B T : Text) (apart : (F ≢ []) → (F ≢ B) × (F ≢ T) × (B ≢ T)) (o : Option (List ℕ)) where
  -- What a claim leaves behind; without an error, the temp is at the final path.
  pub record Claims (j : Journal) (a : Artifact) (r : Moved) : Type 0 where
    pub steps : Steps F B T apart o j r
    pub lands :
        r.failure ≡ none
        → F ≢ []
        → a.temp ≢ []
        → (r.journal.disk.files F ≡ j.disk.files T) × (r.journal.disk.files T ≡ none)

  Claims-stopped :
      (a a' : Artifact) (j : Journal) (r : Moved) (e : Error)
      → Named F B T apart a'
      → Safe F B T apart o r.journal.disk.files a'
      → r.artifact ≡ a'
      → Others F B T apart j.disk.files r.journal.disk.files
      → r.journal.leftovers ≡ j.leftovers
      → r.failure ≡ some e
      → Claims j a r
  Claims-stopped a a' j r e n s same others tidy failed = record {
    steps = record { named = rw same n; safe = rw same s; others = others; tidy = tidy };
    lands = λ good ne nt. cc;
  }

  rename_claimed-Claims :
      (a₀ a : Artifact) (j : Journal) (d : Disk)
      → F ≢ []
      → a.temp ≡ T
      → a.claimed ≡ true
      → Named F B T apart a
      → Safe F B T apart o d.files a
      → Others F B T apart j.disk.files d.files
      → d.files T ≡ j.disk.files T
      → Claims j a₀ (rename_claimed a j d)
  unfolding rename_claimed Others
  rename_claimed-Claims a₀ a j d ne temp claimed n s others same_temp = elim (touch-cases d) [
    | inl c ↦
        rw (c.failed, rename_claimed)
          (Claims-stopped a₀ a j _ _ n (rw c.same s) refl
            (λ p nf nb nt. ap (λ f. f p) c.same ∙ others p nf nb nt) refl refl)
    | inr t ↦ elim (rename-cases a.temp a.final (touch d).disk) [
      | inl c ↦
          let same = c.same ∙ t.next in
          rw (t.good, c.failed, rename_claimed)
            (Claims-stopped a₀ a j _ _ n (rw same s) refl
              (λ p nf nb nt. ap (λ f. f p) same ∙ others p nf nb nt) refl refl)
      | inr r ↦ elim r [
        | inl c ↦
            let same = c.same ∙ t.next in
            rw (t.good, c.failed, rename_claimed)
              (Claims-stopped a₀ a j _ _ n (rw same s) refl
                (λ p nf nb nt. ap (λ f. f p) same ∙ others p nf nb nt) refl refl)
        | inr c ↦
            let (fb, ft, bt) = apart ne in
            let was_taken : taken a ≡ true = rw claimed refl in
            let moved : (rename a.temp a.final (touch d).disk).disk.files ≡ move T F d.files =
              c.next
              ∙ ap (λ f. move a.temp a.final f) t.next
              ∙ ap (λ x. move x a.final d.files) temp
              ∙ ap (λ x. move T x d.files) n.final in
            rw (t.good, c.good, rename_claimed)
              (record {
                steps = record {
                  named = record { final = n.final; bak = n.bak; temp = inr refl };
                  safe = record {
                    kept = λ b k. cc;
                    fresh = λ b k. s.fresh b was_taken;
                    saved = λ b.
                        ap (λ f. f B) moved
                        ∙ move_other T F B d.files bt (λ e. fb (sym e))
                        ∙ s.saved b;
                  };
                  others = λ p nf nb nt.
                      ap (λ f. f p) moved ∙ move_other T F p d.files nt nf ∙ others p nf nb nt;
                  tidy = refl;
                };
                lands = λ good ne' nt. (
                  ap (λ f. f F) moved ∙ move_target T F d.files ∙ same_temp,
                  ap (λ f. f T) moved ∙ move_source T F d.files (λ e. ft (sym e)),
                );
              })
      ]
    ]
  ]

  pub claim_then_rename-Claims :
      (a : Artifact) (j : Journal)
      → Named F B T apart a
      → Safe F B T apart o j.disk.files a
      → taken a ≡ false
      → Claims j a (claim_then_rename a j)
  unfolding claim_then_rename Others
  claim_then_rename-Claims a j n s free =
      elim (Bool-cases (text_eq a.final [] || text_eq a.temp [])) [
        | inl nothing ↦
            rw (nothing, claim_then_rename)
              (record {
                steps = record { named = n; safe = s; others = λ p nf nb nt. refl; tidy = refl };
                lands = λ good ne nt. absurd (
                    ground (
                      arith,
                      nothing,
                      text_eq_iff a.final [],
                      text_eq_iff a.temp [],
                      ne,
                      nt,
                      n.final,
                    ));
              })
        | inr named ↦
            let ne : F ≢ [] = λ e. ground (arith, n.final, e, text_eq_iff a.final []) in
            let temp : a.temp ≡ T = elim n.temp [
              | inl e ↦ e
              | inr e ↦ absurd (ground (arith, named, e, text_eq_iff a.temp []))
            ] in
            elim (create_excl-cases a.final j.disk) [
              | inl c ↦ elim (Bool-cases (is c.error exist)) [
                | inl appeared ↦
                    rw (named, c.failed, appeared, claim_then_rename)
                      (Claims-stopped a a j _ _ n (rw c.same s) refl
                        (λ p nf nb nt. ap (λ f. f p) c.same) refl refl)
                | inr other ↦
                    rw (named, c.failed, other, claim_then_rename)
                      (Claims-stopped a a j _ _ n (rw c.same s) refl
                        (λ p nf nb nt. ap (λ f. f p) c.same) refl refl)
              ]
              | inr c ↦
                  let (fb, ft, bt) = apart ne in
                  let claimed : (create_excl a.final j.disk).disk.files
                      ≡ put F (some []) j.disk.files =
                    rw (← n.final) c.1.next in
                  rw (named, c.1.good, claim_then_rename)
                    (rename_claimed-Claims a (record a { claimed = true }) j _ ne temp refl
                      (record { final = n.final; bak = n.bak; temp = n.temp })
                      (record {
                        kept = λ b k. cc;
                        fresh = λ b k. sym (s.kept b free) ∙ (rw n.final at c.0);
                        saved = λ b.
                            ap (λ f. f B) claimed
                            ∙ put_other F B (some []) j.disk.files (λ e. fb (sym e))
                            ∙ s.saved b;
                      })
                      (λ p nf nb nt.
                        ap (λ f. f p) claimed ∙ put_other F p (some []) j.disk.files nf)
                      (ap (λ f. f T) claimed
                        ∙ put_other F T (some []) j.disk.files (λ e. ft (sym e))))
            ]
      ]
