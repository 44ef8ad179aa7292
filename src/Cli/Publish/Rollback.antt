-- ===== src/Cli/Publish/Rollback.antt =====
-- The steps of a rollback: when none of them leaves anything over, the previous content is back.
use incusos_builder.Base.{
  ◌≡◌, refl, sym, ◌∙◌, ap, ◌≢◌, inl, inr, true, false, not, ◌&&◌, ◌||◌, Option, none, List, [], ◌∷◌,
  ◌++◌, ℕ, Bool-cases, arith,
}
use incusos_builder.Base.Text.{Text, text_eq, text_eq_iff}
use incusos_builder.Cli.Disk.{
  rename, remove, put, move, put_same, put_other, move_target, move_other, rename-cases,
  remove-cases,
}
use incusos_builder.Cli.Publish.{Artifact, Journal, Moved, unpublish, restore, remove_temp}
use incusos_builder.Cli.Publish.Steps.{taken, Named, Safe, Others, is_not_exist}

append-nonempty : (xs : List Text) (x : Text) → xs ++ (x ∷ []) ≢ []
append-nonempty [] x e = cc
append-nonempty (y ∷ ys) x e = cc

module _ (F B T : Text) (apart : (F ≢ []) → (F ≢ B) × (F ≢ T) × (B ≢ T)) (o : Option (List ℕ)) where
  -- What undoing a publication or a claim leaves behind.
  pub record Unpublished (j : Journal) (r : Moved) : Type 0 where
    pub named : Named F B T apart r.artifact
    pub others : Others F B T apart j.disk.files r.journal.disk.files
    pub earlier : r.journal.leftovers ≡ [] → j.leftovers ≡ []
    pub undone :
        F ≢ []
        → r.journal.leftovers ≡ []
        → Safe F B T apart o r.journal.disk.files r.artifact × (taken r.artifact ≡ false)

  removed :
      (a : Artifact) (j : Journal) (r : Moved)
      → Named F B T apart a
      → Safe F B T apart o j.disk.files a
      → F ≢ []
      → taken a ≡ true
      → r.artifact ≡ record a { published = false; claimed = false }
      → r.journal.leftovers ≡ j.leftovers
      → r.journal.disk.files F ≡ none
      → ((p : Text) → p ≢ F → r.journal.disk.files p ≡ j.disk.files p)
      → Unpublished j r
  unfolding Others
  removed a j r n s ne was same tidy gone others =
      let (fb, ft, bt) = apart ne in
      record {
        named = rw same (record { final = n.final; bak = n.bak; temp = n.temp });
        others = λ p nf nb nt. others p nf;
        earlier = λ e. sym tidy ∙ e;
        undone = λ ne' e. rw same (
          record {
            kept = λ b k. gone ∙ sym (s.fresh b was);
            fresh = λ b k. cc;
            saved = λ b. others B (λ q. fb (sym q)) ∙ s.saved b;
          },
          refl,
        );
      }

  pub unpublish-Unpublished :
      (verb : Text) (a : Artifact) (j : Journal)
      → Named F B T apart a
      → Safe F B T apart o j.disk.files a
      → Unpublished j (unpublish verb a j)
  unfolding unpublish Others
  unpublish-Unpublished verb a j n s =
      elim (Bool-cases (text_eq a.final [] || (not a.published && not a.claimed))) [
        | inl nothing ↦
            rw (nothing, unpublish)
              (record {
                named = n;
                others = λ p nf nb nt. refl;
                earlier = λ e. e;
                undone = λ ne e. (s, ground (arith, nothing, ne, n.final, text_eq_iff a.final []));
              })
        | inr something ↦
            let ne : F ≢ [] = λ e. ground (arith, n.final, e, text_eq_iff a.final []) in
            let was : taken a ≡ true = ground (arith, something) in
            elim (remove-cases a.final j.disk) [
              | inl c ↦
                  rw (something, c.failed, c.other, unpublish)
                    (record {
                      named = n;
                      others = λ p nf nb nt. ap (λ f. f p) c.same;
                      earlier = λ e. absurd (append-nonempty j.leftovers a.final e);
                      undone = λ ne' e. absurd (append-nonempty j.leftovers a.final e);
                    })
              | inr q ↦ elim q [
                | inl c ↦
                    rw (something, c.failed, is_not_exist, unpublish)
                      (removed a j _ n s ne was refl refl
                        (ap (λ f. f F) c.same ∙ (rw n.final at c.absent))
                        (λ p nf. ap (λ f. f p) c.same))
                | inr c ↦
                    let next : (remove a.final j.disk).disk.files ≡ put F none j.disk.files =
                      c.next ∙ ap (λ x. put x none j.disk.files) n.final in
                    rw (something, c.good, unpublish)
                      (removed a j _ n s ne was refl refl
                        (ap (λ f. f F) next ∙ put_same F none j.disk.files)
                        (λ p nf. ap (λ f. f p) next ∙ put_other F p none j.disk.files nf))
              ]
            ]
      ]

  -- What restoring the backup leaves behind.
  pub record Restored (j : Journal) (r : Moved) : Type 0 where
    pub named : Named F B T apart r.artifact
    pub others : Others F B T apart j.disk.files r.journal.disk.files
    pub earlier : r.journal.leftovers ≡ [] → j.leftovers ≡ []

  pub restore-Restored :
      (verb : Text) (a : Artifact) (j : Journal)
      → Named F B T apart a
      → Restored j (restore verb a j)
        × (F ≢ []
            → Safe F B T apart o j.disk.files a
            → taken a ≡ false
            → (restore verb a j).journal.leftovers ≡ []
            → (restore verb a j).journal.disk.files F ≡ o)
  unfolding restore Others
  restore-Restored verb a j n = elim (Bool-cases (text_eq a.final [] || not a.backed_up)) [
    | inl nothing ↦
        rw (nothing, restore)
          (
            record { named = n; others = λ p nf nb nt. refl; earlier = λ e. e },
            λ ne s free e.
                s.kept (ground (arith, nothing, ne, n.final, text_eq_iff a.final [])) free,
          )
    | inr something ↦
        let backed : a.backed_up ≡ true = ground (arith, something) in
        elim (rename-cases a.bak a.final j.disk) [
          | inl c ↦
              rw (something, c.failed, restore)
                (
                  record {
                    named = n;
                    others = λ p nf nb nt. ap (λ f. f p) c.same;
                    earlier = λ e. absurd (append-nonempty j.leftovers a.bak e);
                  },
                  λ ne s free e. absurd (append-nonempty j.leftovers a.bak e),
                )
          | inr q ↦ elim q [
            | inl c ↦
                rw (something, c.failed, restore)
                  (
                    record {
                      named = n;
                      others = λ p nf nb nt. ap (λ f. f p) c.same;
                      earlier = λ e. absurd (append-nonempty j.leftovers a.bak e);
                    },
                    λ ne s free e. absurd (append-nonempty j.leftovers a.bak e),
                  )
            | inr c ↦
                let next : (rename a.bak a.final j.disk).disk.files ≡ move B F j.disk.files =
                  c.next
                  ∙ ap (λ x. move x a.final j.disk.files) n.bak
                  ∙ ap (λ x. move B x j.disk.files) n.final in
                rw (something, c.good, restore)
                  (
                    record {
                      named = record { final = n.final; bak = n.bak; temp = n.temp };
                      others =
                          λ p nf nb nt. ap (λ f. f p) next ∙ move_other B F p j.disk.files nb nf;
                      earlier = λ e. e;
                    },
                    λ ne s free e.
                        ap (λ f. f F) next ∙ move_target B F j.disk.files ∙ s.saved backed,
                  )
          ]
        ]
  ]

-- Removing a temp.
pub record Dropped (path : Text) (j k : Journal) : Type 0 where
  pub others : (p : Text) → p ≢ path → k.disk.files p ≡ j.disk.files p
  pub earlier : k.leftovers ≡ [] → j.leftovers ≡ []
  pub gone : path ≢ [] → k.leftovers ≡ [] → k.disk.files path ≡ none
  pub only : (path ≡ [] → k.disk.files ≡ j.disk.files)

pub remove_temp-Dropped : (path : Text) (j : Journal) → Dropped path j (remove_temp path j)
unfolding remove_temp
remove_temp-Dropped path j = elim (Bool-cases (text_eq path [])) [
  | inl nothing ↦
      rw (nothing, remove_temp)
        (record {
          others = λ p ne. refl;
          earlier = λ e. e;
          gone = λ ne e. absurd (ne ((text_eq_iff path []).0 nothing));
          only = λ e. refl;
        })
  | inr something ↦
      let ne : path ≢ [] = λ e. ground (arith, something, e, text_eq_iff path []) in
      elim (remove-cases path j.disk) [
        | inl c ↦
            rw (something, c.failed, c.other, remove_temp)
              (record {
                others = λ p np. ap (λ f. f p) c.same;
                earlier = λ e. absurd (append-nonempty j.leftovers path e);
                gone = λ np e. absurd (append-nonempty j.leftovers path e);
                only = λ e. absurd (ne e);
              })
        | inr q ↦ elim q [
          | inl c ↦
              rw (something, c.failed, is_not_exist, remove_temp)
                (record {
                  others = λ p np. ap (λ f. f p) c.same;
                  earlier = λ e. e;
                  gone = λ np e. ap (λ f. f path) c.same ∙ c.absent;
                  only = λ e. absurd (ne e);
                })
          | inr c ↦
              rw (something, c.good, remove_temp)
                (record {
                  others = λ p np. ap (λ f. f p) c.next ∙ put_other path p none j.disk.files np;
                  earlier = λ e. e;
                  gone = λ np e. ap (λ f. f path) c.next ∙ put_same path none j.disk.files;
                  only = λ e. absurd (ne e);
                })
        ]
      ]
]
