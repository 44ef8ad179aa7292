-- ===== src/Cli/Session/Swaps.antt =====
-- What the steps of a publication put at the final paths when none of them fails.
use incusos_builder.Base.{
  ◌≡◌, refl, sym, ◌∙◌, ◌≢◌, inl, inr, false, Option, none, List, [], ℕ, Option-cases,
}
use incusos_builder.Cli.Disk.{Files}
use incusos_builder.Cli.Publish.{bak, claim_then_rename}
use incusos_builder.Cli.Publish.Steps.{taken, Others, bak-Backed}
use incusos_builder.Cli.Publish.Claim.{claim_then_rename-Claims}
use incusos_builder.Cli.Session.{
  Session, after, on_image, on_resources, publish_force, publish_no_clobber,
}
use incusos_builder.Cli.Session.Cleanup.{Names, Apart, Disjoint}
use incusos_builder.Cli.Session.Publishing.{Going, image_moved-Going, resources_moved-Going}

module _ (i r : Names) (apart_i : Apart i) (apart_r : Apart r) (image_not_resources : Disjoint i r)
    (resources_not_image : Disjoint r i) (o_i o_r : Option (List ℕ)) where
  abbrev Runs : Files → Session → Type 0
  Runs = Going i r apart_i apart_r image_not_resources resources_not_image o_i o_r

  -- The temps hold what they held when the files were `f`.
  pub record Waiting (f : Files) (s : Session) : Type 0 where
    pub image_temp : s.image.temp ≡ i.temp
    pub resources_temp : s.resources.temp ≡ r.temp
    pub image_waits : i.final ≢ [] → s.journal.disk.files i.temp ≡ f i.temp
    pub resources_wait : r.final ≢ [] → s.journal.disk.files r.temp ≡ f r.temp

  -- The final paths hold what the temps held, and the temps are gone.
  pub record Swapped (f : Files) (s : Session) : Type 0 where
    pub image_there :
        i.final ≢ []
        → i.temp ≢ []
        → (s.journal.disk.files i.final ≡ f i.temp) × (s.journal.disk.files i.temp ≡ none)
    pub resources_there :
        r.final ≢ []
        → r.temp ≢ []
        → (s.journal.disk.files r.final ≡ f r.temp) × (s.journal.disk.files r.temp ≡ none)

  claims-Swapped :
      (f : Files) (s : Session)
      → Runs f s
      → Waiting f s
      → taken s.image ≡ false
      → taken s.resources ≡ false
      → (after (on_resources claim_then_rename s) (on_image claim_then_rename)).failure ≡ none
      → Swapped f (after (on_resources claim_then_rename s) (on_image claim_then_rename)).session
  unfolding Others
  claims-Swapped f s g w free_i free_r h =
      let c_r =
        claim_then_rename-Claims r.final r.bak r.temp apart_r o_r s.resources s.journal
          g.tracked.resources_named g.tracked.resources_safe free_r in
      let g₁ =
        resources_moved-Going i r apart_i apart_r image_not_resources resources_not_image o_i o_r f
          s (claim_then_rename s.resources s.journal) g c_r.steps in
      let s₁ = (on_resources claim_then_rename s).session in
      let c_i =
        claim_then_rename-Claims i.final i.bak i.temp apart_i o_i s₁.image s₁.journal
          g₁.tracked.image_named g₁.tracked.image_safe free_i in
      elim (Option-cases (claim_then_rename s.resources s.journal).failure) [
        | inr (e, bad) ↦ let stuck = rw bad at h in cc
        | inl good ↦
            let h' : (claim_then_rename s₁.image s₁.journal).failure ≡ none = rw good at h in
            rw good (record {
              image_there = λ ne nt.
                  let d = image_not_resources i.temp (inr (inr refl)) in
                  let l = c_i.lands h' ne (λ e. nt (sym w.image_temp ∙ e)) in
                  (l.0 ∙ c_r.steps.others i.temp d.0 d.1 d.2 ∙ w.image_waits ne, l.1);
              resources_there = λ ne nt.
                  let d = resources_not_image r.final (inl refl) in
                  let d' = resources_not_image r.temp (inr (inr refl)) in
                  let l = c_r.lands good ne (λ e. nt (sym w.resources_temp ∙ e)) in
                  (
                    c_i.steps.others r.final d.0 d.1 d.2 ∙ l.0 ∙ w.resources_wait ne,
                    c_i.steps.others r.temp d'.0 d'.1 d'.2 ∙ l.1,
                  );
            })
      ]

  pub publish_no_clobber-Swapped :
      (f : Files) (s : Session)
      → Runs f s
      → Waiting f s
      → taken s.image ≡ false
      → taken s.resources ≡ false
      → (publish_no_clobber s).failure ≡ none
      → Swapped f (publish_no_clobber s).session
  unfolding publish_no_clobber
  publish_no_clobber-Swapped f s g w free_i free_r h = claims-Swapped f s g w free_i free_r h

  pub publish_force-Swapped :
      (f : Files) (s : Session)
      → Runs f s
      → Waiting f s
      → taken s.image ≡ false
      → taken s.resources ≡ false
      → s.image.backed_up ≡ false
      → s.resources.backed_up ≡ false
      → (publish_force s).failure ≡ none
      → Swapped f (publish_force s).session
  unfolding publish_force Others
  publish_force-Swapped f s g w free_i free_r new_i new_r h =
      let b_i =
        bak-Backed i.final i.bak i.temp apart_i o_i s.image s.journal g.tracked.image_named
          g.tracked.image_safe free_i new_i in
      let g₁ =
        image_moved-Going i r apart_i apart_r image_not_resources resources_not_image o_i o_r f s
          (bak s.image s.journal) g b_i.steps in
      let s₁ = (on_image bak s).session in
      let b_r =
        bak-Backed r.final r.bak r.temp apart_r o_r s₁.resources s₁.journal
          g₁.tracked.resources_named g₁.tracked.resources_safe free_r new_r in
      let g₂ =
        resources_moved-Going i r apart_i apart_r image_not_resources resources_not_image o_i o_r f
          s₁ (bak s₁.resources s₁.journal) g₁ b_r.steps in
      let s₂ = (on_resources bak s₁).session in
      let d_i = image_not_resources i.temp (inr (inr refl)) in
      let d_r = resources_not_image r.temp (inr (inr refl)) in
      let w₂ : Waiting f s₂ = record {
        image_temp = b_i.same_temp ∙ w.image_temp;
        resources_temp = b_r.same_temp ∙ w.resources_temp;
        image_waits =
            λ ne. b_r.steps.others i.temp d_i.0 d_i.1 d_i.2 ∙ b_i.temp_kept ne ∙ w.image_waits ne;
        resources_wait = λ ne.
            b_r.temp_kept ne ∙ b_i.steps.others r.temp d_r.0 d_r.1 d_r.2 ∙ w.resources_wait ne;
      } in
      elim (Option-cases (bak s.image s.journal).failure) [
        | inr (e, bad) ↦ let stuck = rw bad at h in cc
        | inl good ↦ elim (Option-cases (bak s₁.resources s₁.journal).failure) [
          | inr (e, bad) ↦ let stuck = rw (good, bad) at h in cc
          | inl good' ↦
              rw (good, good') (claims-Swapped f s₂ g₂ w₂ b_i.free b_r.free (rw (good, good') at h))
        ]
      ]
