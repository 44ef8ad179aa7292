-- ===== src/Cli/Session/Publishing.antt =====
-- `Publish` step by step: at any step the previous files can be told from the session, so that a
-- failure puts them back.
use incusos_builder.Base.{
  ◌≡◌, refl, ◌∙◌, inl, inr, false, ◌||◌, Option, none, List, ℕ, Option-cases,
}
use incusos_builder.Base.Text.{Text}
use incusos_builder.Cli.Disk.{Files}
use incusos_builder.Cli.Publish.{Moved, bak, claim_then_rename}
use incusos_builder.Cli.Publish.Steps.{taken, Others, Steps, bak-Backed}
use incusos_builder.Cli.Publish.Claim.{claim_then_rename-Claims}
use incusos_builder.Cli.Session.{
  Session, Phase, after, on_image, on_resources, image_moved, resources_moved, publish_no_clobber,
  publish_force,
}
use incusos_builder.Cli.Session.Cleanup.{
  Names, Apart, IsName, Disjoint, Safe-frame, Tracked, Outside,
}

module _ (i r : Names) (apart_i : Apart i) (apart_r : Apart r) (image_not_resources : Disjoint i r)
    (resources_not_image : Disjoint r i) (o_i o_r : Option (List ℕ)) where
  abbrev Known : Session → Type 0
  Known = Tracked i r apart_i apart_r image_not_resources resources_not_image o_i o_r

  abbrev Elsewhere : Text → Type 0
  Elsewhere = Outside i r apart_i apart_r image_not_resources resources_not_image o_i o_r

  -- A session that goes on: nothing outside its paths has changed since the files were `f`.
  pub record Going (f : Files) (s : Session) : Type 0 where
    pub tracked : Known s
    pub elsewhere : (p : Text) → Elsewhere p → s.journal.disk.files p ≡ f p
    pub unfinished : (s.complete || s.cleaned) ≡ false

  pub image_moved-Going :
      (f : Files) (s : Session) (m : Moved)
      → Going f s
      → Steps i.final i.bak i.temp apart_i o_i s.journal m
      → Going f (image_moved s m).session
  unfolding Others Outside
  image_moved-Going f s m g st =
      let kept : ((p : Text) → IsName r p → m.journal.disk.files p ≡ s.journal.disk.files p) =
        (λ p h. let d = resources_not_image p h in st.others p d.0 d.1 d.2) in
      record {
        tracked = record {
          image_named = st.named;
          image_safe = st.safe;
          resources_named = g.tracked.resources_named;
          resources_safe =
              Safe-frame r apart_r o_r s.journal.disk.files m.journal.disk.files s.resources
                (kept r.final (inl refl)) (kept r.bak (inr (inl refl))) g.tracked.resources_safe;
        };
        elsewhere = λ p h. st.others p h.0 h.1 h.2 ∙ g.elsewhere p h;
        unfinished = g.unfinished;
      }

  pub resources_moved-Going :
      (f : Files) (s : Session) (m : Moved)
      → Going f s
      → Steps r.final r.bak r.temp apart_r o_r s.journal m
      → Going f (resources_moved s m).session
  unfolding Others Outside
  resources_moved-Going f s m g st =
      let kept : ((p : Text) → IsName i p → m.journal.disk.files p ≡ s.journal.disk.files p) =
        (λ p h. let d = image_not_resources p h in st.others p d.0 d.1 d.2) in
      record {
        tracked = record {
          image_named = g.tracked.image_named;
          image_safe =
              Safe-frame i apart_i o_i s.journal.disk.files m.journal.disk.files s.image
                (kept i.final (inl refl)) (kept i.bak (inr (inl refl))) g.tracked.image_safe;
          resources_named = st.named;
          resources_safe = st.safe;
        };
        elsewhere = λ p h. st.others p h.3 h.4 h.5 ∙ g.elsewhere p h;
        unfinished = g.unfinished;
      }

  after-Going :
      (f : Files) (p : Phase) (next : Session → Phase)
      → Going f p.session
      → (p.failure ≡ none → Going f (next p.session).session)
      → Going f (after p next).session
  after-Going f p next g h = elim (Option-cases p.failure) [
    | inl good ↦ rw good (h good)
    | inr (e, bad) ↦ rw bad g
  ]

  claims-Going :
      (f : Files) (s : Session)
      → Going f s
      → taken s.image ≡ false
      → taken s.resources ≡ false
      → Going f (after (on_resources claim_then_rename s) (on_image claim_then_rename)).session
  claims-Going f s g free_i free_r =
      let c_r =
        claim_then_rename-Claims r.final r.bak r.temp apart_r o_r s.resources s.journal
          g.tracked.resources_named g.tracked.resources_safe free_r in
      let g₁ = resources_moved-Going f s (claim_then_rename s.resources s.journal) g c_r.steps in
      let s₁ = (on_resources claim_then_rename s).session in
      after-Going f (on_resources claim_then_rename s) (on_image claim_then_rename) g₁ (λ good.
        image_moved-Going f s₁ (claim_then_rename s₁.image s₁.journal) g₁
          (claim_then_rename-Claims i.final i.bak i.temp apart_i o_i s₁.image s₁.journal
            g₁.tracked.image_named g₁.tracked.image_safe free_i).steps)

  pub publish_no_clobber-Going :
      (f : Files) (s : Session)
      → Going f s
      → taken s.image ≡ false
      → taken s.resources ≡ false
      → Going f (publish_no_clobber s).session
  unfolding publish_no_clobber
  publish_no_clobber-Going f s g free_i free_r = claims-Going f s g free_i free_r

  pub publish_force-Going :
      (f : Files) (s : Session)
      → Going f s
      → taken s.image ≡ false
      → taken s.resources ≡ false
      → s.image.backed_up ≡ false
      → s.resources.backed_up ≡ false
      → Going f (publish_force s).session
  unfolding publish_force
  publish_force-Going f s g free_i free_r new_i new_r =
      let b_i =
        bak-Backed i.final i.bak i.temp apart_i o_i s.image s.journal g.tracked.image_named
          g.tracked.image_safe free_i new_i in
      let g₁ = image_moved-Going f s (bak s.image s.journal) g b_i.steps in
      let s₁ = (on_image bak s).session in
      let b_r =
        bak-Backed r.final r.bak r.temp apart_r o_r s₁.resources s₁.journal
          g₁.tracked.resources_named g₁.tracked.resources_safe free_r new_r in
      let g₂ = resources_moved-Going f s₁ (bak s₁.resources s₁.journal) g₁ b_r.steps in
      let s₂ = (on_resources bak s₁).session in
      after-Going f (on_image bak s)
        (λ s₁.
          after (on_resources bak s₁)
            λ s₂. after (on_resources claim_then_rename s₂) (on_image claim_then_rename))
        g₁
        (λ good.
          after-Going f (on_resources bak s₁)
            (λ s₂. after (on_resources claim_then_rename s₂) (on_image claim_then_rename)) g₂
            (λ good'. claims-Going f s₂ g₂ b_i.free b_r.free))
