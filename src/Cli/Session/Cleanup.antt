-- ===== src/Cli/Session/Cleanup.antt =====
-- The cleanup of a session puts the previous files back.
use incusos_builder.Base.{
  ◌≡◌, refl, ◌∙◌, ap, ◌≢◌, ◌⊎◌, inl, inr, true, false, not, ◌||◌, Option, List, [], ℕ, Bool-cases,
}
use incusos_builder.Base.Text.{Text, codes}
use incusos_builder.Cli.Disk.{Files, touch, touch-cases}
use incusos_builder.Cli.Publish.{Artifact, unpublish, restore, remove_temp}
use incusos_builder.Cli.Publish.Steps.{Named, Safe, Others}
use incusos_builder.Cli.Publish.Rollback.{
  unpublish-Unpublished, restore-Restored, remove_temp-Dropped,
}
use incusos_builder.Cli.Session.{
  Session, on_image, on_resources, rollback_publication, close_image, cleanup,
}

-- The paths of one artifact, and when they are those of different files.
pub record Names : Type 0 where
  pub final : Text
  pub bak : Text
  pub temp : Text

abbrev pub Apart : Names → Type 0
Apart n = n.final ≢ [] → (n.final ≢ n.bak) × (n.final ≢ n.temp) × (n.bak ≢ n.temp)

abbrev pub IsName : Names → Text → Type 0
IsName n p = (p ≡ n.final) ⊎ (p ≡ n.bak) ⊎ (p ≡ n.temp)

abbrev pub Disjoint : Names → Names → Type 0
Disjoint m n = (p : Text) → IsName m p → (p ≢ n.final) × (p ≢ n.bak) × (p ≢ n.temp)

module _ (n : Names) (apart : Apart n) (o : Option (List ℕ)) where
  pub Safe-frame :
      (f f' : Files) (a : Artifact)
      → f' n.final ≡ f n.final
      → f' n.bak ≡ f n.bak
      → Safe n.final n.bak n.temp apart o f a
      → Safe n.final n.bak n.temp apart o f' a
  Safe-frame f f' a final bak s = record {
    kept = λ b t. final ∙ s.kept b t;
    fresh = s.fresh;
    saved = λ b. bak ∙ s.saved b;
  }

module _ (i r : Names) (apart_i : Apart i) (apart_r : Apart r) (image_not_resources : Disjoint i r)
    (resources_not_image : Disjoint r i) (o_i o_r : Option (List ℕ)) where
  -- What the files held before can be told from the session.
  pub record Tracked (s : Session) : Type 0 where
    pub image_named : Named i.final i.bak i.temp apart_i s.image
    pub image_safe : Safe i.final i.bak i.temp apart_i o_i s.journal.disk.files s.image
    pub resources_named : Named r.final r.bak r.temp apart_r s.resources
    pub resources_safe : Safe r.final r.bak r.temp apart_r o_r s.journal.disk.files s.resources

  unfoldable pub Outside : Text → Type 0
  Outside p =
      (p ≢ i.final) × (p ≢ i.bak) × (p ≢ i.temp) × (p ≢ r.final) × (p ≢ r.bak) × (p ≢ r.temp)

  -- The previous content is back if nothing is left over; no other path has changed.
  pub record PutBack (f : Files) (s : Session) : Type 0 where
    pub image_back : i.final ≢ [] → s.journal.leftovers ≡ [] → s.journal.disk.files i.final ≡ o_i
    pub resources_back :
        r.final ≢ [] → s.journal.leftovers ≡ [] → s.journal.disk.files r.final ≡ o_r
    pub others_kept : (p : Text) → Outside p → p ≢ [] → s.journal.disk.files p ≡ f p

  rollback_publication-PutBack :
      (s : Session)
      → Tracked s
      → PutBack s.journal.disk.files (rollback_publication s)
        × Named i.final i.bak i.temp apart_i (rollback_publication s).image
        × Named r.final r.bak r.temp apart_r (rollback_publication s).resources
  unfolding rollback_publication Others Outside
  rollback_publication-PutBack s t =
      let u_i =
        unpublish-Unpublished i.final i.bak i.temp apart_i o_i (codes "removed new image") s.image
          s.journal t.image_named t.image_safe in
      let s₁ = (on_image (unpublish (codes "removed new image")) s).session in
      let outside_i : (p : Text) → IsName r p → s₁.journal.disk.files p ≡ s.journal.disk.files p =
        (λ p h. let d = resources_not_image p h in u_i.others p d.0 d.1 d.2) in
      let u_r =
        unpublish-Unpublished r.final r.bak r.temp apart_r o_r (codes "removed new resources")
          s₁.resources s₁.journal t.resources_named
          (Safe-frame r apart_r o_r s.journal.disk.files s₁.journal.disk.files s₁.resources
            (outside_i r.final (inl refl)) (outside_i r.bak (inr (inl refl))) t.resources_safe) in
      let s₂ = (on_resources (unpublish (codes "removed new resources")) s₁).session in
      let b_r =
        restore-Restored r.final r.bak r.temp apart_r o_r (codes "restored resources") s₂.resources
          s₂.journal u_r.named in
      let s₃ = (on_resources (restore (codes "restored resources")) s₂).session in
      let outside_r : (p : Text) → IsName i p → s₃.journal.disk.files p ≡ s₁.journal.disk.files p =
        (λ p h.
          let d = image_not_resources p h in
          b_r.0.others p d.0 d.1 d.2 ∙ u_r.others p d.0 d.1 d.2) in
      let b_i =
        restore-Restored i.final i.bak i.temp apart_i o_i (codes "restored image") s₃.image
          s₃.journal u_i.named in
      (
        record {
          image_back = λ ne e.
              let e₂ = b_r.0.earlier (b_i.0.earlier e) in
              let u = u_i.undone ne (u_r.earlier e₂) in
              b_i.1 ne
                (Safe-frame i apart_i o_i s₁.journal.disk.files s₃.journal.disk.files s₃.image
                  (outside_r i.final (inl refl)) (outside_r i.bak (inr (inl refl))) u.0)
                u.1 e;
          resources_back = λ ne e.
              let e₃ = b_i.0.earlier e in
              let e₂ = b_r.0.earlier e₃ in
              let u = u_r.undone ne e₂ in
              let d = resources_not_image r.final (inl refl) in
              b_i.0.others r.final d.0 d.1 d.2 ∙ b_r.1 ne u.0 u.1 e₃;
          others_kept = λ p h ne.
              b_i.0.others p h.0 h.1 h.2
              ∙ b_r.0.others p h.3 h.4 h.5
              ∙ u_r.others p h.3 h.4 h.5
              ∙ u_i.others p h.0 h.1 h.2;
        },
        b_i.0.named,
        b_r.0.named,
      )

  close_image-files : (s : Session) → (close_image s).journal.disk.files ≡ s.journal.disk.files
  unfolding close_image
  close_image-files s = elim (Bool-cases (not s.image_open)) [
    | inl closed ↦ rw (closed, close_image) refl
    | inr opened ↦ elim (touch-cases s.journal.disk) [
      | inl c ↦ rw (opened, close_image) c.same
      | inr c ↦ rw (opened, close_image) c.next
    ]
  ]

  close_image-Tracked : (s : Session) → Tracked s → Tracked (close_image s)
  unfolding close_image
  close_image-Tracked s t = elim (Bool-cases (not s.image_open)) [
    | inl closed ↦ rw (closed, close_image) t
    | inr opened ↦
        let same : (touch s.journal.disk).disk.files ≡ s.journal.disk.files =
          (elim (touch-cases s.journal.disk) [ inl c ↦ c.same | inr c ↦ c.next ]) in
        rw (opened, close_image)
          (record {
            image_named = t.image_named;
            image_safe =
                Safe-frame i apart_i o_i s.journal.disk.files (touch s.journal.disk).disk.files
                  s.image (ap (λ f. f i.final) same) (ap (λ f. f i.bak) same) t.image_safe;
            resources_named = t.resources_named;
            resources_safe =
                Safe-frame r apart_r o_r s.journal.disk.files (touch s.journal.disk).disk.files
                  s.resources (ap (λ f. f r.final) same) (ap (λ f. f r.bak) same) t.resources_safe;
          })
  ]

  -- A path that is neither the temp of an artifact nor empty is not the temp that it names.
  not_temp :
      (n : Names) (apart : Apart n) (a : Artifact) (p : Text)
      → Named n.final n.bak n.temp apart a
      → p ≢ n.temp
      → p ≢ []
      → p ≢ a.temp
  not_temp n apart a p named nt ne e = elim named.temp [ inl t ↦ nt (e ∙ t) | inr t ↦ ne (e ∙ t) ]

  temps-PutBack :
      (f : Files) (s : Session)
      → PutBack f s
      → Named i.final i.bak i.temp apart_i s.image
      → Named r.final r.bak r.temp apart_r s.resources
      → PutBack f
          (record s { journal = remove_temp s.resources.temp (remove_temp s.image.temp s.journal) })
  unfolding Outside
  temps-PutBack f s b n_i n_r =
      let d_i = remove_temp-Dropped s.image.temp s.journal in
      let j = remove_temp s.image.temp s.journal in
      let d_r = remove_temp-Dropped s.resources.temp j in
      let kept : ((p : Text)
          → p ≢ i.temp
          → p ≢ r.temp
          → p ≢ []
          → (remove_temp s.resources.temp j).disk.files p ≡ s.journal.disk.files p) =
        (λ p ni nr ne.
          d_r.others p (not_temp r apart_r s.resources p n_r nr ne)
          ∙ d_i.others p (not_temp i apart_i s.image p n_i ni ne)) in
      record {
        image_back = λ ne e.
            kept i.final (apart_i ne).1 (image_not_resources i.final (inl refl)).2 ne
            ∙ b.image_back ne (d_i.earlier (d_r.earlier e));
        resources_back = λ ne e.
            kept r.final (resources_not_image r.final (inl refl)).2 (apart_r ne).1 ne
            ∙ b.resources_back ne (d_i.earlier (d_r.earlier e));
        others_kept = λ p h ne. kept p h.2 h.5 ne ∙ b.others_kept p h ne;
      }

  -- The cleanup of a session that has not been cleaned up yet.
  pub cleanup-PutBack :
      (s : Session)
      → Tracked s
      → (s.complete || s.cleaned) ≡ false
      → PutBack s.journal.disk.files (cleanup s)
  unfolding cleanup close_image
  cleanup-PutBack s t first =
      let s₀ : Session = record s { cleaned = true } in
      let t₀ : Tracked s₀ = record {
        image_named = t.image_named;
        image_safe = t.image_safe;
        resources_named = t.resources_named;
        resources_safe = t.resources_safe;
      } in
      let (b, n_i, n_r) =
        rollback_publication-PutBack (close_image s₀) (close_image-Tracked s₀ t₀) in
      rw (first, cleanup)
        (temps-PutBack s.journal.disk.files (rollback_publication (close_image s₀))
          (rw (close_image-files s₀) at b) n_i n_r)
