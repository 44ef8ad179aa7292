-- ===== src/Seed/Members.antt =====
-- The members of the seed tar of internal/seed/seed.go, in order.
use incusos_builder.Base.{
  ◌≡◌, refl, ap, sym, ◌∙◌, Option, none, some, List, [], ◌∷◌, ◌++◌, append_assoc, append-nil, inl,
  inr,
}
use incusos_builder.Base.Text.{Text, codes}
use incusos_builder.Errdefs.{Result, Result-cases, ok, err, ◌>>=◌}
use incusos_builder.Build.Spec.{Seeds}
use incusos_builder.Seed.{
  Value, applications, incus, operations_center, migration_manager, install, network, provider,
  services, update, kernel, security, Archive, append_yaml, append_if_present,
  append_customizer_seeds, append_cli_seeds, collect_seed_yaml,
}
use mathlib.Core.Option as Opt

-- A member, if its section is present.
abbrev pub member : Text → Option Value → List (Text × Value)
member name none = []
member name (some v) = (name, v) ∷ []

abbrev pub customizer_members : Seeds → List (Text × Value)
customizer_members s =
    member (codes "applications.yaml") (Opt.map applications s.applications)
    ++ (member (codes "incus.yaml") (Opt.map incus s.incus)
        ++ (member (codes "operations-center.yaml") (Opt.map operations_center s.operations_center)
            ++ (member (codes "migration-manager.yaml")
                  (Opt.map migration_manager s.migration_manager)
                ++ (member (codes "install.yaml") (Opt.map install s.install)
                    ++ (member (codes "network.yaml") (Opt.map network s.network)
                        ++ (member (codes "provider.yaml") (Opt.map provider s.provider)
                            ++ (member (codes "services.yaml") (Opt.map services s.services)
                                ++ member (codes "update.yaml") (Opt.map update s.update))))))))

abbrev pub cli_members : Seeds → List (Text × Value)
cli_members s =
    member (codes "kernel.yaml") (Opt.map kernel s.kernel)
    ++ member (codes "security.yaml") (Opt.map security s.security)

-- The sections that are present, by the names of their files, in the order of the tar.
abbrev pub members : Seeds → List (Text × Value)
members s = customizer_members s ++ cli_members s

module _ (dump : Value → Result Text) where
  -- Each member is encoded, up to the first that cannot be.
  abbrev pub dump_all : List (Text × Value) → Result Archive
  dump_all [] = ok []
  dump_all ((name, v) ∷ rest) = do
    contents ← dump v
    more ← dump_all rest
    ok ((name, contents) ∷ more)

  abbrev extend : Archive → Result Archive → Result Archive
  extend archive more = more >>= (λ a. ok (archive ++ a))

  extend-cons :
      (archive : Archive) (name contents : Text) (more : Result Archive)
      → extend (archive ++ ((name, contents) ∷ [])) more
        ≡ extend archive (more >>= (λ a. ok ((name, contents) ∷ a)))
  extend-cons archive name contents (ok a) =
      ap (λ r. ok r) (append_assoc archive ((name, contents) ∷ []) a)
  extend-cons archive name contents (err e) = refl

  -- A section before the rest.
  extend-member :
      (archive : Archive) (name : Text) (o : Option Value) (rest : List (Text × Value))
      (k : Archive → Result Archive)
      → ((b : Archive) → k b ≡ extend b (dump_all rest))
      → (append_if_present dump archive name o >>= k)
        ≡ extend archive (dump_all (member name o ++ rest))
  unfolding append_if_present append_yaml
  extend-member archive name none rest k h = h archive
  extend-member archive name (some v) rest k h = elim (Result-cases (dump v)) [
    | inl (contents, e) ↦
        rw e (
          h (archive ++ ((name, contents) ∷ []))
          ∙ extend-cons archive name contents (dump_all rest))
    | inr (x, e) ↦ rw e refl
  ]

  -- The last section.
  extend-last :
      (archive : Archive) (name : Text) (o : Option Value)
      → append_if_present dump archive name o ≡ extend archive (dump_all (member name o))
  unfolding append_if_present append_yaml
  extend-last archive name none = ap (λ r. ok r) (sym (append-nil archive))
  extend-last archive name (some v) = elim (Result-cases (dump v)) [
    | inl (contents, e) ↦ rw e refl
    | inr (x, e) ↦ rw e refl
  ]

  customizer_lem :
      (a : Archive) (s : Seeds)
      → append_customizer_seeds dump a s ≡ extend a (dump_all (customizer_members s))
  unfolding append_customizer_seeds
  customizer_lem a s = extend-member a _ (Opt.map applications s.applications) _ _ λ a.
      extend-member a _ (Opt.map incus s.incus) _ _ λ a.
        extend-member a _ (Opt.map operations_center s.operations_center) _ _ λ a.
          extend-member a _ (Opt.map migration_manager s.migration_manager) _ _ λ a.
            extend-member a _ (Opt.map install s.install) _ _ λ a.
              extend-member a _ (Opt.map network s.network) _ _ λ a.
                extend-member a _ (Opt.map provider s.provider) _ _ λ a.
                  extend-member a _ (Opt.map services s.services) _ _
                    λ a. extend-last a _ (Opt.map update s.update)

  cli_lem :
      (a : Archive) (s : Seeds) → append_cli_seeds dump a s ≡ extend a (dump_all (cli_members s))
  unfolding append_cli_seeds
  cli_lem a s =
      extend-member a _ (Opt.map kernel s.kernel) _ _
        λ a. extend-last a _ (Opt.map security s.security)

  -- The members of the first list, and then those that `k` appends.
  extend-append :
      (a : Archive) (xs ys : List (Text × Value)) (k : Archive → Result Archive)
      → ((b : Archive) → k b ≡ extend b (dump_all ys))
      → (extend a (dump_all xs) >>= k) ≡ extend a (dump_all (xs ++ ys))
  extend-append a [] ys k h = ap k (append-nil a) ∙ h a
  extend-append a ((name, v) ∷ xs) ys k h = elim (Result-cases (dump v)) [
    | inr (x, e) ↦ rw e refl
    | inl (contents, e) ↦ rw e (
        ap (λ r. r >>= k) (sym (extend-cons a name contents (dump_all xs)))
        ∙ extend-append (a ++ ((name, contents) ∷ [])) xs ys k h
        ∙ extend-cons a name contents (dump_all (xs ++ ys)))
  ]

  extend-nil : (r : Result Archive) → extend [] r ≡ r
  extend-nil (ok a) = refl
  extend-nil (err e) = refl

  -- The seed files are the sections that are present, each encoded, in the order of the web customizer
  -- with kernel.yaml and security.yaml behind it; the first section that cannot be encoded gives the
  -- error.
  pub collect_seed_yaml_lem : (s : Seeds) → collect_seed_yaml dump s ≡ dump_all (members s)
  unfolding collect_seed_yaml
  collect_seed_yaml_lem s =
      ap (λ r. r >>= (λ a. append_cli_seeds dump a s)) (customizer_lem [] s)
      ∙ extend-append [] (customizer_members s) (cli_members s) _ (λ b. cli_lem b s)
      ∙ extend-nil (dump_all (members s))
