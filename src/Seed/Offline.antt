-- ===== src/Seed/Offline.antt =====
-- From the configuration to the seed tar: what the tar of an offline build holds.
use incusos_builder.Base.{
  ◌≡◌, ap, sym, ◌∙◌, ◌≢◌, true, Option, none, some, List, [], ◌∷◌, In, In-append_left,
  In-append_right, inl, inr,
}
use mathlib.Core.Path.{subst}
use incusos_builder.Base.Text.{Text, codes}
use incusos_builder.Errdefs.{Result, ok, ok_elim}
use incusos_builder.Seeds.{Applications, UpdateSeed}
use incusos_builder.Build.Spec.{Spec, Seeds}
use incusos_builder.Config.Load.{Decoders, parse}
use incusos_builder.Config.Buildable.{parse-IsBuildable}
use incusos_builder.Config.Defaults.{check_frequency_never}
use incusos_builder.Seed.{
  Value, applications, incus, operations_center, migration_manager, install, network, provider,
  services, update, Archive, collect_seed_yaml,
}
use incusos_builder.Seed.Members.{
  member, members, customizer_members, cli_members, dump_all, collect_seed_yaml_lem,
}
use mathlib.Core.Option as Opt

module _ (dump : Value → Result Text) where
  -- A seed file with what a section is encoded to.
  abbrev pub Holds : Archive → Text → Value → Type 0
  Holds archive name v = (contents : Text) × (dump v ≡ ok contents) × In (name, contents) archive

  dump_all-Holds :
      (ms : List (Text × Value)) (archive : Archive) (name : Text) (v : Value)
      → dump_all dump ms ≡ ok archive
      → In (name, v) ms
      → Holds archive name v
  dump_all-Holds [] archive name v e m = absurd m
  dump_all-Holds ((n, w) ∷ ms) archive name v e m = ok_elim (dump w) _ e λ contents dumped rest.
      ok_elim (dump_all dump ms) _ rest λ more later last.
        let whole : (n, contents) ∷ more ≡ archive = cc last in
        subst (λ a. Holds a name v) whole
          (elim m [
            | inl here ↦ (contents, cc (here, dumped), inl (cc here))
            | inr there ↦ let (c, d, i) = dump_all-Holds ms more name v later there in (c, d, inr i)
          ])

  In-member :
      (name : Text) (o : Option Value) (v : Value) → o ≡ some v → In (name, v) (member name o)
  In-member name none v h = cc
  In-member name (some w) v h = inl (cc h)

  applications-In :
      (s : Seeds) (a : Applications)
      → s.applications ≡ some a
      → In (codes "applications.yaml", applications a) (members s)
  applications-In s a h = In-append_left _ (customizer_members s) (cli_members s) (
      In-append_left _ (member (codes "applications.yaml") (Opt.map applications s.applications)) _
        (In-member _ _ (applications a) (ap (λ o. Opt.map applications o) h)))

  update-In :
      (s : Seeds) (u : UpdateSeed)
      → s.update ≡ some u
      → In (codes "update.yaml", update u) (members s)
  update-In s u h = In-append_left _ (customizer_members s) (cli_members s) (
      In-append_right _ (member (codes "applications.yaml") (Opt.map applications s.applications)) _
        (In-append_right _ (member (codes "incus.yaml") (Opt.map incus s.incus)) _ (
          In-append_right _
            (member (codes "operations-center.yaml")
              (Opt.map operations_center s.operations_center))
            _
            (In-append_right _
              (member (codes "migration-manager.yaml")
                (Opt.map migration_manager s.migration_manager))
              _
              (In-append_right _ (member (codes "install.yaml") (Opt.map install s.install)) _ (
                In-append_right _ (member (codes "network.yaml") (Opt.map network s.network)) _ (
                  In-append_right _ (member (codes "provider.yaml") (Opt.map provider s.provider)) _
                    (In-append_right _
                      (member (codes "services.yaml") (Opt.map services s.services)) _
                      (In-member _ _ (update u) (ap (λ o. Opt.map update o) h))))))))))

  -- The files that an offline installer relies on.
  pub record HasOfflineSeeds (archive : Archive) : Type 0 where
    pub apps : Applications
    pub listed : apps.applications ≢ []
    pub apps_file : Holds archive (codes "applications.yaml") (applications apps)
    pub updates : UpdateSeed
    pub never : updates.check_frequency ≡ check_frequency_never
    pub update_file : Holds archive (codes "update.yaml") (update updates)

  -- The seed files of an offline configuration that `Parse` accepted include applications.yaml, with a
  -- list of applications that is not empty, and update.yaml, with the check frequency never, whether or
  -- not the document has an update seed and whatever frequency it asks for.
  pub parse-HasOfflineSeeds :
      (D : Decoders) (raw : Text) (spec : Spec) (archive : Archive)
      → parse D raw ≡ ok spec
      → spec.offline ≡ true
      → collect_seed_yaml dump spec.seeds ≡ ok archive
      → HasOfflineSeeds archive
  parse-HasOfflineSeeds D raw spec archive parsed offline collected =
      let b = parse-IsBuildable D raw spec parsed in
      let (a, found, listed) = b.applications offline in
      let (u, present, never) = b.never offline in
      let encoded = sym (collect_seed_yaml_lem dump spec.seeds) ∙ collected in
      record {
        apps = a;
        listed = listed;
        apps_file =
            dump_all-Holds (members spec.seeds) archive _ _ encoded
              (applications-In spec.seeds a found);
        updates = u;
        never = never;
        update_file =
            dump_all-Holds (members spec.seeds) archive _ _ encoded
              (update-In spec.seeds u present);
      }
