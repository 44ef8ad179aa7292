-- ===== src/Seed/Counted.antt =====
-- The size that `Render` of internal/seed/seed.go returns is that of its tar, whatever the tar writer
-- does.
use incusos_builder.Base.{
  ℕ, ◌≡◌, refl, ap, sym, ◌∙◌, List, [], ◌∷◌, length, length-append, arith, inl, inr, Option-cases,
}
use mathlib.Core.Path.{subst}
use incusos_builder.Base.Text.{Text}
use incusos_builder.Errdefs.{Result, ok, ok_elim}
use incusos_builder.Build.Spec.{Seeds}
use incusos_builder.Seed.{
  Value, Archive, TarStep, TarWriter, Output, write_chunk, write_chunks, Tar, called, write_file,
  write_files, write_seed_tar, collect_seed_yaml, render, seed_tar_mode,
}

abbrev IsCounted : Output → Type 0
IsCounted o = o.size ≡ length o.buffer

write_chunks-IsCounted : (cs : List Text) (o : Output) → IsCounted o → IsCounted (write_chunks cs o)
unfolding write_chunks write_chunk
write_chunks-IsCounted [] o h = h
write_chunks-IsCounted (c ∷ cs) o h =
    write_chunks-IsCounted cs (write_chunk c o) (omega (arith, length-append o.buffer c))

module _ (T : TarWriter) where
  called-IsCounted :
      (step : TarStep T.State) (o : Output) (t : Tar T)
      → called T step o ≡ ok t
      → IsCounted o
      → IsCounted t.output
  unfolding called
  called-IsCounted step o t e h = elim (Option-cases step.failure) [
    | inl f ↦
        let after : Tar T = record { state = step.next; output = write_chunks step.chunks o } in
        let same : after ≡ t = cc (rw f at e) in
        subst (λ v. IsCounted v.output) same (write_chunks-IsCounted step.chunks o h)
    | inr (x, f) ↦ cc (rw f at e)
  ]

  write_file-IsCounted :
      (file : Text × Text) (t u : Tar T)
      → write_file T file t ≡ ok u
      → IsCounted t.output
      → IsCounted u.output
  unfolding write_file
  write_file-IsCounted (name, contents) t u e h =
      ok_elim (called T (T.write_header name seed_tar_mode (length contents) t.state) t.output) _ e
        λ v first second.
          called-IsCounted (T.write contents v.state) v.output u second
            (called-IsCounted _ t.output v first h)

  write_files-IsCounted :
      (files : Archive) (t u : Tar T)
      → write_files T files t ≡ ok u
      → IsCounted t.output
      → IsCounted u.output
  unfolding write_files
  write_files-IsCounted [] t u e h =
      let same : t ≡ u = cc e in subst (λ v. IsCounted v.output) same h
  write_files-IsCounted (file ∷ files) t u e h =
      ok_elim (write_file T file t) _ e
        λ v first rest. write_files-IsCounted files v u rest (write_file-IsCounted file t v first h)

  write_seed_tar-IsCounted :
      (files : Archive) (tar : Text) (n : ℕ) → write_seed_tar T files ≡ ok (tar, n) → n ≡ length tar
  unfolding write_seed_tar
  write_seed_tar-IsCounted files tar n e = ok_elim (write_files T files _) _ e λ t first rest.
      ok_elim (called T (T.close t.state) t.output) _ rest λ u closing last.
        let counted : u.output.size ≡ n = cc last in
        let kept : u.output.buffer ≡ tar = cc last in
        sym counted
        ∙ called-IsCounted _ t.output u closing (write_files-IsCounted files _ t first refl)
        ∙ ap length kept

  -- The size that `Render` reports is the length of the tar that it returns.
  pub render_counted :
      (dump : Value → Result Text) (s : Seeds) (tar : Text) (n : ℕ)
      → render T dump s ≡ ok (tar, n)
      → n ≡ length tar
  unfolding render
  render_counted dump s tar n e =
      ok_elim (collect_seed_yaml dump s) _ e
        λ archive _ rest. write_seed_tar-IsCounted archive tar n rest
