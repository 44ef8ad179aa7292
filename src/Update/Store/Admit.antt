-- ===== src/Update/Store/Admit.antt =====
-- What `admit` and `reuse` leave in the cache and what they return.
use incusos_builder.Base.{
  ℕ, zero, suc, ◌-◌, ◌<◌, ◌≡◌, refl, ◌∙◌, ap, ◌≢◌, inl, inr, true, not, ◌||◌, Option, none, some,
  List, [], ◌++◌, length, ltb, ◌==◌, min, arith, Bool-cases, Option-cases,
}
use incusos_builder.Base.Text.{Text, text_eq, text_eq_iff}
use incusos_builder.Errdefs.{Wraps, is, eof, fetch, is-join, is-errorf, is-wrap}
use incusos_builder.Images.{UpdateFile}
use incusos_builder.Io.{Reader, IsReader, poll, polled}
use incusos_builder.Update.Store.{
  Store, CachedAsset, Failure, error_of, Outcome, got, failed, fault, called, has_size, limit_of,
  copy_buf_size, copy_hashed, write_temp, commit, admit, reuse,
}

-- An outcome whose failure, if it is one, is an acquisition failure.
abbrev pub FetchFails : {A : Type 0} → Outcome A → Type 0
FetchFails (got a) = Unit
FetchFails (failed f) = Wraps fetch (error_of f)

write_temp-entries : (bytes : List ℕ) (st : Store) → (write_temp bytes st).1.entries ≡ st.entries
unfolding write_temp
write_temp-entries bytes st = elim (Bool-cases (ltb 0 (length bytes))) [
  | inl e ↦ rw (e, write_temp) refl
  | inr e ↦ rw (e, write_temp) refl
]

module _ (sha256 : List ℕ → Text) where
  -- The entry of the file is there and sound: it has the file's digest and size.
  pub record IsSound (file : UpdateFile) (st : Store) : Type 0 where
    pub content : List ℕ
    pub found : st.entries file.sha256 ≡ some content
    pub right_digest : sha256 content ≡ file.sha256
    pub right_size : has_size file.size (length content) ≡ true

  -- From the first store to the second, entries have changed at most at the file's digest, and there
  -- only to a sound one; a handle is on a sound entry.
  abbrev pub HandleIsSound : UpdateFile → Store → Outcome CachedAsset → Type 0
  HandleIsSound file st (got h) =
      (h ≡ record { digest = file.sha256; size = file.size }) × IsSound file st
  HandleIsSound file st (failed f) = Wraps fetch (error_of f)

  pub record Admitted (file : UpdateFile) (st : Store) (o : Outcome CachedAsset) (st' : Store)
      : Type 0 where
    pub others : (d : Text) → d ≢ file.sha256 → st'.entries d ≡ st.entries d
    pub handle : HandleIsSound file st' o

  commit-Admitted :
      (R : Reader) (file : UpdateFile) (copied : List ℕ) (st : Store)
      → Admitted file st (commit R sha256 file copied st).0 (commit R sha256 file copied st).1
  unfolding commit
  commit-Admitted R file copied st =
      elim (Bool-cases
        (not (has_size file.size (length copied)) || not (text_eq (sha256 copied) file.sha256))) [
          | inl bad ↦
              rw (bad, commit) (record { others = λ d ne. refl; handle = is-errorf fetch _ })
          | inr good ↦
              let digest : sha256 copied ≡ file.sha256 =
                (text_eq_iff (sha256 copied) file.sha256).0 (ground (arith, good)) in
              let size : has_size file.size (length copied) ≡ true = ground (arith, good) in
              elim (Option-cases (fault st)) [
                | inr (m, e) ↦
                    rw (good, e, commit)
                      (record { others = λ d ne. refl; handle = is-wrap fetch _ _ })
                | inl e ↦ elim (Option-cases (fault (called st))) [
                  | inr (m, e') ↦
                      rw (good, e, e', commit)
                        (record { others = λ d ne. refl; handle = is-wrap fetch _ _ })
                  | inl e' ↦ elim (Option-cases (fault (called (called st)))) [
                    | inr (m, e'') ↦
                        rw (good, e, e', e'', commit)
                          (record { others = λ d ne. refl; handle = is-wrap fetch _ _ })
                    | inl e'' ↦
                        rw (good, e, e', e'', commit)
                          (record {
                            others = λ d ne. ground (arith, text_eq_iff d file.sha256);
                            handle = (
                              refl,
                              record {
                                content = copied;
                                found = ground (arith, text_eq_iff file.sha256 file.sha256);
                                right_digest = digest;
                                right_size = size;
                              },
                            );
                          })
                  ]
                ]
              ]
        ]

  module _ (R : Reader) (content : R.State → List ℕ) (reads : IsReader R content) where
    abbrev Copies : Store → Option (Outcome (List ℕ) × Store) → Type 0
    Copies st none = ⊥
    Copies st (some (o, st')) = (st'.entries ≡ st.entries) × FetchFails o

    Copies-from :
        (st st' : Store) (o : Option (Outcome (List ℕ) × Store))
        → st'.entries ≡ st.entries
        → Copies st' o
        → Copies st o
    Copies-from st st' none same c = c
    Copies-from st st' (some (o, st'')) same c = (c.0 ∙ same, c.1)

    copy_hashed-Copies :
        (fuel limit : ℕ) (copied : List ℕ) (source : R.State) (st : Store)
        → limit < fuel
        → Copies st (copy_hashed R fuel limit copied source st)
    unfolding copy_hashed
    copy_hashed-Copies zero limit copied source st enough = absurd (omega arith)
    copy_hashed-Copies (suc fuel) limit copied source st enough =
        elim (Option-cases (poll st.polls)) [
          | inr (e, dead) ↦ rw (dead, copy_hashed) (refl, is-join fetch e)
          | inl alive ↦ elim (Bool-cases (limit == 0)) [
            | inl all ↦ rw (alive, all, copy_hashed) (refl, tt)
            | inr more ↦
                let k = min copy_buf_size limit in
                let r = R.read k source in
                let st' : Store = record st { polls = polled st.polls } in
                let some_left : 0 < limit = ground arith in
                let k_positive : 0 < k = omega arith in
                let w = write_temp r.bytes st' in
                let same : w.1.entries ≡ st.entries = write_temp-entries r.bytes st' in
                elim (Option-cases w.0) [
                  | inr (m, full) ↦ rw (alive, more, full, copy_hashed) (same, is-wrap fetch _ _)
                  | inl written ↦ elim (Option-cases r.failure) [
                    | inr (rerr, last) ↦ elim (Bool-cases (is rerr eof)) [
                      | inl at_end ↦ rw (alive, more, written, last, at_end, copy_hashed) (same, tt)
                      | inr broken ↦
                          rw (alive, more, written, last, broken, copy_hashed)
                            (same, is-wrap fetch _ _)
                    ]
                    | inl good ↦
                        let shorter : limit - length r.bytes < fuel =
                          omega (arith, reads.progress k source k_positive good) in
                        rw (alive, more, written, good, copy_hashed)
                          (Copies-from st w.1
                            (copy_hashed R fuel (limit - length r.bytes) (copied ++ r.bytes) r.next
                              w.1)
                            same
                            (copy_hashed-Copies fuel (limit - length r.bytes) (copied ++ r.bytes)
                              r.next w.1 shorter))
                  ]
                ]
          ]
        ]

    -- `admit` returns.
    abbrev pub Admits : UpdateFile → Store → Option (Outcome CachedAsset × Store) → Type 0
    Admits file st none = ⊥
    Admits file st (some (o, st')) = Admitted file st o st'

    unchanged :
        (file : UpdateFile) (st st' : Store) (f : Failure)
        → st'.entries ≡ st.entries
        → Wraps fetch (error_of f)
        → Admitted file st (failed f) st'
    unchanged file st st' f same wraps = record {
      others = λ d ne. ap (λ g. g d) same;
      handle = wraps;
    }

    pub admit-Admits :
        (fuel : ℕ) (file : UpdateFile) (source : R.State) (st : Store)
        → limit_of file.size < fuel
        → Admits file st (admit R sha256 fuel file source st)
    unfolding admit
    admit-Admits fuel file source st enough = elim (Option-cases (fault st)) [
      | inr (m, e) ↦ rw (e, admit) (unchanged file st (called st) _ refl (is-wrap fetch _ _))
      | inl e ↦ elim (Option-cases (fault (called st))) [
        | inr (m, e') ↦
            rw (e, e', admit) (unchanged file st (called (called st)) _ refl (is-wrap fetch _ _))
        | inl e' ↦
            rw (e, e', admit)
              (go (copy_hashed R fuel (limit_of file.size) [] source (called (called st))) (
                copy_hashed-Copies fuel (limit_of file.size) [] source (called (called st)) enough))
      ]
    ]
      where
        go :
            (o : Option (Outcome (List ℕ) × Store))
            → Copies (called (called st)) o
            → Admits file st (elim o [
              | none ↦ none
              | some c ↦ elim c.0 [
                | failed f ↦ some (failed f, c.1)
                | got copied ↦ some (commit R sha256 file copied c.1)
              ]
            ])
        go none c = c
        go (some (failed f, st')) c = unchanged file st st' f c.0 c.1
        go (some (got copied, st')) c =
            let a = commit-Admitted R file copied st' in
            record { others = λ d ne. a.others d ne ∙ ap (λ g. g d) c.0; handle = a.handle }

  -- `reuse` changes no entry; a handle that it returns is on a sound one.
  abbrev pub Reused : UpdateFile → Store → Outcome (Option CachedAsset) → Store → Type 0
  Reused file st (failed f) st' = (st'.entries ≡ st.entries) × Wraps fetch (error_of f)
  Reused file st (got none) st' = st'.entries ≡ st.entries
  Reused file st (got (some h)) st' =
      (st'.entries ≡ st.entries)
      × (h ≡ record { digest = file.sha256; size = file.size })
      × IsSound file st'

  pub reuse-Reused :
      (R : Reader) (file : UpdateFile) (st : Store)
      → Reused file st (reuse R sha256 file st).0 (reuse R sha256 file st).1
  unfolding reuse
  reuse-Reused R file st = elim (Option-cases (fault st)) [
    | inr (m, e) ↦ rw (e, reuse) (refl, is-wrap fetch _ _)
    | inl e ↦ elim (Option-cases (st.entries file.sha256)) [
      | inl absent ↦ rw (e, absent, reuse) refl
      | inr (content, found) ↦ elim (Bool-cases (not (has_size file.size (length content)))) [
        | inl wrong ↦ rw (e, found, wrong, reuse) refl
        | inr right ↦ elim (Option-cases (fault (called st))) [
          | inr (m, e') ↦ rw (e, found, right, e', reuse) (refl, is-wrap fetch _ _)
          | inl e' ↦ elim (Bool-cases (not (text_eq (sha256 content) file.sha256))) [
            | inl corrupt ↦ rw (e, found, right, e', corrupt, reuse) refl
            | inr sound ↦
                rw (e, found, right, e', sound, reuse)
                  (
                    refl,
                    refl,
                    record {
                      content = content;
                      found = found;
                      right_digest =
                          (text_eq_iff (sha256 content) file.sha256).0 (ground (arith, sound));
                      right_size = ground (arith, right);
                    },
                  )
          ]
        ]
      ]
    ]
  ]
