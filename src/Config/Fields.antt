-- ===== src/Config/Fields.antt =====
-- `parseUnknownField` and `fieldPath` of internal/config/load.go: the field and the type of a
-- diagnostic are found again, and the field is named by its path.
use incusos_builder.Base.{
  ℕ, ◌≡◌, refl, ap, sym, ◌∙◌, ◌≢◌, inl, inr, true, false, not, ◌||◌, Option, none, some, [], ◌∷◌,
  ◌++◌, all, length, drop, ◌==◌, arith, Bool-cases, Option-cases,
}
use incusos_builder.Base.Text.{Text, has_prefix, text_eq, text_eq_iff}
use incusos_builder.Config.Message.{
  unknown_prefix, unknown_mid, in_front, cut, cut_prefix, both_named, field_and_type,
  parse_unknown_field,
}

-- The diagnostic of the YAML library on a field that a type does not have.
abbrev pub diagnostic : Text → Text → Text
diagnostic field type_name = unknown_prefix ++ (field ++ (unknown_mid ++ type_name))

has_prefix-append : (p s : Text) → has_prefix (p ++ s) p ≡ true
unfolding has_prefix
has_prefix-append [] [] = refl
has_prefix-append [] (d ∷ s) = refl
has_prefix-append (c ∷ p) s = ground (arith, has_prefix-append p s)

drop-length_append : (p s : Text) → drop (length p) (p ++ s) ≡ s
drop-length_append [] s = refl
drop-length_append (c ∷ p) s = drop-length_append p s

cut_prefix-append : (p s : Text) → cut_prefix p (p ++ s) ≡ some s
unfolding cut_prefix
cut_prefix-append p s = rw (has_prefix-append p s) (ap (λ t. some t) (drop-length_append p s))

-- The separator starts with a space, so it is not found within a field that has none.
no_match : (c : ℕ) (s : Text) → (c == 32) ≡ false → has_prefix (c ∷ s) unknown_mid ≡ false
unfolding has_prefix
no_match c s h = rw h refl

cut-at_mid :
    (field t : Text)
    → all (λ c. not (c == 32)) field ≡ true
    → cut unknown_mid (field ++ (unknown_mid ++ t)) ≡ some (field, t)
unfolding cut
cut-at_mid [] t h =
    rw (has_prefix-append unknown_mid t) (ap (λ r. some ([], r)) (drop-length_append unknown_mid t))
cut-at_mid (c ∷ field) t h =
    rw (no_match c (field ++ (unknown_mid ++ t)) (ground arith))
      (rw (cut-at_mid field t (ground arith)) refl)

-- A diagnostic on a field without spaces is taken apart into the field and the type.
pub parse_unknown_field-diagnostic :
    (field type_name : Text)
    → all (λ c. not (c == 32)) field ≡ true
    → field ≢ []
    → type_name ≢ []
    → parse_unknown_field (diagnostic field type_name) ≡ some (field, type_name)
unfolding parse_unknown_field field_and_type both_named
parse_unknown_field-diagnostic field type_name h f t =
    rw (cut_prefix-append unknown_prefix (field ++ (unknown_mid ++ type_name))) (
      rw (cut-at_mid field type_name h)
        (ground (arith, text_eq_iff field [], text_eq_iff type_name [], f, t)))

prefix_split : (s p : Text) → has_prefix s p ≡ true → s ≡ p ++ drop (length p) s
unfolding has_prefix
prefix_split [] [] h = refl
prefix_split (c ∷ s) [] h = refl
prefix_split [] (d ∷ p) h = cc
prefix_split (c ∷ s) (d ∷ p) h =
    let same : c ≡ d = ground arith in
    let rest : s ≡ p ++ drop (length p) s = prefix_split s p (ground arith) in cc

in_front_inv :
    (c : ℕ) (o : Option (Text × Text)) (a b : Text)
    → in_front c o ≡ some (a, b)
    → (a' : Text) × (o ≡ some (a', b)) × (a ≡ c ∷ a')
in_front_inv c none a b h = cc
in_front_inv c (some (x, y)) a b h = (x, cc, cc)

cut_sound : (sep s a b : Text) → cut sep s ≡ some (a, b) → s ≡ a ++ (sep ++ b)
unfolding cut
cut_sound sep [] a b h = cc
cut_sound sep (c ∷ s) a b h = elim (Bool-cases (has_prefix (c ∷ s) sep)) [
  | inl e ↦
      let found : some ([], drop (length sep) (c ∷ s)) ≡ some (a, b) = rw e at h in
      let before : [] ≡ a = cc found in
      let after : drop (length sep) (c ∷ s) ≡ b = cc found in
      prefix_split (c ∷ s) sep e ∙ ap (λ t. sep ++ t) after ∙ ap (λ t. t ++ (sep ++ b)) before
  | inr e ↦
      let (a', later, front) = in_front_inv c (cut sep s) a b (rw e at h) in
      ap (λ t. c ∷ t) (cut_sound sep s a' b later) ∙ ap (λ t. t ++ (sep ++ b)) (sym front)
]

cut_prefix_sound : (p s rest : Text) → cut_prefix p s ≡ some rest → s ≡ p ++ rest
unfolding cut_prefix
cut_prefix_sound p s rest h = elim (Bool-cases (has_prefix s p)) [
  | inl e ↦ prefix_split s p e ∙ ap (λ t. p ++ t) (cc (rw e at h))
  | inr e ↦ cc (rw e at h)
]

both_named_inv : (o : Option (Text × Text)) (p : Text × Text) → both_named o ≡ some p → o ≡ some p
unfolding both_named
both_named_inv none p h = cc
both_named_inv (some (f, t)) p h = elim (Bool-cases (text_eq f [] || text_eq t [])) [
  | inl e ↦ cc (rw e at h)
  | inr e ↦ rw e at h
]

-- A field and a type are found only in the diagnostic on that field and type.
pub parse_unknown_field_sound :
    (message field type_name : Text)
    → parse_unknown_field message ≡ some (field, type_name)
    → message ≡ diagnostic field type_name
unfolding parse_unknown_field field_and_type
parse_unknown_field_sound message field type_name h =
    elim (Option-cases (cut_prefix unknown_prefix message)) [
      | inl e ↦ cc (rw e at h)
      | inr (rest, e) ↦
          cut_prefix_sound unknown_prefix message rest e
          ∙ ap (λ t. unknown_prefix ++ t)
              (cut_sound unknown_mid rest field type_name (both_named_inv _ _ (rw e at h)))
    ]
