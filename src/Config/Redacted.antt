-- ===== src/Config/Redacted.antt =====
-- `sanitizeYAMLMessage` of internal/config/load.go: what stands between quotes does not reach the
-- message, and the message is one line.
use incusos_builder.Base.{
  ℕ, zero, suc, ◌≡◌, refl, ap, ◌≢◌, ◌<◌, ◌⊎◌, inl, inr, true, false, Option, none, some, List, [],
  ◌∷◌, ◌++◌, ◌==◌, arith, All, Bool-cases,
}
use incusos_builder.Base.Text.{Text, join, push_head, text_eq, codes}
use incusos_builder.Config.Message.{
  is_quote, next_quote, written, without_literals, space_width, segments, non_empty, fields,
  sanitize_yaml_message,
}

-- A byte that is no quote.
abbrev pub IsUnquoted : ℕ → Type 0
IsUnquoted c = (c ≢ b'"') × (c ≢ b'`')

-- Two messages that are alike outside of their quoted literals. A literal starts at a double quote or a
-- backtick and ends at the next byte that is the same as it started with. The argument is that byte
-- inside of a literal; inside, the messages may have any other bytes.
pub data Alike : Option ℕ → Text → Text → Type 0 where
  end : {q : Option ℕ} → Alike q [] []
  shown : {c : ℕ} {s t : Text} → IsUnquoted c → Alike none s t → Alike none (c ∷ s) (c ∷ t)
  opened :
      {c : ℕ} {s t : Text}
      → (c ≡ b'"') ⊎ (c ≡ b'`')
      → Alike (some c) s t
      → Alike none (c ∷ s) (c ∷ t)
  closed : {q : ℕ} {s t : Text} → Alike none s t → Alike (some q) (q ∷ s) (q ∷ t)
  hidden_left : {q c : ℕ} {s t : Text} → c ≢ q → Alike (some q) s t → Alike (some q) (c ∷ s) t
  hidden_right : {q c : ℕ} {s t : Text} → c ≢ q → Alike (some q) s t → Alike (some q) s (c ∷ t)

shown_byte : (c : ℕ) → IsUnquoted c → is_quote c ≡ false
shown_byte c u = elim (Bool-cases (is_quote c)) [
  | inl e ↦ elim (Bool-cases (c == b'"')) [
    | inl f ↦ absurd (u.0 (ground arith))
    | inr f ↦ absurd (u.1 (ground arith))
  ]
  | inr e ↦ e
]

opening_byte : (c : ℕ) → (c ≡ b'"') ⊎ (c ≡ b'`') → is_quote c ≡ true
opening_byte c (inl e) = ground arith
opening_byte c (inr e) = ground arith

other_byte : (q c : ℕ) → c ≢ q → (c == q) ≡ false
other_byte q c n = elim (Bool-cases (c == q)) [ inl e ↦ absurd (n (ground arith)) | inr e ↦ e ]

same_byte : (q : ℕ) → (q == q) ≡ true
same_byte q = ground arith

without_literals-Alike :
    {q : Option ℕ} {s t : Text} → Alike q s t → without_literals q s ≡ without_literals q t
unfolding without_literals written next_quote
without_literals-Alike end = refl
without_literals-Alike (shown {c} u a) =
    rw (shown_byte c u) (ap (λ r. c ∷ r) (without_literals-Alike a))
without_literals-Alike (opened {c} h a) = rw (opening_byte c h) (without_literals-Alike a)
without_literals-Alike (closed {q} a) =
    rw (same_byte q) (ap (λ r. codes "<value>" ++ r) (without_literals-Alike a))
without_literals-Alike (hidden_left {q} {c} n a) = rw (other_byte q c n) (without_literals-Alike a)
without_literals-Alike (hidden_right {q} {c} n a) = rw (other_byte q c n) (without_literals-Alike a)

-- A sanitised message says nothing of what its literals hold: two diagnostics that are alike outside of
-- their literals give the same message. A literal starts at a double quote or a backtick and ends at the
-- next one of its kind; so it holds none of its own kind, whatever else it holds, and a value with a quote of the
-- kind that stands around it is more than one literal.
pub sanitize_yaml_message-Alike :
    (s t : Text) → Alike none s t → sanitize_yaml_message s ≡ sanitize_yaml_message t
unfolding sanitize_yaml_message
sanitize_yaml_message-Alike s t a = ap (λ r. join (32 ∷ []) (fields r)) (without_literals-Alike a)

-- A byte that is no quote, tab, line break or other ASCII white space but a space.
abbrev pub IsShown : ℕ → Type 0
IsShown c = (c ≢ b'"') × (c ≢ b'`') × ((c < 9) ⊎ (13 < c))

All-append : (P : ℕ → Type 0) (xs ys : Text) → All P xs → All P ys → All P (xs ++ ys)
All-append P [] ys h k = k
All-append P (x ∷ xs) ys h k = (h.0, All-append P xs ys h.1 k)

written-All : (q : Option ℕ) (c : ℕ) → All IsUnquoted (written q c)
unfolding written
written-All none c = elim (Bool-cases (is_quote c)) [
  | inl e ↦ rw e tt
  | inr e ↦ rw e ((λ h. ground arith, λ h. ground arith), tt)
]
written-All (some q) c = elim (Bool-cases (c == q)) [ inl e ↦ rw e (omega arith) | inr e ↦ rw e tt ]

without_literals-All : (q : Option ℕ) (s : Text) → All IsUnquoted (without_literals q s)
unfolding without_literals
without_literals-All q [] = tt
without_literals-All q (c ∷ s) =
    All-append IsUnquoted (written q c) _ (written-All q c)
      (without_literals-All (next_quote q c) s)

byte-IsShown : (c : ℕ) (s : Text) → space_width (c ∷ s) ≡ 0 → IsUnquoted c → IsShown c
unfolding space_width
byte-IsShown c s h u = (u.0, u.1, ground arith)

ℕ-cases : (n : ℕ) → (n ≡ 0) ⊎ ((m : ℕ) × (n ≡ suc m))
ℕ-cases zero = inl refl
ℕ-cases (suc m) = inr (m, refl)

push_head-All :
    (c : ℕ) (xs : List Text) → IsShown c → All (All IsShown) xs → All (All IsShown) (push_head c xs)
push_head-All c [] h k = ((h, tt), tt)
push_head-All c (x ∷ xs) h k = ((h, k.0), k.1)

segments-All : (k : ℕ) (s : Text) → All IsUnquoted s → All (All IsShown) (segments k s)
unfolding segments
segments-All zero [] h = (tt, tt)
segments-All (suc k) [] h = (tt, tt)
segments-All (suc k) (c ∷ s) h = segments-All k s h.1
segments-All zero (c ∷ s) h = elim (ℕ-cases (space_width (c ∷ s))) [
  | inl e ↦ rw (e, segments) (push_head-All c _ (byte-IsShown c s e h.0) (segments-All zero s h.1))
  | inr (k, e) ↦ rw (e, segments) (tt, segments-All k s h.1)
]

non_empty-All : (xs : List Text) → All (All IsShown) xs → All (All IsShown) (non_empty xs)
unfolding non_empty
non_empty-All [] h = tt
non_empty-All (x ∷ xs) h = elim (Bool-cases (text_eq x [])) [
  | inl e ↦ rw e (non_empty-All xs h.1)
  | inr e ↦ rw e (h.0, non_empty-All xs h.1)
]

join-All : (xs : List Text) → All (All IsShown) xs → All IsShown (join (32 ∷ []) xs)
unfolding join
join-All [] h = tt
join-All (x ∷ []) h = h.0
join-All (x ∷ y ∷ xs) h = All-append IsShown x _ h.0 (omega arith, join-All (y ∷ xs) h.1)

-- A sanitised message has no quotes, tabs, line breaks or other ASCII white space but spaces.
pub sanitize_yaml_message-IsShown : (s : Text) → All IsShown (sanitize_yaml_message s)
unfolding sanitize_yaml_message fields
sanitize_yaml_message-IsShown s =
    join-All _ (non_empty-All _ (segments-All zero _ (without_literals-All none s)))
