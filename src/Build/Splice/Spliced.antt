-- ===== src/Build/Splice/Spliced.antt =====
-- The image that `splice` is to write: the base image with the seed tar in the place of as many
-- bytes; its prefixes, and what an outcome has to satisfy.
use incusos_builder.Base.{
  ℕ, zero, suc, ◌+◌, ◌≤◌, ◌≡◌, refl, ◌∙◌, ap, Option, none, List, [], ◌∷◌, ◌++◌, length,
  length-append, length-drop, length-take, take, drop, take-append_left, take-append_right, arith,
}
use incusos_builder.Errdefs.{Error}
use incusos_builder.Build.Splice.Loops.{IsIoFailure}

-- The image that `splice` is to write.
pub spliced : ℕ → List ℕ → List ℕ → List ℕ
spliced offset tar image = take offset image ++ (tar ++ drop (offset + length tar) image)

take-take : (k n : ℕ) (xs : List ℕ) → k ≤ n → take k (take n xs) ≡ take k xs
take-take zero n xs h = refl
take-take (suc k) zero xs h = absurd (omega arith)
take-take (suc k) (suc n) [] h = refl
take-take (suc k) (suc n) (x ∷ xs) h = ap (λ t. x ∷ t) (take-take k n xs (omega arith))

-- A prefix of the spliced image that ends before the offset, in the tar, and behind it.
pub prefix_image :
    (k offset : ℕ) (tar image : List ℕ)
    → k ≤ offset
    → k ≤ length image
    → take k (spliced offset tar image) ≡ take k image
unfolding spliced
prefix_image k offset tar image h h' =
    take-append_left k (take offset image) _ (omega (arith, length-take offset image))
    ∙ take-take k offset image h

pub prefix_tar :
    (m offset : ℕ) (tar image : List ℕ)
    → offset ≤ length image
    → m ≤ length tar
    → take (offset + m) (spliced offset tar image) ≡ take offset image ++ take m tar
unfolding spliced
prefix_tar m offset tar image h h' =
    let e : length (take offset image) ≡ offset = omega (arith, length-take offset image) in
    rw e at (take-append_right m (take offset image) (tar ++ drop (offset + length tar) image))
    ∙ ap (λ t. take offset image ++ t) (take-append_left m tar _ h')

pub prefix_rest :
    (q offset : ℕ) (tar image : List ℕ)
    → offset ≤ length image
    → take (offset + length tar + q) (spliced offset tar image)
      ≡ take offset image ++ (tar ++ take q (drop (offset + length tar) image))
unfolding spliced
prefix_rest q offset tar image h =
    let e : length (take offset image) ≡ offset = omega (arith, length-take offset image) in
    let e' : offset + length tar + q ≡ offset + (length tar + q) = omega arith in
    rw e' (
      rw e at (
        take-append_right (length tar + q) (take offset image)
          (tar ++ drop (offset + length tar) image))
      ∙ ap (λ t. take offset image ++ t) (take-append_right q tar _))

pub length-spliced :
    (offset : ℕ) (tar image : List ℕ)
    → offset + length tar ≤ length image
    → length (spliced offset tar image) ≡ length image
unfolding spliced
length-spliced offset tar image h = omega (
  arith,
  length-append (take offset image) (tar ++ drop (offset + length tar) image),
  length-append tar (drop (offset + length tar) image),
  length-take offset image,
  length-drop (offset + length tar) image,
)

-- What has been written when `splice` returns, from what was written `before`: `n` bytes, which are
-- a prefix of the spliced image, and all of it if there is no error.
pub record IsSplice (offset : ℕ) (tar image before : List ℕ) (n : ℕ) (e : Option Error)
    (after : List ℕ) : Type 0 where
  pub prefix : after ≡ before ++ take n (spliced offset tar image)
  pub failing : IsIoFailure e
  pub whole :
      e ≡ none
      → (offset + length tar ≤ length image)
        × (n ≡ length image)
        × (after ≡ before ++ spliced offset tar image)
