-- ===== src/Client/Interleaved.antt =====
-- The picture that the client converts for an encoder.
use mathlib.Core.Option.{some-injective}
use dawnshell.Prelude.{
  ℕ, zero, suc, ◌+◌, ◌*◌, ◌/◌, ◌≤◌, ◌<◌, ◌≡◌, refl, sym, ap, ◌∙◌, some, List, [], ◌∷◌, ◌++◌, arith,
  length, get_or, take, length-take, get_or-append_left, get_or-append_right,
}
use dawnshell.Client.Picture.{color_semiplanar, interleave, convert_i420_for_encoder}

get_or-interleave_even :
    (left index y_size chroma_size i : ℕ) (i420 : List ℕ)
    → i < left
    → get_or (interleave left index y_size chroma_size i420) (2 * i) 0
      ≡ get_or i420 (y_size + (index + i)) 0
unfolding interleave
get_or-interleave_even zero index y_size chroma_size i i420 h = absurd (omega (arith, h))
get_or-interleave_even (suc left) index y_size chroma_size zero i420 h =
    ap (λ k. get_or i420 (y_size + k) 0) (omega arith)
get_or-interleave_even (suc left) index y_size chroma_size (suc i) i420 h =
    let double : 2 * suc i ≡ suc (suc (2 * i)) = omega arith in
    let next : index + 1 + i ≡ index + suc i = omega arith in
    rw double (
      get_or-interleave_even left (index + 1) y_size chroma_size i i420 (omega (arith, h))
      ∙ ap (λ k. get_or i420 (y_size + k) 0) next)

get_or-interleave_odd :
    (left index y_size chroma_size i : ℕ) (i420 : List ℕ)
    → i < left
    → get_or (interleave left index y_size chroma_size i420) (2 * i + 1) 0
      ≡ get_or i420 (y_size + chroma_size + (index + i)) 0
unfolding interleave
get_or-interleave_odd zero index y_size chroma_size i i420 h = absurd (omega (arith, h))
get_or-interleave_odd (suc left) index y_size chroma_size zero i420 h =
    ap (λ k. get_or i420 (y_size + chroma_size + k) 0) (omega arith)
get_or-interleave_odd (suc left) index y_size chroma_size (suc i) i420 h =
    let double : 2 * suc i + 1 ≡ suc (suc (2 * i + 1)) = omega arith in
    let next : index + 1 + i ≡ index + suc i = omega arith in
    rw double (
      get_or-interleave_odd left (index + 1) y_size chroma_size i i420 (omega (arith, h))
      ∙ ap (λ k. get_or i420 (y_size + chroma_size + k) 0) next)

get_or-take : (n i : ℕ) (xs : List ℕ) → i < n → get_or (take n xs) i 0 ≡ get_or xs i 0
get_or-take zero i xs h = absurd (omega (arith, h))
get_or-take (suc n) i [] h = refl
get_or-take (suc n) zero (x ∷ xs) h = refl
get_or-take (suc n) (suc i) (x ∷ xs) h = get_or-take n i xs (omega (arith, h))

-- For a semi-planar encoder, a picture whose luma plane is there keeps it, and behind it the samples
-- of the two chroma planes take turns.
pub convert_i420_for_encoder-semiplanar :
    (width height j i : ℕ) (i420 out : List ℕ)
    → width * height ≤ length i420
    → j < width * height
    → i < width * height / 4
    → convert_i420_for_encoder color_semiplanar width height i420 ≡ some out
    → (get_or out j 0 ≡ get_or i420 j 0)
      × (get_or out (width * height + 2 * i) 0 ≡ get_or i420 (width * height + i) 0)
      × (get_or out (width * height + (2 * i + 1)) 0
          ≡ get_or i420 (width * height + width * height / 4 + i) 0)
unfolding convert_i420_for_encoder
convert_i420_for_encoder-semiplanar width height j i i420 out whole in_luma in_chroma h =
    let y_size = width * height in
    let chroma_size = y_size / 4 in
    let luma = take y_size i420 in
    let chroma = interleave chroma_size 0 y_size chroma_size i420 in
    let same : luma ++ chroma ≡ out = some-injective (luma ++ chroma) out h in
    let size : length luma ≡ y_size = length-take y_size i420 ∙ omega (arith, whole) in
    let behind : (k : ℕ) → get_or out (y_size + k) 0 ≡ get_or chroma k 0 = λ k.
      ap (λ t. get_or t (y_size + k) 0) (sym same)
      ∙ ap (λ n. get_or (luma ++ chroma) (n + k) 0) (sym size)
      ∙ get_or-append_right luma chroma k in
    (
      ap (λ t. get_or t j 0) (sym same)
          ∙ get_or-append_left luma chroma j (omega (arith, size, in_luma))
          ∙ get_or-take y_size j i420 in_luma,
      behind (2 * i)
          ∙ get_or-interleave_even chroma_size 0 y_size chroma_size i i420 in_chroma
          ∙ ap (λ k. get_or i420 (y_size + k) 0) (omega arith),
      behind (2 * i + 1)
          ∙ get_or-interleave_odd chroma_size 0 y_size chroma_size i i420 in_chroma
          ∙ ap (λ k. get_or i420 (y_size + chroma_size + k) 0) (omega arith),
    )
