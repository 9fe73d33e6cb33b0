-- ===== src/Media/Frame.antt =====
-- How long the frame is that `normalize_image` writes.
use mathlib.Core.Option.{some-injective}
use mathlib.Core.Path.{subst}
use native.Mathlib.Nat.{mul_comm, mul-mul-mul_comm}
use dawnshell.Prelude.{
  ℕ, ◌+◌, ◌*◌, ◌/◌, ◌%◌, ◌≤◌, ◌≡◌, refl, sym, ap, ◌∙◌, ◌≢◌, inl, inr, Bool, true, false, ◌&&◌, none,
  some, List, ◌++◌, arith, ◌!=◌, if◌then◌else◌, Option-cases, bind-some, if-cases, codes, length,
  length-append, ℤ, pos, negsuc, pos_part, ◌-ℤ◌, half,
}
use dawnshell.Media.Image.{
  refused, Normalized, pixels, yuv_420_888, equals, copy_rows, plane_of, copy_plane, append_plane,
  copy_planes, frame_fits, normalize_image,
}
use dawnshell.Media.Input.{is_positive}
use dawnshell.Media.Ndk.{CropRect, Plane, Image}
use dawnshell.Media.Pixels.{length-copy_rows}
use dawnshell.Worker.Platform.{error_unsupported, error_limit}

append_plane-pixels :
    (a b : Normalized) (out : List ℕ)
    → append_plane a b ≡ pixels out
    → (x : List ℕ) × (y : List ℕ) × (a ≡ pixels x) × (b ≡ pixels y) × (x ++ y ≡ out)
append_plane-pixels (refused status text) b out h = cc
append_plane-pixels (pixels x) (refused status text) out h = cc
append_plane-pixels (pixels x) (pixels y) out h = (x, y, refl, refl, cc)

last_true : (a b c : Bool) → (a && (b && c)) ≡ true → c ≡ true
last_true false b c h = cc
last_true true false c h = cc
last_true true true c h = h

plane_of-IsPositive :
    (i : Image) (index : ℕ) (p : Plane)
    → plane_of i index ≡ some p
    → is_positive p.pixel_stride ≡ true
unfolding plane_of
plane_of-IsPositive i index p h =
    let (q, e, h') = bind-some (i.plane index) _ p h in
    let test = length q.bytes != 0 && (is_positive q.row_stride && is_positive q.pixel_stride) in
    elim (if-cases test (some q) none (some p) h') [
      | inl (e', h'') ↦
          let positive : is_positive q.pixel_stride ≡ true =
            last_true (length q.bytes != 0) (is_positive q.row_stride) (is_positive q.pixel_stride)
              e' in
          subst (λ r. is_positive r.pixel_stride ≡ true) (some-injective q p h'') positive
      | inr (e', h'') ↦ cc
    ]

length-copy_plane :
    (i : Image) (index columns rows : ℕ) (top left : ℤ) (out : List ℕ)
    → columns ≢ 0
    → copy_plane i index columns rows top left ≡ pixels out
    → length out ≡ rows * columns
unfolding copy_plane
length-copy_plane i index columns rows top left out some_columns h =
    elim (Option-cases (plane_of i index)) [
      | inl e ↦ let h' = rw (e, copy_plane) at h in cc
      | inr (p, e) ↦ elim (Option-cases (copy_rows rows columns top left 0 p)) [
        | inl e' ↦ let h' = rw (e, e', copy_plane) at h in cc
        | inr (bytes, e') ↦
            let h' = rw (e, e', copy_plane) at h in
            let same_bytes : bytes ≡ out = cc in
            length-copy_rows rows columns 0 top left p out some_columns
              (plane_of-IsPositive i index p e) (e' ∙ ap some same_bytes)
      ]
    ]

doubles : (w h a b : ℕ) → w ≡ 2 * a → h ≡ 2 * b → w * h ≡ 4 * (b * a)
doubles w h a b e e' =
    ap (λ k. k * h) e
    ∙ ap (λ k. 2 * a * k) e'
    ∙ mul-mul-mul_comm 2 a 2 b
    ∙ ap (λ k. 4 * k) (mul_comm a b)

-- Three planes of sides that are positive and even.
frame_size :
    (w h : ℕ) → w % 2 ≡ 0 → h % 2 ≡ 0 → h * w + (h / 2 * (w / 2) + h / 2 * (w / 2)) ≡ w * h * 3 / 2
frame_size w h even_w even_h =
    let a = w / 2 in
    let b = h / 2 in
    let twice_w : w ≡ 2 * a = omega arith in
    let twice_h : h ≡ 2 * b = omega arith in
    let left_side : h * w ≡ 4 * (b * a) = mul_comm h w ∙ doubles w h a b twice_w twice_h in
    let right_side : w * h ≡ 4 * (b * a) = doubles w h a b twice_w twice_h in
    omega (arith, left_side, right_side)

length-copy_planes :
    (i : Image) (w h : ℕ) (crop : CropRect) (out : List ℕ)
    → w ≢ 0
    → w % 2 ≡ 0
    → h % 2 ≡ 0
    → copy_planes i w h crop ≡ pixels out
    → length out ≡ w * h * 3 / 2
unfolding copy_planes
length-copy_planes i w h crop out some_columns even_w even_h e =
    let y = copy_plane i 0 w h crop.top crop.left in
    let u = copy_plane i 1 (w / 2) (h / 2) (half crop.top) (half crop.left) in
    let v = copy_plane i 2 (w / 2) (h / 2) (half crop.top) (half crop.left) in
    let (ys, rest, ey, er, eo) = append_plane-pixels y (append_plane u v) out e in
    let (us, vs, eu, ev, es) = append_plane-pixels u v rest er in
    let half_columns : w / 2 ≢ 0 = λ z. some_columns (omega (arith, z)) in
    let ly = length-copy_plane i 0 w h crop.top crop.left ys some_columns ey in
    let lu =
      length-copy_plane i 1 (w / 2) (h / 2) (half crop.top) (half crop.left) us half_columns eu in
    let lv =
      length-copy_plane i 2 (w / 2) (h / 2) (half crop.top) (half crop.left) vs half_columns ev in
    let l1 = ap length (sym es) ∙ length-append us vs in
    let l2 = ap length (sym eo) ∙ length-append ys rest in
    let size = frame_size w h even_w even_h in omega (arith, ly, lu, lv, l1, l2, size)

pub normalize_image-frame :
    (i : Image) (capacity : ℕ) (out : List ℕ)
    → normalize_image i capacity ≡ pixels out
    → (crop : CropRect) × (i.crop ≡ some crop)
      × (frame_fits (crop.right -ℤ crop.left) (crop.bottom -ℤ crop.top) capacity ≡ true)
      × (copy_planes i
            (pos_part (crop.right -ℤ crop.left))
            (pos_part (crop.bottom -ℤ crop.top))
            crop
          ≡ pixels out)
unfolding normalize_image
normalize_image-frame i capacity out h = elim (Option-cases i.crop) [
  | inl e ↦ let h' = rw (e, normalize_image) at h in cc
  | inr (crop, e) ↦
      let h' = rw (e, normalize_image) at h in
      let width = crop.right -ℤ crop.left in
      let height = crop.bottom -ℤ crop.top in
      elim (if-cases (equals i.format yuv_420_888 && equals i.planes 3)
        (if frame_fits width height capacity
          then copy_planes i (pos_part width) (pos_part height) crop
          else refused error_limit (codes "decoder image crop exceeds output bounds"))
        (refused error_unsupported (codes "decoder image is not three-plane YUV_420_888"))
        (pixels out) h') [
          | inl (e1, h1) ↦
              elim (if-cases (frame_fits width height capacity)
                (copy_planes i (pos_part width) (pos_part height) crop)
                (refused error_limit (codes "decoder image crop exceeds output bounds"))
                (pixels out) h1) [ inl (e2, h2) ↦ (crop, e, e2, h2) | inr (e2, h2) ↦ cc ]
          | inr (e1, h1) ↦ cc
        ]
]

-- What `frame_fits` says.
frame_fits-bounds :
    (width height : ℤ) (capacity : ℕ)
    → frame_fits width height capacity ≡ true
    → (pos_part width ≢ 0)
      × (pos_part width % 2 ≡ 0)
      × (pos_part height % 2 ≡ 0)
      × (pos_part width * pos_part height * 3 / 2 ≤ capacity)
unfolding frame_fits
frame_fits-bounds (pos w) (pos h) capacity e = ground (arith, e)
frame_fits-bounds (negsuc w) (pos h) capacity e = cc
frame_fits-bounds (pos w) (negsuc h) capacity e = cc
frame_fits-bounds (negsuc w) (negsuc h) capacity e = cc

-- An image that is written out fits the capacity, and takes three bytes for every two pixels of its
-- crop.
pub length-normalize_image :
    (i : Image) (capacity : ℕ) (out : List ℕ)
    → normalize_image i capacity ≡ pixels out
    → (crop : CropRect) × (i.crop ≡ some crop)
      × (length out
          ≡ pos_part (crop.right -ℤ crop.left) * pos_part (crop.bottom -ℤ crop.top) * 3 / 2)
      × (length out ≤ capacity)
length-normalize_image i capacity out h =
    let (crop, e, e1, e2) = normalize_image-frame i capacity out h in
    let width = crop.right -ℤ crop.left in
    let height = crop.bottom -ℤ crop.top in
    let (some_columns, even_w, even_h, fits) = frame_fits-bounds width height capacity e1 in
    let size =
      length-copy_planes i (pos_part width) (pos_part height) crop out some_columns even_w even_h
        e2 in
    (crop, e, size, omega (arith, size, fits))
