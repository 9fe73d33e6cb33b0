-- ===== src/Media/Image.antt =====
-- `normalize_image`: the pixels of a decoded image, as the three planes of I420. The coordinates are
-- those of `int32_t`, and their differences do not overflow.
use dawnshell.Prelude.{
  ℕ, zero, suc, ◌+◌, ◌*◌, ◌/◌, ◌%◌, Bool, false, not, ◌&&◌, ◌||◌, Option, none, some, List, [], ◌∷◌,
  ◌++◌, leb, ◌==◌, ◌!=◌, if◌then◌else◌, ◌>>=◌, decimal, codes, length, get_or, take, drop, ℤ, pos,
  is_negative, pos_part, ◌+ℤ◌, ◌-ℤ◌, ◌*ℤ◌, ltb_ℤ, half,
}
use dawnshell.Media.Input.{is_positive}
use dawnshell.Media.Ndk.{CropRect, Plane, Image}
use dawnshell.Worker.Platform.{error_unsupported, error_limit, error_codec}

-- The bytes that are written to `output`, `*length` of them, or the status and the text of `error`.
pub data Normalized : Type 0 where
  pixels : List ℕ → Normalized
  refused : ℤ → List ℕ → Normalized

-- `AIMAGE_FORMAT_YUV_420_888`.
abbrev pub yuv_420_888 : ℕ
yuv_420_888 = 0x23

abbrev pub equals : Option ℤ → ℕ → Bool
equals (some (pos n)) k = n == k
equals _ k = false

-- Every `stride`-th byte, `columns` of them.
unfoldable pub copy_columns : ℕ → ℕ → ℕ → List ℕ → List ℕ
copy_columns zero first stride bytes = []
copy_columns (suc columns) first stride bytes =
    get_or bytes first 0 ∷ copy_columns columns (first + stride) stride bytes

-- One row, with the branch for `memcpy`.
unfoldable pub copy_row : ℕ → ℕ → ℕ → List ℕ → List ℕ
copy_row columns first stride bytes =
    if stride == 1 then take columns (drop first bytes) else copy_columns columns first stride bytes

-- `first` and `last` of a row, `none` where the check refuses them.
unfoldable pub row_start : ℕ → ℤ → ℤ → ℕ → Plane → Option ℕ
row_start columns top left row p =
    let first = (top +ℤ pos row) *ℤ p.row_stride +ℤ left *ℤ p.pixel_stride in
    let last = first +ℤ (pos columns -ℤ pos 1) *ℤ p.pixel_stride in
    if is_negative first || (ltb_ℤ last first || not (ltb_ℤ last (pos (length p.bytes))))
    then none
    else some (pos_part first)

-- The loop over the rows, with `rows` of them left.
unfoldable pub copy_rows : ℕ → ℕ → ℤ → ℤ → ℕ → Plane → Option (List ℕ)
copy_rows zero columns top left row p = some []
copy_rows (suc rows) columns top left row p = do
  first ← row_start columns top left row p
  rest ← copy_rows rows columns top left (row + 1) p
  some (copy_row columns first (pos_part p.pixel_stride) p.bytes ++ rest)

-- A plane whose data, length or strides are of no use is refused.
unfoldable pub plane_of : Image → ℕ → Option Plane
plane_of i index = do
  p ← i.plane index
  (if length p.bytes != 0 && (is_positive p.row_stride && is_positive p.pixel_stride)
      then some p
      else none)

-- One round of the loop over the planes: `shift` is 0 for the first plane and 1 for the others.
unfoldable pub copy_plane : Image → ℕ → ℕ → ℕ → ℤ → ℤ → Normalized
copy_plane i index columns rows top left = elim (plane_of i index) [
  | none ↦ refused error_codec (codes "could not map decoder YUV plane " ++ decimal index)
  | some p ↦ elim (copy_rows rows columns top left 0 p) [
    | none ↦ refused error_codec (codes "decoder YUV plane bounds are invalid")
    | some bytes ↦ pixels bytes
  ]
]

-- What is written behind what was written before.
abbrev pub append_plane : Normalized → Normalized → Normalized
append_plane (refused status text) after = refused status text
append_plane (pixels bytes) (refused status text) = refused status text
append_plane (pixels bytes) (pixels more) = pixels (bytes ++ more)

unfoldable pub copy_planes : Image → ℕ → ℕ → CropRect → Normalized
copy_planes i width height crop = append_plane (copy_plane i 0 width height crop.top crop.left) (
    append_plane (copy_plane i 1 (width / 2) (height / 2) (half crop.top) (half crop.left))
      (copy_plane i 2 (width / 2) (height / 2) (half crop.top) (half crop.left)))

-- Both sides are positive and even, and the frame fits.
unfoldable pub frame_fits : ℤ → ℤ → ℕ → Bool
frame_fits (pos width) (pos height) capacity =
    width != 0
    && (height != 0
        && (width % 2 == 0 && (height % 2 == 0 && leb (width * height * 3 / 2) capacity)))
frame_fits _ _ capacity = false

unfoldable pub normalize_image : Image → ℕ → Normalized
normalize_image i capacity = elim i.crop [
  | none ↦ refused error_unsupported (codes "decoder image is not three-plane YUV_420_888")
  | some crop ↦
      if equals i.format yuv_420_888 && equals i.planes 3
      then (let width = crop.right -ℤ crop.left in
          let height = crop.bottom -ℤ crop.top in
          if frame_fits width height capacity
          then copy_planes i (pos_part width) (pos_part height) crop
          else refused error_limit (codes "decoder image crop exceeds output bounds"))
      else refused error_unsupported (codes "decoder image is not three-plane YUV_420_888")
]
