-- ===== src/Client/Picture.antt =====
-- The pictures of the client's encoder test: `convert_i420_for_encoder`.
use dawnshell.Prelude.{
  ℕ, zero, suc, ◌+◌, ◌*◌, ◌/◌, ◌&&◌, Option, none, some, List, [], ◌∷◌, ◌++◌, ◌==◌, ◌!=◌,
  if◌then◌else◌, get_or, take,
}

abbrev pub color_planar : ℕ
color_planar = 19

abbrev pub color_semiplanar : ℕ
color_semiplanar = 21

abbrev pub color_flexible : ℕ
color_flexible = 0x7f420888

-- The loop over the chroma samples, `left` of them from `index` on.
unfoldable pub interleave : ℕ → ℕ → ℕ → ℕ → List ℕ → List ℕ
interleave zero index y_size chroma_size i420 = []
interleave (suc left) index y_size chroma_size i420 =
    get_or i420 (y_size + index) 0
    ∷ get_or i420 (y_size + chroma_size + index) 0
    ∷ interleave left (index + 1) y_size chroma_size i420

-- The input for the encoder, `none` for a format that is not supported.
unfoldable pub convert_i420_for_encoder : ℕ → ℕ → ℕ → List ℕ → Option (List ℕ)
convert_i420_for_encoder color_format width height i420 =
    let y_size = width * height in
    let chroma_size = y_size / 4 in
    if color_format == color_semiplanar
    then some (take y_size i420 ++ interleave chroma_size 0 y_size chroma_size i420)
    else if color_format != color_planar && color_format != color_flexible
    then none
    else some i420
