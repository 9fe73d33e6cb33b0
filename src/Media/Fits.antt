-- ===== src/Media/Fits.antt =====
-- What `dscw_codec_dequeue` and `dscw_codec_statistics` write fits the output.
use dawnshell.Prelude.{
  ℕ, ◌-◌, ◌%◌, ◌^◌, ◌≤◌, ◌≡◌, inl, inr, Bool, true, false, ◌||◌, Option, arith, ltb, if◌then◌else◌,
  Bool-cases, Option-cases, length, length-append, length-take_le, is_negative, pos_part,
}
use dawnshell.Media.Cases.{Normalized-cases, Image?-cases}
use dawnshell.Media.Frame.{length-normalize_image}
use dawnshell.Media.Image.{normalize_image}
use dawnshell.Media.Input.{is_ok}
use dawnshell.Media.Ndk.{BufferInfo, Format, Image, Ndk}
use dawnshell.Media.Output.{buffer_bytes, record_size, copy_output, copy_checked}
use dawnshell.Media.Pending.{
  Taken, format_bytes, record_header, acquire_next_image, deliver_image, output_pending_image,
  render_image,
}
use dawnshell.Media.Session.{Session}
use dawnshell.Wire.Bytes.{put_u64}
use dawnshell.Wire.Laws.{length-put_u32}

length-record_header : (pts flags size : ℕ) → length (record_header pts flags size) ≡ 16
unfolding record_header put_u64
length-record_header pts flags size = simp length-put_u32

pub length-format_bytes :
    (i420 : Bool) (width height : ℕ) (format : Option Format)
    → length (format_bytes i420 width height format) ≡ 20
unfolding format_bytes
length-format_bytes i420 width height format = simp length-put_u32

pub if-le :
    {N : Ndk} (capacity : ℕ) (t : Bool) (x y : Taken N)
    → length x.bytes ≤ capacity
    → length y.bytes ≤ capacity
    → length (if t then x else y).bytes ≤ capacity
if-le capacity true x y h h' = h
if-le capacity false x y h h' = h'

module _ (N : Ndk) where
  open N use {World, Codec, Reader, release_output, output_buffer}

  deliver_image-Fits :
      (i : Image) (capacity : ℕ) (s : Session N) (w : World)
      → 20 ≤ capacity
      → length (deliver_image N i capacity s w).bytes ≤ capacity
  unfolding deliver_image
  deliver_image-Fits i capacity s w h =
      elim (Normalized-cases (normalize_image i (capacity - 16))) [
        | inl (status, text, e) ↦ rw (e, length) (omega (arith, h))
        | inr (bytes, e) ↦
            let (crop, _, _, fits) = length-normalize_image i (capacity - 16) bytes e in
            let size =
              length-append
                (record_header s.pending_image_pts s.pending_image_flags (length bytes % 2 ^ 32))
                bytes in
            let head =
              length-record_header s.pending_image_pts s.pending_image_flags
                (length bytes % 2 ^ 32) in
            rw (e, length) (omega (arith, h, fits, size, head))
      ]

  pub output_pending_image-Fits :
      (reader : Reader) (timeout_ms capacity : ℕ) (s : Session N) (w : World)
      → 20 ≤ capacity
      → length (output_pending_image N reader timeout_ms capacity s w).bytes ≤ capacity
  unfolding output_pending_image
  output_pending_image-Fits reader timeout_ms capacity s w h =
      let (w', result) = acquire_next_image N timeout_ms reader w in
      elim (Image?-cases result) [
        | inl (i, e) ↦ rw (e, length) (deliver_image-Fits i capacity s w' h)
        | inr (inl e) ↦ rw (e, length) (omega (arith, h))
        | inr (inr e) ↦ rw (e, length) (omega (arith, h))
      ]

  pub render_image-Fits :
      (codec : Codec) (reader : Reader) (index : ℕ) (info : BufferInfo) (timeout_ms capacity : ℕ)
      (s : Session N) (w : World)
      → 20 ≤ capacity
      → length (render_image N codec reader index info timeout_ms capacity s w).bytes ≤ capacity
  unfolding render_image
  render_image-Fits codec reader index info timeout_ms capacity s w h =
      let (w', status) = release_output codec index true w in
      if-le capacity (is_ok status) _ _
        (output_pending_image-Fits reader timeout_ms capacity _ w' h) (omega (arith, h))

  copy_output-Fits :
      (codec : Codec) (index : ℕ) (info : BufferInfo) (offset : ℕ) (s : Session N) (w : World)
      → length (copy_output N codec index info offset s w).bytes ≤ record_size N info.size
  unfolding copy_output
  copy_output-Fits codec index info offset s w =
      let (w1, source) = output_buffer codec index w in
      elim (Option-cases (buffer_bytes N source offset (pos_part info.size))) [
        | inl e ↦ rw (e, length) (omega arith)
        | inr (payload, e) ↦ rw (e, length) (length-take_le (record_size N info.size) _)
      ]

  pub copy_checked-Fits :
      (codec : Codec) (index : ℕ) (info : BufferInfo) (capacity : ℕ) (s : Session N) (w : World)
      → length (copy_checked N codec index info capacity s w).bytes ≤ capacity
  unfolding copy_checked
  copy_checked-Fits codec index info capacity s w =
      elim (Bool-cases (ltb capacity (record_size N info.size) || is_negative info.offset)) [
        | inl e ↦ rw (e, length) (omega arith)
        | inr e ↦
            let inside : record_size N info.size ≤ capacity = ground (arith, e) in
            rw (e, length)
              (omega (arith, inside, copy_output-Fits codec index info (pos_part info.offset) s w))
      ]
