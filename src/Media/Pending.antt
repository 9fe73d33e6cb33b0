-- ===== src/Media/Pending.antt =====
-- The image of a decoder as an output record: `acquire_image`, `output_pending_image` and the part of
-- `dequeue_internal` that renders one. Also the bytes of `format_record` and of a record's header.
use dawnshell.Prelude.{
  ℕ, zero, suc, ◌+◌, ◌-◌, ◌*◌, ◌%◌, ◌^◌, Bool, true, false, Option, none, some, List, [], ◌++◌, ltb,
  ◌==◌, if◌then◌else◌, codes, length, replicate, ℤ, to_u32,
}
use dawnshell.Media.Image.{refused, pixels, normalize_image}
use dawnshell.Media.Input.{is_ok}
use dawnshell.Media.Ndk.{BufferInfo, Format, Image, image, no_buffer, failed, Ndk}
use dawnshell.Media.Session.{again, Session, plus, Step, monotonic_ns, done, fail}
use dawnshell.Wire.Bytes.{put_u32, put_u64}
use dawnshell.Worker.Platform.{error_codec, codec_ok}

-- What an operation leaves: `bytes` are the `*output_length` bytes of the output.
pub record Taken (N : Ndk) : Type 0 where
  pub world : N.World
  pub session : Session N
  pub status : ℤ
  pub bytes : List ℕ
  pub message : Option (List ℕ)

abbrev pub take_nothing : {N : Ndk} → Step N → Taken N
take_nothing r = record {
  world = r.world;
  session = r.session;
  status = r.status;
  bytes = [];
  message = r.message;
}

-- A value that the format lacks stays as it was.
abbrev pub or_default : Option ℤ → ℕ → ℕ
or_default none n = n
or_default (some z) n = to_u32 z

abbrev pub no_format : Format
no_format = record { width = none; height = none; stride = none; slice_height = none }

abbrev pub format_values : Option Format → Format
format_values none = no_format
format_values (some f) = f

-- The 20 bytes of `format_record`: 0 for a bit stream and 1 for I420.
unfoldable pub format_bytes : Bool → ℕ → ℕ → Option Format → List ℕ
format_bytes i420 width height format =
    let f = format_values format in
    let b0 = put_u32 (replicate 20 0) 0 (or_default f.width width) in
    let b1 = put_u32 b0 4 (or_default f.height height) in
    let b2 = put_u32 b1 8 (or_default f.stride width) in
    let b3 = put_u32 b2 12 (or_default f.slice_height height) in
    put_u32 b3 16 (if i420 then 1 else 0)

-- The 16 bytes before the payload of a record.
unfoldable pub record_header : ℕ → ℕ → ℕ → List ℕ
record_header pts flags size = put_u32 (put_u32 (put_u64 (replicate 16 0) 0 pts) 8 flags) 12 size

pub data Image? : Type 0 where
  acquired : Image → Image?
  none_yet failed_to : Image?

module _ (N : Ndk) where
  open N use {World, Codec, Reader, usleep, release_output, acquire_image, delete_image}

  -- The loop of `acquire_image`, `fuel` rounds at most.
  unfoldable pub acquire_rounds : ℕ → ℕ → Reader → World → World × Image?
  acquire_rounds zero deadline reader w = (w, none_yet)
  acquire_rounds (suc fuel) deadline reader w =
      let (w1, result) = acquire_image reader w in
      elim result [
        | image i ↦ (w1, acquired i)
        | failed ↦ (w1, failed_to)
        | no_buffer ↦
            let (w2, now) = monotonic_ns N (usleep 1000 w1) in
            let rest = acquire_rounds fuel deadline reader w2 in
            if ltb now deadline then rest else (w2, none_yet)
      ]

  abbrev pub wait_ms : ℕ → ℕ
  wait_ms timeout_ms = if timeout_ms == 0 then 100 else timeout_ms

  -- A round sleeps for a millisecond, so that as many rounds as milliseconds are enough.
  unfoldable pub acquire_next_image : ℕ → Reader → World → World × Image?
  acquire_next_image timeout_ms reader w =
      let (w', now) = monotonic_ns N w in
      acquire_rounds (wait_ms timeout_ms) ((now + wait_ms timeout_ms * 1000000) % 2 ^ 64) reader w'

  unfoldable pub count_image : ℕ → Session N → Session N
  count_image size s =
      let c = s.counters in
      record s {
        pending_image = false;
        counters = record c {
          output_records = plus c.output_records 1;
          output_frames = plus c.output_frames 1;
          output_bytes = plus c.output_bytes size;
          cpu_yuv_frames = plus c.cpu_yuv_frames 1;
        };
      }

  unfoldable pub deliver_image : Image → ℕ → Session N → World → Taken N
  deliver_image i capacity s w = elim (normalize_image i (capacity - 16)) [
    | refused status text ↦ take_nothing (fail N (delete_image i w) s status text)
    | pixels bytes ↦ record {
      world = delete_image i w;
      session = count_image (length bytes) s;
      status = codec_ok;
      bytes =
          record_header s.pending_image_pts s.pending_image_flags (length bytes % 2 ^ 32) ++ bytes;
      message = none;
    }
  ]

  unfoldable pub output_pending_image : Reader → ℕ → ℕ → Session N → World → Taken N
  output_pending_image reader timeout_ms capacity s w =
      let (w', result) = acquire_next_image timeout_ms reader w in
      elim result [
        | acquired i ↦ deliver_image i capacity s w'
        | none_yet ↦ take_nothing (done N w' s again)
        | failed_to ↦ take_nothing (done N w' s error_codec)
      ]

  -- A buffer of a decoder: it is rendered, and its image is the output.
  unfoldable pub render_image :
      Codec → Reader → ℕ → BufferInfo → ℕ → ℕ → Session N → World → Taken N
  render_image codec reader index info timeout_ms capacity s w =
      let s' = record s {
        pending_image = true;
        pending_image_pts = info.presentation_time_us;
        pending_image_flags = info.flags;
      } in
      let (w', status) = release_output codec index true w in
      if is_ok status
      then output_pending_image reader timeout_ms capacity s' w'
      else take_nothing (
          fail N w' (record s' { pending_image = false }) error_codec
            (codes "could not render decoder image"))
