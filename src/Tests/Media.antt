-- ===== src/Tests/Media.antt =====
-- The theorems on codec sessions, with a small codec library.
use Prim.Native.Nat.{min}
use dawnshell.Prelude.{
  ℕ, zero, suc, ◌+◌, ◌-◌, ◌*◌, ◌/◌, ◌^◌, ◌≤◌, ◌<◌, ◌≡◌, refl, ◌≢◌, Bool, true, false, Option, none,
  some, List, [], ◌∷◌, arith, length, get_or, pos, pos_part, ◌+ℤ◌, ◌-ℤ◌, ◌*ℤ◌,
}
use dawnshell.Media.Capacity.{dscw_codec_dequeue-Fits}
use dawnshell.Media.Control.{drain_rounds}
use dawnshell.Media.Frame.{length-normalize_image}
use dawnshell.Media.Image.{
  pixels, copy_columns, copy_row, row_start, copy_rows, plane_of, copy_plane, copy_planes,
  frame_fits, normalize_image,
}
use dawnshell.Media.Increasing.{accepted_by-IsIncreasing}
use dawnshell.Media.Input.{
  is_ok, pump_transcoder, count_input, input_error, queue_buffer, queue_next, queue_internal,
  count_status, dscw_codec_queue, queue_eos_buffer, queue_eos_next, dscw_codec_queue_eos,
}
use dawnshell.Media.Ndk.{
  BufferInfo, buffer, CropRect, Plane, Image, Acquired, image, no_buffer, Ndk,
}
use dawnshell.Media.Order.{accepted_by-closed}
use dawnshell.Media.Output.{
  count_output, buffer_bytes, record_size, copy_output, copy_checked, output_buffer_at,
  dequeue_rounds, dequeue_internal, count_output_status, dscw_codec_dequeue,
}
use dawnshell.Media.Pending.{acquire_rounds, acquire_next_image}
use dawnshell.Media.Pixels.{get_or-copy_rows}
use dawnshell.Media.Rows.{copy_row-copy_columns}
use dawnshell.Media.Run.{
  Operation, queue_record, end_stream, take_output, accepted_by, IsIncreasing,
}
use dawnshell.Media.Session.{
  LatencyCounters, Counters, encoder, Session, nanoseconds, monotonic_ns, record_latency,
}
use dawnshell.Media.Waiting.{is_image, IsTicking, acquire_next_image-ends, drain_rounds-IsDrained}

-- The time in nanoseconds, and the images that the reader can still give.
abbrev Device : Type 0
Device = ℕ × ℕ

-- A 2 by 2 frame whose chroma planes share their bytes.
abbrev luma : Plane
luma = record { bytes = 1 ∷ 2 ∷ 9 ∷ 3 ∷ 4 ∷ 9 ∷ []; row_stride = pos 3; pixel_stride = pos 1 }

abbrev chroma : Plane
chroma = record { bytes = 5 ∷ 6 ∷ 7 ∷ 8 ∷ []; row_stride = pos 4; pixel_stride = pos 2 }

abbrev plane_at : ℕ → Option Plane
plane_at zero = some luma
plane_at (suc n) = some chroma

abbrev small_crop : CropRect
small_crop = record { left = pos 0; top = pos 0; right = pos 2; bottom = pos 2 }

abbrev small_image : Image
small_image = record {
  format = some (pos 0x23);
  planes = some (pos 3);
  crop = some small_crop;
  plane = plane_at;
}

abbrev clock : Device → Device × Option (ℕ × ℕ)
clock w = (w, some (0, min w.0 (2 ^ 64 - 1)))

abbrev next_image : ℕ → Device → Device × Acquired
next_image reader (t, zero) = ((t, 0), no_buffer)
next_image reader (t, suc n) = ((t, suc n), image small_image)

abbrev packet : BufferInfo
packet = record { offset = pos 1; size = pos 2; presentation_time_us = 40; flags = 0 }

abbrev device : Ndk
device = record {
  World = Device;
  Codec = ℕ;
  Reader = ℕ;
  Surface = ℕ;
  clock_monotonic = clock;
  clock_cputime = clock;
  usleep = λ us w. (w.0 + us * 1000, w.1);
  dequeue_input = λ c timeout w. (w, some 0);
  input_capacity = λ c i w. (w, some 64);
  queue_input = λ c i bytes pts flags w. (w, pos 0);
  dequeue_output = λ c timeout w. (w, buffer 0 packet);
  output_buffer = λ c i w. (w, some (7 ∷ 8 ∷ 9 ∷ []));
  release_output = λ c i render w. (w, pos 0);
  output_format = λ c w. (w, none);
  flush = λ c w. (w, pos 0);
  stop_delete = λ c w. w;
  signal_input_eos = none;
  new_format = λ w. (w, true);
  set_parameters = none;
  acquire_image = next_image;
  delete_image = λ i w. (w.0, w.1 - 1);
  delete_reader = λ r w. w;
  release_surface = λ s w. w;
}

abbrev no_latency : LatencyCounters
no_latency = record { samples = 0; total_us = 0; max_us = 0 }

abbrev no_counters : Counters
no_counters = record {
  input_records = 0;
  input_frames = 0;
  input_bytes = 0;
  input_eos_count = 0;
  output_records = 0;
  output_frames = 0;
  output_bytes = 0;
  output_eos_count = 0;
  cpu_yuv_frames = 0;
  surface_frames = 0;
  input_again = 0;
  output_again = 0;
  errors = 0;
  format_changes = 0;
  input_latency = no_latency;
  output_latency = no_latency;
}

abbrev encoding : Bool → Session device
encoding ended = record {
  pipeline = encoder 5;
  input_eos = ended;
  encoder_eos_signaled = false;
  pending_image = false;
  width = 16;
  height = 16;
  started_ns = 0;
  pending_image_pts = 0;
  pending_image_flags = 0;
  last_encoder_pts = 0;
  have_encoder_pts = false;
  counters = no_counters;
}

-- Two frames in order, one that comes too late, and the end.
abbrev requests : List Operation
requests =
    queue_record (1 ∷ []) 10 0
    ∷ queue_record (2 ∷ []) 20 0
    ∷ queue_record (3 ∷ []) 15 0
    ∷ take_output 1 64
    ∷ end_stream 30
    ∷ queue_record (4 ∷ []) 40 0
    ∷ []

requests_run : accepted_by device requests (encoding false) (0, 0) ≡ (10, 0) ∷ (20, 0) ∷ []
unfolding accepted_by dscw_codec_queue queue_internal input_error pump_transcoder queue_next
    queue_buffer count_input monotonic_ns nanoseconds record_latency count_status dscw_codec_dequeue
    dequeue_internal dequeue_rounds output_buffer_at copy_checked copy_output count_output
    record_size buffer_bytes count_output_status dscw_codec_queue_eos queue_eos_next
    queue_eos_buffer
requests_run = refl

accepted_by-IsIncreasing_example :
    IsIncreasing none (accepted_by device requests (encoding false) (0, 0))
accepted_by-IsIncreasing_example =
    accepted_by-IsIncreasing device requests 5 (encoding false) (0, 0) refl

-- The end of the input is queued with success.
ended : is_ok (dscw_codec_queue_eos device 9 (encoding false) (0, 0)).status ≡ true
unfolding dscw_codec_queue_eos queue_eos_next queue_eos_buffer pump_transcoder monotonic_ns
    record_latency
ended = refl

accepted_by-closed_example :
    accepted_by device (end_stream 9 ∷ requests) (encoding false) (0, 0) ≡ []
accepted_by-closed_example = accepted_by-closed device requests 9 (encoding false) (0, 0) ended

dscw_codec_dequeue-Fits_example :
    length (dscw_codec_dequeue device 1 64 (encoding false) (0, 0)).bytes ≤ 64
dscw_codec_dequeue-Fits_example = dscw_codec_dequeue-Fits device 1 64 (encoding false) (0, 0)

two : (n : ℕ) → suc n ≢ 0
two n e = absurd (omega (arith, e))

second_row : row_start 2 (pos 0) (pos 0) 1 luma ≡ some 3
unfolding row_start ◌+ℤ◌ ◌-ℤ◌ ◌*ℤ◌
second_row = refl

luma_rows : copy_rows 2 2 (pos 0) (pos 0) 0 luma ≡ some (1 ∷ 2 ∷ 3 ∷ 4 ∷ [])
unfolding copy_rows copy_row copy_columns row_start ◌+ℤ◌ ◌-ℤ◌ ◌*ℤ◌
luma_rows = refl

small_frame : normalize_image small_image 48 ≡ pixels (1 ∷ 2 ∷ 3 ∷ 4 ∷ 5 ∷ 5 ∷ [])
unfolding normalize_image frame_fits copy_planes copy_plane plane_of copy_rows copy_row copy_columns
    row_start ◌+ℤ◌ ◌-ℤ◌ ◌*ℤ◌
small_frame = refl

device_delivers :
    (w : Device) (i : Image) → (next_image 3 w).1 ≡ image i → suc (((next_image 3 w).0).1 - 1) ≤ w.1
device_delivers (t, zero) i e = cc
device_delivers (t, suc n) i e = omega arith

device_stays :
    (w : Device)
    → is_image (next_image 3 w).1 ≡ false
    → is_image (next_image 3 (next_image 3 w).0).1 ≡ false
device_stays (t, zero) e = refl
device_stays (t, suc n) e = cc

device_clock : (w : Device) → (monotonic_ns device w).1 ≤ (monotonic_ns device w).0.0
unfolding monotonic_ns nanoseconds
device_clock w = omega arith

device_ticks : (w : Device) → IsTicking device 3 (λ w'. w'.0) w
unfolding monotonic_ns nanoseconds
device_ticks (t, zero) = ground arith
device_ticks (t, suc n) = ground arith

copy_row-copy_columns_example : copy_row 2 3 1 luma.bytes ≡ copy_columns 2 3 1 luma.bytes
copy_row-copy_columns_example =
    copy_row-copy_columns 2 1 3 (pos 0) (pos 0) luma (two 1) refl second_row

get_or-copy_rows_example :
    (k : ℕ) × ((pos 0 +ℤ pos 1) *ℤ pos 3 +ℤ pos 0 *ℤ pos 1 +ℤ pos 1 *ℤ pos 1 ≡ pos k)
    × (k < 6)
    × (4 ≡ 2 * 2)
    × (get_or (1 ∷ 2 ∷ 3 ∷ 4 ∷ []) 3 0 ≡ get_or luma.bytes k 0)
get_or-copy_rows_example =
    get_or-copy_rows 2 2 0 1 1 (pos 0) (pos 0) luma (1 ∷ 2 ∷ 3 ∷ 4 ∷ []) (two 1) refl luma_rows
      (omega arith) (omega arith)

length-normalize_image_example :
    (crop : CropRect) × (some small_crop ≡ some crop)
    × (6 ≡ pos_part (crop.right -ℤ crop.left) * pos_part (crop.bottom -ℤ crop.top) * 3 / 2)
    × (6 ≤ 48)
length-normalize_image_example =
    length-normalize_image small_image 48 (1 ∷ 2 ∷ 3 ∷ 4 ∷ 5 ∷ 5 ∷ []) small_frame

drain_rounds-IsDrained_runs : is_image (next_image 3 (drain_rounds device 3 3 (0, 2))).1 ≡ false
drain_rounds-IsDrained_runs =
    drain_rounds-IsDrained device (λ w. w.1) 3 device_delivers device_stays 3 (0, 2) (omega arith)

acquire_next_image-ends_example :
    acquire_rounds device (2 + 5) 2000000 3 (0, 0) ≡ acquire_next_image device 2 3 (0, 0)
unfolding monotonic_ns
acquire_next_image-ends_example =
    acquire_next_image-ends device 2 5 3 (λ w. w.0) (0, 0) device_clock device_ticks
