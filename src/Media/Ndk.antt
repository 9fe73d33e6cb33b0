-- ===== src/Media/Ndk.antt =====
-- What the sessions use of the NDK: codecs (`AMediaCodec`), images of a decoder (`AImageReader`,
-- `AImage`), and the clocks. A call returns the world after it; a status is `media_status_t`, 0 for
-- `AMEDIA_OK`. A function that `dlsym` did not find is `none`.
use dawnshell.Prelude.{ℕ, Bool, Option, List, ℤ}

-- What `AMediaCodec_dequeueOutputBuffer` returns; a buffer comes with its `AMediaCodecBufferInfo`.
pub record BufferInfo : Type 0 where
  pub offset : ℤ
  pub size : ℤ
  pub presentation_time_us : ℕ
  pub flags : ℕ

pub data OutputIndex : Type 0 where
  try_again_later format_changed_now buffers_changed other_negative : OutputIndex
  buffer : ℕ → BufferInfo → OutputIndex

-- The values of an output format; one that it lacks is `none`.
pub record Format : Type 0 where
  pub width : Option ℤ
  pub height : Option ℤ
  pub stride : Option ℤ
  pub slice_height : Option ℤ

pub record CropRect : Type 0 where
  pub left : ℤ
  pub top : ℤ
  pub right : ℤ
  pub bottom : ℤ

-- The bytes of a plane, with its strides.
pub record Plane : Type 0 where
  pub bytes : List ℕ
  pub row_stride : ℤ
  pub pixel_stride : ℤ

-- What the accessors of an `AImage` give, `none` where one fails or gives NULL.
pub record Image : Type 0 where
  pub format : Option ℤ
  pub planes : Option ℤ
  pub crop : Option CropRect
  pub plane : ℕ → Option Plane

-- `AImageReader_acquireNextImage`: an image, AMEDIA_IMGREADER_NO_BUFFER_AVAILABLE, or anything else.
pub data Acquired : Type 0 where
  image : Image → Acquired
  no_buffer failed : Acquired

pub record Ndk : Type 1 where
  pub World : Type 0
  pub Codec : Type 0
  pub Reader : Type 0
  pub Surface : Type 0
  pub clock_monotonic : World → World × Option (ℕ × ℕ)
  pub clock_cputime : World → World × Option (ℕ × ℕ)
  pub usleep : ℕ → World → World
  pub dequeue_input : Codec → ℕ → World → World × Option ℕ
  -- The capacity of the buffer, `none` for NULL.
  pub input_capacity : Codec → ℕ → World → World × Option ℕ
  -- The bytes are those that were copied into the buffer before.
  pub queue_input : Codec → ℕ → List ℕ → ℕ → ℕ → World → World × ℤ
  pub dequeue_output : Codec → ℕ → World → World × OutputIndex
  pub output_buffer : Codec → ℕ → World → World × Option (List ℕ)
  pub release_output : Codec → ℕ → Bool → World → World × ℤ
  pub output_format : Codec → World → World × Option Format
  pub flush : Codec → World → World × ℤ
  pub stop_delete : Codec → World → World
  pub signal_input_eos : Option (Codec → World → World × ℤ)
  -- `AMediaFormat_new`, `AMediaCodec_setParameters` with "request-sync", `AMediaFormat_delete`.
  pub new_format : World → World × Bool
  pub set_parameters : Option (Codec → World → World × ℤ)
  pub acquire_image : Reader → World → World × Acquired
  pub delete_image : Image → World → World
  pub delete_reader : Reader → World → World
  pub release_surface : Surface → World → World
