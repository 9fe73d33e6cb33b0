-- ===== src/Worker/Platform.antt =====
-- What the worker is built on: the codec sessions of app/src/main/cpp/dawnshell_codec_ndk.h and the
-- clock. A codec session is a pointer, `null`
-- among them, and its state lives in the world that the operations change.
use dawnshell.Prelude.{ℕ, ◌+◌, ◌*◌, ◌%◌, ◌^◌, ◌≤◌, ◌≡◌, List, Option, none, some, ℤ, length}

-- The status codes `DSCW_CODEC_*`.
abbrev pub error_protocol : ℤ
error_protocol = ℤ.negsuc 0

abbrev pub error_version : ℤ
error_version = ℤ.negsuc 1

abbrev pub error_unsupported : ℤ
error_unsupported = ℤ.negsuc 3

abbrev pub error_limit : ℤ
error_limit = ℤ.negsuc 4

abbrev pub error_codec : ℤ
error_codec = ℤ.negsuc 5

abbrev pub error_session : ℤ
error_session = ℤ.negsuc 6

abbrev pub error_io : ℤ
error_io = ℤ.negsuc 7

abbrev pub codec_ok : ℤ
codec_ok = ℤ.pos 0

-- The arguments of `dscw_codec_create`, in its order.
pub record CreateArgs : Type 0 where
  pub mode : ℕ
  pub codec : ℕ
  pub width : ℕ
  pub height : ℕ
  pub frame_rate : ℕ
  pub bitrate : ℕ
  pub color_format : ℕ

-- The arguments of `dscw_codec_create_transcoder`, in its order.
pub record TranscodeArgs : Type 0 where
  pub input_codec : ℕ
  pub output_codec : ℕ
  pub width : ℕ
  pub height : ℕ
  pub frame_rate : ℕ
  pub bitrate : ℕ

-- `status == DSCW_CODEC_OK` with the session and its description, or a status that is not OK with
-- the text of `error`.
pub data Created (S : Type 0) : Type 0 where
  opened : S → List ℕ → Created S
  refused : ℤ → List ℕ → Created S

-- A status, and the text of `error` if the operation wrote one.
pub record Outcome : Type 0 where
  pub status : ℤ
  pub message : Option (List ℕ)

-- `dscw_codec_dequeue` also fills `output` and sets `output_length`.
pub record Dequeued : Type 0 where
  pub status : ℤ
  pub bytes : List ℕ
  pub message : Option (List ℕ)

pub record Platform : Type 1 where
  pub World : Type 0
  pub Codec : Type 0
  pub null : Codec
  pub create : CreateArgs → World → World × Created Codec
  pub create_transcoder : TranscodeArgs → World → World × Created Codec
  pub queue : Codec → List ℕ → ℕ → ℕ → World → World × Outcome
  pub dequeue : Codec → ℕ → ℕ → World → World × Dequeued
  pub queue_eos : Codec → ℕ → World → World × Outcome
  pub flush : Codec → World → World × Outcome
  pub keyframe : Codec → World → World × Outcome
  pub statistics : Codec → ℕ → ℕ → World → World × Option (List ℕ)
  pub destroy : Codec → World → World
  pub capabilities : List ℕ
  -- `clock_gettime(CLOCK_MONOTONIC, …)`, seconds and nanoseconds.
  pub clock : World → World × Option (ℕ × ℕ)
  pub pid : ℕ
  -- `dscw_codec_dequeue` and `dscw_codec_statistics` write no more than `capacity` bytes.
  pub dequeue_fits :
      (c : Codec) (timeout capacity : ℕ) (w : World)
      → length (dequeue c timeout capacity w).1.bytes ≤ capacity
  pub statistics_fits :
      (c : Codec) (id capacity : ℕ) (w : World) (text : List ℕ)
      → (statistics c id capacity w).1 ≡ some text
      → length text ≤ capacity

-- `monotonic_ns`, 0 if the clock cannot be read.
module _ (P : Platform) where
  open P use {World, clock}

  nanoseconds : Option (ℕ × ℕ) → ℕ
  nanoseconds none = 0
  nanoseconds (some (sec, nsec)) = (sec * 1000000000 + nsec) % 2 ^ 64

  unfoldable pub monotonic_ns : World → World × ℕ
  unfolding nanoseconds
  monotonic_ns w = let (w', value) = clock w in (w', nanoseconds value)
