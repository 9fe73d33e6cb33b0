-- ===== src/Media/Session.antt =====
-- `struct dscw_codec_session` and the helpers of its operations. The operations take the session that
-- the pointer names, which the worker never passes as NULL.
use dawnshell.Prelude.{
  ℕ, zero, ◌+◌, ◌-◌, ◌*◌, ◌/◌, ◌%◌, ◌^◌, Bool, true, false, Option, none, some, List, ltb,
  if◌then◌else◌, ℤ, pos,
}
use dawnshell.Media.Ndk.{Ndk}
use dawnshell.Wire.Header.{max_payload}

abbrev pub again : ℤ
again = pos 1

abbrev pub format_changed : ℤ
format_changed = pos 2

abbrev pub flag_codec_config : ℕ
flag_codec_config = 2

abbrev pub flag_end_of_stream : ℕ
flag_end_of_stream = 4

-- `DSCW_MAX_PAYLOAD - 16u`.
abbrev pub max_record : ℕ
max_record = max_payload - 16

pub record LatencyCounters : Type 0 where
  pub samples : ℕ
  pub total_us : ℕ
  pub max_us : ℕ

-- The counters of a session.
pub record Counters : Type 0 where
  pub input_records : ℕ
  pub input_frames : ℕ
  pub input_bytes : ℕ
  pub input_eos_count : ℕ
  pub output_records : ℕ
  pub output_frames : ℕ
  pub output_bytes : ℕ
  pub output_eos_count : ℕ
  pub cpu_yuv_frames : ℕ
  pub surface_frames : ℕ
  pub input_again : ℕ
  pub output_again : ℕ
  pub errors : ℕ
  pub format_changes : ℕ
  pub input_latency : LatencyCounters
  pub output_latency : LatencyCounters

-- The codecs behind a session: one codec, with an image reader for a decoder, or the two codecs of a
-- transcoder with the surface between them.
pub data Pipeline (N : Ndk) : Type 0 where
  decoder : N.Codec → N.Reader → Pipeline N
  encoder : N.Codec → Pipeline N
  transcoder : N.Codec → N.Codec → N.Surface → Pipeline N

pub record Session (N : Ndk) : Type 0 where
  pub pipeline : Pipeline N
  pub input_eos : Bool
  pub encoder_eos_signaled : Bool
  pub pending_image : Bool
  pub width : ℕ
  pub height : ℕ
  pub started_ns : ℕ
  pub pending_image_pts : ℕ
  pub pending_image_flags : ℕ
  pub last_encoder_pts : ℕ
  pub have_encoder_pts : Bool
  pub counters : Counters

-- `x++` and `x += n` on 64 bits.
abbrev pub plus : ℕ → ℕ → ℕ
plus x n = (x + n) % 2 ^ 64

module _ {N : Ndk} where
  abbrev pub is_transcoder : Pipeline N → Bool
  is_transcoder (transcoder d e s) = true
  is_transcoder _ = false

  -- `session->encoder && !session->transcoder`.
  abbrev pub is_encoder : Pipeline N → Bool
  is_encoder (encoder c) = true
  is_encoder _ = false

  -- `session->transcoder ? session->decoder : session->codec`.
  abbrev pub input_codec : Pipeline N → N.Codec
  input_codec (decoder c r) = c
  input_codec (encoder c) = c
  input_codec (transcoder d e s) = d

  -- `session->transcoder ? session->transcode_encoder : session->codec`.
  abbrev pub output_codec : Pipeline N → N.Codec
  output_codec (decoder c r) = c
  output_codec (encoder c) = c
  output_codec (transcoder d e s) = e

module _ (N : Ndk) where
  open N use {World, clock_monotonic}

  -- What an operation leaves: the world, the session, its status and the text of `error`,
  -- which is always shorter than the 256 bytes that the worker has for it.
  pub record Step : Type 0 where
    pub world : World
    pub session : Session N
    pub status : ℤ
    pub message : Option (List ℕ)

  unfoldable pub nanoseconds : Option (ℕ × ℕ) → ℕ
  nanoseconds none = 0
  nanoseconds (some (sec, nsec)) = (sec * 1000000000 + nsec) % 2 ^ 64

  unfoldable pub monotonic_ns : World → World × ℕ
  unfolding nanoseconds
  monotonic_ns w = let (w', value) = clock_monotonic w in (w', nanoseconds value)

  -- The difference of two readings, on 64 bits.
  unfoldable pub record_latency : LatencyCounters → ℕ → World → World × LatencyCounters
  record_latency l started w =
      let (w', now) = monotonic_ns w in
      let elapsed = (now + 2 ^ 64 - started) % 2 ^ 64 / 1000 in
      (
        w',
        record {
          samples = plus l.samples 1;
          total_us = plus l.total_us elapsed;
          max_us = if ltb l.max_us elapsed then elapsed else l.max_us;
        },
      )

  abbrev pub done : World → Session N → ℤ → Step
  done w s status = record { world = w; session = s; status = status; message = none }

  abbrev pub fail : World → Session N → ℤ → List ℕ → Step
  fail w s status text = record { world = w; session = s; status = status; message = some text }

  -- `if (result != DSCW_CODEC_OK) return result;` before what follows.
  abbrev pub and_then : Step → (World → Session N → Step) → Step
  and_then r f = elim r.status [ pos zero ↦ f r.world r.session | _ ↦ r ]
