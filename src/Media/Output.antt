-- ===== src/Media/Output.antt =====
-- Output of a session: `dequeue_internal` and `dscw_codec_dequeue`.
use dawnshell.Prelude.{
  ℕ, zero, suc, ◌+◌, ◌-◌, ◌*◌, ◌%◌, ◌^◌, Bool, true, false, ◌||◌, Option, none, some, List, [],
  ◌++◌, ltb, ◌==◌, if◌then◌else◌, has_bit, codes, length, take, drop, ℤ, pos, negsuc, is_negative,
  to_u32, pos_part,
}
use dawnshell.Media.Input.{is_ok, is_positive, pump_transcoder}
use dawnshell.Media.Ndk.{
  BufferInfo, try_again_later, format_changed_now, buffers_changed, other_negative, buffer, Ndk,
}
use dawnshell.Media.Pending.{
  Taken, take_nothing, format_bytes, record_header, output_pending_image, render_image,
}
use dawnshell.Media.Session.{
  again, format_changed, flag_codec_config, flag_end_of_stream, Counters, Pipeline, decoder,
  encoder, transcoder, Session, plus, output_codec, Step, monotonic_ns, record_latency, done, fail,
}
use dawnshell.Worker.Platform.{error_protocol, error_limit, error_codec, codec_ok}

module _ (N : Ndk) where
  open N use {World, Codec, dequeue_output, output_buffer, release_output, output_format}

  unfoldable pub count_output : ℕ → ℕ → Session N → Session N
  count_output size flags s =
      let c = s.counters in
      let c1 = if size == 0 then c else record c {
        output_records = plus c.output_records 1;
        output_bytes = plus c.output_bytes size;
        output_frames =
            if has_bit flags flag_codec_config then c.output_frames else plus c.output_frames 1;
      } in
      record s {
        counters =
            if has_bit flags flag_end_of_stream
            then record c1 { output_eos_count = plus c1.output_eos_count 1 }
            else c1;
      }

  -- `source`, `size` bytes from `offset` on; nothing is read of an empty buffer.
  unfoldable pub buffer_bytes : Option (List ℕ) → ℕ → ℕ → Option (List ℕ)
  buffer_bytes source offset zero = some []
  buffer_bytes none offset (suc size) = none
  buffer_bytes (some source) offset (suc size) =
      if ltb (length source) (offset + suc size)
      then none
      else some (take (suc size) (drop offset source))

  -- `(uint64_t) info.size + 16`, which wraps around for a negative size.
  unfoldable pub record_size : ℤ → ℕ
  record_size (pos n) = (n + 16) % 2 ^ 64
  record_size (negsuc n) = (2 ^ 64 - n + 15) % 2 ^ 64

  -- A buffer of an encoder, or the empty last one of a decoder, whose size has passed the check.
  unfoldable pub copy_output : Codec → ℕ → BufferInfo → ℕ → Session N → World → Taken N
  copy_output codec index info offset s w =
      let (w1, source) = output_buffer codec index w in
      elim (buffer_bytes source offset (pos_part info.size)) [
        | none ↦ take_nothing (
            fail N (release_output codec index false w1).0 s error_codec
              (codes "MediaCodec output buffer is invalid"))
        | some payload ↦ record {
          world = (release_output codec index false w1).0;
          session = count_output (pos_part info.size) info.flags s;
          status = codec_ok;
          bytes =
              take (record_size info.size)
                (record_header info.presentation_time_us info.flags (to_u32 info.size) ++ payload);
          message = none;
        }
      ]

  unfoldable pub copy_checked : Codec → ℕ → BufferInfo → ℕ → Session N → World → Taken N
  copy_checked codec index info capacity s w =
      if ltb capacity (record_size info.size) || is_negative info.offset
      then take_nothing (
          fail N (release_output codec index false w).0 s error_limit
            (codes "codec output exceeds shared slot"))
      else copy_output codec index info (pos_part info.offset) s w

  -- A buffer at `index`.
  unfoldable pub output_buffer_at : Codec → ℕ → BufferInfo → ℕ → ℕ → Session N → World → Taken N
  output_buffer_at codec index info timeout_ms capacity s w = elim s.pipeline [
    | decoder c reader ↦
        if is_positive info.size
        then render_image N codec reader index info timeout_ms capacity s w
        else copy_checked codec index info capacity s w
    | _ ↦ copy_checked codec index info capacity s w
  ]

  abbrev pub is_decoder : Pipeline N → Bool
  is_decoder (decoder c r) = true
  is_decoder _ = false

  unfoldable pub output_format_now : Codec → Session N → World → Taken N
  output_format_now codec s w =
      let (w', format) = output_format codec w in
      record {
        world = w';
        session = record s {
          counters = record (s.counters) { format_changes = plus s.counters.format_changes 1 };
        };
        status = format_changed;
        bytes = format_bytes (is_decoder s.pipeline) s.width s.height format;
        message = none;
      }

  -- The loop, with `attempts` left.
  unfoldable pub dequeue_rounds : ℕ → Codec → ℕ → ℕ → Session N → World → Taken N
  dequeue_rounds zero codec timeout_ms capacity s w = take_nothing (done N w s again)
  dequeue_rounds (suc attempts) codec timeout_ms capacity s w =
      let (w', index) = dequeue_output codec (timeout_ms * 1000) w in
      elim index [
        | try_again_later ↦ take_nothing (done N w' s again)
        | format_changed_now ↦ output_format_now codec s w'
        | buffers_changed ↦ dequeue_rounds attempts codec timeout_ms capacity s w'
        | other_negative ↦ dequeue_rounds attempts codec timeout_ms capacity s w'
        | buffer i info ↦ output_buffer_at codec i info timeout_ms capacity s w'
      ]

  abbrev pub dequeue_after : Step N → ℕ → ℕ → Taken N
  dequeue_after pumped timeout_ms capacity =
      if is_ok pumped.status
      then dequeue_rounds 3 (output_codec pumped.session.pipeline) timeout_ms capacity
          pumped.session pumped.world
      else take_nothing pumped

  -- Only a decoder ever has a pending image.
  unfoldable pub dequeue_internal : ℕ → ℕ → Session N → World → Taken N
  dequeue_internal timeout_ms capacity s w =
      if ltb capacity 20
      then take_nothing (fail N w s error_protocol (codes "invalid codec output buffer"))
      else elim s.pipeline [
        | decoder c reader ↦
            if s.pending_image
            then output_pending_image N reader timeout_ms capacity s w
            else dequeue_rounds 3 c timeout_ms capacity s w
        | encoder c ↦ dequeue_rounds 3 c timeout_ms capacity s w
        | transcoder d e surface ↦
            dequeue_after (pump_transcoder N timeout_ms s w) timeout_ms capacity
      ]

  unfoldable pub count_output_status : ℤ → Counters → Counters
  count_output_status (pos n) c =
      if n == 1 then record c { output_again = plus c.output_again 1 } else c
  count_output_status (negsuc n) c = record c { errors = plus c.errors 1 }

  unfoldable pub dscw_codec_dequeue : ℕ → ℕ → Session N → World → Taken N
  dscw_codec_dequeue timeout_ms capacity s w =
      let (w1, started) = monotonic_ns N w in
      let r = dequeue_internal timeout_ms capacity s w1 in
      let (w2, latency) = record_latency N r.session.counters.output_latency started r.world in
      record r {
        world = w2;
        session = record (r.session) {
          counters =
              count_output_status r.status
                (record (r.session.counters) { output_latency = latency });
        };
      }
