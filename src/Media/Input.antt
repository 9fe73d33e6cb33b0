-- ===== src/Media/Input.antt =====
-- Input of a session: `pump_transcoder`, `queue_internal`, `dscw_codec_queue` and
-- `dscw_codec_queue_eos`.
use dawnshell.Prelude.{
  ℕ, zero, suc, ◌+◌, ◌*◌, Bool, true, false, not, ◌&&◌, ◌||◌, Option, none, some, List, [], ◌∷◌,
  ◌++◌, ltb, leb, ◌==◌, ◌!=◌, if◌then◌else◌, has_bit, clear_bit, decimal, codes, length, ℤ, pos,
  negsuc,
}
use dawnshell.Media.Ndk.{
  BufferInfo, try_again_later, format_changed_now, buffers_changed, other_negative, buffer, Ndk,
}
use dawnshell.Media.Session.{
  again, flag_codec_config, flag_end_of_stream, max_record, Counters, transcoder, Session, plus,
  is_encoder, input_codec, Step, monotonic_ns, record_latency, done, fail, and_then,
}
use dawnshell.Worker.Platform.{error_protocol, error_limit, error_codec, error_session, codec_ok}

-- `%d` of a status.
abbrev pub show_status : ℤ → List ℕ
show_status (pos n) = decimal n
show_status (negsuc n) = b'-' ∷ decimal (n + 1)

abbrev pub is_ok : ℤ → Bool
is_ok (pos n) = n == 0
is_ok (negsuc n) = false

-- `info.size > 0`.
abbrev pub is_positive : ℤ → Bool
is_positive (pos n) = n != 0
is_positive (negsuc n) = false

module _ (N : Ndk) where
  open N use {
    World, Codec, dequeue_output, release_output, signal_input_eos, dequeue_input, input_capacity,
    queue_input,
  }

  abbrev pub count_surface : Bool → Session N → Session N
  count_surface render s =
      if render
      then record s {
        counters = record (s.counters) { surface_frames = plus s.counters.surface_frames 1 };
      }
      else s

  -- The end of the stream is passed on to the encoder.
  unfoldable pub signal_eos : Codec → Session N → World → Step N
  signal_eos codec s w = elim signal_input_eos [
    | none ↦ fail N w s error_codec (codes "could not signal Surface encoder EOS")
    | some signal ↦
        let (w', status) = signal codec w in
        if is_ok status
        then done N w' (record s { encoder_eos_signaled = true }) codec_ok
        else fail N w' s error_codec (codes "could not signal Surface encoder EOS")
  ]

  -- One buffer of the decoder: rendered onto the surface, `again` to go on with the loop.
  unfoldable pub pump_buffer : Codec → Codec → ℕ → BufferInfo → Session N → World → Step N
  pump_buffer d e index info s w =
      let render = is_positive info.size in
      let s' = count_surface render s in
      let (w', status) = release_output d index render w in
      if is_ok status
      then if has_bit info.flags flag_end_of_stream then signal_eos e s' w' else done N w' s' again
      else fail N w' s' error_codec (codes "could not render decoder output")

  -- The loop, with `attempts` left; only the first attempt waits.
  unfoldable pub pump_rounds : ℕ → Codec → Codec → ℕ → Session N → World → Step N
  pump_rounds zero d e timeout s w = done N w s codec_ok
  pump_rounds (suc attempts) d e timeout s w =
      let (w', index) = dequeue_output d timeout w in
      elim index [
        | try_again_later ↦ done N w' s codec_ok
        | format_changed_now ↦ pump_rounds attempts d e 0 s w'
        | buffers_changed ↦ pump_rounds attempts d e 0 s w'
        | other_negative ↦ pump_rounds attempts d e 0 s w'
        | buffer i info ↦
            let r = pump_buffer d e i info s w' in
            elim r.status [ pos (suc n) ↦ pump_rounds attempts d e 0 r.session r.world | _ ↦ r ]
      ]

  -- Nothing to do if the session is no transcoder, and once the encoder has its end of stream.
  unfoldable pub pump_transcoder : ℕ → Session N → World → Step N
  pump_transcoder timeout_ms s w = elim s.pipeline [
    | transcoder d e surface ↦
        if s.encoder_eos_signaled
        then done N w s codec_ok
        else pump_rounds 16 d e (timeout_ms * 1000) s w
    | _ ↦ done N w s codec_ok
  ]

  -- What is counted once the record is queued.
  unfoldable pub count_input : ℕ → ℕ → ℕ → Session N → Session N
  count_input length pts flags s =
      let c = s.counters in
      let s' = record s {
        counters = record c {
          input_records = plus c.input_records 1;
          input_bytes = plus c.input_bytes length;
          input_frames =
              if has_bit flags flag_codec_config then c.input_frames else plus c.input_frames 1;
        };
      } in
      if not (has_bit flags flag_codec_config) && is_encoder s.pipeline
      then record s' { have_encoder_pts = true; last_encoder_pts = pts }
      else s'

  -- The guards at the head of `queue_internal`.
  unfoldable pub input_error : Session N → ℕ → ℕ → ℕ → Option (ℤ × List ℕ)
  input_error s length pts flags =
      if s.input_eos
      then some (error_session, codes "codec input is closed after EOS")
      else if length == 0 || (ltb max_record length || clear_bit flags flag_codec_config != 0)
      then some (error_protocol, codes "invalid codec input record")
      else if is_encoder s.pipeline
          && (not (has_bit flags flag_codec_config)
              && (s.have_encoder_pts && leb pts s.last_encoder_pts))
      then some (error_protocol, codes "encoder frame PTS must increase monotonically")
      else none

  -- The record into the buffer at `index`.
  unfoldable pub queue_buffer : List ℕ → ℕ → ℕ → ℕ → Session N → World → Step N
  queue_buffer bytes pts flags index s w =
      let codec = input_codec s.pipeline in
      let (w1, capacity) = input_capacity codec index w in
      let fits : Bool = elim capacity [ none ↦ false | some n ↦ leb (length bytes) n ] in
      if fits
      then (let (w2, queued) =
            queue_input codec index bytes pts
              (if has_bit flags flag_codec_config then flag_codec_config else 0) w1 in
          if is_ok queued
          then and_then N (done N w2 (count_input (length bytes) pts flags s) codec_ok)
              (λ w3 s'. pump_transcoder 0 s' w3)
          else fail N w2 s error_codec
              (codes "AMediaCodec_queueInputBuffer failed: " ++ show_status queued))
      else (let (w2, _) = queue_input codec index [] pts 0 w1 in
          fail N w2 s error_limit (codes "input packet exceeds MediaCodec buffer capacity"))

  -- Behind the first `pump_transcoder`.
  unfoldable pub queue_next : List ℕ → ℕ → ℕ → Session N → World → Step N
  queue_next bytes pts flags s w =
      let (w', index) = dequeue_input (input_codec s.pipeline) 100000 w in
      elim index [ none ↦ done N w' s again | some i ↦ queue_buffer bytes pts flags i s w' ]

  unfoldable pub queue_internal : List ℕ → ℕ → ℕ → Session N → World → Step N
  queue_internal bytes pts flags s w = elim (input_error s (length bytes) pts flags) [
    | some (status, text) ↦ fail N w s status text
    | none ↦ and_then N (pump_transcoder 0 s w) (λ w' s'. queue_next bytes pts flags s' w')
  ]

  -- `input_again` or `errors` by the status.
  unfoldable pub count_status : ℤ → Counters → Counters
  count_status (pos n) c = if n == 1 then record c { input_again = plus c.input_again 1 } else c
  count_status (negsuc n) c = record c { errors = plus c.errors 1 }

  unfoldable pub dscw_codec_queue : List ℕ → ℕ → ℕ → Session N → World → Step N
  dscw_codec_queue bytes pts flags s w =
      let (w1, started) = monotonic_ns N w in
      let r = queue_internal bytes pts flags s w1 in
      let (w2, latency) = record_latency N r.session.counters.input_latency started r.world in
      record r {
        world = w2;
        session = record (r.session) {
          counters =
              count_status r.status (record (r.session.counters) { input_latency = latency });
        };
      }

  abbrev with_counters : Session N → Counters → Session N
  with_counters s c = record s { counters = c }

  -- Behind `AMediaCodec_dequeueInputBuffer`.
  unfoldable pub queue_eos_buffer : ℕ → ℕ → ℕ → Session N → World → Step N
  queue_eos_buffer pts started index s w =
      let (w1, queued) = queue_input (input_codec s.pipeline) index [] pts flag_end_of_stream w in
      let (w2, latency) = record_latency N s.counters.input_latency started w1 in
      let c = record (s.counters) { input_latency = latency } in
      if is_ok queued
      then pump_transcoder 0
          (record s {
            input_eos = true;
            counters = record c { input_eos_count = plus c.input_eos_count 1 };
          })
          w2
      else fail N w2 (record s { counters = record c { errors = plus c.errors 1 } }) error_codec
          (codes "could not queue codec EOS: " ++ show_status queued)

  -- Behind the first `pump_transcoder`.
  unfoldable pub queue_eos_next : ℕ → ℕ → Session N → World → Step N
  queue_eos_next pts started s w =
      let (w1, index) = dequeue_input (input_codec s.pipeline) 100000 w in
      elim index [
        | none ↦
            let c = record (s.counters) { input_again = plus s.counters.input_again 1 } in
            let (w2, latency) = record_latency N c.input_latency started w1 in
            done N w2 (record s { counters = record c { input_latency = latency } }) again
        | some i ↦ queue_eos_buffer pts started i s w1
      ]

  unfoldable pub dscw_codec_queue_eos : ℕ → Session N → World → Step N
  dscw_codec_queue_eos pts s w =
      let (w', started) = monotonic_ns N w in
      if s.input_eos
      then fail N w'
          (record s { counters = record (s.counters) { errors = plus s.counters.errors 1 } })
          error_session (codes "codec EOS was already queued")
      else and_then N (pump_transcoder 0 s w') (λ w1 s1. queue_eos_next pts started s1 w1)
