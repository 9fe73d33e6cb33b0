-- ===== src/Media/Control.antt =====
-- `dscw_codec_flush`, `dscw_codec_request_keyframe`, `dscw_codec_statistics` and `dscw_codec_destroy`.
use dawnshell.Prelude.{
  ℕ, zero, suc, ◌+◌, ◌-◌, ◌*◌, ◌/◌, ◌%◌, ◌^◌, false, Option, none, some, List, ◌++◌, leb, ◌==◌,
  if◌then◌else◌, decimal, codes, length, set, ℤ,
}
use dawnshell.Media.Input.{show_status, is_ok}
use dawnshell.Media.Ndk.{image, no_buffer, failed, Ndk}
use dawnshell.Media.Session.{
  LatencyCounters, Counters, Pipeline, decoder, encoder, transcoder, Session, plus, output_codec,
  Step, monotonic_ns, done, fail,
}
use dawnshell.Worker.Health.{uptime_ms}
use dawnshell.Worker.Platform.{error_unsupported, error_codec, error_io, codec_ok}

abbrev pub average : LatencyCounters → ℕ
average l = if l.samples == 0 then 0 else l.total_us / l.samples

-- `,"name":value`.
abbrev pub field : List ℕ → ℕ → List ℕ
field name value = codes ",\"" ++ (name ++ (codes "\":" ++ decimal value))

unfoldable pub latency_fields : List ℕ → LatencyCounters → List ℕ
latency_fields name l =
    field (name ++ codes "_call_latency_samples") l.samples
    ++ (field (name ++ codes "_call_latency_avg_us") (average l)
        ++ field (name ++ codes "_call_latency_max_us") l.max_us)

unfoldable pub statistics_rest : Counters → ℕ → ℕ → List ℕ
statistics_rest c uptime_ms cpu_ms =
    field (codes "shared_input_bytes") c.input_bytes
    ++ (field (codes "shared_output_bytes") c.output_bytes
        ++ (field (codes "input_eos") c.input_eos_count
            ++ (field (codes "output_eos") c.output_eos_count
                ++ (field (codes "input_dequeue_timeouts") c.input_again
                    ++ (field (codes "output_dequeue_timeouts") c.output_again
                        ++ (field (codes "errors") c.errors
                            ++ (codes ",\"dropped_frames\":0"
                                ++ (field (codes "uptime_ms") uptime_ms
                                    ++ (field (codes "process_cpu_time_ms") cpu_ms
                                        ++ (latency_fields (codes "input") c.input_latency
                                            ++ (latency_fields (codes "output") c.output_latency
                                                ++ codes "}")))))))))))

module _ (N : Ndk) where
  open N use {
    World, Codec, Reader, flush, stop_delete, acquire_image, delete_image, delete_reader,
    release_surface, new_format, set_parameters, clock_cputime,
  }

  -- The loop of `drain_images`, `fuel` rounds at most.
  unfoldable pub drain_rounds : ℕ → Reader → World → World
  drain_rounds zero reader w = w
  drain_rounds (suc fuel) reader w =
      let (w', result) = acquire_image reader w in
      elim result [
        | image i ↦ drain_rounds fuel reader (delete_image i w')
        | no_buffer ↦ w'
        | failed ↦ w'
      ]

  unfoldable pub flush_pipeline : Pipeline N → World → World × ℤ
  flush_pipeline (decoder c reader) w = flush c w
  flush_pipeline (encoder c) w = flush c w
  flush_pipeline (transcoder d e surface) w =
      let (w', status) = flush d w in if is_ok status then flush e w' else (w', status)

  -- Only a decoder has an image reader; `queued` bounds the images that it can still give.
  abbrev pub drain_pipeline : (N.Reader → World → ℕ) → Pipeline N → World → World
  drain_pipeline queued (decoder c reader) w = drain_rounds (suc (queued reader w)) reader w
  drain_pipeline queued _ w = w

  unfoldable pub reset_flags : Session N → Session N
  reset_flags s = record s {
    input_eos = false;
    encoder_eos_signaled = false;
    pending_image = false;
    have_encoder_pts = false;
  }

  abbrev pub count_failure : Session N → Session N
  count_failure s = record s {
    counters = record (s.counters) { errors = plus s.counters.errors 1 };
  }

  unfoldable pub dscw_codec_flush : (N.Reader → World → ℕ) → Session N → World → Step N
  dscw_codec_flush queued s w =
      let (w', status) = flush_pipeline s.pipeline w in
      if is_ok status
      then done N (drain_pipeline queued s.pipeline w') (reset_flags s) codec_ok
      else fail N w' (count_failure s) error_codec
          (codes "AMediaCodec_flush failed: " ++ show_status status)

  unfoldable pub set_sync : (Codec → World → World × ℤ) → Codec → Session N → World → Step N
  set_sync set codec s w =
      let (w1, made) = new_format w in
      if made
      then (let (w2, status) = set codec w1 in
          if is_ok status
          then done N w2 s codec_ok
          else fail N w2 (count_failure s) error_codec
              (codes "AMediaCodec_setParameters failed: " ++ show_status status))
      else done N w1 s error_io

  -- Behind the check that the session has an encoder.
  unfoldable pub request_sync : Codec → Session N → World → Step N
  request_sync codec s w = elim set_parameters [
    | none ↦
        fail N w s error_unsupported (codes "keyframe request requires Android API 26 or newer")
    | some set ↦ set_sync set codec s w
  ]

  unfoldable pub dscw_codec_request_keyframe : Session N → World → Step N
  dscw_codec_request_keyframe s w = elim s.pipeline [
    | decoder c r ↦ fail N w s error_unsupported (codes "keyframe request requires an encoder")
    | _ ↦ request_sync (output_codec s.pipeline) s w
  ]

  abbrev pub kind_name : Pipeline N → List ℕ
  kind_name (transcoder d e surface) = codes "surface_transcoder"
  kind_name (encoder c) = codes "bytebuffer_encoder"
  kind_name (decoder c r) = codes "bytebuffer_decoder"

  abbrev pub transport_name : Pipeline N → List ℕ
  transport_name (transcoder d e surface) = codes "surface_zero_copy"
  transport_name _ = codes "bytebuffer"

  abbrev pub milliseconds : Option (ℕ × ℕ) → ℕ
  milliseconds none = 0
  milliseconds (some (sec, nsec)) = (sec * 1000 + nsec / 1000000) % 2 ^ 64

  unfoldable pub process_cpu_ms : World → World × ℕ
  process_cpu_ms w = let (w', value) = clock_cputime w in (w', milliseconds value)

  unfoldable pub statistics_text : Session N → ℕ → ℕ → ℕ → List ℕ
  statistics_text s id uptime_ms cpu_ms =
      let c = s.counters in
      codes "{\"session_id\":"
      ++ (decimal id
          ++ (codes ",\"kind\":\""
              ++ (kind_name s.pipeline
                  ++ (codes "\",\"transport\":\""
                      ++ (transport_name s.pipeline
                          ++ (codes "\",\"media_transport\":\"inherited_memfd_eventfd\""
                              ++ (field (codes "input_frames") c.input_frames
                                  ++ (field (codes "output_frames") c.output_frames
                                      ++ (field (codes "surface_frames") c.surface_frames
                                          ++ (field (codes "cpu_yuv_frames") c.cpu_yuv_frames
                                              ++ (field (codes "input_records") c.input_records
                                                  ++ (field (codes "output_records")
                                                        c.output_records
                                                      ++ (field (codes "input_bytes") c.input_bytes
                                                          ++ (field (codes "output_bytes")
                                                            c.output_bytes
                                                            ++ statistics_rest c uptime_ms
                                                            cpu_ms))))))))))))))

  -- -1 is `none`; the terminator takes a byte of the output.
  unfoldable pub dscw_codec_statistics : Session N → ℕ → ℕ → World → World × Option (List ℕ)
  dscw_codec_statistics s id output_size w =
      if output_size == 0
      then (w, none)
      else (let (w1, now) = monotonic_ns N w in
          let (w2, cpu_ms) = process_cpu_ms w1 in
          let text =
            statistics_text s id ((now + 2 ^ 64 - s.started_ns) % 2 ^ 64 / 1000000) cpu_ms in
          (w2, if leb output_size (length text) then none else some text))

  -- In the order of the source; the session is freed behind it.
  unfoldable pub dscw_codec_destroy : Session N → World → World
  dscw_codec_destroy s w = elim s.pipeline [
    | transcoder d e surface ↦ release_surface surface (stop_delete e (stop_delete d w))
    | encoder c ↦ stop_delete c w
    | decoder c reader ↦ delete_reader reader (stop_delete c w)
  ]
