-- ===== src/Media/Capacity.antt =====
-- What `dscw_codec_dequeue` and `dscw_codec_statistics` write fits the output.
use mathlib.Core.Option.{some-injective}
use dawnshell.Prelude.{
  ℕ, zero, suc, ◌+◌, ◌-◌, ◌*◌, ◌/◌, ◌%◌, ◌^◌, ◌≤◌, ◌<◌, ◌≡◌, ap, inl, inr, none, some, List, arith,
  ltb, leb, ◌==◌, Bool-cases, if-cases, length,
}
use dawnshell.Media.Cases.{
  waits, changes, rebuffers, negative, holds, index_is, decodes, encodes, transcodes, pipeline_is,
}
use dawnshell.Media.Control.{process_cpu_ms, statistics_text, dscw_codec_statistics}
use dawnshell.Media.Fits.{
  length-format_bytes, if-le, output_pending_image-Fits, render_image-Fits, copy_checked-Fits,
}
use dawnshell.Media.Input.{is_ok, is_positive, pump_transcoder}
use dawnshell.Media.Ndk.{BufferInfo, Ndk}
use dawnshell.Media.Output.{
  output_buffer_at, is_decoder, output_format_now, dequeue_rounds, dequeue_internal,
  dscw_codec_dequeue,
}
use dawnshell.Media.Session.{Session, output_codec, monotonic_ns}

module _ (N : Ndk) where
  open N use {World, Codec, output_format, dequeue_output}

  output_buffer_at-Fits :
      (codec : Codec) (index : ℕ) (info : BufferInfo) (timeout_ms capacity : ℕ) (s : Session N)
      (w : World)
      → 20 ≤ capacity
      → length (output_buffer_at N codec index info timeout_ms capacity s w).bytes ≤ capacity
  unfolding output_buffer_at
  output_buffer_at-Fits codec index info timeout_ms capacity s w h =
      let copied = copy_checked-Fits N codec index info capacity s w in
      elim (pipeline_is s.pipeline) [
        | decodes c reader e ↦
            rw (e, length)
              (if-le capacity (is_positive info.size) _ _
                (render_image-Fits N codec reader index info timeout_ms capacity s w h) copied)
        | encodes c e ↦ rw (e, length) copied
        | transcodes d c surface e ↦ rw (e, length) copied
      ]

  output_format_now-Fits :
      (codec : Codec) (s : Session N) (w : World)
      → length (output_format_now N codec s w).bytes ≡ 20
  unfolding output_format_now
  output_format_now-Fits codec s w =
      let (w', format) = output_format codec w in
      length-format_bytes (is_decoder N s.pipeline) s.width s.height format

  dequeue_rounds-Fits :
      (attempts : ℕ) (codec : Codec) (timeout_ms capacity : ℕ) (s : Session N) (w : World)
      → 20 ≤ capacity
      → length (dequeue_rounds N attempts codec timeout_ms capacity s w).bytes ≤ capacity
  unfolding dequeue_rounds
  dequeue_rounds-Fits zero codec timeout_ms capacity s w h = omega (arith, h)
  dequeue_rounds-Fits (suc attempts) codec timeout_ms capacity s w h =
      let (w', index) = dequeue_output codec (timeout_ms * 1000) w in
      elim (index_is index) [
        | waits e ↦ rw (e, length) (omega (arith, h))
        | changes e ↦ rw (e, length) (omega (arith, h, output_format_now-Fits codec s w'))
        | rebuffers e ↦
            rw (e, length) (dequeue_rounds-Fits attempts codec timeout_ms capacity s w' h)
        | negative e ↦
            rw (e, length) (dequeue_rounds-Fits attempts codec timeout_ms capacity s w' h)
        | holds n info e ↦
            rw (e, length) (output_buffer_at-Fits codec n info timeout_ms capacity s w' h)
      ]

  dequeue_internal-Fits :
      (timeout_ms capacity : ℕ) (s : Session N) (w : World)
      → length (dequeue_internal N timeout_ms capacity s w).bytes ≤ capacity
  unfolding dequeue_internal
  dequeue_internal-Fits timeout_ms capacity s w = elim (Bool-cases (ltb capacity 20)) [
    | inl e ↦ rw (e, length) (omega arith)
    | inr e ↦
        let h : 20 ≤ capacity = ground (arith, e) in
        elim (pipeline_is s.pipeline) [
          | decodes c reader e' ↦
              rw (e, e', length)
                (if-le capacity s.pending_image _ _
                  (output_pending_image-Fits N reader timeout_ms capacity s w h)
                  (dequeue_rounds-Fits 3 c timeout_ms capacity s w h))
          | encodes c e' ↦ rw (e, e', length) (dequeue_rounds-Fits 3 c timeout_ms capacity s w h)
          | transcodes d c surface e' ↦
              let pumped = pump_transcoder N timeout_ms s w in
              rw (e, e', length)
                (if-le capacity (is_ok pumped.status) _ _
                  (dequeue_rounds-Fits 3 (output_codec pumped.session.pipeline) timeout_ms capacity
                    pumped.session pumped.world h)
                  (omega (arith, h)))
        ]
  ]

  -- `dscw_codec_dequeue` writes at most as many bytes as the output has, whatever the codecs give.
  pub dscw_codec_dequeue-Fits :
      (timeout_ms capacity : ℕ) (s : Session N) (w : World)
      → length (dscw_codec_dequeue N timeout_ms capacity s w).bytes ≤ capacity
  unfolding dscw_codec_dequeue
  dscw_codec_dequeue-Fits timeout_ms capacity s w =
      let (w1, started) = monotonic_ns N w in dequeue_internal-Fits timeout_ms capacity s w1

  -- The text of the statistics is shorter than the output.
  pub dscw_codec_statistics-lt :
      (s : Session N) (id output_size : ℕ) (w : World) (text : List ℕ)
      → (dscw_codec_statistics N s id output_size w).1 ≡ some text
      → length text < output_size
  unfolding dscw_codec_statistics
  dscw_codec_statistics-lt s id output_size w text h =
      let (w1, now) = monotonic_ns N w in
      let (w2, cpu_ms) = process_cpu_ms N w1 in
      let report =
        statistics_text N s id ((now + 2 ^ 64 - s.started_ns) % 2 ^ 64 / 1000000) cpu_ms in
      elim (Bool-cases (output_size == 0)) [
        | inl e ↦ let h' = rw (e, dscw_codec_statistics) at h in cc
        | inr e ↦
            let h' = rw (e, dscw_codec_statistics) at h in
            elim (if-cases (leb output_size (length report)) none (some report) (some text) h') [
              | inl (_, h'') ↦ cc
              | inr (e', h'') ↦
                  let size : length report ≡ length text =
                    ap length (some-injective report text h'') in
                  ground (arith, e', size)
            ]
      ]
