-- ===== src/Media/Kept.antt =====
-- What `dscw_codec_dequeue` leaves alone of a session.
use dawnshell.Prelude.{
  ℕ, zero, suc, ◌-◌, ◌*◌, ◌≡◌, refl, ap, ◌∙◌, inl, inr, true, false, ◌||◌, ltb, if◌then◌else◌,
  Bool-cases, Option-cases, length, is_negative, pos_part,
}
use dawnshell.Media.Cases.{
  waits, changes, rebuffers, negative, holds, index_is, decodes, encodes, transcodes, pipeline_is,
  Normalized-cases, Image?-cases,
}
use dawnshell.Media.Image.{normalize_image}
use dawnshell.Media.Input.{is_ok, is_positive, pump_transcoder}
use dawnshell.Media.Ndk.{BufferInfo, Image, Ndk}
use dawnshell.Media.Output.{
  count_output, buffer_bytes, record_size, copy_output, copy_checked, output_buffer_at,
  output_format_now, dequeue_rounds, dequeue_internal, dscw_codec_dequeue,
}
use dawnshell.Media.Pending.{
  take_nothing, acquire_next_image, count_image, deliver_image, output_pending_image, render_image,
}
use dawnshell.Media.Pumped.{input_state, if-kept, pump_transcoder-kept}
use dawnshell.Media.Session.{Session, output_codec, monotonic_ns}

module _ (N : Ndk) where
  open N use {World, Codec, Reader, dequeue_output, release_output, output_buffer}

  count_image-kept : (size : ℕ) (s : Session N) → input_state (count_image N size s) ≡ input_state s
  unfolding count_image
  count_image-kept size s = refl

  deliver_image-kept :
      (i : Image) (capacity : ℕ) (s : Session N) (w : World)
      → input_state (deliver_image N i capacity s w).session ≡ input_state s
  unfolding deliver_image
  deliver_image-kept i capacity s w = elim (Normalized-cases (normalize_image i (capacity - 16))) [
    | inl (status, text, e) ↦ rw (e, deliver_image) refl
    | inr (bytes, e) ↦ rw (e, deliver_image) (count_image-kept (length bytes) s)
  ]

  output_pending_image-kept :
      (reader : Reader) (timeout_ms capacity : ℕ) (s : Session N) (w : World)
      → input_state (output_pending_image N reader timeout_ms capacity s w).session ≡ input_state s
  unfolding output_pending_image
  output_pending_image-kept reader timeout_ms capacity s w =
      let (w', result) = acquire_next_image N timeout_ms reader w in
      elim (Image?-cases result) [
        | inl (i, e) ↦ rw (e, output_pending_image) (deliver_image-kept i capacity s w')
        | inr (inl e) ↦ rw (e, output_pending_image) refl
        | inr (inr e) ↦ rw (e, output_pending_image) refl
      ]

  render_image-kept :
      (codec : Codec) (reader : Reader) (index : ℕ) (info : BufferInfo) (timeout_ms capacity : ℕ)
      (s : Session N) (w : World)
      → input_state (render_image N codec reader index info timeout_ms capacity s w).session
        ≡ input_state s
  unfolding render_image
  render_image-kept codec reader index info timeout_ms capacity s w =
      let (w', status) = release_output codec index true w in
      if-kept s (is_ok status) _ _ (output_pending_image-kept reader timeout_ms capacity _ w') refl

  count_output-kept :
      (size flags : ℕ) (s : Session N) → input_state (count_output N size flags s) ≡ input_state s
  unfolding count_output
  count_output-kept size flags s = refl

  copy_checked-kept :
      (codec : Codec) (index : ℕ) (info : BufferInfo) (capacity : ℕ) (s : Session N) (w : World)
      → input_state (copy_checked N codec index info capacity s w).session ≡ input_state s
  unfolding copy_checked copy_output
  copy_checked-kept codec index info capacity s w =
      let (w1, source) = output_buffer codec index w in
      let copied : input_state (copy_output N codec index info (pos_part info.offset) s w).session
          ≡ input_state s =
        elim (Option-cases (buffer_bytes N source (pos_part info.offset) (pos_part info.size))) [
          | inl e ↦ rw (e, copy_output) refl
          | inr (payload, e) ↦
              rw (e, copy_output) (count_output-kept (pos_part info.size) info.flags s)
        ] in
      if-kept s (ltb capacity (record_size N info.size) || is_negative info.offset) _ _ refl copied

  output_buffer_at-kept :
      (codec : Codec) (index : ℕ) (info : BufferInfo) (timeout_ms capacity : ℕ) (s : Session N)
      (w : World)
      → input_state (output_buffer_at N codec index info timeout_ms capacity s w).session
        ≡ input_state s
  unfolding output_buffer_at
  output_buffer_at-kept codec index info timeout_ms capacity s w =
      let copied = copy_checked-kept codec index info capacity s w in
      let checked = copy_checked N codec index info capacity s w in
      elim (pipeline_is s.pipeline) [
        | decodes c reader e ↦
            let same : output_buffer_at N codec index info timeout_ms capacity s w ≡ (
                if is_positive info.size
                then render_image N codec reader index info timeout_ms capacity s w
                else checked) =
              simp (e, output_buffer_at) in
            ap (λ r. input_state r.session) same
            ∙ if-kept s (is_positive info.size) _ checked
                (render_image-kept codec reader index info timeout_ms capacity s w) copied
        | encodes c e ↦
            let same : output_buffer_at N codec index info timeout_ms capacity s w ≡ checked =
              simp (e, output_buffer_at) in
            ap (λ r. input_state r.session) same ∙ copied
        | transcodes d c surface e ↦
            let same : output_buffer_at N codec index info timeout_ms capacity s w ≡ checked =
              simp (e, output_buffer_at) in
            ap (λ r. input_state r.session) same ∙ copied
      ]

  dequeue_rounds-kept :
      (attempts : ℕ) (codec : Codec) (timeout_ms capacity : ℕ) (s : Session N) (w : World)
      → input_state (dequeue_rounds N attempts codec timeout_ms capacity s w).session
        ≡ input_state s
  unfolding dequeue_rounds output_format_now
  dequeue_rounds-kept zero codec timeout_ms capacity s w = refl
  dequeue_rounds-kept (suc attempts) codec timeout_ms capacity s w =
      let (w', index) = dequeue_output codec (timeout_ms * 1000) w in
      elim (index_is index) [
        | waits e ↦ rw (e, dequeue_rounds) refl
        | changes e ↦ rw (e, dequeue_rounds) refl
        | rebuffers e ↦
            rw (e, dequeue_rounds) (dequeue_rounds-kept attempts codec timeout_ms capacity s w')
        | negative e ↦
            rw (e, dequeue_rounds) (dequeue_rounds-kept attempts codec timeout_ms capacity s w')
        | holds n info e ↦
            rw (e, dequeue_rounds) (output_buffer_at-kept codec n info timeout_ms capacity s w')
      ]

  dequeue_pipeline-kept :
      (timeout_ms capacity : ℕ) (s : Session N) (w : World)
      → ltb capacity 20 ≡ false
      → input_state (dequeue_internal N timeout_ms capacity s w).session ≡ input_state s
  unfolding dequeue_internal
  dequeue_pipeline-kept timeout_ms capacity s w h = elim (pipeline_is s.pipeline) [
    | decodes c reader e ↦
        let pending = output_pending_image N reader timeout_ms capacity s w in
        let rounds = dequeue_rounds N 3 c timeout_ms capacity s w in
        let same : dequeue_internal N timeout_ms capacity s w
            ≡ (if s.pending_image then pending else rounds) =
          simp (e, h, dequeue_internal) in
        ap (λ r. input_state r.session) same
        ∙ if-kept s s.pending_image pending rounds
            (output_pending_image-kept reader timeout_ms capacity s w)
            (dequeue_rounds-kept 3 c timeout_ms capacity s w)
    | encodes c e ↦
        let same : dequeue_internal N timeout_ms capacity s w
            ≡ dequeue_rounds N 3 c timeout_ms capacity s w =
          simp (e, h, dequeue_internal) in
        ap (λ r. input_state r.session) same ∙ dequeue_rounds-kept 3 c timeout_ms capacity s w
    | transcodes d c surface e ↦
        let pumped = pump_transcoder N timeout_ms s w in
        let kept = pump_transcoder-kept N timeout_ms s w in
        let rounds =
          dequeue_rounds N 3 (output_codec pumped.session.pipeline) timeout_ms capacity
            pumped.session pumped.world in
        let same : dequeue_internal N timeout_ms capacity s w
            ≡ (if is_ok pumped.status then rounds else take_nothing pumped) =
          simp (e, h, dequeue_internal) in
        ap (λ r. input_state r.session) same
        ∙ if-kept s (is_ok pumped.status) rounds (take_nothing pumped)
            (dequeue_rounds-kept 3 (output_codec pumped.session.pipeline) timeout_ms capacity
                pumped.session pumped.world
              ∙ kept)
            kept
  ]

  -- `dscw_codec_dequeue` changes nothing that decides what input the session takes.
  pub dscw_codec_dequeue-kept :
      (timeout_ms capacity : ℕ) (s : Session N) (w : World)
      → input_state (dscw_codec_dequeue N timeout_ms capacity s w).session ≡ input_state s
  unfolding dscw_codec_dequeue dequeue_internal
  dscw_codec_dequeue-kept timeout_ms capacity s w =
      let (w1, started) = monotonic_ns N w in
      elim (Bool-cases (ltb capacity 20)) [
        | inl e ↦ rw (e, dscw_codec_dequeue) refl
        | inr e ↦ dequeue_pipeline-kept timeout_ms capacity s w1 e
      ]
