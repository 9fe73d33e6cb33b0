-- ===== src/Media/Pumped.antt =====
-- The part of a session that decides what input it takes, which `pump_transcoder` leaves alone.
use dawnshell.Prelude.{
  ℕ, zero, suc, ◌*◌, ◌≡◌, refl, ap, ◌∙◌, inl, inr, Bool, true, false, if◌then◌else◌, Option-cases,
  has_bit,
}
use dawnshell.Media.Cases.{
  waits, changes, rebuffers, negative, holds, index_is, decodes, encodes, transcodes, pipeline_is,
  is_done, goes_on, is_bad, status_is,
}
use dawnshell.Media.Input.{
  is_ok, is_positive, count_surface, signal_eos, pump_buffer, pump_rounds, pump_transcoder,
}
use dawnshell.Media.Ndk.{BufferInfo, Ndk}
use dawnshell.Media.Pending.{Taken}
use dawnshell.Media.Session.{flag_end_of_stream, Pipeline, encoder, Session, Step, done}
use dawnshell.Worker.Platform.{codec_ok}

-- Whether its end was queued, the last time stamp of a frame of an encoder, and the codecs.
abbrev pub input_state : {N : Ndk} → Session N → Bool × (Bool × (ℕ × Pipeline N))
input_state s = (s.input_eos, (s.have_encoder_pts, (s.last_encoder_pts, s.pipeline)))

module _ {N : Ndk} where
  pub if-kept :
      (s : Session N) (t : Bool) (x y : Taken N)
      → input_state x.session ≡ input_state s
      → input_state y.session ≡ input_state s
      → input_state (if t then x else y).session ≡ input_state s
  if-kept s true x y h h' = h
  if-kept s false x y h h' = h'

  pub if-kept_step :
      (s : Session N) (t : Bool) (x y : Step N)
      → input_state x.session ≡ input_state s
      → input_state y.session ≡ input_state s
      → input_state (if t then x else y).session ≡ input_state s
  if-kept_step s true x y h h' = h
  if-kept_step s false x y h h' = h'

module _ (N : Ndk) where
  open N use {World, Codec, dequeue_output, release_output, signal_input_eos}

  signal_eos-kept :
      (codec : Codec) (s : Session N) (w : World)
      → input_state (signal_eos N codec s w).session ≡ input_state s
  unfolding signal_eos
  signal_eos-kept codec s w = elim (Option-cases signal_input_eos) [
    | inl e ↦ rw (e, signal_eos) refl
    | inr (signal, e) ↦ rw (e, signal_eos) (if-kept_step s (is_ok (signal codec w).1) _ _ refl refl)
  ]

  count_surface-kept :
      (render : Bool) (s : Session N) → input_state (count_surface N render s) ≡ input_state s
  count_surface-kept true s = refl
  count_surface-kept false s = refl

  pump_buffer-kept :
      (d e : Codec) (index : ℕ) (info : BufferInfo) (s : Session N) (w : World)
      → input_state (pump_buffer N d e index info s w).session ≡ input_state s
  unfolding pump_buffer
  pump_buffer-kept d e index info s w =
      let render = is_positive info.size in
      let kept = count_surface-kept render s in
      let (w', status) = release_output d index render w in
      if-kept_step s (is_ok status) _ _
        (if-kept_step s (has_bit info.flags flag_end_of_stream) _ _
          (signal_eos-kept e (count_surface N render s) w' ∙ kept) kept)
        kept

  pump_rounds-kept :
      (attempts : ℕ) (d e : Codec) (timeout : ℕ) (s : Session N) (w : World)
      → input_state (pump_rounds N attempts d e timeout s w).session ≡ input_state s
  unfolding pump_rounds
  pump_rounds-kept zero d e timeout s w = refl
  pump_rounds-kept (suc attempts) d e timeout s w =
      let (w', index) = dequeue_output d timeout w in
      elim (index_is index) [
        | waits i ↦ rw (i, pump_rounds) refl
        | changes i ↦ rw (i, pump_rounds) (pump_rounds-kept attempts d e 0 s w')
        | rebuffers i ↦ rw (i, pump_rounds) (pump_rounds-kept attempts d e 0 s w')
        | negative i ↦ rw (i, pump_rounds) (pump_rounds-kept attempts d e 0 s w')
        | holds n info i ↦
            let r = pump_buffer N d e n info s w' in
            let kept = pump_buffer-kept d e n info s w' in
            elim (status_is r.status) [
              | goes_on k j ↦
                  rw (i, j, pump_rounds) (pump_rounds-kept attempts d e 0 r.session r.world ∙ kept)
              | is_done j ↦ rw (i, j, pump_rounds) kept
              | is_bad k j ↦ rw (i, j, pump_rounds) kept
            ]
      ]

  -- A session without a surface has nothing to pump.
  pub pump_transcoder-encoder :
      (timeout_ms : ℕ) (c : Codec) (s : Session N) (w : World)
      → s.pipeline ≡ encoder c
      → pump_transcoder N timeout_ms s w ≡ done N w s codec_ok
  unfolding pump_transcoder
  pump_transcoder-encoder timeout_ms c s w e = simp (e, pump_transcoder)

  pub pump_transcoder-kept :
      (timeout_ms : ℕ) (s : Session N) (w : World)
      → input_state (pump_transcoder N timeout_ms s w).session ≡ input_state s
  unfolding pump_transcoder
  pump_transcoder-kept timeout_ms s w = elim (pipeline_is s.pipeline) [
    | decodes c reader e ↦
        let same : pump_transcoder N timeout_ms s w ≡ done N w s codec_ok =
          simp (e, pump_transcoder) in
        ap (λ r. input_state r.session) same
    | encodes c e ↦ ap (λ r. input_state r.session) (pump_transcoder-encoder timeout_ms c s w e)
    | transcodes d c surface e ↦
        let pumped = pump_rounds N 16 d c (timeout_ms * 1000) s w in
        let same : pump_transcoder N timeout_ms s w
            ≡ (if s.encoder_eos_signaled then done N w s codec_ok else pumped) =
          simp (e, pump_transcoder) in
        ap (λ r. input_state r.session) same
        ∙ if-kept_step s s.encoder_eos_signaled _ pumped refl
            (pump_rounds-kept 16 d c (timeout_ms * 1000) s w)
  ]
