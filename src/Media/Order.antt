-- ===== src/Media/Order.antt =====
-- What a session accepts: nothing behind the end of its stream, and for an encoder only frames whose
-- time stamps increase.
use mathlib.Core.Path.{subst}
use dawnshell.Prelude.{
  ℕ, ◌≡◌, refl, sym, ap, ◌∙◌, inl, inr, Bool, true, false, if◌then◌else◌, List, [], ◌∷◌, ◌++◌,
  arith, Option-cases, codes, set, ℤ,
}
use dawnshell.Media.Cases.{
  decodes, encodes, transcodes, pipeline_is, is_done, goes_on, is_bad, status_is,
}
use dawnshell.Media.Control.{set_sync, request_sync, dscw_codec_request_keyframe}
use dawnshell.Media.Input.{
  is_ok, input_error, queue_internal, dscw_codec_queue, queue_eos_buffer, queue_eos_next,
  pump_transcoder, show_status, dscw_codec_queue_eos,
}
use dawnshell.Media.Kept.{dscw_codec_dequeue-kept}
use dawnshell.Media.Ndk.{Ndk}
use dawnshell.Media.Pumped.{input_state, if-kept_step, pump_transcoder-kept}
use dawnshell.Media.Run.{
  accepted, Operation, queue_record, end_stream, take_output, ask_keyframe, perform, accepted_by,
}
use dawnshell.Media.Session.{
  Session, Step, input_codec, flag_end_of_stream, record_latency, plus, monotonic_ns, and_then,
  fail,
}
use dawnshell.Worker.Platform.{error_unsupported, error_codec, error_session}

module _ (N : Ndk) where
  open N use {World, Codec, new_format, set_parameters}

  set_sync-kept :
      (set : Codec → World → World × ℤ) (codec : Codec) (s : Session N) (w : World)
      → input_state (set_sync N set codec s w).session ≡ input_state s
  unfolding set_sync
  set_sync-kept set codec s w =
      let (w1, made) = new_format w in
      let (w2, status) = set codec w1 in
      if-kept_step s made _ _ (if-kept_step s (is_ok status) _ _ refl refl) refl

  request_sync-kept :
      (codec : Codec) (s : Session N) (w : World)
      → input_state (request_sync N codec s w).session ≡ input_state s
  unfolding request_sync
  request_sync-kept codec s w = elim (Option-cases set_parameters) [
    | inl e ↦ rw (e, request_sync) refl
    | inr (set, e) ↦ rw (e, request_sync) (set_sync-kept set codec s w)
  ]

  pub keyframe-kept :
      (s : Session N) (w : World)
      → input_state (dscw_codec_request_keyframe N s w).session ≡ input_state s
  unfolding dscw_codec_request_keyframe
  keyframe-kept s w =
      let refusal = fail N w s error_unsupported (codes "keyframe request requires an encoder") in
      elim (pipeline_is s.pipeline) [
        | decodes c reader e ↦
            let same : dscw_codec_request_keyframe N s w ≡ refusal =
              simp (e, dscw_codec_request_keyframe) in
            ap (λ r. input_state r.session) same
        | encodes c e ↦
            let same : dscw_codec_request_keyframe N s w ≡ request_sync N c s w =
              simp (e, dscw_codec_request_keyframe) in
            ap (λ r. input_state r.session) same ∙ request_sync-kept c s w
        | transcodes d c surface e ↦
            let same : dscw_codec_request_keyframe N s w ≡ request_sync N c s w =
              simp (e, dscw_codec_request_keyframe) in
            ap (λ r. input_state r.session) same ∙ request_sync-kept c s w
      ]

  -- A closed session refuses every record, and stays as it is.
  closed-queue :
      (bytes : List ℕ) (pts flags : ℕ) (s : Session N) (w : World)
      → s.input_eos ≡ true
      → (is_ok (dscw_codec_queue N bytes pts flags s w).status ≡ false)
        × ((dscw_codec_queue N bytes pts flags s w).session.input_eos ≡ true)
  unfolding dscw_codec_queue queue_internal input_error
  closed-queue bytes pts flags s w h = rw (h, dscw_codec_queue) (refl, refl)

  closed-end :
      (pts : ℕ) (s : Session N) (w : World)
      → s.input_eos ≡ true
      → (is_ok (dscw_codec_queue_eos N pts s w).status ≡ false)
        × ((dscw_codec_queue_eos N pts s w).session.input_eos ≡ true)
  unfolding dscw_codec_queue_eos
  closed-end pts s w h = rw (h, dscw_codec_queue_eos) (refl, refl)

  closed-perform :
      (o : Operation) (s : Session N) (w : World)
      → s.input_eos ≡ true
      → (accepted N o s w ≡ []) × ((perform N o s w).1.input_eos ≡ true)
  closed-perform (queue_record bytes pts flags) s w h =
      let (refused_it, stays) = closed-queue bytes pts flags s w h in (rw refused_it refl, stays)
  closed-perform (end_stream pts) s w h = (refl, (closed-end pts s w h).1)
  closed-perform (take_output timeout_ms capacity) s w h =
      (refl, ap (λ p. p.0) (dscw_codec_dequeue-kept N timeout_ms capacity s w) ∙ h)
  closed-perform ask_keyframe s w h = (refl, ap (λ p. p.0) (keyframe-kept s w) ∙ h)

  closed-accepted_by :
      (os : List Operation) (s : Session N) (w : World)
      → s.input_eos ≡ true
      → accepted_by N os s w ≡ []
  unfolding accepted_by
  closed-accepted_by [] s w h = refl
  closed-accepted_by (o ∷ os) s w h =
      let (nothing, stays) = closed-perform o s w h in
      let (w', s') = perform N o s w in rw nothing (closed-accepted_by os s' w' stays)

  -- A step that succeeds has closed the session.
  abbrev Closes : Step N → Type 0
  Closes r = is_ok r.status ≡ true → r.session.input_eos ≡ true

  if-Closes : (t : Bool) (x y : Step N) → Closes x → Closes y → Closes (if t then x else y)
  if-Closes true x y h h' = h
  if-Closes false x y h h' = h'

  fail-Closes :
      (w : World) (s : Session N) (status : ℤ) (text : List ℕ)
      → is_ok status ≡ false
      → Closes (fail N w s status text)
  fail-Closes w s status text bad good = cc

  and_then-Closes :
      (r : Step N) (f : World → Session N → Step N)
      → ((w : World) (s : Session N) → Closes (f w s))
      → Closes (and_then N r f)
  and_then-Closes r f h = elim (status_is r.status) [
    | is_done e ↦
        let same : and_then N r f ≡ f r.world r.session = simp (e, and_then) in
        subst Closes (sym same) (h r.world r.session)
    | goes_on k e ↦
        let same : and_then N r f ≡ r = simp (e, and_then) in
        subst Closes (sym same) (λ ok. ground (arith, e, ok))
    | is_bad k e ↦
        let same : and_then N r f ≡ r = simp (e, and_then) in
        subst Closes (sym same) (λ ok. ground (arith, e, ok))
  ]

  queue_eos_buffer-Closes :
      (pts started index : ℕ) (s : Session N) (w : World)
      → Closes (queue_eos_buffer N pts started index s w)
  unfolding queue_eos_buffer
  queue_eos_buffer-Closes pts started index s w =
      let (w1, queued) = N.queue_input (input_codec s.pipeline) index [] pts flag_end_of_stream w in
      let (w2, latency) = record_latency N s.counters.input_latency started w1 in
      let c = record (s.counters) { input_latency = latency } in
      let closed : Session N = record s {
        input_eos = true;
        counters = record c { input_eos_count = plus c.input_eos_count 1 };
      } in
      let failed : Session N = record s { counters = record c { errors = plus c.errors 1 } } in
      let text = codes "could not queue codec EOS: " ++ show_status queued in
      if-Closes (is_ok queued) (pump_transcoder N 0 closed w2) (fail N w2 failed error_codec text)
        (λ _. ap (λ p. p.0) (pump_transcoder-kept N 0 closed w2))
        (fail-Closes w2 failed error_codec text refl)

  queue_eos_next-Closes :
      (pts started : ℕ) (s : Session N) (w : World) → Closes (queue_eos_next N pts started s w)
  unfolding queue_eos_next
  queue_eos_next-Closes pts started s w =
      elim (Option-cases (N.dequeue_input (input_codec s.pipeline) 100000 w).1) [
        | inl e ↦ rw (e, queue_eos_next) (λ bad. cc)
        | inr (i, e) ↦ rw (e, queue_eos_next) (queue_eos_buffer-Closes pts started i s _)
      ]

  queue_eos-Closes : (pts : ℕ) (s : Session N) (w : World) → Closes (dscw_codec_queue_eos N pts s w)
  unfolding dscw_codec_queue_eos
  queue_eos-Closes pts s w =
      let failed : Session N = record s {
        counters = record (s.counters) { errors = plus s.counters.errors 1 };
      } in
      let text = codes "codec EOS was already queued" in
      let w' = (monotonic_ns N w).0 in
      let next : World → Session N → Step N =
        λ w1 s1. queue_eos_next N pts (monotonic_ns N w).1 s1 w1 in
      let pumped = pump_transcoder N 0 s w' in
      if-Closes s.input_eos (fail N w' failed error_session text) (and_then N pumped next)
        (fail-Closes w' failed error_session text refl)
        (and_then-Closes pumped next
          (λ w1 s1. queue_eos_next-Closes pts (monotonic_ns N w).1 s1 w1))

  -- Once the end of its input is queued with success, a session accepts no record, whatever operations
  -- other than a flush are asked of it.
  pub accepted_by-closed :
      (os : List Operation) (pts : ℕ) (s : Session N) (w : World)
      → is_ok (dscw_codec_queue_eos N pts s w).status ≡ true
      → accepted_by N (end_stream pts ∷ os) s w ≡ []
  unfolding accepted_by
  accepted_by-closed os pts s w ended =
      let (w', s') = perform N (end_stream pts) s w in
      closed-accepted_by os s' w' (queue_eos-Closes pts s w ended)
