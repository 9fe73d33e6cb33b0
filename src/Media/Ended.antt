-- ===== src/Media/Ended.antt =====
-- The end of the input of an encoder, which changes no time stamp.
use dawnshell.Prelude.{ℕ, ◌≡◌, refl, ap, ◌∙◌, inl, inr, true, [], Option-cases}
use dawnshell.Media.Input.{
  is_ok, pump_transcoder, queue_eos_buffer, queue_eos_next, dscw_codec_queue_eos,
}
use dawnshell.Media.Ndk.{Ndk}
use dawnshell.Media.Pumped.{input_state, pump_transcoder-encoder}
use dawnshell.Media.Session.{
  flag_end_of_stream, encoder, Session, plus, input_codec, Step, monotonic_ns, record_latency,
  and_then,
}
use dawnshell.Media.Stamps.{if-holds}

module _ (N : Ndk) where
  open N use {World, Codec, dequeue_input, queue_input}

  abbrev KeepsStamps : Session N → Step N → Type 0
  KeepsStamps s r = (input_state r.session).1 ≡ (input_state s).1

  queue_eos_buffer-kept :
      (pts started index : ℕ) (c : Codec) (s : Session N) (w : World)
      → s.pipeline ≡ encoder c
      → KeepsStamps s (queue_eos_buffer N pts started index s w)
  unfolding queue_eos_buffer
  queue_eos_buffer-kept pts started index c s w e =
      let (w1, queued) = queue_input (input_codec s.pipeline) index [] pts flag_end_of_stream w in
      let (w2, latency) = record_latency N s.counters.input_latency started w1 in
      let s' = record s {
        input_eos = true;
        counters = record (s.counters) {
          input_latency = latency;
          input_eos_count = plus s.counters.input_eos_count 1;
        };
      } in
      if-holds (KeepsStamps s) (is_ok queued) _ _
        (ap (λ r. (input_state r.session).1) (pump_transcoder-encoder N 0 c s' w2 e)) refl

  queue_eos_next-kept :
      (pts started : ℕ) (c : Codec) (s : Session N) (w : World)
      → s.pipeline ≡ encoder c
      → KeepsStamps s (queue_eos_next N pts started s w)
  unfolding queue_eos_next
  queue_eos_next-kept pts started c s w e =
      let (w1, index) = dequeue_input (input_codec s.pipeline) 100000 w in
      elim (Option-cases index) [
        | inl e' ↦ rw (e', queue_eos_next) refl
        | inr (i, e') ↦ rw (e', queue_eos_next) (queue_eos_buffer-kept pts started i c s w1 e)
      ]

  pub end-kept :
      (pts : ℕ) (c : Codec) (s : Session N) (w : World)
      → s.pipeline ≡ encoder c
      → (input_state (dscw_codec_queue_eos N pts s w).session).1 ≡ (input_state s).1
  unfolding dscw_codec_queue_eos
  end-kept pts c s w e =
      let (w1, started) = monotonic_ns N w in
      let next = queue_eos_next N pts started s w1 in
      let pumped = pump_transcoder-encoder N 0 c s w1 e in
      let rest =
        and_then N (pump_transcoder N 0 s w1) (λ w2 s'. queue_eos_next N pts started s' w2) in
      let same : rest ≡ next = simp pumped in
      if-holds (KeepsStamps s) s.input_eos _ rest refl
        (ap (λ r. (input_state r.session).1) same ∙ queue_eos_next-kept pts started c s w1 e)
