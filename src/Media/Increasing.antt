-- ===== src/Media/Increasing.antt =====
-- The time stamps of the frames that an encoder accepts increase.
use mathlib.Core.Path.{subst}
use dawnshell.Prelude.{
  ℕ, ◌≡◌, refl, ap, ◌∙◌, ◌⊎◌, inl, inr, Bool, true, false, Option, none, some, List, [], ◌∷◌, arith,
  leb, if◌then◌else◌, Bool-cases, has_bit, length,
}
use dawnshell.Media.Ended.{end-kept}
use dawnshell.Media.Input.{count_input, input_error, dscw_codec_queue}
use dawnshell.Media.Kept.{dscw_codec_dequeue-kept}
use dawnshell.Media.Ndk.{Ndk}
use dawnshell.Media.Order.{keyframe-kept}
use dawnshell.Media.Pumped.{input_state}
use dawnshell.Media.Run.{
  accepted, Operation, queue_record, end_stream, take_output, ask_keyframe, perform, accepted_by,
  IsAbove, IsIncreasing,
}
use dawnshell.Media.Session.{flag_codec_config, Pipeline, encoder, Session, monotonic_ns}
use dawnshell.Media.Stamps.{count_input-pipeline, queue_internal-IsQueued}
use dawnshell.Worker.Dispatch.{counted}

-- The last time stamp, if there is one.
abbrev pub bound_of : {N : Ndk} → Bool × (ℕ × Pipeline N) → Option ℕ
bound_of (have, (last, pipeline)) = if have then some last else none

module _ (N : Ndk) where
  open N use {World, Codec}

  frame-IsAbove :
      (size pts flags : ℕ) (c : Codec) (s : Session N)
      → s.pipeline ≡ encoder c
      → has_bit flags flag_codec_config ≡ false
      → input_error N s size pts flags ≡ none
      → IsAbove (bound_of (input_state s).1) pts
  unfolding input_error
  frame-IsAbove size pts flags c s e frame h = elim (Bool-cases s.have_encoder_pts) [
    | inl have ↦ elim (Bool-cases (leb pts s.last_encoder_pts)) [
      | inl late ↦ let h' = rw (e, frame, have, late, input_error) at h in ground (arith, h')
      | inr early ↦ rw have (ground (arith, early))
    ]
    | inr have ↦ rw have tt
  ]

  count_frame :
      (size pts flags : ℕ) (c : Codec) (s : Session N)
      → s.pipeline ≡ encoder c
      → has_bit flags flag_codec_config ≡ false
      → bound_of (input_state (count_input N size pts flags s)).1 ≡ some pts
  unfolding count_input
  count_frame size pts flags c s e frame = rw (frame, e) refl

  count_config :
      (size pts flags : ℕ) (s : Session N)
      → has_bit flags flag_codec_config ≡ true
      → (input_state (count_input N size pts flags s)).1 ≡ (input_state s).1
  unfolding count_input
  count_config size pts flags s config = simp config

  -- What one operation accepts, and what the session remembers of it.
  abbrev IsNext : Operation → Session N → World → Type 0
  IsNext o s w =
      ((accepted N o s w ≡ []) × ((input_state (perform N o s w).1).1 ≡ (input_state s).1))
      ⊎ ((pts : ℕ) × (flags : ℕ) × (accepted N o s w ≡ (pts, flags) ∷ [])
          × (((has_bit flags flag_codec_config ≡ true)
                × ((input_state (perform N o s w).1).1 ≡ (input_state s).1))
              ⊎ ((has_bit flags flag_codec_config ≡ false)
                  × (IsAbove (bound_of (input_state s).1) pts)
                  × ((perform N o s w).1.pipeline ≡ s.pipeline)
                  × (bound_of (input_state (perform N o s w).1).1 ≡ some pts))))

  queue_record-IsNext :
      (bytes : List ℕ) (pts flags : ℕ) (c : Codec) (s : Session N) (w : World)
      → s.pipeline ≡ encoder c
      → IsNext (queue_record bytes pts flags) s w
  unfolding dscw_codec_queue
  queue_record-IsNext bytes pts flags c s w e =
      let (w1, started) = monotonic_ns N w in
      elim (queue_internal-IsQueued N bytes pts flags c s w1 e) [
        | inl (bad, kept) ↦ inl (rw (bad, dscw_codec_queue) refl, ap (λ p. p.1) kept)
        | inr (passed, inl (bad, kept)) ↦ inl (rw (bad, dscw_codec_queue) refl, ap (λ p. p.1) kept)
        | inr (passed, inr (good, counted)) ↦ inr (
          pts,
          flags,
          rw (good, dscw_codec_queue) refl,
          elim (Bool-cases (has_bit flags flag_codec_config)) [
            | inl config ↦
                inl (config, ap (λ p. p.1) counted ∙ count_config (length bytes) pts flags s config)
            | inr frame ↦ inr (
              frame,
              frame-IsAbove (length bytes) pts flags c s e frame passed,
              ap (λ p. p.1.1.1) counted ∙ count_input-pipeline N (length bytes) pts flags s,
              ap (λ p. bound_of p.1) counted ∙ count_frame (length bytes) pts flags c s e frame,
            )
          ],
        )
      ]

  perform-IsNext :
      (o : Operation) (c : Codec) (s : Session N) (w : World)
      → s.pipeline ≡ encoder c
      → IsNext o s w
  perform-IsNext (queue_record bytes pts flags) c s w e =
      queue_record-IsNext bytes pts flags c s w e
  perform-IsNext (end_stream pts) c s w e = inl (refl, end-kept N pts c s w e)
  perform-IsNext (take_output timeout_ms capacity) c s w e =
      inl (refl, ap (λ p. p.1) (dscw_codec_dequeue-kept N timeout_ms capacity s w))
  perform-IsNext ask_keyframe c s w e = inl (refl, ap (λ p. p.1) (keyframe-kept N s w))

  -- Between two flushes, the time stamps of the frames that an encoder session accepts increase, and all
  -- are above the last one that it remembers, whatever other operations are asked of it in between.
  pub accepted_by-IsIncreasing :
      (os : List Operation) (c : Codec) (s : Session N) (w : World)
      → s.pipeline ≡ encoder c
      → IsIncreasing (bound_of (input_state s).1) (accepted_by N os s w)
  unfolding accepted_by
  accepted_by-IsIncreasing [] c s w e = tt
  accepted_by-IsIncreasing (o ∷ os) c s w e =
      let (w', s') = perform N o s w in
      elim (perform-IsNext o c s w e) [
        | inl (nothing, kept) ↦
            let rest = accepted_by-IsIncreasing os c s' w' (ap (λ p. p.1.1) kept ∙ e) in
            rw nothing (subst (λ p. IsIncreasing (bound_of p) (accepted_by N os s' w')) kept rest)
        | inr (pts, flags, one, inl (config, kept)) ↦
            let rest = accepted_by-IsIncreasing os c s' w' (ap (λ p. p.1.1) kept ∙ e) in
            rw (one, config, IsIncreasing)
              (subst (λ p. IsIncreasing (bound_of p) (accepted_by N os s' w')) kept rest)
        | inr (pts, flags, one, inr (frame, above, same, bound)) ↦
            let rest = accepted_by-IsIncreasing os c s' w' (same ∙ e) in
            rw (one, frame, IsIncreasing)
              (above, subst (λ b. IsIncreasing b (accepted_by N os s' w')) bound rest)
      ]
