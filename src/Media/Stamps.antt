-- ===== src/Media/Stamps.antt =====
-- The time stamps of the frames that an encoder accepts increase.
use mathlib.Core.Path.{subst}
use dawnshell.Prelude.{
  ℕ, ◌≡◌, refl, sym, ◌∙◌, ◌⊎◌, inl, inr, Bool, true, false, not, ◌&&◌, ◌||◌, Option, none, some,
  List, ltb, leb, ◌==◌, ◌!=◌, if◌then◌else◌, Bool-cases, Option-cases, has_bit, clear_bit, length,
  ℤ,
}
use dawnshell.Media.Input.{
  is_ok, pump_transcoder, count_input, input_error, queue_buffer, queue_next, queue_internal,
}
use dawnshell.Media.Ndk.{Ndk}
use dawnshell.Media.Pumped.{input_state, pump_transcoder-encoder}
use dawnshell.Media.Session.{
  again, flag_codec_config, max_record, encoder, Session, is_encoder, input_codec, Step, done,
}

pub if-holds :
    {A : Type 0} (P : A → Type 0) (t : Bool) (x y : A) → P x → P y → P (if t then x else y)
if-holds P true x y h h' = h
if-holds P false x y h h' = h'

module _ (N : Ndk) where
  open N use {World, Codec, dequeue_input, input_capacity, queue_input}

  pub count_input-pipeline :
      (size pts flags : ℕ) (s : Session N) → (count_input N size pts flags s).pipeline ≡ s.pipeline
  unfolding count_input
  count_input-pipeline size pts flags s =
      elim (Bool-cases (not (has_bit flags flag_codec_config) && is_encoder s.pipeline)) [
        | inl e ↦ rw e refl
        | inr e ↦ rw e refl
      ]

  -- What a record that an encoder takes leaves: an error and the session, or the session with the
  -- record counted.
  abbrev pub IsQueued : ℕ → ℕ → ℕ → Session N → Step N → Type 0
  IsQueued size pts flags s r =
      ((is_ok r.status ≡ false) × (input_state r.session ≡ input_state s))
      ⊎ ((is_ok r.status ≡ true)
          × (input_state r.session ≡ input_state (count_input N size pts flags s)))

  queue_buffer-IsQueued :
      (bytes : List ℕ) (pts flags index : ℕ) (c : Codec) (s : Session N) (w : World)
      → s.pipeline ≡ encoder c
      → IsQueued (length bytes) pts flags s (queue_buffer N bytes pts flags index s w)
  unfolding queue_buffer
  queue_buffer-IsQueued bytes pts flags index c s w e =
      let P = IsQueued (length bytes) pts flags s in
      let codec = input_codec s.pipeline in
      let (w1, capacity) = input_capacity codec index w in
      let (w2, queued) =
        queue_input codec index bytes pts
          (if has_bit flags flag_codec_config then flag_codec_config else 0) w1 in
      let s' = count_input N (length bytes) pts flags s in
      let e' = count_input-pipeline (length bytes) pts flags s ∙ e in
      let pumped : P (pump_transcoder N 0 s' w2) =
        subst P (sym (pump_transcoder-encoder N 0 c s' w2 e')) (inr (refl, refl)) in
      if-holds P (elim capacity [ none ↦ false | some n ↦ leb (length bytes) n ]) _ _
        (if-holds P (is_ok queued) _ _ pumped (inl (refl, refl))) (inl (refl, refl))

  queue_next-IsQueued :
      (bytes : List ℕ) (pts flags : ℕ) (c : Codec) (s : Session N) (w : World)
      → s.pipeline ≡ encoder c
      → IsQueued (length bytes) pts flags s (queue_next N bytes pts flags s w)
  unfolding queue_next
  queue_next-IsQueued bytes pts flags c s w e =
      let (w', index) = dequeue_input (input_codec s.pipeline) 100000 w in
      let P = IsQueued (length bytes) pts flags s in
      elim index
        as (λ i.
          P (elim i [
            | none ↦ done N w' s again
            | some n ↦ queue_buffer N bytes pts flags n s w'
          ])) [
            | none ↦ inl (refl, refl)
            | some n ↦ queue_buffer-IsQueued bytes pts flags n c s w' e
          ]

  -- The guards refuse with an error.
  abbrev IsRefusal : Option (ℤ × List ℕ) → Type 0
  IsRefusal none = Unit
  IsRefusal (some (status, text)) = is_ok status ≡ false

  input_error-IsRefusal :
      (s : Session N) (size pts flags : ℕ) → IsRefusal (input_error N s size pts flags)
  unfolding input_error
  input_error-IsRefusal s size pts flags = if-holds IsRefusal s.input_eos _ _ refl (
      if-holds IsRefusal
        (size == 0 || (ltb max_record size || clear_bit flags flag_codec_config != 0)) _ _ refl
        (if-holds IsRefusal
          (is_encoder s.pipeline
            && (not (has_bit flags flag_codec_config)
                && (s.have_encoder_pts && leb pts s.last_encoder_pts)))
          _ _ refl tt))

  -- The record is refused, or it passed the guards and is counted.
  pub queue_internal-IsQueued :
      (bytes : List ℕ) (pts flags : ℕ) (c : Codec) (s : Session N) (w : World)
      → s.pipeline ≡ encoder c
      → (is_ok (queue_internal N bytes pts flags s w).status ≡ false)
          × (input_state (queue_internal N bytes pts flags s w).session ≡ input_state s)
        ⊎ (input_error N s (length bytes) pts flags ≡ none)
          × (IsQueued (length bytes) pts flags s (queue_internal N bytes pts flags s w))
  unfolding queue_internal
  queue_internal-IsQueued bytes pts flags c s w e =
      elim (Option-cases (input_error N s (length bytes) pts flags)) [
        | inr ((status, text), e') ↦
            let bad : is_ok status ≡ false =
              subst IsRefusal e' (input_error-IsRefusal s (length bytes) pts flags) in
            inl (rw (e', queue_internal) (bad, refl))
        | inl e' ↦
            let same : queue_internal N bytes pts flags s w ≡ queue_next N bytes pts flags s w =
              simp (e', pump_transcoder-encoder N 0 c s w e, queue_internal) in
            inr (
              e',
              subst (IsQueued (length bytes) pts flags s) (sym same)
                  (queue_next-IsQueued bytes pts flags c s w e),
            )
      ]
