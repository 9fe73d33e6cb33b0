-- ===== src/Media/Run.antt =====
-- Runs of the operations on one session between two flushes, and the records that they accept.
use dawnshell.Prelude.{
  ℕ, ◌<◌, true, false, Option, none, some, List, [], ◌∷◌, ◌++◌, if◌then◌else◌, has_bit,
}
use dawnshell.Media.Control.{dscw_codec_request_keyframe}
use dawnshell.Media.Input.{is_ok, dscw_codec_queue, dscw_codec_queue_eos}
use dawnshell.Media.Ndk.{Ndk}
use dawnshell.Media.Output.{dscw_codec_dequeue}
use dawnshell.Media.Session.{flag_codec_config, Session}

pub data Operation : Type 0 where
  queue_record : List ℕ → ℕ → ℕ → Operation
  end_stream : ℕ → Operation
  take_output : ℕ → ℕ → Operation
  ask_keyframe : Operation

module _ (N : Ndk) where
  open N use {World}

  abbrev pub perform : Operation → Session N → World → World × Session N
  perform (queue_record bytes pts flags) s w =
      let r = dscw_codec_queue N bytes pts flags s w in (r.world, r.session)
  perform (end_stream pts) s w = let r = dscw_codec_queue_eos N pts s w in (r.world, r.session)
  perform (take_output timeout_ms capacity) s w =
      let r = dscw_codec_dequeue N timeout_ms capacity s w in (r.world, r.session)
  perform ask_keyframe s w = let r = dscw_codec_request_keyframe N s w in (r.world, r.session)

  -- The time stamp and the flags of a record that is queued with the status OK.
  abbrev pub accepted : Operation → Session N → World → List (ℕ × ℕ)
  accepted (queue_record bytes pts flags) s w =
      if is_ok (dscw_codec_queue N bytes pts flags s w).status then (pts, flags) ∷ [] else []
  accepted _ s w = []

  unfoldable pub accepted_by : List Operation → Session N → World → List (ℕ × ℕ)
  accepted_by [] s w = []
  accepted_by (o ∷ os) s w = let (w', s') = perform o s w in accepted o s w ++ accepted_by os s' w'

abbrev pub IsAbove : Option ℕ → ℕ → Type 0
IsAbove none pts = Unit
IsAbove (some last) pts = last < pts

-- The time stamps of the frames increase, the first of them above the bound; records with the flag for
-- configuration do not count.
abbrev pub IsIncreasing : Option ℕ → List (ℕ × ℕ) → Type 0
IsIncreasing bound [] = Unit
IsIncreasing bound ((pts, flags) ∷ rest) = elim (has_bit flags flag_codec_config) [
  | true ↦ IsIncreasing bound rest
  | false ↦ (IsAbove bound pts) × IsIncreasing (some pts) rest
]
