-- ===== src/Worker/Spec.antt =====
-- The session table as a partial map from identifiers to codec sessions, and what a request may do
-- to that map.
use dawnshell.Prelude.{
  ℕ, ◌+◌, ◌^◌, ◌<◌, ◌≡◌, ◌≢◌, Option, none, some, List, arith, ◌==◌, if◌then◌else◌,
}
use dawnshell.Worker.Dispatch.{read_request, dispatch_request}
use dawnshell.Worker.Invariant.{IsWf}
use dawnshell.Worker.Platform.{Platform}
use dawnshell.Worker.Steps.{TableStep, keep, open_free, close_used}
use dawnshell.Worker.Steps.Request.{dispatch_request-Served}
use dawnshell.Worker.Table.{
  WorkerState, first, second, next_id, next_id_plain, next_id_ne_zero, reserve_session, open_slot,
}

module _ (P : Platform) where
  open P use {World, Codec}

  -- `dispatch_session` looks 0 up in the table too, and refuses it afterwards.
  unfoldable pub lookup : WorkerState Codec → ℕ → Option Codec
  lookup s id =
      if id == 0
      then none
      else if s.slot0.id == id
      then some s.slot0.codec
      else if s.slot1.id == id
      then some s.slot1.codec
      else none

  -- What a request for session `id` may do: nothing, open a session under a new identifier, or
  -- close session `id`.
  pub data SpecStep (id : ℕ) (m m' : ℕ → Option Codec) : Type 0 where
    stay : ((k : ℕ) → m' k ≡ m k) → SpecStep id m m'
    add :
        (new : ℕ) (c : Codec)
        → new ≢ 0
        → m new ≡ none
        → ((k : ℕ) → m' k ≡ (if k == new then some c else m k))
        → SpecStep id m m'
    remove : m id ≢ none → ((k : ℕ) → m' k ≡ (if k == id then none else m k)) → SpecStep id m m'

  TableStep-SpecStep :
      {id : ℕ} {s t : WorkerState Codec}
      → IsWf P s
      → s.next_session_id + 1 < 2 ^ 64
      → TableStep P id s t
      → SpecStep id (lookup s) (lookup t)
  unfolding open_slot lookup reserve_session
  TableStep-SpecStep wf room (keep h) = stay (λ k. ground arith)
  TableStep-SpecStep {s = s} wf room (open_free first c r h) =
      add (next_id s.next_session_id) c (next_id_ne_zero s.next_session_id)
        (ground (arith, next_id_plain s.next_session_id))
        (λ k. ground (arith, next_id_plain s.next_session_id))
  TableStep-SpecStep {s = s} wf room (open_free second c r h) =
      add (next_id s.next_session_id) c (next_id_ne_zero s.next_session_id)
        (ground (arith, next_id_plain s.next_session_id))
        (λ k. ground (arith, next_id_plain s.next_session_id))
  TableStep-SpecStep wf room (close_used first z r h) = remove (ground arith) (λ k. ground arith)
  TableStep-SpecStep wf room (close_used second z r h) = remove (ground arith) (λ k. ground arith)

  -- The worker refines the map: on a well-formed table whose counter has not run out, a request
  -- for session `id` leaves the map alone, adds one session under an identifier that was free and
  -- is not 0, or removes session `id`.
  pub dispatch_request-SpecStep :
      (s : WorkerState Codec) (slot : List ℕ) (request_length capacity : ℕ) (w : World)
      → IsWf P s
      → s.next_session_id + 1 < 2 ^ 64
      → SpecStep
          (read_request slot).session_id
          (lookup s)
          (lookup (dispatch_request P s slot request_length capacity w).state)
  dispatch_request-SpecStep s slot request_length capacity w wf room =
      TableStep-SpecStep wf room (dispatch_request-Served P s slot request_length capacity w).step
