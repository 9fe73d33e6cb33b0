-- ===== src/Worker/Invariant.antt =====
-- What holds of the session table between two requests.
use dawnshell.Prelude.{ℕ, ◌+◌, ◌^◌, ◌≤◌, ◌<◌, ◌≢◌, List, arith}
use dawnshell.Worker.Dispatch.{dispatch_request}
use dawnshell.Worker.Platform.{Platform}
use dawnshell.Worker.Steps.{TableStep, keep, open_free, close_used}
use dawnshell.Worker.Steps.Request.{dispatch_request-Served}
use dawnshell.Worker.Table.{WorkerState, first, second, next_id_plain, open_slot, free_slot}

module _ (P : Platform) where
  open P use {World, Codec}

  -- Identifiers in use are apart, and none is above the counter.
  pub record IsWf (s : WorkerState Codec) : Type 0 where
    pub bounded0 : s.slot0.id ≤ s.next_session_id
    pub bounded1 : s.slot1.id ≤ s.next_session_id
    pub distinct : s.slot0.id ≢ 0 → s.slot0.id ≢ s.slot1.id
    pub counter_fits : s.next_session_id < 2 ^ 64

  pub TableStep-IsWf :
      {id : ℕ} {s t : WorkerState Codec}
      → s.next_session_id + 1 < 2 ^ 64
      → TableStep P id s t
      → IsWf s
      → IsWf t
  unfolding open_slot
  TableStep-IsWf room (keep h) wf = ground arith
  TableStep-IsWf {s = s} room (open_free first c r h) wf =
      ground (arith, next_id_plain s.next_session_id)
  TableStep-IsWf {s = s} room (open_free second c r h) wf =
      ground (arith, next_id_plain s.next_session_id)
  TableStep-IsWf room (close_used first z r h) wf = ground arith
  TableStep-IsWf room (close_used second z r h) wf = ground arith

  -- The table after `memset(&state, 0, sizeof(state))` and the first `monotonic_ns()`.
  abbrev pub fresh_state : ℕ → ℕ → WorkerState Codec
  fresh_state seed started = record {
    slot0 = free_slot P;
    slot1 = free_slot P;
    next_session_id = seed;
    started_ns = started;
    requests = 0;
    errors = 0;
  }

  pub fresh_state-IsWf : (seed started : ℕ) → seed < 2 ^ 64 → IsWf (fresh_state seed started)
  fresh_state-IsWf seed started h = ground arith

  -- Every request, valid or not, keeps the session table well formed, as long as the 64-bit
  -- identifier counter has not run out.
  pub dispatch_request-IsWf :
      (s : WorkerState Codec) (slot : List ℕ) (request_length capacity : ℕ) (w : World)
      → IsWf s
      → s.next_session_id + 1 < 2 ^ 64
      → IsWf (dispatch_request P s slot request_length capacity w).state
  dispatch_request-IsWf s slot request_length capacity w wf room =
      TableStep-IsWf room (dispatch_request-Served P s slot request_length capacity w).step wf
