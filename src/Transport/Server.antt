-- ===== src/Transport/Server.antt =====
-- The worker's side: the checks and the loop of `main` in
-- app/src/main/cpp/dawnshell_codec_worker.c, one round at a time.
use dawnshell.Prelude.{
  ℕ, ◌+◌, ◌%◌, ◌^◌, Bool, ◌&&◌, ltb, leb, ◌==◌, ◌!=◌, if◌then◌else◌, has_bit, or_bit, codes, length,
}
use dawnshell.Transport.State.{
  transport_magic, transport_version, slot_size, mapping_size, flag_shutdown, flag_worker_ready,
  Control, Shared, store_payload,
}
use dawnshell.Wire.Bytes.{get_u16, get_u32}
use dawnshell.Wire.Header.{header_bytes, max_payload, write_response_header}
use dawnshell.Worker.Dispatch.{dispatch_request}
use dawnshell.Worker.Invariant.{fresh_state}
use dawnshell.Worker.Platform.{error_limit, Platform, monotonic_ns}
use dawnshell.Worker.Session.{DispatchResult, failure, Handled, reply}
use dawnshell.Worker.Table.{WorkerState, first, second, close_session}

-- The control page that the client must have prepared, at the pid of the worker's parent.
unfoldable pub transport_accepted : Control → ℕ → Bool
transport_accepted c parent =
    c.magic == transport_magic
    && (c.version == transport_version
        && (c.mapping_bytes == mapping_size
            && (c.slot_bytes == slot_size && (c.parent_pid != 0 && c.parent_pid == parent))))

module _ (P : Platform) where
  open P use {World, Codec}

  -- The worker between two rounds, or after its loop.
  pub data Process : Type 0 where
    running : WorkerState Codec → World → Process
    stopped : WorkerState Codec → World → Process

  -- `control->worker_pid`, the ready flag and the first signal.
  unfoldable pub announce : Shared → Shared
  announce m = record m {
    control = record (m.control) {
      worker_pid = P.pid;
      flags = or_bit m.control.flags flag_worker_ready;
    };
    response_event = m.response_event + 1;
  }

  -- `memset(&state, 0, …)` and the two readings of the clock.
  unfoldable pub start_state : World → WorkerState Codec × World
  start_state w =
      let (w1, seed) = monotonic_ns P w in
      let (w2, started) = monotonic_ns P w1 in (fresh_state P seed started, w2)

  -- The loop at the end of `main`, which closes every slot.
  unfoldable pub close_all : WorkerState Codec → World → WorkerState Codec × World
  close_all s w = let (s', w') = close_session P first s w in close_session P second s' w'

  stop : WorkerState Codec → World → Process
  stop s w = let (s', w') = close_all s w in stopped s' w'

  -- The result that a round writes out; `response_type` and `response_id` are read from the slot.
  abbrev pub response_type : Shared → ℕ
  response_type m = if leb 8 m.control.request_bytes then get_u16 m.request_slot 6 else 0

  abbrev pub response_id : Shared → ℕ
  response_id m = if leb 28 m.control.request_bytes then get_u32 m.request_slot 24 else 0

  unfoldable pub handle : WorkerState Codec → World → Shared → Handled P
  handle s w m =
      if ltb slot_size m.control.request_bytes
      then reply P s w
          (failure error_limit 0 max_payload (codes "transport request exceeds shared slot"))
      else dispatch_request P s m.request_slot m.control.request_bytes max_payload w

  -- The stores to the response slot and the control page, and the signal.
  unfoldable pub respond : Shared → DispatchResult → Shared
  respond m r =
      let slot = store_payload m.response_slot r.payload in
      record m {
        response_slot =
            write_response_header slot (response_type m) r.session_id (length r.payload % 2 ^ 32)
              (response_id m) r.status;
        control = record (m.control) {
          response_bytes = (header_bytes + length r.payload) % 2 ^ 32;
          response_sequence = m.control.request_sequence;
        };
        response_event = m.response_event + 1;
      }

  -- One round of the loop, when `poll` found the request eventfd readable or timed out with the
  -- parent alive.
  unfoldable pub serve : WorkerState Codec → World → Shared → Process × Shared
  unfolding stop
  serve s w m =
      if m.request_event == 0
      then (running s w, m)
      else let m' = record m { request_event = 0 } in
        if has_bit m.control.flags flag_shutdown
        then (stop s w, m')
        else let h = handle s w m' in (running h.state h.world, respond m' h.result)
