-- ===== src/Worker/Steps/Request.antt =====
-- The `switch` of `dispatch_request` and the handlers that need no session.
use dawnshell.Prelude.{
  ℕ, ◌^◌, ◌≤◌, ◌<◌, ◌≡◌, refl, ap, inl, inr, Bool, true, false, Option, none, some, List, arith,
  ltb, if◌then◌else◌, Bool-cases, length, drop, is_negative,
}
use dawnshell.Wire.Header.{header_bytes}
use dawnshell.Worker.Dispatch.{
  read_request, is_invalid, count, health_answer, dispatch_hello, dispatch_capabilities,
  dispatch_health, dispatch_type, count_error, counted, dispatch_valid, dispatch_request,
}
use dawnshell.Worker.Platform.{Platform}
use dawnshell.Worker.Session.{DispatchResult, Handled, reply}
use dawnshell.Worker.Steps.{
  SameTable, TableStep, keep, open_free, close_used, same, Follows, failed, answered, follows,
}
use dawnshell.Worker.Steps.Operations.{
  dispatch_create-Follows, dispatch_create_transcoder-Follows, dispatch_session-Follows,
}
use dawnshell.Worker.Table.{WorkerState, first, second, reserve_session, open_slot}

module _ (P : Platform) where
  open P use {World, Codec}

  if_reply :
      (s : WorkerState Codec) (id capacity : ℕ) (w : World) (b : Bool) (x y : DispatchResult)
      → Follows P s id capacity (reply P s w x)
      → Follows P s id capacity (reply P s w y)
      → Follows P s id capacity (reply P s w (if b then x else y))
  if_reply s id capacity w true x y p q = p
  if_reply s id capacity w false x y p q = q

  dispatch_hello-Follows :
      (s : WorkerState Codec) (id len capacity : ℕ) (w : World)
      → Follows P s id capacity (dispatch_hello P s len capacity w)
  unfolding dispatch_hello
  dispatch_hello-Follows s id len capacity w = search (if_reply, answered)

  dispatch_capabilities-Follows :
      (s : WorkerState Codec) (id len capacity : ℕ) (w : World)
      → Follows P s id capacity (dispatch_capabilities P s len capacity w)
  unfolding dispatch_capabilities
  dispatch_capabilities-Follows s id len capacity w = search (if_reply, answered)

  health_answer-Follows :
      (o : Option (List ℕ)) (s : WorkerState Codec) (id capacity : ℕ) (w : World)
      → Follows P s id capacity (reply P s w (health_answer capacity o))
  health_answer-Follows none s id capacity w = answered P s id capacity w _ _
  health_answer-Follows (some text) s id capacity w = answered P s id capacity w _ text

  dispatch_health-Follows :
      (s : WorkerState Codec) (id len capacity : ℕ) (w : World)
      → Follows P s id capacity (dispatch_health P s id len capacity w)
  unfolding dispatch_health
  dispatch_health-Follows s id len capacity w = search (follows, health_answer-Follows)

  pub dispatch_type-Follows :
      (s : WorkerState Codec) (type id : ℕ) (payload : List ℕ) (len capacity : ℕ) (w : World)
      → Follows P s id capacity (dispatch_type P s type id payload len capacity w)
  unfolding dispatch_type
  dispatch_type-Follows s type id payload len capacity w =
      search
        (
          follows, dispatch_hello-Follows, dispatch_capabilities-Follows, dispatch_health-Follows,
          dispatch_create-Follows, dispatch_create_transcoder-Follows, dispatch_session-Follows,
        )
        depth 12

  -- What a whole request keeps to. The counters are those of `dispatch_request`.
  pub record Served (s : WorkerState Codec) (id capacity : ℕ) (h : Handled P) : Type 0 where
    pub step : TableStep P id s h.state
    pub requests : h.state.requests ≡ count s.requests
    pub errors : h.state.errors ≡ (if is_negative h.result.status then count s.errors else s.errors)
    pub started_ns : h.state.started_ns ≡ s.started_ns
    pub fits : length h.result.payload ≤ capacity
    pub id_fits : id < 2 ^ 64 → h.result.session_id < 2 ^ 64

  TableStep-counted :
      (id : ℕ) (s t u : WorkerState Codec)
      → SameTable P t u
      → TableStep P id (counted P s) t
      → TableStep P id s u
  unfolding open_slot reserve_session
  TableStep-counted id s t u e (keep h) = keep (ground arith)
  TableStep-counted id s t u e (open_free first c r h) = open_free first c r (ground arith)
  TableStep-counted id s t u e (open_free second c r h) = open_free second c r (ground arith)
  TableStep-counted id s t u e (close_used first z r h) = close_used first z r (ground arith)
  TableStep-counted id s t u e (close_used second z r h) = close_used second z r (ground arith)

  pub Served-count_error :
      (s : WorkerState Codec) (id capacity : ℕ) (h : Handled P)
      → Follows P (counted P s) id capacity h
      → Served s id capacity (count_error P h)
  unfolding count_error
  Served-count_error s id capacity h f = elim (Bool-cases (is_negative h.result.status)) [
    | inl e ↦ rw e (record {
      step =
          TableStep-counted id s h.state (record (h.state) { errors = count h.state.errors })
            (record { slot0 = refl; slot1 = refl; next_session_id = refl }) f.step;
      requests = f.requests;
      errors = rw e (ap count f.errors);
      started_ns = f.started_ns;
      fits = f.fits;
      id_fits = f.id_fits;
    })
    | inr e ↦ rw e (record {
      step = TableStep-counted id s h.state _ (same P h.state) f.step;
      requests = f.requests;
      errors = rw e f.errors;
      started_ns = f.started_ns;
      fits = f.fits;
      id_fits = f.id_fits;
    })
  ]

  if_Served :
      (s : WorkerState Codec) (id capacity : ℕ) (b : Bool) (x y : Handled P)
      → Served s id capacity x
      → Served s id capacity y
      → Served s id capacity (if b then x else y)
  if_Served s id capacity true x y p q = p
  if_Served s id capacity false x y p q = q

  pub dispatch_request-Served :
      (s : WorkerState Codec) (slot : List ℕ) (request_length capacity : ℕ) (w : World)
      → Served s
          (read_request slot).session_id
          capacity
          (dispatch_request P s slot request_length capacity w)
  unfolding dispatch_request dispatch_valid
  dispatch_request-Served s slot request_length capacity w =
      let r = read_request slot in
      let id = r.session_id in
      let t = counted P s in
      if_Served s id capacity (ltb request_length header_bytes) _ _
        (Served-count_error s id capacity _ (answered P t id capacity w _ _))
        (if_Served s id capacity (is_invalid r request_length) _ _
          (Served-count_error s id capacity _ (failed P t id capacity w _ _))
          (Served-count_error s id capacity _ (
            dispatch_type-Follows t r.type id (drop header_bytes slot) r.payload_length capacity
              w)))
