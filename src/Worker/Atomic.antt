-- ===== src/Worker/Atomic.antt =====
-- A request that is answered with an error leaves the session table as it was.
use dawnshell.Prelude.{
  ℕ, ◌≡◌, inl, inr, Bool, true, false, Option, none, some, List, ltb, drop, if◌then◌else◌,
  Bool-cases, is_negative,
}
use dawnshell.Wire.Header.{header_bytes}
use dawnshell.Worker.Dispatch.{
  read_request, is_invalid, dispatch_hello, dispatch_capabilities, dispatch_health, dispatch_type,
  count_error, counted, dispatch_valid, dispatch_request,
}
use dawnshell.Worker.Platform.{Created, opened, refused, Outcome, codec_ok, Platform}
use dawnshell.Worker.Session.{
  DispatchResult, Handled, reply, install, create_in, dispatch_create, transcode_in,
  dispatch_create_transcoder, conclude, dispatch_input, dispatch_output, conclude_stats,
  dispatch_close, session_switch, in_slot, dispatch_session,
}
use dawnshell.Worker.Steps.{SameTable, same}
use dawnshell.Worker.Table.{WorkerState, Slot, find_session}

module _ (P : Platform) where
  open P use {World, Codec}

  -- An answer with an error comes with the same table.
  pub record IsAtomic (s : WorkerState Codec) (h : Handled P) : Type 0 where
    pub unchanged : is_negative h.result.status ≡ true → SameTable P s h.state

  if_IsAtomic :
      (s : WorkerState Codec) (b : Bool) (x y : Handled P)
      → IsAtomic s x
      → IsAtomic s y
      → IsAtomic s (if b then x else y)
  if_IsAtomic s true x y p q = p
  if_IsAtomic s false x y p q = q

  answered : (s : WorkerState Codec) (w : World) (r : DispatchResult) → IsAtomic s (reply P s w r)
  answered s w r = record { unchanged = λ e. same P s }

  conclude-IsAtomic :
      (s : WorkerState Codec) (id capacity : ℕ) (r : World × Outcome)
      → IsAtomic s (conclude P s id capacity r)
  unfolding conclude
  conclude-IsAtomic s id capacity (w, r) = answered s w _

  install-IsAtomic :
      (s : WorkerState Codec) (i : Slot) (capacity : ℕ) (r : World × Created Codec)
      → IsAtomic s (install P s i capacity r)
  unfolding install
  install-IsAtomic s i capacity (w, refused status error) = answered s w _
  install-IsAtomic s i capacity (w, opened c text) = record { unchanged = λ e. cc }

  create_in-IsAtomic :
      (o : Option Slot) (s : WorkerState Codec) (payload : List ℕ) (capacity : ℕ) (w : World)
      → IsAtomic s (create_in P o s payload capacity w)
  create_in-IsAtomic none s payload capacity w = answered s w _
  create_in-IsAtomic (some i) s payload capacity w = install-IsAtomic s i capacity _

  transcode_in-IsAtomic :
      (o : Option Slot) (s : WorkerState Codec) (payload : List ℕ) (capacity : ℕ) (w : World)
      → IsAtomic s (transcode_in P o s payload capacity w)
  transcode_in-IsAtomic none s payload capacity w = answered s w _
  transcode_in-IsAtomic (some i) s payload capacity w = install-IsAtomic s i capacity _

  ruleset atomic = (if_IsAtomic, answered, conclude-IsAtomic)

  dispatch_create-IsAtomic :
      (s : WorkerState Codec) (payload : List ℕ) (len capacity : ℕ) (w : World)
      → IsAtomic s (dispatch_create P s payload len capacity w)
  unfolding dispatch_create
  dispatch_create-IsAtomic s payload len capacity w = search (atomic, create_in-IsAtomic)

  dispatch_create_transcoder-IsAtomic :
      (s : WorkerState Codec) (payload : List ℕ) (len capacity : ℕ) (w : World)
      → IsAtomic s (dispatch_create_transcoder P s payload len capacity w)
  unfolding dispatch_create_transcoder
  dispatch_create_transcoder-IsAtomic s payload len capacity w =
      search (atomic, transcode_in-IsAtomic)

  dispatch_input-IsAtomic :
      (s : WorkerState Codec) (id : ℕ) (c : Codec) (payload : List ℕ) (len capacity : ℕ) (w : World)
      → IsAtomic s (dispatch_input P s id c payload len capacity w)
  unfolding dispatch_input
  dispatch_input-IsAtomic s id c payload len capacity w = search atomic

  dispatch_output-IsAtomic :
      (s : WorkerState Codec) (id : ℕ) (c : Codec) (payload : List ℕ) (len capacity : ℕ) (w : World)
      → IsAtomic s (dispatch_output P s id c payload len capacity w)
  unfolding dispatch_output
  dispatch_output-IsAtomic s id c payload len capacity w = search atomic

  stats-IsAtomic :
      (s : WorkerState Codec) (id capacity : ℕ) (r : World × Option (List ℕ))
      → IsAtomic s (conclude_stats P s id capacity r)
  stats-IsAtomic s id capacity (w, none) = answered s w _
  stats-IsAtomic s id capacity (w, some text) = answered s w _

  -- A session that is closed is answered without an error.
  closed-IsAtomic :
      (s t : WorkerState Codec) (id capacity : ℕ) (w : World)
      → IsAtomic s (conclude P t id capacity (w, record { status = codec_ok; message = none }))
  unfolding conclude
  closed-IsAtomic s t id capacity w = record { unchanged = λ e. cc }

  dispatch_close-IsAtomic :
      (s : WorkerState Codec) (id : ℕ) (i : Slot) (len capacity : ℕ) (w : World)
      → IsAtomic s (dispatch_close P s id i len capacity w)
  unfolding dispatch_close
  dispatch_close-IsAtomic s id i len capacity w = search (if_IsAtomic, answered, closed-IsAtomic)

  session_switch-IsAtomic :
      (s : WorkerState Codec) (type id : ℕ) (i : Slot) (c : Codec) (payload : List ℕ)
      (len capacity : ℕ) (w : World)
      → IsAtomic s (session_switch P s type id i c payload len capacity w)
  unfolding session_switch
  session_switch-IsAtomic s type id i c payload len capacity w =
      search
        (
          atomic, dispatch_input-IsAtomic, dispatch_output-IsAtomic, stats-IsAtomic,
          dispatch_close-IsAtomic,
        )
        depth 12

  in_slot-IsAtomic :
      (o : Option Slot) (s : WorkerState Codec) (type id : ℕ) (payload : List ℕ) (len capacity : ℕ)
      (w : World)
      → IsAtomic s (in_slot P o s type id payload len capacity w)
  in_slot-IsAtomic none s type id payload len capacity w = answered s w _
  in_slot-IsAtomic (some i) s type id payload len capacity w =
      search (atomic, session_switch-IsAtomic)

  dispatch_session-IsAtomic :
      (s : WorkerState Codec) (type id : ℕ) (payload : List ℕ) (len capacity : ℕ) (w : World)
      → IsAtomic s (dispatch_session P s type id payload len capacity w)
  unfolding dispatch_session
  dispatch_session-IsAtomic s type id payload len capacity w =
      in_slot-IsAtomic (find_session s id) s type id payload len capacity w

  dispatch_health-IsAtomic :
      (s : WorkerState Codec) (id len capacity : ℕ) (w : World)
      → IsAtomic s (dispatch_health P s id len capacity w)
  unfolding dispatch_health
  dispatch_health-IsAtomic s id len capacity w = search atomic

  dispatch_type-IsAtomic :
      (s : WorkerState Codec) (type id : ℕ) (payload : List ℕ) (len capacity : ℕ) (w : World)
      → IsAtomic s (dispatch_type P s type id payload len capacity w)
  unfolding dispatch_type dispatch_hello dispatch_capabilities
  dispatch_type-IsAtomic s type id payload len capacity w =
      search
        (
          atomic, dispatch_health-IsAtomic, dispatch_create-IsAtomic,
          dispatch_create_transcoder-IsAtomic, dispatch_session-IsAtomic,
        )
        depth 12

  -- Counting does not touch the table.
  counted-IsAtomic :
      (s : WorkerState Codec) (h : Handled P)
      → IsAtomic (counted P s) h
      → IsAtomic s (count_error P h)
  unfolding count_error
  counted-IsAtomic s h a = elim (Bool-cases (is_negative h.result.status)) [
    | inl e ↦
        let t = a.unchanged e in
        rw e (record {
          unchanged =
              λ _. record { slot0 = t.slot0; slot1 = t.slot1; next_session_id = t.next_session_id };
        })
    | inr e ↦ rw e (record { unchanged = λ bad. cc (e, bad) })
  ]

  -- A request that is answered with an error, for whatever reason, neither opens nor closes a session:
  -- both slots and the identifier counter are as before.
  pub dispatch_request-IsAtomic :
      (s : WorkerState Codec) (slot : List ℕ) (request_length capacity : ℕ) (w : World)
      → let h = dispatch_request P s slot request_length capacity w in
        is_negative h.result.status ≡ true → SameTable P s h.state
  unfolding dispatch_request dispatch_valid
  dispatch_request-IsAtomic s slot request_length capacity w =
      let r = read_request slot in
      let t = counted P s in
      (if_IsAtomic s (ltb request_length header_bytes) _ _ (counted-IsAtomic s _ (answered t w _)) (
        if_IsAtomic s (is_invalid r request_length) _ _ (counted-IsAtomic s _ (answered t w _)) (
          counted-IsAtomic s _ (
            dispatch_type-IsAtomic t r.type r.session_id (drop header_bytes slot) r.payload_length
              capacity w)))).unchanged
