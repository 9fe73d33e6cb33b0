-- ===== src/Transport/Rpc.antt =====
-- `rpc` of app/src/main/cpp/dawnshell_codec_client.c against one round of the worker's loop.
use dawnshell.Prelude.{
  ℕ, ◌+◌, ◌%◌, ◌^◌, ◌≤◌, ◌<◌, ◌≡◌, refl, ap, ◌∙◌, ◌≢◌, Bool, true, false, List, ◌++◌, arith, ltb,
  has_bit, length,
}
use dawnshell.Transport.Client.{ok, Caller, Pending, next_sequence, publish, rpc_send, rpc_receive}
use dawnshell.Transport.Exchange.{
  published_slot, published_slot-RequestFields, as_response, direct_call, handle_request,
  rpc_receive-respond,
}
use dawnshell.Transport.Server.{running, response_type, response_id, handle, respond, serve}
use dawnshell.Transport.State.{slot_size, flag_shutdown, Shared}
use dawnshell.Wire.Fields.{RequestFields, length-write_response_header}
use dawnshell.Wire.Header.{dscb_response_bit, header_bytes, max_payload}
use dawnshell.Worker.Dispatch.{counted}
use dawnshell.Worker.Platform.{Platform}
use dawnshell.Worker.Steps.Request.{dispatch_type-Follows, Served, Served-count_error}
use dawnshell.Worker.Table.{WorkerState}

-- The state in which the client may start an exchange: the worker is up, nothing is signalled and no
-- shutdown has been asked for.
pub record IsIdle (c : Caller) (m : Shared) : Type 0 where
  pub started : c.started ≡ true
  pub id_set : c.next_request_id ≢ 0
  pub id_fits : c.next_request_id < 2 ^ 32
  pub no_request : m.request_event ≡ 0
  pub no_response : m.response_event ≡ 0
  pub no_shutdown : has_bit m.control.flags flag_shutdown ≡ false
  pub mapped : header_bytes ≤ length m.response_slot

-- What `rpc_send` leaves while it waits.
abbrev pub waiting : Caller → ℕ → Pending
waiting c type = record {
  type = type;
  request_id = c.next_request_id;
  sequence = next_sequence c.sequence;
}

abbrev pub sent : Caller → Shared → ℕ → ℕ → List ℕ → Shared
sent c m type session_id payload =
    publish m type session_id payload c.next_request_id (next_sequence c.sequence)

abbrev pub advanced : Caller → Caller
advanced c = record c {
  sequence = next_sequence c.sequence;
  next_request_id = (c.next_request_id + 1) % 2 ^ 32;
}

rpc_send_started :
    (c : Caller) (m : Shared) (type session_id : ℕ) (payload : List ℕ)
    → c.started ≡ true
    → length payload ≤ max_payload
    → rpc_send c m type session_id payload
      ≡ ok (advanced c, sent c m type session_id payload, waiting c type)
unfolding rpc_send
rpc_send_started c m type session_id payload h fits = ground arith

rpc_receive_takes :
    (malloc : ℕ → Bool) (m : Shared) (p : Pending)
    → m.response_event ≢ 0
    → (rpc_receive malloc m p).0 ≡ record m { response_event = 0 }
unfolding rpc_receive
rpc_receive_takes malloc m p ready = ground arith

module _ (P : Platform) where
  open P use {World, Codec}

  -- A round with a request signalled and no shutdown makes the call and writes its result out.
  serve_request :
      (s : WorkerState Codec) (w : World) (m : Shared)
      → m.request_event ≢ 0
      → has_bit m.control.flags flag_shutdown ≡ false
      → let h = handle P s w (record m { request_event = 0 }) in
        serve P s w m
        ≡ (running h.state h.world, respond P (record m { request_event = 0 }) h.result)
  unfolding serve
  serve_request s w m ready go = ground arith

  module _ (malloc : ℕ → Bool) (c : Caller) (m : Shared) (type session_id : ℕ) (payload : List ℕ)
      (s : WorkerState Codec) (w : World) where
    -- What one exchange does: the request is sent, the worker makes the call that it stands for, on
    -- its own payload, and the client has the result.
    pub record IsExchanged : Type 0 where
      pub answered : Shared
      pub final : Shared
      pub sends :
          rpc_send c m type session_id payload
          ≡ ok (advanced c, sent c m type session_id payload, waiting c type)
      pub serves :
          let h = direct_call P s w type session_id payload in
          serve P s w (sent c m type session_id payload) ≡ (running h.state h.world, answered)
      pub receives : rpc_receive malloc answered (waiting c type) ≡ (
        final,
        ok (as_response type c.next_request_id (direct_call P s w type session_id payload).result),
      )
      pub idle_again : c.next_request_id + 1 < 2 ^ 32 → IsIdle (advanced c) final

    direct_call-Served :
        Served P s session_id max_payload (direct_call P s w type session_id payload)
    direct_call-Served = Served-count_error P s session_id max_payload _ (
        dispatch_type-Follows P (counted P s) type session_id payload (length payload) max_payload
          w)

    module _ (idle : IsIdle c m) (ht : type < dscb_response_bit) (hs : session_id < 2 ^ 64)
        (hp : length payload ≤ max_payload) where
      abbrev taken : Shared
      taken = record (sent c m type session_id payload) { request_event = 0 }

      fields :
          (rest : List ℕ) × RequestFields taken.request_slot type session_id
            (length payload)
            c.next_request_id
            (payload ++ rest)
      unfolding publish published_slot
      fields =
          published_slot-RequestFields m.request_slot payload type session_id c.next_request_id
            (omega arith) hs (omega arith) idle.id_fits

      handle_sent : handle P s w taken ≡ direct_call P s w type session_id payload
      unfolding handle publish
      handle_sent =
          let fits : ltb slot_size (header_bytes + length payload) ≡ false = ground arith in
          rw fits (
            handle_request P s w _ payload fields.0 type session_id c.next_request_id ht idle.id_set
              hp fields.1)

      type_read : response_type P taken ≡ type
      unfolding publish
      type_read = ground (arith, fields.1.type_field)

      id_read : response_id P taken ≡ c.next_request_id
      unfolding publish
      id_read = ground (arith, fields.1.id_field)

      abbrev answer_shared : Shared
      answer_shared = respond P taken (direct_call P s w type session_id payload).result

      serves_sent :
          let h = direct_call P s w type session_id payload in
          serve P s w (sent c m type session_id payload) ≡ (running h.state h.world, answer_shared)
      unfolding publish
      serves_sent =
          serve_request s w (sent c m type session_id payload) (omega arith) idle.no_shutdown
          ∙ ap (λ h. (running h.state h.world, respond P taken h.result)) handle_sent

      abbrev final_shared : Shared
      final_shared = (rpc_receive malloc answer_shared (waiting c type)).0

      received :
          ((n : ℕ) → malloc n ≡ true)
          → (rpc_receive malloc answer_shared (waiting c type)).1
            ≡ ok (
                as_response type c.next_request_id
                  (direct_call P s w type session_id payload).result)
      unfolding publish
      received memory =
          rpc_receive-respond P malloc taken (direct_call P s w type session_id payload).result
            (waiting c type) memory refl type_read id_read idle.id_fits direct_call-Served.fits
            (direct_call-Served.id_fits hs) idle.mapped

      again : c.next_request_id + 1 < 2 ^ 32 → IsIdle (advanced c) final_shared
      unfolding respond publish
      again room =
          rw (rpc_receive_takes malloc answer_shared (waiting c type) (omega arith)) (record {
            started = idle.started;
            id_set = omega arith;
            id_fits = omega arith;
            no_request = refl;
            no_response = refl;
            no_shutdown = idle.no_shutdown;
            mapped = length-write_response_header _ _ _ _ _ _;
          })

      -- An RPC is a call: from an idle transport, a request with a type below the response bit and a
      -- payload of at most 8 MiB is answered by the result of the worker's handler on exactly that
      -- payload, every field of it, and the transport is idle again for the next identifier.
      pub rpc-IsExchanged : ((n : ℕ) → malloc n ≡ true) → IsExchanged
      rpc-IsExchanged memory = record {
        answered = respond P taken (direct_call P s w type session_id payload).result;
        final = final_shared;
        sends = rpc_send_started c m type session_id payload idle.started hp;
        serves = serves_sent;
        receives = ap (λ r. (final_shared, r)) (received memory);
        idle_again = again;
      }
