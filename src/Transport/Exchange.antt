-- ===== src/Transport/Exchange.antt =====
-- One whole exchange: `rpc` on the client's side around one round of the worker's loop.
use dawnshell.Prelude.{
  ℕ, zero, suc, ◌+◌, ◌%◌, ◌^◌, ◌≤◌, ◌<◌, ◌≡◌, refl, ap, ◌∙◌, ◌≢◌, Bool, true, List, [], ◌∷◌, ◌++◌,
  arith, or_bit, length, take, drop, take-append, to_u32, to_i32,
}
use dawnshell.Transport.Client.{ok, Response, Pending, parse_response, rpc_receive}
use dawnshell.Transport.Server.{response_type, response_id, respond}
use dawnshell.Transport.State.{slot_size, Shared, store_payload}
use dawnshell.Wire.Bytes.{put_u16, put_u32, put_u64, get_u16, get_u32, get_u64}
use dawnshell.Wire.Fields.{RequestFields, ResponseFields, write_response_header-ResponseFields}
use dawnshell.Wire.Header.{dscb_response_bit, header_bytes, max_payload, make_request_header}
use dawnshell.Worker.Dispatch.{
  read_request, dispatch_type, count_error, counted, dispatch_valid, dispatch_request,
}
use dawnshell.Worker.Guards.{dispatch_request_accepted}
use dawnshell.Worker.Platform.{Platform}
use dawnshell.Worker.Session.{DispatchResult, Handled}
use dawnshell.Worker.Stale.{dispatch_type-append}
use dawnshell.Worker.Steps.{same}
use dawnshell.Worker.Table.{WorkerState}

drop-take-append {ℓ} :
    {A : Type ℓ} (n : ℕ) (xs ys : List A) → n ≤ length xs → drop n (take n xs ++ ys) ≡ ys
drop-take-append zero xs ys h = refl
drop-take-append (suc n) [] ys h = absurd (omega arith)
drop-take-append (suc n) (x ∷ xs) ys h = drop-take-append n xs ys (omega arith)

-- The request slot as the worker finds it.
module _ (slot payload : List ℕ) (type session_id request_id : ℕ) where
  unfoldable pub published_slot : List ℕ
  published_slot =
      store_payload (make_request_header slot type session_id (length payload) request_id) payload

  pub published_slot-RequestFields :
      type < 2 ^ 16
      → session_id < 2 ^ 64
      → length payload < 2 ^ 32
      → request_id < 2 ^ 32
      → (rest : List ℕ) × RequestFields published_slot type session_id
          (length payload)
          request_id
          (payload ++ rest)
  unfolding published_slot make_request_header put_u16 put_u32 put_u64 get_u16 get_u32 get_u64
  published_slot-RequestFields ht hs hp hr = (
    _,
    record {
      magic = refl;
      version = refl;
      type_field = omega arith;
      flags = refl;
      session_field = omega arith;
      length_field = omega arith;
      id_field = omega arith;
      reserved = refl;
      behind = refl;
    },
  )

-- The answer to a request of this type and identifier, as the client reports it.
abbrev pub as_response : ℕ → ℕ → DispatchResult → Response
as_response type request_id r = record {
  type = or_bit type dscb_response_bit % 2 ^ 16;
  session_id = r.session_id;
  request_id = request_id;
  status = to_i32 (to_u32 r.status);
  payload = r.payload;
}

-- A well-formed answer is parsed to its fields.
parse_response_answer :
    (malloc : ℕ → Bool) (h rest : List ℕ) (type request_id : ℕ) (r : DispatchResult)
    → ((n : ℕ) → malloc n ≡ true)
    → length r.payload ≤ max_payload
    → ResponseFields h type r.session_id (length r.payload) request_id r.status (r.payload ++ rest)
    → parse_response malloc h (header_bytes + length r.payload) type request_id
      ≡ ok (as_response type request_id r)
unfolding parse_response
parse_response_answer malloc h rest type request_id r memory fits f =
    rw
      (
        f.magic,
        f.version,
        f.type_field,
        f.flags,
        f.session_field,
        f.length_field,
        f.id_field,
        f.status_field,
        f.behind,
        memory (length r.payload + 1),
        take-append r.payload rest,
      )
      (ground arith)

rpc_receive_parses :
    (malloc : ℕ → Bool) (m : Shared) (p : Pending)
    → m.response_event ≢ 0
    → m.control.response_sequence ≡ p.sequence
    → m.control.response_bytes ≤ slot_size
    → (rpc_receive malloc m p).1
      ≡ parse_response malloc m.response_slot m.control.response_bytes p.type p.request_id
unfolding rpc_receive
rpc_receive_parses malloc m p ready same fits = ground arith

module _ (P : Platform) where
  open P use {World, Codec}

  -- The call that a request stands for, made on its own payload and counted.
  abbrev pub direct_call : WorkerState Codec → World → ℕ → ℕ → List ℕ → Handled P
  direct_call s w type session_id payload =
      count_error P
        (dispatch_type P (counted P s) type session_id payload (length payload) max_payload w)

  -- The worker, given a request header with these fields, makes the call.
  pub handle_request :
      (s : WorkerState Codec) (w : World) (slot payload rest : List ℕ)
      (type session_id request_id : ℕ)
      → type < dscb_response_bit
      → request_id ≢ 0
      → length payload ≤ max_payload
      → RequestFields slot type session_id (length payload) request_id (payload ++ rest)
      → dispatch_request P s slot (header_bytes + length payload) max_payload w
        ≡ direct_call s w type session_id payload
  unfolding dispatch_valid read_request
  handle_request s w slot payload rest type session_id request_id ht hr hp f =
      dispatch_request_accepted P s slot (header_bytes + length payload) max_payload w
        (ground arith)
      ∙ rw (f.type_field, f.session_field, f.length_field, f.behind)
          (ap (count_error P)
            (dispatch_type-append P payload rest (counted P s) type session_id max_payload w))

  -- The client reads back what the worker has written.
  pub rpc_receive-respond :
      (malloc : ℕ → Bool) (m : Shared) (r : DispatchResult) (p : Pending)
      → ((n : ℕ) → malloc n ≡ true)
      → m.control.request_sequence ≡ p.sequence
      → response_type P m ≡ p.type
      → response_id P m ≡ p.request_id
      → p.request_id < 2 ^ 32
      → length r.payload ≤ max_payload
      → r.session_id < 2 ^ 64
      → header_bytes ≤ length m.response_slot
      → (rpc_receive malloc (respond P m r) p).1 ≡ ok (as_response p.type p.request_id r)
  unfolding respond
  rpc_receive-respond malloc m r p memory same ht hi hr fits hs room =
      let rest = drop (header_bytes + length r.payload) m.response_slot in
      let slot = store_payload m.response_slot r.payload in
      let behind : drop header_bytes slot ≡ r.payload ++ rest =
        drop-take-append header_bytes m.response_slot (r.payload ++ rest) room in
      let fields =
        write_response_header-ResponseFields slot p.type r.session_id (length r.payload)
          p.request_id r.status hs (omega arith) hr in
      let bytes : (header_bytes + length r.payload) % 2 ^ 32 ≡ header_bytes + length r.payload =
        omega arith in
      let len : length r.payload % 2 ^ 32 ≡ length r.payload = omega arith in
      rpc_receive_parses malloc (respond P m r) p (ground arith) same (ground arith)
      ∙ rw (ht, hi, bytes, len)
          (parse_response_answer malloc _ rest p.type p.request_id r memory fits
            (rw behind at fields))
