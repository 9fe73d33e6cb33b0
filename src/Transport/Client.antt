-- ===== src/Transport/Client.antt =====
-- The client's side: `rpc`, `parse_response` and `wait_eventfd` of
-- app/src/main/cpp/dawnshell_codec_client.c. `rpc` is cut where it waits for the worker.
use dawnshell.Prelude.{
  ℕ, ◌+◌, ◌%◌, ◌^◌, ◌≤◌, ◌≡◌, ap, Bool, not, ◌&&◌, ◌||◌, List, arith, ltb, ◌==◌, ◌!=◌,
  if◌then◌else◌, or_bit, length, take, drop, length-take, length-drop, ℤ, to_i32,
}
use dawnshell.Transport.State.{slot_size, Shared, store_payload}
use dawnshell.Wire.Bytes.{get_u16, get_u32, get_u64}
use dawnshell.Wire.Header.{
  dscb_magic, dscb_version, dscb_response_bit, header_bytes, max_payload, make_request_header,
}

pub data Errno : Type 0 where
  eproto eoverflow epipe etimedout enomem : Errno

pub data Result (A : Type 0) : Type 0 where
  ok : A → Result A
  err : Errno → Result A

-- `struct response`.
pub record Response : Type 0 where
  pub type : ℕ
  pub session_id : ℕ
  pub request_id : ℕ
  pub status : ℤ
  pub payload : List ℕ

-- The fields of `worker` and the counter that `rpc` uses.
pub record Caller : Type 0 where
  pub started : Bool
  pub sequence : ℕ
  pub next_request_id : ℕ

-- What `rpc` keeps while it waits.
pub record Pending : Type 0 where
  pub type : ℕ
  pub request_id : ℕ
  pub sequence : ℕ

-- `++worker.sequence`, once more if that wrapped to 0.
unfoldable pub next_sequence : ℕ → ℕ
next_sequence n =
    let sequence = (n + 1) % 2 ^ 32 in if sequence == 0 then (sequence + 1) % 2 ^ 32 else sequence

-- The stores to the request slot and the control page, and the signal.
unfoldable pub publish : Shared → ℕ → ℕ → List ℕ → ℕ → ℕ → Shared
publish m type session_id payload request_id sequence =
    let slot = make_request_header m.request_slot type session_id (length payload) request_id in
    record m {
      request_slot = store_payload slot payload;
      control = record (m.control) {
        request_bytes = header_bytes + length payload;
        request_sequence = sequence;
      };
      request_event = m.request_event + 1;
    }

-- `rpc` up to its wait. The identifier is taken by `next_request_id++` on a `uint32_t`.
unfoldable pub rpc_send : Caller → Shared → ℕ → ℕ → List ℕ → Result (Caller × Shared × Pending)
rpc_send c m type session_id payload =
    if ltb max_payload (length payload)
    then err eoverflow
    else if not c.started
    then err epipe
    else let sequence = next_sequence c.sequence in
      ok (
        record c { sequence = sequence; next_request_id = (c.next_request_id + 1) % 2 ^ 32 },
        publish m type session_id payload c.next_request_id sequence,
        record { type = type; request_id = c.next_request_id; sequence = sequence },
      )

abbrev bad_header : List ℕ → ℕ → ℕ → Bool
bad_header h type request_id =
    get_u32 h 0 != dscb_magic
    || (get_u16 h 4 != dscb_version
        || (get_u16 h 6 != or_bit type dscb_response_bit % 2 ^ 16
            || (get_u32 h 24 != request_id || get_u32 h 8 != 0)))

-- `malloc n` says whether `malloc` gives `n` bytes.
unfoldable pub parse_response : (ℕ → Bool) → List ℕ → ℕ → ℕ → ℕ → Result Response
parse_response malloc h response_bytes type request_id =
    let payload_length = get_u32 h 20 in
    if ltb response_bytes header_bytes
    then err eproto
    else if bad_header h type request_id
    then err eproto
    else if ltb max_payload payload_length || response_bytes != header_bytes + payload_length
    then err eoverflow
    else if ltb 0 payload_length && not (malloc (payload_length + 1))
    then err enomem
    else ok (record {
      type = get_u16 h 6;
      session_id = get_u64 h 12;
      request_id = get_u32 h 24;
      status = to_i32 (get_u32 h 28);
      payload = take payload_length (drop header_bytes h);
    })

-- `rpc` from its wait on. With nothing signalled the wait ends by its timeout.
unfoldable pub rpc_receive : (ℕ → Bool) → Shared → Pending → Shared × Result Response
rpc_receive malloc m p = if m.response_event == 0 then (m, err etimedout) else (
  record m { response_event = 0 },
  if m.control.response_sequence != p.sequence || ltb slot_size m.control.response_bytes
      then err eproto
      else parse_response malloc m.response_slot m.control.response_bytes p.type p.request_id,
)

-- What a parsed answer says of the bytes that it was read from.
parse_response-ok :
    (malloc : ℕ → Bool) (h : List ℕ) (response_bytes type request_id : ℕ) (r : Response)
    → parse_response malloc h response_bytes type request_id ≡ ok r
    → (r.request_id ≡ request_id)
      × (r.type ≡ or_bit type dscb_response_bit % 2 ^ 16)
      × (get_u32 h 20 ≤ max_payload)
      × (response_bytes ≡ header_bytes + get_u32 h 20)
      × (r.payload ≡ take (get_u32 h 20) (drop header_bytes h))
unfolding parse_response
parse_response-ok malloc h response_bytes type request_id r e = ground arith

rpc_receive-ok :
    (malloc : ℕ → Bool) (m : Shared) (p : Pending) (r : Response)
    → (rpc_receive malloc m p).1 ≡ ok r
    → (m.control.response_sequence ≡ p.sequence)
      × (parse_response malloc m.response_slot m.control.response_bytes p.type p.request_id ≡ ok r)
unfolding rpc_receive
rpc_receive-ok malloc m p r h = ground arith

-- An answer is taken only if it is the answer to this very request: the worker has echoed the
-- sequence number, the identifier and the type, and the payload has the announced length, of at most
-- 8 MiB. The announced bytes must lie inside the slot.
pub rpc_receive-own :
    (malloc : ℕ → Bool) (m : Shared) (p : Pending) (r : Response)
    → m.control.response_bytes ≤ length m.response_slot
    → (rpc_receive malloc m p).1 ≡ ok r
    → (m.control.response_sequence ≡ p.sequence)
      × (r.request_id ≡ p.request_id)
      × (r.type ≡ or_bit p.type dscb_response_bit % 2 ^ 16)
      × (length r.payload ≤ max_payload)
      × (m.control.response_bytes ≡ header_bytes + length r.payload)
rpc_receive-own malloc m p r mapped h =
    let (sequence, parsed) = rpc_receive-ok malloc m p r h in
    let (id, type, small, exact, payload) =
      parse_response-ok malloc m.response_slot m.control.response_bytes p.type p.request_id r
        parsed in
    let n = get_u32 m.response_slot 20 in
    let size : length r.payload ≡ n = omega (
      arith,
      ap (λ (t : List ℕ). length t) payload,
      length-take n (drop header_bytes m.response_slot),
      length-drop header_bytes m.response_slot,
    ) in
    (sequence, id, type, omega arith, omega arith)
