-- ===== src/Worker/Dispatch.antt =====
-- `dispatch_request`: the guards on the header and the `switch` on the message type. The request is
-- read from the slot, whose bytes beyond `request_length` are those of earlier requests.
use dawnshell.Prelude.{
  ℕ, ◌+◌, ◌%◌, ◌^◌, Bool, ◌||◌, List, codes, drop, Option, none, some, ltb, ◌==◌, ◌!=◌,
  if◌then◌else◌, has_bit, is_negative,
}
use dawnshell.Wire.Bytes.{get_u16, get_u32, get_u64}
use dawnshell.Wire.Kind
use dawnshell.Wire.Header.{dscb_magic, dscb_version, dscb_response_bit, header_bytes, max_payload}
use dawnshell.Worker.Platform.{
  Platform, error_protocol, error_version, error_unsupported, error_io, codec_ok, monotonic_ns,
}
use dawnshell.Worker.Table.{WorkerState}
use dawnshell.Worker.Health.{Report, active_sessions, uptime_ms, health_text}
use dawnshell.Worker.Session.{
  DispatchResult, copy_text, failure, Handled, reply, dispatch_create, dispatch_create_transcoder,
  dispatch_session,
}

-- The fields of the header.
pub record Request : Type 0 where
  pub magic : ℕ
  pub version : ℕ
  pub type : ℕ
  pub flags : ℕ
  pub session_id : ℕ
  pub payload_length : ℕ
  pub request_id : ℕ
  pub reserved : ℕ

unfoldable pub read_request : List ℕ → Request
read_request slot = record {
  magic = get_u32 slot 0;
  version = get_u16 slot 4;
  type = get_u16 slot 6;
  flags = get_u32 slot 8;
  session_id = get_u64 slot 12;
  payload_length = get_u32 slot 20;
  request_id = get_u32 slot 24;
  reserved = get_u32 slot 28;
}

-- The condition under which the header is refused.
unfoldable pub is_invalid : Request → ℕ → Bool
is_invalid r request_length =
    r.magic != dscb_magic
    || (r.version != dscb_version
        || (has_bit r.type dscb_response_bit
            || (r.flags != 0
                || (r.reserved != 0
                    || (r.request_id == 0
                        || (ltb max_payload r.payload_length
                            || request_length != header_bytes + r.payload_length))))))

unfoldable pub count : ℕ → ℕ
count n = (n + 1) % 2 ^ 64

abbrev pub hello_text : List ℕ
hello_text =
    codes
      "{\"protocol\":1,\"transport\":\"inherited_memfd_eventfd\",\"worker\":\"ndk_mediacodec\",\"public_listener\":false,\"descriptor_transfer\":false,\"max_sessions\":2}"

abbrev pub answer : ℕ → List ℕ → DispatchResult
answer capacity text = record {
  status = codec_ok;
  session_id = 0;
  payload = copy_text capacity text;
}

abbrev pub health_answer : ℕ → Option (List ℕ) → DispatchResult
health_answer capacity none = failure error_io 0 capacity (codes "health serialization failed")
health_answer capacity (some text) = answer capacity text

module _ (P : Platform) where
  open P use {World, Codec, capabilities, pid}

  unfoldable pub dispatch_hello : WorkerState Codec → ℕ → ℕ → World → Handled P
  dispatch_hello s len capacity w = reply P s w (
      if len != 0
      then failure error_protocol 0 capacity (codes "hello payload must be empty")
      else answer capacity hello_text)

  unfoldable pub dispatch_capabilities : WorkerState Codec → ℕ → ℕ → World → Handled P
  dispatch_capabilities s len capacity w = reply P s w (
      if len != 0
      then failure error_protocol 0 capacity (codes "capabilities payload must be empty")
      else answer capacity capabilities)

  abbrev pub report : WorkerState Codec → ℕ → Report
  report s now = record {
    pid = pid;
    uptime_ms = uptime_ms now s.started_ns;
    active = active_sessions s;
    requests = s.requests;
    errors = s.errors;
  }

  unfoldable pub dispatch_health : WorkerState Codec → ℕ → ℕ → ℕ → World → Handled P
  dispatch_health s id len capacity w =
      if len != 0 || id != 0
      then reply P s w (
          failure error_protocol 0 capacity
            (codes "health request must be empty and use session 0"))
      else let (w', now) = monotonic_ns P w in
        reply P s w' (health_answer capacity (health_text (report s now)))

  -- The `switch (type)`.
  unfoldable pub dispatch_type : WorkerState Codec → ℕ → ℕ → List ℕ → ℕ → ℕ → World → Handled P
  dispatch_type s type id payload len capacity w =
      if type == Kind.hello
      then dispatch_hello s len capacity w
      else if type == Kind.capabilities
      then dispatch_capabilities s len capacity w
      else if type == Kind.health
      then dispatch_health s id len capacity w
      else if type == Kind.create
      then if id != 0
        then reply P s w (failure error_protocol id capacity (codes "create must use session 0"))
        else dispatch_create P s payload len capacity w
      else if type == Kind.create_transcoder
      then if id != 0
        then reply P s w
            (failure error_protocol id capacity (codes "create transcoder must use session 0"))
        else dispatch_create_transcoder P s payload len capacity w
      else if type == Kind.input_shared_memory || type == Kind.output_shared_memory
      then reply P s w (
          failure error_unsupported id capacity
            (codes "legacy descriptor transfer is unsupported; use the inherited shared slot"))
      else dispatch_session P s type id payload len capacity w

  -- `if (result.status < DSCW_CODEC_OK) state->errors++;`
  unfoldable pub count_error : Handled P → Handled P
  count_error h =
      if is_negative h.result.status
      then record h { state = record (h.state) { errors = count h.state.errors } }
      else h

  -- `state->requests++;`
  abbrev pub counted : WorkerState Codec → WorkerState Codec
  counted s = record s { requests = count s.requests }

  unfoldable pub dispatch_valid : WorkerState Codec → Request → List ℕ → ℕ → World → Handled P
  dispatch_valid s r slot capacity w =
      count_error
        (dispatch_type s r.type r.session_id (drop header_bytes slot) r.payload_length capacity w)

  abbrev pub refuse_header : WorkerState Codec → Request → ℕ → World → Handled P
  refuse_header s r capacity w = count_error (
      reply P s w (
        failure (if r.version != dscb_version then error_version else error_protocol) r.session_id
          capacity (codes "invalid codec protocol request")))

  unfoldable pub dispatch_request : WorkerState Codec → List ℕ → ℕ → ℕ → World → Handled P
  dispatch_request s slot request_length capacity w =
      if ltb request_length header_bytes
      then count_error (
          reply P (counted s) w
            (failure error_protocol 0 capacity (codes "truncated protocol header")))
      else if is_invalid (read_request slot) request_length
      then refuse_header (counted s) (read_request slot) capacity w
      else dispatch_valid (counted s) (read_request slot) slot capacity w
