-- ===== src/Worker/Guards.antt =====
-- Which requests `dispatch_request` refuses, and that a refused one has no effect.
use dawnshell.Prelude.{
  ℕ, ◌+◌, ◌/◌, ◌%◌, ◌≤◌, ◌≡◌, ◌≢◌, inl, inr, true, false, List, arith, ltb, Bool-cases, codes,
  is_negative,
}
use dawnshell.Wire.Header.{header_bytes}
use dawnshell.Worker.Dispatch.{
  Request, read_request, is_invalid, count, count_error, counted, dispatch_valid, refuse_header,
  dispatch_request,
}
use dawnshell.Worker.Platform.{error_protocol, Platform}
use dawnshell.Worker.Session.{failure, Handled, reply}
use dawnshell.Worker.Table.{WorkerState}

-- The header that the worker accepts, field by field.
pub record IsAccepted (r : Request) (request_length : ℕ) : Type 0 where
  pub magic : r.magic ≡ 0x44534342
  pub version : r.version ≡ 1
  pub not_response : r.type / 0x8000 % 2 ≡ 0
  pub flags : r.flags ≡ 0
  pub reserved : r.reserved ≡ 0
  pub request_id : r.request_id ≢ 0
  pub payload_bounded : r.payload_length ≤ 8388608
  pub exact_length : request_length ≡ 32 + r.payload_length

is_invalid-false : (r : Request) (n : ℕ) → is_invalid r n ≡ false → IsAccepted r n
unfolding is_invalid
is_invalid-false r n h = ground arith

pub IsAccepted-valid : (r : Request) (n : ℕ) → IsAccepted r n → is_invalid r n ≡ false
unfolding is_invalid
IsAccepted-valid r n a = ground arith

module _ (P : Platform) where
  open P use {World, Codec}

  -- What a refusal leaves: both slots, the identifier counter and the world as they were.
  pub record IsRefused (s : WorkerState Codec) (w : World) (h : Handled P) : Type 0 where
    pub slot0 : h.state.slot0 ≡ s.slot0
    pub slot1 : h.state.slot1 ≡ s.slot1
    pub next_session_id : h.state.next_session_id ≡ s.next_session_id
    pub requests : h.state.requests ≡ count s.requests
    pub errors : h.state.errors ≡ count s.errors
    pub world : h.world ≡ w
    pub negative : is_negative h.result.status ≡ true

  IsRefused-short :
      (s : WorkerState Codec) (capacity : ℕ) (w : World)
      → IsRefused s w (
          count_error P (
            reply P
              (counted P s)
              w
              (failure error_protocol 0 capacity (codes "truncated protocol header"))))
  unfolding count_error
  IsRefused-short s capacity w = ground arith

  IsRefused-header :
      (s : WorkerState Codec) (r : Request) (capacity : ℕ) (w : World)
      → IsRefused s w (refuse_header P (counted P s) r capacity w)
  unfolding count_error
  IsRefused-header s r capacity w = ground arith

  -- A request whose header is not exactly that of an accepted request touches no session and no
  -- codec: it is counted, answered with a negative status, and changes nothing else.
  pub dispatch_request-IsRefused :
      (s : WorkerState Codec) (slot : List ℕ) (request_length capacity : ℕ) (w : World)
      → ¬ (IsAccepted (read_request slot) request_length)
      → IsRefused s w (dispatch_request P s slot request_length capacity w)
  unfolding dispatch_request
  dispatch_request-IsRefused s slot n capacity w bad =
      let r = read_request slot in
      elim (Bool-cases (ltb n header_bytes)) [
        | inl short ↦ rw short (IsRefused-short s capacity w)
        | inr long ↦ rw long (elim (Bool-cases (is_invalid r n)) [
          | inl e ↦ rw e (IsRefused-header s r capacity w)
          | inr e ↦ absurd (bad (is_invalid-false r n e))
        ])
      ]

  -- An accepted request is dispatched on its type and payload, and counted.
  pub dispatch_request_accepted :
      (s : WorkerState Codec) (slot : List ℕ) (request_length capacity : ℕ) (w : World)
      → IsAccepted (read_request slot) request_length
      → dispatch_request P s slot request_length capacity w
        ≡ dispatch_valid P (counted P s) (read_request slot) slot capacity w
  unfolding dispatch_request
  dispatch_request_accepted s slot n capacity w ok =
      let long : ltb n header_bytes ≡ false = ground (arith, ok.exact_length) in
      rw long (rw (IsAccepted-valid (read_request slot) n ok))
