-- ===== src/Transport/State.antt =====
-- `struct dscw_transport_control` of app/src/main/cpp/dawnshell_codec_transport.h, the two slots of
-- the mapping, and the eventfds that both sides inherit.
use dawnshell.Prelude.{ℕ, ◌+◌, List, ◌++◌, length, take, drop}
use dawnshell.Wire.Header.{header_bytes, max_payload}

abbrev pub transport_magic : ℕ
transport_magic = 0x44534357

abbrev pub transport_version : ℕ
transport_version = 1

abbrev pub control_bytes : ℕ
control_bytes = 4096

-- `DSCW_SLOT_BYTES`, a header and the largest payload.
abbrev pub slot_size : ℕ
slot_size = header_bytes + max_payload

-- `DSCW_REQUEST_OFFSET`, `DSCW_RESPONSE_OFFSET` and `DSCW_MAPPING_BYTES`.
abbrev pub request_offset : ℕ
request_offset = control_bytes

abbrev pub response_offset : ℕ
response_offset = request_offset + slot_size

abbrev pub mapping_size : ℕ
mapping_size = response_offset + slot_size

abbrev pub flag_shutdown : ℕ
flag_shutdown = 1

abbrev pub flag_worker_ready : ℕ
flag_worker_ready = 2

abbrev pub flag_worker_failed : ℕ
flag_worker_failed = 4

pub record Control : Type 0 where
  pub magic : ℕ
  pub version : ℕ
  pub mapping_bytes : ℕ
  pub slot_bytes : ℕ
  pub parent_pid : ℕ
  pub worker_pid : ℕ
  pub flags : ℕ
  pub request_sequence : ℕ
  pub request_bytes : ℕ
  pub response_sequence : ℕ
  pub response_bytes : ℕ

-- What both processes see. An eventfd is its counter: a write of 1 adds to it and a read takes all.
pub record Shared : Type 0 where
  pub control : Control
  pub request_slot : List ℕ
  pub response_slot : List ℕ
  pub request_event : ℕ
  pub response_event : ℕ

-- `memcpy(slot + DSCB_HEADER_BYTES, payload, length)`.
abbrev pub store_payload : List ℕ → List ℕ → List ℕ
store_payload slot payload =
    take header_bytes slot ++ (payload ++ drop (header_bytes + length payload) slot)
