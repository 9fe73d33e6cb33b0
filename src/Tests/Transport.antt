-- ===== src/Tests/Transport.antt =====
-- The transport's theorems at small inputs.
use dawnshell.Wire.Kind
use dawnshell.Prelude.{ℕ, ◌≤◌, ◌≡◌, refl, Bool, true, List, [], ◌∷◌, arith, replicate, pos}
use dawnshell.Tests.Fixtures.{desk, busy_state, create_payload}
use dawnshell.Transport.Client.{
  ok, Response, Caller, Pending, parse_response, rpc_receive, rpc_receive-own,
}
use dawnshell.Transport.Rpc.{IsIdle, IsExchanged, rpc-IsExchanged}
use dawnshell.Transport.State.{transport_magic, transport_version, slot_size, mapping_size, Shared}
use dawnshell.Wire.Bytes.{get_u16, get_u32, get_u64}

abbrev idle_caller : Caller
idle_caller = record { started = true; sequence = 6; next_request_id = 5 }

abbrev idle_shared : Shared
idle_shared = record {
  control = record {
    magic = transport_magic;
    version = transport_version;
    mapping_bytes = mapping_size;
    slot_bytes = slot_size;
    parent_pid = 41;
    worker_pid = 42;
    flags = 2;
    request_sequence = 6;
    request_bytes = 32;
    response_sequence = 6;
    response_bytes = 32;
  };
  request_slot = replicate 64 170;
  response_slot = replicate 64 187;
  request_event = 0;
  response_event = 0;
}

abbrev plenty : ℕ → Bool
plenty n = true

idle_shared-IsIdle : IsIdle idle_caller idle_shared
idle_shared-IsIdle = record {
  started = refl;
  id_set = omega arith;
  id_fits = omega arith;
  no_request = refl;
  no_response = refl;
  no_shutdown = refl;
  mapped = omega arith;
}

rpc-IsExchanged_example :
    IsExchanged desk plenty idle_caller idle_shared Kind.create 0 create_payload busy_state 0
rpc-IsExchanged_example =
    rpc-IsExchanged desk plenty idle_caller idle_shared Kind.create 0 create_payload busy_state 0
      idle_shared-IsIdle (omega arith) (omega arith) (omega arith) (λ n. refl)

abbrev waiting_close : Pending
waiting_close = record { type = 8; request_id = 5; sequence = 7 }

-- An answer to a close request: a header with no payload.
abbrev answer_header : List ℕ
answer_header =
    68 ∷ 83 ∷ 67 ∷ 66 ∷ 0 ∷ 1 ∷ 128 ∷ 8 ∷ 0 ∷ 0 ∷ 0 ∷ 0 ∷ 0 ∷ 0 ∷ 0 ∷ 0 ∷ 0 ∷ 0 ∷ 0 ∷ 9 ∷ 0 ∷ 0 ∷ 0
    ∷ 0 ∷ 0 ∷ 0 ∷ 0 ∷ 5 ∷ 0 ∷ 0 ∷ 0 ∷ 0 ∷ []

abbrev answered_shared : Shared
answered_shared = record idle_shared {
  control = record (idle_shared.control) { response_sequence = 7; response_bytes = 32 };
  response_slot = answer_header;
  response_event = 1;
}

abbrev closed_response : Response
closed_response = record {
  type = 32776;
  session_id = 9;
  request_id = 5;
  status = pos 0;
  payload = [];
}

closed_received : (rpc_receive plenty answered_shared waiting_close).1 ≡ ok closed_response
unfolding rpc_receive parse_response get_u16 get_u32 get_u64
closed_received = refl

rpc_receive-own_example :
    ◌≡◌ {A = ℕ} 7 7
    × (◌≡◌ {A = ℕ} 5 5)
    × (◌≡◌ {A = ℕ} 32776 32776)
    × (0 ≤ 8388608)
    × (◌≡◌ {A = ℕ} 32 32)
rpc_receive-own_example =
    rpc_receive-own plenty answered_shared waiting_close closed_response (omega arith)
      closed_received
