-- ===== src/Tests/Worker.antt =====
-- The worker's theorems, app/src/main/cpp/dawnshell_codec_worker.c, at small inputs.
use dawnshell.Wire.Kind
use dawnshell.Prelude.{ℕ, ◌≡◌, refl, inr, true, is_negative, some, [], ◌∷◌, ◌++◌, arith, codes}
use dawnshell.Tests.Fixtures.{
  desk, empty_state, empty_state-IsWf, busy_state, busy_state-IsWf, full_state, create_payload,
  create_request,
}
use dawnshell.Wire.Bytes.{get_u16, get_u32, get_u64}
use dawnshell.Worker.Atomic.{dispatch_request-IsAtomic}
use dawnshell.Worker.Closing.{IsClosed, dispatch_session-IsClosed, create-close}
use dawnshell.Worker.Dispatch.{
  read_request, is_invalid, dispatch_type, count_error, dispatch_valid, dispatch_request,
}
use dawnshell.Worker.Guards.{IsAccepted, IsRefused, dispatch_request-IsRefused}
use dawnshell.Worker.Invariant.{IsWf, dispatch_request-IsWf}
use dawnshell.Worker.Lifecycle.{IsOpened, dispatch_create-IsOpened}
use dawnshell.Worker.Platform.{codec_ok, opened}
use dawnshell.Worker.Session.{install, create_args, dispatch_create, dispatch_session}
use dawnshell.Worker.Spec.{lookup, SpecStep, dispatch_request-SpecStep}
use dawnshell.Worker.Stale.{dispatch_type-append}
use dawnshell.Worker.Steps.{SameTable}
use dawnshell.Worker.Steps.Request.{Served, dispatch_request-Served}
use dawnshell.Worker.Table.{next_id, reserve_session, open_slot}

-- The request opens session 5000000001.
create_runs :
    (dispatch_request desk empty_state create_request 60 8388608 0).result
    ≡ record { status = codec_ok; session_id = 5000000001; payload = codes "{\"color_format\":21}" }
unfolding dispatch_request dispatch_valid count_error dispatch_type dispatch_create install
    open_slot reserve_session next_id is_invalid read_request get_u16 get_u32 get_u64
create_runs = refl

dispatch_request-SpecStep_example :
    SpecStep desk
      (read_request create_request).session_id
      (lookup desk empty_state)
      (lookup desk (dispatch_request desk empty_state create_request 60 8388608 0).state)
dispatch_request-SpecStep_example =
    dispatch_request-SpecStep desk empty_state create_request 60 8388608 0 empty_state-IsWf
      (omega arith)

dispatch_request-Served_example :
    Served desk empty_state
      (read_request create_request).session_id
      8388608
      (dispatch_request desk empty_state create_request 60 8388608 0)
dispatch_request-Served_example =
    dispatch_request-Served desk empty_state create_request 60 8388608 0

dispatch_request-IsWf_example :
    IsWf desk (dispatch_request desk empty_state create_request 60 8388608 0).state
dispatch_request-IsWf_example =
    dispatch_request-IsWf desk empty_state create_request 60 8388608 0 empty_state-IsWf
      (omega arith)

-- One byte short of what its header announces.
short_request : ¬ (IsAccepted (read_request create_request) 59)
unfolding read_request get_u32
short_request a = omega (arith, a.exact_length)

dispatch_request-IsRefused_example :
    IsRefused desk busy_state 0 (dispatch_request desk busy_state create_request 59 8388608 0)
dispatch_request-IsRefused_example =
    dispatch_request-IsRefused desk busy_state create_request 59 8388608 0 short_request

create_payload_opens :
    desk.create (create_args desk create_payload) 0 ≡ (1, opened 1 (codes "{\"color_format\":21}"))
unfolding get_u32
create_payload_opens = refl

dispatch_create-IsOpened_example :
    IsOpened desk busy_state 1 64
      (codes "{\"color_format\":21}")
      1
      (dispatch_create desk busy_state create_payload 28 64 0)
dispatch_create-IsOpened_example =
    dispatch_create-IsOpened desk busy_state create_payload 64 0 1 1 (codes "{\"color_format\":21}")
      busy_state-IsWf (omega arith) (inr refl) create_payload_opens

nine_known : lookup desk busy_state 9 ≡ some 1
unfolding lookup
nine_known = refl

dispatch_session-IsClosed_example :
    IsClosed desk busy_state 9 1 0 (dispatch_session desk busy_state Kind.close 9 [] 0 64 0)
dispatch_session-IsClosed_example =
    dispatch_session-IsClosed desk busy_state 9 1 [] 64 0 busy_state-IsWf nine_known

create-close_example :
    let made = dispatch_create desk busy_state create_payload 28 64 0 in
    let done =
      dispatch_session desk made.state Kind.close made.result.session_id [] 0 64 made.world in
    (done.result.status ≡ codec_ok)
    × (done.world ≡ 101)
    × ((k : ℕ) → lookup desk done.state k ≡ lookup desk busy_state k)
create-close_example =
    create-close desk busy_state create_payload [] 64 0 1 1 (codes "{\"color_format\":21}")
      busy_state-IsWf (omega arith) (inr refl) create_payload_opens

dispatch_type-append_example :
    dispatch_type desk busy_state Kind.create 0 (create_payload ++ (1 ∷ 2 ∷ [])) 28 64 0
    ≡ dispatch_type desk busy_state Kind.create 0 create_payload 28 64 0
dispatch_type-append_example =
    dispatch_type-append desk create_payload (1 ∷ 2 ∷ []) busy_state Kind.create 0 64 0

-- With two sessions open a third is refused.
refused_status :
    is_negative (dispatch_request desk full_state create_request 60 8388608 0).result.status ≡ true
unfolding dispatch_request dispatch_valid count_error dispatch_type dispatch_create reserve_session
    is_invalid read_request get_u16 get_u32 get_u64
refused_status = refl

dispatch_request-IsAtomic_example :
    SameTable desk full_state (dispatch_request desk full_state create_request 60 8388608 0).state
dispatch_request-IsAtomic_example =
    dispatch_request-IsAtomic desk full_state create_request 60 8388608 0 refused_status
