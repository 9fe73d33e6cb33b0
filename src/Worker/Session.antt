-- ===== src/Worker/Session.antt =====
-- The operations on one session: `copy_text`, `failure`, `dispatch_create`,
-- `dispatch_create_transcoder` and `dispatch_session`. `output` is what is written into the response
-- slot, so that `payload_length` is the length of `payload`.
use dawnshell.Prelude.{
  ℕ, ◌-◌, ◌||◌, Option, none, some, List, codes, take, drop, ltb, ◌==◌, ◌!=◌, if◌then◌else◌,
  clear_bit, ℤ, is_negative,
}
use dawnshell.Wire.Bytes.{get_u32, get_u64}
use dawnshell.Wire.Kind
use dawnshell.Worker.Platform.{
  Platform, CreateArgs, TranscodeArgs, Created, opened, refused, Outcome, Dequeued, error_protocol,
  error_unsupported, error_limit, error_session, error_io, codec_ok,
}
use dawnshell.Worker.Table.{
  WorkerState, Slot, session, find_session, reserve_session, open_slot, close_session,
}

pub record DispatchResult : Type 0 where
  pub status : ℤ
  pub session_id : ℕ
  pub payload : List ℕ

-- `copy_text`: at most `capacity` bytes of the text.
abbrev pub copy_text : ℕ → List ℕ → List ℕ
copy_text capacity text = take capacity text

abbrev pub failure : ℤ → ℕ → ℕ → List ℕ → DispatchResult
failure status session_id capacity message = record {
  status = status;
  session_id = session_id;
  payload = copy_text capacity message;
}

module _ (P : Platform) where
  open P use {
    World, Codec, create, create_transcoder, queue, dequeue, queue_eos, flush, keyframe, statistics,
  }

  -- The state that a handler leaves, and its result.
  pub record Handled : Type 0 where
    pub state : WorkerState Codec
    pub world : World
    pub result : DispatchResult

  abbrev pub reply : WorkerState Codec → World → DispatchResult → Handled
  reply s w r = record { state = s; world = w; result = r }

  -- What follows `dscw_codec_create` and `dscw_codec_create_transcoder`.
  unfoldable pub install : WorkerState Codec → Slot → ℕ → World × Created Codec → Handled
  install s i capacity (w, refused status error) = reply s w (failure status 0 capacity error)
  install s i capacity (w, opened codec description) =
      let s' = open_slot s i codec in
      reply s' w (record {
        status = codec_ok;
        session_id = (session s' i).id;
        payload = copy_text capacity description;
      })

  abbrev pub create_args : List ℕ → CreateArgs
  create_args payload = record {
    mode = get_u32 payload 0;
    codec = get_u32 payload 4;
    width = get_u32 payload 8;
    height = get_u32 payload 12;
    frame_rate = get_u32 payload 16;
    bitrate = get_u32 payload 20;
    color_format = get_u32 payload 24;
  }

  abbrev pub transcode_args : List ℕ → TranscodeArgs
  transcode_args payload = record {
    input_codec = get_u32 payload 0;
    output_codec = get_u32 payload 4;
    width = get_u32 payload 8;
    height = get_u32 payload 12;
    frame_rate = get_u32 payload 16;
    bitrate = get_u32 payload 20;
  }

  abbrev pub create_in : Option Slot → WorkerState Codec → List ℕ → ℕ → World → Handled
  create_in none s payload capacity w =
      reply s w (failure error_limit 0 capacity (codes "worker codec session limit reached"))
  create_in (some i) s payload capacity w = install s i capacity (create (create_args payload) w)

  unfoldable pub dispatch_create : WorkerState Codec → List ℕ → ℕ → ℕ → World → Handled
  dispatch_create s payload len capacity w =
      if len != 28
      then reply s w (failure error_protocol 0 capacity (codes "invalid create request"))
      else create_in (reserve_session s) s payload capacity w

  abbrev pub transcode_in : Option Slot → WorkerState Codec → List ℕ → ℕ → World → Handled
  transcode_in none s payload capacity w =
      reply s w (failure error_limit 0 capacity (codes "worker codec session limit reached"))
  transcode_in (some i) s payload capacity w =
      install s i capacity (create_transcoder (transcode_args payload) w)

  unfoldable pub dispatch_create_transcoder : WorkerState Codec → List ℕ → ℕ → ℕ → World → Handled
  dispatch_create_transcoder s payload len capacity w =
      if len != 24
      then reply s w (failure error_protocol 0 capacity (codes "invalid create transcoder request"))
      else transcode_in (reserve_session s) s payload capacity w

  -- `error` begins as "codec operation failed".
  abbrev pub error_text : Option (List ℕ) → List ℕ
  error_text none = codes "codec operation failed"
  error_text (some text) = text

  -- What follows the `switch`.
  unfoldable pub conclude : WorkerState Codec → ℕ → ℕ → World × Outcome → Handled
  conclude s id capacity (w, r) = reply s w (
      if is_negative r.status
      then failure r.status id capacity (error_text r.message)
      else record { status = r.status; session_id = id; payload = List.[] })

  unfoldable pub dispatch_input : WorkerState Codec → ℕ → Codec → List ℕ → ℕ → ℕ → World → Handled
  dispatch_input s id c payload len capacity w =
      if ltb len 16 || get_u32 payload 12 != len - 16
      then reply s w (failure error_protocol id capacity (codes "input payload length mismatch"))
      else if clear_bit (get_u32 payload 8) 2 != 0
      then reply s w (failure error_protocol id capacity (codes "unsupported input flags"))
      else conclude s id capacity
          (queue c (take (len - 16) (drop 16 payload)) (get_u64 payload 0) (get_u32 payload 8) w)

  abbrev pub conclude_output : WorkerState Codec → ℕ → ℕ → World × Dequeued → Handled
  conclude_output s id capacity (w, r) =
      if is_negative r.status
      then conclude s id capacity (w, record { status = r.status; message = r.message })
      else reply s w (record { status = r.status; session_id = id; payload = r.bytes })

  unfoldable pub dispatch_output : WorkerState Codec → ℕ → Codec → List ℕ → ℕ → ℕ → World → Handled
  dispatch_output s id c payload len capacity w =
      if len != 4 || ltb 1000 (get_u32 payload 0)
      then reply s w (failure error_limit id capacity (codes "output timeout must be 0..1000ms"))
      else conclude_output s id capacity (dequeue c (get_u32 payload 0) capacity w)

  abbrev pub conclude_stats : WorkerState Codec → ℕ → ℕ → World × Option (List ℕ) → Handled
  conclude_stats s id capacity (w, none) =
      reply s w (failure error_io id capacity (codes "could not serialize statistics"))
  conclude_stats s id capacity (w, some text) =
      reply s w (record { status = codec_ok; session_id = id; payload = text })

  -- The operations whose payload has a fixed length.
  abbrev pub fixed_length : ℕ → ℕ → WorkerState Codec → ℕ → ℕ → World → List ℕ → Handled → Handled
  fixed_length len expected s id capacity w message rest =
      if len != expected then reply s w (failure error_protocol id capacity message) else rest

  unfoldable pub dispatch_close : WorkerState Codec → ℕ → Slot → ℕ → ℕ → World → Handled
  dispatch_close s id i len capacity w =
      fixed_length len 0 s id capacity w (codes "close payload must be empty") (
        let (s', w') = close_session P i s w in
        conclude s' id capacity (w', record { status = codec_ok; message = none }))

  -- The `switch` on the type, in the slot that has been found.
  unfoldable pub session_switch :
      WorkerState Codec → ℕ → ℕ → Slot → Codec → List ℕ → ℕ → ℕ → World → Handled
  session_switch s type id i c payload len capacity w =
      if type == Kind.input
      then dispatch_input s id c payload len capacity w
      else if type == Kind.output
      then dispatch_output s id c payload len capacity w
      else if type == Kind.eos
      then fixed_length len 8 s id capacity w (codes "EOS request must contain pts_us")
          (conclude s id capacity (queue_eos c (get_u64 payload 0) w))
      else if type == Kind.flush
      then fixed_length len 0 s id capacity w (codes "flush payload must be empty")
          (conclude s id capacity (flush c w))
      else if type == Kind.request_keyframe
      then fixed_length len 0 s id capacity w (codes "keyframe payload must be empty")
          (conclude s id capacity (keyframe c w))
      else if type == Kind.session_stats
      then fixed_length len 0 s id capacity w (codes "statistics payload must be empty")
          (conclude_stats s id capacity (statistics c id capacity w))
      else if type == Kind.close
      then dispatch_close s id i len capacity w
      else reply s w (failure error_unsupported id capacity (codes "unsupported session operation"))

  abbrev pub in_slot : Option Slot → WorkerState Codec → ℕ → ℕ → List ℕ → ℕ → ℕ → World → Handled
  in_slot none s type id payload len capacity w =
      reply s w (failure error_session id capacity (codes "unknown codec session"))
  in_slot (some i) s type id payload len capacity w =
      if id == 0
      then reply s w (failure error_session id capacity (codes "unknown codec session"))
      else session_switch s type id i (session s i).codec payload len capacity w

  unfoldable pub dispatch_session : WorkerState Codec → ℕ → ℕ → List ℕ → ℕ → ℕ → World → Handled
  dispatch_session s type id payload len capacity w =
      in_slot (find_session s id) s type id payload len capacity w
