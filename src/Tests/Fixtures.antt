-- ===== src/Tests/Fixtures.antt =====
-- A codec library for the tests: it hands out numbered sessions, refuses a width of 0, and counts.
-- It stands for no Android device.
use dawnshell.Prelude.{
  ℕ, ◌+◌, ◌≤◌, ◌≡◌, ap, none, some, List, [], ◌∷◌, arith, ◌==◌, if◌then◌else◌, codes, length, take,
  length-take_le,
}
use dawnshell.Worker.Invariant.{IsWf, fresh_state, fresh_state-IsWf}
use dawnshell.Worker.Platform.{error_codec, codec_ok, Created, opened, refused, Outcome, Platform}
use dawnshell.Worker.Table.{WorkerState}

abbrev pub opened_in : ℕ → ℕ → ℕ × Created ℕ
opened_in width w =
    if width == 0
    then (w, refused error_codec (codes "no codec"))
    else (w + 1, opened (w + 1) (codes "{\"color_format\":21}"))

abbrev pub done_in : ℕ → ℕ × Outcome
done_in w = (w + 1, record { status = codec_ok; message = none })

pub text_fits :
    (capacity : ℕ) (text : List ℕ)
    → some (take capacity (codes "{}")) ≡ some text
    → length text ≤ capacity
text_fits capacity text h =
    let same : take capacity (codes "{}") ≡ text = cc in
    omega (arith, ap (λ (t : List ℕ). length t) same, length-take_le capacity (codes "{}"))

abbrev pub desk : Platform
desk = record {
  World = ℕ;
  Codec = ℕ;
  null = 0;
  create = λ a w. opened_in a.width w;
  create_transcoder = λ a w. opened_in a.width w;
  queue = λ c bytes pts flags w. done_in w;
  dequeue = λ c timeout capacity w.
      (w + 1, record { status = codec_ok; bytes = take capacity (7 ∷ 8 ∷ []); message = none });
  queue_eos = λ c pts w. done_in w;
  flush = λ c w. done_in w;
  keyframe = λ c w. done_in w;
  statistics = λ c id capacity w. (w, some (take capacity (codes "{}")));
  destroy = λ c w. w + 100;
  capabilities = codes "{}";
  clock = λ w. (w, some (5, 0));
  pid = 42;
  dequeue_fits = λ c timeout capacity w. length-take_le capacity (7 ∷ 8 ∷ []);
  statistics_fits = λ c id capacity w text h. text_fits capacity text h;
}

abbrev pub empty_state : WorkerState ℕ
empty_state = fresh_state desk 5000000000 5000000000

pub empty_state-IsWf : IsWf desk empty_state
empty_state-IsWf = fresh_state-IsWf desk 5000000000 5000000000 (omega arith)

-- A table with one open session, 9, and its codec 1.
abbrev pub busy_state : WorkerState ℕ
busy_state = record {
  slot0 = record { id = 9; codec = 1 };
  slot1 = record { id = 0; codec = 0 };
  next_session_id = 9;
  started_ns = 0;
  requests = 3;
  errors = 1;
}

pub busy_state-IsWf : IsWf desk busy_state
busy_state-IsWf = ground arith

abbrev pub full_state : WorkerState ℕ
full_state = record busy_state { slot1 = record { id = 7; codec = 2 } }

-- Decode AVC at 640 x 480, 30 frames a second.
abbrev pub create_payload : List ℕ
create_payload =
    0 ∷ 0 ∷ 0 ∷ 1 ∷ 0 ∷ 0 ∷ 0 ∷ 1 ∷ 0 ∷ 0 ∷ 2 ∷ 128 ∷ 0 ∷ 0 ∷ 1 ∷ 224 ∷ 0 ∷ 0 ∷ 0 ∷ 30 ∷ 0 ∷ 0 ∷ 0
    ∷ 0 ∷ 0 ∷ 0 ∷ 0 ∷ 0 ∷ []

-- A create request as the client writes it.
abbrev pub create_request : List ℕ
create_request =
    68 ∷ 83 ∷ 67 ∷ 66 ∷ 0 ∷ 1 ∷ 0 ∷ 3 ∷ 0 ∷ 0 ∷ 0 ∷ 0 ∷ 0 ∷ 0 ∷ 0 ∷ 0 ∷ 0 ∷ 0 ∷ 0 ∷ 0 ∷ 0 ∷ 0 ∷ 0
    ∷ 28 ∷ 0 ∷ 0 ∷ 0 ∷ 5 ∷ 0 ∷ 0 ∷ 0 ∷ 0 ∷ create_payload
