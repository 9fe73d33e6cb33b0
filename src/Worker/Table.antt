-- ===== src/Worker/Table.antt =====
-- The session table: `struct worker_session`, `struct worker_state`, `find_session`,
-- `reserve_session`, `close_session` and the allocation of identifiers.
use dawnshell.Prelude.{
  ℕ, ◌+◌, ◌%◌, ◌^◌, ◌<◌, ◌≡◌, ◌≢◌, Option, none, some, arith, ◌==◌, if◌then◌else◌,
}
use dawnshell.Worker.Platform.{Platform}

-- A slot with `id` 0 is free.
pub record WorkerSession (S : Type 0) : Type 0 where
  pub id : ℕ
  pub codec : S

-- `DSCB_MAX_SESSIONS` is 2.
pub record WorkerState (S : Type 0) : Type 0 where
  pub slot0 : WorkerSession S
  pub slot1 : WorkerSession S
  pub next_session_id : ℕ
  pub started_ns : ℕ
  pub requests : ℕ
  pub errors : ℕ

pub data Slot : Type 0 where
  first second : Slot

-- `++state->next_session_id`, once more if that wrapped to 0.
unfoldable pub next_id : ℕ → ℕ
next_id n = let id = (n + 1) % 2 ^ 64 in if id == 0 then (id + 1) % 2 ^ 64 else id

pub next_id-lt : (n : ℕ) → next_id n < 2 ^ 64
unfolding next_id
next_id-lt n = ground arith

pub next_id_plain : (n : ℕ) → n + 1 < 2 ^ 64 → next_id n ≡ n + 1
unfolding next_id
next_id_plain n h = ground arith

pub next_id_ne_zero : (n : ℕ) → next_id n ≢ 0
unfolding next_id
next_id_ne_zero n = ground arith

module _ {S : Type 0} where
  abbrev pub session : WorkerState S → Slot → WorkerSession S
  session s first = s.slot0
  session s second = s.slot1

  abbrev pub with_session : WorkerState S → Slot → WorkerSession S → WorkerState S
  with_session s first v = record s { slot0 = v }
  with_session s second v = record s { slot1 = v }

  unfoldable pub find_session : WorkerState S → ℕ → Option Slot
  find_session s id =
      if s.slot0.id == id then some first else if s.slot1.id == id then some second else none

  unfoldable pub reserve_session : WorkerState S → Option Slot
  reserve_session s =
      if s.slot0.id == 0 then some first else if s.slot1.id == 0 then some second else none

  -- `slot->id = …; slot->codec = codec;`, with the counter at the identifier just given.
  unfoldable pub open_slot : WorkerState S → Slot → S → WorkerState S
  open_slot s i codec =
      let id = next_id s.next_session_id in
      record (with_session s i (record { id = id; codec = codec })) { next_session_id = id }

module _ (P : Platform) where
  open P use {World, Codec, null, destroy}

  -- A slot after `memset(session, 0, sizeof(*session))`.
  abbrev pub free_slot : WorkerSession Codec
  free_slot = record { id = 0; codec = null }

  unfoldable pub close_session : Slot → WorkerState Codec → World → WorkerState Codec × World
  close_session i s w =
      if (session s i).id == 0
      then (s, w)
      else (with_session s i free_slot, destroy (session s i).codec w)
