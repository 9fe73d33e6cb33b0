-- ===== src/Worker/Steps.antt =====
-- The ways in which a request for session `id` can change the session table, as a relation, and that every handler
-- follows it.
pub mod Operations
pub mod Request
use dawnshell.Prelude.{
  ℕ, ◌^◌, ◌≤◌, ◌<◌, ◌≡◌, refl, ◌≢◌, inl, inr, Bool, true, false, some, List, arith, if◌then◌else◌,
  Bool-cases, length, length-take_le, ℤ, is_negative,
}
use dawnshell.Worker.Platform.{Created, opened, refused, Outcome, Platform}
use dawnshell.Worker.Session.{DispatchResult, failure, Handled, reply, install, conclude}
use dawnshell.Worker.Table.{
  WorkerState, Slot, first, second, next_id-lt, session, with_session, reserve_session, open_slot,
  free_slot,
}

module _ (P : Platform) where
  open P use {World, Codec}

  -- The same slots and identifier counter; the statistics may differ.
  pub record SameTable (s t : WorkerState Codec) : Type 0 where
    pub slot0 : t.slot0 ≡ s.slot0
    pub slot1 : t.slot1 ≡ s.slot1
    pub next_session_id : t.next_session_id ≡ s.next_session_id

  pub data TableStep (id : ℕ) (s t : WorkerState Codec) : Type 0 where
    keep : SameTable s t → TableStep id s t
    open_free :
        (i : Slot) (c : Codec)
        → reserve_session s ≡ some i
        → SameTable (open_slot s i c) t
        → TableStep id s t
    close_used :
        (i : Slot)
        → id ≢ 0
        → (session s i).id ≡ id
        → SameTable (with_session s i (free_slot P)) t
        → TableStep id s t

  pub same : (s : WorkerState Codec) → SameTable s s
  same s = record { slot0 = refl; slot1 = refl; next_session_id = refl }

  -- What every handler of a request for session `id` keeps to: the table makes a step, the counters
  -- are left alone, and the answer fits its slot.
  pub record Follows (s : WorkerState Codec) (id capacity : ℕ) (h : Handled P) : Type 0 where
    pub step : TableStep id s h.state
    pub requests : h.state.requests ≡ s.requests
    pub errors : h.state.errors ≡ s.errors
    pub started_ns : h.state.started_ns ≡ s.started_ns
    pub fits : length h.result.payload ≤ capacity
    pub id_fits : id < 2 ^ 64 → h.result.session_id < 2 ^ 64

  pub if_Follows :
      (s : WorkerState Codec) (id capacity : ℕ) (b : Bool) (x y : Handled P)
      → Follows s id capacity x
      → Follows s id capacity y
      → Follows s id capacity (if b then x else y)
  if_Follows s id capacity true x y p q = p
  if_Follows s id capacity false x y p q = q

  pub kept :
      (s : WorkerState Codec) (id capacity : ℕ) (w : World) (r : DispatchResult)
      → length r.payload ≤ capacity
      → (id < 2 ^ 64 → r.session_id < 2 ^ 64)
      → Follows s id capacity (reply P s w r)
  kept s id capacity w r f g = record {
    step = keep (same s);
    requests = refl;
    errors = refl;
    started_ns = refl;
    fits = f;
    id_fits = g;
  }

  pub failed :
      (s : WorkerState Codec) (id capacity : ℕ) (w : World) (status : ℤ) (text : List ℕ)
      → Follows s id capacity (reply P s w (failure status id capacity text))
  failed s id capacity w status text =
      kept s id capacity w _ (length-take_le capacity text) (λ h. h)

  -- The answers that are about no session.
  pub answered :
      (s : WorkerState Codec) (id capacity : ℕ) (w : World) (status : ℤ) (text : List ℕ)
      → Follows s id capacity (reply P s w (failure status 0 capacity text))
  answered s id capacity w status text =
      kept s id capacity w _ (length-take_le capacity text) (λ h. omega arith)

  -- A status with no payload.
  pub bare :
      (s : WorkerState Codec) (id capacity : ℕ) (w : World) (status : ℤ)
      → Follows s id capacity
          (reply P s w (record { status = status; session_id = id; payload = List.[] }))
  bare s id capacity w status = kept s id capacity w _ (omega arith) (λ h. h)

  pub conclude-Follows :
      (s : WorkerState Codec) (id capacity : ℕ) (r : World × Outcome)
      → Follows s id capacity (conclude P s id capacity r)
  unfolding conclude
  conclude-Follows s id capacity (w, r) = elim (Bool-cases (is_negative r.status)) [
    | inl e ↦ rw e (failed s id capacity w r.status _)
    | inr e ↦ rw e (bare s id capacity w r.status)
  ]

  pub install-Follows :
      (s : WorkerState Codec) (i : Slot) (id capacity : ℕ) (r : World × Created Codec)
      → reserve_session s ≡ some i
      → Follows s id capacity (install P s i capacity r)
  unfolding install open_slot
  install-Follows s i id capacity (w, refused status error) h = answered s id capacity w _ _
  install-Follows s first id capacity (w, opened c text) h = record {
    step = open_free first c h (same (open_slot s first c));
    requests = refl;
    errors = refl;
    started_ns = refl;
    fits = length-take_le capacity text;
    id_fits = λ p. next_id-lt s.next_session_id;
  }
  install-Follows s second id capacity (w, opened c text) h = record {
    step = open_free second c h (same (open_slot s second c));
    requests = refl;
    errors = refl;
    started_ns = refl;
    fits = length-take_le capacity text;
    id_fits = λ p. next_id-lt s.next_session_id;
  }

  pub ruleset follows = (if_Follows, failed, answered, bare, conclude-Follows)
