-- ===== src/Worker/Lifecycle.antt =====
-- Opening one session: what a successful creation leaves.
use dawnshell.Prelude.{
  ℕ, ◌+◌, ◌^◌, ◌<◌, ◌≡◌, refl, ◌≢◌, ◌⊎◌, inl, inr, none, some, List, arith, ◌==◌, Bool-cases, take,
}
use dawnshell.Worker.Invariant.{IsWf}
use dawnshell.Worker.Platform.{codec_ok, opened, Platform}
use dawnshell.Worker.Session.{Handled, install, create_args, dispatch_create}
use dawnshell.Worker.Spec.{lookup}
use dawnshell.Worker.Table.{
  WorkerState, Slot, first, second, next_id_plain, next_id_ne_zero, reserve_session, open_slot,
}

module _ (P : Platform) where
  open P use {World, Codec}

  -- What a successful creation leaves.
  pub record IsOpened (s : WorkerState Codec) (c : Codec) (capacity : ℕ) (text : List ℕ) (w : World)
      (h : Handled P) : Type 0 where
    pub status : h.result.status ≡ codec_ok
    pub described : h.result.payload ≡ take capacity text
    pub not_zero : h.result.session_id ≢ 0
    pub unused : lookup P s h.result.session_id ≡ none
    pub found : lookup P h.state h.result.session_id ≡ some c
    pub others : (k : ℕ) → k ≢ h.result.session_id → lookup P h.state k ≡ lookup P s k
    pub world : h.world ≡ w

  install-IsOpened :
      (s : WorkerState Codec) (i : Slot) (capacity : ℕ) (w : World) (c : Codec) (text : List ℕ)
      → IsWf P s
      → s.next_session_id + 1 < 2 ^ 64
      → reserve_session s ≡ some i
      → IsOpened s c capacity text w (install P s i capacity (w, opened c text))
  unfolding install open_slot lookup reserve_session
  install-IsOpened s first capacity w c text wf room free = record {
    status = refl;
    described = refl;
    not_zero = next_id_ne_zero s.next_session_id;
    unused = ground (arith, next_id_plain s.next_session_id);
    found = ground (arith, next_id_ne_zero s.next_session_id);
    others = λ k ne. ground arith;
    world = refl;
  }
  install-IsOpened s second capacity w c text wf room free = record {
    status = refl;
    described = refl;
    not_zero = next_id_ne_zero s.next_session_id;
    unused = ground (arith, next_id_plain s.next_session_id);
    found = ground (arith, next_id_ne_zero s.next_session_id, next_id_plain s.next_session_id);
    others = λ k ne. ground arith;
    world = refl;
  }

  reserved_free :
      (s : WorkerState Codec)
      → (s.slot0.id ≡ 0) ⊎ (s.slot1.id ≡ 0)
      → (i : Slot) × (reserve_session s ≡ some i)
  unfolding reserve_session
  reserved_free s free = elim (Bool-cases (s.slot0.id == 0)) [
    | inl e ↦ (first, ground arith)
    | inr e ↦ (second, ground arith)
  ]

  -- With a free slot and a codec library that opens session `c`, a create request of 28 bytes
  -- succeeds: the answer carries a new identifier, not 0 and not in use before, under which `c` is
  -- found from then on, and every other identifier is as before.
  pub dispatch_create-IsOpened :
      (s : WorkerState Codec) (payload : List ℕ) (capacity : ℕ) (w w' : World) (c : Codec)
      (text : List ℕ)
      → IsWf P s
      → s.next_session_id + 1 < 2 ^ 64
      → (s.slot0.id ≡ 0) ⊎ (s.slot1.id ≡ 0)
      → P.create (create_args P payload) w ≡ (w', opened c text)
      → IsOpened s c capacity text w' (dispatch_create P s payload 28 capacity w)
  unfolding dispatch_create
  dispatch_create-IsOpened s payload capacity w w' c text wf room free made =
      let (i, e) = reserved_free s free in
      rw e (rw made (install-IsOpened s i capacity w' c text wf room e))
