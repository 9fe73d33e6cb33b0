-- ===== src/Worker/Closing.antt =====
-- Closing a session, and a whole life of one.
use dawnshell.Wire.Kind
use dawnshell.Prelude.{
  ℕ, ◌+◌, ◌^◌, ◌<◌, ◌≡◌, refl, sym, ap, ◌∙◌, ◌≢◌, ◌⊎◌, inl, inr, false, none, some, List, [], arith,
  ◌==◌, Bool-cases,
}
use dawnshell.Worker.Invariant.{IsWf, TableStep-IsWf}
use dawnshell.Worker.Lifecycle.{dispatch_create-IsOpened}
use dawnshell.Worker.Platform.{codec_ok, opened, Platform}
use dawnshell.Worker.Session.{
  Handled, create_args, dispatch_create, conclude, dispatch_close, session_switch, dispatch_session,
}
use dawnshell.Worker.Spec.{lookup}
use dawnshell.Worker.Steps.{same}
use dawnshell.Worker.Steps.Operations.{dispatch_create-Follows}
use dawnshell.Worker.Table.{WorkerState, Slot, first, second, session, find_session, close_session}

module _ (P : Platform) where
  open P use {World, Codec}

  -- What closing session `id`, whose codec is `c`, leaves.
  pub record IsClosed (s : WorkerState Codec) (id : ℕ) (c : Codec) (w : World) (h : Handled P)
      : Type 0 where
    pub status : h.result.status ≡ codec_ok
    pub empty : h.result.payload ≡ []
    pub gone : lookup P h.state id ≡ none
    pub others : (k : ℕ) → k ≢ id → lookup P h.state k ≡ lookup P s k
    pub world : h.world ≡ P.destroy c w
    pub room : (h.state.slot0.id ≡ 0) ⊎ (h.state.slot1.id ≡ 0)

  -- Where a session is found.
  lookup-find_session :
      (s : WorkerState Codec) (id : ℕ) (c : Codec)
      → lookup P s id ≡ some c
      → (i : Slot) × (find_session s id ≡ some i)
        × ((session s i).id ≡ id)
        × ((session s i).codec ≡ c)
        × (id ≢ 0)
  unfolding lookup find_session
  lookup-find_session s id c h = elim (Bool-cases (s.slot0.id == id)) [
    | inl e ↦ (first, ground arith, ground arith, ground arith, ground arith)
    | inr e ↦ (second, ground arith, ground arith, ground arith, ground arith)
  ]

  close_at :
      (i : Slot) (s : WorkerState Codec) (id : ℕ) (capacity : ℕ) (w : World)
      → IsWf P s
      → id ≢ 0
      → (session s i).id ≡ id
      → IsClosed s id (session s i).codec w (dispatch_close P s id i 0 capacity w)
  unfolding dispatch_close close_session conclude lookup
  close_at first s id capacity w wf live here = record {
    status = refl;
    empty = refl;
    gone = ground arith;
    others = λ k ne. ground arith;
    world = ground arith;
    room = ground arith;
  }
  close_at second s id capacity w wf live here = record {
    status = refl;
    empty = refl;
    gone = ground arith;
    others = λ k ne. ground arith;
    world = ground arith;
    room = ground arith;
  }

  switch_close :
      (s : WorkerState Codec) (id : ℕ) (i : Slot) (c : Codec) (payload : List ℕ) (capacity : ℕ)
      (w : World)
      → session_switch P s Kind.close id i c payload 0 capacity w
        ≡ dispatch_close P s id i 0 capacity w
  unfolding session_switch
  switch_close s id i c payload capacity w = refl

  -- Closing an open session succeeds with an empty answer, destroys exactly its codec, frees its slot
  -- and makes its identifier unknown; every other session stays.
  pub dispatch_session-IsClosed :
      (s : WorkerState Codec) (id : ℕ) (c : Codec) (payload : List ℕ) (capacity : ℕ) (w : World)
      → IsWf P s
      → lookup P s id ≡ some c
      → IsClosed s id c w (dispatch_session P s Kind.close id payload 0 capacity w)
  unfolding dispatch_session
  dispatch_session-IsClosed s id c payload capacity w wf known =
      let (i, found, here, same, live) = lookup-find_session s id c known in
      let nonzero : (id == 0) ≡ false = ground arith in
      rw found
        (rw nonzero (rw switch_close (rw (← same) (close_at i s id capacity w wf live here))))

  -- A session that is created and closed again leaves the map from identifiers to codecs as it was,
  -- with its codec destroyed.
  pub create-close :
      (s : WorkerState Codec) (payload rest : List ℕ) (capacity : ℕ) (w w' : World) (c : Codec)
      (text : List ℕ)
      → IsWf P s
      → s.next_session_id + 1 < 2 ^ 64
      → (s.slot0.id ≡ 0) ⊎ (s.slot1.id ≡ 0)
      → P.create (create_args P payload) w ≡ (w', opened c text)
      → let made = dispatch_create P s payload 28 capacity w in
        let done =
          dispatch_session P made.state Kind.close made.result.session_id rest 0 capacity
            made.world in
        (done.result.status ≡ codec_ok)
        × (done.world ≡ P.destroy c w')
        × ((k : ℕ) → lookup P done.state k ≡ lookup P s k)
  create-close s payload rest capacity w w' c text wf room free opens =
      let made = dispatch_create P s payload 28 capacity w in
      let id = made.result.session_id in
      let new = dispatch_create-IsOpened P s payload capacity w w' c text wf room free opens in
      let step = (dispatch_create-Follows P s id payload 28 capacity w).step in
      let end =
        dispatch_session-IsClosed made.state id c rest capacity made.world
          (TableStep-IsWf P room step wf) new.found in
      (
        end.status,
        end.world ∙ ap (P.destroy c) new.world,
        λ k. elim (Bool-cases (k == id)) [
          | inl e ↦
              let same : k ≡ id = ground arith in
              ap (lookup P _) same ∙ end.gone ∙ sym new.unused ∙ ap (lookup P s) (sym same)
          | inr e ↦ end.others k (λ z. ground arith) ∙ new.others k (λ z. ground arith)
        ],
      )
