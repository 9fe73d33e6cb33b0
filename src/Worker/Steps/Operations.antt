-- ===== src/Worker/Steps/Operations.antt =====
-- The handlers of app/src/main/cpp/dawnshell_codec_worker.c that work on one session.
use dawnshell.Prelude.{
  ℕ, ◌≤◌, ◌≡◌, refl, ◌≢◌, inl, inr, Option, none, some, List, arith, ◌==◌, Bool-cases, length,
  is_negative,
}
use dawnshell.Worker.Platform.{codec_ok, Platform}
use dawnshell.Worker.Session.{
  create_in, dispatch_create, transcode_in, dispatch_create_transcoder, conclude, dispatch_input,
  conclude_output, dispatch_output, conclude_stats, dispatch_close, session_switch, in_slot,
  dispatch_session,
}
use dawnshell.Worker.Steps.{
  close_used, same, Follows, if_Follows, kept, failed, conclude-Follows, install-Follows, follows,
}
use dawnshell.Worker.Table.{
  WorkerState, Slot, first, second, session, with_session, find_session, reserve_session, free_slot,
  close_session,
}

module _ (P : Platform) where
  open P use {World, Codec}

  dispatch_input-Follows :
      (s : WorkerState Codec) (id : ℕ) (c : Codec) (payload : List ℕ) (len capacity : ℕ) (w : World)
      → Follows P s id capacity (dispatch_input P s id c payload len capacity w)
  unfolding dispatch_input
  dispatch_input-Follows s id c payload len capacity w = search follows

  dequeued-Follows :
      (s : WorkerState Codec) (id capacity : ℕ) (c : Codec) (timeout : ℕ) (w : World)
      → Follows P s id capacity (conclude_output P s id capacity (P.dequeue c timeout capacity w))
  dequeued-Follows s id capacity c timeout w =
      if_Follows P s id capacity (is_negative (P.dequeue c timeout capacity w).1.status) _ _
        (conclude-Follows P s id capacity _)
        (kept P s id capacity _ _ (P.dequeue_fits c timeout capacity w) (λ h. h))

  dispatch_output-Follows :
      (s : WorkerState Codec) (id : ℕ) (c : Codec) (payload : List ℕ) (len capacity : ℕ) (w : World)
      → Follows P s id capacity (dispatch_output P s id c payload len capacity w)
  unfolding dispatch_output
  dispatch_output-Follows s id c payload len capacity w = search (follows, dequeued-Follows)

  stats_given :
      (s : WorkerState Codec) (id capacity : ℕ) (r : World × Option (List ℕ))
      → ((text : List ℕ) → r.1 ≡ some text → length text ≤ capacity)
      → Follows P s id capacity (conclude_stats P s id capacity r)
  stats_given s id capacity (w, none) h = failed P s id capacity w _ _
  stats_given s id capacity (w, some text) h = kept P s id capacity w _ (h text refl) (λ p. p)

  stats-Follows :
      (s : WorkerState Codec) (id capacity : ℕ) (c : Codec) (w : World)
      → Follows P s id capacity (conclude_stats P s id capacity (P.statistics c id capacity w))
  stats-Follows s id capacity c w = stats_given s id capacity _ (P.statistics_fits c id capacity w)

  -- A slot that is given back.
  freed :
      (i : Slot) (s : WorkerState Codec) (id capacity : ℕ) (w : World)
      → id ≢ 0
      → (session s i).id ≡ id
      → Follows P s id capacity (
          conclude P
            (with_session s i (free_slot P))
            id
            capacity
            (w, record { status = codec_ok; message = none }))
  unfolding conclude
  freed first s id capacity w z h = record {
    step = close_used first z h (same P _);
    requests = refl;
    errors = refl;
    started_ns = refl;
    fits = omega arith;
    id_fits = λ p. p;
  }
  freed second s id capacity w z h = record {
    step = close_used second z h (same P _);
    requests = refl;
    errors = refl;
    started_ns = refl;
    fits = omega arith;
    id_fits = λ p. p;
  }

  -- A session that has been found, with an identifier other than 0.
  module _ (s : WorkerState Codec) (id : ℕ) (i : Slot) (live : id ≢ 0)
      (here : (session s i).id ≡ id) where
    closed_Follows :
        (capacity : ℕ) (w : World)
        → Follows P s id capacity (
            let (s', w') = close_session P i s w in
            conclude P s' id capacity (w', record { status = codec_ok; message = none }))
    unfolding close_session
    closed_Follows capacity w = elim (Bool-cases ((session s i).id == 0)) [
      | inl e ↦ rw e (conclude-Follows P s id capacity _)
      | inr e ↦ rw e (freed i s id capacity _ live here)
    ]

    dispatch_close-Follows :
        (len capacity : ℕ) (w : World)
        → Follows P s id capacity (dispatch_close P s id i len capacity w)
    unfolding dispatch_close
    dispatch_close-Follows len capacity w = search (follows, closed_Follows)

    session_switch-Follows :
        (type : ℕ) (c : Codec) (payload : List ℕ) (len capacity : ℕ) (w : World)
        → Follows P s id capacity (session_switch P s type id i c payload len capacity w)
    unfolding session_switch
    session_switch-Follows type c payload len capacity w =
        search
          (
            follows, dispatch_input-Follows, dispatch_output-Follows, stats-Follows,
            dispatch_close-Follows,
          )
          depth 12

  find_session-id :
      (s : WorkerState Codec) (id : ℕ) (i : Slot)
      → find_session s id ≡ some i
      → (session s i).id ≡ id
  unfolding find_session
  find_session-id s id first h = ground arith
  find_session-id s id second h = ground arith

  in_slot-Follows :
      (o : Option Slot) (s : WorkerState Codec) (type id : ℕ) (payload : List ℕ) (len capacity : ℕ)
      (w : World)
      → find_session s id ≡ o
      → Follows P s id capacity (in_slot P o s type id payload len capacity w)
  in_slot-Follows none s type id payload len capacity w h = search follows
  in_slot-Follows (some i) s type id payload len capacity w h = elim (Bool-cases (id == 0)) [
    | inl e ↦ rw e (failed P s id capacity w _ _)
    | inr e ↦ rw e (
        session_switch-Follows s id i (λ z. ground arith) (find_session-id s id i h) type
          (session s i).codec payload len capacity w)
  ]

  create_in-Follows :
      (o : Option Slot) (s : WorkerState Codec) (id : ℕ) (payload : List ℕ) (capacity : ℕ)
      (w : World)
      → reserve_session s ≡ o
      → Follows P s id capacity (create_in P o s payload capacity w)
  create_in-Follows none s id payload capacity w h = search follows
  create_in-Follows (some i) s id payload capacity w h = install-Follows P s i id capacity _ h

  transcode_in-Follows :
      (o : Option Slot) (s : WorkerState Codec) (id : ℕ) (payload : List ℕ) (capacity : ℕ)
      (w : World)
      → reserve_session s ≡ o
      → Follows P s id capacity (transcode_in P o s payload capacity w)
  transcode_in-Follows none s id payload capacity w h = search follows
  transcode_in-Follows (some i) s id payload capacity w h = install-Follows P s i id capacity _ h

  create_reserved :
      (s : WorkerState Codec) (id : ℕ) (payload : List ℕ) (capacity : ℕ) (w : World)
      → Follows P s id capacity (create_in P (reserve_session s) s payload capacity w)
  create_reserved s id payload capacity w = create_in-Follows _ s id payload capacity w refl

  pub dispatch_create-Follows :
      (s : WorkerState Codec) (id : ℕ) (payload : List ℕ) (len capacity : ℕ) (w : World)
      → Follows P s id capacity (dispatch_create P s payload len capacity w)
  unfolding dispatch_create
  dispatch_create-Follows s id payload len capacity w = search (follows, create_reserved)

  transcode_reserved :
      (s : WorkerState Codec) (id : ℕ) (payload : List ℕ) (capacity : ℕ) (w : World)
      → Follows P s id capacity (transcode_in P (reserve_session s) s payload capacity w)
  transcode_reserved s id payload capacity w = transcode_in-Follows _ s id payload capacity w refl

  pub dispatch_create_transcoder-Follows :
      (s : WorkerState Codec) (id : ℕ) (payload : List ℕ) (len capacity : ℕ) (w : World)
      → Follows P s id capacity (dispatch_create_transcoder P s payload len capacity w)
  unfolding dispatch_create_transcoder
  dispatch_create_transcoder-Follows s id payload len capacity w =
      search (follows, transcode_reserved)

  pub dispatch_session-Follows :
      (s : WorkerState Codec) (type id : ℕ) (payload : List ℕ) (len capacity : ℕ) (w : World)
      → Follows P s id capacity (dispatch_session P s type id payload len capacity w)
  unfolding dispatch_session
  dispatch_session-Follows s type id payload len capacity w =
      in_slot-Follows (find_session s id) s type id payload len capacity w refl
