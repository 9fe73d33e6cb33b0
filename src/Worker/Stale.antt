-- ===== src/Worker/Stale.antt =====
-- The request slot is reused, so bytes of earlier requests stand behind the payload. Here no handler
-- of app/src/main/cpp/dawnshell_codec_worker.c reads them.
use dawnshell.Prelude.{
  ℕ, zero, suc, ◌+◌, ◌-◌, ◌≤◌, ◌<◌, ◌≡◌, refl, sym, ap, ◌∙◌, inl, inr, Option, none, some, List, [],
  ◌∷◌, ◌++◌, arith, ltb, ◌!=◌, Bool-cases, codes, length, get_or, take, drop, length-drop,
  take-append, take_all,
}
use dawnshell.Wire.Bytes.{get_u32, get_u64}
use dawnshell.Worker.Dispatch.{dispatch_type}
use dawnshell.Worker.Platform.{Platform}
use dawnshell.Worker.Session.{
  install, create_args, transcode_args, create_in, dispatch_create, transcode_in,
  dispatch_create_transcoder, conclude, dispatch_input, dispatch_output, fixed_length,
  session_switch, in_slot, dispatch_session,
}
use dawnshell.Worker.Table.{WorkerState, Slot, session, find_session, reserve_session}

get_or-append {ℓ} :
    {A : Type ℓ} (xs ys : List A) (i : ℕ) (d : A)
    → i < length xs
    → get_or (xs ++ ys) i d ≡ get_or xs i d
get_or-append [] ys i d h = absurd (omega arith)
get_or-append (x ∷ xs) ys zero d h = refl
get_or-append (x ∷ xs) ys (suc i) d h = get_or-append xs ys i d (omega arith)

get_u32-append :
    (xs ys : List ℕ) (at : ℕ) → at + 4 ≤ length xs → get_u32 (xs ++ ys) at ≡ get_u32 xs at
unfolding get_u32
get_u32-append xs ys at h = omega (
  arith,
  get_or-append xs ys at 0 (omega arith),
  get_or-append xs ys (at + 1) 0 (omega arith),
  get_or-append xs ys (at + 2) 0 (omega arith),
  get_or-append xs ys (at + 3) 0 (omega arith),
)

get_u64-append :
    (xs ys : List ℕ) (at : ℕ) → at + 8 ≤ length xs → get_u64 (xs ++ ys) at ≡ get_u64 xs at
unfolding get_u64
get_u64-append xs ys at h =
    omega
      (arith, get_u32-append xs ys at (omega arith), get_u32-append xs ys (at + 4) (omega arith))

drop-append {ℓ} :
    {A : Type ℓ} (n : ℕ) (xs ys : List A) → n ≤ length xs → drop n (xs ++ ys) ≡ drop n xs ++ ys
drop-append zero xs ys h = refl
drop-append (suc n) [] ys h = absurd (omega arith)
drop-append (suc n) (x ∷ xs) ys h = drop-append n xs ys (omega arith)

-- The data of an input request: what stands behind its 16 bytes of parameters.
input_data-append :
    (payload stale : List ℕ)
    → 16 ≤ length payload
    → take (length payload - 16) (drop 16 (payload ++ stale))
      ≡ take (length payload - 16) (drop 16 payload)
input_data-append payload stale h =
    let n : length (drop 16 payload) ≡ length payload - 16 = length-drop 16 payload in
    rw (drop-append 16 payload stale h) (
      rw (← n)
        (take-append (drop 16 payload) stale ∙ sym (take_all _ (drop 16 payload) (omega arith))))

module _ (P : Platform) where
  open P use {World, Codec}

  module _ (payload stale : List ℕ) where
    u32_at : (at : ℕ) → at + 4 ≤ length payload → get_u32 (payload ++ stale) at ≡ get_u32 payload at
    u32_at = get_u32-append payload stale

    create_args-append :
        length payload ≡ 28 → create_args P (payload ++ stale) ≡ create_args P payload
    create_args-append h = cc (
      u32_at 0 (omega arith),
      u32_at 4 (omega arith),
      u32_at 8 (omega arith),
      u32_at 12 (omega arith),
      u32_at 16 (omega arith),
      u32_at 20 (omega arith),
      u32_at 24 (omega arith),
    )

    transcode_args-append :
        length payload ≡ 24 → transcode_args P (payload ++ stale) ≡ transcode_args P payload
    transcode_args-append h = cc (
      u32_at 0 (omega arith),
      u32_at 4 (omega arith),
      u32_at 8 (omega arith),
      u32_at 12 (omega arith),
      u32_at 16 (omega arith),
      u32_at 20 (omega arith),
    )

    create_in-append :
        (o : Option Slot) (s : WorkerState Codec) (capacity : ℕ) (w : World)
        → length payload ≡ 28
        → create_in P o s (payload ++ stale) capacity w ≡ create_in P o s payload capacity w
    create_in-append none s capacity w h = refl
    create_in-append (some i) s capacity w h =
        ap (λ a. install P s i capacity (P.create a w)) (create_args-append h)

    transcode_in-append :
        (o : Option Slot) (s : WorkerState Codec) (capacity : ℕ) (w : World)
        → length payload ≡ 24
        → transcode_in P o s (payload ++ stale) capacity w ≡ transcode_in P o s payload capacity w
    transcode_in-append none s capacity w h = refl
    transcode_in-append (some i) s capacity w h =
        ap (λ a. install P s i capacity (P.create_transcoder a w)) (transcode_args-append h)

    dispatch_create-append :
        (s : WorkerState Codec) (capacity : ℕ) (w : World)
        → dispatch_create P s (payload ++ stale) (length payload) capacity w
          ≡ dispatch_create P s payload (length payload) capacity w
    unfolding dispatch_create
    dispatch_create-append s capacity w = elim (Bool-cases (length payload != 28)) [
      | inl e ↦ rw e
      | inr e ↦ rw e (create_in-append (reserve_session s) s capacity w (ground arith))
    ]

    dispatch_create_transcoder-append :
        (s : WorkerState Codec) (capacity : ℕ) (w : World)
        → dispatch_create_transcoder P s (payload ++ stale) (length payload) capacity w
          ≡ dispatch_create_transcoder P s payload (length payload) capacity w
    unfolding dispatch_create_transcoder
    dispatch_create_transcoder-append s capacity w = elim (Bool-cases (length payload != 24)) [
      | inl e ↦ rw e
      | inr e ↦ rw e (transcode_in-append (reserve_session s) s capacity w (ground arith))
    ]

    dispatch_input-append :
        (s : WorkerState Codec) (id : ℕ) (c : Codec) (capacity : ℕ) (w : World)
        → dispatch_input P s id c (payload ++ stale) (length payload) capacity w
          ≡ dispatch_input P s id c payload (length payload) capacity w
    unfolding dispatch_input
    dispatch_input-append s id c capacity w = elim (Bool-cases (ltb (length payload) 16)) [
      | inl e ↦ rw e
      | inr e ↦
          let long : 16 ≤ length payload = ground arith in
          rw (
            u32_at 12 (omega arith),
            u32_at 8 (omega arith),
            get_u64-append payload stale 0 (omega arith),
            input_data-append payload stale long,
          )
    ]

    dispatch_output-append :
        (s : WorkerState Codec) (id : ℕ) (c : Codec) (capacity : ℕ) (w : World)
        → dispatch_output P s id c (payload ++ stale) (length payload) capacity w
          ≡ dispatch_output P s id c payload (length payload) capacity w
    unfolding dispatch_output
    dispatch_output-append s id c capacity w = elim (Bool-cases (length payload != 4)) [
      | inl e ↦ rw e
      | inr e ↦ let long : length payload ≡ 4 = ground arith in rw (u32_at 0 (omega arith))
    ]

    eos_append :
        (s : WorkerState Codec) (id : ℕ) (c : Codec) (capacity : ℕ) (w : World) (text : List ℕ)
        → fixed_length P
            (length payload)
            8
            s
            id
            capacity
            w
            text
            (conclude P s id capacity (P.queue_eos c (get_u64 (payload ++ stale) 0) w))
          ≡ fixed_length P
              (length payload)
              8
              s
              id
              capacity
              w
              text
              (conclude P s id capacity (P.queue_eos c (get_u64 payload 0) w))
    eos_append s id c capacity w text = elim (Bool-cases (length payload != 8)) [
      | inl e ↦ rw e
      | inr e ↦
          let long : length payload ≡ 8 = ground arith in
          rw (get_u64-append payload stale 0 (omega arith))
    ]

    session_switch-append :
        (s : WorkerState Codec) (type id : ℕ) (i : Slot) (c : Codec) (capacity : ℕ) (w : World)
        → session_switch P s type id i c (payload ++ stale) (length payload) capacity w
          ≡ session_switch P s type id i c payload (length payload) capacity w
    unfolding session_switch
    session_switch-append s type id i c capacity w = rw (
      dispatch_input-append s id c capacity w,
      dispatch_output-append s id c capacity w,
      eos_append s id c capacity w (codes "EOS request must contain pts_us"),
    )

    in_slot-append :
        (o : Option Slot) (s : WorkerState Codec) (type id capacity : ℕ) (w : World)
        → in_slot P o s type id (payload ++ stale) (length payload) capacity w
          ≡ in_slot P o s type id payload (length payload) capacity w
    in_slot-append none s type id capacity w = refl
    in_slot-append (some i) s type id capacity w =
        rw (session_switch-append s type id i (session s i).codec capacity w)

    -- What a request does depends on its own payload alone, whatever bytes stand behind it in the slot.
    pub dispatch_type-append :
        (s : WorkerState Codec) (type id capacity : ℕ) (w : World)
        → dispatch_type P s type id (payload ++ stale) (length payload) capacity w
          ≡ dispatch_type P s type id payload (length payload) capacity w
    unfolding dispatch_type dispatch_session
    dispatch_type-append s type id capacity w = rw (
      dispatch_create-append s capacity w,
      dispatch_create_transcoder-append s capacity w,
      in_slot-append (find_session s id) s type id capacity w,
    )
