-- ===== src/Media/Waiting.antt =====
-- The loops on images end: `acquire_image` by its deadline, `drain_images` by the images that are left.
use dawnshell.Prelude.{
  ℕ, zero, suc, ◌+◌, ◌-◌, ◌*◌, ◌%◌, ◌^◌, ◌≤◌, ◌<◌, ◌≡◌, refl, sym, ap, ◌∙◌, ◌⊎◌, inl, inr, Bool,
  true, false, arith, ltb, ltb→lt, Bool-cases,
}
use dawnshell.Media.Cases.{gives, has_none, fails, acquired_is}
use dawnshell.Media.Control.{drain_rounds}
use dawnshell.Media.Ndk.{Image, Acquired, image, no_buffer, failed, Ndk}
use dawnshell.Media.Pending.{acquire_rounds, wait_ms, acquire_next_image}
use dawnshell.Media.Session.{monotonic_ns}

abbrev pub is_image : Acquired → Bool
is_image (image i) = true
is_image no_buffer = false
is_image failed = false

module _ (N : Ndk) where
  open N use {World, Reader, usleep, acquire_image, delete_image}

  -- The world at the head of the next round.
  abbrev pub next_round : Reader → World → World
  next_round reader w = (monotonic_ns N (usleep 1000 (acquire_image reader w).0)).0

  -- What the clock reads behind the sleep of a round.
  abbrev pub round_end : Reader → World → ℕ
  round_end reader w = (monotonic_ns N (usleep 1000 (acquire_image reader w).0)).1

  -- `time` is what the clock has reached: each round takes a millisecond, or the clock stands at the
  -- last value of 64 bits.
  abbrev pub IsTicking : Reader → (World → ℕ) → World → Type 0
  IsTicking reader time w =
      (2 ^ 64 - 1 ≤ round_end reader w)
      ⊎ ((time w + 1000000 ≤ round_end reader w) × (time w + 1000000 ≤ time (next_round reader w)))

  acquire_rounds-more :
      (deadline : ℕ) (reader : Reader) (time : World → ℕ)
      → deadline < 2 ^ 64
      → ((w : World) → IsTicking reader time w)
      → (fuel extra : ℕ) (w : World) → deadline ≤ time w + suc fuel * 1000000
      → acquire_rounds N (suc (fuel + extra)) deadline reader w
        ≡ acquire_rounds N (suc fuel) deadline reader w
  unfolding acquire_rounds
  acquire_rounds-more deadline reader time below ticks zero extra w enough =
      elim (acquired_is (acquire_image reader w).1) [
        | gives i e ↦ rw (e, acquire_rounds) refl
        | fails e ↦ rw (e, acquire_rounds) refl
        | has_none e ↦ elim (Bool-cases (ltb (round_end reader w) deadline)) [
          | inr late ↦ rw (e, late, acquire_rounds) refl
          | inl early ↦
              let before = ltb→lt (round_end reader w) deadline early in
              elim (ticks w) [
                | inl at_end ↦ absurd (omega (arith, before, at_end, below))
                | inr (here, there) ↦ absurd (omega (arith, before, here, enough))
              ]
        ]
      ]
  acquire_rounds-more deadline reader time below ticks (suc fuel) extra w enough =
      elim (acquired_is (acquire_image reader w).1) [
        | gives i e ↦ rw (e, acquire_rounds) refl
        | fails e ↦ rw (e, acquire_rounds) refl
        | has_none e ↦ elim (Bool-cases (ltb (round_end reader w) deadline)) [
          | inr late ↦ rw (e, late, acquire_rounds) refl
          | inl early ↦
              let before = ltb→lt (round_end reader w) deadline early in
              elim (ticks w) [
                | inl at_end ↦ absurd (omega (arith, before, at_end, below))
                | inr (here, there) ↦
                    let rest =
                      acquire_rounds-more deadline reader time below ticks fuel extra
                        (next_round reader w) (omega (arith, there, enough)) in
                    let one_more : suc fuel + extra ≡ suc (fuel + extra) = omega arith in
                    rw (e, early, one_more, acquire_rounds) rest
              ]
        ]
      ]

  -- If the clock reads no more than the time it has reached, and each round takes a millisecond or
  -- reads the last value of 64 bits, then the wait for an image ends by its deadline and not by the
  -- bound on its rounds: with any more rounds it gives the same.
  pub acquire_next_image-ends :
      (timeout_ms extra : ℕ) (reader : Reader) (time : World → ℕ) (w : World)
      → ((w : World) → (monotonic_ns N w).1 ≤ time (monotonic_ns N w).0)
      → ((w : World) → IsTicking reader time w)
      → acquire_rounds N
          (wait_ms N timeout_ms + extra)
          (((monotonic_ns N w).1 + wait_ms N timeout_ms * 1000000) % 2 ^ 64)
          reader
          (monotonic_ns N w).0
        ≡ acquire_next_image N timeout_ms reader w
  unfolding acquire_next_image
  acquire_next_image-ends timeout_ms extra reader time w reached ticks =
      let deadline = ((monotonic_ns N w).1 + wait_ms N timeout_ms * 1000000) % 2 ^ 64 in
      let rounds = wait_ms N timeout_ms - 1 in
      let some_rounds : wait_ms N timeout_ms ≡ suc rounds = ground arith in
      let all_rounds : wait_ms N timeout_ms + extra ≡ suc (rounds + extra) =
        omega (arith, some_rounds) in
      let now = (monotonic_ns N w).1 in
      let w' = (monotonic_ns N w).0 in
      let below : deadline < 2 ^ 64 = omega arith in
      let enough : deadline ≤ time w' + suc rounds * 1000000 =
        omega (arith, reached w, some_rounds) in
      ap (λ k. acquire_rounds N k deadline reader w') all_rounds
      ∙ acquire_rounds-more deadline reader time below ticks rounds extra w' enough
      ∙ ap (λ k. acquire_rounds N k deadline reader w') (sym some_rounds)

  -- Draining a reader in more rounds than the images that it can give, `queued`, leaves it without an
  -- image, if each image that is taken leaves fewer and a reader that gave none gives none after that.
  pub drain_rounds-IsDrained :
      (queued : World → ℕ) (reader : Reader)
      → ((w : World) (i : Image)
          → (acquire_image reader w).1 ≡ image i
          → suc (queued (delete_image i (acquire_image reader w).0)) ≤ queued w)
      → ((w : World)
          → is_image (acquire_image reader w).1 ≡ false
          → is_image (acquire_image reader (acquire_image reader w).0).1 ≡ false)
      → (fuel : ℕ) (w : World) → queued w < fuel
      → is_image (acquire_image reader (drain_rounds N fuel reader w)).1 ≡ false
  unfolding drain_rounds
  drain_rounds-IsDrained queued reader takes stays zero w h = absurd (omega (arith, h))
  drain_rounds-IsDrained queued reader takes stays (suc fuel) w h =
      elim (acquired_is (acquire_image reader w).1) [
        | gives j e ↦
            let fewer = takes w j e in
            rw (e, drain_rounds)
              (drain_rounds-IsDrained queued reader takes stays fuel
                (delete_image j (acquire_image reader w).0) (omega (arith, fewer, h)))
        | has_none e ↦ rw (e, drain_rounds) (stays w (ap is_image e))
        | fails e ↦ rw (e, drain_rounds) (stays w (ap is_image e))
      ]
