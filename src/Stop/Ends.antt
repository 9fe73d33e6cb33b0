-- ===== src/Stop/Ends.antt =====
-- That the waits end in time.
use dawnshell.Prelude.{
  ℕ, zero, suc, ◌+◌, ◌*◌, ◌≤◌, ◌<◌, ◌≡◌, refl, ◌≢◌, inl, inr, true, false, Option, none, some,
  arith, ltb, ltb→lt, lt→ltb, Bool-cases,
}
use dawnshell.Cgroup.Run.{⊤}
use dawnshell.Stop.Delegated.{sleep_for}
use dawnshell.Stop.System.{System}
use dawnshell.Stop.Wait.{Waited, released, out_of_fuel, after_test, wait_until}

module _ (S : System) where
  open S use {kernel, flock, monotonic_millis}
  open kernel use {World}

  -- What the clock reads.
  abbrev pub reading : World → ℕ
  reading w = (monotonic_millis w).1

  abbrev pub IsFair : Option Waited → Type 0
  IsFair none = ⊤
  IsFair (some r) = r ≢ out_of_fuel

  -- A wait's round: from a reading of the clock behind the test and the sleep.
  abbrev pub round : (World → World × Option Waited) → ℕ → World → World
  round test period w = sleep_for S period (test (monotonic_millis w).0).0

  after_test-ends :
      (r : World × Option Waited) (rest : World → World × Waited)
      → IsFair r.1
      → (rest r.0).1 ≢ out_of_fuel
      → (after_test S r rest).1 ≢ out_of_fuel
  unfolding after_test
  after_test-ends (w, none) rest fair ih = ih
  after_test-ends (w, some r) rest fair ih = fair

  after_test-released :
      (r : World × Option Waited) (rest : World → World × Waited)
      → ((ended : Waited) → r.1 ≡ some ended → ended ≡ released)
      → (r.1 ≡ none → (rest r.0).1 ≡ released)
      → (after_test S r rest).1 ≡ released
  unfolding after_test
  after_test-released (w, none) rest clean ih = ih refl
  after_test-released (w, some r) rest clean ih = clean r refl

  module _ (test : World → World × Option Waited) (period : ℕ)
      (sleeps : (w : World) → reading w + period ≤ reading (round test period w)) where
    -- With a round for every sleep that fits before the deadline, and one more, the wait ends.
    pub wait_until-ends :
        ((w : World) → IsFair (test w).1)
        → (fuel rounds deadline : ℕ) (w : World) → rounds < fuel
        → deadline ≤ reading w + rounds * period
        → (wait_until S test fuel period deadline w).1 ≢ out_of_fuel
    unfolding wait_until
    wait_until-ends fair zero rounds deadline w enough late = absurd (omega arith)
    wait_until-ends fair (suc fuel) zero deadline w enough late =
        let over : ltb (reading w) deadline ≡ false = ground arith in rw over (λ e. cc)
    wait_until-ends fair (suc fuel) (suc rounds) deadline w enough late =
        elim (Bool-cases (ltb (reading w) deadline)) [
          | inr over ↦ rw over (λ e. cc)
          | inl early ↦
              let slept = sleeps w in
              rw early (
                after_test-ends (test (monotonic_millis w).0) _ (fair _) (
                  wait_until-ends fair fuel rounds deadline (round test period w) (omega arith)
                    (omega arith)))
        ]

    -- A test that passes from the time `free` on, and ends the wait only if it passes, is met before
    -- the deadline, if no round from before `free` runs beyond it.
    pub wait_until-released :
        (free deadline : ℕ)
        → ((w : World) → free ≤ reading w → (test (monotonic_millis w).0).1 ≢ none)
        → ((w : World) (ended : Waited) → (test w).1 ≡ some ended → ended ≡ released)
        → ((w : World) → reading w < free → reading (round test period w) < deadline)
        → (fuel rounds : ℕ) (w : World) → rounds < fuel
        → deadline ≤ reading w + rounds * period
        → reading w < deadline
        → (wait_until S test fuel period deadline w).1 ≡ released
    unfolding wait_until
    wait_until-released free deadline passes clean short zero rounds w enough late early =
        absurd (omega arith)
    wait_until-released free deadline passes clean short (suc fuel) zero w enough late early =
        absurd (omega arith)
    wait_until-released free deadline passes clean short (suc fuel) (suc rounds) w enough late
          early =
        let is_early : ltb (reading w) deadline ≡ true = lt→ltb (reading w) deadline early in
        rw is_early (
          after_test-released (test (monotonic_millis w).0) _ (clean _) (λ fails.
            let before : reading w < free = elim (Bool-cases (ltb (reading w) free)) [
              | inl b ↦ ltb→lt (reading w) free b
              | inr b ↦ absurd (passes w (ground arith) fails)
            ] in
            let slept = sleeps w in
            wait_until-released free deadline passes clean short fuel rounds (round test period w)
              (omega arith) (omega arith) (short w before)))
