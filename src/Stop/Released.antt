-- ===== src/Stop/Released.antt =====
-- Waiting for the supervisor's lock: the wait ends, and with the lock if that becomes free in time.
use mathlib.Core.Option.{some-injective}
use dawnshell.Prelude.{
  ℕ, ◌+◌, ◌*◌, ◌≤◌, ◌<◌, ◌≡◌, refl, sym, ap, ◌∙◌, ◌≢◌, inl, inr, true, Option, none, some, List,
  arith, Bool-cases,
}
use dawnshell.Cgroup.Run.{done, pure}
use dawnshell.Cgroup.Triple.{bind-done, bind-look}
use dawnshell.Stop.Ends.{reading, IsFair, round, wait_until-ends, wait_until-released}
use dawnshell.Stop.System.{System, would_block, open_lock_file}
use dawnshell.Stop.Wait.{
  Waited, released, out_of_fuel, locked, try_lock, wait_for_lock, after_wait,
  wait_for_supervisor_exit,
}

module _ (S : System) where
  open S use {kernel, flock, monotonic_millis}
  open kernel use {World}

  -- The clock is monotonic, a sleep lasts no less than was asked for, and neither a reading of the clock
  -- nor a round of the wait takes more than `longest` milliseconds.
  pub record IsClock (period longest : ℕ) : Type 0 where
    pub reads : (w : World) → reading S w ≤ reading S (monotonic_millis w).0
    pub reads_soon : (w : World) → reading S (monotonic_millis w).0 ≤ reading S w + longest
    pub sleeps : (w : World) → reading S w + period ≤ reading S (round S (try_lock S) period w)
    pub wakes : (w : World) → reading S (round S (try_lock S) period w) ≤ reading S w + longest

  -- The lock can be taken from the time `free` on, and until then somebody else has it.
  pub record IsFreed (free : ℕ) : Type 0 where
    pub passes : (w : World) → free ≤ reading S w → (flock (monotonic_millis w).0).1 ≡ none
    pub blocks : (w : World) (errno : ℕ) → (flock w).1 ≡ some errno → would_block errno ≡ true

  locked-IsFair : (r : World × Option ℕ) → IsFair S (locked S r).1
  unfolding locked
  locked-IsFair (w, none) = λ e. cc
  locked-IsFair (w, some errno) = elim (Bool-cases (would_block errno)) [
    | inl blocked ↦ rw blocked tt
    | inr other ↦ rw other (λ e. cc)
  ]

  locked-ne-none : (r : World × Option ℕ) → r.1 ≡ none → (locked S r).1 ≢ none
  unfolding locked
  locked-ne-none (w, none) e = λ f. cc
  locked-ne-none (w, some errno) e = cc

  locked-released :
      (r : World × Option ℕ) (ended : Waited)
      → ((errno : ℕ) → r.1 ≡ some errno → would_block errno ≡ true)
      → (locked S r).1 ≡ some ended
      → ended ≡ released
  unfolding locked
  locked-released (w, none) ended blocks e = sym (some-injective _ _ e)
  locked-released (w, some errno) ended blocks e = let e' = rw (blocks errno refl) at e in cc

  module _ (period longest : ℕ) (clock : IsClock period longest) where
    -- The wait for the lock ends, with a round for every sleep that fits into the time and one more.
    pub wait_for_lock-ends :
        (fuel rounds timeout : ℕ) (w : World)
        → rounds < fuel
        → timeout ≤ rounds * period
        → (wait_for_lock S fuel period timeout w).1 ≢ out_of_fuel
    unfolding wait_for_lock
    wait_for_lock-ends fuel rounds timeout w enough late =
        let forward = clock.reads w in
        wait_until-ends S (try_lock S) period clock.sleeps
          (λ w'. unfold try_lock in locked-IsFair (flock w')) fuel rounds (reading S w + timeout)
          (monotonic_millis w).0 enough (omega arith)

    pub wait_for_lock-released :
        (free : ℕ)
        → IsFreed free
        → (fuel rounds timeout : ℕ) (w : World) → rounds < fuel
        → timeout ≤ rounds * period
        → longest < timeout
        → free + longest ≤ reading S w + timeout
        → (wait_for_lock S fuel period timeout w).1 ≡ released
    unfolding wait_for_lock
    wait_for_lock-released free freed fuel rounds timeout w enough late brief soon =
        let forward = clock.reads w in
        let first = clock.reads_soon w in
        wait_until-released S (try_lock S) period clock.sleeps free (reading S w + timeout)
          (λ w' after.
            unfold try_lock in
            locked-ne-none (flock (monotonic_millis w').0) (freed.passes w' after))
          (λ w' ended e.
            let taken : (locked S (flock w')).1 ≡ some ended = (unfold try_lock in e) in
            locked-released (flock w') ended (freed.blocks w') taken)
          (λ w' before. let wakes = clock.wakes w' in omega arith) fuel rounds
          (monotonic_millis w).0 enough (omega arith) (omega arith)

  -- With a monotonic clock, sleeps that are not cut short, and readings of the clock and rounds of
  -- the wait that take a given time at most, of less than 45 seconds: where the lock file opens,
  -- the lock is held by somebody else up to some time, no other error comes of it, and that time
  -- leaves the given one before the deadline, the wait for the supervisor's end succeeds; in
  -- particular its 226 rounds are enough.
  pub wait_for_supervisor_exit-done :
      (longest free : ℕ)
      → IsClock 200 longest
      → IsFreed free
      → (control_dir : List ℕ) (w w1 : World)
      → open_lock_file S control_dir "shutdown_test_open_lock" 109 w ≡ (w1, done tt)
      → longest < 45000
      → free + longest ≤ reading S w1 + 45000
      → (wait_for_supervisor_exit S control_dir w).1 ≡ done tt
  unfolding wait_for_supervisor_exit
  wait_for_supervisor_exit-done longest free clock freed control_dir w w1 opens brief soon =
      let ends =
        wait_for_lock-released 200 longest clock free freed 226 225 45000 w1 (omega arith)
          (omega arith) brief soon in
      ap (λ r. r.1) (bind-done _ _ w w1 tt opens)
      ∙ ap (λ r. r.1) (bind-look (wait_for_lock S 226 200 45000) (after_wait S) w1)
      ∙ rw ends (unfold after_wait pure in refl)
