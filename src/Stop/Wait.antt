-- ===== src/Stop/Wait.antt =====
-- The loops that wait until a deadline: for the supervisor's lock, and for a service to end.
use dawnshell.Prelude.{
  ℕ, zero, suc, ◌+◌, Bool, Option, none, some, List, ltb, if◌then◌else◌, codes, str_eq,
}
use dawnshell.Cgroup.Run.{◌>>=◌, ⊤, Action, pure, fail, ◌>>◌, look}
use dawnshell.Launch.Namespaces.{Proc, validate_compat_service_identity, validate_init_identity}
use dawnshell.State.Fields.{SavedState}
use dawnshell.Stop.Delegated.{sleep_for}
use dawnshell.Stop.System.{System, would_block, open_lock_file}

-- How a wait ends; `out_of_fuel` is the model's own.
pub data Waited : Type 0 where
  released timed_out out_of_fuel : Waited
  lock_error : ℕ → Waited

module _ (S : System) where
  open S use {kernel, proc, flock, unlock, monotonic_millis}
  open kernel use {World}

  -- What a test gives: the end of the wait, or `rest`.
  unfoldable pub after_test : World × Option Waited → (World → World × Waited) → World × Waited
  after_test (w, some r) rest = (w, r)
  after_test (w, none) rest = rest w

  -- `while (monotonic_millis() < deadline)`: the test ends the loop with a result, or lets it sleep.
  unfoldable pub wait_until : (World → World × Option Waited) → ℕ → ℕ → ℕ → World → World × Waited
  wait_until test zero period deadline w = (w, out_of_fuel)
  wait_until test (suc fuel) period deadline w =
      let (w1, now) = monotonic_millis w in
      if ltb now deadline
      then after_test (test w1) (λ w2. wait_until test fuel period deadline (sleep_for S period w2))
      else (w1, timed_out)

  -- The attempt to take the lock, after `flock`.
  unfoldable pub locked : World × Option ℕ → World × Option Waited
  locked (w, none) = (unlock w, some released)
  locked (w, some errno) = (w, if would_block errno then none else some (lock_error errno))

  unfoldable pub try_lock : World → World × Option Waited
  try_lock w = locked (flock w)

  -- The deadline is so many milliseconds from now, and the fuel one more than the sleeps up to it.
  unfoldable pub wait_for_lock : ℕ → ℕ → ℕ → World → World × Waited
  wait_for_lock fuel period timeout w =
      let (w', now) = monotonic_millis w in wait_until try_lock fuel period (now + timeout) w'

  abbrev pub is_compat : SavedState → Bool
  is_compat s = str_eq s.launch_mode (codes "compat")

  -- The service is that of the record: of the compatibility launch, or process 1 of systemd's.
  unfoldable pub validate_service : SavedState → Proc → Bool
  validate_service s p =
      if is_compat s
      then validate_compat_service_identity p s.launcher
      else validate_init_identity p s.launcher

  unfoldable pub try_gone : SavedState → World → World × Option Waited
  try_gone s w = (w, if validate_service s (proc w) then none else some released)

  unfoldable pub after_wait : Waited → Action World ⊤
  after_wait released = pure tt
  after_wait timed_out = fail "shutdown_test_timeout" 109
  after_wait out_of_fuel = fail "out_of_fuel" 0
  after_wait (lock_error errno) = fail "shutdown_test_wait_lock" 109

  unfoldable pub wait_for_supervisor_exit : List ℕ → Action World ⊤
  wait_for_supervisor_exit control_dir = do
    open_lock_file S control_dir "shutdown_test_open_lock" 109
    waited ← look (wait_for_lock 226 200 45000)
    after_wait waited
