-- ===== src/Stop/Orderly.antt =====
-- `run_stop` and `run_restart`. A result of 0 is a result, any other a failure; the
-- lines on standard output are left out.
use Prim.Native.String.{String}
use dawnshell.Prelude.{ℕ, ◌+◌, Bool, false, Option, none, some, List, ◌==◌, if◌then◌else◌}
use dawnshell.Cgroup.Run.{◌>>=◌, ⊤, Action, pure, fail, or_fail, ◌>>◌, look}
use dawnshell.Launch.Namespaces.{Proc, validate_supervisor_identity}
use dawnshell.State.Fields.{SavedState}
use dawnshell.Stop.System.{
  System, sigkill, sigterm, would_block, validate_control_directory, open_lock_file, read_state,
  signal_compat_service,
}
use dawnshell.Stop.Wait.{
  Waited, released, timed_out, out_of_fuel, lock_error, wait_until, wait_for_lock, is_compat,
  validate_service, try_gone,
}

-- SIGRTMIN + 3, which asks systemd to halt; SIGRTMIN is 35 in Android's C library.
abbrev pub sig_halt : ℕ
sig_halt = 38

abbrev pub supervisor_valid : Option SavedState → Proc → Bool
supervisor_valid none p = false
supervisor_valid (some s) p = validate_supervisor_identity p s.launcher

abbrev pub is_zero : ℕ → Bool
is_zero n = n == 0

module _ (S : System) where
  open S use {kernel, geteuid, proc, kill, flock, unlock, monotonic_millis}
  open kernel use {World}

  unfoldable pub require_root : ℕ → Action World ⊤
  require_root code =
      look (λ w. (w, geteuid w)) >>= λ uid. if is_zero uid then pure tt else fail "not_root" code

  -- The record, if it is there and its service is the recorded one.
  unfoldable pub valid_service : Option SavedState → World → World × Option SavedState
  valid_service none w = (w, none)
  valid_service (some s) w = (w, if validate_service S s (proc w) then some s else none)

  unfoldable pub after_kill : Option ℕ → String → ℕ → Action World ⊤
  after_kill none stage code = pure tt
  after_kill (some errno) stage code = fail stage code

  unfoldable pub halt_service : SavedState → Action World ⊤
  halt_service s =
      if is_compat S s
      then look (λ w. (signal_compat_service S s.launcher.init_host_pid sigterm w, tt))
      else look (kill s.launcher.init_host_pid sig_halt) >>= λ errno.
          after_kill errno "signal_orphaned_init" 95

  -- The last test and signal of the wait on an orphan.
  unfoldable pub kill_survivor : SavedState → World → World
  kill_survivor s w =
      if validate_service S s (proc w)
      then (if is_compat S s
          then signal_compat_service S s.launcher.init_host_pid sigkill w
          else (kill s.launcher.init_host_pid sigkill w).0)
      else w

  unfoldable pub wait_for_service : SavedState → World → World × Waited
  wait_for_service s w =
      let (w', now) = monotonic_millis w in wait_until S (try_gone S s) 101 200 (now + 20000) w'

  unfoldable pub after_service : SavedState → Waited → Action World ⊤
  after_service s released = pure tt
  after_service s timed_out = do
    killed ← look (λ w. (kill_survivor s w, tt))
    fail "orphaned_init_stop_timeout" 95
  after_service s out_of_fuel = fail "out_of_fuel" 0
  after_service s (lock_error errno) = fail "out_of_fuel" 0

  unfoldable pub stop_service : Option SavedState → Action World ⊤
  stop_service none = pure tt
  stop_service (some s) = do
    halt_service s
    waited ← look (wait_for_service s)
    after_service s waited

  -- Nobody holds the lock.
  unfoldable pub stop_orphan : List ℕ → Action World ⊤
  stop_orphan control_dir = do
    recorded ← look (read_state S control_dir)
    orphan ← look (valid_service recorded)
    unlocked ← look (λ w. (unlock w, tt))
    stop_service orphan

  unfoldable pub valid_supervisor : Option SavedState → World → World × Option ℕ
  valid_supervisor none w = (w, none)
  valid_supervisor (some s) w = (
    w,
    if validate_supervisor_identity (proc w) s.launcher
        then some s.launcher.supervisor_pid
        else none,
  )

  unfoldable pub after_stop : Waited → Action World ⊤
  after_stop released = pure tt
  after_stop timed_out = fail "stop_timeout" 99
  after_stop out_of_fuel = fail "out_of_fuel" 0
  after_stop (lock_error errno) = fail "wait_stop_lock" 98

  unfoldable pub stop_supervisor : List ℕ → Action World ⊤
  stop_supervisor control_dir = do
    recorded ← look (read_state S control_dir)
    supervisor ← look (valid_supervisor recorded)
    supervisor_pid ← or_fail supervisor "stop_identity_invalid" 96
    errno ← look (kill supervisor_pid sigterm)
    after_kill errno "signal_supervisor" 97
    waited ← look (wait_for_lock S 151 200 30000)
    after_stop waited

  unfoldable pub stop_locked : List ℕ → Option ℕ → Action World ⊤
  stop_locked control_dir none = stop_orphan control_dir
  stop_locked control_dir (some errno) =
      if would_block errno then stop_supervisor control_dir else fail "lock_stop" 95

  unfoldable pub run_stop : List ℕ → Action World ⊤
  run_stop control_dir = do
    require_root 93
    validate_control_directory S control_dir
    open_lock_file S control_dir "open_lock" 94
    locked ← look flock
    stop_locked control_dir locked

  -- `start` stands for `run_start`.
  unfoldable pub run_restart : Action World ⊤ → List ℕ → Action World ⊤
  run_restart start control_dir = run_stop control_dir >> start
