-- ===== src/Stop/Force.antt =====
-- `run_force_stop`. A result of 0 is a result, any other a failure; the lines on standard output are
-- left out.
use Prim.Native.String.{String}
use dawnshell.Prelude.{ℕ, Bool, ◌&&◌, Option, none, some, List, ◌==◌, if◌then◌else◌, codes, pos}
use dawnshell.Cgroup.Clean.{cleanup_delegated_cgroups}
use dawnshell.Cgroup.Run.{◌>>=◌, ⊤, Action, pure, fail, or_fail, ◌>>◌, look}
use dawnshell.State.Fields.{SavedState}
use dawnshell.State.File.{initialize_state}
use dawnshell.Stop.Delegated.{terminate_delegated_processes}
use dawnshell.Stop.Orderly.{is_zero, require_root, valid_service, valid_supervisor}
use dawnshell.Stop.System.{
  System, sigkill, esrch, would_block, is_equal, validate_control_directory, open_lock_file,
  read_state, write_state, signal_compat_service,
}
use dawnshell.Stop.Wait.{
  Waited, released, timed_out, out_of_fuel, lock_error, wait_for_lock, is_compat,
}

module _ (S : System) where
  open S use {kernel, kill, kill_group, getsid, getpgid, flock, unlock, realtime_seconds}
  open kernel use {World}

  -- A process that is gone already is no failure.
  unfoldable pub after_kill_present : Option ℕ → String → ℕ → Action World ⊤
  after_kill_present none stage code = pure tt
  after_kill_present (some errno) stage code = if errno == esrch then pure tt else fail stage code

  unfoldable pub kill_service : Option SavedState → String → ℕ → Action World ⊤
  kill_service none stage code = pure tt
  kill_service (some s) stage code =
      if is_compat S s
      then look (λ w. (signal_compat_service S s.launcher.init_host_pid sigkill w, tt))
      else look (kill s.launcher.init_host_pid sigkill) >>= λ errno.
          after_kill_present errno stage code

  abbrev pub recorded_pid : Option SavedState → ℕ
  recorded_pid none = 0
  recorded_pid (some s) = s.launcher.init_host_pid

  -- What both branches end with; the state is written as `change` makes it.
  unfoldable pub finish_force_stop : List ℕ → List ℕ → (SavedState → SavedState) → Action World ⊤
  finish_force_stop root control_dir change = do
    survivors ← look (terminate_delegated_processes S)
    (if is_zero survivors
        then (do
          cleanup_delegated_cgroups kernel root control_dir
          look (λ w. (
            write_state S control_dir
                (change (initialize_state (codes "force-stopped") (realtime_seconds w))) w,
            tt,
          )))
        else fail "force_stop_incomplete" 134)

  unfoldable pub force_stop_orphan : List ℕ → List ℕ → Option SavedState → Action World ⊤
  force_stop_orphan root control_dir service = do
    unlocked ← look (λ w. (unlock w, tt))
    kill_service service "force_stop_orphan_init" 127
    finish_force_stop root control_dir (λ s. s)

  -- `LauncherState` after a forced stop of a running launch.
  abbrev pub stopped_state : ℕ → ℕ → SavedState → SavedState
  stopped_state supervisor_pid init_pid s = record s {
    launcher = record (s.launcher) { supervisor_pid = supervisor_pid; init_host_pid = init_pid };
    wait_status = pos sigkill;
  }

  unfoldable pub after_force_stop : List ℕ → List ℕ → ℕ → ℕ → Waited → Action World ⊤
  after_force_stop root control_dir supervisor_pid init_pid released =
      finish_force_stop root control_dir (stopped_state supervisor_pid init_pid)
  after_force_stop root control_dir supervisor_pid init_pid timed_out =
      fail "force_stop_timeout" 133
  after_force_stop root control_dir supervisor_pid init_pid out_of_fuel = fail "out_of_fuel" 0
  after_force_stop root control_dir supervisor_pid init_pid (lock_error errno) =
      fail "force_stop_wait_lock" 132

  -- The supervisor leads its session and its group.
  unfoldable pub is_leader : ℕ → World → World × Bool
  is_leader pid w = (w, is_equal (getsid pid w) pid && is_equal (getpgid pid w) pid)

  unfoldable pub force_stop_leader : List ℕ → List ℕ → ℕ → Option SavedState → Action World ⊤
  force_stop_leader root control_dir supervisor_pid service = do
    kill_service service "force_stop_init" 130
    errno ← look (kill_group supervisor_pid sigkill)
    after_kill_present errno "force_stop_supervisor_group" 131
    waited ← look (wait_for_lock S 101 100 10000)
    after_force_stop root control_dir supervisor_pid (recorded_pid service) waited

  unfoldable pub force_stop_running :
      List ℕ → List ℕ → Option ℕ → Option SavedState → Action World ⊤
  force_stop_running root control_dir supervisor service = do
    supervisor_pid ← or_fail supervisor "force_stop_identity_invalid" 129
    leads ← look (is_leader supervisor_pid)
    (if leads
        then force_stop_leader root control_dir supervisor_pid service
        else fail "force_stop_session_invalid" 129)

  unfoldable pub force_stop_locked :
      List ℕ → List ℕ → Option ℕ → Option SavedState → Option ℕ → Action World ⊤
  force_stop_locked root control_dir supervisor service none =
      force_stop_orphan root control_dir service
  force_stop_locked root control_dir supervisor service (some errno) =
      if would_block errno
      then force_stop_running root control_dir supervisor service
      else fail "force_stop_lock" 128

  unfoldable pub run_force_stop : List ℕ → List ℕ → Action World ⊤
  run_force_stop root control_dir = do
    require_root S 125
    validate_control_directory S control_dir
    open_lock_file S control_dir "force_stop_open_lock" 126
    recorded ← look (read_state S control_dir)
    supervisor ← look (valid_supervisor S recorded)
    service ← look (valid_service S recorded)
    locked ← look flock
    force_stop_locked root control_dir supervisor service locked
