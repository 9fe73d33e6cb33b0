-- ===== src/Stop/Forced.antt =====
-- Whom `run_force_stop` signals.
use Prim.Native.String.{String}
use mathlib.Core.Path.{subst}
use dawnshell.Prelude.{ℕ, Option, none, some, List, ◌==◌}
use dawnshell.Cgroup.Cleaned.{cleanup_delegated_cgroups-Keeps}
use dawnshell.Cgroup.Keeping.{
  IsAny, Keeps, bind-Keeps, then-Keeps, pure-Keeps, fail-Keeps, if-Keeps, or_fail-Keeps,
}
use dawnshell.State.Fields.{SavedState}
use dawnshell.Stop.Confined.{require_root-Keeps}
use dawnshell.Stop.Force.{
  run_force_stop, after_kill_present, kill_service, finish_force_stop, force_stop_orphan,
  after_force_stop, is_leader, force_stop_leader, force_stop_running, force_stop_locked,
}
use dawnshell.Stop.Orderly.{is_zero}
use dawnshell.Stop.Signals.{
  looks, wait_for_lock-keeps, WasRead, HasService, HasTarget, read_state-Keeps, valid_service-Keeps,
  valid_supervisor-Keeps,
}
use dawnshell.Stop.System.{System, sigkill, esrch, would_block}
use dawnshell.Stop.Targets.{
  IsKept, IsTarget, write_state-keeps, signal_compat_service-keeps,
  validate_control_directory-Keeps, open_lock_file-Keeps,
}
use dawnshell.Stop.Terminated.{terminate_delegated_processes-keeps}
use dawnshell.Stop.Wait.{Waited, released, timed_out, out_of_fuel, lock_error, is_compat}

module _ (S : System) (Inv : S.kernel.World → Type 0) (h : IsKept S Inv) where
  open S use {kernel, proc, kill, flock}
  open kernel use {World}

  after_kill_present-Keeps :
      (errno : Option ℕ) (stage : String) (code : ℕ)
      → Keeps Inv IsAny (after_kill_present S errno stage code)
  unfolding after_kill_present
  after_kill_present-Keeps none stage code = pure-Keeps tt tt
  after_kill_present-Keeps (some errno) stage code =
      if-Keeps (errno == esrch) (λ _. pure-Keeps tt tt) (λ _. fail-Keeps stage code)

  kill_service-Keeps :
      (service : Option SavedState) (stage : String) (code : ℕ)
      → HasService S Inv h service
      → Keeps Inv IsAny (kill_service S service stage code)
  unfolding kill_service
  kill_service-Keeps none stage code target = pure-Keeps tt tt
  kill_service-Keeps (some s) stage code target =
      if-Keeps (is_compat S s)
        (λ _.
          looks S Inv h _
            (λ w i. signal_compat_service-keeps S Inv h s.launcher.init_host_pid sigkill w target i)
            (λ w. tt))
        (λ _.
          then-Keeps
            (looks S Inv h _ (λ w i. h.killed s.launcher.init_host_pid sigkill w target i)
              (λ w. tt))
            (λ errno. after_kill_present-Keeps errno stage code))

  finish_force_stop-Keeps :
      (root control_dir : List ℕ) (change : SavedState → SavedState)
      → Keeps Inv IsAny (finish_force_stop S root control_dir change)
  unfolding finish_force_stop
  finish_force_stop-Keeps root control_dir change =
      then-Keeps (looks S Inv h _ (terminate_delegated_processes-keeps S Inv h) (λ w. tt))
        (λ survivors.
          if-Keeps (is_zero survivors)
            (λ _.
              then-Keeps
                (cleanup_delegated_cgroups-Keeps kernel Inv
                  (record {
                    called = h.called;
                    lstat_keeps = h.lstat_keeps;
                    readdir_keeps = h.readdir_keeps;
                  })
                  root control_dir)
                (λ _.
                  looks S Inv h _ (λ w i. write_state-keeps S Inv h control_dir _ w i) (λ w. tt)))
            (λ _. fail-Keeps "force_stop_incomplete" 134))

  force_stop_orphan-Keeps :
      (root control_dir : List ℕ) (service : Option SavedState)
      → HasService S Inv h service
      → Keeps Inv IsAny (force_stop_orphan S root control_dir service)
  unfolding force_stop_orphan
  force_stop_orphan-Keeps root control_dir service target =
      then-Keeps (looks S Inv h _ h.unlock_keeps (λ w. tt)) (λ _.
        then-Keeps (kill_service-Keeps service "force_stop_orphan_init" 127 target)
          (λ _. finish_force_stop-Keeps root control_dir _))

  after_force_stop-Keeps :
      (root control_dir : List ℕ) (supervisor_pid init_pid : ℕ) (waited : Waited)
      → Keeps Inv IsAny (after_force_stop S root control_dir supervisor_pid init_pid waited)
  unfolding after_force_stop
  after_force_stop-Keeps root control_dir p i released = finish_force_stop-Keeps root control_dir _
  after_force_stop-Keeps root control_dir p i timed_out = fail-Keeps "force_stop_timeout" 133
  after_force_stop-Keeps root control_dir p i out_of_fuel = fail-Keeps "out_of_fuel" 0
  after_force_stop-Keeps root control_dir p i (lock_error e) = fail-Keeps "force_stop_wait_lock" 132

  force_stop_leader-Keeps :
      (root control_dir : List ℕ) (supervisor_pid : ℕ) (service : Option SavedState)
      → IsTarget S supervisor_pid
      → HasService S Inv h service
      → Keeps Inv IsAny (force_stop_leader S root control_dir supervisor_pid service)
  unfolding force_stop_leader
  force_stop_leader-Keeps root control_dir pid service verified target =
      then-Keeps (kill_service-Keeps service "force_stop_init" 130 target) (λ _.
        then-Keeps (looks S Inv h _ (λ w i. h.killed_group pid sigkill w verified i) (λ w. tt))
          (λ errno.
            then-Keeps (after_kill_present-Keeps errno "force_stop_supervisor_group" 131) (λ _.
              then-Keeps (looks S Inv h _ (wait_for_lock-keeps S Inv h 101 100 10000) (λ w. tt))
                (after_force_stop-Keeps root control_dir pid _))))

  force_stop_running-Keeps :
      (root control_dir : List ℕ) (supervisor : Option ℕ) (service : Option SavedState)
      → HasTarget S Inv h supervisor
      → HasService S Inv h service
      → Keeps Inv IsAny (force_stop_running S root control_dir supervisor service)
  unfolding force_stop_running
  force_stop_running-Keeps root control_dir supervisor service verified target =
      bind-Keeps (IsTarget S)
        (or_fail-Keeps supervisor "force_stop_identity_invalid" 129
          (λ pid e. subst (HasTarget S Inv h) e verified))
        (λ pid known.
          then-Keeps (looks S Inv h (is_leader S pid) (λ w i. unfold is_leader in i) (λ w. tt))
            (λ leads.
              if-Keeps leads
                (λ _. force_stop_leader-Keeps root control_dir pid service known target)
                (λ _. fail-Keeps "force_stop_session_invalid" 129)))

  force_stop_locked-Keeps :
      (root control_dir : List ℕ) (supervisor : Option ℕ) (service : Option SavedState)
      (errno : Option ℕ)
      → HasTarget S Inv h supervisor
      → HasService S Inv h service
      → Keeps Inv IsAny (force_stop_locked S root control_dir supervisor service errno)
  unfolding force_stop_locked
  force_stop_locked-Keeps root control_dir supervisor service none verified target =
      force_stop_orphan-Keeps root control_dir service target
  force_stop_locked-Keeps root control_dir supervisor service (some errno) verified target =
      if-Keeps (would_block errno)
        (λ _. force_stop_running-Keeps root control_dir supervisor service verified target)
        (λ _. fail-Keeps "force_stop_lock" 128)

  run_force_stop-Keeps :
      (root control_dir : List ℕ) → Keeps Inv IsAny (run_force_stop S root control_dir)
  unfolding run_force_stop
  run_force_stop-Keeps root control_dir = then-Keeps (require_root-Keeps S Inv h 125) (λ _.
      then-Keeps (validate_control_directory-Keeps S Inv h control_dir) (λ _.
        then-Keeps (open_lock_file-Keeps S Inv h control_dir "force_stop_open_lock" 126) (λ _.
          bind-Keeps (WasRead S Inv h) (read_state-Keeps S Inv h control_dir) (λ recorded read.
            bind-Keeps (HasTarget S Inv h) (valid_supervisor-Keeps S Inv h recorded read)
              (λ supervisor verified.
                bind-Keeps (HasService S Inv h) (valid_service-Keeps S Inv h recorded read)
                  (λ service target. then-Keeps (looks S Inv h _ h.flock_keeps (λ w. tt)) (λ locked.
                    force_stop_locked-Keeps root control_dir supervisor service locked verified
                      target)))))))

  -- A forced stop signals nobody else: whatever is kept by all that is no signal, and by signals to
  -- targets and their groups, in the same sense, is kept by `run_force_stop`.
  pub IsKept-run_force_stop :
      (root control_dir : List ℕ) (w : World) → Inv w → Inv (run_force_stop S root control_dir w).0
  IsKept-run_force_stop root control_dir w i = (run_force_stop-Keeps root control_dir).keeps w i
