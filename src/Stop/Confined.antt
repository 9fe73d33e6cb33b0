-- ===== src/Stop/Confined.antt =====
-- `run_stop` signals nobody but the recorded supervisor or service.
use Prim.Native.String.{String}
use mathlib.Core.Path.{subst}
use dawnshell.Prelude.{ℕ, inl, inr, Option, none, some, List, Bool-cases}
use dawnshell.Cgroup.Keeping.{
  IsAny, Keeps, bind-Keeps, then-Keeps, pure-Keeps, fail-Keeps, if-Keeps, or_fail-Keeps,
}
use dawnshell.Cgroup.Launch.{compatibility}
use dawnshell.State.Fields.{SavedState}
use dawnshell.Stop.Orderly.{
  run_stop, sig_halt, is_zero, require_root, after_kill, halt_service, kill_survivor,
  wait_for_service, after_service, stop_service, stop_orphan, after_stop, stop_supervisor,
  stop_locked,
}
use dawnshell.Stop.Signals.{
  looks, wait_until-keeps, wait_for_lock-keeps, WasRead, HasService, HasTarget, read_state-Keeps,
  valid_service-Keeps, valid_supervisor-Keeps,
}
use dawnshell.Stop.System.{System, sigkill, sigterm, would_block}
use dawnshell.Stop.Targets.{
  IsKept, IsTarget, signal_compat_service-keeps, validate_control_directory-Keeps,
  open_lock_file-Keeps,
}
use dawnshell.Stop.Wait.{
  Waited, released, timed_out, out_of_fuel, lock_error, is_compat, validate_service, try_gone,
}

module _ (S : System) (Inv : S.kernel.World → Type 0) (h : IsKept S Inv) where
  open S use {kernel, proc, kill}
  open kernel use {World}

  pub require_root-Keeps : (code : ℕ) → Keeps Inv IsAny (require_root S code)
  unfolding require_root
  require_root-Keeps code =
      then-Keeps (looks S Inv h _ (λ w i. i) (λ w. tt))
        (λ uid. if-Keeps (is_zero uid) (λ _. pure-Keeps tt tt) (λ _. fail-Keeps "not_root" code))

  after_kill-Keeps :
      (errno : Option ℕ) (stage : String) (code : ℕ)
      → Keeps Inv IsAny (after_kill S errno stage code)
  unfolding after_kill
  after_kill-Keeps none stage code = pure-Keeps tt tt
  after_kill-Keeps (some errno) stage code = fail-Keeps stage code

  module _ (s : SavedState) (target : IsTarget S s.launcher.init_host_pid) where
    halt_service-Keeps : Keeps Inv IsAny (halt_service S s)
    unfolding halt_service
    halt_service-Keeps =
        if-Keeps (is_compat S s)
          (λ _.
            looks S Inv h _
              (λ w i.
                signal_compat_service-keeps S Inv h s.launcher.init_host_pid sigterm w target i)
              (λ w. tt))
          (λ _.
            then-Keeps
              (looks S Inv h _ (λ w i. h.killed s.launcher.init_host_pid sig_halt w target i)
                (λ w. tt))
              (λ errno. after_kill-Keeps errno "signal_orphaned_init" 95))

    kill_survivor-keeps : (w : World) → Inv w → Inv (kill_survivor S s w)
    unfolding kill_survivor
    kill_survivor-keeps w i = elim (Bool-cases (validate_service S s (proc w))) [
      | inr gone ↦ rw gone i
      | inl alive ↦ elim (Bool-cases (is_compat S s)) [
        | inl compatibility ↦ rw alive (
            rw compatibility
              (signal_compat_service-keeps S Inv h s.launcher.init_host_pid sigkill w target i))
        | inr native ↦ rw alive (rw native (h.killed s.launcher.init_host_pid sigkill w target i))
      ]
    ]

    after_service-Keeps : (waited : Waited) → Keeps Inv IsAny (after_service S s waited)
    unfolding after_service
    after_service-Keeps released = pure-Keeps tt tt
    after_service-Keeps timed_out =
        then-Keeps (looks S Inv h _ (λ w i. kill_survivor-keeps w i) (λ w. tt))
          (λ killed. fail-Keeps "orphaned_init_stop_timeout" 95)
    after_service-Keeps out_of_fuel = fail-Keeps "out_of_fuel" 0
    after_service-Keeps (lock_error errno) = fail-Keeps "out_of_fuel" 0

    wait_for_service-keeps : (w : World) → Inv w → Inv (wait_for_service S s w).0
    unfolding wait_for_service
    wait_for_service-keeps w i =
        wait_until-keeps S Inv h (try_gone S s) (λ w' j. unfold try_gone in j) 101 200 _ _
          (h.clock_keeps w i)

  stop_service-Keeps :
      (service : Option SavedState)
      → HasService S Inv h service
      → Keeps Inv IsAny (stop_service S service)
  unfolding stop_service
  stop_service-Keeps none target = pure-Keeps tt tt
  stop_service-Keeps (some s) target = then-Keeps (halt_service-Keeps s target) (λ _.
      then-Keeps (looks S Inv h _ (wait_for_service-keeps s target) (λ w. tt))
        (after_service-Keeps s target))

  stop_orphan-Keeps : (control_dir : List ℕ) → Keeps Inv IsAny (stop_orphan S control_dir)
  unfolding stop_orphan
  stop_orphan-Keeps control_dir =
      bind-Keeps (WasRead S Inv h) (read_state-Keeps S Inv h control_dir) (λ recorded read.
        bind-Keeps (HasService S Inv h) (valid_service-Keeps S Inv h recorded read)
          (λ orphan target.
            then-Keeps (looks S Inv h _ h.unlock_keeps (λ w. tt))
              (λ _. stop_service-Keeps orphan target)))

  after_stop-Keeps : (waited : Waited) → Keeps Inv IsAny (after_stop S waited)
  unfolding after_stop
  after_stop-Keeps released = pure-Keeps tt tt
  after_stop-Keeps timed_out = fail-Keeps "stop_timeout" 99
  after_stop-Keeps out_of_fuel = fail-Keeps "out_of_fuel" 0
  after_stop-Keeps (lock_error errno) = fail-Keeps "wait_stop_lock" 98

  stop_supervisor-Keeps : (control_dir : List ℕ) → Keeps Inv IsAny (stop_supervisor S control_dir)
  unfolding stop_supervisor
  stop_supervisor-Keeps control_dir =
      bind-Keeps (WasRead S Inv h) (read_state-Keeps S Inv h control_dir) (λ recorded read.
        bind-Keeps (HasTarget S Inv h) (valid_supervisor-Keeps S Inv h recorded read)
          (λ supervisor target.
            bind-Keeps (IsTarget S)
              (or_fail-Keeps supervisor "stop_identity_invalid" 96
                (λ pid e. subst (HasTarget S Inv h) e target))
              (λ pid verified.
                then-Keeps (looks S Inv h _ (λ w i. h.killed pid sigterm w verified i) (λ w. tt))
                  (λ errno. then-Keeps (after_kill-Keeps errno "signal_supervisor" 97) (λ _.
                    then-Keeps
                      (looks S Inv h _ (wait_for_lock-keeps S Inv h 151 200 30000) (λ w. tt))
                      after_stop-Keeps)))))

  stop_locked-Keeps :
      (control_dir : List ℕ) (errno : Option ℕ) → Keeps Inv IsAny (stop_locked S control_dir errno)
  unfolding stop_locked
  stop_locked-Keeps control_dir none = stop_orphan-Keeps control_dir
  stop_locked-Keeps control_dir (some errno) =
      if-Keeps (would_block errno) (λ _. stop_supervisor-Keeps control_dir)
        (λ _. fail-Keeps "lock_stop" 95)

  run_stop-Keeps : (control_dir : List ℕ) → Keeps Inv IsAny (run_stop S control_dir)
  unfolding run_stop
  run_stop-Keeps control_dir = then-Keeps (require_root-Keeps 93) (λ _.
      then-Keeps (validate_control_directory-Keeps S Inv h control_dir) (λ _.
        then-Keeps (open_lock_file-Keeps S Inv h control_dir "open_lock" 94) (λ _.
          then-Keeps (looks S Inv h _ h.flock_keeps (λ w. tt)) (stop_locked-Keeps control_dir))))

  -- Stopping signals nobody else: whatever is kept by all that is no signal, and by signals to targets
  -- and their groups (a supervisor or service that was read from the state file and whose identity was
  -- checked, or a process that was found in the delegated cgroup), is kept by `run_stop`.
  pub IsKept-run_stop :
      (control_dir : List ℕ) (w : World) → Inv w → Inv (run_stop S control_dir w).0
  IsKept-run_stop control_dir w i = (run_stop-Keeps control_dir).keeps w i
