-- ===== src/Tests/Stop.antt =====
-- Stops on two small systems. The world of the first is the list of the processes that were signalled;
-- the lock is free once there is one. That of the second is a clock, with a lock that becomes free.
use dawnshell.Prelude.{
  ℕ, ◌+◌, ◌≡◌, refl, sym, ◌∙◌, ◌≢◌, ◌↔◌, ◌⊎◌, inl, inr, true, false, none, some, List, [], ◌∷◌,
  ◌++◌, arith, leb, ◌==◌, if◌then◌else◌, Bool-cases, codes, length, pos,
}
use dawnshell.Cgroup.Controllers.{tokens_from}
use dawnshell.Cgroup.Kernel.{sleep, is_directory, FileStat}
use dawnshell.Cgroup.Paths.{joined_path, cgroup_child_name}
use dawnshell.Cgroup.Run.{◌>>=◌, done, ⊤, pure, or_fail, continue, look}
use dawnshell.Launch.Namespaces.{
  Proc, LauncherState, validate_supervisor_identity, validate_compat_service_identity,
  validate_init_identity,
}
use dawnshell.State.Fields.{SavedState}
use dawnshell.Stop.Confined.{IsKept-run_stop}
use dawnshell.Stop.Delegated.{
  strip_prefix, cgroup_path_is_delegated, after_colon, line_is_delegated, any_delegated,
  contents_delegated, process_in_delegated_cgroup,
}
use dawnshell.Stop.Ends.{round}
use dawnshell.Stop.Force.{run_force_stop}
use dawnshell.Stop.Forced.{IsKept-run_force_stop}
use dawnshell.Stop.Names.{cgroup_path_is_delegated_iff}
use dawnshell.Stop.Orderly.{run_stop}
use dawnshell.Stop.Released.{IsClock, IsFreed, wait_for_supervisor_exit-done}
use dawnshell.Stop.System.{System, check_lock_file, open_lock_file}
use dawnshell.Stop.Targets.{IsKept, IsTarget, recorded_supervisor, recorded_service, delegated}
use dawnshell.Stop.Wait.{locked, try_lock, is_compat, validate_service, wait_for_supervisor_exit}

abbrev control : List ℕ
control = codes "/data/adb/dawnshell"

abbrev contents : List ℕ
contents =
    codes
      "supervisor_pid=100\nsupervisor_start_ticks=5\nsupervisor_exe_dev=1\nsupervisor_exe_ino=2\n"

abbrev private_directory : FileStat
private_directory = record { kind = is_directory; uid = 0; mode = 448 }

abbrev running : Proc
running = record {
  stat_namespace = λ pid name. inl 2;
  start_ticks = λ pid. some 5;
  exe_identity = λ pid. some (1, 2);
  is_alive = λ pid. true;
}

abbrev listing : System
listing = record {
  kernel = record {
    World = List ℕ;
    call = λ c w. (w, none);
    lstat = λ path w. (w, inr private_directory);
    stat = λ path w. (w, inr private_directory);
    read = λ path n w. (w, inr contents);
    readdir = λ path w. (w, inr (codes "1" ∷ codes "100" ∷ []));
    getpid = λ w. 7;
    poll_ready = λ w. (w, none);
  };
  geteuid = λ w. 0;
  proc = λ w. running;
  kill = λ pid signal w. (pid ∷ w, none);
  kill_group = λ pid signal w. (pid ∷ w, none);
  getsid = λ pid w. some pid;
  getpgid = λ pid w. some pid;
  open_lock = λ path w. (w, some (true, 1));
  flock = λ w. (w, if length w == 0 then some 11 else none);
  unlock = λ w. w;
  monotonic_millis = λ w. (w, 0);
  realtime_seconds = λ w. pos 0;
  file_call = λ c w. (w, none);
}

-- Nobody has signalled process 1.
abbrev NotInit : List ℕ → Type 0
NotInit [] = ⊤
NotInit (pid ∷ pids) = (pid ≢ 1) × NotInit pids

no_delegated : contents_delegated contents ≡ false
unfolding contents_delegated any_delegated line_is_delegated after_colon tokens_from
    cgroup_path_is_delegated
no_delegated = refl

validate_supervisor-ne :
    (s : LauncherState) → validate_supervisor_identity running s ≡ true → s.supervisor_pid ≢ 1
unfolding validate_supervisor_identity
validate_supervisor-ne s h e = let h' = rw (e, validate_supervisor_identity) at h in cc

validate_compat-ne :
    (s : LauncherState) → validate_compat_service_identity running s ≡ true → s.init_host_pid ≢ 1
unfolding validate_compat_service_identity
validate_compat-ne s h e = let h' = rw (e, validate_compat_service_identity) at h in cc

validate_init-ne :
    (s : LauncherState) → validate_init_identity running s ≡ true → s.init_host_pid ≢ 1
unfolding validate_init_identity
validate_init-ne s h e = let h' = rw (e, validate_init_identity) at h in cc

validate_service-ne :
    (s : SavedState) → validate_service listing s running ≡ true → s.launcher.init_host_pid ≢ 1
unfolding validate_service
validate_service-ne s h = elim (Bool-cases (is_compat listing s)) [
  | inl compat_mode ↦
      let h' = rw (compat_mode, validate_service) at h in validate_compat-ne s.launcher h'
  | inr native ↦ let h' = rw (native, validate_service) at h in validate_init-ne s.launcher h'
]

target-ne : (pid : ℕ) → IsTarget listing pid → pid ≢ 1
unfolding process_in_delegated_cgroup
target-ne _ (recorded_supervisor s dir before after read valid) =
    validate_supervisor-ne s.launcher valid
target-ne _ (recorded_service s dir before after read valid) = validate_service-ne s valid
target-ne _ (delegated pid before inside other) = let bad = sym no_delegated ∙ inside in cc

listing-IsKept : IsKept listing NotInit
listing-IsKept = record {
  killed = λ pid signal w target i. (target-ne pid target, i);
  killed_group = λ pid signal w target i. (target-ne pid target, i);
  called = λ c w i. i;
  lstat_keeps = λ path w i. i;
  read_keeps = λ path n w i. i;
  readdir_keeps = λ path w i. i;
  open_lock_keeps = λ path w i. i;
  flock_keeps = λ w i. i;
  unlock_keeps = λ w i. i;
  clock_keeps = λ w i. i;
  file_keeps = λ c w i. i;
}

IsKept-run_stop_example : NotInit (run_stop listing control []).0
IsKept-run_stop_example = IsKept-run_stop listing NotInit listing-IsKept control [] tt

IsKept-run_force_stop_example : NotInit (run_force_stop listing (codes "/r") control []).0
IsKept-run_force_stop_example =
    IsKept-run_force_stop listing NotInit listing-IsKept (codes "/r") control [] tt

-- The clock, with a lock that is free from its second second on.
abbrev ticking : System
ticking = record {
  kernel = record {
    World = ℕ;
    call = λ c w. elim c [ sleep ms ↦ (w + ms, none) | _ ↦ (w, none) ];
    lstat = λ path w. (w, inr private_directory);
    stat = λ path w. (w, inr private_directory);
    read = λ path n w. (w, inl 2);
    readdir = λ path w. (w, inl 2);
    getpid = λ w. 7;
    poll_ready = λ w. (w, none);
  };
  geteuid = λ w. 0;
  proc = λ w. running;
  kill = λ pid signal w. (w, none);
  kill_group = λ pid signal w. (w, none);
  getsid = λ pid w. none;
  getpgid = λ pid w. none;
  open_lock = λ path w. (w, some (true, 1));
  flock = λ w. (w, if leb 1000 w then none else some 11);
  unlock = λ w. w;
  monotonic_millis = λ w. (w, w);
  realtime_seconds = λ w. pos 0;
  file_call = λ c w. (w, none);
}

round_lem : (w : ℕ) → round ticking (try_lock ticking) 200 w ≡ w + 200
unfolding try_lock locked
round_lem w = elim (Bool-cases (leb 1000 w)) [
  | inl free ↦ rw (free, try_lock, locked) refl
  | inr held ↦ rw (held, try_lock, locked) refl
]

ticking-IsClock : IsClock ticking 200 200
ticking-IsClock = record {
  reads = λ w. omega arith;
  reads_soon = λ w. omega arith;
  sleeps = λ w. rw (round_lem w) (omega arith);
  wakes = λ w. rw (round_lem w) (omega arith);
}

ticking-IsFreed : IsFreed ticking 1000
ticking-IsFreed = record { passes = λ w free. ground arith; blocks = λ w errno e. ground arith }

opens : open_lock_file ticking control "shutdown_test_open_lock" 109 300 ≡ (300, done tt)
unfolding open_lock_file joined_path or_fail check_lock_file look pure ◌>>=◌ continue
opens = refl

wait_for_supervisor_exit-done_example : (wait_for_supervisor_exit ticking control 300).1 ≡ done tt
wait_for_supervisor_exit-done_example =
    wait_for_supervisor_exit-done ticking 200 1000 ticking-IsClock ticking-IsFreed control 300 300
      opens (omega arith) (omega arith)

cgroup_path_is_delegated_iff_example :
    (cgroup_path_is_delegated (codes "/dawnshell/payload") ≡ true) ↔ (
      (codes "/dawnshell/payload" ≡ 47 ∷ cgroup_child_name)
      ⊎ ((tail : List ℕ) × (codes "/dawnshell/payload" ≡ 47 ∷ (cgroup_child_name ++ 47 ∷ tail))))
cgroup_path_is_delegated_iff_example = cgroup_path_is_delegated_iff (codes "/dawnshell/payload")

-- A process that shares only the beginning of the name is not touched.
not_delegated : line_is_delegated (codes "0::/dawnshell-other") ≡ false
unfolding line_is_delegated after_colon cgroup_path_is_delegated strip_prefix
not_delegated = refl
