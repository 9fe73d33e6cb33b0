-- ===== src/Launch/Boundaries.antt =====
-- What a launch that passes the checks is.
use dawnshell.Prelude.{
  ℕ, ◌<◌, ◌≡◌, refl, ap, ◌≢◌, inl, inr, Bool, true, false, ◌&&◌, ◌||◌, Option, none, some, arith,
  leb, ◌==◌, if◌then◌else◌, if-cases,
}
use dawnshell.Launch.Namespaces.{
  Namespace, pid_ns, mnt_ns, uts_ns, ipc_ns, cgroup_ns, net_ns, Proc, LauncherState, inode_of,
  read_proc_namespace_inode, reads, reads_identity, validate_supervisor_identity,
  validate_compat_service_identity, reads_namespace, is_shared, is_private,
  validate_compat_namespace_topology,
}

-- The process with the recorded number is the recorded one: same start, same executable, alive.
pub record IsProcess (proc : Proc) (pid ticks device inode : ℕ) : Type 0 where
  pub not_init : 1 < pid
  pub ticks_lem : proc.start_ticks pid ≡ some ticks
  pub identity : proc.exe_identity pid ≡ some (device, inode)
  pub alive : proc.is_alive pid ≡ true

reads-eq : (value : Option ℕ) (expected : ℕ) → reads value expected ≡ true → value ≡ some expected
unfolding reads
reads-eq none expected e = cc
reads-eq (some value) expected e = ap some (ground arith)

reads_identity-eq :
    (value : Option (ℕ × ℕ)) (device inode : ℕ)
    → reads_identity value device inode ≡ true
    → value ≡ some (device, inode)
unfolding reads_identity
reads_identity-eq none device inode e = cc
reads_identity-eq (some (d, i)) device inode e =
    let p : d ≡ device = ground arith in let q : i ≡ inode = ground arith in rw p (rw q refl)

and-cases : (a b : Bool) → (a && b) ≡ true → (a ≡ true) × (b ≡ true)
and-cases true b e = (refl, e)
and-cases false b e = cc

if_false : (t y : Bool) → (if t then false else y) ≡ true → (t ≡ false) × (y ≡ true)
if_false true y e = cc
if_false false y e = (refl, e)

reads-IsProcess :
    (proc : Proc) (pid ticks device inode : ℕ)
    → (if leb pid 1 || (ticks == 0 || inode == 0)
        then false
        else reads (proc.start_ticks pid) ticks
          && (reads_identity (proc.exe_identity pid) device inode && proc.is_alive pid))
      ≡ true
    → IsProcess proc pid ticks device inode
reads-IsProcess proc pid ticks device inode e =
    let (l, e1) = if_false (leb pid 1 || (ticks == 0 || inode == 0)) _ e in
    let (t, e2) = and-cases (reads (proc.start_ticks pid) ticks) _ e1 in
    let (i, a) = and-cases (reads_identity (proc.exe_identity pid) device inode) _ e2 in
    record {
      not_init = ground arith;
      ticks_lem = reads-eq _ ticks t;
      identity = reads_identity-eq _ device inode i;
      alive = a;
    }

-- Where both checks of a compatibility launch pass, its supervisor and its service are the recorded
-- processes: numbers above 1, with the same start time and executable, alive.
pub validate-IsProcess :
    (proc : Proc) (state : LauncherState)
    → validate_supervisor_identity proc state ≡ true
    → validate_compat_service_identity proc state ≡ true
    → IsProcess proc state.supervisor_pid state.supervisor_start_ticks state.supervisor_exe_dev
        state.supervisor_exe_ino
      × IsProcess proc state.init_host_pid state.init_start_ticks state.init_exe_dev
          state.init_exe_ino
unfolding validate_supervisor_identity validate_compat_service_identity
validate-IsProcess proc state supervisor service =
    (reads-IsProcess proc _ _ _ _ supervisor, reads-IsProcess proc _ _ _ _ service)

-- The namespace is read for the service as it was recorded, and for process 1.
pub record IsKnown (proc : Proc) (state : LauncherState) (name : Namespace) (host : ℕ)
    : Type 0 where
  pub service :
      read_proc_namespace_inode proc state.init_host_pid name ≡ some (state.init_ns_ino name)
  pub android : read_proc_namespace_inode proc 1 name ≡ some host

is_shared-IsKnown :
    (proc : Proc) (state : LauncherState) (name : Namespace)
    → is_shared proc state name ≡ true
    → state.init_ns_ino name ≢ 0
    → IsKnown proc state name (state.init_ns_ino name)
unfolding is_shared reads_namespace
is_shared-IsKnown proc state name e ne =
    elim (if-cases (state.init_ns_ino name == 0) true _ true e) [
      | inl (z, _) ↦ absurd (ne (ground arith))
      | inr (_, e') ↦
          let (a, b) =
            and-cases (reads (inode_of (proc.stat_namespace state.init_host_pid name)) _) _ e' in
          record { service = reads-eq _ _ a; android = reads-eq _ _ b }
    ]

-- Where the check of a compatibility launch passes, each namespace of process IDs, IPC, cgroups and
-- network that was recorded is that of Android.
pub validate_compat_namespace_topology-IsKnown :
    (proc : Proc) (state : LauncherState)
    → validate_compat_namespace_topology proc state ≡ true
    → (name : Namespace) → name ≢ mnt_ns
    → name ≢ uts_ns
    → state.init_ns_ino name ≢ 0
    → IsKnown proc state name (state.init_ns_ino name)
unfolding validate_compat_namespace_topology
validate_compat_namespace_topology-IsKnown proc state e name m u ne =
    let (_, e1) = and-cases (is_private proc state mnt_ns) _ e in
    let (_, e2) = and-cases (is_private proc state uts_ns) _ e1 in
    let (p, e3) = and-cases (is_shared proc state pid_ns) _ e2 in
    let (i, e4) = and-cases (is_shared proc state ipc_ns) _ e3 in
    let (c, n) = and-cases (is_shared proc state cgroup_ns) _ e4 in
    is_shared-IsKnown proc state name
      (elim name as (λ x. x ≢ mnt_ns → x ≢ uts_ns → is_shared proc state x ≡ true) [
        | pid_ns ↦ λ _ _. p
        | mnt_ns ↦ λ m _. absurd (m refl)
        | uts_ns ↦ λ _ u. absurd (u refl)
        | ipc_ns ↦ λ _ _. i
        | cgroup_ns ↦ λ _ _. c
        | net_ns ↦ λ _ _. n
      ]
        m u)
      ne
