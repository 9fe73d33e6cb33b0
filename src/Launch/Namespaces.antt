-- ===== src/Launch/Namespaces.antt =====
-- The checks on the namespaces and on the identity of a running launch. What the kernel says of
-- processes is the record `Proc`, the same throughout a check.
use dawnshell.Prelude.{
  ℕ, ◌⊎◌, inl, inr, Bool, true, false, ◌&&◌, ◌||◌, Option, none, some, leb, ◌==◌, ◌!=◌,
  if◌then◌else◌, ◌>>=◌,
}

pub data Namespace : Type 0 where
  pid_ns mnt_ns uts_ns ipc_ns cgroup_ns net_ns : Namespace

-- `stat` on /proc/PID/ns/NAME gives the errno or the inode; the other calls give `none` on failure.
pub record Proc : Type 0 where
  pub stat_namespace : ℕ → Namespace → ℕ ⊎ ℕ
  pub start_ticks : ℕ → Option ℕ
  pub exe_identity : ℕ → Option (ℕ × ℕ)
  pub is_alive : ℕ → Bool

-- The fields of `LauncherState` that the checks read, `init_ns_ino` for each of its six inodes.
pub record LauncherState : Type 0 where
  pub supervisor_pid : ℕ
  pub supervisor_start_ticks : ℕ
  pub supervisor_exe_dev : ℕ
  pub supervisor_exe_ino : ℕ
  pub init_host_pid : ℕ
  pub init_start_ticks : ℕ
  pub init_exe_dev : ℕ
  pub init_exe_ino : ℕ
  pub init_ns_ino : Namespace → ℕ

unfoldable pub inode_of : ℕ ⊎ ℕ → Option ℕ
inode_of (inl errno) = none
inode_of (inr inode) = some inode

-- The error ENOENT, 2, stands for a namespace that the kernel does not have.
unfoldable pub optional_inode_of : ℕ ⊎ ℕ → Option ℕ
optional_inode_of (inl errno) = if errno == 2 then some 0 else none
optional_inode_of (inr inode) = some inode

abbrev pub read_proc_namespace_inode : Proc → ℕ → Namespace → Option ℕ
read_proc_namespace_inode proc pid name = inode_of (proc.stat_namespace pid name)

abbrev pub read_optional_proc_namespace_inode : Proc → ℕ → Namespace → Option ℕ
read_optional_proc_namespace_inode proc pid name = optional_inode_of (proc.stat_namespace pid name)

-- `call == 0 && value == expected`.
unfoldable pub reads : Option ℕ → ℕ → Bool
reads none expected = false
reads (some value) expected = value == expected

unfoldable pub reads_identity : Option (ℕ × ℕ) → ℕ → ℕ → Bool
reads_identity none device inode = false
reads_identity (some (d, i)) device inode = d == device && i == inode

unfoldable pub validate_supervisor_identity : Proc → LauncherState → Bool
validate_supervisor_identity proc state =
    if leb state.supervisor_pid 1
      || (state.supervisor_start_ticks == 0 || state.supervisor_exe_ino == 0)
    then false
    else reads (proc.start_ticks state.supervisor_pid) state.supervisor_start_ticks
      && (reads_identity (proc.exe_identity state.supervisor_pid) state.supervisor_exe_dev
            state.supervisor_exe_ino
          && proc.is_alive state.supervisor_pid)

unfoldable pub validate_compat_service_identity : Proc → LauncherState → Bool
validate_compat_service_identity proc state =
    if leb state.init_host_pid 1 || (state.init_start_ticks == 0 || state.init_exe_ino == 0)
    then false
    else reads (proc.start_ticks state.init_host_pid) state.init_start_ticks
      && (reads_identity (proc.exe_identity state.init_host_pid) state.init_exe_dev
            state.init_exe_ino
          && proc.is_alive state.init_host_pid)

unfoldable pub reads_namespace : Proc → LauncherState → Namespace → Bool
reads_namespace proc state name =
    reads (read_proc_namespace_inode proc state.init_host_pid name) (state.init_ns_ino name)

-- A namespace that was not recorded is not read.
unfoldable pub reads_recorded : Proc → LauncherState → Namespace → Bool
reads_recorded proc state name = state.init_ns_ino name == 0 || reads_namespace proc state name

unfoldable pub validate_init_identity : Proc → LauncherState → Bool
validate_init_identity proc state =
    if leb state.init_host_pid 1
      || (state.init_start_ticks == 0
          || (state.init_exe_ino == 0
              || (state.init_ns_ino pid_ns == 0
                  || (state.init_ns_ino mnt_ns == 0
                      || (state.init_ns_ino uts_ns == 0 || state.init_ns_ino cgroup_ns == 0)))))
    then false
    else reads (proc.start_ticks state.init_host_pid) state.init_start_ticks
      && (reads_identity (proc.exe_identity state.init_host_pid) state.init_exe_dev
            state.init_exe_ino
          && (reads_namespace proc state pid_ns
              && (reads_namespace proc state mnt_ns
                  && (reads_namespace proc state uts_ns
                      && (reads_recorded proc state ipc_ns
                          && (reads_namespace proc state cgroup_ns
                              && (reads_recorded proc state net_ns
                                  && proc.is_alive state.init_host_pid)))))))

-- `true` for 0 and `false` for -1 with EXDEV, or with the error of a read.
unfoldable pub validate_init_namespace_topology : Proc → LauncherState → Bool
validate_init_namespace_topology proc state = is_some (do
  host_pid ← read_proc_namespace_inode proc 1 pid_ns
  host_mnt ← read_proc_namespace_inode proc 1 mnt_ns
  host_uts ← read_proc_namespace_inode proc 1 uts_ns
  host_ipc ← read_optional_proc_namespace_inode proc 1 ipc_ns
  host_cgroup ← read_proc_namespace_inode proc 1 cgroup_ns
  host_net ← read_optional_proc_namespace_inode proc 1 net_ns
  (if state.init_ns_ino pid_ns == host_pid
        || (state.init_ns_ino mnt_ns == host_mnt
            || (state.init_ns_ino uts_ns == host_uts
                || (state.init_ns_ino cgroup_ns == host_cgroup
                    || (host_ipc != 0 && state.init_ns_ino ipc_ns != host_ipc
                        || host_net != 0 && state.init_ns_ino net_ns != host_net))))
      then none
      else some 0))
  where
    is_some : Option ℕ → Bool
    is_some none = false
    is_some (some _) = true

-- The body of the loop over the shared namespaces.
unfoldable pub is_shared : Proc → LauncherState → Namespace → Bool
is_shared proc state name =
    if state.init_ns_ino name == 0
    then true
    else reads_namespace proc state name
      && reads (read_proc_namespace_inode proc 1 name) (state.init_ns_ino name)

unfoldable pub is_private : Proc → LauncherState → Namespace → Bool
is_private proc state name =
    state.init_ns_ino name != 0
    && (reads_namespace proc state name
        && differs (read_proc_namespace_inode proc 1 name) (state.init_ns_ino name))
  where
    differs : Option ℕ → ℕ → Bool
    differs none service = false
    differs (some host) service = service != host

unfoldable pub validate_compat_namespace_topology : Proc → LauncherState → Bool
validate_compat_namespace_topology proc state =
    is_private proc state mnt_ns
    && (is_private proc state uts_ns
        && (is_shared proc state pid_ns
            && (is_shared proc state ipc_ns
                && (is_shared proc state cgroup_ns && is_shared proc state net_ns))))
