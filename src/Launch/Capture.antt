-- ===== src/Launch/Capture.antt =====
-- Recording the namespaces of a new launch. A failure of the call is `none`; what it then leaves in
-- the record is not modelled.
use dawnshell.Prelude.{ℕ, Option, none, some, ◌>>=◌}
use dawnshell.Launch.Namespaces.{
  Namespace, pid_ns, mnt_ns, uts_ns, ipc_ns, cgroup_ns, net_ns, Proc, LauncherState,
  read_proc_namespace_inode, read_optional_proc_namespace_inode,
}

abbrev pub inodes : ℕ → ℕ → ℕ → ℕ → ℕ → ℕ → Namespace → ℕ
inodes pid mnt uts ipc cgroup net pid_ns = pid
inodes pid mnt uts ipc cgroup net mnt_ns = mnt
inodes pid mnt uts ipc cgroup net uts_ns = uts
inodes pid mnt uts ipc cgroup net ipc_ns = ipc
inodes pid mnt uts ipc cgroup net cgroup_ns = cgroup
inodes pid mnt uts ipc cgroup net net_ns = net

unfoldable pub capture_init_namespace_identity : Proc → ℕ → LauncherState → Option LauncherState
capture_init_namespace_identity proc process state = do
  pid ← read_proc_namespace_inode proc process pid_ns
  mnt ← read_proc_namespace_inode proc process mnt_ns
  uts ← read_proc_namespace_inode proc process uts_ns
  ipc ← read_optional_proc_namespace_inode proc process ipc_ns
  cgroup ← read_proc_namespace_inode proc process cgroup_ns
  net ← read_optional_proc_namespace_inode proc process net_ns
  some (record state { init_ns_ino = inodes pid mnt uts ipc cgroup net })

-- A read that fails leaves the 0 that was stored first.
abbrev pub or_zero : Option ℕ → ℕ
or_zero none = 0
or_zero (some inode) = inode

unfoldable pub capture_compat_namespace_identity : Proc → ℕ → LauncherState → Option LauncherState
capture_compat_namespace_identity proc process state = do
  mnt ← read_proc_namespace_inode proc process mnt_ns
  uts ← read_proc_namespace_inode proc process uts_ns
  some (record state {
    init_ns_ino =
        inodes (or_zero (read_proc_namespace_inode proc process pid_ns)) mnt uts
          (or_zero (read_proc_namespace_inode proc process ipc_ns))
          (or_zero (read_proc_namespace_inode proc process cgroup_ns))
          (or_zero (read_proc_namespace_inode proc process net_ns));
  })
