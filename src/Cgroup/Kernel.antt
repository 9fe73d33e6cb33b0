-- ===== src/Cgroup/Kernel.antt =====
-- What the launcher asks of the kernel to set up cgroups, mounts and namespaces. A call that can change
-- something is a `Call`; it gives `none` for success and the `errno` otherwise. A look gives the
-- `errno`, or what was found. Open files are named by their paths.
use dawnshell.Prelude.{ℕ, ◌⊎◌, Option, List}
use dawnshell.Cgroup.Device.{DeviceInsn}
use dawnshell.Sandbox.Bpf.{Insn}

pub data MountFlag : Type 0 where
  ms_rdonly ms_nosuid ms_nodev ms_noexec ms_remount ms_bind ms_rec ms_private ms_slave : MountFlag

-- `CLONE_NEWNS` and so on.
pub data CloneFlag : Type 0 where
  clone_newns clone_newuts clone_newcgroup clone_newpid : CloneFlag

-- `mount` has the source, the target, the type, the flags and the options. `write_value` writes all
-- the bytes to a file that is open, `create_file` creates one of mode 0600 that was not there; `sleep`
-- has milliseconds.
pub data Call : Type 0 where
  mount : Option (List ℕ) → List ℕ → Option (List ℕ) → List MountFlag → Option (List ℕ) → Call
  umount_detach : List ℕ → Call
  mkdir : List ℕ → ℕ → Call
  rmdir : List ℕ → Call
  open_read open_write open_directory create_file : List ℕ → Call
  write_value : List ℕ → List ℕ → Call
  unshare : CloneFlag → Call
  drop_sys_boot : Call
  seccomp_filter prctl_filter : List Insn → Call
  close_range_guard : Call
  bpf_load : List DeviceInsn → Call
  bpf_attach bpf_detach : List ℕ → List DeviceInsn → Call
  sleep : ℕ → Call

pub data FileKind : Type 0 where
  is_directory is_fifo is_character_device is_other : FileKind

-- Of `struct stat`: the kind, the owner and the mode's last nine bits.
pub record FileStat : Type 0 where
  pub kind : FileKind
  pub uid : ℕ
  pub mode : ℕ

-- `read` opens a file and reads as many bytes as are asked for; `readdir` gives all names of a
-- directory. `poll_ready` is the poll on the network manager, repeated while a signal interrupts it,
-- and the byte that is then read: `none` for a failure.
pub record Kernel : Type 1 where
  pub World : Type 0
  pub call : Call → World → World × Option ℕ
  pub lstat : List ℕ → World → World × (ℕ ⊎ FileStat)
  pub stat : List ℕ → World → World × (ℕ ⊎ FileStat)
  pub read : List ℕ → ℕ → World → World × (ℕ ⊎ List ℕ)
  pub readdir : List ℕ → World → World × (ℕ ⊎ List (List ℕ))
  pub getpid : World → ℕ
  pub poll_ready : World → World × Option ℕ

abbrev pub enoent : ℕ
enoent = 2

abbrev pub ebusy : ℕ
ebusy = 16

abbrev pub eexist : ℕ
eexist = 17

abbrev pub einval : ℕ
einval = 22

abbrev pub enametoolong : ℕ
enametoolong = 36

abbrev pub enosys : ℕ
enosys = 38

abbrev pub enotempty : ℕ
enotempty = 39

abbrev pub eloop : ℕ
eloop = 40
