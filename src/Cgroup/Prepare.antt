-- ===== src/Cgroup/Prepare.antt =====
-- Mounting the cgroup hierarchies. The bpf system call is taken to be known to the headers. A list of
-- controllers that cannot be read is reported as one that cannot be opened, with the same code, and
-- `log_file_snapshot`, a line of the log, is left out.
use dawnshell.Prelude.{
  ℕ, inl, inr, Bool, false, Option, none, some, List, [], ◌∷◌, if◌then◌else◌, codes,
}
use dawnshell.Cgroup.Controllers.{is_separator, tokens, enable_operation, devices_available}
use dawnshell.Cgroup.Device.{probe_program, deny_program}
use dawnshell.Cgroup.Directory.{ensure_directory_path}
use dawnshell.Cgroup.Kernel.{
  MountFlag, ms_nosuid, ms_nodev, ms_noexec, mount, mkdir, rmdir, open_read, open_write,
  open_directory, write_value, bpf_load, bpf_attach, bpf_detach, Kernel,
}
use dawnshell.Cgroup.Paths.{
  joined_path, systemd_cgroup_mount_name, devices_cgroup_mount_name, cgroup_probe_name,
  delegated_cgroup_paths, unified_cgroup_paths,
}
use dawnshell.Cgroup.Run.{◌>>=◌, ⊤, Action, pure, fail, or_fail, ◌>>◌, look, attempt, require}
use dawnshell.Launch.Options.{HostUsbPolicy, off}

abbrev pub no_suid_dev_exec : List MountFlag
no_suid_dev_exec = ms_nosuid ∷ ms_nodev ∷ ms_noexec ∷ []

abbrev pub deny_value : List ℕ
deny_value = codes "c 189:* rwm\n"

abbrev pub is_off : HostUsbPolicy → Bool
is_off off = Bool.true
is_off _ = false

module _ (K : Kernel) where
  open K use {World, read}

  unfoldable pub write_cgroup_value : List ℕ → List ℕ → Action World (Option ℕ)
  write_cgroup_value path value = attempt K (open_write path) >>= λ opened. elim opened [
    | none ↦ attempt K (write_value path value)
    | some errno ↦ pure (some errno)
  ]

  -- The loop over the tokens; a controller that cannot be enabled is passed over.
  unfoldable pub enable_controllers : List ℕ → List (List ℕ) → Action World ⊤
  enable_controllers subtree_path [] = pure tt
  enable_controllers subtree_path (name ∷ names) = elim (enable_operation name) [
    | none ↦ enable_controllers subtree_path names
    | some operation ↦
        write_cgroup_value subtree_path operation >>= λ errno. enable_controllers subtree_path names
  ]

  unfoldable pub enable_available_v2_controllers : List ℕ → Action World ⊤
  enable_available_v2_controllers child_path = do
    controllers_path ←
        or_fail (joined_path child_path (codes "cgroup.controllers")) "cgroup_v2_controller_path"
          113
    subtree_path ←
        or_fail (joined_path child_path (codes "cgroup.subtree_control"))
          "cgroup_v2_controller_path" 113
    contents ← look (read controllers_path 4095)
    elim contents [
      | inl errno ↦ fail "cgroup_v2_controllers_open" 113
      | inr bytes ↦ enable_controllers subtree_path (tokens is_separator bytes)
    ]

  -- `rmdir` before a failure; what it gives is passed over.
  unfoldable pub require_probe : List ℕ → Option ℕ → Action World ⊤ → Action World ⊤
  require_probe probe_path none failure = pure tt
  require_probe probe_path (some errno) failure =
      attempt K (rmdir probe_path) >>= λ removed. failure

  unfoldable pub probe_cgroup_device_bpf : List ℕ → Action World ⊤
  probe_cgroup_device_bpf child_path = do
    probe_path ←
        or_fail (joined_path child_path cgroup_probe_name) "cgroup_v2_device_probe_path" 114
    require K (mkdir probe_path 493) "cgroup_v2_device_probe_mkdir" 114
    loaded ← attempt K (bpf_load probe_program)
    require_probe probe_path loaded (fail "cgroup_v2_device_bpf_load" 114)
    opened ← attempt K (open_directory probe_path)
    require_probe probe_path opened (fail "cgroup_v2_device_probe_open" 114)
    attached ← attempt K (bpf_attach probe_path probe_program)
    require_probe probe_path attached (fail "cgroup_v2_device_bpf_attach" 114)
    detached ← attempt K (bpf_detach probe_path probe_program)
    require K (rmdir probe_path) "cgroup_v2_device_probe_rmdir" 114

  unfoldable pub deny_usb_v2 : List ℕ → Action World ⊤
  deny_usb_v2 payload_path = do
    require K (bpf_load deny_program) "host_usb_v2_bpf_load" 118
    require K (open_directory payload_path) "host_usb_v2_cgroup_open" 118
    require K (bpf_attach payload_path deny_program) "host_usb_v2_bpf_attach" 118

  unfoldable pub apply_host_usb_v2_policy : List ℕ → HostUsbPolicy → Action World ⊤
  apply_host_usb_v2_policy payload_path policy =
      if is_off policy then deny_usb_v2 payload_path else pure tt

  unfoldable pub prepare_unified_cgroup_mount : List ℕ → HostUsbPolicy → Action World ⊤
  prepare_unified_cgroup_mount control_dir policy = do
    (mount_path, child_path, payload_path) ←
        or_fail (unified_cgroup_paths control_dir) "cgroup_v2_path" 110
    ensure_directory_path K mount_path 448 "cgroup_v2_mount_dir"
    require K
        (mount (some (codes "dawnshell-unified")) mount_path (some (codes "cgroup2"))
          no_suid_dev_exec none)
        "cgroup_v2_mount" 111
    ensure_directory_path K child_path 493 "cgroup_v2_child_dir"
    enable_available_v2_controllers child_path
    probe_cgroup_device_bpf child_path
    ensure_directory_path K payload_path 493 "cgroup_v2_payload_dir"
    apply_host_usb_v2_policy payload_path policy

  unfoldable pub prepare_systemd_cgroup_mount : List ℕ → Action World ⊤
  prepare_systemd_cgroup_mount control_dir = do
    (mount_path, child_path) ←
        or_fail (delegated_cgroup_paths control_dir systemd_cgroup_mount_name) "cgroup_path" 45
    ensure_directory_path K mount_path 448 "cgroup_mount_dir"
    require K
        (mount (some (codes "dawnshell")) mount_path (some (codes "cgroup")) no_suid_dev_exec
          (some (codes "none,name=systemd")))
        "cgroup_v1_name_systemd_mount" 46
    ensure_directory_path K child_path 493 "cgroup_child_dir"

  unfoldable pub devices_controller_available : Action World Bool
  devices_controller_available = look (read (codes "/proc/cgroups") 4095) >>= λ contents.
      elim contents [ inl errno ↦ pure false | inr bytes ↦ pure (devices_available bytes) ]

  unfoldable pub deny_usb_v1 : List ℕ → Action World ⊤
  deny_usb_v1 child_path = do
    deny_path ← or_fail (joined_path child_path (codes "devices.deny")) "host_usb_v1_deny_path" 118
    written ← write_cgroup_value deny_path deny_value
    elim written [ none ↦ pure tt | some errno ↦ fail "host_usb_v1_deny" 118 ]

  unfoldable pub prepare_devices_cgroup_mount : List ℕ → HostUsbPolicy → Action World ⊤
  prepare_devices_cgroup_mount control_dir policy = do
    (mount_path, child_path) ←
        or_fail (delegated_cgroup_paths control_dir devices_cgroup_mount_name) "devices_cgroup_path"
          90
    ensure_directory_path K mount_path 448 "devices_cgroup_mount_dir"
    require K
        (mount (some (codes "dawnshell-devices")) mount_path (some (codes "cgroup"))
          no_suid_dev_exec (some (codes "devices")))
        "cgroup_v1_devices_mount" 91
    ensure_directory_path K child_path 493 "devices_cgroup_child_dir"
    list_path ←
        or_fail (joined_path child_path (codes "devices.list")) "devices_cgroup_interface_path" 92
    require K (open_read list_path) "devices_cgroup_interface" 93
    (if is_off policy then deny_usb_v1 child_path else pure tt)
