-- ===== src/Cgroup/Launch.antt =====
-- The namespaces of a launch and the choice of its cgroup mode: `set_base_private_namespaces`,
-- `negotiate_cgroup_mode` and `set_systemd_parent_namespaces`.
use dawnshell.Prelude.{
  ℕ, inl, inr, Bool, true, false, ◌&&◌, ◌||◌, Option, none, some, List, [], ◌∷◌, ◌==◌,
  if◌then◌else◌, codes,
}
use dawnshell.Cgroup.Clean.{cleanup_cgroup_hierarchy}
use dawnshell.Cgroup.Kernel.{
  ms_rec, ms_private, clone_newns, clone_newuts, clone_newcgroup, clone_newpid, mount, unshare,
  drop_sys_boot, seccomp_filter, prctl_filter, close_range_guard, Kernel, einval, enosys,
}
use dawnshell.Cgroup.Paths.{
  unified_cgroup_mount_name, systemd_cgroup_mount_name, devices_cgroup_mount_name,
}
use dawnshell.Cgroup.Prepare.{
  is_off, prepare_unified_cgroup_mount, prepare_systemd_cgroup_mount, devices_controller_available,
  prepare_devices_cgroup_mount,
}
use dawnshell.Cgroup.Run.{
  ◌>>=◌, ⊤, Action, pure, fail, ◌>>◌, look, raise_again, either, attempt, require, either_call,
}
use dawnshell.Launch.Options.{
  CgroupMode, unknown, v1, v1_no_devices, v2, CgroupPolicy, force_v2, force_v1, LaunchMode, systemd,
  compat, HostUsbPolicy,
}
use dawnshell.Sandbox.Programs.{Abi, ipc_filter}

-- What `set_systemd_parent_namespaces` stores: `*launch_mode` and `*resolved_mode`.
pub record Launched : Type 0 where
  pub launch_mode : LaunchMode
  pub resolved_mode : CgroupMode

abbrev pub compatibility : Launched
compatibility = record { launch_mode = compat; resolved_mode = unknown }

abbrev pub eperm : ℕ
eperm = 1

abbrev pub eopnotsupp : ℕ
eopnotsupp = 95

unfoldable pub pid_namespace_creation_is_unsupported : ℕ → Bool
pid_namespace_creation_is_unsupported errno =
    errno == einval || (errno == enosys || (errno == eperm || errno == eopnotsupp))

abbrev pub is_force_v2 : CgroupPolicy → Bool
is_force_v2 force_v2 = true
is_force_v2 _ = false

abbrev pub is_force_v1 : CgroupPolicy → Bool
is_force_v1 force_v1 = true
is_force_v1 _ = false

module _ (K : Kernel) where
  open K use {World, stat, poll_ready}

  -- Without an architecture that the filter knows there is none.
  unfoldable pub block_ipc_namespace_creation : Option Abi → Action World ⊤
  block_ipc_namespace_creation none = pure tt
  block_ipc_namespace_creation (some abi) = attempt K (seccomp_filter (ipc_filter abi)) >>= λ errno.
      elim errno [
        | none ↦ pure tt
        | some e ↦ require K (prctl_filter (ipc_filter abi)) "seccomp_block_newipc" 53
      ]

  unfoldable pub set_base_private_namespaces : Option Abi → Action World ⊤
  set_base_private_namespaces abi = do
    dropped ← attempt K drop_sys_boot
    elim dropped [
      | none ↦ pure tt
      | some errno ↦ if errno == einval then pure tt else fail "capbset_drop_sys_boot" 53
    ]
    require K (unshare clone_newns) "unshare_mount" 53
    require K (mount none (codes "/") none (ms_rec ∷ ms_private ∷ []) none) "mount_make_rprivate" 54
    require K (unshare clone_newuts) "unshare_uts" 55
    block_ipc_namespace_creation abi
    guarded ← attempt K close_range_guard
    pure tt

  unfoldable pub set_private_namespaces : Option Abi → Action World ⊤
  set_private_namespaces abi = do
    set_base_private_namespaces abi
    require K (unshare clone_newcgroup) "unshare_cgroup" 57
    require K (unshare clone_newpid) "unshare_pid" 58

  -- The result is `*resolved_mode`.
  unfoldable pub prepare_legacy_cgroup_mounts : List ℕ → HostUsbPolicy → Action World CgroupMode
  prepare_legacy_cgroup_mounts control_dir usb = devices_controller_available K >>= λ available.
      if available
      then (do
        prepare_devices_cgroup_mount K control_dir usb
        prepare_systemd_cgroup_mount K control_dir
        pure v1)
      else if is_off usb
      then (do prepare_systemd_cgroup_mount K control_dir; pure v1_no_devices)
      else fail "cgroup_devices_controller" 120

  unfoldable pub negotiate_legacy : List ℕ → HostUsbPolicy → Action World CgroupMode
  negotiate_legacy control_dir usb =
      either (prepare_legacy_cgroup_mounts control_dir usb) pure (λ e.
        cleanup_cgroup_hierarchy K control_dir devices_cgroup_mount_name
        >> cleanup_cgroup_hierarchy K control_dir systemd_cgroup_mount_name
        >> raise_again e)

  unfoldable pub negotiate_cgroup_mode :
      List ℕ → CgroupPolicy → HostUsbPolicy → Action World CgroupMode
  negotiate_cgroup_mode control_dir policy usb =
      if is_force_v1 policy
      then negotiate_legacy control_dir usb
      else either (prepare_unified_cgroup_mount K control_dir usb) (λ _. pure v2)
          (λ e.
            cleanup_cgroup_hierarchy K control_dir unified_cgroup_mount_name
            >> (if is_force_v2 policy
                then fail "cgroup_v2_forced_unavailable" 117
                else negotiate_legacy control_dir usb))

  unfoldable pub pid_namespace_entry_is_available : Action World Bool
  pid_namespace_entry_is_available = look (stat (codes "/proc/self/ns/pid")) >>= λ found.
      elim found [ inl errno ↦ pure false | inr s ↦ pure true ]

  unfoldable pub wait_for_network_manager : Action World ⊤
  wait_for_network_manager = look poll_ready >>= λ ready. elim ready [
    | none ↦ fail "wait_network_manager" 56
    | some byte ↦ if byte == b'1' then pure tt else fail "wait_network_manager" 56
  ]

  -- Falling back to the compatibility mode.
  unfoldable pub fall_back : List ℕ → Action World Launched
  fall_back control_dir = do
    cleanup_cgroup_hierarchy K control_dir unified_cgroup_mount_name
    cleanup_cgroup_hierarchy K control_dir devices_cgroup_mount_name
    cleanup_cgroup_hierarchy K control_dir systemd_cgroup_mount_name
    pure compatibility

  unfoldable pub unshare_pid : List ℕ → Bool → CgroupMode → Action World Launched
  unshare_pid control_dir allow_fallback mode =
      either_call K (unshare clone_newpid)
        (pure (record { launch_mode = systemd; resolved_mode = mode }))
        (λ errno.
          if allow_fallback && pid_namespace_creation_is_unsupported errno
          then fall_back control_dir
          else fail "unshare_pid" 58)

  -- What follows the test of /proc/self/ns/pid.
  unfoldable pub negotiate_launch :
      List ℕ → CgroupPolicy → HostUsbPolicy → Bool → Action World Launched
  negotiate_launch control_dir policy usb allow_fallback =
      either (negotiate_cgroup_mode control_dir policy usb) (unshare_pid control_dir allow_fallback)
        (λ e. if allow_fallback then fall_back control_dir else raise_again e)

  unfoldable pub set_systemd_parent_namespaces :
      Option Abi → List ℕ → CgroupPolicy → HostUsbPolicy → Bool → Action World Launched
  set_systemd_parent_namespaces abi control_dir policy usb allow_fallback = do
    set_base_private_namespaces abi
    wait_for_network_manager
    -- The entry is looked at only where the fallback is allowed.
    available ← (if allow_fallback then pid_namespace_entry_is_available else pure true)
    (if available
        then negotiate_launch control_dir policy usb allow_fallback
        else pure compatibility)
