-- ===== src/Cgroup/Mounts.antt =====
-- The mounts of Debian's root: `configure_host_usb_mount`, `mount_delegated_cgroup_views` and
-- `prepare_child_mounts`. The count of USB nodes is for the log alone and left out.
use Prim.Native.String.{String}
use dawnshell.Prelude.{
  ℕ, ◌⊎◌, inl, inr, Bool, true, false, ◌&&◌, none, some, List, [], ◌∷◌, ◌==◌, if◌then◌else◌, codes,
}
use dawnshell.Cgroup.Directory.{
  is_dir, ensure_directory_path, bind_recursively, make_bind_read_only, bind_android_runtime_tree,
}
use dawnshell.Cgroup.Kernel.{
  ms_rdonly, ms_nosuid, ms_nodev, ms_noexec, ms_remount, ms_bind, ms_rec, ms_private, mount, mkdir,
  create_file, is_fifo, FileStat, Kernel, enoent, eexist,
}
use dawnshell.Cgroup.Paths.{
  joined_path, systemd_cgroup_mount_name, devices_cgroup_mount_name, delegated_cgroup_paths,
  unified_cgroup_paths,
}
use dawnshell.Cgroup.Prepare.{no_suid_dev_exec, is_off}
use dawnshell.Cgroup.Run.{◌>>=◌, ⊤, Action, pure, fail, or_fail, ◌>>◌, when, look, attempt, require}
use dawnshell.Launch.Options.{CgroupMode, unknown, v1, v1_no_devices, v2, HostUsbPolicy}

-- A file is a FIFO of root's with mode 0600.
abbrev pub is_root_fifo : FileStat → Bool
is_root_fifo s = elim s.kind [ is_fifo ↦ s.uid == 0 && s.mode == 384 | _ ↦ false ]

module _ (K : Kernel) where
  open K use {World, lstat}

  unfoldable pub configure_host_usb_mount : List ℕ → HostUsbPolicy → Action World ⊤
  configure_host_usb_mount root usb = do
    usb_path ← or_fail (joined_path root (codes "dev/bus/usb")) "host_usb_path" 119
    found ← look (lstat usb_path)
    elim found [
      | inl errno ↦ if errno == enoent then pure tt else fail "host_usb_lstat" 119
      | inr s ↦
          if is_dir s
          then when (is_off usb) (
              require K
                (mount (some (codes "dawnshell-usb-blocked")) usb_path (some (codes "tmpfs"))
                  (ms_rdonly ∷ no_suid_dev_exec) (some (codes "mode=000,size=4k")))
                "host_usb_block_mount" 119)
          else fail "host_usb_path" 119
    ]

  -- The last two stages are those of the directory and of the mount.
  unfoldable pub bind_delegated_cgroup_view :
      List ℕ → List ℕ → List ℕ → List ℕ → String → String → ℕ → Action World ⊤
  bind_delegated_cgroup_view control_dir mount_name cgroup_root view_name directory_stage bind_stage
        code =
      do
        (mount_path, source) ←
            or_fail (delegated_cgroup_paths control_dir mount_name) "cgroup_view_path" code
        target ← or_fail (joined_path cgroup_root view_name) "cgroup_view_path" code
        ensure_directory_path K target 493 directory_stage
        require K (mount (some source) target none (ms_bind ∷ ms_rec ∷ []) none) bind_stage code

  unfoldable pub mount_unified_view : List ℕ → List ℕ → Action World ⊤
  mount_unified_view control_dir cgroup_root = do
    (mount_path, child_path, payload_path) ←
        or_fail (unified_cgroup_paths control_dir) "cgroup_v2_view_path" 116
    require K (mount (some payload_path) cgroup_root none (ms_bind ∷ ms_rec ∷ []) none)
        "cgroup_v2_view_bind" 116

  unfoldable pub mount_legacy_views : List ℕ → List ℕ → Bool → Action World ⊤
  mount_legacy_views control_dir cgroup_root with_devices = do
    require K
        (mount (some (codes "tmpfs")) cgroup_root (some (codes "tmpfs")) no_suid_dev_exec
          (some (codes "mode=0755,size=1m")))
        "cgroup_view_tmpfs" 52
    bind_delegated_cgroup_view control_dir systemd_cgroup_mount_name cgroup_root (codes "systemd")
        "cgroup_view_systemd_dir" "cgroup_view_systemd_bind" 53
    when with_devices (
        bind_delegated_cgroup_view control_dir devices_cgroup_mount_name cgroup_root
          (codes "devices") "cgroup_view_devices_dir" "cgroup_view_devices_bind" 95)

  unfoldable pub mount_views : List ℕ → List ℕ → CgroupMode → Action World ⊤
  mount_views control_dir cgroup_root v2 = mount_unified_view control_dir cgroup_root
  mount_views control_dir cgroup_root v1 = mount_legacy_views control_dir cgroup_root true
  mount_views control_dir cgroup_root v1_no_devices =
      mount_legacy_views control_dir cgroup_root false
  mount_views control_dir cgroup_root unknown = fail "cgroup_view_mode" 116

  unfoldable pub mount_delegated_cgroup_views : List ℕ → List ℕ → CgroupMode → Action World ⊤
  mount_delegated_cgroup_views root control_dir mode = do
    cgroup_root ← or_fail (joined_path root (codes "sys/fs/cgroup")) "cgroup_view_path" 51
    mount_views control_dir cgroup_root mode

  -- The parts of `prepare_child_mounts`, in its order.
  unfoldable pub mount_rootfs : List ℕ → Action World ⊤
  mount_rootfs root = do
    require K (mount (some root) root none (ms_bind ∷ ms_rec ∷ []) none) "rootfs_bind" 44
    require K (mount none root none (ms_private ∷ ms_rec ∷ []) none) "rootfs_make_private" 44
    require K (mount none root none (ms_bind ∷ ms_remount ∷ ms_nodev ∷ []) none)
        "rootfs_enable_private_suid" 44

  unfoldable pub mount_dev : List ℕ → HostUsbPolicy → Action World ⊤
  mount_dev root usb = do
    path ← or_fail (joined_path root (codes "dev")) "dev_path" 44
    bind_recursively K (codes "/dev") path "dev_rbind" "dev_make_rslave"
    configure_host_usb_mount root usb

  unfoldable pub mount_android_runtime : List ℕ → Action World ⊤
  mount_android_runtime root = do
    bind_android_runtime_tree K root (codes "/system") (codes "system") true
    bind_android_runtime_tree K root (codes "/apex") (codes "apex") true
    bind_android_runtime_tree K root (codes "/linkerconfig") (codes "linkerconfig") false

  unfoldable pub mount_sys : List ℕ → Action World ⊤
  mount_sys root = do
    path ← or_fail (joined_path root (codes "sys")) "sys_path" 45
    bind_recursively K (codes "/sys") path "sys_rbind" "sys_make_rslave"
    require K
        (mount none path none
          (ms_bind ∷ ms_remount ∷ ms_rdonly ∷ ms_nosuid ∷ ms_nodev ∷ ms_noexec ∷ []) none)
        "sys_read_only" 45

  unfoldable pub mount_proc : List ℕ → Action World ⊤
  mount_proc root = do
    path ← or_fail (joined_path root (codes "proc")) "proc_path" 46
    require K (mount (some (codes "proc")) path (some (codes "proc")) no_suid_dev_exec none)
        "proc_mount" 47
    sys_path ← or_fail (joined_path root (codes "proc/sys")) "proc_sys_path" 48
    make_bind_read_only K sys_path "proc_sys_read_only"

  unfoldable pub mount_run : List ℕ → Action World ⊤
  mount_run root = do
    path ← or_fail (joined_path root (codes "run")) "run_path" 49
    require K
        (mount (some (codes "tmpfs")) path (some (codes "tmpfs")) (ms_nosuid ∷ ms_nodev ∷ [])
          (some (codes "mode=0755,size=64m")))
        "run_tmpfs" 50
    lock_path ← or_fail (joined_path root (codes "run/lock")) "run_lock_path" 51
    made ← attempt K (mkdir lock_path 493)
    elim made [
      | none ↦ pure tt
      | some errno ↦ if errno == eexist then pure tt else fail "run_lock_mkdir" 52
    ]

  unfoldable pub validate_host_reboot : ℕ ⊎ FileStat → Action World ⊤
  validate_host_reboot (inl errno) = fail "host_reboot_fifo_validate" 52
  validate_host_reboot (inr s) =
      if is_root_fifo s then pure tt else fail "host_reboot_fifo_validate" 52

  unfoldable pub mount_host_reboot : List ℕ → List ℕ → Action World ⊤
  mount_host_reboot root control_dir = do
    source ← or_fail (joined_path control_dir (codes "host-reboot.fifo")) "host_reboot_fifo_path" 52
    target ←
        or_fail (joined_path root (codes "run/dawnshell-host-reboot")) "host_reboot_fifo_path" 52
    found ← look (lstat source)
    validate_host_reboot found
    require K (create_file target) "host_reboot_target_create" 52
    require K (mount (some source) target none (ms_bind ∷ []) none) "host_reboot_fifo_bind" 52

  unfoldable pub prepare_child_mounts :
      List ℕ → List ℕ → Bool → CgroupMode → HostUsbPolicy → Action World ⊤
  prepare_child_mounts root control_dir systemd_mode mode usb = do
    mount_rootfs root
    mount_dev root usb
    mount_android_runtime root
    mount_sys root
    when systemd_mode (mount_delegated_cgroup_views root control_dir mode)
    mount_proc root
    mount_run root
    when systemd_mode (mount_host_reboot root control_dir)
