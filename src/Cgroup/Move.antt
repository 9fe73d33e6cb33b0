-- ===== src/Cgroup/Move.antt =====
-- Moving the launcher's process into the delegated cgroups.
use Prim.Native.String.{String}
use dawnshell.Prelude.{ℕ, Bool, true, false, List, [], ◌∷◌, ◌++◌, if◌then◌else◌, decimal, codes}
use dawnshell.Cgroup.Directory.{ensure_directory_path}
use dawnshell.Cgroup.Kernel.{clone_newcgroup, open_write, write_value, unshare, Kernel}
use dawnshell.Cgroup.Paths.{
  joined_path, systemd_cgroup_mount_name, devices_cgroup_mount_name, cgroup_command_name,
  delegated_cgroup_paths, unified_cgroup_paths,
}
use dawnshell.Cgroup.Run.{◌>>=◌, ⊤, Action, pure, fail, or_fail, ◌>>◌, look, require}
use dawnshell.Launch.Options.{CgroupMode, unknown, v1, v1_no_devices, v2}

module _ (K : Kernel) where
  open K use {World, getpid}

  unfoldable pub move_self_to_cgroup : List ℕ → String → String → ℕ → Action World ⊤
  move_self_to_cgroup child_path open_stage move_stage code = do
    procs_path ← or_fail (joined_path child_path (codes "cgroup.procs")) open_stage code
    require K (open_write procs_path) open_stage code
    pid ← look (λ w. (w, getpid w))
    require K (write_value procs_path (decimal pid ++ 10 ∷ [])) move_stage code

  -- The part of `move_self_to_delegated_subtrees` on one hierarchy.
  unfoldable pub move_self_to_hierarchy : List ℕ → List ℕ → String → String → ℕ → Action World ⊤
  move_self_to_hierarchy control_dir mount_name open_stage move_stage code = do
    (mount_path, child_path) ←
        or_fail (delegated_cgroup_paths control_dir mount_name) "cgroup_procs_path" 47
    move_self_to_cgroup child_path open_stage move_stage code

  unfoldable pub move_self_to_delegated_subtrees : List ℕ → Bool → Action World ⊤
  move_self_to_delegated_subtrees control_dir devices_delegated = do
    move_self_to_hierarchy control_dir systemd_cgroup_mount_name "cgroup_procs_open"
        "cgroup_move_pid1" 49
    (if devices_delegated
        then move_self_to_hierarchy control_dir devices_cgroup_mount_name
            "devices_cgroup_procs_open" "devices_cgroup_move_pid1" 94
        else pure tt)

  unfoldable pub move_self_to_payload : List ℕ → Action World ⊤
  move_self_to_payload control_dir = do
    (mount_path, child_path, payload_path) ←
        or_fail (unified_cgroup_paths control_dir) "cgroup_v2_procs_path" 115
    move_self_to_cgroup payload_path "cgroup_v2_procs_open" "cgroup_v2_move_pid1" 115

  unfoldable pub move_self_to_delegated_mode : List ℕ → CgroupMode → Action World ⊤
  move_self_to_delegated_mode control_dir v2 = move_self_to_payload control_dir
  move_self_to_delegated_mode control_dir v1 = move_self_to_delegated_subtrees control_dir true
  move_self_to_delegated_mode control_dir v1_no_devices =
      move_self_to_delegated_subtrees control_dir false
  move_self_to_delegated_mode control_dir unknown = fail "cgroup_mode" 115

  unfoldable pub move_self_to_command : List ℕ → Action World ⊤
  move_self_to_command control_dir = do
    (mount_path, child_path, payload_path) ←
        or_fail (unified_cgroup_paths control_dir) "cgroup_v2_command_path" 115
    command_path ←
        or_fail (joined_path payload_path cgroup_command_name) "cgroup_v2_command_path" 115
    ensure_directory_path K command_path 493 "cgroup_v2_command_dir"
    move_self_to_cgroup command_path "cgroup_v2_command_procs_open" "cgroup_v2_move_command" 115

  unfoldable pub move_self_to_delegated_command : List ℕ → CgroupMode → Action World ⊤
  move_self_to_delegated_command control_dir v2 = move_self_to_command control_dir
  move_self_to_delegated_command control_dir mode = move_self_to_delegated_mode control_dir mode

  unfoldable pub move_self_to_delegated_cgroups : List ℕ → CgroupMode → Action World ⊤
  move_self_to_delegated_cgroups control_dir mode = do
    move_self_to_delegated_mode control_dir mode
    require K (unshare clone_newcgroup) "unshare_cgroup" 50
