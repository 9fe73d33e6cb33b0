-- ===== src/Cgroup/Paths.antt =====
-- Paths below the control directory.
use dawnshell.Prelude.{
  ℕ, Option, none, some, List, ◌∷◌, ◌++◌, leb, if◌then◌else◌, ◌>>=◌, codes, length,
}

-- `PATH_MAX`.
abbrev pub path_max : ℕ
path_max = 4096

unfoldable pub joined_path : List ℕ → List ℕ → Option (List ℕ)
joined_path base relative =
    let path = base ++ 47 ∷ relative in if leb path_max (length path) then none else some path

abbrev pub unified_cgroup_mount_name : List ℕ
unified_cgroup_mount_name = codes "unified-cgroup"

abbrev pub systemd_cgroup_mount_name : List ℕ
systemd_cgroup_mount_name = codes "systemd-cgroup"

abbrev pub devices_cgroup_mount_name : List ℕ
devices_cgroup_mount_name = codes "devices-cgroup"

abbrev pub cgroup_child_name : List ℕ
cgroup_child_name = codes "dawnshell"

abbrev pub cgroup_payload_name : List ℕ
cgroup_payload_name = codes "payload"

abbrev pub cgroup_command_name : List ℕ
cgroup_command_name = codes "dawnshell-command"

abbrev pub cgroup_probe_name : List ℕ
cgroup_probe_name = codes ".device-probe"

-- `mount_path` and `child_path`.
unfoldable pub delegated_cgroup_paths : List ℕ → List ℕ → Option (List ℕ × List ℕ)
delegated_cgroup_paths control_dir mount_name = do
  mount_path ← joined_path control_dir mount_name
  child_path ← joined_path mount_path cgroup_child_name
  some (mount_path, child_path)

-- `mount_path`, `child_path` and `payload_path`.
unfoldable pub unified_cgroup_paths : List ℕ → Option (List ℕ × List ℕ × List ℕ)
unified_cgroup_paths control_dir = do
  (mount_path, child_path) ← delegated_cgroup_paths control_dir unified_cgroup_mount_name
  payload_path ← joined_path child_path cgroup_payload_name
  some (mount_path, child_path, payload_path)

-- `cgroup_root`, `systemd_view` and `devices_view`.
unfoldable pub view_paths : List ℕ → Option (List ℕ × List ℕ × List ℕ)
view_paths root = do
  cgroup_root ← joined_path root (codes "sys/fs/cgroup")
  systemd_view ← joined_path cgroup_root (codes "systemd")
  devices_view ← joined_path cgroup_root (codes "devices")
  some (cgroup_root, systemd_view, devices_view)
