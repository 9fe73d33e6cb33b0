-- ===== src/Tests/Cgroup.antt =====
-- A launch on a kernel where every call succeeds; its world says whether USB devices are denied.
use dawnshell.Prelude.{
  ℕ, ◌≡◌, refl, inl, inr, Bool, true, false, Option, none, some, List, codes, str_eq,
}
use dawnshell.Cgroup.Controllers.{
  tokens_from, enable_operation, skip_space, take_word, scan_word, take_digits, scan_digits,
  scan_int, scan_row, devices_enabled, devices_available,
}
use dawnshell.Cgroup.Device.{probe_program, deny_program, run_device}
use dawnshell.Cgroup.Directory.{ensure_directory_path}
use dawnshell.Cgroup.Gate.{IsGate, HasNoController, IsMissing}
use dawnshell.Cgroup.Kernel.{Call, write_value, bpf_attach, Kernel, enoent}
use dawnshell.Cgroup.Launch.{
  Launched, block_ipc_namespace_creation, set_base_private_namespaces, negotiate_cgroup_mode,
  wait_for_network_manager, unshare_pid, negotiate_launch, set_systemd_parent_namespaces,
}
use dawnshell.Cgroup.Paths.{joined_path, delegated_cgroup_paths, unified_cgroup_paths}
use dawnshell.Cgroup.Prepare.{
  write_cgroup_value, enable_controllers, enable_available_v2_controllers, require_probe,
  probe_cgroup_device_bpf, deny_usb_v2, apply_host_usb_v2_policy, prepare_unified_cgroup_mount,
}
use dawnshell.Cgroup.Resolved.{IsLaunched, set_systemd_parent_namespaces-IsLaunched}
use dawnshell.Cgroup.Run.{
  ◌>>=◌, done, pure, or_fail, continue, look, settle, either, attempt, require, on_answer,
  either_call,
}
use dawnshell.Cgroup.Verdict.{run_device-verdicts}
use dawnshell.Launch.Options.{v2, auto, systemd, off}

abbrev control : List ℕ
control = codes "/data/adb/dawnshell"

abbrev willing_call : Call → Bool → Bool × Option ℕ
willing_call (bpf_attach path program) w = (true, none)
willing_call (write_value path value) w = (true, none)
willing_call _ w = (w, none)

abbrev willing : Kernel
willing = record {
  World = Bool;
  call = willing_call;
  lstat = λ path w. (w, inl enoent);
  stat = λ path w. (w, inl enoent);
  read = λ path n w. (w, inr (codes "cpu memory"));
  readdir = λ path w. (w, inl enoent);
  getpid = λ w. 7;
  poll_ready = λ w. (w, some b'1');
}

abbrev IsDenied : Bool → Type 0
IsDenied w = w ≡ true

willing-IsGate : IsGate willing control IsDenied
willing-IsGate = record {
  attached = λ m c p w e f. refl;
  written = λ m c p w e f g. refl;
  lasting = record {
    lstat_keeps = λ path w g. g;
    mkdir_keeps = λ path mode w g. g;
    mount_keeps = λ source path fs flags options w g. g;
    unshare_keeps = λ flag w g. g;
  };
}

-- Reading /proc/cgroups shows no controller for devices.
abbrev HasNone : Bool → Type 0
HasNone w = HasNoController (willing.read (codes "/proc/cgroups") 4095 w).1

willing-IsMissing : IsMissing willing HasNone
willing-IsMissing = record {
  was_read = λ w h. h;
  lasting = record {
    lstat_keeps = λ path w h. h;
    mkdir_keeps = λ path mode w h. h;
    mount_keeps = λ source path fs flags options w h. h;
    unshare_keeps = λ flag w h. h;
  };
}

abbrev launched : Launched
launched = record { launch_mode = systemd; resolved_mode = v2 }

launch_lem :
    set_systemd_parent_namespaces willing none control auto off false false ≡ (true, done launched)
unfolding set_systemd_parent_namespaces set_base_private_namespaces block_ipc_namespace_creation
    wait_for_network_manager negotiate_launch negotiate_cgroup_mode unshare_pid either settle
    either_call on_answer prepare_unified_cgroup_mount unified_cgroup_paths delegated_cgroup_paths
    joined_path ensure_directory_path enable_available_v2_controllers enable_controllers tokens_from
    enable_operation write_cgroup_value probe_cgroup_device_bpf require_probe
    apply_host_usb_v2_policy deny_usb_v2 or_fail look attempt require pure ◌>>=◌ continue
launch_lem = refl

set_systemd_parent_namespaces-IsLaunched_example :
    IsLaunched willing control IsDenied HasNone auto off false true launched
set_systemd_parent_namespaces-IsLaunched_example =
    set_systemd_parent_namespaces-IsLaunched willing control IsDenied HasNone willing-IsGate
      willing-IsMissing none auto off false false true launched launch_lem

run_device-verdicts_example :
    (run_device 5 deny_program 189 3 4 ≡ some 0) × (run_device 2 probe_program 189 3 4 ≡ some 1)
run_device-verdicts_example = run_device-verdicts 189 3 4

-- A device of another major number is allowed.
other_device : run_device 5 deny_program 1 0 0 ≡ some 1
unfolding run_device deny_program
other_device = refl

-- A row of /proc/cgroups as the kernel prints it.
devices_row :
    devices_available
      (codes "#subsys_name\thierarchy\tnum_cgroups\tenabled\ncpu\t1\t1\t1\ndevices\t7\t64\t1\n")
    ≡ true
unfolding devices_available devices_enabled scan_row scan_word scan_int scan_digits take_digits
    take_word skip_space tokens_from str_eq
devices_row = refl

devices_off : devices_available (codes "devices\t0\t1\t0\n") ≡ false
unfolding devices_available devices_enabled scan_row scan_word scan_int scan_digits take_digits
    take_word skip_space tokens_from str_eq
devices_off = refl
