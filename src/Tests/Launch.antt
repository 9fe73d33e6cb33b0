-- ===== src/Tests/Launch.antt =====
-- The launcher's arguments.
use dawnshell.Prelude.{ℕ, ◌+◌, ◌≡◌, refl, ◌≢◌, ◌⊎◌, inl, inr, true, false, some, ◌∷◌, arith, codes}
use dawnshell.Launch.Agreement.{parse-name}
use dawnshell.Launch.Boundaries.{
  IsProcess, validate-IsProcess, IsKnown, validate_compat_namespace_topology-IsKnown,
}
use dawnshell.Launch.Checked.{IsChecked, main-IsChecked}
use dawnshell.Launch.Command.{StartOptions, accepted, parse_start_options, main}
use dawnshell.Launch.Namespaces.{
  Namespace, mnt_ns, uts_ns, net_ns, Proc, LauncherState, inode_of, reads, reads_identity,
  validate_supervisor_identity, validate_compat_service_identity, reads_namespace, is_shared,
  is_private, validate_compat_namespace_topology,
}
use dawnshell.Launch.Options.{
  v1_no_devices, force_v1, exclusive, host_usb_policy_name, parse_host_usb_policy, cgroup_mode_name,
  parse_cgroup_mode,
}
use dawnshell.Launch.Written.{
  IsStartOptions, option_arguments, strict_arguments, parse_start_options-arguments,
}
use dawnshell.Tests.Devices.{two_devices, two_devices-IsUsbDeviceFilter}

parse-name_runs :
    (parse_cgroup_mode (some (cgroup_mode_name v1_no_devices)) ≡ v1_no_devices)
    × (parse_host_usb_policy (some (host_usb_policy_name exclusive)) ≡ some exclusive)
parse-name_runs = parse-name v1_no_devices exclusive

abbrev options : StartOptions
options = record {
  policy = force_v1;
  allow_fallback = true;
  host_usb_policy = exclusive;
  usb_device_filter = two_devices;
}

options-IsStartOptions : IsStartOptions options
options-IsStartOptions = record { filter = two_devices-IsUsbDeviceFilter; has_device = λ u e. cc }

parse_start_options-arguments_example :
    (parse_start_options (option_arguments options) ≡ accepted options)
    × (parse_start_options (strict_arguments options)
        ≡ accepted (record options { allow_fallback = false }))
parse_start_options-arguments_example = parse_start_options-arguments options options-IsStartOptions

main-IsChecked_example : IsChecked (
    main (
      codes "bfu"
      ∷ codes "start"
      ∷ codes "/data/local/debian"
      ∷ codes "/control"
      ∷ codes "3"
      ∷ option_arguments options))
main-IsChecked_example = main-IsChecked (
    codes "bfu"
    ∷ codes "start"
    ∷ codes "/data/local/debian"
    ∷ codes "/control"
    ∷ codes "3"
    ∷ option_arguments options)

-- A compatibility launch: process 1 is Android's init, 40 the supervisor and 41 the service, which
-- has its own mount and UTS namespaces.
abbrev stat_phone : ℕ → Namespace → ℕ ⊎ ℕ
stat_phone pid mnt_ns = inr (100 + pid)
stat_phone pid uts_ns = inr (200 + pid)
stat_phone pid net_ns = inr 300
stat_phone pid _ = inl 2

abbrev phone : Proc
phone = record {
  stat_namespace = stat_phone;
  start_ticks = λ pid. some (1000 + pid);
  exe_identity = λ pid. some (8, 9);
  is_alive = λ pid. true;
}

abbrev compat_inodes : Namespace → ℕ
compat_inodes mnt_ns = 141
compat_inodes uts_ns = 241
compat_inodes net_ns = 300
compat_inodes _ = 0

abbrev compat_state : LauncherState
compat_state = record {
  supervisor_pid = 40;
  supervisor_start_ticks = 1040;
  supervisor_exe_dev = 8;
  supervisor_exe_ino = 9;
  init_host_pid = 41;
  init_start_ticks = 1041;
  init_exe_dev = 8;
  init_exe_ino = 9;
  init_ns_ino = compat_inodes;
}

compat_supervisor_passes : validate_supervisor_identity phone compat_state ≡ true
unfolding validate_supervisor_identity reads reads_identity
compat_supervisor_passes = refl

compat_service_passes : validate_compat_service_identity phone compat_state ≡ true
unfolding validate_compat_service_identity reads reads_identity
compat_service_passes = refl

compat_topology_passes : validate_compat_namespace_topology phone compat_state ≡ true
unfolding validate_compat_namespace_topology is_private is_shared reads_namespace reads inode_of
compat_topology_passes = refl

validate-IsProcess_runs : IsProcess phone 40 1040 8 9 × IsProcess phone 41 1041 8 9
validate-IsProcess_runs =
    validate-IsProcess phone compat_state compat_supervisor_passes compat_service_passes

net_ns-ne : (net_ns ≢ mnt_ns) × (net_ns ≢ uts_ns)
net_ns-ne = (λ e. cc, λ e. cc)

validate_compat_namespace_topology-IsKnown_example : IsKnown phone compat_state net_ns 300
validate_compat_namespace_topology-IsKnown_example =
    validate_compat_namespace_topology-IsKnown phone compat_state compat_topology_passes net_ns
      net_ns-ne.0 net_ns-ne.1 (λ e. omega arith)
