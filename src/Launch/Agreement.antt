-- ===== src/Launch/Agreement.antt =====
-- The names of the option values and the parsers agree, and a launch policy is not mistaken for
-- another option.
use dawnshell.Prelude.{◌≡◌, refl, some, str_eq}
use dawnshell.Launch.Options.{
  CgroupMode, unknown, v1, v1_no_devices, v2, HostUsbPolicy, off, direct, exclusive, is_text,
  host_usb_policy_name, parse_host_usb_policy, cgroup_mode_name, parse_cgroup_mode,
}

parse_cgroup_mode-name : (m : CgroupMode) → parse_cgroup_mode (some (cgroup_mode_name m)) ≡ m
unfolding parse_cgroup_mode is_text str_eq cgroup_mode_name
parse_cgroup_mode-name unknown = refl
parse_cgroup_mode-name v1 = refl
parse_cgroup_mode-name v1_no_devices = refl
parse_cgroup_mode-name v2 = refl

pub parse_host_usb_policy-name :
    (u : HostUsbPolicy) → parse_host_usb_policy (some (host_usb_policy_name u)) ≡ some u
unfolding parse_host_usb_policy is_text str_eq host_usb_policy_name
parse_host_usb_policy-name off = refl
parse_host_usb_policy-name direct = refl
parse_host_usb_policy-name exclusive = refl

-- What the state file says of the cgroup mode and of the USB policy is read back as it was written.
pub parse-name :
    (m : CgroupMode)
    → (u : HostUsbPolicy)
    → (parse_cgroup_mode (some (cgroup_mode_name m)) ≡ m)
      × (parse_host_usb_policy (some (host_usb_policy_name u)) ≡ some u)
parse-name m u = (parse_cgroup_mode-name m, parse_host_usb_policy-name u)
