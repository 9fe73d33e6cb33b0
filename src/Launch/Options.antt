-- ===== src/Launch/Options.antt =====
-- The option values of the launcher and their names. A `const char *` is `none` for NULL.
use dawnshell.Prelude.{
  ℕ, Bool, true, false, ◌||◌, Option, none, some, List, if◌then◌else◌, codes, str_eq,
}

pub data CgroupMode : Type 0 where
  unknown v1 v1_no_devices v2 : CgroupMode

pub data CgroupPolicy : Type 0 where
  auto force_v2 force_v1 : CgroupPolicy

pub data LaunchMode : Type 0 where
  systemd compat : LaunchMode

pub data HostUsbPolicy : Type 0 where
  off direct exclusive : HostUsbPolicy

-- `value != NULL && strcmp(value, text) == 0`.
unfoldable pub is_text : Option (List ℕ) → List ℕ → Bool
unfolding str_eq
is_text none text = false
is_text (some value) text = str_eq value text

abbrev pub is_null : Option (List ℕ) → Bool
is_null none = true
is_null (some value) = false

unfoldable pub host_usb_policy_name : HostUsbPolicy → List ℕ
host_usb_policy_name direct = codes "direct"
host_usb_policy_name exclusive = codes "exclusive"
host_usb_policy_name off = codes "off"

unfoldable pub parse_host_usb_policy : Option (List ℕ) → Option HostUsbPolicy
unfolding is_text
parse_host_usb_policy value =
    if is_null value || (is_text value (codes "off") || is_text value (codes "blocked"))
    then some off
    else if is_text value (codes "direct") || is_text value (codes "shared")
    then some direct
    else if is_text value (codes "exclusive")
    then some exclusive
    else none

unfoldable pub cgroup_mode_name : CgroupMode → List ℕ
cgroup_mode_name v2 = codes "v2"
cgroup_mode_name v1 = codes "v1"
cgroup_mode_name v1_no_devices = codes "v1-nodev"
cgroup_mode_name unknown = codes "unknown"

unfoldable pub launch_mode_name : LaunchMode → List ℕ
launch_mode_name compat = codes "compat"
launch_mode_name systemd = codes "systemd"

-- The result is `*allow_fallback`.
unfoldable pub parse_launch_policy : Option (List ℕ) → Option Bool
unfolding is_text
parse_launch_policy value =
    if is_null value || (is_text value (codes "strict") || is_text value (codes "off"))
    then some false
    else if is_text value (codes "fallback")
        || (is_text value (codes "compat") || is_text value (codes "allow"))
    then some true
    else none

unfoldable pub is_explicit_launch_policy : Option (List ℕ) → Bool
unfolding is_text
is_explicit_launch_policy value =
    is_text value (codes "strict")
    || (is_text value (codes "fallback")
        || (is_text value (codes "compat") || is_text value (codes "allow")))

unfoldable pub parse_cgroup_mode : Option (List ℕ) → CgroupMode
unfolding is_text
parse_cgroup_mode value =
    if is_text value (codes "v2")
    then v2
    else if is_text value (codes "v1")
    then v1
    else if is_text value (codes "v1-nodev")
    then v1_no_devices
    else unknown

unfoldable pub cgroup_mode_is_legacy : CgroupMode → Bool
cgroup_mode_is_legacy v1 = true
cgroup_mode_is_legacy v1_no_devices = true
cgroup_mode_is_legacy _ = false

unfoldable pub parse_cgroup_policy : Option (List ℕ) → Option CgroupPolicy
unfolding is_text
parse_cgroup_policy value =
    if is_null value || is_text value (codes "auto")
    then some auto
    else if is_text value (codes "v2")
    then some force_v2
    else if is_text value (codes "v1")
    then some force_v1
    else none
