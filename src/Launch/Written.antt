-- ===== src/Launch/Written.antt =====
-- The options of a launch, written as arguments, are parsed as they were written.
use dawnshell.Prelude.{
  ℕ, ◌≡◌, refl, ◌≢◌, Bool, true, false, ◌&&◌, some, List, [], ◌∷◌, arith, ◌==◌, codes, str_eq,
  length,
}
use dawnshell.Launch.Agreement.{parse_host_usb_policy-name}
use dawnshell.Launch.Command.{
  StartOptions, accepted, is_exclusive, check_exclusive, parse_values, parse_start_options,
}
use dawnshell.Launch.Options.{
  CgroupPolicy, auto, force_v2, force_v1, HostUsbPolicy, off, direct, exclusive, is_text,
  host_usb_policy_name, parse_launch_policy, is_explicit_launch_policy, parse_cgroup_policy,
}
use dawnshell.Usb.Filter.{UsbDeviceFilter}
use dawnshell.Usb.Notation.{show_filter}
use dawnshell.Usb.RoundTrip.{IsUsbDeviceFilter, parse_usb_device_filter-show}

-- Options that a launch may rely on.
pub record IsStartOptions (o : StartOptions) : Type 0 where
  pub filter : IsUsbDeviceFilter o.usb_device_filter
  pub has_device : o.host_usb_policy ≡ exclusive → o.usb_device_filter ≢ []

-- The values on the command line.
abbrev pub cgroup_policy_name : CgroupPolicy → List ℕ
cgroup_policy_name auto = codes "auto"
cgroup_policy_name force_v2 = codes "v2"
cgroup_policy_name force_v1 = codes "v1"

abbrev pub launch_policy_name : Bool → List ℕ
launch_policy_name true = codes "fallback"
launch_policy_name false = codes "strict"

abbrev pub option_arguments : StartOptions → List (List ℕ)
option_arguments o =
    cgroup_policy_name o.policy
    ∷ launch_policy_name o.allow_fallback
    ∷ host_usb_policy_name o.host_usb_policy
    ∷ show_filter o.usb_device_filter
    ∷ []

-- The launch policy may be left out of a strict launch.
abbrev pub strict_arguments : StartOptions → List (List ℕ)
strict_arguments o =
    cgroup_policy_name o.policy
    ∷ host_usb_policy_name o.host_usb_policy
    ∷ show_filter o.usb_device_filter
    ∷ []

parse_cgroup_policy-name :
    (p : CgroupPolicy) → parse_cgroup_policy (some (cgroup_policy_name p)) ≡ some p
unfolding parse_cgroup_policy is_text str_eq
parse_cgroup_policy-name auto = refl
parse_cgroup_policy-name force_v2 = refl
parse_cgroup_policy-name force_v1 = refl

parse_launch_policy-name :
    (b : Bool)
    → (is_explicit_launch_policy (some (launch_policy_name b)) ≡ true)
      × (parse_launch_policy (some (launch_policy_name b)) ≡ some b)
unfolding parse_launch_policy is_explicit_launch_policy is_text str_eq
parse_launch_policy-name true = (refl, refl)
parse_launch_policy-name false = (refl, refl)

is_explicit_launch_policy-usb :
    (u : HostUsbPolicy) → is_explicit_launch_policy (some (host_usb_policy_name u)) ≡ false
unfolding is_explicit_launch_policy is_text str_eq host_usb_policy_name
is_explicit_launch_policy-usb off = refl
is_explicit_launch_policy-usb direct = refl
is_explicit_launch_policy-usb exclusive = refl

exclusive-false :
    (u : HostUsbPolicy) (filter : UsbDeviceFilter)
    → (u ≡ exclusive → filter ≢ [])
    → (is_exclusive u && length filter == 0) ≡ false
exclusive-false off filter h = refl
exclusive-false direct filter h = refl
exclusive-false exclusive [] h = absurd (h refl refl)
exclusive-false exclusive (e ∷ filter) h = ground arith

check_exclusive-IsStartOptions :
    (o : StartOptions) → IsStartOptions o → check_exclusive o ≡ accepted o
unfolding check_exclusive
check_exclusive-IsStartOptions o h =
    rw (exclusive-false o.host_usb_policy o.usb_device_filter h.has_device) refl

parse_values-names :
    (o : StartOptions)
    → IsStartOptions o
    → parse_values
        (cgroup_policy_name o.policy)
        (launch_policy_name o.allow_fallback)
        (host_usb_policy_name o.host_usb_policy)
        (show_filter o.usb_device_filter)
      ≡ accepted o
unfolding parse_values
parse_values-names o h = rw (parse_cgroup_policy-name o.policy) (
    rw (parse_launch_policy-name o.allow_fallback).1 (
      rw (parse_host_usb_policy-name o.host_usb_policy) (
        rw (parse_usb_device_filter-show o.usb_device_filter h.filter)
          (check_exclusive-IsStartOptions o h))))

-- A launch that is written out in full, or without its launch policy when that is the strict one, is
-- parsed as it was written.
pub parse_start_options-arguments :
    (o : StartOptions)
    → IsStartOptions o
    → (parse_start_options (option_arguments o) ≡ accepted o)
      × (parse_start_options (strict_arguments o) ≡ accepted (record o { allow_fallback = false }))
unfolding parse_start_options
parse_start_options-arguments o h = (
  rw (parse_launch_policy-name o.allow_fallback).0 (parse_values-names o h),
  rw (is_explicit_launch_policy-usb o.host_usb_policy) (
      parse_values-names (record o { allow_fallback = false })
        (record { filter = h.filter; has_device = h.has_device })),
)
