-- ===== src/Launch/Command.antt =====
-- `main` of the launcher, from the arguments to the operation that it runs.
use dawnshell.Prelude.{
  ℕ, Bool, true, false, ◌&&◌, Option, none, some, List, [], ◌∷◌, leb, ◌==◌, if◌then◌else◌, codes,
  str_eq, length, get_elem?, get_or,
}
use dawnshell.Launch.Options.{
  CgroupPolicy, HostUsbPolicy, exclusive, parse_host_usb_policy, parse_launch_policy,
  is_explicit_launch_policy, parse_cgroup_policy,
}
use dawnshell.Sandbox.Bpf.{run}
use dawnshell.Usb.Filter.{UsbDeviceFilter, parse_usb_device_filter}

-- What `start` and `restart` hand to `run_start` and `run_restart` after the three paths.
pub record StartOptions : Type 0 where
  pub policy : CgroupPolicy
  pub allow_fallback : Bool
  pub host_usb_policy : HostUsbPolicy
  pub usb_device_filter : UsbDeviceFilter

-- The message of a refusal, which ends the program with 2.
pub data StartError : Type 0 where
  expected_auto_v2_or_v1 expected_strict_or_fallback : StartError
  expected_off_direct_or_exclusive expected_comma_separated_vid_pid_values : StartError
  exclusive_mode_requires_at_least_one_vid_pid : StartError

pub data StartResult : Type 0 where
  refused : StartError → StartResult
  accepted : StartOptions → StartResult

abbrev pub require {ℓ} : {A : Type ℓ} → Option A → StartError → (A → StartResult) → StartResult
require none e f = refused e
require (some a) e f = f a

abbrev pub is_exclusive : HostUsbPolicy → Bool
is_exclusive exclusive = true
is_exclusive _ = false

-- The last of the tests.
unfoldable pub check_exclusive : StartOptions → StartResult
check_exclusive o =
    if is_exclusive o.host_usb_policy && length o.usb_device_filter == 0
    then refused exclusive_mode_requires_at_least_one_vid_pid
    else accepted o

-- The calls of the four parsers, and the last test.
unfoldable pub parse_values : List ℕ → List ℕ → List ℕ → List ℕ → StartResult
parse_values cgroup_argument launch_argument usb_argument filter_argument =
    require (parse_cgroup_policy (some cgroup_argument)) expected_auto_v2_or_v1 (λ policy.
      require (parse_launch_policy (some launch_argument)) expected_strict_or_fallback (λ fallback.
        require (parse_host_usb_policy (some usb_argument)) expected_off_direct_or_exclusive (λ usb.
          require (parse_usb_device_filter (some filter_argument))
            expected_comma_separated_vid_pid_values
            (λ filter. check_exclusive (record {
              policy = policy;
              allow_fallback = fallback;
              host_usb_policy = usb;
              usb_device_filter = filter;
            })))))

-- The optional arguments, `argv[5]` and on, which `start` and `restart` read alike.
unfoldable pub parse_start_options : List (List ℕ) → StartResult
parse_start_options args =
    let has_launch_argument = is_explicit_launch_policy (get_elem? args 1) in
    parse_values (get_or args 0 (codes "auto"))
      (if has_launch_argument then get_or args 1 [] else codes "strict")
      (if has_launch_argument then get_or args 2 (codes "off") else get_or args 1 (codes "off"))
      (if has_launch_argument then get_or args 3 (codes "-") else get_or args 2 (codes "-"))

-- The call that `main` makes, or its return without one.
pub data Command : Type 0 where
  run_probe run_compat_probe : List ℕ → Command
  run_start run_restart : List ℕ → List ℕ → List ℕ → StartOptions → Command
  run_status run_health run_stop run_force_stop : List ℕ → List ℕ → Command
  run_shutdown_test run_codec_long_run : List ℕ → List ℕ → List ℕ → Command
  fail_message : StartError → Command
  usage : Command

abbrev pub on_accepted : StartResult → (StartOptions → Command) → Command
on_accepted (refused e) run = fail_message e
on_accepted (accepted options) run = run options

-- With three, four and five arguments, `argv[0]` included.
abbrev pub main3 : List ℕ → List ℕ → Command
main3 name a =
    if str_eq name (codes "probe")
    then run_probe a
    else if str_eq name (codes "probe-compat")
    then run_compat_probe a
    else usage

abbrev pub main4 : List ℕ → List ℕ → List ℕ → Command
main4 name a b =
    if str_eq name (codes "status")
    then run_status a b
    else if str_eq name (codes "health")
    then run_health a b
    else if str_eq name (codes "stop")
    then run_stop a b
    else if str_eq name (codes "force-stop")
    then run_force_stop a b
    else usage

abbrev pub main5 : List ℕ → List ℕ → List ℕ → List ℕ → Command
main5 name a b c =
    if str_eq name (codes "shutdown-test")
    then run_shutdown_test a b c
    else if str_eq name (codes "codec-long-run")
    then run_codec_long_run a b c
    else usage

-- `start` and `restart` take up to four arguments more than the three paths.
abbrev pub main_start : List ℕ → List ℕ → List ℕ → List ℕ → List (List ℕ) → Command → Command
main_start name a b c args otherwise =
    if leb (length args) 4 && str_eq name (codes "start")
    then on_accepted (parse_start_options args) (run_start a b c)
    else if leb (length args) 4 && str_eq name (codes "restart")
    then on_accepted (parse_start_options args) (run_restart a b c)
    else otherwise

unfoldable pub main : List (List ℕ) → Command
main (program ∷ name ∷ a ∷ []) = main3 name a
main (program ∷ name ∷ a ∷ b ∷ []) = main4 name a b
main (program ∷ name ∷ a ∷ b ∷ c ∷ []) = main_start name a b c [] (main5 name a b c)
main (program ∷ name ∷ a ∷ b ∷ c ∷ x ∷ args) = main_start name a b c (x ∷ args) usage
main _ = usage
