-- ===== src/Launch/Checked.antt =====
-- What `main` runs: no launch on options that were not checked.
use mathlib.Core.Path.{subst}
use dawnshell.Prelude.{
  ℕ, ◌≡◌, refl, ◌≢◌, inl, inr, Bool, true, false, ◌&&◌, Option, none, some, List, [], ◌∷◌, arith,
  ◌==◌, if◌then◌else◌, if-cases, length,
}
use dawnshell.Launch.Command.{
  StartOptions, StartError, StartResult, refused, accepted, require, is_exclusive, check_exclusive,
  parse_values, parse_start_options, Command, run_probe, run_compat_probe, run_start, run_restart,
  run_status, run_health, run_stop, run_force_stop, run_shutdown_test, run_codec_long_run,
  fail_message, usage, on_accepted, main3, main4, main5, main_start, main,
}
use dawnshell.Launch.Options.{
  HostUsbPolicy, off, direct, exclusive, parse_host_usb_policy, parse_launch_policy,
  parse_cgroup_policy,
}
use dawnshell.Launch.Written.{IsStartOptions}
use dawnshell.Usb.Accepted.{parse_usb_device_filter-IsUsbDeviceFilter}
use dawnshell.Usb.Filter.{UsbDeviceFilter, parse_usb_device_filter}
use dawnshell.Usb.RoundTrip.{IsUsbDeviceFilter}

require-accepted :
    {A : Type 0} (value : Option A) (e : StartError) (f : A → StartResult) (o : StartOptions)
    → require value e f ≡ accepted o
    → (a : A) × (value ≡ some a) × (f a ≡ accepted o)
require-accepted none e f o h = cc
require-accepted (some a) e f o h = (a, refl, h)

exclusive-ne :
    (u : HostUsbPolicy) (filter : UsbDeviceFilter)
    → (is_exclusive u && length filter == 0) ≡ false
    → u ≡ exclusive
    → filter ≢ []
exclusive-ne off filter h u e = cc
exclusive-ne direct filter h u e = cc
exclusive-ne exclusive [] h u e = cc
exclusive-ne exclusive (x ∷ filter) h u e = cc

accepted-injective : (o o' : StartOptions) → accepted o ≡ accepted o' → o ≡ o'
accepted-injective o o' e = cc

check_exclusive-accepted :
    (o o' : StartOptions)
    → IsUsbDeviceFilter o.usb_device_filter
    → check_exclusive o ≡ accepted o'
    → IsStartOptions o'
unfolding check_exclusive
check_exclusive-accepted o o' h e =
    elim (if-cases (is_exclusive o.host_usb_policy && length o.usb_device_filter == 0) _ _ _ e) [
      | inl (_, bad) ↦ cc
      | inr (ok_test, e') ↦ subst IsStartOptions (accepted-injective o o' e') (record {
        filter = h;
        has_device = exclusive-ne o.host_usb_policy o.usb_device_filter ok_test;
      })
    ]

parse_values-accepted :
    (cgroup launch usb filter : List ℕ) (o : StartOptions)
    → parse_values cgroup launch usb filter ≡ accepted o
    → IsStartOptions o
unfolding parse_values
parse_values-accepted cgroup launch usb filter o e =
    let (_, _, e1) = require-accepted (parse_cgroup_policy (some cgroup)) _ _ o e in
    let (_, _, e2) = require-accepted (parse_launch_policy (some launch)) _ _ o e1 in
    let (_, _, e3) = require-accepted (parse_host_usb_policy (some usb)) _ _ o e2 in
    let (f, parsed, e4) = require-accepted (parse_usb_device_filter (some filter)) _ _ o e3 in
    check_exclusive-accepted _ o (parse_usb_device_filter-IsUsbDeviceFilter (some filter) f parsed)
      e4

-- The operation does not start Debian, or it starts it with checked options.
pub IsChecked : Command → Type 0
IsChecked (run_start a b c o) = IsStartOptions o
IsChecked (run_restart a b c o) = IsStartOptions o
IsChecked _ = Unit {0}

abbrev is_launch : Command → Bool
is_launch (run_start a b c o) = true
is_launch (run_restart a b c o) = true
is_launch _ = false

other-IsChecked : (c : Command) → is_launch c ≡ false → IsChecked c
unfolding IsChecked
other-IsChecked (run_probe a) e = tt
other-IsChecked (run_compat_probe a) e = tt
other-IsChecked (run_start a b c o) e = cc
other-IsChecked (run_restart a b c o) e = cc
other-IsChecked (run_status a b) e = tt
other-IsChecked (run_health a b) e = tt
other-IsChecked (run_stop a b) e = tt
other-IsChecked (run_force_stop a b) e = tt
other-IsChecked (run_shutdown_test a b c) e = tt
other-IsChecked (run_codec_long_run a b c) e = tt
other-IsChecked (fail_message m) e = tt
other-IsChecked usage e = tt

launch-IsChecked :
    (a b c : List ℕ) (o : StartOptions)
    → IsStartOptions o
    → IsChecked (run_start a b c o) × IsChecked (run_restart a b c o)
unfolding IsChecked
launch-IsChecked a b c o h = (h, h)

parse_start_options-accepted :
    (args : List (List ℕ)) (o : StartOptions)
    → parse_start_options args ≡ accepted o
    → IsStartOptions o
unfolding parse_start_options
parse_start_options-accepted args o e = parse_values-accepted _ _ _ _ o e

on_accepted-IsChecked :
    (r : StartResult) (call : StartOptions → Command)
    → ((o : StartOptions) → r ≡ accepted o → IsChecked (call o))
    → IsChecked (on_accepted r call)
on_accepted-IsChecked (refused e) call h = other-IsChecked _ refl
on_accepted-IsChecked (accepted o) call h = h o refl

if-IsChecked :
    (t : Bool) (x y : Command) → IsChecked x → IsChecked y → IsChecked (if t then x else y)
if-IsChecked true x y h k = h
if-IsChecked false x y h k = k

main_start-IsChecked :
    (name a b c : List ℕ) (args : List (List ℕ)) (otherwise : Command)
    → IsChecked otherwise
    → IsChecked (main_start name a b c args otherwise)
main_start-IsChecked name a b c args otherwise h =
    if-IsChecked _ _ _
      (on_accepted-IsChecked _ (run_start a b c)
        (λ o e. (launch-IsChecked a b c o (parse_start_options-accepted args o e)).0))
      (if-IsChecked _ _ _
        (on_accepted-IsChecked _ (run_restart a b c)
          (λ o e. (launch-IsChecked a b c o (parse_start_options-accepted args o e)).1))
        h)

-- Whatever its arguments, the launcher starts or restarts Debian only with a device filter of at most
-- 32 distinct identifiers, which is not empty if host USB devices are taken exclusively.
pub main-IsChecked : (argv : List (List ℕ)) → IsChecked (main argv)
unfolding main
main-IsChecked (p ∷ name ∷ a ∷ []) = other-IsChecked (main3 name a) (ground arith)
main-IsChecked (p ∷ name ∷ a ∷ b ∷ []) = other-IsChecked (main4 name a b) (ground arith)
main-IsChecked (p ∷ name ∷ a ∷ b ∷ c ∷ []) =
    main_start-IsChecked name a b c [] _ (other-IsChecked (main5 name a b c) (ground arith))
main-IsChecked (p ∷ name ∷ a ∷ b ∷ c ∷ x ∷ args) =
    main_start-IsChecked name a b c (x ∷ args) usage (other-IsChecked usage refl)
main-IsChecked [] = other-IsChecked _ refl
main-IsChecked (p ∷ []) = other-IsChecked _ refl
main-IsChecked (p ∷ name ∷ []) = other-IsChecked _ refl
