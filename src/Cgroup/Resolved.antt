-- ===== src/Cgroup/Resolved.antt =====
-- What a launch resolves to: its cgroup mode and its mode, and what they promise.
use dawnshell.Prelude.{ℕ, ◌≡◌, refl, Bool, true, false, ◌&&◌, Option, List, arith, if◌then◌else◌}
use dawnshell.Cgroup.Gate.{
  IsGate, IsMissing, devices_controller_available-Ensures, prepare_unified_cgroup_mount-Ensures,
  prepare_devices_cgroup_mount-Ensures, prepare_systemd_cgroup_mount-Ensures,
}
use dawnshell.Cgroup.Kernel.{clone_newpid, unshare, Kernel}
use dawnshell.Cgroup.Launch.{
  Launched, compatibility, pid_namespace_creation_is_unsupported, is_force_v2, is_force_v1,
  prepare_legacy_cgroup_mounts, negotiate_legacy, negotiate_cgroup_mode,
  pid_namespace_entry_is_available, fall_back, unshare_pid, negotiate_launch,
  set_systemd_parent_namespaces,
}
use dawnshell.Cgroup.Prepare.{is_off}
use dawnshell.Cgroup.Run.{done, ⊤, Action, pure}
use dawnshell.Cgroup.Triple.{
  Anywhere, Ensures, any-Ensures, bind-Ensures, skip-Ensures, pure-Ensures, fail-Ensures,
  if-Ensures, raise_again-Ensures, weaken-Ensures, where-Ensures, both_where-Ensures,
  either-Ensures, either_call-Ensures,
}
use dawnshell.Launch.Options.{
  CgroupMode, unknown, v1, v1_no_devices, v2, CgroupPolicy, auto, force_v2, force_v1, systemd,
  compat, HostUsbPolicy,
}
use dawnshell.Sandbox.Programs.{Abi}

module _ (K : Kernel) (control_dir : List ℕ) (Gate Missing : K.World → Type 0) where
  open K use {World}

  -- A cgroup mode fits the policy; a policy that denies USB devices has its gate, except where the
  -- kernel was found to have no controller for devices, where no other policy is accepted.
  abbrev pub IsNegotiated : CgroupPolicy → HostUsbPolicy → World → CgroupMode → Type 0
  IsNegotiated policy usb w v2 = (is_force_v1 policy ≡ false) × (is_off usb ≡ true → Gate w)
  IsNegotiated policy usb w v1 = (is_force_v2 policy ≡ false) × (is_off usb ≡ true → Gate w)
  IsNegotiated policy usb w v1_no_devices =
      (is_force_v2 policy ≡ false) × (is_off usb ≡ true) × Missing w
  IsNegotiated policy usb w unknown = ⊥

  abbrev pub IsLaunched : CgroupPolicy → HostUsbPolicy → Bool → World → Launched → Type 0
  IsLaunched policy usb allow_fallback w l = elim l.launch_mode [
    | systemd ↦ IsNegotiated policy usb w l.resolved_mode
    | compat ↦ (allow_fallback ≡ true) × (l.resolved_mode ≡ unknown)
  ]

  module _ (h : IsGate K control_dir Gate) (m : IsMissing K Missing) where
    weaken_pre :
        {A : Type 0} {P : World → Type 0} {a : Action World A} {Q : World → A → Type 0}
        → Ensures Anywhere a Q
        → Ensures P a Q
    weaken_pre t = record { holds = λ w _. t.holds w tt }

    found_missing :
        {A : Type 0} {b : Bool} {a : Action World A} {Q : World → A → Type 0}
        → b ≡ false
        → Ensures Missing a Q
        → Ensures (λ w. b ≡ false → Missing w) a Q
    found_missing e t = record { holds = λ w k. t.holds w (k e) }

    prepare_legacy_cgroup_mounts-Ensures :
        (policy : CgroupPolicy) (usb : HostUsbPolicy)
        → is_force_v2 policy ≡ false
        → Ensures Anywhere
            (prepare_legacy_cgroup_mounts K control_dir usb)
            (IsNegotiated policy usb)
    unfolding prepare_legacy_cgroup_mounts
    prepare_legacy_cgroup_mounts-Ensures policy usb legacy =
        bind-Ensures (λ w available. available ≡ false → Missing w)
          (devices_controller_available-Ensures K m)
          (λ available.
            if-Ensures available
              (λ _.
                bind-Ensures (λ w _. is_off usb ≡ true → Gate w)
                  (weaken_pre (
                    where-Ensures (is_off usb)
                      (prepare_devices_cgroup_mount-Ensures K control_dir Gate h usb)))
                  (λ _.
                    bind-Ensures (λ w _. is_off usb ≡ true → Gate w)
                      (both_where-Ensures (is_off usb)
                        (prepare_systemd_cgroup_mount-Ensures K control_dir h.lasting))
                      (λ _. pure-Ensures v1 (λ w gate. (legacy, gate)))))
              (λ none_is_there.
                if-Ensures (is_off usb)
                  (λ denied.
                    bind-Ensures (λ w _. Missing w)
                      (found_missing none_is_there
                        (prepare_systemd_cgroup_mount-Ensures K control_dir m.lasting))
                      (λ _. pure-Ensures v1_no_devices (λ w missing. (legacy, denied, missing))))
                  (λ _. fail-Ensures _ _)))

    negotiate_legacy-Ensures :
        (policy : CgroupPolicy) (usb : HostUsbPolicy)
        → is_force_v2 policy ≡ false
        → Ensures Anywhere (negotiate_legacy K control_dir usb) (IsNegotiated policy usb)
    unfolding negotiate_legacy
    negotiate_legacy-Ensures policy usb legacy =
        either-Ensures (IsNegotiated policy usb)
          (prepare_legacy_cgroup_mounts-Ensures policy usb legacy)
          (λ mode. pure-Ensures mode (λ w n. n)) (λ e. skip-Ensures _ (λ _. raise_again-Ensures e))

    negotiate_cgroup_mode-Ensures :
        (policy : CgroupPolicy) (usb : HostUsbPolicy)
        → Ensures Anywhere
            (negotiate_cgroup_mode K control_dir policy usb)
            (IsNegotiated policy usb)
    unfolding negotiate_cgroup_mode
    negotiate_cgroup_mode-Ensures policy usb =
        if-Ensures (is_force_v1 policy)
          (λ forced. negotiate_legacy-Ensures policy usb (v2_of_v1 policy forced))
          (λ free.
            either-Ensures (λ w _. is_off usb ≡ true → Gate w)
              (where-Ensures (is_off usb)
                (prepare_unified_cgroup_mount-Ensures K control_dir Gate h usb))
              (λ _. pure-Ensures v2 (λ w gate. (free, gate)))
              (λ e. skip-Ensures _ (λ _.
                if-Ensures (is_force_v2 policy) (λ _. fail-Ensures _ _)
                  (λ legacy. negotiate_legacy-Ensures policy usb legacy))))
      where
        v2_of_v1 : (policy : CgroupPolicy) → is_force_v1 policy ≡ true → is_force_v2 policy ≡ false
        v2_of_v1 auto e = refl
        v2_of_v1 force_v2 e = cc
        v2_of_v1 force_v1 e = refl

    fall_back-Ensures :
        (policy : CgroupPolicy) (usb : HostUsbPolicy) (allow_fallback : Bool) {P : World → Type 0}
        → allow_fallback ≡ true
        → Ensures P (fall_back K control_dir) (IsLaunched policy usb allow_fallback)
    unfolding fall_back
    fall_back-Ensures policy usb allow_fallback allowed =
        skip-Ensures _
          (λ _. skip-Ensures _ (λ _. skip-Ensures _ (λ _. pure-Ensures _ (λ w _. (allowed, refl)))))

    unshared :
        (policy : CgroupPolicy) (usb : HostUsbPolicy) (mode : CgroupMode) (w : World)
        → IsNegotiated policy usb w mode
        → IsNegotiated policy usb (K.call (unshare clone_newpid) w).0 mode
    unshared policy usb v2 w n = (n.0, λ e. h.lasting.unshare_keeps clone_newpid w (n.1 e))
    unshared policy usb v1 w n = (n.0, λ e. h.lasting.unshare_keeps clone_newpid w (n.1 e))
    unshared policy usb v1_no_devices w n = (n.0, n.1, m.lasting.unshare_keeps clone_newpid w n.2)
    unshared policy usb unknown w n = n

    unshare_pid-Ensures :
        (policy : CgroupPolicy) (usb : HostUsbPolicy) (allow_fallback : Bool) (mode : CgroupMode)
        → Ensures
            (λ w. IsNegotiated policy usb w mode)
            (unshare_pid K control_dir allow_fallback mode)
            (IsLaunched policy usb allow_fallback)
    unfolding unshare_pid
    unshare_pid-Ensures policy usb allow_fallback mode =
        either_call-Ensures K (λ w. IsNegotiated policy usb w mode) (unshare clone_newpid)
          (λ w n. unshared policy usb mode w n) (pure-Ensures _ (λ w n. n))
          (λ errno.
            if-Ensures (allow_fallback && pid_namespace_creation_is_unsupported errno)
              (λ both. fall_back-Ensures policy usb allow_fallback (ground arith))
              (λ _. fail-Ensures _ _))

    negotiate_launch-Ensures :
        (policy : CgroupPolicy) (usb : HostUsbPolicy) (allow_fallback : Bool)
        → Ensures Anywhere
            (negotiate_launch K control_dir policy usb allow_fallback)
            (IsLaunched policy usb allow_fallback)
    unfolding negotiate_launch
    negotiate_launch-Ensures policy usb allow_fallback =
        either-Ensures (IsNegotiated policy usb) (negotiate_cgroup_mode-Ensures policy usb)
          (λ mode. unshare_pid-Ensures policy usb allow_fallback mode)
          (λ e.
            if-Ensures allow_fallback
              (λ allowed. fall_back-Ensures policy usb allow_fallback allowed)
              (λ _. raise_again-Ensures e))

    launch-Ensures :
        (abi : Option Abi) (policy : CgroupPolicy) (usb : HostUsbPolicy) (allow_fallback : Bool)
        → Ensures Anywhere
            (set_systemd_parent_namespaces K abi control_dir policy usb allow_fallback)
            (IsLaunched policy usb allow_fallback)
    unfolding set_systemd_parent_namespaces
    launch-Ensures abi policy usb allow_fallback = skip-Ensures _ (λ _. skip-Ensures _ (λ _.
        bind-Ensures (λ w available. available ≡ false → allow_fallback ≡ true)
          (availability allow_fallback)
          (λ available.
            if-Ensures available
              (λ _. weaken_pre (negotiate_launch-Ensures policy usb allow_fallback))
              (λ missing. pure-Ensures compatibility (λ w k. (k missing, refl))))))
      where
        availability :
            (allow_fallback : Bool)
            → Ensures Anywhere
                (if allow_fallback then pid_namespace_entry_is_available K else pure true)
                (λ w available. available ≡ false → allow_fallback ≡ true)
        availability true = weaken-Ensures (λ w a. ⊤) (λ w a _ _. refl) (any-Ensures _)
        availability false = pure-Ensures true (λ w _ e. cc)

    -- A launch that is set up is what was asked for, whatever the kernel answers: in the
    -- compatibility mode only if the fallback is allowed, then without a cgroup mode; otherwise
    -- with a cgroup mode that the policy does not exclude, and, where USB devices are denied, with
    -- the gate, or with the mode for kernels that have no controller for devices, which no other
    -- USB policy gets, and only a kernel whose /proc/cgroups was found to show no such controller.
    -- The gate is whatever attaching the program that denies the devices, or writing the rule, brings
    -- about, and making directories, mounts and namespaces keeps; likewise what the reading shows. Of
    -- the devices nothing is said in the compatibility mode, which no USB policy excludes.
    pub set_systemd_parent_namespaces-IsLaunched :
        (abi : Option Abi) (policy : CgroupPolicy) (usb : HostUsbPolicy) (allow_fallback : Bool)
        (w w' : World) (l : Launched)
        → set_systemd_parent_namespaces K abi control_dir policy usb allow_fallback w ≡ (w', done l)
        → IsLaunched policy usb allow_fallback w' l
    set_systemd_parent_namespaces-IsLaunched abi policy usb allow_fallback w w' l e =
        rw e at ((launch-Ensures abi policy usb allow_fallback).holds w tt)
