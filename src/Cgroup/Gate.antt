-- ===== src/Cgroup/Gate.antt =====
-- What stands between Debian and Android's USB devices after the hierarchies are prepared.
use Prim.Native.String.{String}
use dawnshell.Prelude.{
  ℕ, ◌≡◌, refl, ◌⊎◌, inl, inr, true, false, Option, none, some, List, ◌==◌, if◌then◌else◌, codes,
}
use dawnshell.Cgroup.Controllers.{devices_available}
use dawnshell.Cgroup.Device.{deny_program}
use dawnshell.Cgroup.Directory.{is_dir, ensure_directory_path}
use dawnshell.Cgroup.Kernel.{
  MountFlag, CloneFlag, mount, mkdir, write_value, unshare, bpf_attach, FileStat, Kernel, enoent,
}
use dawnshell.Cgroup.Paths.{
  joined_path, devices_cgroup_mount_name, delegated_cgroup_paths, unified_cgroup_paths,
}
use dawnshell.Cgroup.Prepare.{
  deny_value, is_off, write_cgroup_value, deny_usb_v2, apply_host_usb_v2_policy,
  prepare_unified_cgroup_mount, prepare_systemd_cgroup_mount, devices_controller_available,
  deny_usb_v1, prepare_devices_cgroup_mount,
}
use dawnshell.Cgroup.Run.{⊤, pure, fail, attempt, require}
use dawnshell.Cgroup.Triple.{
  Anywhere, Ensures, any-Ensures, bind-Ensures, skip-Ensures, or_fail-Ensures, pure-Ensures,
  fail-Ensures, if-Ensures, look-Ensures, require-Ensures,
}
use dawnshell.Launch.Options.{HostUsbPolicy}

-- What lasts while directories, mounts and namespaces are made.
pub record IsLasting (K : Kernel) (Fact : K.World → Type 0) : Type 0 where
  pub lstat_keeps : (path : List ℕ) (w : K.World) → Fact w → Fact (K.lstat path w).0
  pub mkdir_keeps :
      (path : List ℕ) (mode : ℕ) (w : K.World) → Fact w → Fact (K.call (mkdir path mode) w).0
  pub mount_keeps :
      (source : Option (List ℕ)) (path : List ℕ) (fs : Option (List ℕ)) (flags : List MountFlag)
      (options : Option (List ℕ)) (w : K.World)
      → Fact w
      → Fact (K.call (mount source path fs flags options) w).0
  pub unshare_keeps : (flag : CloneFlag) (w : K.World) → Fact w → Fact (K.call (unshare flag) w).0

-- What /proc/cgroups says of a kernel without a controller for devices: it cannot be read, or it has no
-- row that names the controller and says that it is enabled.
abbrev pub HasNoController : ℕ ⊎ List ℕ → Type 0
HasNoController (inl errno) = Unit {0}
HasNoController (inr contents) = devices_available contents ≡ false

-- `Missing` is what such a reading of /proc/cgroups shows of the kernel.
pub record IsMissing (K : Kernel) (Missing : K.World → Type 0) : Type 0 where
  pub was_read :
      (w : K.World)
      → HasNoController (K.read (codes "/proc/cgroups") 4095 w).1
      → Missing (K.read (codes "/proc/cgroups") 4095 w).0
  pub lasting : IsLasting K Missing

-- `Gate` is what denying USB devices brings about: attaching the program to the delegated payload, or
-- writing the rule to the delegated child. It lasts while directories, mounts and namespaces are made.
pub record IsGate (K : Kernel) (control_dir : List ℕ) (Gate : K.World → Type 0) : Type 0 where
  pub attached :
      (mount_path child_path payload_path : List ℕ) (w : K.World)
      → unified_cgroup_paths control_dir ≡ some (mount_path, child_path, payload_path)
      → (K.call (bpf_attach payload_path deny_program) w).1 ≡ none
      → Gate (K.call (bpf_attach payload_path deny_program) w).0
  pub written :
      (mount_path child_path deny_path : List ℕ) (w : K.World)
      → delegated_cgroup_paths control_dir devices_cgroup_mount_name ≡ some (mount_path, child_path)
      → joined_path child_path (codes "devices.deny") ≡ some deny_path
      → (K.call (write_value deny_path deny_value) w).1 ≡ none
      → Gate (K.call (write_value deny_path deny_value) w).0
  pub lasting : IsLasting K Gate

module _ (K : Kernel) (control_dir : List ℕ) (Gate : K.World → Type 0)
    (h : IsGate K control_dir Gate) where
  open K use {World}

  abbrev Gated : {A : Type 0} → World → A → Type 0
  Gated w a = Gate w

  deny_usb_v2-Ensures :
      (mount_path child_path payload_path : List ℕ)
      → unified_cgroup_paths control_dir ≡ some (mount_path, child_path, payload_path)
      → Ensures Anywhere (deny_usb_v2 K payload_path) Gated
  unfolding deny_usb_v2
  deny_usb_v2-Ensures m c p e =
      skip-Ensures _
        (λ _. skip-Ensures _ (λ _. require-Ensures K _ _ _ (λ w _ ok. h.attached m c p w e ok)))

  pub prepare_unified_cgroup_mount-Ensures :
      (usb : HostUsbPolicy)
      → is_off usb ≡ true
      → Ensures Anywhere (prepare_unified_cgroup_mount K control_dir usb) Gated
  unfolding prepare_unified_cgroup_mount apply_host_usb_v2_policy
  prepare_unified_cgroup_mount-Ensures usb is_denied = or_fail-Ensures _ _ _ (λ (m, c, p) e.
      skip-Ensures _ (λ _. skip-Ensures _ (λ _. skip-Ensures _ (λ _. skip-Ensures _ (λ _.
        skip-Ensures _ (λ _. skip-Ensures _ (λ _. rw is_denied (deny_usb_v2-Ensures m c p e))))))))

  write_deny-Ensures :
      (mount_path child_path deny_path : List ℕ)
      → delegated_cgroup_paths control_dir devices_cgroup_mount_name ≡ some (mount_path, child_path)
      → joined_path child_path (codes "devices.deny") ≡ some deny_path
      → Ensures Anywhere
          (write_cgroup_value K deny_path deny_value)
          (λ w errno. errno ≡ none → Gate w)
  unfolding write_cgroup_value attempt
  write_deny-Ensures m c p e f = bind-Ensures (λ w a. ⊤) (any-Ensures _) opened_lem
    where
      opened_lem :
          (opened : Option ℕ)
          → Ensures Anywhere
              (elim opened [
                | none ↦ attempt K (write_value p deny_value)
                | some errno ↦ pure (some errno)
              ])
              (λ w errno. errno ≡ none → Gate w)
      opened_lem none = look-Ensures _ (λ w _ ok. h.written m c p w e f ok)
      opened_lem (some errno) = pure-Ensures _ (λ w _ bad. cc)

  deny_usb_v1-Ensures :
      (mount_path child_path : List ℕ)
      → delegated_cgroup_paths control_dir devices_cgroup_mount_name ≡ some (mount_path, child_path)
      → Ensures Anywhere (deny_usb_v1 K child_path) Gated
  unfolding deny_usb_v1
  deny_usb_v1-Ensures m c e = or_fail-Ensures _ _ _ (λ p f.
      bind-Ensures (λ w errno. errno ≡ none → Gate w) (write_deny-Ensures m c p e f) written_lem)
    where
      written_lem :
          (written : Option ℕ)
          → Ensures
              (λ w. written ≡ none → Gate w)
              (elim written [ none ↦ pure tt | some errno ↦ fail "host_usb_v1_deny" 118 ])
              Gated
      written_lem none = pure-Ensures _ (λ w k. k refl)
      written_lem (some errno) = fail-Ensures _ _

  pub prepare_devices_cgroup_mount-Ensures :
      (usb : HostUsbPolicy)
      → is_off usb ≡ true
      → Ensures Anywhere (prepare_devices_cgroup_mount K control_dir usb) Gated
  unfolding prepare_devices_cgroup_mount
  prepare_devices_cgroup_mount-Ensures usb is_denied = or_fail-Ensures _ _ _ (λ (m, c) e.
      skip-Ensures _ (λ _. skip-Ensures _ (λ _. skip-Ensures _ (λ _.
        skip-Ensures _ (λ _. skip-Ensures _ (λ _. rw is_denied (deny_usb_v1-Ensures m c e)))))))

module _ (K : Kernel) (control_dir : List ℕ) {Fact : K.World → Type 0} (h : IsLasting K Fact) where
  open K use {World}

  abbrev Lasts : {A : Type 0} → World → A → Type 0
  Lasts w a = Fact w

  ensure_directory_path-Ensures :
      (path : List ℕ) (mode : ℕ) (stage : String)
      → Ensures Fact (ensure_directory_path K path mode stage) Lasts
  unfolding ensure_directory_path
  ensure_directory_path-Ensures path mode stage =
      bind-Ensures Lasts (look-Ensures _ (h.lstat_keeps path)) found_lem
    where
      found_lem :
          (found : ℕ ⊎ FileStat)
          → Ensures Fact
              (elim found [
                | inr s ↦ if is_dir s then pure tt else fail stage 44
                | inl errno ↦
                    if errno == enoent then require K (mkdir path mode) stage 44 else fail stage 44
              ])
              Lasts
      found_lem (inr s) =
          if-Ensures (is_dir s) (λ _. pure-Ensures _ (λ w g. g)) (λ _. fail-Ensures _ _)
      found_lem (inl errno) =
          if-Ensures (errno == enoent)
            (λ _. require-Ensures K _ _ _ (λ w g _. h.mkdir_keeps path mode w g))
            (λ _. fail-Ensures _ _)

  -- Mounting the hierarchy of systemd keeps what lasts.
  pub prepare_systemd_cgroup_mount-Ensures :
      Ensures Fact (prepare_systemd_cgroup_mount K control_dir) Lasts
  unfolding prepare_systemd_cgroup_mount
  prepare_systemd_cgroup_mount-Ensures = or_fail-Ensures _ _ _ (λ (m, c) e.
      bind-Ensures Lasts (ensure_directory_path-Ensures m _ _) (λ _.
        bind-Ensures Lasts (require-Ensures K _ _ _ (λ w g _. h.mount_keeps _ m _ _ _ w g))
          (λ _. ensure_directory_path-Ensures c _ _)))

module _ (K : Kernel) {Missing : K.World → Type 0} (h : IsMissing K Missing) where
  open K use {World}

  -- What was read, where it says that there is no controller.
  abbrev Reading : World → ℕ ⊎ List ℕ → Type 0
  Reading w found = HasNoController found → Missing w

  -- Where the test says that there is no controller, that was read.
  pub devices_controller_available-Ensures :
      Ensures Anywhere
        (devices_controller_available K)
        (λ w available. available ≡ false → Missing w)
  unfolding devices_controller_available
  devices_controller_available-Ensures =
      bind-Ensures Reading (look-Ensures _ (λ w _. h.was_read w)) found_lem
    where
      found_lem :
          (found : ℕ ⊎ List ℕ)
          → Ensures
              (λ w. Reading w found)
              (elim found [ inl errno ↦ pure false | inr bytes ↦ pure (devices_available bytes) ])
              (λ w available. available ≡ false → Missing w)
      found_lem (inl errno) = pure-Ensures _ (λ w k e. k tt)
      found_lem (inr bytes) = pure-Ensures _ (λ w k e. k e)
