-- ===== src/State/Adopted.antt =====
-- What a field that `write_state` wrote sets in `read_state`.
use dawnshell.Prelude.{
  ℕ, ◌^◌, ◌≤◌, ◌<◌, ◌≡◌, ap, true, List, if◌then◌else◌, length, take_all, IsI32,
}
use dawnshell.Launch.Namespaces.{Namespace}
use dawnshell.State.Digits.{
  parse_u64-decimal, parse_pid_value-decimal, IsI64, strtoll-decimal_ℤ, atoi-decimal_ℤ,
}
use dawnshell.State.Fields.{
  Field, SavedState, state_field, cgroup_mode_field, host_usb_mode_field, launch_mode_field,
  supervisor_pid_field, supervisor_start_ticks_field, supervisor_exe_dev_field,
  supervisor_exe_ino_field, init_host_pid_field, init_start_ticks_field, init_exe_dev_field,
  init_exe_ino_field, init_ns_ino_field, wait_status_field, updated_epoch_field, field_text,
  or_kept, same_namespace, set_field,
}
use dawnshell.State.Lines.{lacks}

-- A text of at most `n` bytes, none of which ends a line.
abbrev pub IsName : ℕ → List ℕ → Type 0
IsName n text = (lacks 10 text ≡ true) × (length text ≤ n)

-- What the fields can hold: texts that fit their arrays, and values of their types, process numbers
-- not negative.
pub record IsWritable (s : SavedState) : Type 0 where
  pub state : IsName 23 s.state
  pub cgroup_mode : IsName 15 s.cgroup_mode
  pub host_usb_mode : IsName 15 s.host_usb_mode
  pub launch_mode : IsName 15 s.launch_mode
  pub supervisor_pid : s.launcher.supervisor_pid < 2 ^ 31
  pub supervisor_start_ticks : s.launcher.supervisor_start_ticks < 2 ^ 64
  pub supervisor_exe_dev : s.launcher.supervisor_exe_dev < 2 ^ 64
  pub supervisor_exe_ino : s.launcher.supervisor_exe_ino < 2 ^ 64
  pub init_host_pid : s.launcher.init_host_pid < 2 ^ 31
  pub init_start_ticks : s.launcher.init_start_ticks < 2 ^ 64
  pub init_exe_dev : s.launcher.init_exe_dev < 2 ^ 64
  pub init_exe_ino : s.launcher.init_exe_ino < 2 ^ 64
  pub init_ns_ino : (n : Namespace) → s.launcher.init_ns_ino n < 2 ^ 64
  pub wait_status : IsI32 s.wait_status
  pub updated_epoch : IsI64 s.updated_epoch

-- The field of `s` in place of that of `t`.
unfoldable pub adopt : Field → SavedState → SavedState → SavedState
adopt state_field s t = record t { state = s.state }
adopt cgroup_mode_field s t = record t { cgroup_mode = s.cgroup_mode }
adopt host_usb_mode_field s t = record t { host_usb_mode = s.host_usb_mode }
adopt launch_mode_field s t = record t { launch_mode = s.launch_mode }
adopt wait_status_field s t = record t { wait_status = s.wait_status }
adopt updated_epoch_field s t = record t { updated_epoch = s.updated_epoch }
adopt (init_ns_ino_field n) s t = record t {
  launcher = record (t.launcher) {
    init_ns_ino =
        λ k. if same_namespace n k then s.launcher.init_ns_ino n else t.launcher.init_ns_ino k;
  };
}
adopt supervisor_pid_field s t = record t {
  launcher = record (t.launcher) { supervisor_pid = s.launcher.supervisor_pid };
}
adopt supervisor_start_ticks_field s t = record t {
  launcher = record (t.launcher) { supervisor_start_ticks = s.launcher.supervisor_start_ticks };
}
adopt supervisor_exe_dev_field s t = record t {
  launcher = record (t.launcher) { supervisor_exe_dev = s.launcher.supervisor_exe_dev };
}
adopt supervisor_exe_ino_field s t = record t {
  launcher = record (t.launcher) { supervisor_exe_ino = s.launcher.supervisor_exe_ino };
}
adopt init_host_pid_field s t = record t {
  launcher = record (t.launcher) { init_host_pid = s.launcher.init_host_pid };
}
adopt init_start_ticks_field s t = record t {
  launcher = record (t.launcher) { init_start_ticks = s.launcher.init_start_ticks };
}
adopt init_exe_dev_field s t = record t {
  launcher = record (t.launcher) { init_exe_dev = s.launcher.init_exe_dev };
}
adopt init_exe_ino_field s t = record t {
  launcher = record (t.launcher) { init_exe_ino = s.launcher.init_exe_ino };
}

pub set_field-text :
    (f : Field) (s t : SavedState) → IsWritable s → set_field f (field_text f s) t ≡ adopt f s t
unfolding set_field field_text adopt
set_field-text state_field s t h = ap (λ v. record t { state = v }) (take_all 23 s.state h.state.1)
set_field-text cgroup_mode_field s t h =
    ap (λ v. record t { cgroup_mode = v }) (take_all 15 s.cgroup_mode h.cgroup_mode.1)
set_field-text host_usb_mode_field s t h =
    ap (λ v. record t { host_usb_mode = v }) (take_all 15 s.host_usb_mode h.host_usb_mode.1)
set_field-text launch_mode_field s t h =
    ap (λ v. record t { launch_mode = v }) (take_all 15 s.launch_mode h.launch_mode.1)
set_field-text wait_status_field s t h =
    ap (λ v. record t { wait_status = v }) (atoi-decimal_ℤ s.wait_status h.wait_status)
set_field-text updated_epoch_field s t h =
    ap (λ v. record t { updated_epoch = v }) (strtoll-decimal_ℤ s.updated_epoch h.updated_epoch)
set_field-text (init_ns_ino_field n) s t h =
    ap
      (λ o. record t {
        launcher = record (t.launcher) {
          init_ns_ino = λ k.
              if same_namespace n k
              then or_kept o (t.launcher.init_ns_ino n)
              else t.launcher.init_ns_ino k;
        };
      })
      (parse_u64-decimal (s.launcher.init_ns_ino n) (h.init_ns_ino n))
set_field-text supervisor_pid_field s t h =
    ap
      (λ o. record t {
        launcher = record (t.launcher) { supervisor_pid = or_kept o t.launcher.supervisor_pid };
      })
      (parse_pid_value-decimal s.launcher.supervisor_pid h.supervisor_pid)
set_field-text supervisor_start_ticks_field s t h =
    ap
      (λ o. record t {
        launcher = record (t.launcher) {
          supervisor_start_ticks = or_kept o t.launcher.supervisor_start_ticks;
        };
      })
      (parse_u64-decimal s.launcher.supervisor_start_ticks h.supervisor_start_ticks)
set_field-text supervisor_exe_dev_field s t h =
    ap
      (λ o. record t {
        launcher = record (t.launcher) {
          supervisor_exe_dev = or_kept o t.launcher.supervisor_exe_dev;
        };
      })
      (parse_u64-decimal s.launcher.supervisor_exe_dev h.supervisor_exe_dev)
set_field-text supervisor_exe_ino_field s t h =
    ap
      (λ o. record t {
        launcher = record (t.launcher) {
          supervisor_exe_ino = or_kept o t.launcher.supervisor_exe_ino;
        };
      })
      (parse_u64-decimal s.launcher.supervisor_exe_ino h.supervisor_exe_ino)
set_field-text init_host_pid_field s t h =
    ap
      (λ o. record t {
        launcher = record (t.launcher) { init_host_pid = or_kept o t.launcher.init_host_pid };
      })
      (parse_pid_value-decimal s.launcher.init_host_pid h.init_host_pid)
set_field-text init_start_ticks_field s t h =
    ap
      (λ o. record t {
        launcher = record (t.launcher) { init_start_ticks = or_kept o t.launcher.init_start_ticks };
      })
      (parse_u64-decimal s.launcher.init_start_ticks h.init_start_ticks)
set_field-text init_exe_dev_field s t h =
    ap
      (λ o. record t {
        launcher = record (t.launcher) { init_exe_dev = or_kept o t.launcher.init_exe_dev };
      })
      (parse_u64-decimal s.launcher.init_exe_dev h.init_exe_dev)
set_field-text init_exe_ino_field s t h =
    ap
      (λ o. record t {
        launcher = record (t.launcher) { init_exe_ino = or_kept o t.launcher.init_exe_ino };
      })
      (parse_u64-decimal s.launcher.init_exe_ino h.init_exe_ino)
