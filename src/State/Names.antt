-- ===== src/State/Names.antt =====
-- The names and texts of the fields that `write_state` writes: their lengths, and that each name is found.
use dawnshell.Prelude.{
  ℕ, ◌+◌, ◌*◌, ◌≤◌, ◌≡◌, refl, true, some, List, [], ◌∷◌, ◌++◌, arith, decimal, length-decimal,
  decimal_ℤ, str_eq, length, length-append, ℤ, pos, negsuc,
}
use dawnshell.Launch.Namespaces.{pid_ns, mnt_ns, uts_ns, ipc_ns, cgroup_ns, net_ns}
use dawnshell.State.Adopted.{IsName, IsWritable}
use dawnshell.State.Fields.{
  Field, SavedState, state_field, cgroup_mode_field, host_usb_mode_field, launch_mode_field,
  supervisor_pid_field, supervisor_start_ticks_field, supervisor_exe_dev_field,
  supervisor_exe_ino_field, init_host_pid_field, init_start_ticks_field, init_exe_dev_field,
  init_exe_ino_field, init_ns_ino_field, wait_status_field, updated_epoch_field, field_name,
  field_text, fields, find_field,
}
use dawnshell.State.File.{state_line, state_lines}
use dawnshell.State.Lines.{lacks, lacks-decimal, lacks-decimal_ℤ}

-- The names hold no equals sign and no line end, and each is found as itself.
unfoldable pub IsFound : Field → Type 0
IsFound f =
    (lacks b'=' (field_name f) ≡ true)
    × (lacks 10 (field_name f) ≡ true)
    × (length (field_name f) ≤ 22)
    × (find_field (field_name f) fields ≡ some f)

pub field-IsFound : (f : Field) → IsFound f
unfolding IsFound field_name lacks find_field str_eq
field-IsFound state_field = (refl, refl, omega arith, refl)
field-IsFound cgroup_mode_field = (refl, refl, omega arith, refl)
field-IsFound host_usb_mode_field = (refl, refl, omega arith, refl)
field-IsFound launch_mode_field = (refl, refl, omega arith, refl)
field-IsFound supervisor_pid_field = (refl, refl, omega arith, refl)
field-IsFound supervisor_start_ticks_field = (refl, refl, omega arith, refl)
field-IsFound supervisor_exe_dev_field = (refl, refl, omega arith, refl)
field-IsFound supervisor_exe_ino_field = (refl, refl, omega arith, refl)
field-IsFound init_host_pid_field = (refl, refl, omega arith, refl)
field-IsFound init_start_ticks_field = (refl, refl, omega arith, refl)
field-IsFound init_exe_dev_field = (refl, refl, omega arith, refl)
field-IsFound init_exe_ino_field = (refl, refl, omega arith, refl)
field-IsFound (init_ns_ino_field pid_ns) = (refl, refl, omega arith, refl)
field-IsFound (init_ns_ino_field mnt_ns) = (refl, refl, omega arith, refl)
field-IsFound (init_ns_ino_field uts_ns) = (refl, refl, omega arith, refl)
field-IsFound (init_ns_ino_field ipc_ns) = (refl, refl, omega arith, refl)
field-IsFound (init_ns_ino_field cgroup_ns) = (refl, refl, omega arith, refl)
field-IsFound (init_ns_ino_field net_ns) = (refl, refl, omega arith, refl)
field-IsFound wait_status_field = (refl, refl, omega arith, refl)
field-IsFound updated_epoch_field = (refl, refl, omega arith, refl)

length-decimal_ℤ : (z : ℤ) → length (decimal_ℤ z) ≤ 21
length-decimal_ℤ (pos n) = omega (arith, length-decimal n)
length-decimal_ℤ (negsuc n) = omega (arith, length-decimal (n + 1))

decimal-IsName : (n : ℕ) → IsName 23 (decimal n)
decimal-IsName n = (lacks-decimal 10 n (omega arith), omega (arith, length-decimal n))

-- The texts are short and hold no line end.
pub field_text-IsName : (f : Field) (s : SavedState) → IsWritable s → IsName 23 (field_text f s)
unfolding field_text
field_text-IsName state_field s h = h.state
field_text-IsName cgroup_mode_field s h = (h.cgroup_mode.0, omega (arith, h.cgroup_mode.1))
field_text-IsName host_usb_mode_field s h = (h.host_usb_mode.0, omega (arith, h.host_usb_mode.1))
field_text-IsName launch_mode_field s h = (h.launch_mode.0, omega (arith, h.launch_mode.1))
field_text-IsName supervisor_pid_field s h = decimal-IsName s.launcher.supervisor_pid
field_text-IsName supervisor_start_ticks_field s h =
    decimal-IsName s.launcher.supervisor_start_ticks
field_text-IsName supervisor_exe_dev_field s h = decimal-IsName s.launcher.supervisor_exe_dev
field_text-IsName supervisor_exe_ino_field s h = decimal-IsName s.launcher.supervisor_exe_ino
field_text-IsName init_host_pid_field s h = decimal-IsName s.launcher.init_host_pid
field_text-IsName init_start_ticks_field s h = decimal-IsName s.launcher.init_start_ticks
field_text-IsName init_exe_dev_field s h = decimal-IsName s.launcher.init_exe_dev
field_text-IsName init_exe_ino_field s h = decimal-IsName s.launcher.init_exe_ino
field_text-IsName (init_ns_ino_field n) s h = decimal-IsName (s.launcher.init_ns_ino n)
field_text-IsName wait_status_field s h =
    (lacks-decimal_ℤ s.wait_status, omega (arith, length-decimal_ℤ s.wait_status))
field_text-IsName updated_epoch_field s h =
    (lacks-decimal_ℤ s.updated_epoch, omega (arith, length-decimal_ℤ s.updated_epoch))

pub length-state_line :
    (name value : List ℕ) → length (state_line name value) ≡ length name + length value + 2
unfolding state_line
length-state_line name value =
    omega (arith, length-append name (b'=' ∷ value ++ 10 ∷ []), length-append value (10 ∷ []))

-- A line of a field takes at most 47 bytes.
pub length-state_lines :
    (fs : List Field) (s : SavedState) → IsWritable s → length (state_lines fs s) ≤ length fs * 47
unfolding state_lines IsFound
length-state_lines [] s h = omega arith
length-state_lines (f ∷ fs) s h =
    let (no_equal, no_end, short, found) = field-IsFound f in
    let (no_end', short') = field_text-IsName f s h in
    ground (
      arith,
      short,
      short',
      length-state_line (field_name f) (field_text f s),
      length-append (state_line (field_name f) (field_text f s)) (state_lines fs s),
      length-state_lines fs s h,
    )
