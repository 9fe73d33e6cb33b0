-- ===== src/State/Fields.antt =====
-- The fields of the state file, the text of each, and what `read_state` makes of a text.
use dawnshell.Prelude.{
  ℕ, Bool, Option, none, some, List, [], ◌∷◌, if◌then◌else◌, decimal, decimal_ℤ, codes, str_eq,
  take, ℤ,
}
use dawnshell.Launch.Namespaces.{
  Namespace, pid_ns, mnt_ns, uts_ns, ipc_ns, cgroup_ns, net_ns, LauncherState,
}
use dawnshell.State.Number.{parse_u64, parse_pid_value, strtoll, atoi}

-- `LauncherState`: the fields that the checks on identities read are in `launcher`.
pub record SavedState : Type 0 where
  pub state : List ℕ
  pub cgroup_mode : List ℕ
  pub host_usb_mode : List ℕ
  pub launch_mode : List ℕ
  pub launcher : LauncherState
  pub wait_status : ℤ
  pub updated_epoch : ℤ

pub data Field : Type 0 where
  state_field cgroup_mode_field host_usb_mode_field launch_mode_field : Field
  supervisor_pid_field supervisor_start_ticks_field : Field
  supervisor_exe_dev_field supervisor_exe_ino_field : Field
  init_host_pid_field init_start_ticks_field init_exe_dev_field init_exe_ino_field : Field
  init_ns_ino_field : Namespace → Field
  wait_status_field updated_epoch_field : Field

unfoldable pub field_name : Field → List ℕ
field_name state_field = codes "state"
field_name cgroup_mode_field = codes "cgroup_mode"
field_name host_usb_mode_field = codes "host_usb_mode"
field_name launch_mode_field = codes "launch_mode"
field_name supervisor_pid_field = codes "supervisor_pid"
field_name supervisor_start_ticks_field = codes "supervisor_start_ticks"
field_name supervisor_exe_dev_field = codes "supervisor_exe_dev"
field_name supervisor_exe_ino_field = codes "supervisor_exe_ino"
field_name init_host_pid_field = codes "init_host_pid"
field_name init_start_ticks_field = codes "init_start_ticks"
field_name init_exe_dev_field = codes "init_exe_dev"
field_name init_exe_ino_field = codes "init_exe_ino"
field_name (init_ns_ino_field pid_ns) = codes "init_pid_ns_ino"
field_name (init_ns_ino_field mnt_ns) = codes "init_mnt_ns_ino"
field_name (init_ns_ino_field uts_ns) = codes "init_uts_ns_ino"
field_name (init_ns_ino_field ipc_ns) = codes "init_ipc_ns_ino"
field_name (init_ns_ino_field cgroup_ns) = codes "init_cgroup_ns_ino"
field_name (init_ns_ino_field net_ns) = codes "init_net_ns_ino"
field_name wait_status_field = codes "wait_status"
field_name updated_epoch_field = codes "updated_epoch"

-- What `snprintf` writes behind the equals sign.
unfoldable pub field_text : Field → SavedState → List ℕ
field_text state_field s = s.state
field_text cgroup_mode_field s = s.cgroup_mode
field_text host_usb_mode_field s = s.host_usb_mode
field_text launch_mode_field s = s.launch_mode
field_text supervisor_pid_field s = decimal s.launcher.supervisor_pid
field_text supervisor_start_ticks_field s = decimal s.launcher.supervisor_start_ticks
field_text supervisor_exe_dev_field s = decimal s.launcher.supervisor_exe_dev
field_text supervisor_exe_ino_field s = decimal s.launcher.supervisor_exe_ino
field_text init_host_pid_field s = decimal s.launcher.init_host_pid
field_text init_start_ticks_field s = decimal s.launcher.init_start_ticks
field_text init_exe_dev_field s = decimal s.launcher.init_exe_dev
field_text init_exe_ino_field s = decimal s.launcher.init_exe_ino
field_text (init_ns_ino_field n) s = decimal (s.launcher.init_ns_ino n)
field_text wait_status_field s = decimal_ℤ s.wait_status
field_text updated_epoch_field s = decimal_ℤ s.updated_epoch

-- In the order of the format.
abbrev pub fields : List Field
fields =
    state_field
    ∷ cgroup_mode_field
    ∷ host_usb_mode_field
    ∷ launch_mode_field
    ∷ supervisor_pid_field
    ∷ supervisor_start_ticks_field
    ∷ supervisor_exe_dev_field
    ∷ supervisor_exe_ino_field
    ∷ init_host_pid_field
    ∷ init_start_ticks_field
    ∷ init_exe_dev_field
    ∷ init_exe_ino_field
    ∷ init_ns_ino_field pid_ns
    ∷ init_ns_ino_field mnt_ns
    ∷ init_ns_ino_field uts_ns
    ∷ init_ns_ino_field ipc_ns
    ∷ init_ns_ino_field cgroup_ns
    ∷ init_ns_ino_field net_ns
    ∷ wait_status_field
    ∷ updated_epoch_field
    ∷ []

-- The first name in the chain of `strcmp` that is the name before the equals sign.
unfoldable pub find_field : List ℕ → List Field → Option Field
find_field name [] = none
find_field name (f ∷ fs) =
    let rest = find_field name fs in if str_eq name (field_name f) then some f else rest

-- A number that does not parse leaves the field as it was.
abbrev pub or_kept : Option ℕ → ℕ → ℕ
or_kept none old = old
or_kept (some n) old = n

abbrev pub same_namespace : Namespace → Namespace → Bool
same_namespace a b = str_eq (field_name (init_ns_ino_field a)) (field_name (init_ns_ino_field b))

-- The texts are cut to their arrays of 24 and 16 bytes.
unfoldable pub set_field : Field → List ℕ → SavedState → SavedState
set_field state_field v s = record s { state = take 23 v }
set_field cgroup_mode_field v s = record s { cgroup_mode = take 15 v }
set_field host_usb_mode_field v s = record s { host_usb_mode = take 15 v }
set_field launch_mode_field v s = record s { launch_mode = take 15 v }
set_field supervisor_pid_field v s = record s {
  launcher = record (s.launcher) {
    supervisor_pid = or_kept (parse_pid_value v) s.launcher.supervisor_pid;
  };
}
set_field supervisor_start_ticks_field v s = record s {
  launcher = record (s.launcher) {
    supervisor_start_ticks = or_kept (parse_u64 v) s.launcher.supervisor_start_ticks;
  };
}
set_field supervisor_exe_dev_field v s = record s {
  launcher = record (s.launcher) {
    supervisor_exe_dev = or_kept (parse_u64 v) s.launcher.supervisor_exe_dev;
  };
}
set_field supervisor_exe_ino_field v s = record s {
  launcher = record (s.launcher) {
    supervisor_exe_ino = or_kept (parse_u64 v) s.launcher.supervisor_exe_ino;
  };
}
set_field init_host_pid_field v s = record s {
  launcher = record (s.launcher) {
    init_host_pid = or_kept (parse_pid_value v) s.launcher.init_host_pid;
  };
}
set_field init_start_ticks_field v s = record s {
  launcher = record (s.launcher) {
    init_start_ticks = or_kept (parse_u64 v) s.launcher.init_start_ticks;
  };
}
set_field init_exe_dev_field v s = record s {
  launcher = record (s.launcher) { init_exe_dev = or_kept (parse_u64 v) s.launcher.init_exe_dev };
}
set_field init_exe_ino_field v s = record s {
  launcher = record (s.launcher) { init_exe_ino = or_kept (parse_u64 v) s.launcher.init_exe_ino };
}
set_field (init_ns_ino_field n) v s = record s {
  launcher = record (s.launcher) {
    init_ns_ino = λ k.
        if same_namespace n k
        then or_kept (parse_u64 v) (s.launcher.init_ns_ino n)
        else s.launcher.init_ns_ino k;
  };
}
set_field wait_status_field v s = record s { wait_status = atoi v }
set_field updated_epoch_field v s = record s { updated_epoch = strtoll v }
