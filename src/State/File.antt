-- ===== src/State/File.antt =====
-- The contents of the state file.
use dawnshell.Prelude.{
  ℕ, Option, none, some, List, [], ◌∷◌, ◌++◌, ltb, ◌==◌, if◌then◌else◌, ◌>>=◌, codes, length, take,
  ℤ, negsuc,
}
use dawnshell.Launch.Namespaces.{LauncherState}
use dawnshell.State.Fields.{
  Field, SavedState, field_name, field_text, fields, find_field, set_field,
}

unfoldable pub state_line : List ℕ → List ℕ → List ℕ
state_line name value = name ++ (b'=' ∷ value ++ (10 ∷ []))

unfoldable pub state_lines : List Field → SavedState → List ℕ
state_lines [] s = []
state_lines (f ∷ fs) s = state_line (field_name f) (field_text f s) ++ state_lines fs s

-- The text that `write_state` has formatted at the time `epoch`; `none` where it does not fit the 1024
-- bytes of its buffer.
unfoldable pub state_text : ℤ → SavedState → Option (List ℕ)
state_text epoch s =
    let text =
      state_line (codes "format") (codes "7")
      ++ state_lines fields (record s { updated_epoch = epoch }) in
    if ltb (length text) 1024 then some text else none

abbrev pub line_end : List ℕ → List (List ℕ)
line_end [] = []
line_end (x ∷ xs) = (x ∷ xs) ∷ []

-- `strtok_r` with "\n": the lines that are not empty, with `line` before the rest.
unfoldable pub split_lines : List ℕ → List ℕ → List (List ℕ)
split_lines line [] = line_end line
split_lines line (x ∷ xs) =
    if x == 10 then line_end line ++ split_lines [] xs else split_lines (line ++ x ∷ []) xs

-- `strchr(line, '=')`: what is before and behind it.
unfoldable pub split_equal : List ℕ → Option (List ℕ × List ℕ)
split_equal [] = none
split_equal (x ∷ xs) =
    if x == b'=' then some ([], xs) else (do (name, value) ← split_equal xs; some (x ∷ name, value))

unfoldable pub set_named : Option Field → List ℕ → SavedState → SavedState
set_named none value s = s
set_named (some f) value s = set_field f value s

unfoldable pub read_line : List ℕ → SavedState → SavedState
read_line line s = elim (split_equal line) [
  | none ↦ s
  | some (name, value) ↦ set_named (find_field name fields) value s
]

unfoldable pub read_lines : List (List ℕ) → SavedState → SavedState
read_lines [] s = s
read_lines (line ∷ lines) s = read_lines lines (read_line line s)

abbrev pub no_launcher : LauncherState
no_launcher = record {
  supervisor_pid = 0;
  supervisor_start_ticks = 0;
  supervisor_exe_dev = 0;
  supervisor_exe_ino = 0;
  init_host_pid = 0;
  init_start_ticks = 0;
  init_exe_dev = 0;
  init_exe_ino = 0;
  init_ns_ino = λ n. 0;
}

unfoldable pub initialize_state : List ℕ → ℤ → SavedState
initialize_state name epoch = record {
  state = take 23 name;
  cgroup_mode = codes "unknown";
  host_usb_mode = codes "unknown";
  launch_mode = codes "systemd";
  launcher = no_launcher;
  wait_status = negsuc 0;
  updated_epoch = epoch;
}

-- What `read_state` makes of the contents of the file, which it reads at the time `epoch`; of a file
-- of more than 4095 bytes it reads the head.
unfoldable pub read_contents : ℤ → List ℕ → Option SavedState
read_contents epoch contents = elim (take 4095 contents) [
  | [] ↦ none
  | x ∷ xs ↦ some (read_lines (split_lines [] (x ∷ xs)) (initialize_state (codes "unknown") epoch))
]
