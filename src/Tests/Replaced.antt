-- ===== src/Tests/Replaced.antt =====
-- The replacement of the state file. The world says how far it is: nothing done, the temporary file
-- complete, or also synchronized, the state file new, or one in its place that may be lost.
use dawnshell.Prelude.{
  ℕ, ◌≡◌, refl, ap, ◌⊎◌, inl, inr, false, Option, none, some, List, [], decimal_digits, decimal,
  codes, pos,
}
use dawnshell.Cgroup.Paths.{joined_path}
use dawnshell.Launch.Namespaces.{Proc}
use dawnshell.State.Fields.{SavedState, field_name, field_text}
use dawnshell.State.File.{state_line, state_lines, state_text, initialize_state}
use dawnshell.Stop.Replaced.{IsReplacing, write_state-IsWhole}
use dawnshell.Stop.System.{
  FileCall, create_exclusive, sync, unlink, write_text, rename, System, temporary_path, state_path,
  write_state,
}

data Progress : Type 0 where
  nothing complete durable replaced broken : Progress

abbrev rename_at : Progress → Progress × Option ℕ
rename_at durable = (replaced, none)
rename_at complete = (broken, none)
rename_at nothing = (broken, none)
rename_at replaced = (replaced, some 2)
rename_at broken = (broken, some 2)

abbrev sync_at : Progress → Progress × Option ℕ
sync_at complete = (durable, none)
sync_at w = (w, none)

abbrev file_call_at : FileCall → Progress → Progress × Option ℕ
file_call_at (create_exclusive path) w = (w, none)
file_call_at (sync path) w = sync_at w
file_call_at (unlink path) w = (w, none)
file_call_at (write_text path text) nothing = (complete, none)
file_call_at (write_text path text) complete = (complete, none)
file_call_at (write_text path text) durable = (complete, none)
file_call_at (write_text path text) replaced = (replaced, some 28)
file_call_at (write_text path text) broken = (broken, some 28)
file_call_at (rename old new) w = rename_at w

abbrev no_proc : Proc
no_proc = record {
  stat_namespace = λ pid name. inl 2;
  start_ticks = λ pid. none;
  exe_identity = λ pid. none;
  is_alive = λ pid. false;
}

abbrev filing : System
filing = record {
  kernel = record {
    World = Progress;
    call = λ c w. (w, none);
    lstat = λ path w. (w, inl 2);
    stat = λ path w. (w, inl 2);
    read = λ path n w. (w, inl 2);
    readdir = λ path w. (w, inl 2);
    getpid = λ w. 7;
    poll_ready = λ w. (w, none);
  };
  geteuid = λ w. 0;
  proc = λ w. no_proc;
  kill = λ pid signal w. (w, none);
  kill_group = λ pid signal w. (w, none);
  getsid = λ pid w. none;
  getpgid = λ pid w. none;
  open_lock = λ path w. (w, none);
  flock = λ w. (w, none);
  unlock = λ w. w;
  monotonic_millis = λ w. (w, 0);
  realtime_seconds = λ w. pos 0;
  file_call = file_call_at;
}

abbrev IsOld : Progress → Type 0
IsOld w = (w ≡ nothing) ⊎ ((w ≡ complete) ⊎ (w ≡ durable))

abbrev IsComplete : Progress → Type 0
IsComplete w = w ≡ complete

abbrev IsDurable : Progress → Type 0
IsDurable w = w ≡ durable

abbrev IsNew : Progress → Type 0
IsNew w = w ≡ replaced

abbrev written_by : List ℕ → List ℕ → Progress → Progress × Option ℕ
written_by temporary text w = file_call_at (write_text temporary text) w

write_text-IsOld :
    (temporary text : List ℕ) (w : Progress) → IsOld w → IsOld (written_by temporary text w).0
write_text-IsOld temporary text nothing old = inr (inl refl)
write_text-IsOld temporary text complete old = inr (inl refl)
write_text-IsOld temporary text durable old = inr (inl refl)
write_text-IsOld temporary text replaced old = old
write_text-IsOld temporary text broken old = old

write_text-IsComplete :
    (temporary text : List ℕ) (w : Progress)
    → (written_by temporary text w).1 ≡ none
    → IsComplete (written_by temporary text w).0
write_text-IsComplete temporary text nothing e = refl
write_text-IsComplete temporary text complete e = refl
write_text-IsComplete temporary text durable e = refl
write_text-IsComplete temporary text replaced e = cc
write_text-IsComplete temporary text broken e = cc

sync-IsOld : (w : Progress) → IsOld w → IsOld (sync_at w).0
sync-IsOld nothing old = old
sync-IsOld complete old = inr (inr refl)
sync-IsOld durable old = old
sync-IsOld replaced old = old
sync-IsOld broken old = old

rename-IsOld :
    (w : Progress) (errno : ℕ) → IsOld w → (rename_at w).1 ≡ some errno → IsOld (rename_at w).0
rename-IsOld nothing errno old e = cc
rename-IsOld complete errno old e = cc
rename-IsOld durable errno old e = cc
rename-IsOld replaced errno old e = old
rename-IsOld broken errno old e = old

filing-IsReplacing :
    (temporary destination text : List ℕ)
    → IsReplacing filing temporary destination text IsOld IsComplete IsDurable IsNew
filing-IsReplacing temporary destination text = record {
  created = λ w old. old;
  written = write_text-IsOld temporary text;
  complete = write_text-IsComplete temporary text;
  synced = sync-IsOld;
  synced_complete = λ w written ok. ap (λ p. (sync_at p).0) written;
  renamed = λ w ready ok. ap (λ p. (rename_at p).0) ready;
  not_renamed = rename-IsOld;
  unlinked = λ w old. old;
}

abbrev or_empty : Option (List ℕ) → List ℕ
or_empty none = []
or_empty (some text) = text

abbrev stopped_record : SavedState
stopped_record = initialize_state (codes "stopped") (pos 0)

abbrev state_file : List ℕ
state_file = codes "/data/adb/dawnshell/debian-supervisor.state"

abbrev temporary_file : List ℕ
temporary_file = codes "/data/adb/dawnshell/debian-supervisor.state.new.7"

state_file_lem : state_path filing (codes "/data/adb/dawnshell") ≡ some state_file
unfolding joined_path
state_file_lem = refl

temporary_file_lem : temporary_path state_file 7 ≡ some temporary_file
unfolding temporary_path decimal decimal_digits
temporary_file_lem = refl

stopped_text_lem :
    state_text (pos 0) stopped_record ≡ some (or_empty (state_text (pos 0) stopped_record))
unfolding state_text state_lines state_line field_name field_text initialize_state decimal
    decimal_digits
stopped_text_lem = refl

write_state-IsWhole_example :
    IsOld (write_state filing (codes "/data/adb/dawnshell") stopped_record nothing)
    ⊎ IsNew (write_state filing (codes "/data/adb/dawnshell") stopped_record nothing)
write_state-IsWhole_example =
    write_state-IsWhole filing (codes "/data/adb/dawnshell") state_file temporary_file
      (or_empty (state_text (pos 0) stopped_record)) stopped_record nothing IsOld IsComplete
      IsDurable IsNew state_file_lem temporary_file_lem stopped_text_lem
      (filing-IsReplacing temporary_file state_file (or_empty (state_text (pos 0) stopped_record)))
      (inl refl)
