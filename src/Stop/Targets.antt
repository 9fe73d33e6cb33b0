-- ===== src/Stop/Targets.antt =====
-- Which processes a stop may signal, and the steps that look at the system.
use Prim.Native.String.{String}
use dawnshell.Prelude.{
  ℕ, ◌≡◌, ◌⊎◌, inl, inr, Bool, true, false, ◌&&◌, Option, none, some, List, leb, ◌==◌, Bool-cases,
  Option-cases, Either-cases, get_elem?,
}
use dawnshell.Cgroup.Directory.{is_dir}
use dawnshell.Cgroup.Keeping.{
  IsAny, Keeps, then-Keeps, pure-Keeps, fail-Keeps, look-Keeps, if-Keeps, or_fail-Keeps,
}
use dawnshell.Cgroup.Kernel.{Call, FileStat}
use dawnshell.Cgroup.Run.{look}
use dawnshell.Launch.Namespaces.{validate_supervisor_identity}
use dawnshell.State.Fields.{SavedState}
use dawnshell.Stop.Delegated.{process_in_delegated_cgroup}
use dawnshell.Stop.System.{
  FileCall, create_exclusive, sync, unlink, write_text, rename, System, is_slash, is_group_writable,
  is_equal, check_directory, validate_control_directory, check_lock_file, open_lock_file,
  state_path, read_state, unlink_temporary, after_rename, after_sync, after_write, after_create,
  replace_file, write_text_of, write_state_at, write_state, signal_group, signal_compat_service,
}
use dawnshell.Stop.Wait.{validate_service}

module _ (S : System) where
  open S use {kernel, proc}
  open kernel use {World}

  -- The supervisor or the service of a record that was read from the state file, whose identity was
  -- checked; or a process found in the delegated cgroup, other than the launcher itself.
  pub data IsTarget : ℕ → Type 0 where
    recorded_supervisor :
        (s : SavedState) (control_dir : List ℕ) (before after : World)
        → (read_state S control_dir before).1 ≡ some s
        → validate_supervisor_identity (proc after) s.launcher ≡ true
        → IsTarget s.launcher.supervisor_pid
    recorded_service :
        (s : SavedState) (control_dir : List ℕ) (before after : World)
        → (read_state S control_dir before).1 ≡ some s
        → validate_service S s (proc after) ≡ true
        → IsTarget s.launcher.init_host_pid
    delegated :
        (pid : ℕ) (before : World)
        → (process_in_delegated_cgroup S pid before).1 ≡ true
        → (pid == kernel.getpid before) ≡ false
        → IsTarget pid

  -- Whatever is not a signal keeps `Inv`, and so does a signal to a target, or to its group.
  pub record IsKept (Inv : World → Type 0) : Type 0 where
    pub killed : (pid signal : ℕ) (w : World) → IsTarget pid → Inv w → Inv (S.kill pid signal w).0
    pub killed_group :
        (pid signal : ℕ) (w : World) → IsTarget pid → Inv w → Inv (S.kill_group pid signal w).0
    pub called : (c : Call) (w : World) → Inv w → Inv (kernel.call c w).0
    pub lstat_keeps : (path : List ℕ) (w : World) → Inv w → Inv (kernel.lstat path w).0
    pub read_keeps : (path : List ℕ) (n : ℕ) (w : World) → Inv w → Inv (kernel.read path n w).0
    pub readdir_keeps : (path : List ℕ) (w : World) → Inv w → Inv (kernel.readdir path w).0
    pub open_lock_keeps : (path : List ℕ) (w : World) → Inv w → Inv (S.open_lock path w).0
    pub flock_keeps : (w : World) → Inv w → Inv (S.flock w).0
    pub unlock_keeps : (w : World) → Inv w → Inv (S.unlock w)
    pub clock_keeps : (w : World) → Inv w → Inv (S.monotonic_millis w).0
    pub file_keeps : (c : FileCall) (w : World) → Inv w → Inv (S.file_call c w).0

  module _ (Inv : World → Type 0) (h : IsKept Inv) where
    pub read_state-keeps :
        (control_dir : List ℕ) (w : World) → Inv w → Inv (read_state S control_dir w).0
    unfolding read_state
    read_state-keeps control_dir w i = elim (Option-cases (state_path S control_dir)) [
      | inl e ↦ rw (e, read_state) i
      | inr (path, e) ↦
          let kept = h.read_keeps path 4095 w i in
          elim (Either-cases (kernel.read path 4095 w).1) [
            | inl (errno, f) ↦ rw (e, read_state) (rw (f, read_state) kept)
            | inr (bytes, f) ↦ rw (e, read_state) (rw (f, read_state) kept)
          ]
    ]

    after_rename-keeps :
        (temporary : List ℕ) (r : World × Option ℕ) → Inv r.0 → Inv (after_rename S temporary r)
    unfolding after_rename unlink_temporary
    after_rename-keeps temporary (w, none) i = i
    after_rename-keeps temporary (w, some errno) i = h.file_keeps (unlink temporary) w i

    after_sync-keeps :
        (temporary destination : List ℕ) (r : World × Option ℕ)
        → Inv r.0
        → Inv (after_sync S temporary destination r)
    unfolding after_sync unlink_temporary
    after_sync-keeps temporary destination (w, none) i =
        after_rename-keeps temporary _ (h.file_keeps (rename temporary destination) w i)
    after_sync-keeps temporary destination (w, some errno) i = h.file_keeps (unlink temporary) w i

    after_write-keeps :
        (temporary destination : List ℕ) (r : World × Option ℕ)
        → Inv r.0
        → Inv (after_write S temporary destination r)
    unfolding after_write unlink_temporary
    after_write-keeps temporary destination (w, none) i =
        after_sync-keeps temporary destination _ (h.file_keeps (sync temporary) w i)
    after_write-keeps temporary destination (w, some errno) i = h.file_keeps (unlink temporary) w i

    after_create-keeps :
        (temporary destination text : List ℕ) (r : World × Option ℕ)
        → Inv r.0
        → Inv (after_create S temporary destination text r)
    unfolding after_create
    after_create-keeps temporary destination text (w, none) i =
        after_write-keeps temporary destination _ (h.file_keeps (write_text temporary text) w i)
    after_create-keeps temporary destination text (w, some errno) i = i

    write_text_of-keeps :
        (destination : List ℕ) (temporary text : Option (List ℕ)) (w : World)
        → Inv w
        → Inv (write_text_of S destination temporary text w)
    unfolding write_text_of replace_file
    write_text_of-keeps destination (some temporary) (some text) w i =
        after_create-keeps temporary destination text _
          (h.file_keeps (create_exclusive temporary) w i)
    write_text_of-keeps destination (some temporary) none w i = i
    write_text_of-keeps destination none text w i = i

    write_state_at-keeps :
        (destination : Option (List ℕ)) (s : SavedState) (w : World)
        → Inv w
        → Inv (write_state_at S destination s w)
    unfolding write_state_at
    write_state_at-keeps none s w i = i
    write_state_at-keeps (some destination) s w i = write_text_of-keeps destination _ _ w i

    pub write_state-keeps :
        (control_dir : List ℕ) (s : SavedState) (w : World)
        → Inv w
        → Inv (write_state S control_dir s w)
    unfolding write_state
    write_state-keeps control_dir s w i = write_state_at-keeps (state_path S control_dir) s w i

    pub signal_compat_service-keeps :
        (pid signal : ℕ) (w : World)
        → IsTarget pid
        → Inv w
        → Inv (signal_compat_service S pid signal w)
    unfolding signal_compat_service signal_group
    signal_compat_service-keeps pid signal w target i =
        let kept = h.killed pid signal w target i in
        let group = h.killed_group pid signal (S.kill pid signal w).0 target kept in
        elim (Bool-cases (leb pid 1)) [
          | inl small ↦ rw small i
          | inr large ↦ elim (Bool-cases (is_equal (S.getpgid pid (S.kill pid signal w).0) pid)) [
            | inl leads ↦ rw large (rw leads group)
            | inr alone ↦ rw large (rw alone kept)
          ]
        ]

    look_at-Keeps :
        {A : Type 0} (get : World → World × A)
        → ((w : World) → Inv w → Inv (get w).0)
        → Keeps Inv IsAny (look get)
    look_at-Keeps get k = look-Keeps get k (λ w i. tt)

    check_directory-Keeps : (found : ℕ ⊎ FileStat) → Keeps Inv IsAny (check_directory S found)
    unfolding check_directory
    check_directory-Keeps (inl errno) = fail-Keeps "control_dir_lstat" 33
    check_directory-Keeps (inr s) =
        if-Keeps (is_dir s)
          (λ _.
            if-Keeps (is_group_writable s.mode) (λ _. fail-Keeps "control_dir_mode" 35)
              (λ _. pure-Keeps tt tt))
          (λ _. fail-Keeps "control_dir_type" 34)

    pub validate_control_directory-Keeps :
        (control_dir : List ℕ) → Keeps Inv IsAny (validate_control_directory S control_dir)
    unfolding validate_control_directory
    validate_control_directory-Keeps control_dir =
        if-Keeps (is_slash (get_elem? control_dir 0))
          (λ _.
            then-Keeps (look_at-Keeps (kernel.lstat control_dir) (h.lstat_keeps control_dir))
              check_directory-Keeps)
          (λ _. fail-Keeps "control_dir" 32)

    check_lock_file-Keeps :
        (stage : String) (code : ℕ) (opened : Option (Bool × ℕ))
        → Keeps Inv IsAny (check_lock_file S stage code opened)
    unfolding check_lock_file
    check_lock_file-Keeps stage code none = fail-Keeps stage code
    check_lock_file-Keeps stage code (some (is_regular, links)) =
        if-Keeps (is_regular && links == 1) (λ _. pure-Keeps tt tt) (λ _. fail-Keeps stage code)

    pub open_lock_file-Keeps :
        (control_dir : List ℕ) (stage : String) (code : ℕ)
        → Keeps Inv IsAny (open_lock_file S control_dir stage code)
    unfolding open_lock_file
    open_lock_file-Keeps control_dir stage code =
        then-Keeps (or_fail-Keeps _ stage code (λ path e. tt)) (λ path.
          then-Keeps (look_at-Keeps (S.open_lock path) (h.open_lock_keeps path))
            (check_lock_file-Keeps stage code))
