-- ===== src/Stop/System.antt =====
-- What the launcher asks of the system to stop a launch, beside `Kernel`, and the parts of the launcher
-- that stopping shares: `validate_control_directory`, `open_lock_file`, `read_state`,
-- `write_state` and `signal_compat_service`.
use Prim.Native.String.{String}
use dawnshell.Prelude.{
  ℕ, ◌⊎◌, inl, inr, Bool, false, ◌&&◌, ◌||◌, Option, none, some, List, ◌++◌, leb, ◌==◌,
  if◌then◌else◌, has_bit, decimal, codes, length, get_elem?, ℤ,
}
use dawnshell.Cgroup.Directory.{is_dir}
use dawnshell.Cgroup.Kernel.{FileStat, Kernel}
use dawnshell.Cgroup.Paths.{path_max, joined_path}
use dawnshell.Cgroup.Run.{◌>>=◌, ⊤, Action, pure, fail, or_fail, look}
use dawnshell.Launch.Namespaces.{Proc}
use dawnshell.State.Fields.{SavedState}
use dawnshell.State.File.{state_text, read_contents}

-- The calls that replace a file. `write_text` writes all the bytes to a file that is open.
pub data FileCall : Type 0 where
  create_exclusive sync unlink : List ℕ → FileCall
  write_text rename : List ℕ → List ℕ → FileCall

-- The lock is that of the open lock file: `flock` tries to take it and does not wait; a file descriptor
-- is closed with no more effect. `open_lock` opens the path and gives its kind and its number of links.
-- `kill_group` is `kill` with the negated number, and the numbers of `getsid` and `getpgid` are `none`
-- for an error.
pub record System : Type 1 where
  pub kernel : Kernel
  pub geteuid : kernel.World → ℕ
  pub proc : kernel.World → Proc
  pub kill : ℕ → ℕ → kernel.World → kernel.World × Option ℕ
  pub kill_group : ℕ → ℕ → kernel.World → kernel.World × Option ℕ
  pub getsid : ℕ → kernel.World → Option ℕ
  pub getpgid : ℕ → kernel.World → Option ℕ
  pub open_lock : List ℕ → kernel.World → kernel.World × Option (Bool × ℕ)
  pub flock : kernel.World → kernel.World × Option ℕ
  pub unlock : kernel.World → kernel.World
  pub monotonic_millis : kernel.World → kernel.World × ℕ
  pub realtime_seconds : kernel.World → ℤ
  pub file_call : FileCall → kernel.World → kernel.World × Option ℕ

abbrev pub sigkill : ℕ
sigkill = 9

abbrev pub sigterm : ℕ
sigterm = 15

abbrev pub esrch : ℕ
esrch = 3

abbrev pub eagain : ℕ
eagain = 11

-- EWOULDBLOCK is EAGAIN.
abbrev pub would_block : ℕ → Bool
would_block errno = errno == eagain

abbrev pub is_slash : Option ℕ → Bool
is_slash none = false
is_slash (some c) = c == 47

-- `value.st_mode & (S_IWGRP | S_IWOTH)`.
abbrev pub is_group_writable : ℕ → Bool
is_group_writable mode = has_bit mode 16 || has_bit mode 2

abbrev pub is_equal : Option ℕ → ℕ → Bool
is_equal none n = false
is_equal (some m) n = m == n

-- `"%s.new.%d"` in a buffer of `PATH_MAX` bytes.
unfoldable pub temporary_path : List ℕ → ℕ → Option (List ℕ)
temporary_path destination pid =
    let path = destination ++ (codes ".new." ++ decimal pid) in
    if leb path_max (length path) then none else some path

module _ (S : System) where
  open S use {kernel, kill, kill_group, getpgid, open_lock, realtime_seconds, file_call}
  open kernel use {World, lstat, read, getpid}

  unfoldable pub check_directory : ℕ ⊎ FileStat → Action World ⊤
  check_directory (inl errno) = fail "control_dir_lstat" 33
  check_directory (inr s) =
      if is_dir s
      then (if is_group_writable s.mode then fail "control_dir_mode" 35 else pure tt)
      else fail "control_dir_type" 34

  unfoldable pub validate_control_directory : List ℕ → Action World ⊤
  validate_control_directory control_dir =
      if is_slash (get_elem? control_dir 0)
      then look (lstat control_dir) >>= check_directory
      else fail "control_dir" 32

  -- A regular file with one link.
  unfoldable pub check_lock_file : String → ℕ → Option (Bool × ℕ) → Action World ⊤
  check_lock_file stage code none = fail stage code
  check_lock_file stage code (some (is_regular, links)) =
      if is_regular && links == 1 then pure tt else fail stage code

  -- `lock_fd < 0` is the failure.
  unfoldable pub open_lock_file : List ℕ → String → ℕ → Action World ⊤
  open_lock_file control_dir stage code = do
    path ← or_fail (joined_path control_dir (codes "debian-supervisor.lock")) stage code
    opened ← look (open_lock path)
    check_lock_file stage code opened

  abbrev pub state_path : List ℕ → Option (List ℕ)
  state_path control_dir = joined_path control_dir (codes "debian-supervisor.state")

  unfoldable pub read_state : List ℕ → World → World × Option SavedState
  read_state control_dir w = elim (state_path control_dir) [
    | none ↦ (w, none)
    | some path ↦
        let (w', contents) = read path 4095 w in
        elim contents [
          | inl errno ↦ (w', none)
          | inr bytes ↦ (w', read_contents (realtime_seconds w') bytes)
        ]
  ]

  -- Behind a failure the temporary file is removed.
  unfoldable pub unlink_temporary : List ℕ → World → World
  unlink_temporary temporary w = (file_call (unlink temporary) w).0

  unfoldable pub after_rename : List ℕ → World × Option ℕ → World
  after_rename temporary (w, none) = w
  after_rename temporary (w, some errno) = unlink_temporary temporary w

  unfoldable pub after_sync : List ℕ → List ℕ → World × Option ℕ → World
  after_sync temporary destination (w, none) =
      after_rename temporary (file_call (rename temporary destination) w)
  after_sync temporary destination (w, some errno) = unlink_temporary temporary w

  unfoldable pub after_write : List ℕ → List ℕ → World × Option ℕ → World
  after_write temporary destination (w, none) =
      after_sync temporary destination (file_call (sync temporary) w)
  after_write temporary destination (w, some errno) = unlink_temporary temporary w

  unfoldable pub after_create : List ℕ → List ℕ → List ℕ → World × Option ℕ → World
  after_create temporary destination text (w, none) =
      after_write temporary destination (file_call (write_text temporary text) w)
  after_create temporary destination text (w, some errno) = w

  -- The file is written under a temporary name, synchronized and renamed.
  unfoldable pub replace_file : List ℕ → List ℕ → List ℕ → World → World
  replace_file temporary destination text w =
      after_create temporary destination text (file_call (create_exclusive temporary) w)

  unfoldable pub write_text_of : List ℕ → Option (List ℕ) → Option (List ℕ) → World → World
  write_text_of destination (some temporary) (some text) w =
      replace_file temporary destination text w
  write_text_of destination _ _ w = w

  unfoldable pub write_state_at : Option (List ℕ) → SavedState → World → World
  write_state_at none state w = w
  write_state_at (some destination) state w =
      write_text_of destination (temporary_path destination (getpid w))
        (state_text (realtime_seconds w) state) w

  -- What it gives is passed over by its callers.
  unfoldable pub write_state : List ℕ → SavedState → World → World
  write_state control_dir state w = write_state_at (state_path control_dir) state w

  -- The best effort of `signal_compat_service`.
  unfoldable pub signal_group : ℕ → ℕ → World → World
  signal_group service_pid signal w =
      if is_equal (getpgid service_pid w) service_pid
      then (kill_group service_pid signal w).0
      else w

  unfoldable pub signal_compat_service : ℕ → ℕ → World → World
  signal_compat_service service_pid signal w =
      if leb service_pid 1 then w else signal_group service_pid signal (kill service_pid signal w).0
