-- ===== src/Usb/Host.antt =====
-- What the launcher uses of the system to move host USB devices: the files below /sys/bus/usb, the
-- clock and the log. A call returns the world after it.
use dawnshell.Prelude.{ℕ, ◌⊎◌, Option, List}

-- The lines that `dprintf` writes, less their time.
pub data Event : Type 0 where
  exclusive_device_removed : List ℕ → Event
  exclusive_scan_failed : ℕ → Event
  exclusive_scan_recovered : Event
  exclusive_record_limit : List ℕ → Event
  exclusive_unbound : ℕ → ℕ → List ℕ → List ℕ → Event
  exclusive_unbind_failed : ℕ → ℕ → List ℕ → List ℕ → ℕ → Event
  restore_device_absent : List ℕ → List ℕ → Event
  restore_already_bound : List ℕ → List ℕ → List ℕ → Event
  restored : List ℕ → List ℕ → Event
  exclusive_restore_failed : List ℕ → List ℕ → ℕ → Event

-- `lstat` and `write` give `none` for success and the `errno` otherwise; `opendir` gives the names that
-- `readdir` goes through, or the `errno`. `read` stands for opening a file, reading at most 31 bytes
-- and closing it, `write` for opening one, writing all the bytes and closing it.
pub record UsbHost : Type 1 where
  pub World : Type 0
  pub opendir : List ℕ → World → World × (ℕ ⊎ List (List ℕ))
  pub lstat : List ℕ → World → World × Option ℕ
  pub read : List ℕ → World → World × Option (List ℕ)
  pub readlink : List ℕ → World → World × Option (List ℕ)
  pub write : List ℕ → List ℕ → World → World × Option ℕ
  pub monotonic_millis : World → World × ℕ
  pub log : Event → World → World

abbrev pub enoent : ℕ
enoent = 2

abbrev pub einval : ℕ
einval = 22

abbrev pub enametoolong : ℕ
enametoolong = 36

-- `PATH_MAX`.
abbrev pub path_max : ℕ
path_max = 4096
