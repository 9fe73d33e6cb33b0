-- ===== src/Cgroup/Clean.antt =====
-- Removing a cgroup hierarchy: `remove_cgroup_descendants`, `cleanup_cgroup_hierarchy` and
-- `cleanup_delegated_cgroups`. The labels are for the log alone.
use dawnshell.Prelude.{
  ℕ, zero, suc, ◌⊎◌, inl, inr, Bool, true, false, ◌||◌, Option, none, some, List, [], ◌∷◌, ◌==◌,
  if◌then◌else◌, codes, str_eq,
}
use dawnshell.Cgroup.Directory.{is_dir}
use dawnshell.Cgroup.Kernel.{
  umount_detach, rmdir, sleep, FileStat, Kernel, enoent, ebusy, enametoolong, enotempty, eloop,
}
use dawnshell.Cgroup.Paths.{
  joined_path, unified_cgroup_mount_name, systemd_cgroup_mount_name, devices_cgroup_mount_name,
  delegated_cgroup_paths, view_paths,
}
use dawnshell.Cgroup.Run.{◌>>=◌, ⊤, Action, pure, ◌>>◌, look, attempt}

abbrev pub is_dot : List ℕ → Bool
is_dot name = str_eq name (codes ".") || str_eq name (codes "..")

abbrev pub unless_missing : ℕ → Option ℕ
unless_missing errno = if errno == enoent then none else some errno

unfoldable pub still_there : Option ℕ → Option ℕ
still_there none = none
still_there (some errno) = unless_missing errno

abbrev pub may_retry : ℕ → Bool
may_retry errno = errno == ebusy || errno == enotempty

module _ (K : Kernel) where
  open K use {World, lstat, readdir}

  -- `rmdir(path) != 0 && errno != ENOENT`: the `errno` if so.
  unfoldable pub remove_directory : List ℕ → Action World (Option ℕ)
  remove_directory path = attempt K (rmdir path) >>= λ errno. pure (still_there errno)

  -- Behind a failure nothing more is done.
  unfoldable pub unless_failed : Action World (Option ℕ) → Option ℕ → Action World (Option ℕ)
  unless_failed rest none = rest
  unless_failed rest (some e) = pure (some e)

  -- The last step for an entry that is a directory, `remove` the call on the next depth.
  unfoldable pub remove_child :
      (List ℕ → Action World (Option ℕ)) → List ℕ → Action World (Option ℕ)
  remove_child remove child = remove child >>= unless_failed (remove_directory child)

  -- What is done with an entry, and with those behind it.
  unfoldable pub remove_found :
      (List ℕ → Action World (Option ℕ))
      → List ℕ
      → Action World (Option ℕ)
      → ℕ ⊎ FileStat
      → Action World (Option ℕ)
  remove_found remove child rest (inl errno) = if errno == enoent then rest else pure (some errno)
  remove_found remove child rest (inr s) =
      if is_dir s then remove_child remove child >>= unless_failed rest else rest

  unfoldable pub remove_entry :
      (List ℕ → Action World (Option ℕ))
      → Action World (Option ℕ)
      → Option (List ℕ)
      → Action World (Option ℕ)
  remove_entry remove rest none = pure (some enametoolong)
  remove_entry remove rest (some child) = look (lstat child) >>= remove_found remove child rest

  -- The loop over the entries of a directory.
  unfoldable pub remove_entries :
      (List ℕ → Action World (Option ℕ)) → List ℕ → List (List ℕ) → Action World (Option ℕ)
  remove_entries remove path [] = pure none
  remove_entries remove path (name ∷ names) =
      let rest = remove_entries remove path names in
      if is_dot name then rest else remove_entry remove rest (joined_path path name)

  unfoldable pub remove_listed :
      (List ℕ → Action World (Option ℕ)) → List ℕ → ℕ ⊎ List (List ℕ) → Action World (Option ℕ)
  remove_listed remove path (inl errno) = pure (unless_missing errno)
  remove_listed remove path (inr names) = remove_entries remove path names

  -- The fuel is 65 less the depth; the result is the `errno` of a failure.
  unfoldable pub remove_cgroup_descendants : ℕ → List ℕ → Action World (Option ℕ)
  remove_cgroup_descendants zero path = pure (some eloop)
  remove_cgroup_descendants (suc fuel) path =
      look (readdir path) >>= remove_listed (remove_cgroup_descendants fuel) path

  -- What an attempt does: the `errno` if the child is still there.
  unfoldable pub remove_subtree : List ℕ → Action World (Option ℕ)
  remove_subtree child_path = remove_child (remove_cgroup_descendants 65) child_path

  -- Behind an attempt; the result is `child_removed`.
  unfoldable pub after_attempt : Action World Bool → Option ℕ → Action World Bool
  after_attempt rest none = pure true
  after_attempt rest (some e) =
      if may_retry e then (attempt K (sleep 100) >>= λ slept. rest) else pure false

  -- The attempts that are left.
  unfoldable pub remove_attempts : ℕ → List ℕ → Action World Bool
  remove_attempts zero child_path = pure false
  remove_attempts (suc n) child_path =
      remove_subtree child_path >>= after_attempt (remove_attempts n child_path)

  unfoldable pub detach_mount_for_cleanup : List ℕ → Action World ⊤
  detach_mount_for_cleanup path = attempt K (umount_detach path) >>= λ errno. pure tt

  unfoldable pub cleanup_paths : Option (List ℕ × List ℕ) → Action World ⊤
  cleanup_paths none = pure tt
  cleanup_paths (some (mount_path, child_path)) = remove_attempts 20 child_path >>= λ child_removed.
      detach_mount_for_cleanup mount_path >>= λ detached.
      attempt K (rmdir mount_path) >>= λ errno. pure tt

  unfoldable pub cleanup_cgroup_hierarchy : List ℕ → List ℕ → Action World ⊤
  cleanup_cgroup_hierarchy control_dir mount_name =
      cleanup_paths (delegated_cgroup_paths control_dir mount_name)

  unfoldable pub detach_views : Option (List ℕ × List ℕ × List ℕ) → Action World ⊤
  detach_views none = pure tt
  detach_views (some (cgroup_root, systemd_view, devices_view)) = do
    detach_mount_for_cleanup devices_view
    detach_mount_for_cleanup systemd_view
    detach_mount_for_cleanup cgroup_root

  unfoldable pub cleanup_delegated_cgroups : List ℕ → List ℕ → Action World ⊤
  cleanup_delegated_cgroups root control_dir = do
    detach_views (view_paths root)
    cleanup_cgroup_hierarchy control_dir unified_cgroup_mount_name
    cleanup_cgroup_hierarchy control_dir devices_cgroup_mount_name
    cleanup_cgroup_hierarchy control_dir systemd_cgroup_mount_name
