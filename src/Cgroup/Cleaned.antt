-- ===== src/Cgroup/Cleaned.antt =====
-- What removing cgroup hierarchies keeps: whatever its calls and looks keep.
use dawnshell.Prelude.{
  ℕ, zero, suc, ◌⊎◌, inl, inr, Bool, true, false, Option, none, some, List, [], ◌∷◌, ◌==◌,
}
use dawnshell.Cgroup.Clean.{
  is_dot, unless_missing, still_there, may_retry, remove_directory, unless_failed, remove_child,
  remove_found, remove_entry, remove_entries, remove_listed, remove_cgroup_descendants,
  remove_subtree, after_attempt, remove_attempts, detach_mount_for_cleanup, cleanup_paths,
  cleanup_cgroup_hierarchy, detach_views, cleanup_delegated_cgroups,
}
use dawnshell.Cgroup.Directory.{is_dir}
use dawnshell.Cgroup.Keeping.{IsAny, Keeps, then-Keeps, pure-Keeps, look-Keeps, if-Keeps}
use dawnshell.Cgroup.Kernel.{
  Call, umount_detach, rmdir, sleep, FileStat, Kernel, enoent, enametoolong, eloop,
}
use dawnshell.Cgroup.Paths.{joined_path, view_paths}
use dawnshell.Cgroup.Run.{Action, attempt}

-- The parts of `Kernel` that a removal uses keep `Inv`.
pub record IsKept (K : Kernel) (Inv : K.World → Type 0) : Type 0 where
  pub called : (c : Call) (w : K.World) → Inv w → Inv (K.call c w).0
  pub lstat_keeps : (path : List ℕ) (w : K.World) → Inv w → Inv (K.lstat path w).0
  pub readdir_keeps : (path : List ℕ) (w : K.World) → Inv w → Inv (K.readdir path w).0

module _ (K : Kernel) (Inv : K.World → Type 0) (h : IsKept K Inv) where
  open K use {World}

  attempt-Keeps : (c : Call) → Keeps Inv IsAny (attempt K c)
  unfolding attempt
  attempt-Keeps c = look-Keeps (K.call c) (h.called c) (λ w i. tt)

  unless_failed-Keeps :
      (rest : Action World (Option ℕ)) (errno : Option ℕ)
      → Keeps Inv IsAny rest
      → Keeps Inv IsAny (unless_failed K rest errno)
  unfolding unless_failed
  unless_failed-Keeps rest none k = k
  unless_failed-Keeps rest (some e) k = pure-Keeps (some e) tt

  module _ (remove : List ℕ → Action World (Option ℕ))
      (removes : (path : List ℕ) → Keeps Inv IsAny (remove path)) where
    remove_child-Keeps : (child : List ℕ) → Keeps Inv IsAny (remove_child K remove child)
    unfolding remove_child remove_directory
    remove_child-Keeps child = then-Keeps (removes child) (λ errno.
        unless_failed-Keeps _ errno
          (then-Keeps (attempt-Keeps (rmdir child)) (λ e. pure-Keeps (still_there e) tt)))

    remove_found-Keeps :
        (child : List ℕ) (rest : Action World (Option ℕ)) (found : ℕ ⊎ FileStat)
        → Keeps Inv IsAny rest
        → Keeps Inv IsAny (remove_found K remove child rest found)
    unfolding remove_found
    remove_found-Keeps child rest (inl errno) k =
        if-Keeps (errno == enoent) (λ _. k) (λ _. pure-Keeps (some errno) tt)
    remove_found-Keeps child rest (inr s) k =
        if-Keeps (is_dir s)
          (λ _. then-Keeps (remove_child-Keeps child) (λ errno. unless_failed-Keeps rest errno k))
          (λ _. k)

    remove_entry-Keeps :
        (rest : Action World (Option ℕ)) (child : Option (List ℕ))
        → Keeps Inv IsAny rest
        → Keeps Inv IsAny (remove_entry K remove rest child)
    unfolding remove_entry
    remove_entry-Keeps rest none k = pure-Keeps (some enametoolong) tt
    remove_entry-Keeps rest (some child) k =
        then-Keeps (look-Keeps (K.lstat child) (h.lstat_keeps child) (λ w i. tt))
          (λ found. remove_found-Keeps child rest found k)

    remove_entries-Keeps :
        (path : List ℕ) (names : List (List ℕ))
        → Keeps Inv IsAny (remove_entries K remove path names)
    unfolding remove_entries
    remove_entries-Keeps path [] = pure-Keeps none tt
    remove_entries-Keeps path (name ∷ names) =
        let rest = remove_entries-Keeps path names in
        if-Keeps (is_dot name) (λ _. rest) (λ _. remove_entry-Keeps _ (joined_path path name) rest)

    remove_listed-Keeps :
        (path : List ℕ) (names : ℕ ⊎ List (List ℕ))
        → Keeps Inv IsAny (remove_listed K remove path names)
    unfolding remove_listed
    remove_listed-Keeps path (inl errno) = pure-Keeps (unless_missing errno) tt
    remove_listed-Keeps path (inr names) = remove_entries-Keeps path names

  remove_cgroup_descendants-Keeps :
      (fuel : ℕ) (path : List ℕ) → Keeps Inv IsAny (remove_cgroup_descendants K fuel path)
  unfolding remove_cgroup_descendants
  remove_cgroup_descendants-Keeps zero path = pure-Keeps (some eloop) tt
  remove_cgroup_descendants-Keeps (suc fuel) path =
      then-Keeps (look-Keeps (K.readdir path) (h.readdir_keeps path) (λ w i. tt)) (
        remove_listed-Keeps (remove_cgroup_descendants K fuel)
          (remove_cgroup_descendants-Keeps fuel) path)

  after_attempt-Keeps :
      (rest : Action World Bool) (errno : Option ℕ)
      → Keeps Inv IsAny rest
      → Keeps Inv IsAny (after_attempt K rest errno)
  unfolding after_attempt
  after_attempt-Keeps rest none k = pure-Keeps true tt
  after_attempt-Keeps rest (some e) k =
      if-Keeps (may_retry e) (λ _. then-Keeps (attempt-Keeps (sleep 100)) (λ slept. k))
        (λ _. pure-Keeps false tt)

  remove_attempts-Keeps :
      (n : ℕ) (child_path : List ℕ) → Keeps Inv IsAny (remove_attempts K n child_path)
  unfolding remove_attempts remove_subtree
  remove_attempts-Keeps zero child_path = pure-Keeps false tt
  remove_attempts-Keeps (suc n) child_path =
      then-Keeps
        (remove_child-Keeps (remove_cgroup_descendants K 65) (remove_cgroup_descendants-Keeps 65)
          child_path)
        (λ errno. after_attempt-Keeps _ errno (remove_attempts-Keeps n child_path))

  detach-Keeps : (path : List ℕ) → Keeps Inv IsAny (detach_mount_for_cleanup K path)
  unfolding detach_mount_for_cleanup
  detach-Keeps path = then-Keeps (attempt-Keeps (umount_detach path)) (λ errno. pure-Keeps tt tt)

  cleanup_paths-Keeps : (paths : Option (List ℕ × List ℕ)) → Keeps Inv IsAny (cleanup_paths K paths)
  unfolding cleanup_paths
  cleanup_paths-Keeps none = pure-Keeps tt tt
  cleanup_paths-Keeps (some (mount_path, child_path)) =
      then-Keeps (remove_attempts-Keeps 20 child_path) (λ _.
        then-Keeps (detach-Keeps mount_path)
          (λ _. then-Keeps (attempt-Keeps (rmdir mount_path)) (λ _. pure-Keeps tt tt)))

  detach_views-Keeps :
      (paths : Option (List ℕ × List ℕ × List ℕ)) → Keeps Inv IsAny (detach_views K paths)
  unfolding detach_views
  detach_views-Keeps none = pure-Keeps tt tt
  detach_views-Keeps (some (cgroup_root, systemd_view, devices_view)) =
      then-Keeps (detach-Keeps devices_view)
        (λ _. then-Keeps (detach-Keeps systemd_view) (λ _. detach-Keeps cgroup_root))

  pub cleanup_delegated_cgroups-Keeps :
      (root control_dir : List ℕ) → Keeps Inv IsAny (cleanup_delegated_cgroups K root control_dir)
  unfolding cleanup_delegated_cgroups cleanup_cgroup_hierarchy
  cleanup_delegated_cgroups-Keeps root control_dir =
      then-Keeps (detach_views-Keeps (view_paths root)) (λ _.
        then-Keeps (cleanup_paths-Keeps _)
          (λ _. then-Keeps (cleanup_paths-Keeps _) (λ _. cleanup_paths-Keeps _)))
