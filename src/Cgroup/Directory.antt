-- ===== src/Cgroup/Directory.antt =====
-- Directories that must be there, and recursive bind mounts.
use Prim.Native.String.{String}
use dawnshell.Prelude.{
  ℕ, inl, inr, Bool, true, false, not, ◌&&◌, none, some, List, [], ◌∷◌, ◌==◌, if◌then◌else◌,
}
use dawnshell.Cgroup.Kernel.{
  ms_rdonly, ms_nosuid, ms_nodev, ms_noexec, ms_remount, ms_bind, ms_rec, ms_slave, mount, mkdir,
  is_directory, FileStat, Kernel, enoent,
}
use dawnshell.Cgroup.Paths.{joined_path}
use dawnshell.Cgroup.Run.{◌>>=◌, ⊤, Action, pure, fail, or_fail, ◌>>◌, look, require}

abbrev pub is_dir : FileStat → Bool
is_dir s = elim s.kind [ is_directory ↦ true | _ ↦ false ]

module _ (K : Kernel) where
  open K use {World, lstat}

  unfoldable pub ensure_directory_path : List ℕ → ℕ → String → Action World ⊤
  ensure_directory_path path mode stage = look (lstat path) >>= λ found. elim found [
    | inr s ↦ if is_dir s then pure tt else fail stage 44
    | inl errno ↦ if errno == enoent then require K (mkdir path mode) stage 44 else fail stage 44
  ]

  unfoldable pub bind_recursively : List ℕ → List ℕ → String → String → Action World ⊤
  bind_recursively source target bind_stage slave_stage = do
    require K (mount (some source) target none (ms_bind ∷ ms_rec ∷ []) none) bind_stage 40
    require K (mount none target none (ms_slave ∷ ms_rec ∷ []) none) slave_stage 41

  unfoldable pub make_bind_read_only : List ℕ → String → Action World ⊤
  make_bind_read_only path stage = do
    require K (mount (some path) path none (ms_bind ∷ []) none) stage 42
    require K
        (mount none path none
          (ms_bind ∷ ms_remount ∷ ms_rdonly ∷ ms_nosuid ∷ ms_nodev ∷ ms_noexec ∷ []) none)
        stage 43

  -- The mount of the tree, once its source is known to be a directory.
  unfoldable pub bind_runtime_directory : List ℕ → List ℕ → List ℕ → Action World ⊤
  bind_runtime_directory root source relative = do
    target ← or_fail (joined_path root relative) "android_runtime_target_path" 45
    ensure_directory_path target 493 "android_runtime_target_directory"
    bind_recursively source target "android_runtime_rbind" "android_runtime_make_rslave"
    require K
        (mount none target none (ms_bind ∷ ms_remount ∷ ms_rdonly ∷ ms_nosuid ∷ ms_nodev ∷ []) none)
        "android_runtime_read_only" 45

  unfoldable pub bind_android_runtime_tree : List ℕ → List ℕ → List ℕ → Bool → Action World ⊤
  bind_android_runtime_tree root source relative required = look (lstat source) >>= λ found.
      elim found [
        | inl errno ↦
            if not required && errno == enoent then pure tt else fail "android_runtime_source" 45
        | inr s ↦
            if is_dir s
            then bind_runtime_directory root source relative
            else if required
            then fail "android_runtime_source" 45
            else pure tt
      ]
