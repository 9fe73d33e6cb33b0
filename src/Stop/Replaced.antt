-- ===== src/Stop/Replaced.antt =====
-- The state file is replaced as a whole.
use dawnshell.Prelude.{ℕ, ◌≡◌, refl, ◌⊎◌, inl, inr, Option, none, some, List}
use dawnshell.State.Fields.{SavedState}
use dawnshell.State.File.{state_text}
use dawnshell.Stop.System.{
  create_exclusive, sync, unlink, write_text, rename, System, temporary_path, state_path,
  unlink_temporary, after_rename, after_sync, after_write, after_create, replace_file,
  write_text_of, write_state_at, write_state,
}

module _ (S : System) where
  open S use {kernel, file_call}
  open kernel use {World}

  -- `Old` is what no call does away with but a rename that succeeds. Writing all of the text makes the
  -- temporary file `Written`, synchronizing that makes it `Ready`, and only renaming a file that is
  -- ready makes the file `New`.
  pub record IsReplacing (temporary destination text : List ℕ)
      (Old Written Ready New : World → Type 0) : Type 0 where
    pub created : (w : World) → Old w → Old (file_call (create_exclusive temporary) w).0
    pub written : (w : World) → Old w → Old (file_call (write_text temporary text) w).0
    pub complete :
        (w : World)
        → (file_call (write_text temporary text) w).1 ≡ none
        → Written (file_call (write_text temporary text) w).0
    pub synced : (w : World) → Old w → Old (file_call (sync temporary) w).0
    pub synced_complete :
        (w : World)
        → Written w
        → (file_call (sync temporary) w).1 ≡ none
        → Ready (file_call (sync temporary) w).0
    pub renamed :
        (w : World)
        → Ready w
        → (file_call (rename temporary destination) w).1 ≡ none
        → New (file_call (rename temporary destination) w).0
    pub not_renamed :
        (w : World) (errno : ℕ)
        → Old w
        → (file_call (rename temporary destination) w).1 ≡ some errno
        → Old (file_call (rename temporary destination) w).0
    pub unlinked : (w : World) → Old w → Old (file_call (unlink temporary) w).0

  module _ (temporary destination text : List ℕ) (Old Written Ready New : World → Type 0)
      (h : IsReplacing temporary destination text Old Written Ready New) where
    abbrev OldOrNew : World → Type 0
    OldOrNew w = Old w ⊎ New w

    after_rename-OldOrNew :
        (r : World × Option ℕ)
        → (r.1 ≡ none → New r.0)
        → ((errno : ℕ) → r.1 ≡ some errno → Old r.0)
        → OldOrNew (after_rename S temporary r)
    unfolding after_rename unlink_temporary
    after_rename-OldOrNew (w, none) new old = inr (new refl)
    after_rename-OldOrNew (w, some errno) new old = inl (h.unlinked w (old errno refl))

    after_sync-OldOrNew :
        (r : World × Option ℕ)
        → Old r.0
        → (r.1 ≡ none → Ready r.0)
        → OldOrNew (after_sync S temporary destination r)
    unfolding after_sync unlink_temporary
    after_sync-OldOrNew (w, none) old ready =
        after_rename-OldOrNew _ (h.renamed w (ready refl)) (λ errno e. h.not_renamed w errno old e)
    after_sync-OldOrNew (w, some errno) old ready = inl (h.unlinked w old)

    after_write-OldOrNew :
        (r : World × Option ℕ)
        → Old r.0
        → (r.1 ≡ none → Written r.0)
        → OldOrNew (after_write S temporary destination r)
    unfolding after_write unlink_temporary
    after_write-OldOrNew (w, none) old written =
        after_sync-OldOrNew _ (h.synced w old) (h.synced_complete w (written refl))
    after_write-OldOrNew (w, some errno) old written = inl (h.unlinked w old)

    after_create-OldOrNew :
        (r : World × Option ℕ) → Old r.0 → OldOrNew (after_create S temporary destination text r)
    unfolding after_create
    after_create-OldOrNew (w, none) old = after_write-OldOrNew _ (h.written w old) (h.complete w)
    after_create-OldOrNew (w, some errno) old = inl old

    replace_file-OldOrNew :
        (w : World) → Old w → OldOrNew (replace_file S temporary destination text w)
    unfolding replace_file
    replace_file-OldOrNew w old = after_create-OldOrNew _ (h.created w old)

  -- The state file is replaced as a whole, whichever calls fail: it ends as it was, or as the new text.
  -- What is assumed of the calls is that none harms the file but a rename that succeeds, that writing
  -- the text in full and then synchronizing it, both with success, make the temporary file ready, and
  -- that renaming a temporary file that is ready makes the state file new.
  pub write_state-IsWhole :
      (control_dir destination temporary text : List ℕ) (s : SavedState) (w : World)
      (Old Written Ready New : World → Type 0)
      → state_path S control_dir ≡ some destination
      → temporary_path destination (kernel.getpid w) ≡ some temporary
      → state_text (S.realtime_seconds w) s ≡ some text
      → IsReplacing temporary destination text Old Written Ready New
      → Old w
      → Old (write_state S control_dir s w) ⊎ New (write_state S control_dir s w)
  unfolding write_state write_state_at write_text_of
  write_state-IsWhole control_dir destination temporary text s w Old Written Ready New e f g h old =
      rw (e, write_state_at)
        (rw (f, write_text_of)
          (rw (g, write_text_of)
            (replace_file-OldOrNew temporary destination text Old Written Ready New h w old)))
