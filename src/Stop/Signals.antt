-- ===== src/Stop/Signals.antt =====
-- Whom a stop signals: whatever the system's other calls keep, and signals to targets, a stop keeps.
use dawnshell.Prelude.{ℕ, zero, suc, ◌≡◌, refl, inl, inr, Option, none, some, List, ltb, Bool-cases}
use dawnshell.Cgroup.Keeping.{Keeps, look-Keeps}
use dawnshell.Cgroup.Kernel.{sleep}
use dawnshell.Cgroup.Run.{⊤, look}
use dawnshell.Launch.Namespaces.{validate_supervisor_identity}
use dawnshell.State.Fields.{SavedState}
use dawnshell.Stop.Delegated.{sleep_for}
use dawnshell.Stop.Orderly.{valid_service, valid_supervisor}
use dawnshell.Stop.System.{System, read_state}
use dawnshell.Stop.Targets.{
  IsKept, IsTarget, recorded_supervisor, recorded_service, read_state-keeps,
}
use dawnshell.Stop.Wait.{
  Waited, after_test, wait_until, locked, try_lock, wait_for_lock, validate_service,
}

module _ (S : System) (Inv : S.kernel.World → Type 0) (h : IsKept S Inv) where
  open S use {kernel, proc, kill}
  open kernel use {World}

  pub looks :
      {A : Type 0} {R : A → Type 0} (get : World → World × A)
      → ((w : World) → Inv w → Inv (get w).0)
      → ((w : World) → R (get w).1)
      → Keeps Inv R (look get)
  looks get k r = look-Keeps get k (λ w i. r w)

  after_test-keeps :
      (r : World × Option Waited) (rest : World → World × Waited)
      → Inv r.0
      → ((w : World) → Inv w → Inv (rest w).0)
      → Inv (after_test S r rest).0
  unfolding after_test
  after_test-keeps (w, none) rest i k = k w i
  after_test-keeps (w, some r) rest i k = i

  pub wait_until-keeps :
      (test : World → World × Option Waited)
      → ((w : World) → Inv w → Inv (test w).0)
      → (fuel period deadline : ℕ) (w : World) → Inv w
      → Inv (wait_until S test fuel period deadline w).0
  unfolding wait_until
  wait_until-keeps test k zero period deadline w i = i
  wait_until-keeps test k (suc fuel) period deadline w i =
      let read = h.clock_keeps w i in
      elim (Bool-cases (ltb (S.monotonic_millis w).1 deadline)) [
        | inr over ↦ rw over read
        | inl early ↦ rw early (
            after_test-keeps (test (S.monotonic_millis w).0) _ (k _ read) (λ w' j.
              wait_until-keeps test k fuel period deadline (sleep_for S period w')
                (h.called (sleep period) w' j)))
      ]

  locked-keeps : (r : World × Option ℕ) → Inv r.0 → Inv (locked S r).0
  unfolding locked
  locked-keeps (w, none) i = h.unlock_keeps w i
  locked-keeps (w, some errno) i = i

  pub wait_for_lock-keeps :
      (fuel period timeout : ℕ) (w : World) → Inv w → Inv (wait_for_lock S fuel period timeout w).0
  unfolding wait_for_lock
  wait_for_lock-keeps fuel period timeout w i =
      wait_until-keeps (try_lock S) (λ w' j. unfold try_lock in locked-keeps _ (h.flock_keeps w' j))
        fuel period _ _ (h.clock_keeps w i)

  -- A record that was read, and whose service or supervisor is the recorded one.
  abbrev pub WasRead : Option SavedState → Type 0
  WasRead o =
      (s : SavedState)
      → o ≡ some s
      → (control_dir : List ℕ) × (before : World) × ((read_state S control_dir before).1 ≡ some s)

  abbrev pub HasService : Option SavedState → Type 0
  HasService none = ⊤
  HasService (some s) = IsTarget S s.launcher.init_host_pid

  abbrev pub HasTarget : Option ℕ → Type 0
  HasTarget none = ⊤
  HasTarget (some pid) = IsTarget S pid

  pub read_state-Keeps :
      (control_dir : List ℕ) → Keeps Inv WasRead (look (read_state S control_dir))
  read_state-Keeps control_dir =
      looks (read_state S control_dir) (read_state-keeps S Inv h control_dir)
        (λ w s e. (control_dir, w, e))

  pub valid_service-Keeps :
      (recorded : Option SavedState)
      → WasRead recorded
      → Keeps Inv HasService (look (valid_service S recorded))
  unfolding valid_service
  valid_service-Keeps none r = looks _ (λ w i. i) (λ w. tt)
  valid_service-Keeps (some s) r =
      looks _ (λ w i. i)
        (λ w. elim (Bool-cases (validate_service S s (proc w))) [
          | inl valid ↦
              let (dir, before, e) = r s refl in rw valid (recorded_service s dir before w e valid)
          | inr other ↦ rw other tt
        ])

  pub valid_supervisor-Keeps :
      (recorded : Option SavedState)
      → WasRead recorded
      → Keeps Inv HasTarget (look (valid_supervisor S recorded))
  unfolding valid_supervisor
  valid_supervisor-Keeps none r = looks _ (λ w i. i) (λ w. tt)
  valid_supervisor-Keeps (some s) r =
      looks _ (λ w i. i)
        (λ w. elim (Bool-cases (validate_supervisor_identity (proc w) s.launcher)) [
          | inl valid ↦
              let (dir, before, e) = r s refl in
              rw valid (recorded_supervisor s dir before w e valid)
          | inr other ↦ rw other tt
        ])
