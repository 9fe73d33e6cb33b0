-- ===== src/Stop/Terminated.antt =====
-- Whom `terminate_delegated_processes` signals.
use mathlib.Core.Path.{subst}
use dawnshell.Prelude.{
  ℕ, zero, suc, inl, inr, Bool, true, false, Option, none, some, List, [], ◌∷◌, ltb, ◌==◌,
  if◌then◌else◌, Bool-cases, Option-cases, Either-cases, codes,
}
use dawnshell.Cgroup.Kernel.{sleep}
use dawnshell.Cgroup.Run.{⊤}
use dawnshell.Stop.Delegated.{
  pid_of_name, proc_cgroup_path, lowest_of, remove_first, process_in_delegated_cgroup,
  delegated_pid, delegated_process, collect_names, collect_delegated_processes, kill_all,
  kill_children_first, terminate_found, terminate_rounds, terminate_delegated_processes,
}
use dawnshell.Stop.Signals.{HasTarget}
use dawnshell.Stop.System.{System, sigkill}
use dawnshell.Stop.Targets.{IsKept, IsTarget, delegated}

module _ (S : System) (Inv : S.kernel.World → Type 0) (h : IsKept S Inv) where
  open S use {kernel, proc, kill}
  open kernel use {World}

  -- Every process is a target.
  abbrev AllTargets : List ℕ → Type 0
  AllTargets [] = ⊤
  AllTargets (pid ∷ pids) = IsTarget S pid × AllTargets pids

  -- A world with `Inv` and targets.
  abbrev Finds : World × Option ℕ → Type 0
  Finds (w, found) = Inv w × HasTarget S Inv h found

  abbrev FindsAll : World × List ℕ → Type 0
  FindsAll (w, pids) = Inv w × AllTargets pids

  process_in_delegated_cgroup-keeps :
      (pid : ℕ) (w : World) → Inv w → Inv (process_in_delegated_cgroup S pid w).0
  unfolding process_in_delegated_cgroup
  process_in_delegated_cgroup-keeps pid w i =
      let kept = h.read_keeps (proc_cgroup_path pid) 4095 w i in
      elim (Either-cases (kernel.read (proc_cgroup_path pid) 4095 w).1) [
        | inl (errno, e) ↦ rw (e, process_in_delegated_cgroup) kept
        | inr (bytes, e) ↦ rw (e, process_in_delegated_cgroup) kept
      ]

  delegated_process-Finds : (pid : Option ℕ) (w : World) → Inv w → Finds (delegated_process S pid w)
  unfolding delegated_process delegated_pid
  delegated_process-Finds none w i = (i, tt)
  delegated_process-Finds (some pid) w i =
      let kept = process_in_delegated_cgroup-keeps pid w i in
      elim (Bool-cases (pid == kernel.getpid w)) [
        | inl own ↦ rw own (i, tt)
        | inr other ↦ elim (Bool-cases (process_in_delegated_cgroup S pid w).1) [
          | inl inside ↦ rw other (rw inside (kept, delegated pid w inside other))
          | inr outside ↦ rw other (rw outside (kept, tt))
        ]
      ]

  collect_names-FindsAll :
      (room : ℕ) (names : List (List ℕ)) (w : World)
      → Inv w
      → FindsAll (collect_names S room names w)
  unfolding collect_names
  collect_names-FindsAll room [] w i = (i, tt)
  collect_names-FindsAll zero (name ∷ names) w i = (i, tt)
  collect_names-FindsAll (suc room) (name ∷ names) w i =
      let found = delegated_process-Finds (pid_of_name name) w i in
      elim (Option-cases (delegated_process S (pid_of_name name) w).1) [
        | inl e ↦ rw (e, collect_names) (collect_names-FindsAll (suc room) names _ found.0)
        | inr (pid, e) ↦
            let (rest, targets) = collect_names-FindsAll room names _ found.0 in
            rw (e, collect_names) (rest, (subst (HasTarget S Inv h) e found.1, targets))
      ]

  collect_delegated_processes-FindsAll :
      (capacity : ℕ) (w : World) → Inv w → FindsAll (collect_delegated_processes S capacity w)
  unfolding collect_delegated_processes
  collect_delegated_processes-FindsAll capacity w i =
      let kept = h.readdir_keeps (codes "/proc") w i in
      elim (Either-cases (kernel.readdir (codes "/proc") w).1) [
        | inl (errno, e) ↦ rw (e, collect_delegated_processes) (kept, tt)
        | inr (names, e) ↦
            rw (e, collect_delegated_processes) (collect_names-FindsAll capacity names _ kept)
      ]

  kill_all-keeps : (pids : List ℕ) (w : World) → AllTargets pids → Inv w → Inv (kill_all S pids w)
  unfolding kill_all
  kill_all-keeps [] w targets i = i
  kill_all-keeps (pid ∷ pids) w targets i =
      kill_all-keeps pids _ targets.1 (h.killed pid sigkill w targets.0 i)

  remove_first-AllTargets :
      (pid : ℕ) (pids : List ℕ) → AllTargets pids → AllTargets (remove_first pid pids)
  unfolding remove_first
  remove_first-AllTargets pid [] targets = tt
  remove_first-AllTargets pid (other ∷ pids) targets = elim (Bool-cases (other == pid)) [
    | inl same ↦ rw same (targets.1)
    | inr differs ↦ rw differs (targets.0, remove_first-AllTargets pid pids targets.1)
  ]

  lowest_of-IsTarget :
      (pids : List ℕ) (pid : ℕ) → IsTarget S pid → AllTargets pids → IsTarget S (lowest_of pid pids)
  unfolding lowest_of
  lowest_of-IsTarget [] pid target targets = target
  lowest_of-IsTarget (other ∷ pids) pid target targets =
      lowest_of-IsTarget pids _ (lower (ltb other pid)) targets.1
    where
      lower : (b : Bool) → IsTarget S (if b then other else pid)
      lower true = targets.0
      lower false = target

  kill_children_first-keeps :
      (pid : ℕ) (pids : List ℕ) (w : World)
      → IsTarget S pid
      → AllTargets pids
      → Inv w
      → Inv (kill_children_first S pid pids w)
  unfolding kill_children_first
  kill_children_first-keeps pid pids w target targets i = h.called (sleep 300) _ (
      h.killed (lowest_of pid pids) sigkill _ (lowest_of-IsTarget pids pid target targets) (
        h.called (sleep 200) _ (
          kill_all-keeps (remove_first (lowest_of pid pids) (pid ∷ pids)) w
            (remove_first-AllTargets (lowest_of pid pids) (pid ∷ pids) (target, targets)) i)))

  terminate_found-keeps :
      (rest : World → World × ℕ) (r : World × List ℕ)
      → ((w : World) → Inv w → Inv (rest w).0)
      → FindsAll r
      → Inv (terminate_found S rest r).0
  unfolding terminate_found
  terminate_found-keeps rest (w, []) k f = f.0
  terminate_found-keeps rest (w, pid ∷ pids) k f =
      k _ (kill_children_first-keeps pid pids w f.1.0 f.1.1 f.0)

  terminate_rounds-keeps : (n : ℕ) (w : World) → Inv w → Inv (terminate_rounds S n w).0
  unfolding terminate_rounds
  terminate_rounds-keeps zero w i = (collect_delegated_processes-FindsAll 512 w i).0
  terminate_rounds-keeps (suc n) w i =
      terminate_found-keeps (terminate_rounds S n) (collect_delegated_processes S 512 w)
        (terminate_rounds-keeps n) (collect_delegated_processes-FindsAll 512 w i)

  pub terminate_delegated_processes-keeps :
      (w : World) → Inv w → Inv (terminate_delegated_processes S w).0
  unfolding terminate_delegated_processes
  terminate_delegated_processes-keeps w i = terminate_rounds-keeps 5 w i
