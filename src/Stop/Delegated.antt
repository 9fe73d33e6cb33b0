-- ===== src/Stop/Delegated.antt =====
-- The processes in the delegated cgroup: `cgroup_path_is_delegated`, `process_in_delegated_cgroup`,
-- `collect_delegated_processes` and `terminate_delegated_processes`.
use dawnshell.Prelude.{
  ℕ, zero, suc, inl, inr, Bool, true, false, not, ◌&&◌, ◌||◌, Option, none, some, List, [], ◌∷◌,
  ◌++◌, ltb, ◌==◌, if◌then◌else◌, decimal, codes, length,
}
use dawnshell.Cgroup.Controllers.{tokens}
use dawnshell.Cgroup.Kernel.{sleep}
use dawnshell.Cgroup.Paths.{cgroup_child_name}
use dawnshell.State.Number.{read_number}
use dawnshell.Stop.System.{System, sigkill}

-- Behind the prefix, if the text has it.
unfoldable pub strip_prefix : List ℕ → List ℕ → Option (List ℕ)
strip_prefix [] text = some text
strip_prefix (x ∷ xs) [] = none
strip_prefix (x ∷ xs) (y ∷ ys) = if x == y then strip_prefix xs ys else none

-- The byte behind the name ends the text or is a slash.
abbrev pub ends_name : List ℕ → Bool
ends_name [] = true
ends_name (c ∷ rest) = c == 47

unfoldable pub cgroup_path_is_delegated : List ℕ → Bool
cgroup_path_is_delegated [] = false
cgroup_path_is_delegated (c ∷ path) =
    if c == 47
    then elim (strip_prefix cgroup_child_name path) [ none ↦ false | some rest ↦ ends_name rest ]
    else false

-- `strrchr(line, ':')`: what is behind the last colon.
unfoldable pub after_colon : List ℕ → Option (List ℕ)
after_colon [] = none
after_colon (c ∷ rest) = elim (after_colon rest) [
  | some value ↦ some value
  | none ↦ if c == b':' then some rest else none
]

unfoldable pub line_is_delegated : List ℕ → Bool
line_is_delegated line = elim (after_colon line) [
  | none ↦ false
  | some value ↦ cgroup_path_is_delegated value
]

unfoldable pub any_delegated : List (List ℕ) → Bool
any_delegated [] = false
any_delegated (line ∷ lines) = line_is_delegated line || any_delegated lines

-- What `process_in_delegated_cgroup` makes of the file's contents.
unfoldable pub contents_delegated : List ℕ → Bool
contents_delegated contents = any_delegated (tokens (λ c. c == 10) contents)

-- A name of /proc that is a number above 1; one beyond `int` is not reduced.
unfoldable pub pid_of_name : List ℕ → Option ℕ
pid_of_name name = elim (read_number name) [
  | none ↦ none
  | some (minus, (value, rest)) ↦
      if not minus && (length rest == 0 && ltb 1 value) then some value else none
]

abbrev pub proc_cgroup_path : ℕ → List ℕ
proc_cgroup_path pid = codes "/proc/" ++ (decimal pid ++ codes "/cgroup")

-- The first of the smallest, `pid` if the rest has none below it.
unfoldable pub lowest_of : ℕ → List ℕ → ℕ
lowest_of pid [] = pid
lowest_of pid (other ∷ pids) = lowest_of (if ltb other pid then other else pid) pids

-- The list less the first that is equal.
unfoldable pub remove_first : ℕ → List ℕ → List ℕ
remove_first pid [] = []
remove_first pid (other ∷ pids) =
    let rest = remove_first pid pids in if other == pid then pids else other ∷ rest

module _ (S : System) where
  open S use {kernel, kill}
  open kernel use {World, read, readdir, getpid}

  unfoldable pub process_in_delegated_cgroup : ℕ → World → World × Bool
  process_in_delegated_cgroup pid w =
      let (w', contents) = read (proc_cgroup_path pid) 4095 w in
      elim contents [ inl errno ↦ (w', false) | inr bytes ↦ (w', contents_delegated bytes) ]

  -- The process, if it is not the launcher's own and is inside.
  unfoldable pub delegated_pid : ℕ → World → World × Option ℕ
  delegated_pid pid w =
      if pid == getpid w
      then (w, none)
      else let (w', inside) = process_in_delegated_cgroup pid w in
        (w', if inside then some pid else none)

  -- The test of the loop on one name.
  unfoldable pub delegated_process : Option ℕ → World → World × Option ℕ
  delegated_process none w = (w, none)
  delegated_process (some pid) w = delegated_pid pid w

  -- The loop, on the names that are left, with room for so many processes.
  unfoldable pub collect_names : ℕ → List (List ℕ) → World → World × List ℕ
  collect_names room [] w = (w, [])
  collect_names zero (name ∷ names) w = (w, [])
  collect_names (suc room) (name ∷ names) w =
      let (w1, found) = delegated_process (pid_of_name name) w in
      elim found [
        | none ↦ collect_names (suc room) names w1
        | some pid ↦ let (w2, pids) = collect_names room names w1 in (w2, pid ∷ pids)
      ]

  unfoldable pub collect_delegated_processes : ℕ → World → World × List ℕ
  collect_delegated_processes capacity w =
      let (w', names) = readdir (codes "/proc") w in
      elim names [ inl errno ↦ (w', []) | inr entries ↦ collect_names capacity entries w' ]

  unfoldable pub kill_all : List ℕ → World → World
  kill_all [] w = w
  kill_all (pid ∷ pids) w = kill_all pids (kill pid sigkill w).0

  abbrev pub sleep_for : ℕ → World → World
  sleep_for ms w = (kernel.call (sleep ms) w).0

  -- The signals of one round on the processes that it found.
  unfoldable pub kill_children_first : ℕ → List ℕ → World → World
  kill_children_first pid pids w =
      let lowest = lowest_of pid pids in
      let w1 = sleep_for 200 (kill_all (remove_first lowest (pid ∷ pids)) w) in
      sleep_for 300 (kill lowest sigkill w1).0

  -- A round ends the loop if it finds no process.
  unfoldable pub terminate_found : (World → World × ℕ) → World × List ℕ → World × ℕ
  terminate_found rest (w, []) = (w, 0)
  terminate_found rest (w, pid ∷ pids) = rest (kill_children_first pid pids w)

  -- The rounds that are left.
  unfoldable pub terminate_rounds : ℕ → World → World × ℕ
  terminate_rounds zero w = let (w', pids) = collect_delegated_processes 512 w in (w', length pids)
  terminate_rounds (suc n) w =
      terminate_found (terminate_rounds n) (collect_delegated_processes 512 w)

  unfoldable pub terminate_delegated_processes : World → World × ℕ
  terminate_delegated_processes w = terminate_rounds 5 w
