-- ===== src/Sandbox/Verdicts.antt =====
-- What the filters answer to every system call.
use dawnshell.Prelude.{
  ℕ, ◌≡◌, refl, inl, inr, Bool, false, ◌&&◌, ◌||◌, Option, none, some, List, [], ◌∷◌, arith, ◌==◌,
  if◌then◌else◌, Bool-cases, has_bit,
}
use dawnshell.Sandbox.Bpf.{SeccompData, nr_field, arch_field, Insn, ld, jeq, ret, run}
use dawnshell.Sandbox.Programs.{
  Abi, allow, ret_errno, eperm, enosys, clone_newipc, keyctl_join_session_keyring, deny_flag,
  deny_call, ipc_filter, close_range_filter, keyring_filter,
}

-- The call has this number, if the headers know it.
abbrev pub is_call : Option ℕ → SeccompData → Bool
is_call none d = false
is_call (some call) d = d.nr == call

-- What the filter on IPC namespaces is for, on a call of its own architecture and in general.
abbrev pub call_verdict : Abi → SeccompData → ℕ
call_verdict abi d =
    if (is_call abi.unshare d || is_call abi.clone d) && has_bit d.arg0 clone_newipc
    then ret_errno eperm
    else if is_call abi.clone3 d
    then ret_errno enosys
    else allow

abbrev pub ipc_verdict : Abi → SeccompData → ℕ
ipc_verdict abi d = if d.arch == abi.audit_arch then call_verdict abi d else allow

run-deny_flag :
    (call : Option ℕ) (rest : List Insn) (d : SeccompData)
    → run (deny_flag call (ld nr_field ∷ rest)) 0 d d.nr ≡ (
        if is_call call d && has_bit d.arg0 clone_newipc
        then some (ret_errno eperm)
        else run rest 0 d d.nr)
unfolding run deny_flag
run-deny_flag none rest d = refl
run-deny_flag (some call) rest d = ground arith

run-deny_call :
    (call : Option ℕ) (d : SeccompData)
    → run (deny_call call (ret allow ∷ [])) 0 d d.nr
      ≡ (if is_call call d then some (ret_errno enosys) else some allow)
unfolding run deny_call
run-deny_call none d = refl
run-deny_call (some call) d = ground arith

run-arch :
    (arch : ℕ) (rest : List Insn) (d : SeccompData)
    → run (ld arch_field ∷ jeq arch 1 0 ∷ ret allow ∷ rest) 0 d 0
      ≡ (if d.arch == arch then run rest 0 d d.arch else some allow)
unfolding run
run-arch arch rest d = ground arith

run-calls :
    (abi : Abi) (d : SeccompData)
    → run
        (ld nr_field
          ∷ deny_flag abi.unshare (
              ld nr_field
              ∷ deny_flag abi.clone (ld nr_field ∷ deny_call abi.clone3 (ret allow ∷ []))))
        0
        d
        d.arch
      ≡ some (call_verdict abi d)
unfolding run
run-calls abi d =
    rw
      (run-deny_flag abi.unshare
        (deny_flag abi.clone (ld nr_field ∷ deny_call abi.clone3 (ret allow ∷ []))) d)
      (rw (run-deny_flag abi.clone (deny_call abi.clone3 (ret allow ∷ [])) d) (
        rw (run-deny_call abi.clone3 d) (elim (Bool-cases (has_bit d.arg0 clone_newipc)) [
          | inl e ↦ rw e (ground arith)
          | inr e ↦ rw e (ground arith)
        ])))

-- The filter on IPC namespaces runs to an answer on every system call: EPERM to unshare and clone
-- with CLONE_NEWIPC, ENOSYS to clone3, and it allows all else and every foreign architecture.
pub run-ipc_filter :
    (abi : Abi) (d : SeccompData) → run (ipc_filter abi) 0 d 0 ≡ some (ipc_verdict abi d)
unfolding ipc_filter
run-ipc_filter abi d =
    rw
      (run-arch abi.audit_arch
        (ld nr_field
          ∷ deny_flag abi.unshare (
              ld nr_field
              ∷ deny_flag abi.clone (ld nr_field ∷ deny_call abi.clone3 (ret allow ∷ []))))
        d)
      (rw (run-calls abi d) (ground arith))

-- The filter on close_range answers ENOSYS to that call of its own architecture and the filter on
-- keyctl to the operation that joins a session keyring; both allow every other call.
pub run-guards :
    (audit_arch call : ℕ) (d : SeccompData)
    → (run (close_range_filter audit_arch call) 0 d 0
        ≡ some (if d.arch == audit_arch && d.nr == call then ret_errno enosys else allow))
      × (run (keyring_filter audit_arch call) 0 d 0
          ≡ some (
              if d.arch == audit_arch && (d.nr == call && d.arg0 == keyctl_join_session_keyring)
              then ret_errno enosys
              else allow))
unfolding run close_range_filter keyring_filter
run-guards arch call d = (ground arith, ground arith)
