-- ===== src/Sandbox/Programs.antt =====
-- The filters of app/src/main/cpp/bfu_namespace_probe.c, dawnshell_close_range_guard.h and
-- dawnshell_keyring_guard.h. The numbers of the architecture and of its system calls come from the
-- kernel's headers; one that the header lacks is `none`, and `#ifdef` leaves its test out.
use dawnshell.Prelude.{ℕ, ◌+◌, Option, none, some, List, [], ◌∷◌}
use dawnshell.Sandbox.Bpf.{nr_field, arch_field, arg0_field, Insn, ld, jeq, jset, ret}

pub record Abi : Type 0 where
  pub audit_arch : ℕ
  pub unshare : Option ℕ
  pub clone : Option ℕ
  pub clone3 : Option ℕ

abbrev pub allow : ℕ
allow = 0x7fff0000

-- `SECCOMP_RET_ERRNO | errno`.
abbrev pub ret_errno : ℕ → ℕ
ret_errno errno = 0x00050000 + errno

abbrev pub eperm : ℕ
eperm = 1

abbrev pub enosys : ℕ
enosys = 38

-- `CLONE_NEWIPC`.
abbrev pub clone_newipc : ℕ
clone_newipc = 0x08000000

abbrev pub keyctl_join_session_keyring : ℕ
keyctl_join_session_keyring = 1

-- The test of one call's flags, under its `#ifdef`.
unfoldable pub deny_flag : Option ℕ → List Insn → List Insn
deny_flag none rest = rest
deny_flag (some call) rest =
    jeq call 0 3 ∷ ld arg0_field ∷ jset clone_newipc 0 1 ∷ ret (ret_errno eperm) ∷ rest

unfoldable pub deny_call : Option ℕ → List Insn → List Insn
deny_call none rest = rest
deny_call (some call) rest = jeq call 0 1 ∷ ret (ret_errno enosys) ∷ rest

-- `filter` of `block_ipc_namespace_creation`.
unfoldable pub ipc_filter : Abi → List Insn
ipc_filter abi =
    ld arch_field
    ∷ jeq abi.audit_arch 1 0
    ∷ ret allow
    ∷ ld nr_field
    ∷ deny_flag abi.unshare
        (ld nr_field ∷ deny_flag abi.clone (ld nr_field ∷ deny_call abi.clone3 (ret allow ∷ [])))

-- `filter` of `dawnshell_install_close_range_guard`.
unfoldable pub close_range_filter : ℕ → ℕ → List Insn
close_range_filter audit_arch close_range =
    ld arch_field
    ∷ jeq audit_arch 1 0
    ∷ ret allow
    ∷ ld nr_field
    ∷ jeq close_range 0 1
    ∷ ret (ret_errno enosys)
    ∷ ret allow
    ∷ []

-- `filter` of `dawnshell_install_keyring_guard`.
unfoldable pub keyring_filter : ℕ → ℕ → List Insn
keyring_filter audit_arch keyctl =
    ld arch_field
    ∷ jeq audit_arch 1 0
    ∷ ret allow
    ∷ ld nr_field
    ∷ jeq keyctl 0 3
    ∷ ld arg0_field
    ∷ jeq keyctl_join_session_keyring 0 1
    ∷ ret (ret_errno enosys)
    ∷ ret allow
    ∷ []
