-- ===== src/Tests/Sandbox.antt =====
-- The filters on single system calls of the 64-bit ARM architecture.
use dawnshell.Prelude.{◌≡◌, some}
use dawnshell.Sandbox.Bpf.{run}
use dawnshell.Sandbox.Programs.{
  Abi, ret_errno, eperm, enosys, ipc_filter, close_range_filter, keyring_filter,
}
use dawnshell.Sandbox.Verdicts.{run-ipc_filter, run-guards}

abbrev arm64 : Abi
arm64 = record { audit_arch = 0xc00000b7; unshare = some 97; clone = some 220; clone3 = some 435 }

-- unshare(CLONE_NEWIPC | CLONE_NEWNS) fails with EPERM.
run-ipc_filter_example :
    run (ipc_filter arm64) 0 (record { nr = 97; arch = 0xc00000b7; arg0 = 0x08020000 }) 0
    ≡ some (ret_errno eperm)
run-ipc_filter_example =
    run-ipc_filter arm64 (record { nr = 97; arch = 0xc00000b7; arg0 = 0x08020000 })

-- keyctl(KEYCTL_JOIN_SESSION_KEYRING) fails with ENOSYS under its filter, and a filter on
-- close_range that was built for the same number fails it too.
run-guards_runs :
    (run (close_range_filter 0xc00000b7 219) 0 (record { nr = 219; arch = 0xc00000b7; arg0 = 1 }) 0
      ≡ some (ret_errno enosys))
    × (run (keyring_filter 0xc00000b7 219) 0 (record { nr = 219; arch = 0xc00000b7; arg0 = 1 }) 0
        ≡ some (ret_errno enosys))
run-guards_runs = run-guards 0xc00000b7 219 (record { nr = 219; arch = 0xc00000b7; arg0 = 1 })
