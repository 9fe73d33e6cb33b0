-- ===== src/Cgroup/Device.antt =====
-- Device programs of cgroup v2, and a machine for the instructions in them.
use dawnshell.Prelude.{ℕ, zero, suc, Option, none, some, List, [], ◌∷◌, ◌==◌, if◌then◌else◌, drop}

-- `BPF_LDX | BPF_W | BPF_MEM` of the device's major number into register 2, `BPF_ALU64 | BPF_MOV |
-- BPF_K` into register 0, `BPF_JMP | BPF_JNE | BPF_K` on register 2, and `BPF_JMP | BPF_EXIT`.
pub data DeviceInsn : Type 0 where
  load_major : DeviceInsn
  move : ℕ → DeviceInsn
  jump_not_equal : ℕ → ℕ → DeviceInsn
  leave : DeviceInsn

-- `instructions` of `probe_cgroup_device_bpf`.
unfoldable pub probe_program : List DeviceInsn
probe_program = move 1 ∷ leave ∷ []

-- `instructions` of `apply_host_usb_v2_policy`.
unfoldable pub deny_program : List DeviceInsn
deny_program = load_major ∷ move 1 ∷ jump_not_equal 1 189 ∷ move 0 ∷ leave ∷ []

-- A run of a program from its first instruction, with the two registers; as many steps as the fuel.
-- The result is register 0 at the exit, and `none` behind the end. A device is allowed if it is not 0.
unfoldable pub run_device : ℕ → List DeviceInsn → ℕ → ℕ → ℕ → Option ℕ
run_device zero program major r0 r2 = none
run_device (suc fuel) [] major r0 r2 = none
run_device (suc fuel) (load_major ∷ program) major r0 r2 = run_device fuel program major r0 major
run_device (suc fuel) (move n ∷ program) major r0 r2 = run_device fuel program major n r2
run_device (suc fuel) (jump_not_equal offset n ∷ program) major r0 r2 =
    run_device fuel (if r2 == n then program else drop offset program) major r0 r2
run_device (suc fuel) (leave ∷ program) major r0 r2 = some r0
