-- ===== src/Sandbox/Bpf.antt =====
-- Classic BPF as far as the filters use it: the instructions and what they do to the accumulator.
-- The kernel lets no program jump backwards, so a run walks down the list of instructions.
use dawnshell.Prelude.{
  ℕ, zero, suc, Option, none, some, List, [], ◌∷◌, ◌==◌, if◌then◌else◌, has_bit,
}

-- The fields of `struct seccomp_data` that the filters load, as 32-bit words; `arg0` is the low word
-- of `args[0]`.
pub record SeccompData : Type 0 where
  pub nr : ℕ
  pub arch : ℕ
  pub arg0 : ℕ

pub data Field : Type 0 where
  nr_field arch_field arg0_field : Field

-- `BPF_LD | BPF_W | BPF_ABS`, `BPF_JMP | BPF_JEQ | BPF_K`, `BPF_JMP | BPF_JSET | BPF_K` (for a single
-- bit) and `BPF_RET | BPF_K`; the last two numbers of a jump are the instructions to skip if the
-- test holds and if it fails.
pub data Insn : Type 0 where
  ld : Field → Insn
  jeq : ℕ → ℕ → ℕ → Insn
  jset : ℕ → ℕ → ℕ → Insn
  ret : ℕ → Insn

abbrev pub load : Field → SeccompData → ℕ
load nr_field d = d.nr
load arch_field d = d.arch
load arg0_field d = d.arg0

-- `skip` instructions are passed over first. A program that ends without `ret` has no result.
unfoldable pub run : List Insn → ℕ → SeccompData → ℕ → Option ℕ
run [] skip d a = none
run (i ∷ is) (suc skip) d a = run is skip d a
run (ld f ∷ is) zero d a = run is zero d (load f d)
run (jeq k t f ∷ is) zero d a = run is (if a == k then t else f) d a
run (jset k t f ∷ is) zero d a = run is (if has_bit a k then t else f) d a
run (ret k ∷ is) zero d a = some k
