-- ===== src/Cgroup/Verdict.antt =====
-- What the device programs answer.
use dawnshell.Prelude.{ℕ, ◌≡◌, refl, some, arith, ◌==◌, if◌then◌else◌}
use dawnshell.Cgroup.Device.{probe_program, deny_program, run_device}

-- The program that denies USB devices runs to an answer, from any registers: 0, which refuses the
-- device, if its major number is 189, and 1, which allows it, otherwise; the program of the probe
-- allows every device.
pub run_device-verdicts :
    (major r0 r2 : ℕ)
    → (run_device 5 deny_program major r0 r2 ≡ some (if major == 189 then 0 else 1))
      × (run_device 2 probe_program major r0 r2 ≡ some 1)
unfolding run_device deny_program probe_program
run_device-verdicts major r0 r2 = (ground arith, refl)
