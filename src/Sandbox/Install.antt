-- ===== src/Sandbox/Install.antt =====
-- When a guard installs its filter: `dawnshell_install_close_range_guard` and
-- `dawnshell_install_keyring_guard`, which decide alike. The measurement, the two system calls that
-- can install the filter and the environment are arguments.
use dawnshell.Prelude.{
  ℕ, Bool, true, not, ◌&&◌, ◌||◌, Option, List, ◌==◌, if◌then◌else◌, codes, ℤ, pos, negsuc,
}
use dawnshell.Launch.Options.{is_text}

-- `result <= 0`.
abbrev pub is_not_positive : ℤ → Bool
is_not_positive (pos n) = n == 0
is_not_positive (negsuc n) = true

-- 1 installed, 0 not needed, -1 failed.
unfoldable pub install_guard : Option (List ℕ) → ℤ → Bool → Bool → ℤ
install_guard policy measured seccomp prctl =
    if is_text policy (codes "off")
    then pos 0
    else if not (is_text policy (codes "force")) && is_not_positive measured
    then pos 0
    else if seccomp || prctl
    then pos 1
    else negsuc 0
