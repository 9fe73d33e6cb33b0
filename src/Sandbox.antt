-- ===== src/Sandbox.antt =====
-- The seccomp filters that the launcher installs: a machine for classic BPF and the three programs.
pub mod Bpf
pub mod Programs
pub mod Verdicts
pub mod Install
