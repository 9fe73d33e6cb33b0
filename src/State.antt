-- ===== src/State.antt =====
-- The state file of the launcher, app/src/main/cpp/bfu_namespace_probe.c: `write_state` and `read_state`.
pub mod Number
pub mod Fields
pub mod File
pub mod Digits
pub mod Lines
pub mod Adopted
pub mod Names
pub mod RoundTrip
