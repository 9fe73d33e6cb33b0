-- ===== src/Launch.antt =====
-- The launcher, app/src/main/cpp/bfu_namespace_probe.c: its options, its choice of a mode and its
-- checks on namespaces.
pub mod Options
pub mod Agreement
pub mod Command
pub mod Written
pub mod Checked
pub mod Namespaces
pub mod Capture
pub mod Boundaries
