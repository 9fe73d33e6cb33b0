-- ===== src/Stop.antt =====
-- Stopping a launch, app/src/main/cpp/bfu_namespace_probe.c: `run_stop`, `run_force_stop` and their
-- waits and signals.
pub mod System
pub mod Delegated
pub mod Names
pub mod Replaced
pub mod Wait
pub mod Orderly
pub mod Force
pub mod Ends
pub mod Released
pub mod Targets
pub mod Signals
pub mod Confined
pub mod Terminated
pub mod Forced
