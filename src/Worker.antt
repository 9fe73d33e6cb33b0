-- ===== src/Worker.antt =====
-- The codec worker, app/src/main/cpp/dawnshell_codec_worker.c.
pub mod Platform
pub mod Table
pub mod Health
pub mod Session
pub mod Dispatch
pub mod Steps
pub mod Invariant
pub mod Spec
pub mod Guards
pub mod Lifecycle
pub mod Closing
pub mod Stale
pub mod Atomic
pub mod Reported
