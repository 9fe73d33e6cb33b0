-- ===== src/Cgroup.antt =====
-- The launcher's cgroups, mounts and namespaces, app/src/main/cpp/bfu_namespace_probe.c.
pub mod Kernel
pub mod Device
pub mod Verdict
pub mod Run
pub mod Paths
pub mod Directory
pub mod Clean
pub mod Controllers
pub mod Prepare
pub mod Move
pub mod Launch
pub mod Mounts
pub mod Triple
pub mod Keeping
pub mod Cleaned
pub mod Gate
pub mod Resolved
