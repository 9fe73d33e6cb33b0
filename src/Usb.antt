-- ===== src/Usb.antt =====
-- Host USB devices that the launcher takes from Android, app/src/main/cpp/bfu_namespace_probe.c.
pub mod Host
pub mod Filter
pub mod Notation
pub mod RoundTrip
pub mod Accepted
pub mod Sysfs
pub mod Records
pub mod Exclusive
pub mod Bounds
pub mod Rounds
pub mod Confined
pub mod Taking
pub mod Giving
