-- ===== src/Tests.antt =====
-- The theorems at concrete inputs.
mod Fixtures
mod Worker
mod Transport
mod Launch
mod Sandbox
mod Devices
mod Cgroup
mod Stop
mod Replaced
mod Usb
mod Wire
mod Media
mod State
mod Codecs
mod Client
