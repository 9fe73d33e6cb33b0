-- ===== src/Wire.antt =====
-- The byte-level protocol between `dawnshell-codec` and its worker.
pub mod Bytes
pub mod Laws
pub mod Kind
pub mod Header
pub mod Fields
