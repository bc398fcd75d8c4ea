-- ===== src/Keys.antt =====
-- Canonical keys and args: packages/core/src/keys.
pub mod Value
pub mod Encode
pub mod Errors
pub mod Normal
pub mod Print
pub mod Identity
pub mod Reorder
