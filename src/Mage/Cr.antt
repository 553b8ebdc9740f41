-- ===== src/Mage/Cr.antt =====
-- magefiles/cr.go.
pub mod Tracing
pub mod Store
pub mod Receive
pub mod Query
pub mod Ruler
pub mod Compact
pub mod Needs
