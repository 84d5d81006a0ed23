-- ===== src/Boot.antt =====
-- The boot-recovery gate (core/bootrecovery/bootrecovery.go) over a store for one file.
pub mod File
pub mod Gate
pub mod Safety
