-- ===== src/Site/Files.antt =====
-- The configuration files that the constructor of `Site` writes.
pub mod Paths
pub mod Chronos
pub mod Whole
pub mod Read
