-- ===== src/Mtd.antt =====
-- The flash partitions of mtdutils/mtdutils.c.
pub mod Device
pub mod Partitions
pub mod Read
pub mod Write
mod Tests
