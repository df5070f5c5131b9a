-- ===== src/Trabajos.antt =====
-- The batches of work for the processors, nucleo/base/trabajos.c.
pub mod Defs
pub mod Cuentas
pub mod Una
pub mod Sola
pub mod Tests
