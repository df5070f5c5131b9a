-- ===== src/Memoria/Heap.antt =====
-- The kernel heap of nucleo/base/memoria.c.
pub mod Defs
pub mod Fusion
pub mod Inv
pub mod Reservar
pub mod Asignar
pub mod Segunda
pub mod Suelta
pub mod Devolver
pub mod Terminar
pub mod Tests
