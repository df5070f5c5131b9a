-- ===== src/Dma.antt =====
-- nucleo/base/dma.c: the arena of physically contiguous pages.
pub mod Defs
pub mod Bitmap
pub mod Bloque
pub mod Buscar
pub mod Inv
pub mod Ocupar
pub mod Asignar
pub mod Desocupar
pub mod Liberar
pub mod Run
pub mod Tests
