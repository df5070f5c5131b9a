-- ===== src/Particiones.antt =====
-- The partition tables of nucleo/controladores/particiones.c.
pub mod Usb
pub mod Leer
pub mod Defs
pub mod Descubrir
pub mod Exacto
pub mod Tabla
pub mod Hallar
pub mod Descubierta
pub mod Tests
