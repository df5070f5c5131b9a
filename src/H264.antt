-- ===== src/H264.antt =====
-- The H.264 decoder's bit reader, nucleo/controladores/multimedia/h264/bits.c.
pub mod Defs
pub mod Leer
pub mod Final
pub mod Acuerdo
pub mod Tests
