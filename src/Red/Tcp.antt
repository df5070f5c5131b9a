-- ===== src/Red/Tcp.antt =====
-- The TCP client of nucleo/controladores/red/pila.c.
pub mod Defs
pub mod Segmento
pub mod Recibir
pub mod Entrega
