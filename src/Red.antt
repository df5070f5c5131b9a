-- ===== src/Red.antt =====
-- The IPv4 stack, nucleo/controladores/red/pila.c.
pub mod Orden
pub mod Suma
pub mod Tcp
pub mod Tests
