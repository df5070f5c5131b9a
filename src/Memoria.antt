-- ===== src/Memoria.antt =====
-- nucleo/base/memoria.c: the physical frames and the kernel heap.
pub mod Estado
pub mod Marcos
pub mod Cadena
pub mod Pila
pub mod Heap
pub mod Tests
