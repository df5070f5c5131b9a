-- ===== src/Utf8.antt =====
-- The UTF-8 decoder of the kernel, nucleo/base/utf8.c.
pub mod Defs
pub mod Ida
pub mod Tests
