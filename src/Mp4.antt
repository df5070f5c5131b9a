-- ===== src/Mp4.antt =====
-- The MP4 container of nucleo/controladores/multimedia/mp4/mp4.c.
pub mod Vista
pub mod Pista
pub mod Abrir
pub mod Cajas
pub mod Tablas
pub mod Video
pub mod Sana
pub mod Fuente
pub mod Pedidas
pub mod Rondas
pub mod Cursor
pub mod Siguiente
pub mod Reparto
pub mod Cuenta
pub mod Sitio
pub mod Lugar
pub mod Momento
pub mod Horario
pub mod Entrega
pub mod Composicion
pub mod Audio
pub mod Imagen
pub mod Orden
pub mod Tests
pub mod Sonido
pub mod Cine
