-- ===== src/Fuentes.antt =====
-- The sources that the player reads a file through: cache_fuente.c and anillo_almacenamiento.c of
-- nucleo/controladores/multimedia/reproductor.
pub mod Fiel
pub mod Cache
pub mod CacheValida
pub mod CacheFiel
pub mod Anillo
pub mod Consumo
pub mod Cadena
pub mod AnilloVivo
pub mod AnilloFiel
pub mod AnilloLeer
pub mod Demux
pub mod Tests
