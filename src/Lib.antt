-- ===== src/Lib.antt =====
-- TAEK OS is an x86_64 kernel that runs wholly in ring 0. This library models the parts of it
-- whose behaviour is decided by its own C code rather than by hardware, each from the functions
-- that it names, and proves what they promise.
--
-- The parts and the files that model them follow. A component's children hold the definitions
-- (`Defs`), their laws and the calls made of them; its `Tests` child runs the definitions on
-- small inputs. Prelude has what all share: tests on numbers, arrays as lists, the bits of
-- machine words and counting.
--
-- - Dma: the contiguous DMA allocator, nucleo/base/dma.c: `Defs` has the state (the g_dma_
--   variables) and the operations, `Bitmap` and `Bloque` the laws of the bitmap words and of runs
--   of pages, `Buscar` the search, `Inv` the invariant, `Ocupar` and `Desocupar` the two state
--   changes, `Asignar`, `Liberar` and `Run` the calls and sequences of them.
-- - Memoria: the physical frames, nucleo/base/memoria.c: `Estado` has the two-bit states
--   (pmm_estado_leer, pmm_estado_escribir), `Marcos` the stack of free frames
--   (pmm_asignar_pagina_fisica, pmm_liberar_pagina_fisica), `Cadena` its invariant, `Pila` what
--   the calls do; `Heap.Defs` and `Heap.Fusion` have the heap (asignar_memoria with its
--   expansion, liberar_memoria, reasignar_memoria, memoria_verificar_integridad), `Heap.Inv` its
--   invariant by sums over the blocks, `Heap.Reservar`, `Heap.Asignar`, `Heap.Suelta`,
--   `Heap.Devolver` and `Heap.Terminar` what the calls do. The expansion tries 128 times, as the
--   code does, and asignar_memoria calls itself once at most, so two rounds of fuel are enough. A
--   frame's first word, where the code keeps the link, is a function on addresses; the halt of
--   huevo_quebrar is a result of its own, since it does not return. `salud` is the health of
--   huevo.c, which huevo_agrietar lowers. `restos` are the headers that merges took in: they
--   stand in the data of a free block until that is handed out, and a second release or a
--   reallocation reads them (`Heap.Segunda`); a pointer to a header that is not known gives a
--   result of its own, `ajeno`.
-- - Utf8: the decoder utf8_decodificar of nucleo/base/utf8.c, which takes the bytes up to the end
--   of the string and returns the code point and the bytes left; `Ida` has the encoding of RFC
--   3629 and the round trip.
-- - H264: the bit reader of the H.264 decoder, nucleo/controladores/multimedia/h264/bits.c:
--   `Defs` has h264_bits_leer, h264_ue and h264_se, `Leer` their laws, `Final` has h264_mas_rbsp
--   and h264_fin_rbsp and `Acuerdo` how they agree. The loop of h264_ue has 32 rounds of fuel,
--   since its 32nd zero is an error.
-- - Fuentes: what the player reads a file through: `Cache` is cache_fuente.c, `Anillo` and
--   `Consumo` (anillo_rellenar, anillo_leer) are anillo_almacenamiento.c, both of
--   nucleo/controladores/multimedia/reproductor, over any function of type
--   mp4_lectura_posicional. `Fiel` says what a source promises of a file, with the failures that
--   are allowed as a parameter, so that one proof covers a source that never fails and one that
--   may. `CacheValida`, `CacheFiel`, `Cadena`, `AnilloVivo`, `AnilloFiel` and `AnilloLeer` show
--   that the two keep that promise, and `Demux` that mp4_abrir_fuente cannot tell them from the
--   file. The loop of a read has the bytes asked for as fuel, since a round copies one at least,
--   and the inner loop of anillo_leer the size of the file; the promise says that this is enough.
-- - Red: the IPv4 stack, nucleo/controladores/red/pila.c: `Orden` has the byte order (red_be16,
--   red_be32), `Suma` the Internet checksum, `Tcp.Defs` the connection g_tcp with its segments
--   (red_tcp_enviar_segmento_seq), what it does with one that arrives (red_procesar_tcp, in its
--   branches `recibir_syn`, `recibir_ack`, `recibir_datos`, `recibir_fin`) and its timer
--   (red_tcp_temporizador); `Tcp.Segmento`, `Tcp.Recibir` and `Tcp.Entrega` have its laws. The
--   segments sent are a list of their bytes, as they are handed to red_enviar_ipv4: that it may
--   wait for an ARP answer, and handle other packets meanwhile, is left out; the clock is an
--   argument.
-- - Trabajos: the batches of work, nucleo/base/trabajos.c: `Defs` has the batch, where a
--   processor can be in trabajos_tomar, and its steps; an interleaving is a list of steps, of
--   which every order is allowed. `Cuentas` counts regions and processors, `Una` has the
--   invariant of the batch and that each region is run once, `Sola` that one processor is enough.
--   The counter of regions wraps at 2^32, so the laws are about fewer steps than that.
-- - Particiones: the partition tables, nucleo/controladores/particiones.c: `Usb` is what it asks
--   of the USB driver, with the results, `Leer` the read of a partition (particion_leer), `Defs`
--   the parts that read no disk (the checksum, clasificar for the tests of particion_identificar,
--   agregar, the tests of gpt), `Descubrir` particion_identificar, gpt and particiones_descubrir;
--   `Exacto` has the laws of the read, `Tabla`, `Hallar` and `Descubierta` those of the table
--   found. A read has as many rounds of fuel as sectors, since each round reads one at least.
-- - Mp4: the MP4 container, nucleo/controladores/multimedia/mp4/mp4.c: `Vista` has the views of
--   the file's bytes with `caja`, `buscar` and `tabla`, `Pista` what both kinds of track read,
--   once for the code that pista_video and pista_audio write twice, `Abrir` pista_video,
--   pista_audio, mp4_parsear_moov and mp4_abrir. A pointer into the file is a position in its
--   bytes, a table's pointer and size are one view, and a byte past the end reads as 0: the laws
--   of `Tablas`, `Video` and `Sana` say that the views kept end in the file. `Cajas` has the laws
--   of the walk, whose fuel is the size of the container: each box takes up eight bytes at least.
--   `Fuente` is mp4_abrir_fuente over any source, with the reads it asks for recorded, and
--   `Pedidas` their law; its fuel is the size of the file, of which a box takes up eight bytes at
--   least (`Rondas`). `Cursor` has the fields of a cursor, once for both tracks, with the steps
--   that mp4_siguiente_video and mp4_siguiente_audio write twice, and mp4_leer_muestra,
--   `Siguiente` the two calls. Of the laws, `Reparto` and `Cuenta` are about the rules of stsc,
--   `Sitio` and `Lugar` about where a sample is, `Momento` and `Horario` about when,
--   `Composicion` about the offsets of ctts, `Entrega` about its data, `Audio` about every call
--   for sound, `Imagen` and `Orden` about every call for video. A null buffer is a test, the
--   bytes of a sample in memory are their position, and the guards on null pointers of the caller
--   are left out. `Sonido`, `Cine` and `Tests` have small files.
--
-- A value of a C type is a natural number below its range, and wrap-around is written out as a
-- remainder by a power of two. A global variable or a field of a structure is a field of a
-- record, and a function that changes it returns the new record beside its result. A loop is a
-- recursion on the rounds left; a search or a loop without a fixed count takes as many rounds as
-- its array has places, which is shown to be enough.
--
-- Messages on the serial line and the console are left out everywhere. Not modelled are the
-- device drivers that only move registers, the boot loader, and the multimedia code taken from
-- elsewhere (the Helix AAC decoder, minimp3, stb_image).
pub mod Dma
pub mod Fuentes
pub mod H264
pub mod Memoria
pub mod Mp4
pub mod Particiones
pub mod Prelude
pub mod Red
pub mod Trabajos
pub mod Utf8
