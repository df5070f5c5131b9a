-- ===== src/Dma/Defs.antt =====
-- The state and the operations of nucleo/base/dma.c, with the words of the bitmap as they are stored.
-- A call returns the new state beside its result; the messages on the serial line are left out.
use taek_os.Prelude.{
  ℕ, zero, suc, ◌+◌, ◌-◌, ◌*◌, ◌/◌, ◌%◌, ◌^◌, bit_and, bit_or, Bool, true, false, not, ◌&&◌, ◌||◌,
  Option, none, some, List, ltb, leb, ◌==◌, if◌then◌else◌, get_or, set, replicate,
}

abbrev pub tamano_pagina : ℕ
tamano_pagina = 4096

abbrev pub max_palabras_bitmap : ℕ
max_palabras_bitmap = 128

abbrev pub max_paginas_dma : ℕ
max_paginas_dma = 8192

-- The variables g_dma_… of the file.
pub record Dma : Type 0 where
  pub base_fisica : ℕ
  pub tamano_bytes : ℕ
  pub total_paginas : ℕ
  pub paginas_ocupadas : ℕ
  pub asignaciones_activas : ℕ
  pub max_tamano_kb : ℕ
  pub iniciado : Bool
  pub bitmap : List ℕ
  pub tamano_asignacion : List ℕ

-- A word of the bitmap; the tests of `total_paginas` keep the index in the array.
unfoldable pub bitmap_probar_bit : Dma → ℕ → Bool
bitmap_probar_bit d b =
    if leb d.total_paginas b
    then true
    else not (bit_and (get_or d.bitmap (b / 64) 0) (2 ^ (b % 64)) == 0)

unfoldable pub bitmap_marcar_bit : Dma → ℕ → Dma
bitmap_marcar_bit d b = if leb d.total_paginas b then d else record d {
  bitmap = set d.bitmap (b / 64) (bit_or (get_or d.bitmap (b / 64) 0) (2 ^ (b % 64)));
}

unfoldable pub bitmap_limpiar_bit : Dma → ℕ → Dma
bitmap_limpiar_bit d b = if leb d.total_paginas b then d else record d {
  bitmap = set d.bitmap (b / 64) (bit_and (get_or d.bitmap (b / 64) 0) (2 ^ 64 - 1 - 2 ^ (b % 64)));
}

unfoldable pub paginas_de : ℕ → ℕ
paginas_de tamano =
    if ltb (max_palabras_bitmap * 64) (tamano / tamano_pagina % 2 ^ 32)
    then max_palabras_bitmap * 64
    else tamano / tamano_pagina % 2 ^ 32

-- The state of an arena with nothing handed out.
unfoldable pub vacia : ℕ → ℕ → ℕ → Dma
vacia base tamano total = record {
  base_fisica = base;
  tamano_bytes = tamano;
  total_paginas = total;
  paginas_ocupadas = 0;
  asignaciones_activas = 0;
  max_tamano_kb = 0;
  iniciado = true;
  bitmap = replicate max_palabras_bitmap 0;
  tamano_asignacion = replicate max_paginas_dma 0;
}

-- `base` and `tamano` are what `memoria_obtener_dma_arena` gives; true stands for the result 0.
unfoldable pub iniciar : Dma → ℕ → ℕ → Bool × Dma
iniciar d base tamano =
    if d.iniciado
    then (true, d)
    else if base == 0 || tamano == 0
    then (false, record d { base_fisica = 0; tamano_bytes = 0; total_paginas = 0; iniciado = true })
    else (true, vacia base tamano (paginas_de tamano))

-- `for (j = 0; j < n; j++) if (bitmap_probar_bit(i + j)) …`: are the `n` bits from `i` on all clear?
unfoldable pub bloque_libre : Dma → ℕ → ℕ → Bool
bloque_libre d i zero = true
bloque_libre d i (suc n) = not (bitmap_probar_bit d i) && bloque_libre d (i + 1) n

-- The loop of the release: are they all set?
unfoldable pub bloque_ocupado : Dma → ℕ → ℕ → Bool
bloque_ocupado d i zero = true
bloque_ocupado d i (suc n) = bitmap_probar_bit d i && bloque_ocupado d (i + 1) n

unfoldable pub marcar_bloque : Dma → ℕ → ℕ → Dma
marcar_bloque d i zero = d
marcar_bloque d i (suc n) = marcar_bloque (bitmap_marcar_bit d i) (i + 1) n

unfoldable pub limpiar_bloque : Dma → ℕ → ℕ → Dma
limpiar_bloque d i zero = d
limpiar_bloque d i (suc n) =
    limpiar_bloque (if ltb i d.total_paginas then bitmap_limpiar_bit d i else d) (i + 1) n

unfoldable pub pags_necesarias : ℕ → ℕ
pags_necesarias bytes = (bytes + tamano_pagina - 1) / tamano_pagina % 2 ^ 32

-- One candidate of the search: aligned, and all its pages free.
unfoldable pub candidato : Dma → ℕ → ℕ → ℕ → Bool
candidato d alineacion pags i =
    (d.base_fisica + i * tamano_pagina) % 2 ^ 64 % alineacion == 0 && bloque_libre d i pags

-- The search of the allocation from page `i` on; the first argument counts the pages left to try.
unfoldable pub buscar : ℕ → Dma → ℕ → ℕ → ℕ → Option ℕ
buscar zero d alineacion pags i = none
buscar (suc n) d alineacion pags i =
    let otro = buscar n d alineacion pags (i + 1) in
    if leb (i + pags) d.total_paginas
    then if candidato d alineacion pags i then some i else otro
    else none

-- The state after the pages from `i` on are taken.
unfoldable pub ocupar : Dma → ℕ → ℕ → ℕ → Dma
ocupar d i pags bytes =
    let d' = marcar_bloque d i pags in
    record d' {
      paginas_ocupadas = (d'.paginas_ocupadas + pags) % 2 ^ 32;
      asignaciones_activas = (d'.asignaciones_activas + 1) % 2 ^ 32;
      tamano_asignacion = set d'.tamano_asignacion i (bytes % 2 ^ 32);
      max_tamano_kb =
          if ltb d'.max_tamano_kb (pags * 4096 % 2 ^ 32 / 1024)
          then pags * 4096 % 2 ^ 32 / 1024
          else d'.max_tamano_kb;
    }

abbrev pub alineacion_efectiva : ℕ → ℕ
alineacion_efectiva a = if ltb a tamano_pagina then tamano_pagina else a

-- The guards of the allocation; `sin_salida` says that the caller gave no place for the address.
unfoldable pub peticion_invalida : Dma → Bool → ℕ → Bool
peticion_invalida d sin_salida bytes =
    bytes == 0
    || sin_salida
    || d.total_paginas == 0
    || ltb d.tamano_bytes bytes
    || ltb (2 ^ 64 - 1 - (tamano_pagina - 1)) bytes

-- What the search's outcome gives: the physical address, or none for NULL. The pages handed out are
-- cleared and flushed from the caches, which does not touch this state.
unfoldable pub entregar : Dma → ℕ → Option ℕ → Option ℕ × Dma
entregar d bytes none = (none, d)
entregar d bytes (some i) =
    (some ((d.base_fisica + i * tamano_pagina) % 2 ^ 64), ocupar d i (pags_necesarias bytes) bytes)

-- The allocation once the arena is initialised.
unfoldable pub asignar_iniciado : Dma → Bool → ℕ → ℕ → Option ℕ × Dma
asignar_iniciado d sin_salida bytes alineacion =
    if peticion_invalida d sin_salida bytes
    then (none, d)
    else entregar d bytes
        (buscar (d.total_paginas + 1) d (alineacion_efectiva alineacion) (pags_necesarias bytes) 0)

-- `base` and `tamano` are the arena that `dma_iniciar` would find.
unfoldable pub asignar_bufer_contiguo : Dma → ℕ → ℕ → Bool → ℕ → ℕ → Option ℕ × Dma
asignar_bufer_contiguo d base tamano sin_salida bytes alineacion =
    asignar_iniciado (if d.iniciado then d else (iniciar d base tamano).1) sin_salida bytes
      alineacion

-- The guards of the release, in their order; `hhdm` is the offset of the direct map.
unfoldable pub liberacion_valida : Dma → ℕ → ℕ → ℕ → ℕ → Bool
liberacion_valida d hhdm virt fis bytes =
    let i = (fis - d.base_fisica) / tamano_pagina % 2 ^ 32 in
    not (
      bytes == 0
      || virt == 0
      || d.total_paginas == 0
      || ltb fis d.base_fisica
      || leb ((d.base_fisica + d.tamano_bytes) % 2 ^ 64) fis
      || not ((fis - d.base_fisica) % tamano_pagina == 0)
      || not (virt == (fis + hhdm) % 2 ^ 64))
    && not (
        ltb d.tamano_bytes bytes
        || ltb (2 ^ 64 - 1 - (tamano_pagina - 1)) bytes
        || leb d.total_paginas i
        || not (get_or d.tamano_asignacion i 0 == bytes))
    && not (ltb (d.total_paginas - i) (pags_necesarias bytes))
    && bloque_ocupado d i (pags_necesarias bytes)

unfoldable pub desocupar : Dma → ℕ → ℕ → Dma
desocupar d i pags =
    let d' = limpiar_bloque (record d { tamano_asignacion = set d.tamano_asignacion i 0 }) i pags in
    record d' {
      paginas_ocupadas = if leb pags d'.paginas_ocupadas then d'.paginas_ocupadas - pags else 0;
      asignaciones_activas =
          if ltb 0 d'.asignaciones_activas then d'.asignaciones_activas - 1 else 0;
    }

-- True for the result 0, false for -1.
unfoldable pub liberar_bufer_contiguo : Dma → ℕ → ℕ → ℕ → ℕ → Bool × Dma
liberar_bufer_contiguo d hhdm virt fis bytes =
    if liberacion_valida d hhdm virt fis bytes
    then (
      true,
      desocupar d ((fis - d.base_fisica) / tamano_pagina % 2 ^ 32) (pags_necesarias bytes),
    )
    else (false, d)

pub record Estadisticas : Type 0 where
  pub arena_fisica_base : ℕ
  pub arena_tamano_bytes : ℕ
  pub paginas_totales : ℕ
  pub paginas_en_uso : ℕ
  pub paginas_libres : ℕ
  pub asignaciones_activas : ℕ
  pub tamano_maximo_asignado_kb : ℕ

unfoldable pub obtener_estadisticas : Dma → Estadisticas
obtener_estadisticas d = record {
  arena_fisica_base = d.base_fisica;
  arena_tamano_bytes = d.tamano_bytes;
  paginas_totales = d.total_paginas;
  paginas_en_uso = d.paginas_ocupadas;
  paginas_libres =
      if leb d.paginas_ocupadas d.total_paginas then d.total_paginas - d.paginas_ocupadas else 0;
  asignaciones_activas = d.asignaciones_activas;
  tamano_maximo_asignado_kb = d.max_tamano_kb;
}
