-- ===== src/Dma/Tests.antt =====
-- Runs of nucleo/base/dma.c on a small arena, and instances of its theorems.
use taek_os.Prelude.{
  ℕ, ◌+◌, ◌*◌, ◌%◌, ◌^◌, ◌≤◌, ◌<◌, true, false, ◌≡◌, ◌⊎◌, refl, some, none, List, [], ◌∷◌,
  replicate, arith,
}
use taek_os.Dma.Defs.{
  Dma, iniciar, asignar_iniciado, vacia, liberar_bufer_contiguo, bitmap_probar_bit,
  liberacion_valida, desocupar, entregar, buscar, bloque_libre, ocupar, marcar_bloque,
  bitmap_marcar_bit, bloque_ocupado, pags_necesarias, peticion_invalida, candidato,
  alineacion_efectiva,
}
use taek_os.Dma.Inv.{IsValid, tam}
use taek_os.Dma.Asignar.{Asignado, asignar-Asignado, asignar_rechazo}
use taek_os.Dma.Liberar.{Devuelto, liberar-Devuelto, liberar_doble, liberar-asignar}
use taek_os.Dma.Run.{
  Arena, vacia-IsValid, iniciar-IsValid, Llamada, asignar, liberar, run, run-IsValid,
}

-- What a run computes with.
codigo : Unit {0}
unfolding asignar_iniciado vacia replicate peticion_invalida entregar buscar pags_necesarias
    candidato bloque_libre bitmap_probar_bit ocupar marcar_bloque bitmap_marcar_bit
    liberar_bufer_contiguo liberacion_valida bloque_ocupado
codigo = tt

-- An arena of 16 pages at 2 MiB.
abbrev chica : Dma
chica = vacia 0x200000 0x10000 16

chica-Arena : Arena 0x200000 0x10000
chica-Arena = omega arith

chica-IsValid : IsValid chica
chica-IsValid = vacia-IsValid 0x200000 0x10000 16 chica-Arena (omega arith) (omega arith)

-- Two pages are taken.
abbrev usada : Dma
usada = (asignar_iniciado chica false 5000 0x2000).1

usada_lem : asignar_iniciado chica false 5000 0x2000 ≡ (some 0x200000, usada)
unfolding codigo
usada_lem = refl

abbrev hhdm : ℕ
hhdm = 0xffff800000000000

usada-IsValid : IsValid usada
usada-IsValid = (asignar-Asignado chica 5000 0x2000 chica-IsValid usada_lem).valid

-- The next run aligned to 8 KiB begins at the third page.
siguiente : (asignar_iniciado usada false 1 0x2000).0 ≡ some 0x202000
unfolding codigo
siguiente = refl

abbrev devuelta : Dma
devuelta = (liberar_bufer_contiguo usada hhdm (0x200000 + hhdm) 0x200000 5000).1

devuelta_lem : liberar_bufer_contiguo usada hhdm (0x200000 + hhdm) 0x200000 5000 ≡ (true, devuelta)
unfolding codigo
devuelta_lem = refl

-- A release with another size is refused.
tamano_equivocado : (liberar_bufer_contiguo usada hhdm (0x200000 + hhdm) 0x200000 4096).0 ≡ false
unfolding codigo
tamano_equivocado = refl

asignar-Asignado_example : Asignado chica usada 0x2000 5000 0x200000
asignar-Asignado_example = asignar-Asignado chica 5000 0x2000 chica-IsValid usada_lem

-- More than the arena holds.
demasiado_lem : asignar_iniciado chica false 0x10001 0 ≡ (none, chica)
unfolding codigo
demasiado_lem = refl

asignar_rechazo_example :
    (chica ≡ chica)
    × ((peticion_invalida chica false 0x10001 ≡ true)
        ⊎ ((k : ℕ)
            → k + pags_necesarias 0x10001 ≤ chica.total_paginas
            → (chica.base_fisica + k * 4096) % 2 ^ 64 % alineacion_efectiva 0 ≡ 0
            → (j : ℕ) × (k ≤ j)
              × (j < k + pags_necesarias 0x10001)
              × (bitmap_probar_bit chica j ≡ true)))
asignar_rechazo_example = asignar_rechazo chica 0x10001 0 demasiado_lem

liberar-Devuelto_example :
    (i : ℕ) × Devuelto usada 0x200000 5000 i × (devuelta ≡ desocupar usada i (pags_necesarias 5000))
liberar-Devuelto_example =
    liberar-Devuelto usada hhdm (0x200000 + hhdm) 0x200000 5000 usada-IsValid devuelta_lem

liberar_doble_example :
    liberar_bufer_contiguo devuelta hhdm (0x200000 + hhdm) 0x200000 5000 ≡ (false, devuelta)
liberar_doble_example =
    liberar_doble usada hhdm (0x200000 + hhdm) 0x200000 5000 usada-IsValid devuelta_lem

liberar-asignar_example :
    let (ok, f) = liberar_bufer_contiguo usada hhdm ((0x200000 + hhdm) % 2 ^ 64) 0x200000 5000 in
    (ok ≡ true)
    × ((j : ℕ) → bitmap_probar_bit f j ≡ bitmap_probar_bit chica j)
    × ((k : ℕ) → tam f k ≡ tam chica k)
    × (f.paginas_ocupadas ≡ chica.paginas_ocupadas)
    × (f.asignaciones_activas ≡ chica.asignaciones_activas)
liberar-asignar_example =
    liberar-asignar chica 5000 0x2000 hhdm chica-IsValid usada_lem (omega arith)

abbrev apagada : Dma
apagada = record (vacia 0 0 0) { iniciado = false }

iniciar-IsValid_example : IsValid (iniciar apagada 0x200000 0x10000).1
iniciar-IsValid_example =
    iniciar-IsValid apagada 0x200000 0x10000 chica-Arena (omega arith) (omega arith) refl

abbrev llamadas : List Llamada
llamadas =
    asignar 5000 0x2000 ∷ liberar 1 2 3 ∷ asignar 1 0 ∷ liberar (0x200000 + hhdm) 0x200000 5000 ∷ []

run-IsValid_example : IsValid (run hhdm chica llamadas)
run-IsValid_example = run-IsValid hhdm llamadas chica chica-IsValid
