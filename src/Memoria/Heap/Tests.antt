-- ===== src/Memoria/Heap/Tests.antt =====
-- Runs of the kernel heap of nucleo/base/memoria.c, and instances of its theorems.
use taek_os.Prelude.{ℕ, ◌≤◌, ◌≡◌, ◌≢◌, ◌⊎◌, refl, true, false, [], ◌∷◌, arith}
use taek_os.Memoria.Marcos.{Pmm}
use taek_os.Memoria.Heap.Defs.{
  Heap, Memoria, puntero, nulo, sin_rondas, quebrado_heap, bloque_libre_en, redondear, recorrer,
  ocupar, asignar_redondeado, asignar_memoria,
}
use taek_os.Memoria.Heap.Fusion.{
  fusionar, absorbido, devolver, liberar_memoria, memoria_verificar_integridad,
}
use taek_os.Memoria.Heap.Inv.{en, suma, IsHeap, Igual}
use taek_os.Memoria.Heap.Reservar.{Ninguno}
use taek_os.Memoria.Heap.Asignar.{Asignado, asignar_memoria-Asignado}
use taek_os.Memoria.Heap.Devolver.{Liberado, liberar-Liberado, liberar-asignar_heap}
use taek_os.Memoria.Heap.Terminar.{asignar_termina}

abbrev sin_marcos : Pmm
sin_marcos = record {
  pila = 0;
  paginas_libres = 0;
  paginas_en_uso = 0;
  estado_listo = true;
  rangos = [];
  salud = 100;
  enlace = λ p. 0;
}

-- One free block of 976 bytes at 0x1000.
abbrev heap_uno : Heap
heap_uno = record {
  bloques = bloque_libre_en 0x1000 976 ∷ [];
  capacidad_total = 1024;
  bytes_en_uso = 0;
  bloques_activos = 0;
  restos = [];
}

abbrev memoria_uno : Memoria
memoria_uno = record { heap = heap_uno; pmm = sin_marcos }

-- The same after a request of 100 bytes.
abbrev heap_dos : Heap
heap_dos = record {
  bloques =
      record (bloque_libre_en 0x1000 112) { esta_libre = false } ∷ bloque_libre_en 0x10a0 816 ∷ [];
  capacidad_total = 1024;
  bytes_en_uso = 112;
  bloques_activos = 1;
  restos = [];
}

-- A free block before one in use, which a release merges into it.
abbrev heap_tres : Heap
heap_tres = record {
  bloques =
      bloque_libre_en 0xf00 208 ∷ record (bloque_libre_en 0x1000 976) { esta_libre = false } ∷ [];
  capacidad_total = 1280;
  bytes_en_uso = 976;
  bloques_activos = 1;
  restos = [];
}

codigo : Unit {0}
unfolding redondear recorrer ocupar asignar_redondeado asignar_memoria fusionar absorbido devolver
    liberar_memoria
codigo =
    let e : asignar_memoria true 0 100 memoria_uno
        ≡ (puntero 0x1030, record memoria_uno { heap = heap_dos }) =
      refl in
    let f : liberar_memoria true 0x1030 heap_dos
        ≡ (nulo, record heap_uno { restos = bloque_libre_en 0x10a0 816 ∷ [] }) =
      refl in
    let g : (liberar_memoria true 0x1030 heap_uno).0 ≡ quebrado_heap = refl in
    let i : (liberar_memoria true 0x1030 (liberar_memoria true 0x1030 heap_tres).1).0
        ≡ quebrado_heap =
      refl in
    tt

-- The rounding of a request of 2^64 - 1 bytes overflows: it is served with a block of 16.
codigo_desborde : (asignar_memoria true 0 0xffffffffffffffff memoria_uno).0 ≡ puntero 0x1030
unfolding redondear recorrer ocupar asignar_redondeado asignar_memoria
codigo_desborde = refl

separado : (h : ℕ) → suma (en h) heap_uno.bloques ≤ 1
separado h = ground arith

heap_uno-IsHeap : IsHeap heap_uno
unfolding memoria_verificar_integridad
heap_uno-IsHeap = record {
  sanos = refl;
  separados = separado;
  caben = (omega arith, tt);
  total_bien = refl;
  total_cabe = omega arith;
  uso_bien = refl;
  activos_bien = refl;
}

asignar_memoria-Asignado_example :
    Asignado 100 0 memoria_uno ⊎ Ninguno (redondear 100) memoria_uno.heap.bloques
asignar_memoria-Asignado_example =
    asignar_memoria-Asignado 100 0 memoria_uno heap_uno-IsHeap (λ e. omega (arith, e)) (omega arith)

heap_dos-IsHeap : IsHeap heap_dos
unfolding memoria_verificar_integridad
heap_dos-IsHeap = record {
  sanos = refl;
  separados = λ x. ground arith;
  caben = (omega arith, (omega arith, tt));
  total_bien = refl;
  total_cabe = omega arith;
  uso_bien = refl;
  activos_bien = refl;
}

liberar-Liberado_example : Liberado 0x1000 112 heap_dos
liberar-Liberado_example = liberar-Liberado 0x1000 112 heap_dos heap_dos-IsHeap (omega arith)

pedido_de_cien :
    asignar_memoria true 0 100 memoria_uno
    ≡ (puntero 0x1030, record memoria_uno { heap = heap_dos })
unfolding redondear recorrer ocupar asignar_redondeado asignar_memoria
pedido_de_cien = refl

hay_bloque : ¬ Ninguno (redondear 100) memoria_uno.heap.bloques
unfolding redondear
hay_bloque h = cc

liberar-asignar_heap_example :
    (h : Heap) × (liberar_memoria true 0x1030 heap_dos ≡ (nulo, h))
    × IsHeap h
    × Igual heap_uno.bloques h.bloques
liberar-asignar_heap_example =
    liberar-asignar_heap 100 0 0x1030 memoria_uno (record memoria_uno { heap = heap_dos })
      heap_uno-IsHeap (λ e. omega (arith, e)) (omega arith) hay_bloque pedido_de_cien

asignar_termina_example : (asignar_memoria true 0 5000 memoria_uno).0 ≢ sin_rondas
asignar_termina_example = asignar_termina true 0 5000 memoria_uno (omega arith)
