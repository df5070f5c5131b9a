-- ===== src/Memoria/Heap/Fusion.antt =====
-- Releases, reallocations and the audit of the kernel heap of nucleo/base/memoria.c.
use taek_os.Prelude.{
  ℕ, ◌+◌, ◌-◌, ◌%◌, ◌^◌, Bool, true, false, not, ◌&&◌, ◌||◌, List, [], ◌∷◌, ◌++◌, ltb, ◌==◌,
  if◌then◌else◌,
}
use taek_os.Memoria.Heap.Defs.{
  BloqueHeap, Heap, Memoria, SalidaHeap, puntero, nulo, quebrado_heap, ajeno, sano, fin_datos,
  asignar_memoria,
}

-- A free block takes in the one that follows it in the list, if that is free and next to it.
unfoldable pub fusionar : BloqueHeap → List BloqueHeap → List BloqueHeap
fusionar b [] = b ∷ []
fusionar b (c ∷ l) =
    if b.esta_libre && c.esta_libre && fin_datos b == c.dir
    then record b { tamano_datos = (b.tamano_datos + 48 + c.tamano_datos) % 2 ^ 64 } ∷ l
    else b ∷ c ∷ l

-- The header that it takes in.
unfoldable pub absorbido : BloqueHeap → List BloqueHeap → List BloqueHeap
absorbido b [] = []
absorbido b (c ∷ l) = if b.esta_libre && c.esta_libre && fin_datos b == c.dir then c ∷ [] else []

abbrev pub es_cabeza : List BloqueHeap → ℕ → Bool
es_cabeza [] p = false
es_cabeza (b ∷ l) p = b.dir == p

-- The release of the block at `p`: no such block, a broken canary, a block that is free already, or the size it had,
-- the blocks there are then and the headers that were taken in.
pub data Devolucion : Type 0 where
  sin_bloque rota doble : Devolucion
  devuelto : ℕ → List BloqueHeap → List BloqueHeap → Devolucion

-- `b` before the blocks that are left, with which it merges if the block released was the next one.
abbrev pub tras : BloqueHeap → Bool → Devolucion → Devolucion
tras b junto sin_bloque = sin_bloque
tras b junto rota = rota
tras b junto doble = doble
tras b junto (devuelto n l r) =
    devuelto n (if junto then fusionar b l else b ∷ l) (if junto then absorbido b l ++ r else r)

unfoldable pub devolver : ℕ → List BloqueHeap → Devolucion
devolver p [] = sin_bloque
devolver p (b ∷ l) =
    let resto = tras b (es_cabeza l p) (devolver p l) in
    if not (b.dir == p)
    then resto
    else if not (sano b)
    then rota
    else if b.esta_libre
    then doble
    else (let c = record b { esta_libre = true } in
        devuelto b.tamano_datos (fusionar c l) (absorbido c l))

abbrev pub quitado : Heap → ℕ → List BloqueHeap → List BloqueHeap → Heap
quitado h n l r = record h {
  bloques = l;
  restos = r ++ h.restos;
  bytes_en_uso = if ltb h.bytes_en_uso n then 0 else h.bytes_en_uso - n;
  bloques_activos = if ltb 0 h.bloques_activos then h.bloques_activos - 1 else h.bloques_activos;
}

-- The release at a header that a merge took in, by its canaries and its mark.
abbrev pub de_resto : ℕ → List BloqueHeap → SalidaHeap
de_resto p [] = ajeno
de_resto p (r ∷ l) =
    let resto = de_resto p l in
    if not (r.dir == p)
    then resto
    else if not (sano r) || r.esta_libre
    then quebrado_heap
    else ajeno

abbrev pub cerrar : ℕ → Heap → Devolucion → SalidaHeap × Heap
cerrar p h sin_bloque = (de_resto p h.restos, h)
cerrar p h rota = (quebrado_heap, h)
cerrar p h doble = (quebrado_heap, h)
cerrar p h (devuelto n l r) = (nulo, quitado h n l r)

-- `nulo` stands for the return of a function with no result.
unfoldable pub liberar_memoria : Bool → ℕ → Heap → SalidaHeap × Heap
liberar_memoria coordinador ptr h =
    if not coordinador || ptr == 0
    then (nulo, h)
    else (let p = (ptr + 2 ^ 64 - 48) % 2 ^ 64 in cerrar p h (devolver p h.bloques))

-- The header at `p`, of a block or one that a merge took in, by its canaries and its size.
pub data Consulta : Type 0 where
  ausente danada : Consulta
  de_tamano : ℕ → Consulta

unfoldable pub consultar : ℕ → List BloqueHeap → Consulta
consultar p [] = ausente
consultar p (b ∷ l) =
    let resto = consultar p l in
    if not (b.dir == p) then resto else if sano b then de_tamano b.tamano_datos else danada

-- The release of the old block, once there is a new one; its bytes are not part of this state.
abbrev pub mudar : ℕ → SalidaHeap × Memoria → SalidaHeap × Memoria
mudar ptr (puntero q, m) =
    let r = liberar_memoria true ptr m.heap in
    elim r.0 [ nulo ↦ (puntero q, record m { heap = r.1 }) | s ↦ (s, record m { heap = r.1 }) ]
mudar ptr (s, m) = (s, m)

abbrev pub segun_tamano : Bool → ℕ → ℕ → ℕ → Consulta → Memoria → SalidaHeap × Memoria
segun_tamano coordinador hhdm ptr nuevo ausente m = (ajeno, m)
segun_tamano coordinador hhdm ptr nuevo danada m = (quebrado_heap, m)
segun_tamano coordinador hhdm ptr nuevo (de_tamano n) m =
    if ltb n nuevo then mudar ptr (asignar_memoria coordinador hhdm nuevo m) else (puntero ptr, m)

unfoldable pub reasignar_memoria : Bool → ℕ → ℕ → ℕ → Memoria → SalidaHeap × Memoria
reasignar_memoria coordinador hhdm ptr nuevo m =
    let r = liberar_memoria coordinador ptr m.heap in
    if ptr == 0
    then asignar_memoria coordinador hhdm nuevo m
    else if nuevo == 0
    then (r.0, record m { heap = r.1 })
    else segun_tamano coordinador hhdm ptr nuevo
        (consultar ((ptr + 2 ^ 64 - 48) % 2 ^ 64) (m.heap.bloques ++ m.heap.restos)) m

-- The audit: false where the kernel halts. The links agree in this representation.
unfoldable pub memoria_verificar_integridad : List BloqueHeap → Bool
memoria_verificar_integridad [] = true
memoria_verificar_integridad (b ∷ l) = sano b && memoria_verificar_integridad l
