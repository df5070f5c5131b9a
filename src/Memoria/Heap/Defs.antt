-- ===== src/Memoria/Heap/Defs.antt =====
-- The kernel heap of nucleo/base/memoria.c: the blocks in the order of their links `siguiente`, so that `anterior` is
-- the block before. A header takes 48 bytes.
use taek_os.Prelude.{
  ℕ, zero, suc, ◌+◌, ◌-◌, ◌*◌, ◌/◌, ◌%◌, ◌^◌, Bool, true, false, not, ◌&&◌, ◌||◌, List, [], ◌∷◌,
  ◌++◌, ltb, ◌==◌, if◌then◌else◌,
}
use taek_os.Memoria.Marcos.{
  Pmm, Salida, marco, quebrado, sin_marco, pmm_asignar_pagina_fisica, pmm_liberar_pagina_fisica,
}

pub record BloqueHeap : Type 0 where
  pub dir : ℕ
  pub canario_inicio : ℕ
  pub esta_libre : Bool
  pub tamano_datos : ℕ
  pub canario_fin : ℕ

-- `g_heap_cabeza` with what follows it, and the counters. `restos` are the headers of blocks that merges took in, as
-- they still stand in the data of a free block, the last one first.
pub record Heap : Type 0 where
  pub bloques : List BloqueHeap
  pub capacidad_total : ℕ
  pub bytes_en_uso : ℕ
  pub bloques_activos : ℕ
  pub restos : List BloqueHeap

abbrev pub canario_bloque_inicio : ℕ
canario_bloque_inicio = 0x7aeecc05

abbrev pub canario_bloque_fin : ℕ
canario_bloque_fin = 0xcafebabedead1000

abbrev pub sano : BloqueHeap → Bool
sano b = b.canario_inicio == canario_bloque_inicio && b.canario_fin == canario_bloque_fin

abbrev pub bloque_libre_en : ℕ → ℕ → BloqueHeap
bloque_libre_en dir tamano = record {
  dir = dir;
  canario_inicio = canario_bloque_inicio;
  esta_libre = true;
  tamano_datos = tamano;
  canario_fin = canario_bloque_fin;
}

abbrev pub fin_datos : BloqueHeap → ℕ
fin_datos b = (b.dir + 48 + b.tamano_datos) % 2 ^ 64

-- The arena goes to the end of the list.
unfoldable pub heap_agregar_arena : Heap → ℕ → ℕ → Heap
heap_agregar_arena h dir tamano = if ltb tamano 112 then h else record h {
  bloques = h.bloques ++ bloque_libre_en dir (tamano - 48) ∷ [];
  capacidad_total = (h.capacidad_total + tamano) % 2 ^ 64;
}

-- `bytes` rounded up to a multiple of 16, 16 at least.
unfoldable pub redondear : ℕ → ℕ
redondear bytes = let r = (bytes + 15) % 2 ^ 64 / 16 * 16 in if ltb r 16 then 16 else r

-- The free block `b`, taken for `bytes`, with what is left of it if that is worth a block.
unfoldable pub ocupar : BloqueHeap → ℕ → List BloqueHeap
ocupar b bytes =
    if ltb b.tamano_datos ((bytes + 48 + 32) % 2 ^ 64)
    then record b { esta_libre = false } ∷ []
    else record b { esta_libre = false; tamano_datos = bytes }
      ∷ bloque_libre_en ((b.dir + 48 + bytes) % 2 ^ 64) (b.tamano_datos - bytes - 48)
      ∷ []

abbrev pub sirve : BloqueHeap → ℕ → Bool
sirve b bytes = b.esta_libre && not (ltb b.tamano_datos bytes)

-- How the walk over the blocks ends: at a broken canary, where the kernel halts, with no block, or at the block of
-- that header and size, with the blocks there are then.
pub data Hallazgo : Type 0 where
  roto ninguno : Hallazgo
  hallado : ℕ → ℕ → List BloqueHeap → Hallazgo

abbrev pub anteponer : BloqueHeap → Hallazgo → Hallazgo
anteponer b roto = roto
anteponer b ninguno = ninguno
anteponer b (hallado dir n l) = hallado dir n (b ∷ l)

abbrev pub tamano_ocupado : BloqueHeap → ℕ → ℕ
tamano_ocupado b bytes =
    if ltb b.tamano_datos ((bytes + 48 + 32) % 2 ^ 64) then b.tamano_datos else bytes

unfoldable pub recorrer : ℕ → List BloqueHeap → Hallazgo
recorrer bytes [] = ninguno
recorrer bytes (b ∷ l) =
    let resto = anteponer b (recorrer bytes l) in
    if not (sano b)
    then roto
    else if sirve b bytes
    then hallado b.dir (tamano_ocupado b bytes) (ocupar b bytes ++ l)
    else resto

-- The result of a call: a pointer, NULL, the halt of huevo_quebrar, the warning of huevo_agrietar before NULL, a
-- pointer that no header of a block is known to stand before, or no round left.
pub data SalidaHeap : Type 0 where
  puntero : ℕ → SalidaHeap
  nulo quebrado_heap agrietado ajeno sin_rondas : SalidaHeap

-- A block of `n` bytes at `dir` is handed out: what stood in its bytes, or in a header behind them, is known no more.
abbrev pub quedan : ℕ → ℕ → List BloqueHeap → List BloqueHeap
quedan dir n [] = []
quedan dir n (r ∷ l) =
    let resto = quedan dir n l in
    if ltb dir (r.dir + 48) && ltb r.dir (dir + 96 + n) then resto else r ∷ resto

abbrev pub reservado : Heap → ℕ → ℕ → List BloqueHeap → Heap
reservado h dir n l = record h {
  bloques = l;
  restos = quedan dir n h.restos;
  bytes_en_uso = (h.bytes_en_uso + n) % 2 ^ 64;
  bloques_activos = (h.bloques_activos + 1) % 2 ^ 64;
}

pub record Memoria : Type 0 where
  pub heap : Heap
  pub pmm : Pmm

-- The frames that extend an arena: its first, how many, and whether the kernel halted.
pub record Recogida : Type 0 where
  pub primera : ℕ
  pub obtenidas : ℕ
  pub quebrada : Bool
  pub pmm : Pmm

abbrev pub parada : ℕ → ℕ → Salida × Pmm → Recogida
parada primera obtenidas (quebrado, m) = record {
  primera = primera;
  obtenidas = obtenidas;
  quebrada = true;
  pmm = m;
}
parada primera obtenidas (s, m) = record {
  primera = primera;
  obtenidas = obtenidas;
  quebrada = false;
  pmm = m;
}

-- The next frame: the loop goes on with it if it is next to those there are, and gives it back if not.
abbrev pub recoger_segun : ℕ → ℕ → ℕ → (ℕ → Recogida) → Salida × Pmm → Recogida
recoger_segun primera previa obtenidas sigue (marco p, m) =
    if p == (previa + 4096) % 2 ^ 64 || (p + 4096) % 2 ^ 64 == primera
    then sigue p
    else parada primera obtenidas (pmm_liberar_pagina_fisica true m p)
recoger_segun primera previa obtenidas sigue r = parada primera obtenidas r

-- The loop that gathers up to `n` frames more, next to those there are on either side.
unfoldable pub recoger : ℕ → ℕ → ℕ → ℕ → Pmm → Recogida
recoger zero primera previa obtenidas m = record {
  primera = primera;
  obtenidas = obtenidas;
  quebrada = false;
  pmm = m;
}
recoger (suc n) primera previa obtenidas m =
    let r = pmm_asignar_pagina_fisica true m in
    let sigue : ℕ → Recogida = λ p.
      let arriba = p == (previa + 4096) % 2 ^ 64 in
      recoger n (if arriba then primera else p) (if arriba then p else previa) (obtenidas + 1)
        r.1 in
    recoger_segun primera previa obtenidas sigue r

-- The pages of an expansion, 2 MiB at least.
unfoldable pub paginas_necesarias : ℕ → ℕ
paginas_necesarias bytes =
    let t = ((bytes + 48 + 4096) % 2 ^ 64 + 4095) % 2 ^ 64 / 4096 * 4096 in
    (if ltb t 0x200000 then 0x200000 else t) / 4096

pub data Expansion : Type 0 where
  suficiente insuficiente rota agrietada : Expansion

-- The frames gathered become an arena, which may be enough.
abbrev pub con_recogida :
    ℕ → ℕ → Memoria → (Memoria → Expansion × Memoria) → Recogida → Expansion × Memoria
con_recogida hhdm bytes m otra c =
    let arena = c.obtenidas * 4096 in
    let nueva : Memoria = record {
      heap = heap_agregar_arena m.heap ((c.primera + hhdm) % 2 ^ 64) arena;
      pmm = c.pmm;
    } in
    if c.quebrada
    then (rota, record m { pmm = c.pmm })
    else if ltb arena ((bytes + 48) % 2 ^ 64)
    then otra nueva
    else (suficiente, nueva)

abbrev pub expandir_segun : Memoria → (ℕ → Expansion × Memoria) → Salida × Pmm → Expansion × Memoria
expandir_segun m sigue (marco p, q) = sigue p
expandir_segun m sigue (quebrado, q) = (rota, record m { pmm = q })
expandir_segun m sigue (s, q) =
    let r = sin_marco q in (if r.1.salud == 0 then rota else agrietada, record m { pmm = r.1 })

unfoldable pub expandir : ℕ → ℕ → ℕ → Memoria → Expansion × Memoria
expandir zero hhdm bytes m = (insuficiente, m)
expandir (suc intentos) hhdm bytes m =
    let r = pmm_asignar_pagina_fisica true m.pmm in
    let sigue : ℕ → Expansion × Memoria = λ p.
      con_recogida hhdm bytes m (expandir intentos hhdm bytes)
        (recoger (paginas_necesarias bytes - 1) p p 1 r.1) in
    if m.pmm.pila == 0 then (insuficiente, m) else expandir_segun m sigue r

-- After the walk: the block found, or the expansion `e` and then the call again, `otra`.
abbrev pub segun_expansion : Expansion × Memoria → SalidaHeap × Memoria → SalidaHeap × Memoria
segun_expansion (suficiente, m) otra = otra
segun_expansion (insuficiente, m) otra = (nulo, m)
segun_expansion (rota, m) otra = (quebrado_heap, m)
segun_expansion (agrietada, m) otra = (agrietado, m)

abbrev pub segun_hallazgo :
    Memoria → Expansion × Memoria → SalidaHeap × Memoria → Hallazgo → SalidaHeap × Memoria
segun_hallazgo m e otra (hallado dir n l) =
    (puntero ((dir + 48) % 2 ^ 64), record m { heap = reservado m.heap dir n l })
segun_hallazgo m e otra roto = (quebrado_heap, m)
segun_hallazgo m e otra ninguno = segun_expansion e otra

-- The call after its guards, on fuel for the calls it makes of itself.
unfoldable pub asignar_redondeado : ℕ → ℕ → ℕ → Memoria → SalidaHeap × Memoria
asignar_redondeado zero hhdm bytes m = (sin_rondas, m)
asignar_redondeado (suc f) hhdm bytes m =
    let e = expandir 128 hhdm bytes m in
    let otra = asignar_redondeado f hhdm (redondear bytes) e.1 in
    segun_hallazgo m e otra (recorrer bytes m.heap.bloques)

-- An arena that is large enough serves the second round (`asignar_termina`).
unfoldable pub asignar_memoria : Bool → ℕ → ℕ → Memoria → SalidaHeap × Memoria
asignar_memoria coordinador hhdm bytes m =
    if not coordinador || bytes == 0
    then (nulo, m)
    else asignar_redondeado 2 hhdm (redondear bytes) m
