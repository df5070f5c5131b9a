-- ===== src/Memoria/Marcos.antt =====
-- The physical frames of nucleo/base/memoria.c: a stack of free frames threaded through the frames
-- themselves, with a two-bit state for each frame beside it.
use taek_os.Prelude.{
  ℕ, ◌+◌, ◌-◌, ◌%◌, ◌^◌, Bool, false, not, ◌&&◌, ◌||◌, Option, none, some, List, bit_and, ltb, ◌==◌,
  if◌then◌else◌,
}
use taek_os.Memoria.Estado.{PmmRangoEstado, pmm_estado_leer, pmm_estado_escribir}

-- `salud` is the health that `g_huevo` keeps of the kernel, which an empty stack lowers; `enlace p` is the first word of
-- the frame at `p`, where a free frame keeps the next free one.
pub record Pmm : Type 0 where
  pub pila : ℕ
  pub paginas_libres : ℕ
  pub paginas_en_uso : ℕ
  pub estado_listo : Bool
  pub rangos : List PmmRangoEstado
  pub salud : ℕ
  pub enlace : ℕ → ℕ

-- How a call ends. `nada` is a call from another processor, `agotada` the result 0 of an empty stack,
-- and `quebrado` the halt of `huevo_quebrar`, which does not return.
pub data Salida : Type 0 where
  marco : ℕ → Salida
  hecho nada agotada quebrado : Salida

-- The health after a warning; the kernel halts when none is left.
unfoldable pub huevo_agrietar : ℕ → ℕ
huevo_agrietar salud = if ltb 25 salud then salud - 25 else 0

abbrev pub sin_marco : Pmm → Salida × Pmm
sin_marco m =
    let s = huevo_agrietar m.salud in (if s == 0 then quebrado else agotada, record m { salud = s })

abbrev pub con_enlace : (ℕ → ℕ) → ℕ → ℕ → ℕ → ℕ
con_enlace f p v q = if p == q then v else f q

-- `pmm_estado_leer(phys) != s`, with -1 for an address in no range
abbrev pub es_estado : Option ℕ → ℕ → Bool
es_estado none s = false
es_estado (some t) s = t == s

-- The frame comes back cleared, its first word too.
unfoldable pub tomar : Pmm → ℕ → Pmm
tomar m phys = record m {
  pila = m.enlace phys;
  paginas_libres = if ltb 0 m.paginas_libres then m.paginas_libres - 1 else m.paginas_libres;
  paginas_en_uso = (m.paginas_en_uso + 1) % 2 ^ 64;
  rangos = if m.estado_listo then pmm_estado_escribir m.rangos phys 2 else m.rangos;
  enlace = con_enlace m.enlace phys 0;
}

unfoldable pub pmm_asignar_pagina_fisica : Bool → Pmm → Salida × Pmm
pmm_asignar_pagina_fisica coordinador m =
    if not coordinador
    then (nada, m)
    else if m.pila == 0
    then sin_marco m
    else if m.estado_listo && not (es_estado (pmm_estado_leer m.rangos m.pila) 1)
    then (quebrado, m)
    else (marco m.pila, tomar m m.pila)

unfoldable pub apilar : Pmm → ℕ → Pmm
apilar m phys = record m {
  pila = phys;
  paginas_libres = (m.paginas_libres + 1) % 2 ^ 64;
  paginas_en_uso = if ltb 0 m.paginas_en_uso then m.paginas_en_uso - 1 else m.paginas_en_uso;
  rangos = if m.estado_listo then pmm_estado_escribir m.rangos phys 1 else m.rangos;
  enlace = con_enlace m.enlace phys m.pila;
}

unfoldable pub pmm_liberar_pagina_fisica : Bool → Pmm → ℕ → Salida × Pmm
pmm_liberar_pagina_fisica coordinador m phys =
    if not coordinador
    then (nada, m)
    else if phys == 0 || not (bit_and phys 0xfff == 0)
    then (quebrado, m)
    else if m.estado_listo && not (es_estado (pmm_estado_leer m.rangos phys) 2)
    then (quebrado, m)
    else (hecho, apilar m phys)

-- The virtual address of a fresh frame, or none for NULL.
unfoldable pub pmm_asignar_pagina_virtual : ℕ → Bool → Pmm → Option ℕ × Pmm
pmm_asignar_pagina_virtual hhdm coordinador m =
    let (s, m') = pmm_asignar_pagina_fisica coordinador m in
    elim s [ marco p ↦ (some ((p + hhdm) % 2 ^ 64), m') | _ ↦ (none, m') ]
