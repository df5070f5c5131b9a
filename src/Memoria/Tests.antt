-- ===== src/Memoria/Tests.antt =====
-- Runs of the frame manager of nucleo/base/memoria.c on one frame, and instances of its theorems.
use taek_os.Prelude.{
  ℕ, zero, suc, ◌%◌, ◌<◌, true, false, ◌≡◌, ◌≢◌, ◌⊎◌, refl, List, [], ◌∷◌, arith, get_or,
}
use native.Mathlib.Decide.{ℕ_discrete}
use taek_os.Memoria.Estado.{
  PmmRangoEstado, IsRango, pmm_estado_leer, pmm_estado_escribir, leer_dos, escribir_dos,
  escribir_en,
}
use taek_os.Memoria.Marcos.{
  Pmm, marco, hecho, agotada, quebrado, es_estado, tomar, pmm_asignar_pagina_fisica,
  pmm_liberar_pagina_fisica, huevo_agrietar,
}
use taek_os.Memoria.Cadena.{IsPila, tomar-IsPila, contiene, quitar}
use taek_os.Memoria.Pila.{
  Agotada, asignar-IsPila, liberar-IsPila, liberar_dos_veces, liberar-asignar_marco,
}

abbrev rango : PmmRangoEstado
rango = record { inicio = 0x100000; paginas = 1; estado = 1 ∷ [] }

abbrev uno : Pmm
uno = record {
  pila = 0x100000;
  paginas_libres = 1;
  paginas_en_uso = 0;
  estado_listo = true;
  rangos = rango ∷ [];
  salud = 100;
  enlace = λ p. 0;
}

rango_bytes : (i : ℕ) → get_or (1 ∷ []) i 0 < 256
rango_bytes zero = omega arith
rango_bytes (suc i) = omega arith

rango-IsRango : IsRango rango
rango-IsRango = record { alineado = refl; bastante = omega arith; bytes = rango_bytes }

uno_libres :
    (p : ℕ)
    → p % 4096 ≡ 0
    → es_estado (pmm_estado_leer (rango ∷ []) p) 1 ≡ contiene (0x100000 ∷ []) p
unfolding pmm_estado_leer leer_dos
uno_libres p h = elim (ℕ_discrete 0x100000 p) [ yes e ↦ rw (← e) | no n ↦ ground arith ]

uno_usados : (p : ℕ) → p % 4096 ≡ 0 → es_estado (pmm_estado_leer (rango ∷ []) p) 2 ≡ contiene [] p
unfolding pmm_estado_leer leer_dos
uno_usados p h = elim (ℕ_discrete 0x100000 p) [ yes e ↦ rw (← e) | no n ↦ ground arith ]

uno-IsPila : IsPila uno (0x100000 ∷ []) []
uno-IsPila = record {
  listo = refl;
  rangos_bien = (rango-IsRango, tt);
  cadena = (refl, omega arith, refl, refl);
  distintos = (refl, tt);
  usados_distintos = tt;
  cuenta = refl;
  cuenta_usados = refl;
  cabe = omega arith;
  libres = uno_libres;
  usados = uno_usados;
}

codigo : Unit {0}
unfolding pmm_asignar_pagina_fisica pmm_liberar_pagina_fisica pmm_estado_leer pmm_estado_escribir
    leer_dos escribir_dos escribir_en tomar huevo_agrietar
codigo = tt

abbrev tomado : Pmm
tomado = tomar uno 0x100000

tomado_lem : pmm_asignar_pagina_fisica true uno ≡ (marco 0x100000, tomado)
unfolding codigo
tomado_lem = refl

sin_marcos : (pmm_asignar_pagina_fisica true tomado).0 ≡ agotada
unfolding codigo
sin_marcos = refl

-- The fourth time that no frame is left, the kernel halts.
cuarta : (pmm_asignar_pagina_fisica true (record tomado { salud = 25 })).0 ≡ quebrado
unfolding codigo
cuarta = refl

no_alineada : (pmm_liberar_pagina_fisica true tomado 0x100008).0 ≡ quebrado
unfolding codigo
no_alineada = refl

asignar-IsPila_example :
    let (s, m') = pmm_asignar_pagina_fisica true uno in
    ((◌≡◌ {A = List ℕ} (0x100000 ∷ []) []) × Agotada uno (s, m') × IsPila m' (0x100000 ∷ []) [])
    ⊎ ((p : ℕ) × (r : List ℕ) × (◌≡◌ {A = List ℕ} (0x100000 ∷ []) (p ∷ r))
        × (s ≡ marco p)
        × IsPila m' r (p ∷ []))
asignar-IsPila_example = asignar-IsPila uno (0x100000 ∷ []) [] uno-IsPila

tomado-IsPila : IsPila tomado [] (0x100000 ∷ [])
tomado-IsPila = tomar-IsPila uno 0x100000 [] [] uno-IsPila

liberar-IsPila_example :
    let (s, m') = pmm_liberar_pagina_fisica true tomado 0x100000 in
    ((s ≡ hecho)
      × (contiene (0x100000 ∷ []) 0x100000 ≡ true)
      × IsPila m' (0x100000 ∷ []) (quitar (0x100000 ∷ []) 0x100000))
    ⊎ ((s ≡ quebrado)
        × ((◌≡◌ {A = ℕ} 0x100000 0)
            ⊎ (0x100000 % 4096 ≢ 0)
            ⊎ (contiene (0x100000 ∷ []) 0x100000 ≡ false)))
liberar-IsPila_example = liberar-IsPila tomado [] (0x100000 ∷ []) 0x100000 tomado-IsPila

liberar_dos_veces_example :
    let (s, m') = pmm_liberar_pagina_fisica true tomado 0x100000 in
    (s ≡ hecho) × ((pmm_liberar_pagina_fisica true m' 0x100000).0 ≡ quebrado)
liberar_dos_veces_example =
    liberar_dos_veces tomado [] (0x100000 ∷ []) 0x100000 tomado-IsPila refl (omega arith) refl

liberar-asignar_marco_example :
    let (s, r) = pmm_liberar_pagina_fisica true tomado 0x100000 in
    (s ≡ hecho)
    × (r.pila ≡ uno.pila)
    × (r.paginas_libres ≡ uno.paginas_libres)
    × (r.paginas_en_uso ≡ uno.paginas_en_uso)
    × IsPila r (0x100000 ∷ []) []
liberar-asignar_marco_example = liberar-asignar_marco uno (0x100000 ∷ []) [] uno-IsPila tomado_lem
