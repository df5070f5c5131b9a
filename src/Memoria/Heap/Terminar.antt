-- ===== src/Memoria/Heap/Terminar.antt =====
-- The expansion of the kernel heap of nucleo/base/memoria.c ends the search: asignar_memoria calls itself once at most.
use taek_os.Prelude.{
  ℕ, zero, suc, ◌+◌, ◌-◌, ◌*◌, ◌%◌, ◌^◌, ◌≤◌, ◌<◌, ◌≡◌, ◌≢◌, refl, sym, ap, ◌∙◌, Bool, true, false,
  not, ◌||◌, List, [], ◌∷◌, ◌++◌, ◌==◌, ltb, if◌then◌else◌, arith, si,
}
use taek_os.Memoria.Marcos.{
  Pmm, Salida, marco, hecho, nada, agotada, quebrado, pmm_asignar_pagina_fisica,
  pmm_liberar_pagina_fisica, sin_marco,
}
use taek_os.Memoria.Heap.Defs.{
  BloqueHeap, Heap, Memoria, Recogida, SalidaHeap, nulo, sin_rondas, sano, sirve, ocupar,
  tamano_ocupado, recorrer, Hallazgo, roto, ninguno, hallado, anteponer, redondear, parada,
  recoger_segun, recoger, Expansion, suficiente, insuficiente, rota, agrietada, con_recogida,
  expandir_segun, expandir, segun_expansion, segun_hallazgo, asignar_redondeado, asignar_memoria,
  heap_agregar_arena, bloque_libre_en, paginas_necesarias,
}

abbrev es_ninguno : Hallazgo → Bool
es_ninguno ninguno = true
es_ninguno r = false

anteponer-es_ninguno : (b : BloqueHeap) (r : Hallazgo) → es_ninguno (anteponer b r) ≡ es_ninguno r
anteponer-es_ninguno b roto = refl
anteponer-es_ninguno b ninguno = refl
anteponer-es_ninguno b (hallado d n l) = refl

-- A block that serves, at the end of the list, is found if none before it is.
recorrer-append :
    (bytes : ℕ) (l : List BloqueHeap) (b : BloqueHeap)
    → sirve b bytes ≡ true
    → es_ninguno (recorrer bytes (l ++ b ∷ [])) ≡ false
unfolding recorrer
recorrer-append bytes [] b h =
    let P = λ (r : Hallazgo). es_ninguno r ≡ false in
    let este = hallado b.dir (tamano_ocupado b bytes) (ocupar b bytes ++ []) in
    si P (not (sano b)) roto (if sirve b bytes then este else ninguno) (λ _. refl) (λ _. rw h refl)
recorrer-append bytes (a ∷ l) b h =
    let P = λ (r : Hallazgo). es_ninguno r ≡ false in
    let m = l ++ b ∷ [] in
    let este = hallado a.dir (tamano_ocupado a bytes) (ocupar a bytes ++ m) in
    let resto = anteponer a (recorrer bytes m) in
    si P (not (sano a)) roto (if sirve a bytes then este else resto) (λ _. refl)
      (λ _.
        si P (sirve a bytes) este resto (λ _. refl)
          (λ _. anteponer-es_ninguno a (recorrer bytes m) ∙ recorrer-append bytes l b h))

parada-obtenidas : (p o : ℕ) (r : Salida × Pmm) → (parada p o r).obtenidas ≡ o
parada-obtenidas p o (quebrado, m) = refl
parada-obtenidas p o (hecho, m) = refl
parada-obtenidas p o (nada, m) = refl
parada-obtenidas p o (agotada, m) = refl
parada-obtenidas p o (marco q, m) = refl

segun-obtenidas :
    (p v o : ℕ) (sigue : ℕ → Recogida) (r : Salida × Pmm)
    → ((q : ℕ) → o ≤ (sigue q).obtenidas)
    → o ≤ (recoger_segun p v o sigue r).obtenidas
segun-obtenidas p v o sigue (marco q, m) h =
    let d = pmm_liberar_pagina_fisica true m q in
    si (λ (c : Recogida). o ≤ c.obtenidas) (q == (v + 4096) % 2 ^ 64 || (q + 4096) % 2 ^ 64 == p)
      (sigue q) (parada p o d) (λ _. h q) (λ _. omega (arith, parada-obtenidas p o d))
segun-obtenidas p v o sigue (quebrado, m) h = omega arith
segun-obtenidas p v o sigue (hecho, m) h = omega arith
segun-obtenidas p v o sigue (nada, m) h = omega arith
segun-obtenidas p v o sigue (agotada, m) h = omega arith

recoger-obtenidas : (n p v o : ℕ) (m : Pmm) → o ≤ (recoger n p v o m).obtenidas
unfolding recoger
recoger-obtenidas zero p v o m = omega arith
recoger-obtenidas (suc n) p v o m =
    let r = pmm_asignar_pagina_fisica true m in
    segun-obtenidas p v o _ r (λ q.
      let arriba = q == (v + 4096) % 2 ^ 64 in
      omega (
        arith,
        recoger-obtenidas n (if arriba then p else q) (if arriba then q else v) (o + 1) r.1,
      ))

-- An expansion that is enough leaves a block for the request.
abbrev Basta : ℕ → Expansion × Memoria → Type 0
Basta bytes (suficiente, m) = es_ninguno (recorrer bytes m.heap.bloques) ≡ false
Basta bytes r = Unit {0}

arena-recorrer :
    (h : Heap) (dir tamano bytes : ℕ)
    → bytes + 48 < 2 ^ 64
    → 4096 ≤ tamano
    → bytes + 48 ≤ tamano
    → es_ninguno (recorrer bytes (heap_agregar_arena h dir tamano).bloques) ≡ false
unfolding heap_agregar_arena
arena-recorrer h dir tamano bytes t a b =
    si (λ (x : Heap). es_ninguno (recorrer bytes x.bloques) ≡ false) (ltb tamano 112) h
      (record h {
        bloques = h.bloques ++ bloque_libre_en dir (tamano - 48) ∷ [];
        capacidad_total = (h.capacidad_total + tamano) % 2 ^ 64;
      })
      (λ e. ground (arith, e, a))
      (λ _. recorrer-append bytes h.bloques (bloque_libre_en dir (tamano - 48)) (ground (arith, b)))

con_recogida-Basta :
    (hhdm bytes : ℕ) (m : Memoria) (otra : Memoria → Expansion × Memoria) (c : Recogida)
    → bytes + 48 < 2 ^ 64
    → 1 ≤ c.obtenidas
    → ((n : Memoria) → Basta bytes (otra n))
    → Basta bytes (con_recogida hhdm bytes m otra c)
con_recogida-Basta hhdm bytes m otra c t o h =
    let arena = c.obtenidas * 4096 in
    let nueva : Memoria = record {
      heap = heap_agregar_arena m.heap ((c.primera + hhdm) % 2 ^ 64) arena;
      pmm = c.pmm;
    } in
    si (Basta bytes) c.quebrada (rota, record m { pmm = c.pmm })
      (if ltb arena ((bytes + 48) % 2 ^ 64) then otra nueva else (suficiente, nueva)) (λ _. tt)
      (λ _.
        si (Basta bytes) (ltb arena ((bytes + 48) % 2 ^ 64)) (otra nueva) (suficiente, nueva)
          (λ _. h nueva)
          (λ e.
            arena-recorrer m.heap ((c.primera + hhdm) % 2 ^ 64) arena bytes t (omega (arith, o))
              (ground (arith, e, t))))

avisada :
    (bytes : ℕ) (m : Memoria) (q : Pmm)
    → Basta bytes
        (if (sin_marco q).1.salud == 0 then rota else agrietada, record m { pmm = (sin_marco q).1 })
avisada bytes m q =
    si (λ e. Basta bytes (e, record m { pmm = (sin_marco q).1 })) ((sin_marco q).1.salud == 0) rota
      agrietada (λ _. tt) (λ _. tt)

expandir_segun-Basta :
    (bytes : ℕ) (m : Memoria) (sigue : ℕ → Expansion × Memoria) (r : Salida × Pmm)
    → ((p : ℕ) → Basta bytes (sigue p))
    → Basta bytes (expandir_segun m sigue r)
expandir_segun-Basta bytes m sigue (marco p, q) h = h p
expandir_segun-Basta bytes m sigue (quebrado, q) h = tt
expandir_segun-Basta bytes m sigue (hecho, q) h = avisada bytes m q
expandir_segun-Basta bytes m sigue (nada, q) h = avisada bytes m q
expandir_segun-Basta bytes m sigue (agotada, q) h = avisada bytes m q

expandir-Basta :
    (k hhdm bytes : ℕ) (m : Memoria) → bytes + 48 < 2 ^ 64 → Basta bytes (expandir k hhdm bytes m)
unfolding expandir
expandir-Basta zero hhdm bytes m t = tt
expandir-Basta (suc k) hhdm bytes m t =
    let r = pmm_asignar_pagina_fisica true m.pmm in
    let c : ℕ → Recogida = λ p. recoger (paginas_necesarias bytes - 1) p p 1 r.1 in
    let sigue : ℕ → Expansion × Memoria =
      λ p. con_recogida hhdm bytes m (expandir k hhdm bytes) (c p) in
    si (Basta bytes) (m.pmm.pila == 0) (insuficiente, m) (expandir_segun m sigue r) (λ _. tt)
      (λ _. expandir_segun-Basta bytes m sigue r (λ p.
        con_recogida-Basta hhdm bytes m (expandir k hhdm bytes) (c p) t
          (recoger-obtenidas (paginas_necesarias bytes - 1) p p 1 r.1)
          (λ n. expandir-Basta k hhdm bytes n t)))

abbrev es_sin_rondas : SalidaHeap → Bool
es_sin_rondas sin_rondas = true
es_sin_rondas s = false

segun_hallado :
    (m : Memoria) (e : Expansion × Memoria) (otra : SalidaHeap × Memoria) (r : Hallazgo)
    → es_ninguno r ≡ false
    → es_sin_rondas (segun_hallazgo m e otra r).0 ≡ false
segun_hallado m e otra roto h = refl
segun_hallado m e otra ninguno h = ground (arith, h)
segun_hallado m e otra (hallado d n l) h = refl

segun_expandida :
    (bytes : ℕ) (e : Expansion × Memoria) (otra : SalidaHeap × Memoria)
    → Basta bytes e
    → (es_ninguno (recorrer bytes e.1.heap.bloques) ≡ false → es_sin_rondas otra.0 ≡ false)
    → es_sin_rondas (segun_expansion e otra).0 ≡ false
segun_expandida bytes (suficiente, m) otra h k = k h
segun_expandida bytes (insuficiente, m) otra h k = refl
segun_expandida bytes (rota, m) otra h k = refl
segun_expandida bytes (agrietada, m) otra h k = refl

segun_cualquiera :
    (bytes : ℕ) (m : Memoria) (e : Expansion × Memoria) (otra : SalidaHeap × Memoria) (r : Hallazgo)
    → Basta bytes e
    → (es_ninguno (recorrer bytes e.1.heap.bloques) ≡ false → es_sin_rondas otra.0 ≡ false)
    → es_sin_rondas (segun_hallazgo m e otra r).0 ≡ false
segun_cualquiera bytes m e otra roto h k = refl
segun_cualquiera bytes m e otra ninguno h k = segun_expandida bytes e otra h k
segun_cualquiera bytes m e otra (hallado d n l) h k = refl

segunda_ronda :
    (hhdm bytes : ℕ) (m : Memoria)
    → es_ninguno (recorrer bytes m.heap.bloques) ≡ false
    → es_sin_rondas (asignar_redondeado 1 hhdm bytes m).0 ≡ false
unfolding asignar_redondeado
segunda_ronda hhdm bytes m h =
    let e = expandir 128 hhdm bytes m in
    segun_hallado m e (asignar_redondeado 0 hhdm (redondear bytes) e.1)
      (recorrer bytes m.heap.bloques) h

primera_ronda :
    (hhdm bytes : ℕ) (m : Memoria)
    → bytes + 48 < 2 ^ 64
    → redondear bytes ≡ bytes
    → es_sin_rondas (asignar_redondeado 2 hhdm bytes m).0 ≡ false
unfolding asignar_redondeado
primera_ronda hhdm bytes m t i =
    let e = expandir 128 hhdm bytes m in
    let otra = asignar_redondeado 1 hhdm (redondear bytes) e.1 in
    segun_cualquiera bytes m e otra (recorrer bytes m.heap.bloques)
      (expandir-Basta 128 hhdm bytes m t) (λ h. rw i (segunda_ronda hhdm bytes e.1 h))

redondear-redondear :
    (bytes : ℕ) → bytes + 96 < 2 ^ 64 → redondear (redondear bytes) ≡ redondear bytes
unfolding redondear
redondear-redondear bytes t = ground (arith, t)

redondear-lt : (bytes : ℕ) → bytes + 96 < 2 ^ 64 → redondear bytes + 48 < 2 ^ 64
unfolding redondear
redondear-lt bytes t = ground (arith, t)

-- A request of fewer than 2^64 - 96 bytes returns or halts after at most one call of the function to itself, whatever
-- the state of the heap and of the frames.
pub asignar_termina :
    (coordinador : Bool) (hhdm bytes : ℕ) (m : Memoria)
    → bytes + 96 < 2 ^ 64
    → (asignar_memoria coordinador hhdm bytes m).0 ≢ sin_rondas
unfolding asignar_memoria
asignar_termina c hhdm bytes m t e =
    let h : es_sin_rondas (asignar_memoria c hhdm bytes m).0 ≡ false =
      si (λ (r : SalidaHeap × Memoria). es_sin_rondas r.0 ≡ false) (not c || bytes == 0) (nulo, m)
        (asignar_redondeado 2 hhdm (redondear bytes) m) (λ _. refl)
        (λ _.
          primera_ronda hhdm (redondear bytes) m (redondear-lt bytes t)
            (redondear-redondear bytes t)) in
    ground (arith, sym (ap es_sin_rondas e) ∙ h)
