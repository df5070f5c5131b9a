-- ===== src/Memoria/Pila.antt =====
-- What the calls of the stack of free frames of nucleo/base/memoria.c do.
use taek_os.Prelude.{
  ℕ, ◌%◌, ◌<◌, ◌-◌, ◌≤◌, ltb, Bool, true, false, ◌≡◌, ◌≢◌, ◌⊎◌, refl, ap, sym, ◌∙◌, inl, inr, List,
  [], ◌∷◌, arith, subst, ◌==◌, if◌then◌else◌, Bool-cases,
}
use mathlib.Core.Path.{subst₂}
use native.Mathlib.Decide.{ℕ_discrete, dec_lt}
use taek_os.Prelude.Bits.{bit_and-page}
use taek_os.Memoria.Estado.{pmm_estado_leer}
use taek_os.Memoria.Marcos.{
  Pmm, Salida, marco, hecho, agotada, quebrado, es_estado, tomar, apilar, pmm_asignar_pagina_fisica,
  pmm_liberar_pagina_fisica, huevo_agrietar, sin_marco,
}
use taek_os.Memoria.Cadena.{
  contiene, quitar, IsPila, contiene-quitar, es_estado-some, tomar-IsPila, apilar-IsPila,
}

asignar_tope :
    (m : Pmm) (p : ℕ)
    → m.estado_listo ≡ true
    → m.pila ≡ p
    → p ≢ 0
    → es_estado (pmm_estado_leer m.rangos p) 1 ≡ true
    → pmm_asignar_pagina_fisica true m ≡ (marco p, tomar m p)
unfolding pmm_asignar_pagina_fisica
asignar_tope m p listo top nz libre =
    subst (λ x. pmm_asignar_pagina_fisica true m ≡ (marco x, tomar m x)) top
      (ground (arith, ap (λ x. es_estado (pmm_estado_leer m.rangos x) 1) top))

asignar_vacia : (m : Pmm) → m.pila ≡ 0 → pmm_asignar_pagina_fisica true m ≡ sin_marco m
unfolding pmm_asignar_pagina_fisica
asignar_vacia m h = rw h refl

liberar_en_uso :
    (m : Pmm) (p : ℕ)
    → p ≢ 0
    → p % 4096 ≡ 0
    → es_estado (pmm_estado_leer m.rangos p) 2 ≡ true
    → pmm_liberar_pagina_fisica true m p ≡ (hecho, apilar m p)
unfolding pmm_liberar_pagina_fisica
liberar_en_uso m p nz al us = ground (arith, bit_and-page p)

liberar_invalida :
    (m : Pmm) (p : ℕ)
    → m.estado_listo ≡ true
    → ((p ≡ 0) ⊎ (p % 4096 ≢ 0) ⊎ (es_estado (pmm_estado_leer m.rangos p) 2 ≡ false))
    → pmm_liberar_pagina_fisica true m p ≡ (quebrado, m)
unfolding pmm_liberar_pagina_fisica
liberar_invalida m p listo h = ground (arith, bit_and-page p)

-- With no frame free the health goes down by 25, and the call fails or, when no health is left, halts the kernel.
abbrev pub Agotada : Pmm → Salida × Pmm → Type 0
Agotada m x =
    (x.1 ≡ record m { salud = m.salud - 25 })
    × (((25 < m.salud) × (x.0 ≡ agotada)) ⊎ ((m.salud ≤ 25) × (x.0 ≡ quebrado)))

sin_marco-Agotada : (m : Pmm) → Agotada m (sin_marco m)
unfolding huevo_agrietar
sin_marco-Agotada m = (
  ap (λ (s : ℕ). record m { salud = s }) (resta m.salud),
  elim (dec_lt 25 m.salud) [
    | yes y ↦ inl (y, viva _ (ground (arith, y)))
    | no n ↦ inr (omega (arith, n), muerta _ (ground (arith, n)))
  ],
)
  where
    resta : (s : ℕ) → (if ltb 25 s then s - 25 else 0) ≡ s - 25
    resta s = ground arith

    viva : (s : ℕ) → (s == 0) ≡ false → (if s == 0 then quebrado else agotada) ≡ agotada
    viva s h = rw h refl

    muerta : (s : ℕ) → (s == 0) ≡ true → (if s == 0 then quebrado else agotada) ≡ quebrado
    muerta s h = rw h refl

con_salud-IsPila :
    (m : Pmm) (s : ℕ) (l u : List ℕ) → IsPila m l u → IsPila (record m { salud = s }) l u
con_salud-IsPila m s l u v = record {
  listo = v.listo;
  rangos_bien = v.rangos_bien;
  cadena = v.cadena;
  distintos = v.distintos;
  usados_distintos = v.usados_distintos;
  cuenta = v.cuenta;
  cuenta_usados = v.cuenta_usados;
  cabe = v.cabe;
  libres = v.libres;
  usados = v.usados;
}

-- On a valid stack, an allocation by the coordinating processor with no frame free changes nothing but the health of
-- the kernel, which goes down by 25: it fails if some is left, and halts the kernel if not. Otherwise it hands out the
-- frame on top, which moves from the free ones to those in use. The stack stays valid.
pub asignar-IsPila :
    (m : Pmm) (l u : List ℕ)
    → IsPila m l u
    → let (s, m') = pmm_asignar_pagina_fisica true m in
      ((l ≡ []) × Agotada m (s, m') × IsPila m' l u)
      ⊎ ((p : ℕ) × (r : List ℕ) × (l ≡ p ∷ r) × (s ≡ marco p) × IsPila m' r (p ∷ u))
asignar-IsPila m [] u v =
    rw (asignar_vacia m v.cadena)
      (inl (refl, sin_marco-Agotada m, con_salud-IsPila m (huevo_agrietar m.salud) [] u v))
asignar-IsPila m (p ∷ l) u v =
    rw (asignar_tope m p v.listo v.cadena.0 v.cadena.1 (v.libres p v.cadena.2 ∙ ground arith))
      (inr (p, l, refl, refl, tomar-IsPila m p l u v))

-- On a valid stack, a release by the coordinating processor puts a frame in use back on top as a free
-- one; a null or unaligned address, or a frame that is not in use, halts the kernel.
pub liberar-IsPila :
    (m : Pmm) (l u : List ℕ) (p : ℕ)
    → IsPila m l u
    → let (s, m') = pmm_liberar_pagina_fisica true m p in
      ((s ≡ hecho) × (contiene u p ≡ true) × IsPila m' (p ∷ l) (quitar u p))
      ⊎ ((s ≡ quebrado) × ((p ≡ 0) ⊎ (p % 4096 ≢ 0) ⊎ (contiene u p ≡ false)))
liberar-IsPila m l u p v = elim (ℕ_discrete p 0) [
  | yes z ↦ rw (liberar_invalida m p v.listo (inl z)) (inr (refl, inl z))
  | no nz ↦ elim (ℕ_discrete (p % 4096) 0) [
    | no na ↦ rw (liberar_invalida m p v.listo (inr (inl na))) (inr (refl, inr (inl na)))
    | yes al ↦ elim (Bool-cases (contiene u p)) [
      | inr fuera ↦
          rw (liberar_invalida m p v.listo (inr (inr (v.usados p al ∙ fuera))))
            (inr (refl, inr (inr fuera)))
      | inl us ↦
          let en_uso = v.usados p al ∙ us in
          rw (liberar_en_uso m p nz al en_uso)
            (inl (refl, us, apilar-IsPila m p l u v nz al (es_estado-some _ 2 en_uso)))
    ]
  ]
]

-- A frame that was handed out and released cannot be released again before it is handed out: the
-- second release halts the kernel.
pub liberar_dos_veces :
    (m : Pmm) (l u : List ℕ) (p : ℕ)
    → IsPila m l u
    → contiene u p ≡ true
    → p ≢ 0
    → p % 4096 ≡ 0
    → let (s, m') = pmm_liberar_pagina_fisica true m p in
      (s ≡ hecho) × ((pmm_liberar_pagina_fisica true m' p).0 ≡ quebrado)
liberar_dos_veces m l u p v us nz al =
    let en_uso = v.usados p al ∙ us in
    let w = apilar-IsPila m p l u v nz al (es_estado-some _ 2 en_uso) in
    let fuera : es_estado (pmm_estado_leer (apilar m p).rangos p) 2 ≡ false =
      w.usados p al ∙ contiene-quitar u p p v.usados_distintos ∙ ground arith in
    rw (liberar_en_uso m p nz al en_uso) (
      refl,
      ap (λ (x : Salida × Pmm). x.0) (liberar_invalida (apilar m p) p w.listo (inr (inr fuera))),
    )

abbrev Restaurado : Pmm → ℕ → List ℕ → List ℕ → Salida × Pmm → Type 0
Restaurado m q l u x =
    (x.0 ≡ hecho)
    × (x.1.pila ≡ m.pila)
    × (x.1.paginas_libres ≡ m.paginas_libres)
    × (x.1.paginas_en_uso ≡ m.paginas_en_uso)
    × IsPila x.1 (q ∷ l) u

restaura :
    (m : Pmm) (q : ℕ) (l u : List ℕ)
    → IsPila m (q ∷ l) u
    → Restaurado m q l u (pmm_liberar_pagina_fisica true (tomar m q) q)
restaura m q l u v =
    let nz = v.cadena.1 in
    let al = v.cadena.2 in
    let t = tomar-IsPila m q l u v in
    let en_uso : es_estado (pmm_estado_leer (tomar m q).rangos q) 2 ≡ true =
      t.usados q al ∙ ground arith in
    let back : quitar (q ∷ u) q ≡ u = ground arith in
    let w =
      subst (IsPila (apilar (tomar m q) q) (q ∷ l)) back
        (apilar-IsPila (tomar m q) q l (q ∷ u) t nz al (es_estado-some _ 2 en_uso)) in
    rw (liberar_en_uso (tomar m q) q nz al en_uso) (
      refl,
      w.cadena.0 ∙ sym v.cadena.0,
      w.cuenta ∙ sym v.cuenta,
      w.cuenta_usados ∙ sym v.cuenta_usados,
      w,
    )

marco_inj : {a b : ℕ} → marco a ≡ marco b → a ≡ b
marco_inj h = cc

marco-ne : {a : ℕ} (b : Bool) → ¬ (marco a ≡ (if b then quebrado else agotada))
marco-ne true h = cc
marco-ne false h = cc

-- On a valid stack, releasing the frame that an allocation has just handed out restores the stack and
-- both counters.
pub liberar-asignar_marco :
    (m : Pmm) (l u : List ℕ) {p : ℕ} {m' : Pmm}
    → IsPila m l u
    → pmm_asignar_pagina_fisica true m ≡ (marco p, m')
    → let (s, r) = pmm_liberar_pagina_fisica true m' p in
      (s ≡ hecho)
      × (r.pila ≡ m.pila)
      × (r.paginas_libres ≡ m.paginas_libres)
      × (r.paginas_en_uso ≡ m.paginas_en_uso)
      × IsPila r l u
liberar-asignar_marco m [] u v h = absurd (
    marco-ne _ (
      sym (ap (λ (x : Salida × Pmm). x.0) h)
      ∙ ap (λ (x : Salida × Pmm). x.0) (asignar_vacia m v.cadena)))
liberar-asignar_marco m (q ∷ l) u v h =
    let top =
      asignar_tope m q v.listo v.cadena.0 v.cadena.1 (v.libres q v.cadena.2 ∙ ground arith) in
    let same = sym top ∙ h in
    subst₂ (λ x y. Restaurado m q l u (pmm_liberar_pagina_fisica true y x))
      (marco_inj (ap (λ (x : Salida × Pmm). x.0) same)) (ap (λ (x : Salida × Pmm). x.1) same)
      (restaura m q l u v)
