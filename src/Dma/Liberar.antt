-- ===== src/Dma/Liberar.antt =====
-- The release of nucleo/base/dma.c: it takes back exactly what was handed out, and once.
use taek_os.Prelude.{
  ℕ, ◌+◌, ◌*◌, ◌%◌, ◌/◌, ◌-◌, ◌^◌, ◌<◌, Bool, true, false, not, ◌≡◌, ◌≢◌, refl, ap, sym, ◌∙◌, inl,
  inr, some, arith, subst, ◌==◌, if◌then◌else◌, Bool-cases,
}
use taek_os.Prelude.Count.{en_rango, count, count_eq}
use taek_os.Dma.Defs.{
  Dma, bitmap_probar_bit, pags_necesarias, liberacion_valida, desocupar, liberar_bufer_contiguo,
  asignar_iniciado,
}
use taek_os.Dma.Bloque.{bloque_ocupado_of_marked}
use taek_os.Dma.Inv.{IsValid, tam, empieza}
use taek_os.Dma.Desocupar
use taek_os.Dma.Asignar.{Asignado, asignar-Asignado}

-- What a release that succeeds names: the first page of a live allocation, with its size.
pub record Devuelto (d : Dma) (fis bytes i : ℕ) : Type 0 where
  pub direccion : fis ≡ d.base_fisica + i * 4096
  pub dentro : i < d.total_paginas
  pub tamano : tam d i ≡ bytes
  pub positivo : 0 < bytes

-- The guards in numbers.
liberacion_valida-Devuelto :
    (d : Dma) (hhdm virt fis bytes : ℕ)
    → IsValid d
    → liberacion_valida d hhdm virt fis bytes ≡ true
    → Devuelto d fis bytes ((fis - d.base_fisica) / 4096 % 2 ^ 32)
unfolding liberacion_valida
liberacion_valida-Devuelto d hhdm virt fis bytes v h = ground arith

liberacion_valida_of_Devuelto :
    (d : Dma) (hhdm fis bytes i : ℕ)
    → IsValid d
    → Devuelto d fis bytes i
    → (fis + hhdm) % 2 ^ 64 ≢ 0
    → (liberacion_valida d hhdm ((fis + hhdm) % 2 ^ 64) fis bytes ≡ true)
      × ((fis - d.base_fisica) / 4096 % 2 ^ 32 ≡ i)
unfolding liberacion_valida
liberacion_valida_of_Devuelto d hhdm fis bytes i v r h =
    let n : tam d i ≢ 0 = omega (arith, r.tamano, r.positivo) in
    let fits = rw r.tamano at (v.dentro i r.dentro n) in
    let idx : (fis - d.base_fisica) / 4096 % 2 ^ 32 ≡ i =
      omega (arith, r.direccion, r.dentro, v.sized.total_le) in
    let full =
      bloque_ocupado_of_marked d (pags_necesarias bytes) i (λ j a b.
        v.marcadas i j r.dentro (record { viva = n; desde = a; hasta = rw r.tamano b })) in
    (rw idx (ground arith), idx)

-- The release in one equation.
liberar-desocupar :
    (d : Dma) (hhdm fis bytes i : ℕ)
    → IsValid d
    → Devuelto d fis bytes i
    → (fis + hhdm) % 2 ^ 64 ≢ 0
    → liberar_bufer_contiguo d hhdm ((fis + hhdm) % 2 ^ 64) fis bytes
      ≡ (true, desocupar d i (pags_necesarias bytes))
unfolding liberar_bufer_contiguo
liberar-desocupar d hhdm fis bytes i v r h =
    let (ok, idx) = liberacion_valida_of_Devuelto d hhdm fis bytes i v r h in rw (ok, idx)

-- On a valid arena, a release that succeeds named the first page of a live allocation with its exact size.
pub liberar-Devuelto :
    (d : Dma) (hhdm virt fis bytes : ℕ) {e : Dma}
    → IsValid d
    → liberar_bufer_contiguo d hhdm virt fis bytes ≡ (true, e)
    → (i : ℕ) × Devuelto d fis bytes i × (e ≡ desocupar d i (pags_necesarias bytes))
unfolding liberar_bufer_contiguo
liberar-Devuelto d hhdm virt fis bytes v h =
    elim (Bool-cases (liberacion_valida d hhdm virt fis bytes)) [
      | inl ok ↦ (
        (fis - d.base_fisica) / 4096 % 2 ^ 32,
        liberacion_valida-Devuelto d hhdm virt fis bytes v ok,
        sym (ap (λ (x : Bool × Dma). x.1) (rw ok at h)),
      )
      | inr no_ok ↦ absurd (ground arith)
    ]

-- A release keeps the invariant, whether it succeeds or not.
pub liberar-IsValid :
    (d : Dma) (hhdm virt fis bytes : ℕ)
    → IsValid d
    → IsValid (liberar_bufer_contiguo d hhdm virt fis bytes).1
unfolding liberar_bufer_contiguo
liberar-IsValid d hhdm virt fis bytes v =
    elim (Bool-cases (liberacion_valida d hhdm virt fis bytes)) [
      | inr no_ok ↦ rw no_ok v
      | inl ok ↦
          let r = liberacion_valida-Devuelto d hhdm virt fis bytes v ok in
          rw (ok, ← r.tamano)
            (Desocupar.desocupar-IsValid d _ v r.dentro (omega (arith, r.tamano, r.positivo)))
    ]

rechazo_tras_desocupar :
    (d : Dma) (i hhdm virt fis : ℕ)
    → IsValid d
    → i < d.total_paginas
    → tam d i ≢ 0
    → fis ≡ d.base_fisica + i * 4096
    → liberar_bufer_contiguo (desocupar d i (pags_necesarias (tam d i))) hhdm virt fis (tam d i)
      ≡ (false, desocupar d i (pags_necesarias (tam d i)))
unfolding liberar_bufer_contiguo
rechazo_tras_desocupar d i hhdm virt fis v h n f =
    let e = desocupar d i (pags_necesarias (tam d i)) in
    elim (Bool-cases (liberacion_valida e hhdm virt fis (tam d i))) [
      | inr no_ok ↦ rw no_ok
      | inl ok ↦
          let r =
            liberacion_valida-Devuelto e hhdm virt fis (tam d i)
              (Desocupar.desocupar-IsValid d i v h n) ok in
          let k = (fis - e.base_fisica) / 4096 % 2 ^ 32 in
          let same : i ≡ k = omega (arith, r.direccion, f, Desocupar.base-desocupar d i v h n) in
          let z : tam e k ≡ 0 = ground (arith, Desocupar.tam-desocupar d i v h n k) in
          absurd (n (sym r.tamano ∙ z))
    ]

-- On a valid arena, after a release that succeeds, the same release is refused and changes nothing.
pub liberar_doble :
    (d : Dma) (hhdm virt fis bytes : ℕ) {e : Dma}
    → IsValid d
    → liberar_bufer_contiguo d hhdm virt fis bytes ≡ (true, e)
    → liberar_bufer_contiguo e hhdm virt fis bytes ≡ (false, e)
liberar_doble d hhdm virt fis bytes {e} v h =
    let (i, r, eq) = liberar-Devuelto d hhdm virt fis bytes v h in
    let n : tam d i ≢ 0 = omega (arith, r.tamano, r.positivo) in
    rw eq (
      subst
        (λ b.
          liberar_bufer_contiguo (desocupar d i (pags_necesarias b)) hhdm virt fis b
          ≡ (false, desocupar d i (pags_necesarias b)))
        r.tamano (rechazo_tras_desocupar d i hhdm virt fis v r.dentro n r.direccion))

-- Taking a run and giving it back, field by field.
module _ (d e : Dma) (al bytes fis : ℕ) (v : IsValid d) (a : Asignado d e al bytes fis) where
  abbrev i : ℕ
  i = a.pagina

  abbrev f : Dma
  f = desocupar e i (pags_necesarias (tam e i))

  tam_tomado : tam e i ≡ bytes
  tam_tomado = ground (arith, a.tamanos i)

  tomado_viva : tam e i ≢ 0
  tomado_viva = omega (arith, tam_tomado, a.positivo)

  tomado_dentro : i < e.total_paginas
  tomado_dentro = omega (arith, a.total, a.cabe, a.bastante, a.positivo)

  tomado_probar :
      (j : ℕ)
      → bitmap_probar_bit f j
        ≡ (if en_rango i (pags_necesarias (tam e i)) j then false else bitmap_probar_bit e j)
  tomado_probar = Desocupar.probar-desocupar e i a.valid tomado_dentro tomado_viva

  restaura-probar : (j : ℕ) → bitmap_probar_bit f j ≡ bitmap_probar_bit d j
  restaura-probar j =
      ground (arith, tomado_probar j, ap pags_necesarias tam_tomado, a.marcas j, a.libre j)

  restaura-tam : (k : ℕ) → tam f k ≡ tam d k
  restaura-tam k = ground (
    arith,
    Desocupar.tam-desocupar e i a.valid tomado_dentro tomado_viva k,
    a.tamanos k,
    a.sin_dueno,
    ap (tam d) {x = i} {y = k},
  )

  f-IsValid : IsValid f
  f-IsValid = Desocupar.desocupar-IsValid e i a.valid tomado_dentro tomado_viva

  restaura-total : f.total_paginas ≡ d.total_paginas
  restaura-total = Desocupar.total-desocupar e i a.valid tomado_dentro tomado_viva ∙ a.total

  restaura-ocupadas : f.paginas_ocupadas ≡ d.paginas_ocupadas
  restaura-ocupadas =
      f-IsValid.ocupadas
      ∙ ap (count (bitmap_probar_bit f)) restaura-total
      ∙ count_eq _ _ d.total_paginas (λ j h. restaura-probar j)
      ∙ sym v.ocupadas

  restaura-activas : f.asignaciones_activas ≡ d.asignaciones_activas
  restaura-activas =
      f-IsValid.activas
      ∙ ap (count (empieza f)) restaura-total
      ∙ count_eq _ _ d.total_paginas (λ j h. ap (λ x. not (x == 0)) (restaura-tam j))
      ∙ sym v.activas

  tomado-Devuelto : Devuelto e fis bytes i
  tomado-Devuelto = record {
    direccion = rw a.base a.direccion;
    dentro = tomado_dentro;
    tamano = tam_tomado;
    positivo = a.positivo;
  }

deshacer :
    (d e : Dma) (al bytes hhdm fis : ℕ)
    → IsValid d
    → Asignado d e al bytes fis
    → (fis + hhdm) % 2 ^ 64 ≢ 0
    → let (ok, f) = liberar_bufer_contiguo e hhdm ((fis + hhdm) % 2 ^ 64) fis bytes in
      (ok ≡ true)
      × ((j : ℕ) → bitmap_probar_bit f j ≡ bitmap_probar_bit d j)
      × ((k : ℕ) → tam f k ≡ tam d k)
      × (f.paginas_ocupadas ≡ d.paginas_ocupadas)
      × (f.asignaciones_activas ≡ d.asignaciones_activas)
deshacer d e al bytes hhdm fis v a n =
    rw
      (liberar-desocupar e hhdm fis bytes a.pagina a.valid (tomado-Devuelto d e al bytes fis v a) n)
      (subst
        (λ b.
          let f = desocupar e a.pagina (pags_necesarias b) in
          ((true ≡ true)
            × ((j : ℕ) → bitmap_probar_bit f j ≡ bitmap_probar_bit d j)
            × ((k : ℕ) → tam f k ≡ tam d k)
            × (f.paginas_ocupadas ≡ d.paginas_ocupadas)
            × (f.asignaciones_activas ≡ d.asignaciones_activas)))
        (tam_tomado d e al bytes fis v a)
        (
          refl,
          restaura-probar d e al bytes fis v a,
          restaura-tam d e al bytes fis v a,
          restaura-ocupadas d e al bytes fis v a,
          restaura-activas d e al bytes fis v a,
        ))

-- On a valid arena, what an allocation handed out can be released, and the release restores the test of every page,
-- every recorded size and both counters.
pub liberar-asignar :
    (d : Dma) (bytes alineacion hhdm : ℕ) {fis : ℕ} {e : Dma}
    → IsValid d
    → asignar_iniciado d false bytes alineacion ≡ (some fis, e)
    → (fis + hhdm) % 2 ^ 64 ≢ 0
    → let (ok, f) = liberar_bufer_contiguo e hhdm ((fis + hhdm) % 2 ^ 64) fis bytes in
      (ok ≡ true)
      × ((j : ℕ) → bitmap_probar_bit f j ≡ bitmap_probar_bit d j)
      × ((k : ℕ) → tam f k ≡ tam d k)
      × (f.paginas_ocupadas ≡ d.paginas_ocupadas)
      × (f.asignaciones_activas ≡ d.asignaciones_activas)
liberar-asignar d bytes al hhdm {fis} {e} v h n =
    let a = asignar-Asignado d bytes al v h in deshacer d e al bytes hhdm fis v a n
