-- ===== src/Dma/Desocupar.antt =====
-- Releasing the pages of a live allocation in nucleo/base/dma.c: the second half of the release.
use taek_os.Prelude.{
  ℕ, ◌+◌, ◌*◌, ◌%◌, ◌^◌, ◌≤◌, ◌<◌, true, false, ◌≡◌, ◌≢◌, ap, ◌∙◌, sym, arith, subst, ◌==◌,
  if◌then◌else◌, set, get_or-set, length-set,
}
use native.Mathlib.Decide.{dec_lt, ℕ_discrete}
use taek_os.Prelude.Count.{en_rango, count, count_clear}
use taek_os.Dma.Defs.{Dma, bitmap_probar_bit, limpiar_bloque, pags_necesarias, desocupar}
use taek_os.Dma.Bitmap.{IsSized}
use taek_os.Dma.Bloque.{Marks, limpiar_bloque-Marks}
use taek_os.Dma.Inv.{IsValid, Cubre, tam, empieza, pags_necesarias_lem}

module _ (d : Dma) (i : ℕ) (v : IsValid d) (dentro : i < d.total_paginas) (viva : tam d i ≢ 0) where
  abbrev p : ℕ
  p = pags_necesarias (tam d i)

  abbrev e : Dma
  e = desocupar d i p

  abbrev sin_tamano : Dma
  sin_tamano = record d { tamano_asignacion = set d.tamano_asignacion i 0 }

  cabe : i + p ≤ d.total_paginas
  cabe = (v.dentro i dentro viva).0

  pags : (0 < p) × (tam d i ≤ p * 4096) × (p * 4096 < tam d i + 4096) × (tam d i % 2 ^ 32 ≡ tam d i)
  pags =
      pags_necesarias_lem (tam d i) (omega arith)
        (omega (arith, v.dentro i dentro viva, v.tamano_le))

  sin_tamano-IsSized : IsSized sin_tamano
  sin_tamano-IsSized = record {
    bitmap_len = v.sized.bitmap_len;
    tamanos_len = length-set d.tamano_asignacion i 0 ∙ v.sized.tamanos_len;
    total_le = v.sized.total_le;
  }

  marks : Marks sin_tamano (limpiar_bloque sin_tamano i p) i p false
  marks = limpiar_bloque-Marks p i sin_tamano sin_tamano-IsSized cabe

  -- Releasing an allocation clears the tests of its pages and no other.
  pub probar-desocupar :
      (j : ℕ) → bitmap_probar_bit e j ≡ (if en_rango i p j then false else bitmap_probar_bit d j)
  unfolding desocupar bitmap_probar_bit
  probar-desocupar j = marks.tests j

  pub total-desocupar : e.total_paginas ≡ d.total_paginas
  unfolding desocupar
  total-desocupar = marks.same.total

  pub tam-desocupar : (k : ℕ) → tam e k ≡ (if i == k then 0 else tam d k)
  unfolding desocupar
  tam-desocupar k = rw marks.same.tamanos (
      get_or-set d.tamano_asignacion i k 0 0
        (omega (arith, v.sized.tamanos_len, v.sized.total_le, dentro)))

  tam_otro : (k : ℕ) → i ≢ k → tam e k ≡ tam d k
  tam_otro k h = ground (arith, tam-desocupar k)

  otra : (k : ℕ) → tam e k ≢ 0 → (i ≢ k) × (tam d k ≢ 0)
  otra k n = ground (arith, tam-desocupar k)

  empieza-desocupar : (j : ℕ) → empieza e j ≡ (if en_rango i 1 j then false else empieza d j)
  empieza-desocupar j = ground (arith, tam-desocupar j)

  activas-desocupar : e.asignaciones_activas ≡ count (empieza e) d.total_paginas
  unfolding desocupar
  activas-desocupar = ground (
    arith,
    marks.same.activas,
    v.activas,
    dentro,
    count_clear (empieza d) (empieza e) i 1 d.total_paginas empieza-desocupar
        (λ j a b. ground (arith, viva, ap (tam d) {x = i} {y = j})),
  )

  ocupadas-desocupar : e.paginas_ocupadas ≡ count (bitmap_probar_bit e) d.total_paginas
  unfolding desocupar
  ocupadas-desocupar = ground (
    arith,
    marks.same.ocupadas,
    v.ocupadas,
    cabe,
    count_clear (bitmap_probar_bit d) (bitmap_probar_bit e) i p d.total_paginas probar-desocupar
        (λ j a b. v.marcadas i j dentro (record { viva = viva; desde = a; hasta = b })),
  )

  dentro-desocupar :
      (k : ℕ)
      → k < d.total_paginas
      → tam e k ≢ 0
      → (k + pags_necesarias (tam e k) ≤ d.total_paginas) × (tam e k ≤ d.tamano_bytes)
  dentro-desocupar k h n = let o = otra k n in rw (tam_otro k o.0) (v.dentro k h o.1)

  separadas-desocupar :
      (a b : ℕ)
      → a < b
      → b < d.total_paginas
      → tam e a ≢ 0
      → tam e b ≢ 0
      → a + pags_necesarias (tam e a) ≤ b
  separadas-desocupar a b h k na nb =
      let oa = otra a na in
      let ob = otra b nb in rw (tam_otro a oa.0) (v.separadas a b h k oa.1 ob.1)

  -- A page that another live allocation covers is outside the released run.
  aparte : (k j : ℕ) → k < d.total_paginas → i ≢ k → Cubre d k j → en_rango i p j ≡ false
  aparte k j h o c = elim (dec_lt i k) [
    | yes q ↦ ground (arith, v.separadas i k q h viva c.viva)
    | no q ↦ ground (arith, v.separadas k i (omega arith) dentro c.viva viva)
  ]

  old : (k j : ℕ) → i ≢ k → Cubre e k j → Cubre d k j
  old k j o c = record {
    viva = rw (tam_otro k o) at c.viva;
    desde = c.desde;
    hasta = rw (tam_otro k o) at c.hasta;
  }

  marcadas-desocupar : (k j : ℕ) → k < d.total_paginas → Cubre e k j → bitmap_probar_bit e j ≡ true
  marcadas-desocupar k j h c =
      let o = (otra k c.viva).0 in
      let c' = old k j o c in
      ground (arith, probar-desocupar j, aparte k j h o c', v.marcadas k j h c')

  cubiertas-desocupar :
      (j : ℕ)
      → j < d.total_paginas
      → bitmap_probar_bit e j ≡ true
      → (k : ℕ) × (k < d.total_paginas) × Cubre e k j
  cubiertas-desocupar j h m =
      let fuera : en_rango i p j ≡ false = ground (arith, probar-desocupar j) in
      let (k, hk, c) = v.cubiertas j h (ground (arith, probar-desocupar j)) in
      elim (ℕ_discrete i k) [
        | no o ↦ (
          k,
          hk,
          record {
            viva = rw (tam_otro k o) c.viva;
            desde = c.desde;
            hasta = rw (tam_otro k o) c.hasta;
          },
        )
        | yes s ↦
            let c' = subst (λ x. Cubre d x j) (sym s) c in
            absurd (ground (arith, c'.desde, c'.hasta))
      ]

  desocupar-IsSized : IsSized e
  unfolding desocupar
  desocupar-IsSized = record {
    bitmap_len = marks.sized.bitmap_len;
    tamanos_len = marks.sized.tamanos_len;
    total_le = marks.sized.total_le;
  }

  pub base-desocupar : e.base_fisica ≡ d.base_fisica
  unfolding desocupar
  base-desocupar = marks.same.base

  tamano-desocupar : e.tamano_bytes ≡ d.tamano_bytes
  unfolding desocupar
  tamano-desocupar = marks.same.tamano

  -- Releasing a live allocation keeps the invariant.
  pub desocupar-IsValid : IsValid e
  desocupar-IsValid = record {
    sized = desocupar-IsSized;
    base_alineada = rw base-desocupar v.base_alineada;
    arena = rw (total-desocupar, tamano-desocupar) v.arena;
    tamano_le = rw tamano-desocupar v.tamano_le;
    sin_vuelta = rw (base-desocupar, tamano-desocupar) v.sin_vuelta;
    ocupadas = simp total-desocupar ocupadas-desocupar;
    activas = simp total-desocupar activas-desocupar;
    dentro = simp (total-desocupar, tamano-desocupar) dentro-desocupar;
    marcadas = simp total-desocupar marcadas-desocupar;
    separadas = simp total-desocupar separadas-desocupar;
    cubiertas = simp total-desocupar cubiertas-desocupar;
  }
