-- ===== src/Dma/Ocupar.antt =====
-- Taking a free run of pages in nucleo/base/dma.c: the second half of the allocation.
use taek_os.Prelude.{
  ℕ, ◌+◌, ◌*◌, ◌%◌, ◌^◌, ◌≤◌, ◌<◌, Bool, true, false, ◌≡◌, ◌≢◌, ap, ◌∙◌, inl, inr, arith, subst,
  ◌==◌, if◌then◌else◌, get_or-set, length-set, Bool-cases, ==_iff,
}
use native.Mathlib.Decide.{dec_lt, ℕ_discrete}
use taek_os.Prelude.Count.{en_rango, count, count_set, count-le}
use taek_os.Dma.Defs.{Dma, bitmap_probar_bit, marcar_bloque, pags_necesarias, ocupar}
use taek_os.Dma.Bitmap.{IsSized}
use taek_os.Dma.Bloque.{Marks, marcar_bloque-Marks}
use taek_os.Dma.Inv.{IsValid, Cubre, Cubre-self, tam, empieza, pags_necesarias_lem}

-- A run that may be taken: in the arena, free, and as long as the request needs.
pub record Tomable (d : Dma) (i bytes : ℕ) : Type 0 where
  pub valid : IsValid d
  pub positivo : 0 < bytes
  pub cabe_bytes : bytes ≤ d.tamano_bytes
  pub cabe : i + pags_necesarias bytes ≤ d.total_paginas
  pub libre : (j : ℕ) → i ≤ j → j < i + pags_necesarias bytes → bitmap_probar_bit d j ≡ false

module _ (d : Dma) (i bytes : ℕ) (t : Tomable d i bytes) where
  abbrev p : ℕ
  p = pags_necesarias bytes

  abbrev e : Dma
  e = ocupar d i p bytes

  marks : Marks d (marcar_bloque d i p) i p true
  marks = marcar_bloque-Marks p i d t.valid.sized

  pags : (0 < p) × (bytes ≤ p * 4096) × (p * 4096 < bytes + 4096) × (bytes % 2 ^ 32 ≡ bytes)
  pags = pags_necesarias_lem bytes t.positivo (omega (arith, t.cabe_bytes, t.valid.tamano_le))

  -- Taking a run sets the tests of its pages and no other.
  pub probar-ocupar :
      (j : ℕ) → bitmap_probar_bit e j ≡ (if en_rango i p j then true else bitmap_probar_bit d j)
  unfolding ocupar bitmap_probar_bit
  probar-ocupar j = marks.tests j

  pub total-ocupar : e.total_paginas ≡ d.total_paginas
  unfolding ocupar
  total-ocupar = marks.same.total

  pub i_dentro : i < d.total_paginas
  i_dentro = omega (arith, t.cabe, pags)

  pub tam-ocupar : (k : ℕ) → tam e k ≡ (if i == k then bytes else tam d k)
  unfolding ocupar
  tam-ocupar k =
      rw (marks.same.tamanos, pags.3)
        (get_or-set d.tamano_asignacion i k bytes 0
          (omega (arith, t.valid.sized.tamanos_len, t.valid.sized.total_le, i_dentro)))

  -- No allocation covers a free page, so none begins at `i`.
  no-Cubre : (k j : ℕ) → k < d.total_paginas → i ≤ j → j < i + p → ¬ Cubre d k j
  no-Cubre k j h a b c = absurd_bool (t.libre j a b) (t.valid.marcadas k j h c)
    where
      absurd_bool : {x : Bool} → x ≡ false → x ≡ true → ⊥
      absurd_bool u v = cc

  pub tam_libre : tam d i ≡ 0
  tam_libre = elim (Bool-cases (tam d i == 0)) [
    | inl z ↦ (==_iff (tam d i) 0).0 z
    | inr nz ↦ absurd (
        no-Cubre i i i_dentro (omega arith) (omega (arith, pags))
          (Cubre-self i t.valid i_dentro (ground arith)))
  ]

  pub tam_otro : (k : ℕ) → i ≢ k → tam e k ≡ tam d k
  tam_otro k h = ground (arith, tam-ocupar k)

  pub tam_nueva : tam e i ≡ bytes
  tam_nueva = ground (arith, tam-ocupar i)

  -- The live allocations of the new state: the new one, and the old ones as they were.
  viva_otra : (k : ℕ) → i ≢ k → tam e k ≢ 0 → tam d k ≢ 0
  viva_otra k h n = ground (arith, tam_otro k h)

  empieza-ocupar : (j : ℕ) → empieza e j ≡ (if en_rango i 1 j then true else empieza d j)
  empieza-ocupar j = ground (arith, tam-ocupar j, t.positivo)

  activas-ocupar : e.asignaciones_activas ≡ count (empieza e) d.total_paginas
  unfolding ocupar
  activas-ocupar = omega (
    arith,
    marks.same.activas,
    t.valid.activas,
    t.valid.sized.total_le,
    count-le (empieza d) d.total_paginas,
    i_dentro,
    count_set (empieza d) (empieza e) i 1 d.total_paginas empieza-ocupar
        (λ j a b. ground (arith, tam_libre, ap (tam d) {x = i} {y = j})),
  )

  ocupadas-ocupar : e.paginas_ocupadas ≡ count (bitmap_probar_bit e) d.total_paginas
  unfolding ocupar
  ocupadas-ocupar = omega (
    arith,
    marks.same.ocupadas,
    t.valid.ocupadas,
    t.valid.sized.total_le,
    count-le (bitmap_probar_bit d) d.total_paginas,
    t.cabe,
    count_set (bitmap_probar_bit d) (bitmap_probar_bit e) i p d.total_paginas probar-ocupar t.libre,
  )

  dentro-ocupar :
      (k : ℕ)
      → k < d.total_paginas
      → tam e k ≢ 0
      → (k + pags_necesarias (tam e k) ≤ d.total_paginas) × (tam e k ≤ d.tamano_bytes)
  dentro-ocupar k h n = elim (ℕ_discrete i k) [
    | yes s ↦
        subst (λ x. (x + pags_necesarias (tam e x) ≤ d.total_paginas) × (tam e x ≤ d.tamano_bytes))
          s (rw tam_nueva (t.cabe, t.cabe_bytes))
    | no o ↦ rw (tam_otro k o) (t.valid.dentro k h (viva_otra k o n))
  ]

  separadas-ocupar :
      (a b : ℕ)
      → a < b
      → b < d.total_paginas
      → tam e a ≢ 0
      → tam e b ≢ 0
      → a + pags_necesarias (tam e a) ≤ b
  separadas-ocupar a b h k na nb = elim (ℕ_discrete i a) [
    | yes s ↦
        let ib : i ≢ b = omega arith in
        let vb = viva_otra b ib nb in
        let after : i + p ≤ b = elim (dec_lt b (i + p)) [
          | yes q ↦ absurd (no-Cubre b b k (omega arith) q (Cubre-self b t.valid k vb))
          | no q ↦ omega arith
        ] in
        subst (λ x. x + pags_necesarias (tam e x) ≤ b) s (rw tam_nueva after)
    | no o ↦
        let va = viva_otra a o na in
        rw (tam_otro a o) (elim (ℕ_discrete i b) [
          | no o' ↦ t.valid.separadas a b h k va (viva_otra b o' nb)
          | yes s ↦ elim (dec_lt b (a + pags_necesarias (tam d a))) [
            | yes q ↦ absurd (
                no-Cubre a i (omega arith) (omega arith) (omega (arith, pags))
                  (record { viva = va; desde = omega arith; hasta = omega arith }))
            | no q ↦ omega arith
          ]
        ])
  ]

  marcadas-ocupar : (k j : ℕ) → k < d.total_paginas → Cubre e k j → bitmap_probar_bit e j ≡ true
  marcadas-ocupar k j h c = elim (ℕ_discrete i k) [
    | yes s ↦
        let len : tam e k ≡ bytes = subst (λ x. tam e x ≡ bytes) s tam_nueva in
        let end : j < k + p = rw len at c.hasta in ground (arith, probar-ocupar j)
    | no o ↦
        let old : Cubre d k j = record {
          viva = viva_otra k o c.viva;
          desde = c.desde;
          hasta = rw (tam_otro k o) at c.hasta;
        } in
        ground (arith, probar-ocupar j, t.valid.marcadas k j h old)
  ]

  cubiertas-ocupar :
      (j : ℕ)
      → j < d.total_paginas
      → bitmap_probar_bit e j ≡ true
      → (k : ℕ) × (k < d.total_paginas) × Cubre e k j
  cubiertas-ocupar j h m = elim (Bool-cases (en_rango i p j)) [
    | inl r ↦ (
      i,
      i_dentro,
      record {
        viva = omega (arith, tam_nueva, t.positivo);
        desde = ground arith;
        hasta = rw tam_nueva (ground arith);
      },
    )
    | inr r ↦
        let (k, hk, c) = t.valid.cubiertas j h (ground (arith, probar-ocupar j)) in
        let o : i ≢ k = λ s. c.viva (subst (λ x. tam d x ≡ 0) s tam_libre) in
        (
          k,
          hk,
          record {
            viva = rw (tam_otro k o) c.viva;
            desde = c.desde;
            hasta = rw (tam_otro k o) c.hasta;
          },
        )
  ]

  ocupar-IsSized : IsSized e
  unfolding ocupar
  ocupar-IsSized = record {
    bitmap_len = marks.sized.bitmap_len;
    tamanos_len =
        length-set (marcar_bloque d i p).tamano_asignacion i (bytes % 2 ^ 32)
        ∙ marks.sized.tamanos_len;
    total_le = marks.sized.total_le;
  }

  pub base-ocupar : e.base_fisica ≡ d.base_fisica
  unfolding ocupar
  base-ocupar = marks.same.base

  pub tamano-ocupar : e.tamano_bytes ≡ d.tamano_bytes
  unfolding ocupar
  tamano-ocupar = marks.same.tamano

  -- Taking a free run keeps the invariant.
  pub ocupar-IsValid : IsValid e
  ocupar-IsValid = record {
    sized = ocupar-IsSized;
    base_alineada = rw base-ocupar t.valid.base_alineada;
    arena = rw (total-ocupar, tamano-ocupar) t.valid.arena;
    tamano_le = rw tamano-ocupar t.valid.tamano_le;
    sin_vuelta = rw (base-ocupar, tamano-ocupar) t.valid.sin_vuelta;
    ocupadas = simp total-ocupar ocupadas-ocupar;
    activas = simp total-ocupar activas-ocupar;
    dentro = simp (total-ocupar, tamano-ocupar) dentro-ocupar;
    marcadas = simp total-ocupar marcadas-ocupar;
    separadas = simp total-ocupar separadas-ocupar;
    cubiertas = simp total-ocupar cubiertas-ocupar;
  }
