-- ===== src/Dma/Bloque.antt =====
-- Runs of pages: the loops of the allocation and of the release over `pags_necesarias` bits.
use taek_os.Prelude.{
  inl, inr, Bool-cases, ℕ, zero, suc, ◌+◌, ◌-◌, ◌/◌, ◌%◌, ◌^◌, bit_and, bit_or, ◌≤◌, ◌<◌, Bool,
  true, false, ◌≡◌, refl, ap, if◌then◌else◌, arith, lt→ltb, length-set, get_or,
}
use taek_os.Prelude.Count.{en_rango}
use taek_os.Dma.Defs.{
  Dma, bitmap_probar_bit, bitmap_marcar_bit, bitmap_limpiar_bit, bloque_libre, bloque_ocupado,
  marcar_bloque, limpiar_bloque,
}
use taek_os.Dma.Bitmap.{IsSized, probar-marcar, probar-limpiar}

-- What both loops leave alone.
pub record SameArena (d e : Dma) : Type 0 where
  pub base : e.base_fisica ≡ d.base_fisica
  pub tamano : e.tamano_bytes ≡ d.tamano_bytes
  pub total : e.total_paginas ≡ d.total_paginas
  pub ocupadas : e.paginas_ocupadas ≡ d.paginas_ocupadas
  pub activas : e.asignaciones_activas ≡ d.asignaciones_activas
  pub max_kb : e.max_tamano_kb ≡ d.max_tamano_kb
  pub listo : e.iniciado ≡ d.iniciado
  pub tamanos : e.tamano_asignacion ≡ d.tamano_asignacion

marcar-IsSized : (d : Dma) (i : ℕ) → IsSized d → IsSized (bitmap_marcar_bit d i)
unfolding bitmap_marcar_bit
marcar-IsSized d i v =
    ground
      (arith, length-set d.bitmap (i / 64) (bit_or (get_or d.bitmap (i / 64) 0) (2 ^ (i % 64))))

limpiar-IsSized : (d : Dma) (i : ℕ) → IsSized d → IsSized (bitmap_limpiar_bit d i)
unfolding bitmap_limpiar_bit
limpiar-IsSized d i v = ground (
  arith,
  length-set d.bitmap (i / 64) (bit_and (get_or d.bitmap (i / 64) 0) (2 ^ 64 - 1 - 2 ^ (i % 64))),
)

marcar-SameArena : (d : Dma) (i : ℕ) → SameArena d (bitmap_marcar_bit d i)
unfolding bitmap_marcar_bit
marcar-SameArena d i = ground arith

limpiar-SameArena : (d : Dma) (i : ℕ) → SameArena d (bitmap_limpiar_bit d i)
unfolding bitmap_limpiar_bit
limpiar-SameArena d i = ground arith

SameArena-trans : {d e f : Dma} → SameArena d e → SameArena e f → SameArena d f
SameArena-trans s t = ground arith

pub bloque_libre-clear :
    (d : Dma) (n i j : ℕ)
    → bloque_libre d i n ≡ true
    → i ≤ j
    → j < i + n
    → bitmap_probar_bit d j ≡ false
unfolding bloque_libre
bloque_libre-clear d zero i j h p q = absurd (omega arith)
bloque_libre-clear d (suc n) i j h p q =
    ground (arith, bloque_libre-clear d n (i + 1) j, ap (bitmap_probar_bit d) {x = i} {y = j})

pub bloque_libre_of_clear :
    (d : Dma) (n i : ℕ)
    → ((j : ℕ) → i ≤ j → j < i + n → bitmap_probar_bit d j ≡ false)
    → bloque_libre d i n ≡ true
unfolding bloque_libre
bloque_libre_of_clear d zero i h = refl
bloque_libre_of_clear d (suc n) i h = ground (
  arith,
  h i (omega arith) (omega arith),
  bloque_libre_of_clear d n (i + 1) (λ j p q. h j (omega arith) (omega arith)),
)

pub bloque_ocupado-marked :
    (d : Dma) (n i j : ℕ)
    → bloque_ocupado d i n ≡ true
    → i ≤ j
    → j < i + n
    → bitmap_probar_bit d j ≡ true
unfolding bloque_ocupado
bloque_ocupado-marked d zero i j h p q = absurd (omega arith)
bloque_ocupado-marked d (suc n) i j h p q = ground (arith, bloque_ocupado-marked d n (i + 1) j)

pub bloque_ocupado_of_marked :
    (d : Dma) (n i : ℕ)
    → ((j : ℕ) → i ≤ j → j < i + n → bitmap_probar_bit d j ≡ true)
    → bloque_ocupado d i n ≡ true
unfolding bloque_ocupado
bloque_ocupado_of_marked d zero i h = refl
bloque_ocupado_of_marked d (suc n) i h = ground (
  arith,
  h i (omega arith) (omega arith),
  bloque_ocupado_of_marked d n (i + 1) (λ j p q. h j (omega arith) (omega arith)),
)

-- What marking a run does: the sizes and the rest of the state stay, the tests of the run are set.
pub record Marks (d e : Dma) (i n : ℕ) (v : Bool) : Type 0 where
  pub sized : IsSized e
  pub same : SameArena d e
  pub tests :
      (j : ℕ) → bitmap_probar_bit e j ≡ (if en_rango i n j then v else bitmap_probar_bit d j)

pub marcar_bloque-Marks : (n i : ℕ) (d : Dma) → IsSized d → Marks d (marcar_bloque d i n) i n true
unfolding marcar_bloque
marcar_bloque-Marks zero i d v = record {
  sized = v;
  same = ground arith;
  tests = λ j. ground arith;
}
marcar_bloque-Marks (suc n) i d v =
    let ih = marcar_bloque-Marks n (i + 1) (bitmap_marcar_bit d i) (marcar-IsSized d i v) in
    record {
      sized = ih.sized;
      same = SameArena-trans (marcar-SameArena d i) ih.same;
      tests = λ j. ground (arith, ih.tests j, probar-marcar d i j v);
    }

pub limpiar_bloque-Marks :
    (n i : ℕ) (d : Dma)
    → IsSized d
    → i + n ≤ d.total_paginas
    → Marks d (limpiar_bloque d i n) i n false
unfolding limpiar_bloque
limpiar_bloque-Marks zero i d v h = record {
  sized = v;
  same = ground arith;
  tests = λ j. ground arith;
}
limpiar_bloque-Marks (suc n) i d v h =
    let s = limpiar-SameArena d i in
    let ih =
      limpiar_bloque-Marks n (i + 1) (bitmap_limpiar_bit d i) (limpiar-IsSized d i v)
        (omega (arith, s.total)) in
    rw (lt→ltb i d.total_paginas (omega arith)) (record {
      sized = ih.sized;
      same = SameArena-trans s ih.same;
      tests = λ j. ground (arith, ih.tests j, probar-limpiar d i j v);
    })

-- A run that is not free has a taken page.
pub bloque_libre-taken :
    (d : Dma) (n i : ℕ)
    → bloque_libre d i n ≡ false
    → (j : ℕ) × (i ≤ j) × (j < i + n) × (bitmap_probar_bit d j ≡ true)
unfolding bloque_libre
bloque_libre-taken d zero i h = absurd (ground arith)
bloque_libre-taken d (suc n) i h = elim (Bool-cases (bitmap_probar_bit d i)) [
  | inl taken ↦ (i, omega arith, omega arith, taken)
  | inr free ↦
      let (j, a, b, t) = bloque_libre-taken d n (i + 1) (ground arith) in
      (j, omega arith, omega arith, t)
]
