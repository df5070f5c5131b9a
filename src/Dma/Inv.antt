-- ===== src/Dma/Inv.antt =====
-- The invariant of nucleo/base/dma.c: the live allocations are disjoint runs of marked pages that
-- cover all the marked pages, and the counters count them.
use taek_os.Prelude.{
  ℕ, ◌+◌, ◌%◌, ◌*◌, ◌^◌, ◌≤◌, ◌<◌, Bool, true, not, ◌≡◌, ◌≢◌, get_or, ◌==◌, arith,
}
use taek_os.Prelude.Count.{count}
use taek_os.Dma.Defs.{Dma, bitmap_probar_bit, pags_necesarias}
use taek_os.Dma.Bitmap.{IsSized}

-- The size recorded at a page: 0 unless an allocation begins there.
abbrev pub tam : Dma → ℕ → ℕ
tam d i = get_or d.tamano_asignacion i 0

abbrev pub empieza : Dma → ℕ → Bool
empieza d i = not (tam d i == 0)

-- Page `j` belongs to the allocation that begins at `i`.
pub record Cubre (d : Dma) (i j : ℕ) : Type 0 where
  pub viva : tam d i ≢ 0
  pub desde : i ≤ j
  pub hasta : j < i + pags_necesarias (tam d i)

pub record IsValid (d : Dma) : Type 0 where
  pub sized : IsSized d
  pub base_alineada : d.base_fisica % 4096 ≡ 0
  pub arena : d.total_paginas * 4096 ≤ d.tamano_bytes
  pub tamano_le : d.tamano_bytes ≤ 33554432
  pub sin_vuelta : d.base_fisica + d.tamano_bytes < 2 ^ 64
  pub ocupadas : d.paginas_ocupadas ≡ count (bitmap_probar_bit d) d.total_paginas
  pub activas : d.asignaciones_activas ≡ count (empieza d) d.total_paginas
  pub dentro :
      (i : ℕ)
      → i < d.total_paginas
      → tam d i ≢ 0
      → (i + pags_necesarias (tam d i) ≤ d.total_paginas) × (tam d i ≤ d.tamano_bytes)
  pub marcadas : (i j : ℕ) → i < d.total_paginas → Cubre d i j → bitmap_probar_bit d j ≡ true
  pub separadas :
      (i k : ℕ)
      → i < k
      → k < d.total_paginas
      → tam d i ≢ 0
      → tam d k ≢ 0
      → i + pags_necesarias (tam d i) ≤ k
  pub cubiertas :
      (j : ℕ)
      → j < d.total_paginas
      → bitmap_probar_bit d j ≡ true
      → (i : ℕ) × (i < d.total_paginas) × Cubre d i j

-- The page count of a size in the arena: no 32-bit conversion loses anything.
pub pags_necesarias_lem :
    (b : ℕ)
    → 0 < b
    → b ≤ 33554432
    → (0 < pags_necesarias b)
      × (b ≤ pags_necesarias b * 4096)
      × (pags_necesarias b * 4096 < b + 4096)
      × (b % 2 ^ 32 ≡ b)
unfolding pags_necesarias
pags_necesarias_lem b h k = omega arith

-- An allocation covers the page where it begins.
pub Cubre-self : {d : Dma} (i : ℕ) → IsValid d → i < d.total_paginas → tam d i ≢ 0 → Cubre d i i
Cubre-self {d} i v h n =
    let in_arena = v.dentro i h n in
    let pos = pags_necesarias_lem (tam d i) (omega arith) (omega (arith, in_arena, v.tamano_le)) in
    record { viva = n; desde = omega arith; hasta = omega (arith, pos) }
