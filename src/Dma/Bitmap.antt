-- ===== src/Dma/Bitmap.antt =====
-- The bitmap of nucleo/base/dma.c: what each of its three operations does to the test of every page.
use taek_os.Prelude.{
  ℕ, ◌-◌, ◌/◌, ◌%◌, ◌^◌, ◌≤◌, ◌<◌, bit_and, bit_or, true, false, not, ◌&&◌, ◌||◌, ◌≡◌, ap, inl, inr,
  leb, ◌==◌, if◌then◌else◌, get_or, set, length, arith, Bool-cases, get_or-set,
}
use native.Mathlib.Nat.{one-le-pow}
use taek_os.Prelude.Bits.{
  bit, bit-le_one, bit-bit_and, bit-bit_or, bit-pow, bit-not_pow, bit_and-pow,
}
use taek_os.Dma.Defs.{Dma, bitmap_probar_bit, bitmap_marcar_bit, bitmap_limpiar_bit}

-- The arrays have their declared sizes, and the pages fit them.
pub record IsSized (d : Dma) : Type 0 where
  pub bitmap_len : length d.bitmap ≡ 128
  pub tamanos_len : length d.tamano_asignacion ≡ 8192
  pub total_le : d.total_paginas ≤ 8192

test_bit : (w k : ℕ) → not (bit_and w (2 ^ k) == 0) ≡ (bit w k == 1)
test_bit w k = grind (arith, bit_and-pow w k, bit-le_one w k, one-le-pow k 2)

test_or : (w k j : ℕ) → (bit (bit_or w (2 ^ k)) j == 1) ≡ (if k == j then true else bit w j == 1)
test_or w k j = ground (arith, bit-bit_or w (2 ^ k) j, bit-pow k j, bit-le_one w j)

test_and_not :
    (w k j : ℕ)
    → k < 64
    → j < 64
    → (bit (bit_and w (2 ^ 64 - 1 - 2 ^ k)) j == 1) ≡ (if k == j then false else bit w j == 1)
test_and_not w k j hk hj =
    ground (arith, bit-bit_and w (2 ^ 64 - 1 - 2 ^ k) j, bit-not_pow 64 k j hk hj, bit-le_one w j)

probar-bit :
    (d : Dma) (b : ℕ)
    → bitmap_probar_bit d b
      ≡ (leb d.total_paginas b || bit (get_or d.bitmap (b / 64) 0) (b % 64) == 1)
unfolding bitmap_probar_bit
probar-bit d b = ground (arith, test_bit (get_or d.bitmap (b / 64) 0) (b % 64))

-- Both operations write one word: `f` is the new value of the word of page `i`.
abbrev con_palabra : Dma → ℕ → ℕ → Dma
con_palabra d i w = record d { bitmap = set d.bitmap (i / 64) w }

probar-con_palabra :
    (d : Dma) (i j w : ℕ)
    → IsSized d
    → i < d.total_paginas
    → bitmap_probar_bit (con_palabra d i w) j ≡ (
        if i / 64 == j / 64
        then leb d.total_paginas j || bit w (j % 64) == 1
        else bitmap_probar_bit d j)
probar-con_palabra d i j w v h = ground (
  arith,
  probar-bit (con_palabra d i w) j,
  probar-bit d j,
  get_or-set d.bitmap (i / 64) (j / 64) w 0 (omega arith),
)

same_page : (i j : ℕ) → (i == j) ≡ (i / 64 == j / 64 && i % 64 == j % 64)
same_page i j = ground arith

-- Marking a page sets its test and no other.
pub probar-marcar :
    (d : Dma) (i j : ℕ)
    → IsSized d
    → bitmap_probar_bit (bitmap_marcar_bit d i) j ≡ (if i == j then true else bitmap_probar_bit d j)
unfolding bitmap_marcar_bit
probar-marcar d i j v = elim (Bool-cases (leb d.total_paginas i)) [
  | inl out ↦ ground (arith, probar-bit d j)
  | inr inside ↦
      let w = bit_or (get_or d.bitmap (i / 64) 0) (2 ^ (i % 64)) in
      ground (
        arith,
        probar-con_palabra d i j w v,
        same_page i j,
        test_or (get_or d.bitmap (i / 64) 0) (i % 64) (j % 64),
        probar-bit d j,
        ap (λ x. get_or d.bitmap x 0) {x = i / 64} {y = j / 64},
      )
]

-- Clearing a page of the arena clears its test and no other.
pub probar-limpiar :
    (d : Dma) (i j : ℕ)
    → IsSized d
    → i < d.total_paginas
    → bitmap_probar_bit (bitmap_limpiar_bit d i) j
      ≡ (if i == j then false else bitmap_probar_bit d j)
unfolding bitmap_limpiar_bit
probar-limpiar d i j v h = ground (
  arith,
  probar-con_palabra d i j (bit_and (get_or d.bitmap (i / 64) 0) (2 ^ 64 - 1 - 2 ^ (i % 64))) v h,
  same_page i j,
  test_and_not (get_or d.bitmap (i / 64) 0) (i % 64) (j % 64) (omega arith) (omega arith),
  probar-bit d j,
)
