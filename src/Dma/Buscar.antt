-- ===== src/Dma/Buscar.antt =====
-- The search of nucleo/base/dma.c for a run of pages: it finds the first one, and finds one if any is.
use taek_os.Prelude.{
  ℕ, zero, suc, ◌+◌, ◌≤◌, ◌<◌, true, false, ◌≡◌, none, some, arith, leb, ap, Bool-cases, inl, inr,
}
use taek_os.Dma.Defs.{Dma, candidato, buscar}

-- The page found is the first candidate from `i` on, and its run fits the arena.
pub record Primero (d : Dma) (alineacion pags i r : ℕ) : Type 0 where
  pub desde : i ≤ r
  pub cabe : r + pags ≤ d.total_paginas
  pub valido : candidato d alineacion pags r ≡ true
  pub anteriores : (k : ℕ) → i ≤ k → k < r → candidato d alineacion pags k ≡ false

buscar_step :
    (n : ℕ) (d : Dma) (alineacion pags i r : ℕ)
    → candidato d alineacion pags i ≡ false
    → Primero d alineacion pags (i + 1) r
    → Primero d alineacion pags i r
buscar_step n d al p i r h f = record {
  desde = omega (arith, f.desde);
  cabe = f.cabe;
  valido = f.valido;
  anteriores = λ k a b. ground (arith, f.anteriores k, ap (candidato d al p) {x = i} {y = k});
}

pub buscar-Primero :
    (n : ℕ) (d : Dma) (alineacion pags i : ℕ) {r : ℕ}
    → buscar n d alineacion pags i ≡ some r
    → Primero d alineacion pags i r
unfolding buscar
buscar-Primero zero d al p i h = cc
buscar-Primero (suc n) d al p i {r} h = elim (Bool-cases (leb (i + p) d.total_paginas)) [
  | inr out ↦ cc (rw out at h)
  | inl fits ↦ elim (Bool-cases (candidato d al p i)) [
    | inl good ↦
        let e : i ≡ r = ground arith in
        record {
          desde = omega arith;
          cabe = ground arith;
          valido = ground (arith, ap (candidato d al p) e);
          anteriores = λ k a b. absurd (omega arith);
        }
    | inr bad ↦ buscar_step n d al p i r bad (buscar-Primero n d al p (i + 1) (ground arith))
  ]
]

-- With fuel past the last page, no result means that no run fits anywhere.
pub buscar-none :
    (n : ℕ) (d : Dma) (alineacion pags i k : ℕ)
    → buscar n d alineacion pags i ≡ none
    → d.total_paginas < i + n
    → i ≤ k
    → k + pags ≤ d.total_paginas
    → candidato d alineacion pags k ≡ false
unfolding buscar
buscar-none zero d al p i k h f a b = absurd (omega arith)
buscar-none (suc n) d al p i k h f a b =
    ground (arith, buscar-none n d al p (i + 1) k, ap (candidato d al p) {x = i} {y = k})
