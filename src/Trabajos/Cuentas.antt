-- ===== src/Trabajos/Cuentas.antt =====
-- How many processors of trabajos.c are in a phase, and how often a list holds a number.
use taek_os.Prelude.{
  ℕ, zero, suc, ◌+◌, ◌≤◌, ◌<◌, ◌≡◌, refl, List, [], ◌∷◌, ◌==◌, if◌then◌else◌, get_or, set,
  replicate, length, arith,
}
use taek_os.Trabajos.Defs.{Fase, fuera, dentro, con, corrido}

unfoldable pub cuantas : ℕ → List ℕ → ℕ
cuantas i [] = 0
cuantas i (j ∷ l) = (if j == i then 1 else 0) + cuantas i l

-- Does the processor hold region `i`, and not yet called?
abbrev pub tiene : ℕ → Fase → ℕ
tiene i (con j) = if j == i then 1 else 0
tiene i f = 0

-- Does it hold any region, called or not?
abbrev pub lleva : Fase → ℕ
lleva (con j) = 1
lleva (corrido j) = 1
lleva f = 0

unfoldable pub suma : (Fase → ℕ) → List Fase → ℕ
suma g [] = 0
suma g (f ∷ fs) = g f + suma g fs

pub suma-set :
    (g : Fase → ℕ) (fs : List Fase) (k : ℕ) (v : Fase)
    → k < length fs
    → suma g (set fs k v) + g (get_or fs k fuera) ≡ suma g fs + g v
unfolding suma
suma-set g [] k v h = absurd (omega arith)
suma-set g (f ∷ fs) zero v h = omega arith
suma-set g (f ∷ fs) (suc k) v h = omega (arith, suma-set g fs k v (omega arith))

tiene-lleva : (i : ℕ) (f : Fase) → tiene i f ≤ lleva f
tiene-lleva i fuera = omega arith
tiene-lleva i dentro = omega arith
tiene-lleva i (con j) = ground arith
tiene-lleva i (corrido j) = omega arith

pub suma_le : (i : ℕ) (fs : List Fase) → suma (tiene i) fs ≤ suma lleva fs
unfolding suma
suma_le i [] = omega arith
suma_le i (f ∷ fs) = omega (arith, tiene-lleva i f, suma_le i fs)

pub suma-replicate : (g : Fase → ℕ) (p : ℕ) → g fuera ≡ 0 → suma g (replicate p fuera) ≡ 0
unfolding suma replicate
suma-replicate g zero h = refl
suma-replicate g (suc p) h = omega (arith, h, suma-replicate g p h)
