-- ===== src/Memoria/Heap/Inv.antt =====
-- The invariant of the kernel heap of nucleo/base/memoria.c. What is counted of a list of blocks is a sum over the
-- blocks: an operation is described by what it does to all these sums.
use taek_os.Prelude.{
  ℕ, ◌+◌, ◌^◌, ◌≤◌, ◌<◌, ◌≡◌, refl, true, ◌&&◌, List, [], ◌∷◌, ◌++◌, ◌==◌, if◌then◌else◌, arith,
}
use taek_os.Prelude.Count.{en_rango}
use taek_os.Memoria.Heap.Defs.{BloqueHeap, Heap, ocupar, tamano_ocupado}
use taek_os.Memoria.Heap.Fusion.{fusionar, memoria_verificar_integridad}

-- Is the address in a block, header included; the bytes of all blocks; those in use; the blocks in use; those of them
-- at an address with a size.
pub data Medida : Type 0 where
  en : ℕ → Medida
  todo uso activos : Medida
  ocupada : ℕ → ℕ → Medida

abbrev pub peso : Medida → BloqueHeap → ℕ
peso (en x) b = if en_rango b.dir (48 + b.tamano_datos) x then 1 else 0
peso todo b = 48 + b.tamano_datos
peso uso b = if b.esta_libre then 0 else b.tamano_datos
peso activos b = if b.esta_libre then 0 else 1
peso (ocupada d n) b =
    if b.esta_libre then 0 else if d == b.dir && n == b.tamano_datos then 1 else 0

abbrev pub suma : Medida → List BloqueHeap → ℕ
suma m [] = 0
suma m (b ∷ l) = peso m b + suma m l

-- No block passes the end of the address space.
abbrev pub Cabe : List BloqueHeap → Type 0
Cabe [] = Unit {0}
Cabe (b ∷ l) = (b.dir + 48 + b.tamano_datos < 2 ^ 64) × Cabe l

pub record IsHeap (h : Heap) : Type 0 where
  pub sanos : memoria_verificar_integridad h.bloques ≡ true
  pub separados : (x : ℕ) → suma (en x) h.bloques ≤ 1
  pub caben : Cabe h.bloques
  pub total_bien : suma todo h.bloques ≡ h.capacidad_total
  pub total_cabe : h.capacidad_total < 2 ^ 64
  pub uso_bien : suma uso h.bloques ≡ h.bytes_en_uso
  pub activos_bien : suma activos h.bloques ≡ h.bloques_activos

-- What one block more in use, at `dir` and of `n` bytes, adds.
abbrev pub aumento : ℕ → ℕ → Medida → ℕ
aumento dir n (en x) = 0
aumento dir n todo = 0
aumento dir n uso = n
aumento dir n activos = 1
aumento dir n (ocupada d k) = if d == dir && k == n then 1 else 0

-- The second list is the first with that block in use besides: the same bytes, shared out anew.
abbrev pub Toma : ℕ → ℕ → List BloqueHeap → List BloqueHeap → Type 0
Toma dir n l l' = (m : Medida) → suma m l' ≡ suma m l + aumento dir n m

-- The second list shares out the bytes of the first, with the same blocks in use.
abbrev pub Igual : List BloqueHeap → List BloqueHeap → Type 0
Igual l l' = (m : Medida) → suma m l' ≡ suma m l

pub Toma-cons :
    (dir n : ℕ) (b : BloqueHeap) (l l' : List BloqueHeap)
    → Toma dir n l l'
    → Toma dir n (b ∷ l) (b ∷ l')
Toma-cons dir n b l l' h m = omega (arith, h m)

pub ocupar-Toma :
    (b : BloqueHeap) (bytes : ℕ) (l : List BloqueHeap)
    → b.esta_libre ≡ true
    → bytes ≤ b.tamano_datos
    → b.dir + 48 + b.tamano_datos < 2 ^ 64
    → bytes + 80 < 2 ^ 64
    → Toma b.dir (tamano_ocupado b bytes) (b ∷ l) (ocupar b bytes ++ l)
unfolding ocupar
ocupar-Toma b bytes l e h k t (en x) = ground (arith, h, k, t)
ocupar-Toma b bytes l e h k t todo = ground (arith, h, k, t)
ocupar-Toma b bytes l e h k t uso = ground (arith, h, k, t, e)
ocupar-Toma b bytes l e h k t activos = ground (arith, h, k, t, e)
ocupar-Toma b bytes l e h k t (ocupada d n) = ground (arith, h, k, t, e)

pub fusionar-Igual :
    (b : BloqueHeap) (l : List BloqueHeap) → Cabe (b ∷ l) → Igual (b ∷ l) (fusionar b l)
unfolding fusionar
fusionar-Igual b [] h m = refl
fusionar-Igual b (c ∷ l) h (en x) = ground (arith, h.0, h.1)
fusionar-Igual b (c ∷ l) h todo = ground (arith, h.0, h.1)
fusionar-Igual b (c ∷ l) h uso = ground (arith, h.0, h.1)
fusionar-Igual b (c ∷ l) h activos = ground (arith, h.0, h.1)
fusionar-Igual b (c ∷ l) h (ocupada d n) = ground (arith, h.0, h.1)
