-- ===== src/Dma/Run.antt =====
-- Sequences of calls of nucleo/base/dma.c.
use taek_os.Prelude.{
  ℕ, ◌+◌, ◌*◌, ◌%◌, ◌/◌, ◌^◌, ◌≤◌, ◌<◌, false, ◌≡◌, ◌≢◌, refl, sym, List, [], ◌∷◌, arith,
  ==-false_of_ne, none, some, Option, length-replicate, get_or-replicate,
}
use taek_os.Prelude.Count.{count_none}
use taek_os.Prelude.Bits.{zero-bit_and}
use taek_os.Dma.Defs.{
  Dma, iniciar, vacia, paginas_de, asignar_iniciado, liberar_bufer_contiguo, bitmap_probar_bit,
}
use taek_os.Dma.Inv.{IsValid}
use taek_os.Dma.Asignar.{asignar-Asignado, asignar_rechazo}
use taek_os.Dma.Liberar.{liberar-IsValid}

-- The arena that the memory manager reserves: at most 32 MiB, on a page boundary, in the address space.
pub record Arena (base tamano : ℕ) : Type 0 where
  pub alineada : base % 4096 ≡ 0
  pub tamano_le : tamano ≤ 33554432
  pub sin_vuelta : base + tamano < 2 ^ 64

vacia_libre :
    (base tamano total j : ℕ) → j < total → bitmap_probar_bit (vacia base tamano total) j ≡ false
unfolding vacia bitmap_probar_bit
vacia_libre base tamano total j p =
    ground (arith, get_or-replicate {A = ℕ} 128 (j / 64) 0, zero-bit_and (2 ^ (j % 64)))

-- A fresh arena has the invariant, with nothing taken.
pub vacia-IsValid :
    (base tamano total : ℕ)
    → Arena base tamano
    → total ≤ 8192
    → total * 4096 ≤ tamano
    → IsValid (vacia base tamano total)
unfolding vacia
vacia-IsValid base tamano total a h k = record {
  sized = record {
    bitmap_len = length-replicate 128 0;
    tamanos_len = length-replicate 8192 0;
    total_le = h;
  };
  base_alineada = a.alineada;
  arena = k;
  tamano_le = a.tamano_le;
  sin_vuelta = a.sin_vuelta;
  ocupadas = sym (count_none _ total (λ j p. vacia_libre base tamano total j p));
  activas = sym (count_none _ total (λ j p. rw (get_or-replicate {A = ℕ} 8192 j 0)));
  dentro = λ i p n. absurd (n (get_or-replicate 8192 i 0));
  marcadas = λ i j p c. absurd (c.viva (get_or-replicate 8192 i 0));
  separadas = λ i j p q n m. absurd (n (get_or-replicate 8192 i 0));
  cubiertas = λ j p m. absurd (ground (arith, vacia_libre base tamano total j p));
}

-- The first initialisation with a well-formed arena, nonempty and not at address 0, establishes the invariant.
pub iniciar-IsValid :
    (d : Dma) (base tamano : ℕ)
    → Arena base tamano
    → base ≢ 0
    → tamano ≢ 0
    → d.iniciado ≡ false
    → IsValid (iniciar d base tamano).1
unfolding iniciar paginas_de
iniciar-IsValid d base tamano a hb ht hi =
    rw (hi, ==-false_of_ne base 0 hb, ==-false_of_ne tamano 0 ht)
      (vacia-IsValid base tamano (paginas_de tamano) a (ground arith) (ground (arith, a.tamano_le)))

resultado-IsValid :
    (d : Dma) (bytes al : ℕ) (r : Option ℕ × Dma)
    → IsValid d
    → asignar_iniciado d false bytes al ≡ r
    → IsValid r.1
resultado-IsValid d bytes al (none, e) v h = rw ((asignar_rechazo d bytes al h).0) v
resultado-IsValid d bytes al (some fis, e) v h = (asignar-Asignado d bytes al v h).valid

-- An allocation keeps the invariant, whether it succeeds or not.
pub asignar-IsValid :
    (d : Dma) (bytes alineacion : ℕ)
    → IsValid d
    → IsValid (asignar_iniciado d false bytes alineacion).1
asignar-IsValid d bytes al v = resultado-IsValid d bytes al _ v refl

pub data Llamada : Type 0 where
  asignar : ℕ → ℕ → Llamada
  liberar : ℕ → ℕ → ℕ → Llamada

-- The state after a sequence of calls, whatever they return.
pub run : ℕ → Dma → List Llamada → Dma
run hhdm d [] = d
run hhdm d (asignar bytes al ∷ ls) = run hhdm (asignar_iniciado d false bytes al).1 ls
run hhdm d (liberar virt fis bytes ∷ ls) =
    run hhdm (liberar_bufer_contiguo d hhdm virt fis bytes).1 ls

-- From a valid arena, any sequence of allocations and releases, accepted or refused, keeps the invariant.
pub run-IsValid : (hhdm : ℕ) (ls : List Llamada) (d : Dma) → IsValid d → IsValid (run hhdm d ls)
unfolding run
run-IsValid hhdm [] d v = v
run-IsValid hhdm (asignar bytes al ∷ ls) d v = run-IsValid hhdm ls _ (asignar-IsValid d bytes al v)
run-IsValid hhdm (liberar virt fis bytes ∷ ls) d v =
    run-IsValid hhdm ls _ (liberar-IsValid d hhdm virt fis bytes v)
