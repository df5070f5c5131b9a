-- ===== src/Memoria/Heap/Asignar.antt =====
-- What asignar_memoria of nucleo/base/memoria.c returns, and that it returns.
use taek_os.Prelude.{
  ℕ, suc, ◌+◌, ◌%◌, ◌^◌, ◌≤◌, ◌<◌, ◌≡◌, ◌≢◌, ◌⊎◌, refl, ap, true, List, [], ◌∷◌, arith, inl, inr,
  ==-false_of_ne,
}
use taek_os.Memoria.Heap.Defs.{
  BloqueHeap, Heap, Memoria, puntero, recorrer, Hallazgo, roto, ninguno, hallado, reservado,
  redondear, segun_hallazgo, expandir, asignar_redondeado, asignar_memoria,
}
use taek_os.Memoria.Heap.Fusion.{memoria_verificar_integridad}
use taek_os.Memoria.Heap.Inv.{en, todo, uso, activos, suma, Cabe, IsHeap, Toma}
use taek_os.Memoria.Heap.Reservar.{Ninguno, Justo, recorrer-Justo}

pub uso-le-todo : (l : List BloqueHeap) → suma uso l ≤ suma todo l
uso-le-todo [] = omega arith
uso-le-todo (b ∷ l) = ground (arith, uso-le-todo l)

pub activos-le-todo : (l : List BloqueHeap) → suma activos l ≤ suma todo l
activos-le-todo [] = omega arith
activos-le-todo (b ∷ l) = ground (arith, activos-le-todo l)

reservado-IsHeap :
    (h : Heap) (dir n : ℕ) (l : List BloqueHeap)
    → IsHeap h
    → Toma dir n h.bloques l
    → memoria_verificar_integridad l ≡ true
    → Cabe l
    → IsHeap (reservado h dir n l)
reservado-IsHeap h dir n l v t s c = record {
  sanos = s;
  separados = λ x. omega (arith, t (en x), v.separados x);
  caben = c;
  total_bien = omega (arith, t todo, v.total_bien);
  total_cabe = v.total_cabe;
  uso_bien = omega (arith, t uso, v.uso_bien, uso-le-todo l, t todo, v.total_bien, v.total_cabe);
  activos_bien =
      omega
        (arith, t activos, v.activos_bien, activos-le-todo l, t todo, v.total_bien, v.total_cabe);
}

-- The pointer returned is the data of a block that was free, of the size asked for at least, and nothing else changed.
pub record Asignado (bytes hhdm : ℕ) (m : Memoria) : Type 0 where
  pub dir : ℕ
  pub tamano : ℕ
  pub despues : Memoria
  pub resultado : asignar_memoria true hhdm bytes m ≡ (puntero ((dir + 48) % 2 ^ 64), despues)
  pub basta : bytes ≤ tamano
  pub tomado : Toma dir tamano m.heap.bloques despues.heap.bloques
  pub valido : IsHeap despues.heap
  pub mismos_marcos : despues.pmm ≡ m.pmm

redondear-le :
    (bytes : ℕ) → bytes + 96 < 2 ^ 64 → (bytes ≤ redondear bytes) × (redondear bytes + 80 < 2 ^ 64)
unfolding redondear
redondear-le bytes h = ground (arith, h)

redondeado_hallado :
    (f bytes hhdm : ℕ) (m : Memoria) (dir n : ℕ) (l : List BloqueHeap)
    → recorrer bytes m.heap.bloques ≡ hallado dir n l
    → asignar_redondeado (suc f) hhdm bytes m
      ≡ (puntero ((dir + 48) % 2 ^ 64), record m { heap = reservado m.heap dir n l })
unfolding asignar_redondeado
redondeado_hallado f bytes hhdm m dir n l e =
    let x = expandir 128 hhdm bytes m in
    ap (segun_hallazgo m x (asignar_redondeado f hhdm (redondear bytes) x.1)) e

asignar_lem :
    (bytes hhdm : ℕ) (m : Memoria) (dir n : ℕ) (l : List BloqueHeap)
    → bytes ≢ 0
    → recorrer (redondear bytes) m.heap.bloques ≡ hallado dir n l
    → asignar_memoria true hhdm bytes m
      ≡ (puntero ((dir + 48) % 2 ^ 64), record m { heap = reservado m.heap dir n l })
unfolding asignar_memoria
asignar_lem bytes hhdm m dir n l z e =
    rw (==-false_of_ne bytes 0 z) (redondeado_hallado 1 (redondear bytes) hhdm m dir n l e)

asignar_segun :
    (bytes hhdm : ℕ) (m : Memoria) (r : Hallazgo)
    → IsHeap m.heap
    → bytes ≢ 0
    → bytes + 96 < 2 ^ 64
    → recorrer (redondear bytes) m.heap.bloques ≡ r
    → Justo (redondear bytes) m.heap.bloques r
    → Asignado bytes hhdm m ⊎ Ninguno (redondear bytes) m.heap.bloques
asignar_segun bytes hhdm m roto v z t e j = ground (arith, j, v.sanos)
asignar_segun bytes hhdm m ninguno v z t e j = inr j
asignar_segun bytes hhdm m (hallado dir n l) v z t e j = inl (record {
  dir = dir;
  tamano = n;
  despues = record m { heap = reservado m.heap dir n l };
  resultado = asignar_lem bytes hhdm m dir n l z e;
  basta = omega (arith, j.3, (redondear-le bytes t).0);
  tomado = j.0;
  valido = reservado-IsHeap m.heap dir n l v j.0 j.1 j.2;
  mismos_marcos = refl;
})

-- On a valid heap, a request by the coordinating processor, of at least one byte and fewer than 2^64 - 96, either
-- takes a free block that is large enough, and the heap stays valid, or every free block is too small for the request
-- rounded up.
pub asignar_memoria-Asignado :
    (bytes hhdm : ℕ) (m : Memoria)
    → IsHeap m.heap
    → bytes ≢ 0
    → bytes + 96 < 2 ^ 64
    → Asignado bytes hhdm m ⊎ Ninguno (redondear bytes) m.heap.bloques
asignar_memoria-Asignado bytes hhdm m v z t =
    asignar_segun bytes hhdm m (recorrer (redondear bytes) m.heap.bloques) v z t refl
      (recorrer-Justo (redondear bytes) m.heap.bloques (redondear-le bytes t).1 v.sanos v.caben)
