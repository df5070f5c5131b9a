-- ===== src/Memoria/Heap/Devolver.antt =====
-- The release of the kernel heap of nucleo/base/memoria.c.
use mathlib.Core.Path.{subst₂}
use native.Mathlib.Decide.{ℕ_discrete}
use taek_os.Prelude.{
  ℕ, ◌+◌, ◌-◌, ◌%◌, ◌^◌, ◌≤◌, ◌<◌, ◌≡◌, ◌≢◌, refl, sym, ap, subst, ◌∙◌, inl, inr, true, false, List,
  [], ◌∷◌, ◌==◌, arith,
}
use taek_os.Memoria.Heap.Defs.{
  BloqueHeap, Heap, Memoria, SalidaHeap, puntero, nulo, quebrado_heap, redondear, asignar_memoria,
}
use taek_os.Memoria.Heap.Fusion.{
  de_resto, Devolucion, sin_bloque, rota, doble, devuelto, devolver, quitado, cerrar,
  liberar_memoria, memoria_verificar_integridad,
}
use taek_os.Memoria.Heap.Inv.{en, todo, uso, activos, ocupada, suma, Cabe, IsHeap, Toma, Igual}
use taek_os.Memoria.Heap.Segunda.{devolver-Quebrara}
use taek_os.Memoria.Heap.Reservar.{Ninguno}
use taek_os.Memoria.Heap.Asignar.{asignar_memoria-Asignado}
use taek_os.Memoria.Heap.Suelta.{
  Suelta, devolver-Suelta, ocupada-le-en, devolver_hallado, ocupada-Cabe,
}

quitado-IsHeap :
    (h : Heap) (dir n : ℕ) (l r : List BloqueHeap)
    → IsHeap h
    → Toma dir n l h.bloques
    → memoria_verificar_integridad l ≡ true
    → Cabe l
    → IsHeap (quitado h n l r)
quitado-IsHeap h dir n l r v t s c = record {
  sanos = s;
  separados = λ x. omega (arith, t (en x), v.separados x);
  caben = c;
  total_bien = omega (arith, t todo, v.total_bien);
  total_cabe = v.total_cabe;
  uso_bien = ground (arith, t uso, v.uso_bien);
  activos_bien = ground (arith, t activos, v.activos_bien);
}

dos-le-en :
    (p n k : ℕ) (l : List BloqueHeap)
    → k ≢ n
    → suma (ocupada p k) l + suma (ocupada p n) l ≤ suma (en p) l
dos-le-en p n k [] m = omega arith
dos-le-en p n k (b ∷ l) m = ground (arith, dos-le-en p n k l m, m)

-- Two blocks in use at one address are one too many.
dos_en :
    (p n k : ℕ) (l l' : List BloqueHeap)
    → Toma p n l' l
    → 1 ≤ suma (ocupada p k) l'
    → suma (en p) l ≤ 1
    → ⊥
dos_en p n k l l' t h e = elim (ℕ_discrete k n) [
  | yes i ↦ ground (arith, t (ocupada p k), h, e, i, ocupada-le-en p k l)
  | no m ↦ ground (arith, t (ocupada p k), t (ocupada p n), h, e, dos-le-en p n k l m)
]

-- No second release of `p` finds a block in use.
abbrev Rechazo : Devolucion → Type 0
Rechazo (devuelto n l r) = ⊥
Rechazo r = Unit {0}

Rechazo-otra :
    (p n : ℕ) (l l' : List BloqueHeap) (r : Devolucion)
    → Toma p n l' l
    → Cabe l
    → suma (en p) l ≤ 1
    → Suelta p l' r
    → Rechazo r
Rechazo-otra p n l l' (devuelto k x y) t c e h =
    dos_en p n k l l' t (ground (arith, h.0 (ocupada p k))) e
Rechazo-otra p n l l' sin_bloque t c e h = tt
Rechazo-otra p n l l' rota t c e h = tt
Rechazo-otra p n l l' doble t c e h = tt

-- So the second release halts the kernel, at the block or at the header that a merge took in.
cerrar-Rechazo :
    (p : ℕ) (h : Heap) (r : Devolucion)
    → Rechazo r
    → (r ≡ sin_bloque → de_resto p h.restos ≡ quebrado_heap)
    → (cerrar p h r).0 ≡ quebrado_heap
cerrar-Rechazo p h sin_bloque e k = k refl
cerrar-Rechazo p h rota e k = refl
cerrar-Rechazo p h doble e k = refl
cerrar-Rechazo p h (devuelto n m r) e k = absurd e

liberar_lem :
    (p : ℕ) (h : Heap)
    → p + 48 < 2 ^ 64
    → liberar_memoria true ((p + 48) % 2 ^ 64) h ≡ cerrar p h (devolver p h.bloques)
unfolding liberar_memoria
liberar_lem p h c =
    let z : ((p + 48) % 2 ^ 64 == 0) ≡ false = ground (arith, c) in
    let e : ((p + 48) % 2 ^ 64 + 2 ^ 64 - 48) % 2 ^ 64 ≡ p = omega (arith, c) in
    rw z (ap (λ (q : ℕ). cerrar q h (devolver q h.bloques)) e)

-- How a release of the block in use at `p`, of `n` bytes, ends.
pub record Liberado (p n : ℕ) (h : Heap) : Type 0 where
  pub despues : Heap
  pub resultado : liberar_memoria true ((p + 48) % 2 ^ 64) h ≡ (nulo, despues)
  pub soltado : Toma p n despues.bloques h.bloques
  pub valido : IsHeap despues
  pub doble_no : (liberar_memoria true ((p + 48) % 2 ^ 64) despues).0 ≡ quebrado_heap

-- On a valid heap, the release of a block in use takes just that block out of those in use and shares out the same
-- bytes, and the heap stays valid; a second release halts the kernel, also when merges took the block in.
pub liberar-Liberado :
    (p n : ℕ) (h : Heap) → IsHeap h → 1 ≤ suma (ocupada p n) h.bloques → Liberado p n h
liberar-Liberado p n h v u =
    let (l, x, e) = devolver_hallado p n h.bloques v.sanos u (v.separados p) in
    let s : Suelta p h.bloques (devuelto n l x) =
      subst (Suelta p h.bloques) e (devolver-Suelta p h.bloques v.sanos v.caben) in
    let cota : p + 48 < 2 ^ 64 = omega (arith, ocupada-Cabe p n h.bloques v.caben u) in
    let d = quitado h n l x in
    let r = devolver p l in
    let otra = devolver-Suelta p l s.1 s.2 in
    record {
      despues = d;
      resultado = liberar_lem p h cota ∙ ap (cerrar p h) e;
      soltado = s.0;
      valido = quitado-IsHeap h p n l x v s.0 s.1 s.2;
      doble_no =
          ap (λ (y : SalidaHeap × Heap). y.0) (liberar_lem p d cota)
          ∙ cerrar-Rechazo p d r (Rechazo-otra p n h.bloques l r s.0 v.caben (v.separados p) otra)
              (λ i. devolver-Quebrara p n h.bloques l x e i h.restos);
    }

-- On a valid heap with a free block that is large enough for a request, of at least one byte and fewer than 2^64 - 96,
-- releasing the pointer that the request returns succeeds and leaves a valid heap that shares out the same bytes as
-- before the request, with the same blocks in use.
pub liberar-asignar_heap :
    (bytes hhdm q : ℕ) (m m' : Memoria)
    → IsHeap m.heap
    → bytes ≢ 0
    → bytes + 96 < 2 ^ 64
    → ¬ Ninguno (redondear bytes) m.heap.bloques
    → asignar_memoria true hhdm bytes m ≡ (puntero q, m')
    → (h : Heap) × (liberar_memoria true q m'.heap ≡ (nulo, h))
      × IsHeap h
      × Igual m.heap.bloques h.bloques
liberar-asignar_heap bytes hhdm q m m' v z t n e =
    elim (asignar_memoria-Asignado bytes hhdm m v z t) [
      | inr k ↦ absurd (n k)
      | inl a ↦
          let dentro : 1 ≤ suma (ocupada a.dir a.tamano) a.despues.heap.bloques =
            ground (arith, a.tomado (ocupada a.dir a.tamano)) in
          let l = liberar-Liberado a.dir a.tamano a.despues.heap a.valido dentro in
          let mismo = sym a.resultado ∙ e in
          (
            l.despues,
            subst₂ (λ x (y : Memoria). liberar_memoria true x y.heap ≡ (nulo, l.despues))
                (puntero_inj (ap (λ (x : SalidaHeap × Memoria). x.0) mismo))
                (ap (λ (x : SalidaHeap × Memoria). x.1) mismo) l.resultado,
            l.valido,
            λ x. omega (arith, a.tomado x, l.soltado x),
          )
    ]
  where
    puntero_inj : {a b : ℕ} → puntero a ≡ puntero b → a ≡ b
    puntero_inj h = cc
