-- ===== src/Memoria/Heap/Suelta.antt =====
-- What a release of nucleo/base/memoria.c does to the list of blocks.
use native.Mathlib.Decide.{ℕ_discrete}
use taek_os.Prelude.{
  ℕ, ◌+◌, ◌%◌, ◌^◌, ◌≤◌, ◌<◌, ◌≡◌, ap, subst, Bool, true, false, not, ◌&&◌, List, [], ◌∷◌, ◌++◌,
  ◌==◌, if◌then◌else◌, arith, si, ==-false_of_ne,
}
use taek_os.Memoria.Heap.Defs.{BloqueHeap, sano, fin_datos}
use taek_os.Memoria.Heap.Fusion.{
  fusionar, absorbido, es_cabeza, Devolucion, sin_bloque, rota, doble, devuelto, tras, devolver,
  memoria_verificar_integridad,
}
use taek_os.Memoria.Heap.Inv.{en, todo, uso, activos, ocupada, suma, Cabe, Toma, fusionar-Igual}

fusionar-sanos :
    (b : BloqueHeap) (l : List BloqueHeap)
    → memoria_verificar_integridad (b ∷ l) ≡ true
    → memoria_verificar_integridad (fusionar b l) ≡ true
unfolding memoria_verificar_integridad fusionar
fusionar-sanos b [] h = h
fusionar-sanos b (c ∷ l) h = ground (arith, h)

fusionar-Cabe : (b : BloqueHeap) (l : List BloqueHeap) → Cabe (b ∷ l) → Cabe (fusionar b l)
unfolding fusionar
fusionar-Cabe b [] h = h
fusionar-Cabe b (c ∷ l) h =
    let junto = b.esta_libre && c.esta_libre && fin_datos b == c.dir in
    si Cabe junto (record b { tamano_datos = (b.tamano_datos + 48 + c.tamano_datos) % 2 ^ 64 } ∷ l)
      (b ∷ c ∷ l) (λ e. (ground (arith, h.0, h.1.0, e), h.1.1)) (λ _. h)

-- A release that succeeds takes the block at `p` out of those in use, and shares out the same bytes.
abbrev pub Suelta : ℕ → List BloqueHeap → Devolucion → Type 0
Suelta p l (devuelto n l' r) = Toma p n l' l × (memoria_verificar_integridad l' ≡ true) × Cabe l'
Suelta p l rota = memoria_verificar_integridad l ≡ false
Suelta p l r = Unit {0}

tras-Suelta :
    (p : ℕ) (b : BloqueHeap) (l : List BloqueHeap) (junto : Bool) (r : Devolucion)
    → sano b ≡ true
    → b.dir + 48 + b.tamano_datos < 2 ^ 64
    → Suelta p l r
    → Suelta p (b ∷ l) (tras b junto r)
unfolding memoria_verificar_integridad
tras-Suelta p b l junto sin_bloque s c h = tt
tras-Suelta p b l junto rota s c h = rw s h
tras-Suelta p b l junto doble s c h = tt
tras-Suelta p b l true (devuelto n l' r) s c h = (
  λ m. omega (arith, h.0 m, fusionar-Igual b l' (c, h.2) m),
  fusionar-sanos b l' (rw s h.1),
  fusionar-Cabe b l' (c, h.2),
)
tras-Suelta p b l false (devuelto n l' r) s c h = (λ m. omega (arith, h.0 m), rw s h.1, (c, h.2))

liberado-Toma :
    (b : BloqueHeap) (l : List BloqueHeap)
    → b.esta_libre ≡ false
    → Toma b.dir b.tamano_datos (record b { esta_libre = true } ∷ l) (b ∷ l)
liberado-Toma b l e (en x) = omega arith
liberado-Toma b l e todo = omega arith
liberado-Toma b l e uso = ground (arith, e)
liberado-Toma b l e activos = ground (arith, e)
liberado-Toma b l e (ocupada d n) = ground (arith, e)

pub devolver-Suelta :
    (p : ℕ) (l : List BloqueHeap)
    → memoria_verificar_integridad l ≡ true
    → Cabe l
    → Suelta p l (devolver p l)
unfolding devolver memoria_verificar_integridad
devolver-Suelta p [] s h = tt
devolver-Suelta p (b ∷ l) s h =
    let P = Suelta p (b ∷ l) in
    let sb : sano b ≡ true = ground (arith, s) in
    let sl : memoria_verificar_integridad l ≡ true = ground (arith, s) in
    let resto = tras b (es_cabeza l p) (devolver p l) in
    let libre = record b { esta_libre = true } in
    let suelto = devuelto b.tamano_datos (fusionar libre l) (absorbido libre l) in
    let ocupado = if b.esta_libre then doble else suelto in
    si P (not (b.dir == p)) resto (if not (sano b) then rota else ocupado)
      (λ _. tras-Suelta p b l (es_cabeza l p) (devolver p l) sb h.0 (devolver-Suelta p l sl h.1))
      (λ e.
        si P (not (sano b)) rota ocupado (λ f. ground (arith, f, sb))
          (λ _.
            si P b.esta_libre doble suelto (λ _. tt)
              (λ f.
                let mismo : b.dir ≡ p = ground (arith, e) in
                subst (λ (q : ℕ). Suelta q (b ∷ l) suelto) mismo
                  (
                    λ m. omega (arith, liberado-Toma b l f m, fusionar-Igual libre l h m),
                    fusionar-sanos libre l (rw sb sl),
                    fusionar-Cabe libre l h,
                  ))))

pub ocupada-le-en : (p n : ℕ) (l : List BloqueHeap) → suma (ocupada p n) l ≤ suma (en p) l
ocupada-le-en p n [] = omega arith
ocupada-le-en p n (b ∷ l) = ground (arith, ocupada-le-en p n l)

encontrado :
    (p n : ℕ) (b : BloqueHeap) (l : List BloqueHeap)
    → (b.dir == p) ≡ true
    → sano b ≡ true
    → b.esta_libre ≡ false
    → b.tamano_datos ≡ n
    → let c = record b { esta_libre = true } in
      devolver p (b ∷ l) ≡ devuelto n (fusionar c l) (absorbido c l)
unfolding devolver
encontrado p n b l d s f t =
    let c = record b { esta_libre = true } in
    rw d (rw s (rw f (ap (λ (k : ℕ). devuelto k (fusionar c l) (absorbido c l)) t)))

mas_alla :
    (p n : ℕ) (b : BloqueHeap) (l l' r : List BloqueHeap)
    → (b.dir == p) ≡ false
    → devolver p l ≡ devuelto n l' r
    → devolver p (b ∷ l)
      ≡ devuelto n
          (if es_cabeza l p then fusionar b l' else b ∷ l')
          (if es_cabeza l p then absorbido b l' ++ r else r)
unfolding devolver
mas_alla p n b l l' r d q = rw d (ap (tras b (es_cabeza l p)) q)

-- A block in use at `p` is the one that the release finds, if it is the only block there.
pub devolver_hallado :
    (p n : ℕ) (l : List BloqueHeap)
    → memoria_verificar_integridad l ≡ true
    → 1 ≤ suma (ocupada p n) l
    → suma (en p) l ≤ 1
    → (l' : List BloqueHeap) × (r : List BloqueHeap) × (devolver p l ≡ devuelto n l' r)
unfolding memoria_verificar_integridad
devolver_hallado p n [] s h k = absurd (omega (arith, h))
devolver_hallado p n (b ∷ l) s h k = elim (ℕ_discrete b.dir p) [
  | yes e ↦
      let nadie : suma (ocupada p n) l ≡ 0 = ground (arith, k, e, ocupada-le-en p n l) in
      (
        fusionar (record b { esta_libre = true }) l,
        absorbido (record b { esta_libre = true }) l,
        encontrado p n b l (ground (arith, e)) (ground (arith, s)) (ground (arith, h, nadie))
            (ground (arith, h, nadie)),
      )
  | no m ↦
      let r =
        devolver_hallado p n l (ground (arith, s)) (ground (arith, h, m)) (ground (arith, k)) in
      (
        if es_cabeza l p then fusionar b r.0 else b ∷ r.0,
        if es_cabeza l p then absorbido b r.0 ++ r.1 else r.1,
        mas_alla p n b l r.0 r.1 (==-false_of_ne b.dir p m) r.2,
      )
]

pub ocupada-Cabe :
    (p n : ℕ) (l : List BloqueHeap) → Cabe l → 1 ≤ suma (ocupada p n) l → p + 48 + n < 2 ^ 64
ocupada-Cabe p n [] c h = absurd (omega (arith, h))
ocupada-Cabe p n (b ∷ l) c h = ground (arith, h, c.0, ocupada-Cabe p n l c.1)
