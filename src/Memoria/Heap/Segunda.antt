-- ===== src/Memoria/Heap/Segunda.antt =====
-- The header of a block that liberar_memoria of nucleo/base/memoria.c has released stays marked free, also where a
-- merge took it in.
use taek_os.Prelude.{
  ℕ, ◌≡◌, refl, sym, subst, ◌∙◌, Bool, true, false, not, ◌&&◌, ◌||◌, List, [], ◌∷◌, ◌++◌, ◌==◌,
  arith, si, Bool-cases, inl, inr,
}
use taek_os.Memoria.Heap.Defs.{BloqueHeap, quebrado_heap, sano, fin_datos}
use taek_os.Memoria.Heap.Fusion.{
  fusionar, absorbido, es_cabeza, Devolucion, sin_bloque, rota, doble, devuelto, tras, devolver,
  de_resto,
}

-- The first block is at `p` and free.
abbrev pub CabezaLibre : ℕ → List BloqueHeap → Type 0
CabezaLibre p [] = ⊥
CabezaLibre p (x ∷ l) = (x.dir ≡ p) × (x.esta_libre ≡ true)

fusionar-CabezaLibre :
    (p : ℕ) (c : BloqueHeap) (l : List BloqueHeap)
    → c.dir ≡ p
    → c.esta_libre ≡ true
    → CabezaLibre p (fusionar c l)
unfolding fusionar
fusionar-CabezaLibre p c [] h k = (h, k)
fusionar-CabezaLibre p c (x ∷ l) h k =
    si (CabezaLibre p) (c.esta_libre && x.esta_libre && fin_datos c == x.dir) _ _ (λ _. (h, k))
      (λ _. (h, k))

lista-devuelto : {k n : ℕ} {a b c d : List BloqueHeap} → devuelto k a b ≡ devuelto n c d → a ≡ c
lista-devuelto e = cc

restos-devuelto : {k n : ℕ} {a b c d : List BloqueHeap} → devuelto k a b ≡ devuelto n c d → b ≡ d
restos-devuelto e = cc

rota-ne : {A : Type 0} {n : ℕ} {a b : List BloqueHeap} → rota ≡ devuelto n a b → A
rota-ne e = cc

doble-ne : {A : Type 0} {n : ℕ} {a b : List BloqueHeap} → doble ≡ devuelto n a b → A
doble-ne e = cc

sin_bloque-ne : {A : Type 0} {n : ℕ} {a b : List BloqueHeap} → sin_bloque ≡ devuelto n a b → A
sin_bloque-ne e = cc

-- The block released, if it is the first.
devolver-CabezaLibre :
    (p n : ℕ) (x : BloqueHeap) (l l' r : List BloqueHeap)
    → (x.dir == p) ≡ true
    → devolver p (x ∷ l) ≡ devuelto n l' r
    → CabezaLibre p l'
unfolding devolver
devolver-CabezaLibre p n x l l' r h =
    let P : Devolucion → Type 0 = λ y. y ≡ devuelto n l' r → CabezaLibre p l' in
    let c = record x { esta_libre = true } in
    si P (not (x.dir == p)) _ _ (λ e. absurd (ground (arith, e, h)))
      (λ _.
        si P (not (sano x)) _ _ (λ _ e. rota-ne e)
          (λ _.
            si P x.esta_libre _ _ (λ _ e. doble-ne e)
              (λ _ e.
                subst (CabezaLibre p) (lista-devuelto e)
                  (fusionar-CabezaLibre p c l (ground (arith, h)) refl))))

no_sin_bloque : (p : ℕ) (l : List BloqueHeap) → CabezaLibre p l → devolver p l ≡ sin_bloque → ⊥
unfolding devolver
no_sin_bloque p [] h e = h
no_sin_bloque p (x ∷ l) h i =
    let P : Devolucion → Type 0 = λ y. y ≡ sin_bloque → ⊥ in
    si P (not (x.dir == p)) _ _ (λ e. absurd (ground (arith, e, h.0)))
      (λ _.
        si P (not (sano x)) _ _ (λ _ e. rota_sin e)
          (λ _. si P x.esta_libre _ _ (λ _ e. doble_sin e) (λ f. absurd (ground (arith, f, h.1)))))
      i
  where
    rota_sin : rota ≡ sin_bloque → ⊥
    rota_sin e = cc

    doble_sin : doble ≡ sin_bloque → ⊥
    doble_sin e = cc

tras-sin_bloque :
    (b : BloqueHeap) (j : Bool) (x : Devolucion) → tras b j x ≡ sin_bloque → x ≡ sin_bloque
tras-sin_bloque b j sin_bloque e = refl
tras-sin_bloque b j rota e = e
tras-sin_bloque b j doble e = e
tras-sin_bloque b j (devuelto n l r) e = cc

otro-sin_bloque :
    (p : ℕ) (b : BloqueHeap) (l : List BloqueHeap)
    → (b.dir == p) ≡ false
    → devolver p (b ∷ l) ≡ sin_bloque
    → devolver p l ≡ sin_bloque
unfolding devolver
otro-sin_bloque p b l h =
    si (λ y. y ≡ sin_bloque → devolver p l ≡ sin_bloque) (not (b.dir == p)) _ _
      (λ _ e. tras-sin_bloque b (es_cabeza l p) (devolver p l) e)
      (λ f. absurd (ground (arith, f, h)))

-- A header at `p` that is marked free halts the kernel.
de_resto-libre :
    (p : ℕ) (r : BloqueHeap) (l : List BloqueHeap)
    → r.dir ≡ p
    → r.esta_libre ≡ true
    → de_resto p (r ∷ l) ≡ quebrado_heap
de_resto-libre p r l h k =
    si (λ y. y ≡ quebrado_heap) (not (r.dir == p)) _ _ (λ e. absurd (ground (arith, e, h)))
      (λ _.
        si (λ y. y ≡ quebrado_heap) (not (sano r) || r.esta_libre) _ _ (λ _. refl)
          (λ f. absurd (ground (arith, f, k))))

abbrev Quebrara : ℕ → List BloqueHeap → List BloqueHeap → Type 0
Quebrara p l r =
    devolver p l ≡ sin_bloque
    → (viejos : List BloqueHeap) → de_resto p (r ++ viejos) ≡ quebrado_heap

-- After a merge of `b` with the released block, or none.
junto-Quebrara :
    (p : ℕ) (b : BloqueHeap) (l r : List BloqueHeap)
    → (b.dir == p) ≡ false
    → CabezaLibre p l
    → Quebrara p (fusionar b l) (absorbido b l ++ r)
unfolding fusionar absorbido
junto-Quebrara p b [] r h k = absurd k
junto-Quebrara p b (x ∷ l) r h k =
    elim (Bool-cases (b.esta_libre && x.esta_libre && fin_datos b == x.dir)) [
      | inl y ↦ rw y (λ e viejos. de_resto-libre p x (r ++ viejos) k.0 k.1)
      | inr n ↦
          rw n (λ e viejos. absurd (no_sin_bloque p (x ∷ l) k (otro-sin_bloque p b (x ∷ l) h e)))
    ]

Quebrara-tras :
    (p n : ℕ) (b : BloqueHeap) (j : Bool) (x : Devolucion) (l' r : List BloqueHeap)
    → (b.dir == p) ≡ false
    → ((k : ℕ) (m q : List BloqueHeap) → x ≡ devuelto k m q → Quebrara p m q)
    → (j ≡ true → (k : ℕ) (m q : List BloqueHeap) → x ≡ devuelto k m q → CabezaLibre p m)
    → tras b j x ≡ devuelto n l' r
    → Quebrara p l' r
Quebrara-tras p n b j sin_bloque l' r h f g e = sin_bloque-ne e
Quebrara-tras p n b j rota l' r h f g e = rota-ne e
Quebrara-tras p n b j doble l' r h f g e = doble-ne e
Quebrara-tras p n b true (devuelto k m q) l' r h f g e =
    subst (λ y. Quebrara p y r) (lista-devuelto e)
      (subst (Quebrara p (fusionar b m)) (restos-devuelto e)
        (junto-Quebrara p b m q h (g refl k m q refl)))
Quebrara-tras p n b false (devuelto k m q) l' r h f g e =
    subst (λ y. Quebrara p y r) (lista-devuelto e)
      (subst (Quebrara p (b ∷ m)) (restos-devuelto e)
        (λ i. f k m q refl (otro-sin_bloque p b m h i)))

cabeza-CabezaLibre :
    (p : ℕ) (l : List BloqueHeap)
    → es_cabeza l p ≡ true
    → (k : ℕ) (m q : List BloqueHeap) → devolver p l ≡ devuelto k m q
    → CabezaLibre p m
cabeza-CabezaLibre p [] h k m q e = cc
cabeza-CabezaLibre p (x ∷ l) h k m q e = devolver-CabezaLibre p k x l m q h e

-- After a release at `p`, either a block stands there or a header that halts the kernel.
pub devolver-Quebrara :
    (p n : ℕ) (l l' r : List BloqueHeap) → devolver p l ≡ devuelto n l' r → Quebrara p l' r
unfolding devolver
devolver-Quebrara p n [] l' r e = sin_bloque-ne e
devolver-Quebrara p n (b ∷ l) l' r e = elim (Bool-cases (b.dir == p)) [
  | inl y ↦ λ i. absurd (no_sin_bloque p l' (devolver-CabezaLibre p n b l l' r y e) i)
  | inr m ↦
      Quebrara-tras p n b (es_cabeza l p) (devolver p l) l' r m
        (λ k x q f. devolver-Quebrara p k l x q f) (cabeza-CabezaLibre p l) (sym (otro p b l m) ∙ e)
]
  where
    otro :
        (p : ℕ) (b : BloqueHeap) (l : List BloqueHeap)
        → (b.dir == p) ≡ false
        → devolver p (b ∷ l) ≡ tras b (es_cabeza l p) (devolver p l)
    otro p b l m = rw m refl
