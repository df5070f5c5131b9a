-- ===== src/Memoria/Heap/Reservar.antt =====
-- The search of the kernel heap of nucleo/base/memoria.c: what it finds, and what taking it does.
use taek_os.Prelude.{
  ℕ, ◌+◌, ◌-◌, ◌%◌, ◌^◌, ◌≤◌, ◌<◌, ◌≡◌, Bool, true, false, not, ◌&&◌, List, [], ◌∷◌, ◌++◌, ltb,
  if◌then◌else◌, arith, si,
}
use taek_os.Memoria.Heap.Defs.{
  BloqueHeap, sano, sirve, ocupar, tamano_ocupado, bloque_libre_en, recorrer, Hallazgo, roto,
  ninguno, hallado, anteponer,
}
use taek_os.Memoria.Heap.Fusion.{memoria_verificar_integridad}
use taek_os.Memoria.Heap.Inv.{Cabe, Toma, Toma-cons, ocupar-Toma}

-- No block is free and large enough.
abbrev pub Ninguno : ℕ → List BloqueHeap → Type 0
Ninguno bytes [] = Unit {0}
Ninguno bytes (b ∷ l) = (sirve b bytes ≡ false) × Ninguno bytes l

-- A walk that ends at a block leaves that block in use, of the size asked for at least, and the rest as it was; one
-- that ends at no block shows that there is none.
abbrev pub Justo : ℕ → List BloqueHeap → Hallazgo → Type 0
Justo bytes l roto = memoria_verificar_integridad l ≡ false
Justo bytes l ninguno = Ninguno bytes l
Justo bytes l (hallado dir n l') =
    Toma dir n l l' × (memoria_verificar_integridad l' ≡ true) × Cabe l' × (bytes ≤ n)

and_true : (a b : Bool) → a ≡ true → b ≡ true → (a && b) ≡ true
and_true a b h k = ground (arith, h, k)

anteponer-Justo :
    (bytes : ℕ) (b : BloqueHeap) (l : List BloqueHeap) (r : Hallazgo)
    → sano b ≡ true
    → sirve b bytes ≡ false
    → b.dir + 48 + b.tamano_datos < 2 ^ 64
    → Justo bytes l r
    → Justo bytes (b ∷ l) (anteponer b r)
unfolding memoria_verificar_integridad
anteponer-Justo bytes b l roto s f c h = rw s h
anteponer-Justo bytes b l ninguno s f c h = (f, h)
anteponer-Justo bytes b l (hallado dir n l') s f c h =
    (Toma-cons dir n b l l' h.0, rw s h.1, (c, h.2), h.3)

ocupar-sanos :
    (b : BloqueHeap) (bytes : ℕ) (l : List BloqueHeap)
    → sano b ≡ true
    → memoria_verificar_integridad l ≡ true
    → memoria_verificar_integridad (ocupar b bytes ++ l) ≡ true
unfolding memoria_verificar_integridad ocupar
ocupar-sanos b bytes l s h =
    si (λ (x : List BloqueHeap). memoria_verificar_integridad (x ++ l) ≡ true)
      (ltb b.tamano_datos ((bytes + 48 + 32) % 2 ^ 64)) (record b { esta_libre = false } ∷ [])
      (record b { esta_libre = false; tamano_datos = bytes }
        ∷ bloque_libre_en ((b.dir + 48 + bytes) % 2 ^ 64) (b.tamano_datos - bytes - 48)
        ∷ [])
      (λ _. rw s h) (λ _. rw s h)

ocupar-Cabe :
    (b : BloqueHeap) (bytes : ℕ) (l : List BloqueHeap)
    → bytes + 80 < 2 ^ 64
    → Cabe (b ∷ l)
    → Cabe (ocupar b bytes ++ l)
unfolding ocupar
ocupar-Cabe b bytes l t h =
    si (λ (x : List BloqueHeap). Cabe (x ++ l)) (ltb b.tamano_datos ((bytes + 48 + 32) % 2 ^ 64))
      (record b { esta_libre = false } ∷ [])
      (record b { esta_libre = false; tamano_datos = bytes }
        ∷ bloque_libre_en ((b.dir + 48 + bytes) % 2 ^ 64) (b.tamano_datos - bytes - 48)
        ∷ [])
      (λ _. h) (λ e. (ground (arith, t, h.0, e), (ground (arith, t, h.0, e), h.1)))

pub recorrer-Justo :
    (bytes : ℕ) (l : List BloqueHeap)
    → bytes + 80 < 2 ^ 64
    → memoria_verificar_integridad l ≡ true
    → Cabe l
    → Justo bytes l (recorrer bytes l)
unfolding recorrer memoria_verificar_integridad
recorrer-Justo bytes [] t s h = tt
recorrer-Justo bytes (b ∷ l) t s h =
    let P = Justo bytes (b ∷ l) in
    let sb : sano b ≡ true = ground (arith, s) in
    let sl : memoria_verificar_integridad l ≡ true = ground (arith, s) in
    let resto = anteponer b (recorrer bytes l) in
    let este = hallado b.dir (tamano_ocupado b bytes) (ocupar b bytes ++ l) in
    si P (not (sano b)) roto (if sirve b bytes then este else resto) (λ e. ground (arith, e, sb))
      (λ _.
        si P (sirve b bytes) este resto
          (λ e.
            let libre : b.esta_libre ≡ true = ground (arith, e) in
            let basta : bytes ≤ b.tamano_datos = ground (arith, e) in
            (
              ocupar-Toma b bytes l libre basta h.0 t,
              ocupar-sanos b bytes l sb sl,
              ocupar-Cabe b bytes l t h,
              ground (arith, basta),
            ))
          (λ e.
            anteponer-Justo bytes b l (recorrer bytes l) sb e h.0
              (recorrer-Justo bytes l t sl h.1)))
