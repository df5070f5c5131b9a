-- ===== src/Fuentes/Cadena.antt =====
-- The window of anillo_almacenamiento.c: its slots hold parts of the file, each right behind the one before.
use taek_os.Prelude.{
  ℕ, zero, suc, ◌+◌, ◌%◌, ◌≤◌, ◌<◌, false, Option, none, some, List, ◌≡◌, ◌≢◌, ◌⊎◌, inl, inr, sym,
  ap, ◌∙◌, subst, si, get_or, set, get_or-set_ne, get_or-set_self, length, ==_iff, ◌==◌, arith,
  Bool-cases,
}
use native.Mathlib.Decide.{dec_lt}
use taek_os.Fuentes.Fiel.{tramo}
use taek_os.Fuentes.Anillo.{Bloque, bloque_cero, es_vacio, tiene, buscar_lugar}

abbrev pub Lleno : (ℕ → ℕ) → Bloque → Type 0
Lleno archivo b =
    (es_vacio b.estado ≡ false)
    × (0 < b.bytes)
    × (b.bytes ≤ 131072)
    × (b.datos ≡ tramo archivo b.offset b.bytes)

abbrev pub lugar : List Bloque → ℕ → ℕ → Bloque
lugar l cabeza i = get_or l ((cabeza + i) % 8) bloque_cero

-- The `k` slots from place `i` on hold the file from `ini` to `fin`.
abbrev pub Cadena : (ℕ → ℕ) → List Bloque → ℕ → ℕ → ℕ → ℕ → ℕ → Type 0
Cadena archivo l cabeza zero i ini fin = ini ≡ fin
Cadena archivo l cabeza (suc k) i ini fin =
    Lleno archivo (lugar l cabeza i)
    × ((lugar l cabeza i).offset ≡ ini)
    × Cadena archivo l cabeza k (i + 1) (ini + (lugar l cabeza i).bytes) fin

module _ (archivo : ℕ → ℕ) where
  pub Cadena-le : (l : List Bloque) (c k i ini fin : ℕ) → Cadena archivo l c k i ini fin → ini ≤ fin
  Cadena-le l c zero i ini fin h = omega (arith, h)
  Cadena-le l c (suc k) i ini fin h = omega (arith, Cadena-le l c k (i + 1) _ fin h.2)

  -- A slot of `m` has what that of `l` has.
  abbrev pub Igual : List Bloque → List Bloque → ℕ → Type 0
  Igual l m j =
      Lleno archivo (get_or l j bloque_cero)
      → Lleno archivo (get_or m j bloque_cero)
        × ((get_or m j bloque_cero).offset ≡ (get_or l j bloque_cero).offset)
        × ((get_or m j bloque_cero).bytes ≡ (get_or l j bloque_cero).bytes)

  pub Cadena-Igual :
      (l m : List Bloque) (c k i ini fin : ℕ)
      → ((j : ℕ) → i ≤ j → j < i + k → Igual l m ((c + j) % 8))
      → Cadena archivo l c k i ini fin
      → Cadena archivo m c k i ini fin
  Cadena-Igual l m c zero i ini fin q h = h
  Cadena-Igual l m c (suc k) i ini fin q h =
      let e = q i (omega arith) (omega arith) h.0 in
      (
        e.0,
        e.1 ∙ h.1,
        subst (λ n. Cadena archivo m c k (i + 1) (ini + n) fin) (sym e.2)
            (Cadena-Igual l m c k (i + 1) _ fin (λ j a b. q j (omega (arith, a)) (omega (arith, b)))
              h.2),
      )

  -- A write outside the window.
  pub Igual-set_ne : (l : List Bloque) (s j : ℕ) (v : Bloque) → s ≢ j → Igual l (set l s v) j
  Igual-set_ne l s j v h b =
      let e = sym (get_or-set_ne l s j v bloque_cero h) in
      (subst (Lleno archivo) e b, ap (λ x. x.offset) (sym e), ap (λ x. x.bytes) (sym e))

  -- A write of marks in the window.
  pub Igual-set :
      (l : List Bloque) (s j : ℕ) (v : Bloque)
      → s < length l
      → (Lleno archivo (get_or l s bloque_cero) → Lleno archivo v)
      → v.offset ≡ (get_or l s bloque_cero).offset
      → v.bytes ≡ (get_or l s bloque_cero).bytes
      → Igual l (set l s v) j
  Igual-set l s j v h q o n = elim (Bool-cases (s == j)) [
    | inl e ↦ subst (Igual l (set l s v)) ((==_iff s j).0 e) (λ b.
        let x = sym (get_or-set_self l s v bloque_cero h) in
        (
          subst (Lleno archivo) x (q b),
          ap (λ y. y.offset) (sym x) ∙ o,
          ap (λ y. y.bytes) (sym x) ∙ n,
        ))
    | inr e ↦ Igual-set_ne l s j v (λ z. absurd (ground (arith, e, z)))
  ]

  -- The slot `b` behind the window joins it.
  pub Cadena-snoc :
      (l : List Bloque) (c k i j ini medio : ℕ) (b : Bloque)
      → Cadena archivo l c k i ini medio
      → j ≡ i + k
      → lugar l c j ≡ b
      → Lleno archivo b
      → b.offset ≡ medio
      → Cadena archivo l c (suc k) i ini (medio + b.bytes)
  Cadena-snoc l c zero i j ini medio b h n e f o =
      let x : lugar l c i ≡ b = ap (lugar l c) (omega (arith, n)) ∙ e in
      (
        subst (Lleno archivo) (sym x) f,
        ap (λ y. y.offset) x ∙ (o ∙ sym h),
        suma ini medio (lugar l c i).bytes b.bytes h (ap (λ y. y.bytes) x),
      )
    where
      suma : (x y z w : ℕ) → x ≡ y → z ≡ w → x + z ≡ y + w
      suma x y z w h k = omega (arith, h, k)
  Cadena-snoc l c (suc k) i j ini medio b h n e f o = (
    h.0,
    h.1,
    Cadena-snoc l c k (i + 1) j (ini + (lugar l c i).bytes) medio b h.2 (omega (arith, n)) e f o,
  )

  -- From the next head on, the places count one less.
  pub Cadena-corrida :
      (l : List Bloque) (c k i ini fin : ℕ)
      → Cadena archivo l c k (i + 1) ini fin
      → Cadena archivo l ((c + 1) % 8) k i ini fin
  Cadena-corrida l c zero i ini fin h = h
  Cadena-corrida l c (suc k) i ini fin h =
      subst
        (λ (b : Bloque).
          Lleno archivo b
          × (b.offset ≡ ini)
          × Cadena archivo l ((c + 1) % 8) k (i + 1) (ini + b.bytes) fin)
        (ap (λ j. get_or l j bloque_cero) (omega arith))
        (h.0, h.1, Cadena-corrida l c k (i + 1) (ini + (lugar l c (i + 1)).bytes) fin h.2)

  -- Where the search ends: at a slot with the byte, or nowhere, when it is not in the window.
  abbrev pub Sitio : List Bloque → ℕ → ℕ → ℕ → Option ℕ → Type 0
  Sitio l ini fin pos none = (pos < ini) ⊎ (fin ≤ pos)
  Sitio l ini fin pos (some s) =
      Lleno archivo (get_or l s bloque_cero)
      × ((get_or l s bloque_cero).offset ≤ pos)
      × (pos < (get_or l s bloque_cero).offset + (get_or l s bloque_cero).bytes)
      × (s < 8)
      × (ini ≤ pos)
      × (pos < fin)

  atras :
      (l : List Bloque) (medio fin ini pos : ℕ) (x : Option ℕ)
      → ini ≤ medio
      → (pos < medio → pos < ini)
      → Sitio l medio fin pos x
      → Sitio l ini fin pos x
  atras l medio fin ini pos none h q (inl g) = inl (q g)
  atras l medio fin ini pos none h q (inr g) = inr g
  atras l medio fin ini pos (some s) h q g = (g.0, g.1, g.2, g.3, omega (arith, h, g.4), g.5)

  pub buscar_lugar-Sitio :
      (l : List Bloque) (c k i ini fin pos : ℕ)
      → Cadena archivo l c k i ini fin
      → Sitio l ini fin pos (buscar_lugar l c k i pos)
  unfolding buscar_lugar
  buscar_lugar-Sitio l c zero i ini fin pos h = elim (dec_lt pos ini) [
    | yes p ↦ inl p
    | no p ↦ inr (omega (arith, h, p))
  ]
  buscar_lugar-Sitio l c (suc k) i ini fin pos h =
      let b = lugar l c i in
      si (Sitio l ini fin pos) (tiene b pos) _ _
        (λ e. (
          h.0,
          ground (arith, e),
          ground (arith, e),
          omega arith,
          ground (arith, e, h.1),
          ground (arith, e, h.1, Cadena-le l c k (i + 1) _ fin h.2),
        ))
        (λ e.
          atras l (ini + b.bytes) fin ini pos _ (omega arith)
            (λ g. ground (arith, e, h.0.0, h.1, g))
            (buscar_lugar-Sitio l c k (i + 1) _ fin pos h.2))
