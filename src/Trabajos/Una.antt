-- ===== src/Trabajos/Una.antt =====
-- Each region of a batch of trabajos.c is run once.
use taek_os.Prelude.{
  ℕ, ◌+◌, ◌^◌, ◌≤◌, ◌<◌, min, Bool, true, false, not, ◌||◌, ◌≡◌, ◌∙◌, refl, sym, ap, List, [], ◌∷◌,
  ltb, if◌then◌else◌, get_or, set, length, arith, si,
}
use taek_os.Trabajos.Defs.{
  Lote, trabajos_preparar, empezar, Fase, fuera, dentro, con, corrido, Sistema, pedir, llamar,
  completar, avanzar, trabajos_cancelar, trabajos_terminados, Suceso, de_cpu, cancela, paso, correr,
}
use taek_os.Trabajos.Cuentas.{cuantas, tiene, lleva, suma, suma-set, suma_le, suma-replicate}

-- Region `i`, with the processors in `fases`: once handed out it is held, run or left out, one of these and once; the
-- regions handed out are completed or held; without a cancellation none is left out.
abbrev pub Cuadra : ℕ → Lote → List Fase → Type 0
Cuadra i l fases =
    (suma (tiene i) fases + cuantas i l.corridas + cuantas i l.saltadas
      ≡ (if ltb i (min l.siguiente l.total) then 1 else 0))
    × (l.completados + suma lleva fases ≡ min l.siguiente l.total)
    × (l.cancelado ≡ false → cuantas i l.saltadas ≡ 0)
    × (l.total ≤ 256)

abbrev pub IsCuadrado : ℕ → Sistema → Type 0
IsCuadrado i s = Cuadra i s.lote s.fases

-- A processor in phase `f` goes on to `v`.
abbrev Pasa : ℕ → List Fase → List Fase → Fase → Fase → Type 0
Pasa i fs gs f v =
    (suma (tiene i) gs + tiene i f ≡ suma (tiene i) fs + tiene i v)
    × (suma lleva gs + lleva f ≡ suma lleva fs + lleva v)

set-Pasa :
    (i : ℕ) (fs : List Fase) (k : ℕ) (f v : Fase)
    → k < length fs
    → get_or fs k fuera ≡ f
    → Pasa i fs (set fs k v) f v
set-Pasa i fs k f v h e = (
  ap (λ x. suma (tiene i) (set fs k v) + tiene i x) (sym e) ∙ suma-set (tiene i) fs k v h,
  ap (λ x. suma lleva (set fs k v) + lleva x) (sym e) ∙ suma-set lleva fs k v h,
)

entra :
    (i : ℕ) (l : Lote) (fs gs : List Fase)
    → Cuadra i l fs
    → Pasa i fs gs fuera dentro
    → Cuadra i l gs
entra i l fs gs h p = (omega (arith, h.0, p.0), omega (arith, h.1, p.1), h.2, h.3)

toma :
    (i : ℕ) (l : Lote) (fs gs : List Fase) (b : Bool)
    → ltb l.siguiente l.total ≡ b
    → Cuadra i l fs
    → l.siguiente + 1 < 2 ^ 32
    → Pasa i fs gs dentro (if b then con l.siguiente else fuera)
    → Cuadra i (pedir l) gs
toma i l fs gs true e h k p =
    (ground (arith, e, h.0, p.0, k), ground (arith, e, h.1, p.1, k), h.2, h.3)
toma i l fs gs false e h k p =
    (ground (arith, e, h.0, p.0, k), ground (arith, e, h.1, p.1, k), h.2, h.3)

llama :
    (i j : ℕ) (l : Lote) (cpu : ℕ) (fs gs : List Fase)
    → Cuadra i l fs
    → Pasa i fs gs (con j) (corrido j)
    → Cuadra i (llamar l cpu j) gs
unfolding cuantas
llama i j l cpu fs gs h p =
    si (λ m. Cuadra i m gs) l.cancelado _ _
      (λ c. (omega (arith, h.0, p.0), omega (arith, h.1, p.1), λ d. ground (arith, c, d), h.3))
      (λ c. (omega (arith, h.0, p.0), omega (arith, h.1, p.1), h.2, h.3))

completa :
    (i j : ℕ) (l : Lote) (fs gs : List Fase)
    → Cuadra i l fs
    → Pasa i fs gs (corrido j) fuera
    → Cuadra i (completar l) gs
completa i j l fs gs h p = (omega (arith, h.0, p.0), omega (arith, h.1, p.1, h.3), h.2, h.3)

avanzar-IsCuadrado :
    (i : ℕ) (s : Sistema) (cpu : ℕ) (f : Fase)
    → IsCuadrado i s
    → cpu < length s.fases
    → get_or s.fases cpu fuera ≡ f
    → s.lote.siguiente + 1 < 2 ^ 32
    → IsCuadrado i (avanzar s cpu f)
unfolding avanzar
avanzar-IsCuadrado i s cpu fuera h k e b =
    si (IsCuadrado i) (not (ltb cpu 4) || not s.lote.activo) _ _ (λ c. h)
      (λ c.
        entra i s.lote s.fases (set s.fases cpu dentro) h (set-Pasa i s.fases cpu fuera dentro k e))
avanzar-IsCuadrado i s cpu dentro h k e b =
    toma i s.lote s.fases _ (ltb s.lote.siguiente s.lote.total) refl h b (
      set-Pasa i s.fases cpu dentro
        (if ltb s.lote.siguiente s.lote.total then con s.lote.siguiente else fuera) k e)
avanzar-IsCuadrado i s cpu (con j) h k e b =
    llama i j s.lote cpu s.fases (set s.fases cpu (corrido j)) h
      (set-Pasa i s.fases cpu (con j) (corrido j) k e)
avanzar-IsCuadrado i s cpu (corrido j) h k e b =
    completa i j s.lote s.fases (set s.fases cpu fuera) h
      (set-Pasa i s.fases cpu (corrido j) fuera k e)

paso-IsCuadrado :
    (i : ℕ) (e : Suceso) (s : Sistema)
    → IsCuadrado i s
    → s.lote.siguiente + 1 < 2 ^ 32
    → IsCuadrado i (paso e s)
unfolding paso trabajos_cancelar
paso-IsCuadrado i (de_cpu cpu) s h b =
    si (IsCuadrado i) (ltb cpu (length s.fases)) _ _
      (λ c. avanzar-IsCuadrado i s cpu (get_or s.fases cpu fuera) h (ground (arith, c)) refl b)
      (λ c. h)
paso-IsCuadrado i cancela s h b = (h.0, h.1, λ d. ground (arith, d), h.3)

-- A step hands out one index at most.
avanzar-siguiente :
    (s : Sistema) (cpu : ℕ) (f : Fase) → (avanzar s cpu f).lote.siguiente ≤ s.lote.siguiente + 1
unfolding avanzar
avanzar-siguiente s cpu fuera =
    si (λ (x : Sistema). x.lote.siguiente ≤ s.lote.siguiente + 1)
      (not (ltb cpu 4) || not s.lote.activo) _ _ (λ c. omega arith) (λ c. omega arith)
avanzar-siguiente s cpu dentro = omega arith
avanzar-siguiente s cpu (con i) =
    si (λ (l : Lote). l.siguiente ≤ s.lote.siguiente + 1) s.lote.cancelado _ _ (λ c. omega arith)
      (λ c. omega arith)
avanzar-siguiente s cpu (corrido i) = omega arith

paso-siguiente : (e : Suceso) (s : Sistema) → (paso e s).lote.siguiente ≤ s.lote.siguiente + 1
unfolding paso trabajos_cancelar
paso-siguiente (de_cpu cpu) s =
    si (λ (x : Sistema). x.lote.siguiente ≤ s.lote.siguiente + 1) (ltb cpu (length s.fases)) _ _
      (λ c. avanzar-siguiente s cpu (get_or s.fases cpu fuera)) (λ c. omega arith)
paso-siguiente cancela s = omega arith

correr-IsCuadrado :
    (i : ℕ) (es : List Suceso) (s : Sistema)
    → IsCuadrado i s
    → s.lote.siguiente + length es < 2 ^ 32
    → IsCuadrado i (correr es s)
unfolding correr
correr-IsCuadrado i [] s h b = h
correr-IsCuadrado i (e ∷ es) s h b =
    correr-IsCuadrado i es (paso e s) (paso-IsCuadrado i e s h (omega (arith, b)))
      (omega (arith, b, paso-siguiente e s))

avanzar-total : (s : Sistema) (cpu : ℕ) (f : Fase) → (avanzar s cpu f).lote.total ≡ s.lote.total
unfolding avanzar
avanzar-total s cpu fuera =
    si (λ (x : Sistema). x.lote.total ≡ s.lote.total) (not (ltb cpu 4) || not s.lote.activo) _ _
      (λ c. refl) (λ c. refl)
avanzar-total s cpu dentro = refl
avanzar-total s cpu (con i) =
    si (λ (l : Lote). l.total ≡ s.lote.total) s.lote.cancelado _ _ (λ c. refl) (λ c. refl)
avanzar-total s cpu (corrido i) = refl

correr-total : (es : List Suceso) (s : Sistema) → (correr es s).lote.total ≡ s.lote.total
unfolding correr paso trabajos_cancelar
correr-total [] s = refl
correr-total (de_cpu cpu ∷ es) s =
    correr-total es (paso (de_cpu cpu) s)
    ∙ si (λ (x : Sistema). x.lote.total ≡ s.lote.total) (ltb cpu (length s.fases)) _ _
        (λ c. avanzar-total s cpu (get_or s.fases cpu fuera)) (λ c. refl)
correr-total (cancela ∷ es) s = correr-total es (paso cancela s)

empezar-IsCuadrado : (i n p : ℕ) → n ≤ 256 → IsCuadrado i (empezar n p)
unfolding empezar trabajos_preparar cuantas
empezar-IsCuadrado i n p h = (
  ground (arith, suma-replicate (tiene i) p refl),
  omega (arith, suma-replicate lleva p refl),
  λ d. refl,
  h,
)

cuadra :
    (es : List Suceso) (n p i : ℕ)
    → n ≤ 256
    → length es < 2 ^ 32
    → IsCuadrado i (correr es (empezar n p)) × ((correr es (empezar n p)).lote.total ≡ n)
unfolding empezar trabajos_preparar
cuadra es n p i h b = (
  correr-IsCuadrado i es (empezar n p) (empezar-IsCuadrado i n p h) (omega (arith, b)),
  correr-total es (empezar n p),
)

una :
    (i n : ℕ) (l : Lote) (fs : List Fase)
    → Cuadra i l fs
    → l.total ≡ n
    → cuantas i l.corridas ≤ (if ltb i n then 1 else 0)
una i n l fs h e = ground (arith, h.0, e)

todas :
    (i n : ℕ) (l : Lote) (fs : List Fase)
    → Cuadra i l fs
    → l.total ≡ n
    → i < n
    → trabajos_terminados l ≡ true
    → l.cancelado ≡ false
    → cuantas i l.corridas ≡ 1
unfolding trabajos_terminados
todas i n l fs h e k t c = ground (arith, h.0, h.1, h.2 c, e, k, t, suma_le i fs)

-- In any interleaving of up to 2^32 - 1 steps no region of a batch of at most 256 is run twice, and none is run that
-- the batch does not have.
pub correr-una_vez :
    (es : List Suceso) (n p i : ℕ)
    → n ≤ 256
    → length es < 2 ^ 32
    → cuantas i (correr es (empezar n p)).lote.corridas ≤ (if ltb i n then 1 else 0)
correr-una_vez es n p i h b =
    let q = cuadra es n p i h b in
    una i n (correr es (empezar n p)).lote (correr es (empezar n p)).fases q.0 q.1

-- When all regions of a batch of at most 256 count as completed and it was not cancelled, each was run exactly once,
-- in any interleaving of up to 2^32 - 1 steps.
pub terminados-todas :
    (es : List Suceso) (n p i : ℕ)
    → n ≤ 256
    → length es < 2 ^ 32
    → i < n
    → trabajos_terminados (correr es (empezar n p)).lote ≡ true
    → (correr es (empezar n p)).lote.cancelado ≡ false
    → cuantas i (correr es (empezar n p)).lote.corridas ≡ 1
terminados-todas es n p i h b k t c =
    let q = cuadra es n p i h b in
    todas i n (correr es (empezar n p)).lote (correr es (empezar n p)).fases q.0 q.1 k t c
