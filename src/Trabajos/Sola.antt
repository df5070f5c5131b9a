-- ===== src/Trabajos/Sola.antt =====
-- One processor is enough for a batch of trabajos.c to end.
use taek_os.Prelude.{
  ℕ, zero, suc, ◌+◌, ◌%◌, ◌^◌, ◌≤◌, ◌<◌, true, ◌≡◌, ◌∙◌, refl, ap, List, [], ◌∷◌, replicate, arith,
  si,
}
use taek_os.Trabajos.Defs.{
  Lote, trabajos_preparar, empezar, Fase, fuera, dentro, con, corrido, Sistema, pedir, llamar,
  completar, avanzar, trabajos_terminados, Suceso, de_cpu, paso, correr,
}

-- The four steps of each of `m` calls of `trabajos_tomar` by the coordinator.
abbrev pub llamadas : ℕ → List Suceso
llamadas zero = []
llamadas (suc m) = de_cpu 0 ∷ de_cpu 0 ∷ de_cpu 0 ∷ de_cpu 0 ∷ llamadas m

abbrev con_fases : Lote → Fase → List Fase → Sistema
con_fases l f fs = record { lote = l; fases = f ∷ fs }

-- No region is held, and `m` are left.
abbrev Quedan : ℕ → Lote → Type 0
Quedan m l =
    (l.activo ≡ true)
    × (l.siguiente ≡ l.completados)
    × (l.siguiente + m ≡ l.total)
    × (l.total ≤ 256)

entra :
    (l : Lote) (fs : List Fase)
    → l.activo ≡ true
    → paso (de_cpu 0) (con_fases l fuera fs) ≡ con_fases l dentro fs
unfolding paso avanzar
entra l fs h = ground arith

toma :
    (l : Lote) (fs : List Fase)
    → l.siguiente < l.total
    → paso (de_cpu 0) (con_fases l dentro fs) ≡ con_fases (pedir l) (con l.siguiente) fs
unfolding paso avanzar
toma l fs h = ground arith

llama :
    (l : Lote) (fs : List Fase) (i : ℕ)
    → paso (de_cpu 0) (con_fases l (con i) fs) ≡ con_fases (llamar l 0 i) (corrido i) fs
unfolding paso avanzar
llama l fs i = ground arith

completa :
    (l : Lote) (fs : List Fase) (i : ℕ)
    → paso (de_cpu 0) (con_fases l (corrido i) fs) ≡ con_fases (completar l) fuera fs
unfolding paso avanzar
completa l fs i = ground arith

abbrev tras_una : Lote → Lote
tras_una l = completar (llamar (pedir l) 0 l.siguiente)

gira :
    (m : ℕ) (l : Lote) (fs : List Fase) (es : List Suceso)
    → Quedan (suc m) l
    → correr (de_cpu 0 ∷ de_cpu 0 ∷ de_cpu 0 ∷ de_cpu 0 ∷ es) (con_fases l fuera fs)
      ≡ correr es (con_fases (tras_una l) fuera fs)
unfolding correr
gira m l fs es h =
    ap (λ s. correr es (paso (de_cpu 0) (paso (de_cpu 0) (paso (de_cpu 0) s)))) (entra l fs h.0)
    ∙ ap (λ s. correr es (paso (de_cpu 0) (paso (de_cpu 0) s))) (toma l fs (omega (arith, h.2)))
    ∙ ap (λ s. correr es (paso (de_cpu 0) s)) (llama (pedir l) fs l.siguiente)
    ∙ ap (correr es) (completa (llamar (pedir l) 0 l.siguiente) fs l.siguiente)

una_menos : (m : ℕ) (l : Lote) → Quedan (suc m) l → Quedan m (tras_una l)
una_menos m l h =
    let sigue = ap (λ x. (x + 1) % 2 ^ 32) h.1 in
    let faltan : (l.siguiente + 1) % 2 ^ 32 + m ≡ l.total = omega (arith, h.2, h.3) in
    si (λ (x : Lote). Quedan m (completar x)) l.cancelado _ _ (λ c. (h.0, sigue, faltan, h.3))
      (λ c. (h.0, sigue, faltan, h.3))

acaba :
    (m : ℕ) (l : Lote) (fs : List Fase)
    → Quedan m l
    → trabajos_terminados (correr (llamadas m) (con_fases l fuera fs)).lote ≡ true
unfolding correr trabajos_terminados
acaba zero l fs h = ground (arith, h.1, h.2)
acaba (suc m) l fs h =
    ap (λ s. trabajos_terminados s.lote) (gira m l fs (llamadas m) h)
    ∙ acaba m (tras_una l) fs (una_menos m l h)

-- As many calls of the coordinator as a batch of at most 256 has regions complete it, with no other processor at work.
pub llamadas-terminados :
    (n p : ℕ) → n ≤ 256 → trabajos_terminados (correr (llamadas n) (empezar n (suc p))).lote ≡ true
unfolding empezar trabajos_preparar replicate
llamadas-terminados n p h =
    acaba n (trabajos_preparar n) (replicate p fuera) (refl, refl, omega arith, h)
