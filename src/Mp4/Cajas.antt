-- ===== src/Mp4/Cajas.antt =====
-- The boxes that mp4.c finds lie in their container.
use native.Mathlib.Decide.{ℕ_discrete}
use taek_os.Prelude.{
  ℕ, zero, suc, ◌+◌, ◌*◌, ◌∙◌, ◌-◌, ◌≤◌, ◌<◌, Bool, true, false, ◌&&◌, ◌||◌, ◌≡◌, refl, List, ◌==◌,
  ltb, si, arith, if◌then◌else◌, ap, sym,
}
use taek_os.Mp4.Vista.{
  Vista, be32, Caja, acabada, rota, una, tamano_caja, cabecera_caja, caja, Hallado, ninguna, mala,
  hallada, si_es, buscar_desde, buscar,
}

abbrev pub fin : Vista → ℕ
fin v = v.p + v.n

-- The box and what follows it lie in `v`, and a header of eight bytes at least is before what follows.
abbrev pub Cabe : Vista → Caja → Type 0
Cabe v acabada = v.n ≡ 0
Cabe v rota = 0 < v.n
Cabe v (una t w resto) = (fin w ≤ fin v) × (fin resto ≤ fin v) × (8 + resto.n ≤ v.n)

abbrev pub Halla : ℕ → Hallado → Type 0
Halla m ninguna = Unit {0}
Halla m mala = Unit {0}
Halla m (hallada w) = fin w ≤ m

cabe_una :
    (s : List ℕ) (v : Vista) (c n : ℕ)
    → 8 ≤ c
    → (ltb n c || ltb v.n n) ≡ false
    → (v.p + c + (n - c) ≤ fin v) × (v.p + n + (v.n - n) ≤ fin v) × (8 + (v.n - n) ≤ v.n)
cabe_una s v c n h k = (ground (arith, k), ground (arith, k), ground (arith, k))

cabecera_caja-ge : (b : Bool) → 8 ≤ (if b then 16 else 8)
cabecera_caja-ge true = ground arith
cabecera_caja-ge false = ground arith

pub caja-Cabe : (s : List ℕ) (v : Vista) → Cabe v (caja s v)
unfolding caja
caja-Cabe s v =
    si (Cabe v) (v.n == 0) _ _ (λ z. ground (arith, z))
      (λ z.
        si (Cabe v) (ltb v.n 8) _ _ (λ h. ground (arith, z))
          (λ h.
            si (Cabe v) (be32 s v.p == 1 && ltb v.n 16) _ _ (λ k. ground (arith, z))
              (λ k.
                si (Cabe v) (ltb (tamano_caja s v) (cabecera_caja s v) || ltb v.n (tamano_caja s v))
                  _ _ (λ i. ground (arith, z))
                  (cabe_una s v (cabecera_caja s v) (tamano_caja s v)
                    (cabecera_caja-ge (be32 s v.p == 1))))))

si_es-Halla :
    (tipo m : ℕ) (v : Vista) (c : Caja) (k : Vista → Hallado)
    → Cabe v c
    → fin v ≤ m
    → ((r : Vista) → fin r ≤ m → Halla m (k r))
    → Halla m (si_es tipo c k)
si_es-Halla tipo m v acabada k h l q = tt
si_es-Halla tipo m v rota k h l q = tt
si_es-Halla tipo m v (una t w r) k h l q =
    si (Halla m) (t == tipo) _ _ (λ i. ground (arith, h.0, l)) (λ i. q r (ground (arith, h.1, l)))

buscar_desde-Halla :
    (s : List ℕ) (f m : ℕ) (v : Vista) (tipo : ℕ) → fin v ≤ m → Halla m (buscar_desde s f v tipo)
unfolding buscar_desde
buscar_desde-Halla s zero m v tipo h = tt
buscar_desde-Halla s (suc f) m v tipo h =
    si_es-Halla tipo m v (caja s v) (λ r. buscar_desde s f r tipo) (caja-Cabe s v) h
      (λ r k. buscar_desde-Halla s f m r tipo k)

pub buscar-Halla :
    (s : List ℕ) (m : ℕ) (v : Vista) (tipo : ℕ) → fin v ≤ m → Halla m (buscar s v tipo)
unfolding buscar
buscar-Halla s m v tipo h = buscar_desde-Halla s v.n m v tipo h

si_es_ext :
    (tipo : ℕ) (v : Vista) (c : Caja) (j k : Vista → Hallado)
    → Cabe v c
    → ((r : Vista) → r.n < v.n → j r ≡ k r)
    → si_es tipo c j ≡ si_es tipo c k
si_es_ext tipo v acabada j k h q = refl
si_es_ext tipo v rota j k h q = refl
si_es_ext tipo v (una t w r) j k h q =
    ap (λ x. if t == tipo then hallada w else x) (q r (omega (arith, h.2)))

si_es-ninguna :
    (tipo : ℕ) (v : Vista) (c : Caja) (k : Vista → Hallado)
    → Cabe v c
    → v.n ≡ 0
    → si_es tipo c k ≡ ninguna
si_es-ninguna tipo v acabada k h z = refl
si_es-ninguna tipo v rota k h z = ground (arith, h, z)
si_es-ninguna tipo v (una t w r) k h z = ground (arith, h.2, z)

vacia : (s : List ℕ) (f : ℕ) (v : Vista) (tipo : ℕ) → v.n ≡ 0 → buscar_desde s f v tipo ≡ ninguna
unfolding buscar_desde
vacia s zero v tipo h = refl
vacia s (suc f) v tipo h =
    si_es-ninguna tipo v (caja s v) (λ r. buscar_desde s f r tipo) (caja-Cabe s v) h

-- The loop `while (caja(&v, ...) > 0)` from a view on ends after `k` boxes.
pub data Recorrido (s : List ℕ) : Vista → ℕ → Type 0 where
  al_final : {v : Vista} → caja s v ≡ acabada → Recorrido s v 0
  en_rota : {v : Vista} → caja s v ≡ rota → Recorrido s v 0
  tras_una :
      {v : Vista} (t : ℕ) (w resto : Vista) (k : ℕ)
      → caja s v ≡ una t w resto
      → Recorrido s resto k
      → Recorrido s v (suc k)

-- Fuel for a round more than there are boxes finds what any other such fuel finds.
Recorrido-buscar :
    (s : List ℕ) (tipo : ℕ) (v : Vista) (k f g : ℕ)
    → Recorrido s v k
    → k < f
    → k < g
    → buscar_desde s f v tipo ≡ buscar_desde s g v tipo
unfolding buscar_desde
Recorrido-buscar s tipo v k zero g x h l = absurd (omega (arith, h))
Recorrido-buscar s tipo v k (suc f) zero x h l = absurd (omega (arith, l))
Recorrido-buscar s tipo v k (suc f) (suc g) (al_final e) h l =
    ap (λ c. si_es tipo c (λ r. buscar_desde s f r tipo)) e
    ∙ sym (ap (λ c. si_es tipo c (λ r. buscar_desde s g r tipo)) e)
Recorrido-buscar s tipo v k (suc f) (suc g) (en_rota e) h l =
    ap (λ c. si_es tipo c (λ r. buscar_desde s f r tipo)) e
    ∙ sym (ap (λ c. si_es tipo c (λ r. buscar_desde s g r tipo)) e)
Recorrido-buscar s tipo v k (suc f) (suc g) (tras_una t w r j e x) h l =
    ap (λ c. si_es tipo c (λ r. buscar_desde s f r tipo)) e
    ∙ (ap (λ y. if t == tipo then hallada w else y)
          (Recorrido-buscar s tipo r j f g x (omega (arith, h)) (omega (arith, l)))
        ∙ sym (ap (λ c. si_es tipo c (λ r. buscar_desde s g r tipo)) e))

abbrev Acaba : List ℕ → Vista → Type 0
Acaba s v = (k : ℕ) × (k * 8 ≤ v.n) × Recorrido s v k

Acaba-segun :
    (s : List ℕ) (v : Vista) (c : Caja)
    → caja s v ≡ c
    → Cabe v c
    → ((r : Vista) → 8 + r.n ≤ v.n → Acaba s r)
    → Acaba s v
Acaba-segun s v acabada e h q = (0, omega arith, al_final e)
Acaba-segun s v rota e h q = (0, omega arith, en_rota e)
Acaba-segun s v (una t w r) e h q =
    let (k, l, x) = q r h.2 in (suc k, omega (arith, l, h.2), tras_una t w r k e x)

Acaba-con : (s : List ℕ) (f : ℕ) (v : Vista) → v.n ≤ f → Acaba s v
Acaba-con s zero v h =
    Acaba-segun s v (caja s v) refl (caja-Cabe s v) (λ r l. absurd (omega (arith, h, l)))
Acaba-con s (suc f) v h =
    Acaba-segun s v (caja s v) refl (caja-Cabe s v) (λ r l. Acaba-con s f r (omega (arith, h, l)))

-- In any bytes, the loop over the boxes of a container ends, after one box for each eight bytes at most; and `buscar`
-- finds what its loop finds with fuel for one round more than there are boxes.
pub caja-Recorrido :
    (s : List ℕ) (v : Vista) (tipo : ℕ)
    → (k : ℕ) × (k * 8 ≤ v.n)
      × Recorrido s v k
      × ((f : ℕ) → k < f → buscar_desde s f v tipo ≡ buscar s v tipo)
unfolding buscar
caja-Recorrido s v tipo =
    let (k, l, x) = Acaba-con s v.n v (omega arith) in
    (
      k,
      l,
      x,
      λ f h. elim (ℕ_discrete v.n 0) [
        | yes z ↦ vacia s f v tipo z ∙ sym (vacia s v.n v tipo z)
        | no n ↦ Recorrido-buscar s tipo v k f v.n x h (omega (arith, l, n))
      ],
    )
