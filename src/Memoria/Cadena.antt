-- ===== src/Memoria/Cadena.antt =====
-- The invariant of the stack of free frames of nucleo/base/memoria.c, and its two changes of state.
use taek_os.Prelude.{
  ℕ, suc, ◌+◌, ◌%◌, ◌^◌, ◌<◌, Bool, true, false, ◌||◌, ◌≡◌, ◌≢◌, refl, ap, sym, ◌∙◌, inl, inr,
  Option, none, some, List, [], ◌∷◌, arith, ◌==◌, if◌then◌else◌, length, Bool-cases, ==_refl,
}
use native.Mathlib.Decide.{ℕ_discrete}
use taek_os.Memoria.Estado.{Rangos, pmm_estado_leer, leer-escribir, escribir-Rangos}
use taek_os.Memoria.Marcos.{Pmm, con_enlace, es_estado, tomar, apilar}

-- The frames met from `p` on by following the links are exactly the list, and end in 0.
abbrev Cadena : (ℕ → ℕ) → ℕ → List ℕ → Type 0
Cadena f p [] = p ≡ 0
Cadena f p (q ∷ l) = (p ≡ q) × (q ≢ 0) × (q % 4096 ≡ 0) × Cadena f (f q) l

abbrev pub contiene : List ℕ → ℕ → Bool
contiene [] p = false
contiene (q ∷ l) p = q == p || contiene l p

abbrev SinRepetir : List ℕ → Type 0
SinRepetir [] = Unit {0}
SinRepetir (q ∷ l) = (contiene l q ≡ false) × SinRepetir l

-- The list without the first `p`.
abbrev pub quitar : List ℕ → ℕ → List ℕ
quitar [] p = []
quitar (q ∷ l) p = if q == p then l else q ∷ quitar l p

-- The stack holds the frames of `l`, each once, and they are the frames in state free; those of `u`
-- are the ones handed out. The two counters are the lengths.
pub record IsPila (m : Pmm) (l u : List ℕ) : Type 0 where
  pub listo : m.estado_listo ≡ true
  pub rangos_bien : Rangos m.rangos
  pub cadena : Cadena m.enlace m.pila l
  pub distintos : SinRepetir l
  pub usados_distintos : SinRepetir u
  pub cuenta : m.paginas_libres ≡ length l
  pub cuenta_usados : m.paginas_en_uso ≡ length u
  pub cabe : length l + length u < 2 ^ 64
  pub libres : (p : ℕ) → p % 4096 ≡ 0 → es_estado (pmm_estado_leer m.rangos p) 1 ≡ contiene l p
  pub usados : (p : ℕ) → p % 4096 ≡ 0 → es_estado (pmm_estado_leer m.rangos p) 2 ≡ contiene u p

pub contiene-quitar :
    (u : List ℕ) (p q : ℕ)
    → SinRepetir u
    → contiene (quitar u p) q ≡ (if p == q then false else contiene u q)
contiene-quitar [] p q h = ground arith
contiene-quitar (x ∷ u) p q h = elim (ℕ_discrete x p) [
  | yes e ↦ ground (arith, contiene-quitar u p q h.1, ap (contiene u) {x = x} {y = q})
  | no n ↦ ground (arith, contiene-quitar u p q h.1)
]

length-quitar : (u : List ℕ) (p : ℕ) → contiene u p ≡ true → suc (length (quitar u p)) ≡ length u
length-quitar [] p h = cc
length-quitar (x ∷ u) p h = ground (arith, length-quitar u p)

SinRepetir-quitar : (u : List ℕ) (p : ℕ) → SinRepetir u → SinRepetir (quitar u p)
SinRepetir-quitar [] p h = tt
SinRepetir-quitar (x ∷ u) p h = elim (Bool-cases (x == p)) [
  | inl y ↦ rw y h.1
  | inr n ↦ rw n (ground (arith, contiene-quitar u p x h.1, h.0), SinRepetir-quitar u p h.1)
]

-- A link outside the list does not matter to its chain.
Cadena-otro :
    (f : ℕ → ℕ) (x v p : ℕ) (l : List ℕ)
    → contiene l x ≡ false
    → Cadena f p l
    → Cadena (con_enlace f x v) p l
Cadena-otro f x v p [] h c = c
Cadena-otro f x v p (q ∷ l) h c =
    let ne : (x == q) ≡ false = ground arith in
    (c.0, c.1, c.2, rw ne (Cadena-otro f x v (f q) l (ground arith) c.3))

pub es_estado-some : (o : Option ℕ) (s : ℕ) → es_estado o s ≡ true → o ≡ some s
es_estado-some none s h = cc
es_estado-some (some t) s h = ground arith

pub tomar-IsPila :
    (m : Pmm) (p : ℕ) (l u : List ℕ) → IsPila m (p ∷ l) u → IsPila (tomar m p) l (p ∷ u)
unfolding tomar
tomar-IsPila m p l u v =
    let al = v.cadena.2 in
    let libre : pmm_estado_leer m.rangos p ≡ some 1 =
      es_estado-some _ 1 (v.libres p al ∙ ground arith) in
    let law = λ (q : ℕ) (hq : q % 4096 ≡ 0).
      leer-escribir m.rangos p q 2 v.rangos_bien libre al hq (omega arith) in
    rw v.listo (record {
      listo = refl;
      rangos_bien = escribir-Rangos m.rangos p 2 v.rangos_bien;
      cadena = Cadena-otro m.enlace p 0 (m.enlace p) l v.distintos.0 v.cadena.3;
      distintos = v.distintos.1;
      usados_distintos = (sym (v.usados p al) ∙ rw libre, v.usados_distintos);
      cuenta = ground (arith, v.cuenta);
      cuenta_usados = omega (arith, v.cuenta_usados, v.cabe);
      cabe = omega (arith, v.cabe);
      libres = λ q hq.
          rw (law q hq)
            (ground (arith, v.libres q hq, v.distintos.0, ap (contiene l) {x = p} {y = q}));
      usados = λ q hq. rw (law q hq) (ground (arith, v.usados q hq));
    })

pub apilar-IsPila :
    (m : Pmm) (p : ℕ) (l u : List ℕ)
    → IsPila m l u
    → p ≢ 0
    → p % 4096 ≡ 0
    → pmm_estado_leer m.rangos p ≡ some 2
    → IsPila (apilar m p) (p ∷ l) (quitar u p)
unfolding apilar
apilar-IsPila m p l u v nz al us =
    let law = λ (q : ℕ) (hq : q % 4096 ≡ 0).
      leer-escribir m.rangos p q 1 v.rangos_bien us al hq (omega arith) in
    let en_u : contiene u p ≡ true = sym (v.usados p al) ∙ rw us in
    let no_l : contiene l p ≡ false = sym (v.libres p al) ∙ rw us in
    let n = length-quitar u p en_u in
    rw v.listo (record {
      listo = refl;
      rangos_bien = escribir-Rangos m.rangos p 1 v.rangos_bien;
      cadena =
          (refl, nz, al, rw (==_refl p) (Cadena-otro m.enlace p m.pila m.pila l no_l v.cadena));
      distintos = (no_l, v.distintos);
      usados_distintos = SinRepetir-quitar u p v.usados_distintos;
      cuenta = omega (arith, v.cuenta, v.cabe);
      cuenta_usados = ground (arith, v.cuenta_usados, n);
      cabe = omega (arith, v.cabe, n);
      libres = λ q hq. rw (law q hq) (ground (arith, v.libres q hq));
      usados = λ q hq.
          rw (law q hq) (ground (arith, v.usados q hq, contiene-quitar u p q v.usados_distintos));
    })
