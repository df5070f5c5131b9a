-- ===== src/Dma/Asignar.antt =====
-- The allocation of nucleo/base/dma.c: what it hands out, and when it refuses.
use taek_os.Prelude.{
  ℕ, ◌+◌, ◌*◌, ◌%◌, ◌^◌, ◌≤◌, ◌<◌, true, false, ◌≡◌, refl, ap, sym, inl, inr, Option, none, some,
  arith, ◌==◌, if◌then◌else◌, Bool-cases, ◌⊎◌,
}
use mathlib.Core.Path.{subst₂}
use mathlib.Core.Option.{some-injective}
use taek_os.Prelude.Count.{en_rango}
use taek_os.Dma.Defs.{
  Dma, bitmap_probar_bit, pags_necesarias, peticion_invalida, entregar, candidato, buscar, ocupar,
  asignar_iniciado, alineacion_efectiva, tamano_pagina,
}
use taek_os.Dma.Bloque.{bloque_libre-clear, bloque_libre-taken}
use taek_os.Dma.Buscar.{Primero, buscar-Primero, buscar-none}
use taek_os.Dma.Inv.{IsValid, tam, pags_necesarias_lem}
use taek_os.Dma.Ocupar
use taek_os.Dma.Ocupar.{Tomable}

-- What a successful allocation of `bytes` is: a run of pages of the arena, free before and taken
-- after, at an address as aligned as asked, with the size recorded and nothing else changed.
pub record Asignado (d e : Dma) (alineacion bytes fis : ℕ) : Type 0 where
  pub pagina : ℕ
  pub direccion : fis ≡ d.base_fisica + pagina * 4096
  pub alineada : fis % alineacion_efectiva alineacion ≡ 0
  pub cabe : pagina + pags_necesarias bytes ≤ d.total_paginas
  pub bastante : bytes ≤ pags_necesarias bytes * 4096
  pub libre :
      (j : ℕ) → pagina ≤ j → j < pagina + pags_necesarias bytes → bitmap_probar_bit d j ≡ false
  pub marcas :
      (j : ℕ)
      → bitmap_probar_bit e j
        ≡ (if en_rango pagina (pags_necesarias bytes) j then true else bitmap_probar_bit d j)
  pub tamanos : (k : ℕ) → tam e k ≡ (if pagina == k then bytes else tam d k)
  pub positivo : 0 < bytes
  pub sin_dueno : tam d pagina ≡ 0
  pub base : e.base_fisica ≡ d.base_fisica
  pub total : e.total_paginas ≡ d.total_paginas
  pub valid : IsValid e

-- The search finds a run that may be taken.
encontrado-Tomable :
    (d : Dma) (bytes al i : ℕ)
    → IsValid d
    → peticion_invalida d false bytes ≡ false
    → Primero d al (pags_necesarias bytes) 0 i
    → Tomable d i bytes
unfolding peticion_invalida candidato
encontrado-Tomable d bytes al i v g f = record {
  valid = v;
  positivo = ground arith;
  cabe_bytes = ground arith;
  cabe = f.cabe;
  libre = λ j a b. bloque_libre-clear d (pags_necesarias bytes) i j (ground (arith, f.valido)) a b;
}

Asignado-of_found :
    (d : Dma) (bytes al i : ℕ)
    → IsValid d
    → peticion_invalida d false bytes ≡ false
    → Primero d (alineacion_efectiva al) (pags_necesarias bytes) 0 i
    → Asignado d
        (ocupar d i (pags_necesarias bytes) bytes)
        al
        bytes
        ((d.base_fisica + i * tamano_pagina) % 2 ^ 64)
unfolding candidato
Asignado-of_found d bytes al i v g f =
    let t = encontrado-Tomable d bytes (alineacion_efectiva al) i v g f in
    let pags = pags_necesarias_lem bytes t.positivo (omega (arith, t.cabe_bytes, v.tamano_le)) in
    record {
      pagina = i;
      direccion = omega (arith, v.sin_vuelta, v.arena, t.cabe, pags);
      alineada = ground (arith, f.valido);
      cabe = t.cabe;
      bastante = pags.1;
      libre = t.libre;
      marcas = Ocupar.probar-ocupar d i bytes t;
      tamanos = Ocupar.tam-ocupar d i bytes t;
      positivo = t.positivo;
      sin_dueno = Ocupar.tam_libre d i bytes t;
      base = Ocupar.base-ocupar d i bytes t;
      total = Ocupar.total-ocupar d i bytes t;
      valid = Ocupar.ocupar-IsValid d i bytes t;
    }

entregar-Asignado :
    (d : Dma) (bytes al : ℕ) {fis : ℕ} {e : Dma}
    → IsValid d
    → peticion_invalida d false bytes ≡ false
    → (o : Option ℕ)
    → buscar (d.total_paginas + 1) d (alineacion_efectiva al) (pags_necesarias bytes) 0 ≡ o
    → entregar d bytes o ≡ (some fis, e)
    → Asignado d e al bytes fis
unfolding entregar
entregar-Asignado d bytes al v g none b h = absurd (ground arith)
entregar-Asignado d bytes al {fis} {e} v g (some i) b h =
    let found = Asignado-of_found d bytes al i v g (buscar-Primero _ d _ _ 0 b) in
    subst₂ (λ x y. Asignado d y al bytes x)
      (some-injective _ _ (ap (λ (x : Option ℕ × Dma). x.0) h)) (ap (λ (x : Option ℕ × Dma). x.1) h)
      found

-- On a valid arena, an allocation that succeeds hands out an aligned run of free pages of the arena, long enough
-- for the request, marks exactly that run and records the size at its first page.
pub asignar-Asignado :
    (d : Dma) (bytes alineacion : ℕ) {fis : ℕ} {e : Dma}
    → IsValid d
    → asignar_iniciado d false bytes alineacion ≡ (some fis, e)
    → Asignado d e alineacion bytes fis
unfolding asignar_iniciado
asignar-Asignado d bytes al v h = elim (Bool-cases (peticion_invalida d false bytes)) [
  | inl bad ↦ absurd (ground arith)
  | inr good ↦ entregar-Asignado d bytes al v good _ refl (rw good at h)
]

ocupada_of_candidato :
    (d : Dma) (al p k : ℕ)
    → candidato d al p k ≡ false
    → (d.base_fisica + k * 4096) % 2 ^ 64 % al ≡ 0
    → (j : ℕ) × (k ≤ j) × (j < k + p) × (bitmap_probar_bit d j ≡ true)
unfolding candidato
ocupada_of_candidato d al p k h a = bloque_libre-taken d p k (ground arith)

entregar-none :
    (d : Dma) (bytes : ℕ) {e : Dma} (o : Option ℕ)
    → entregar d bytes o ≡ (none, e)
    → (e ≡ d) × (o ≡ none)
unfolding entregar
entregar-none d bytes none h = (sym (ap (λ (x : Option ℕ × Dma). x.1) h), refl)
entregar-none d bytes (some i) h = absurd (ground arith)

-- On a valid arena, an allocation that is refused changes nothing, and either the request was invalid or every
-- aligned run of the arena that is long enough has a taken page.
pub asignar_rechazo :
    (d : Dma) (bytes alineacion : ℕ) {e : Dma}
    → asignar_iniciado d false bytes alineacion ≡ (none, e)
    → (e ≡ d)
      × ((peticion_invalida d false bytes ≡ true)
          ⊎ ((k : ℕ)
              → k + pags_necesarias bytes ≤ d.total_paginas
              → (d.base_fisica + k * 4096) % 2 ^ 64 % alineacion_efectiva alineacion ≡ 0
              → (j : ℕ) × (k ≤ j)
                × (j < k + pags_necesarias bytes)
                × (bitmap_probar_bit d j ≡ true)))
unfolding asignar_iniciado
asignar_rechazo d bytes al h = elim (Bool-cases (peticion_invalida d false bytes)) [
  | inl bad ↦ (sym (ap (λ (x : Option ℕ × Dma). x.1) (rw bad at h)), inl bad)
  | inr good ↦
      let p = pags_necesarias bytes in
      let a = alineacion_efectiva al in
      let (same, none_found) = entregar-none d bytes _ (rw good at h) in
      (
        same,
        inr (λ k fits aligned.
            ocupada_of_candidato d a p k
              (buscar-none (d.total_paginas + 1) d a p 0 k none_found (omega arith) (omega arith)
                fits)
              aligned),
      )
]
