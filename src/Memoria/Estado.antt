-- ===== src/Memoria/Estado.antt =====
-- The two-bit state of each usable frame in nucleo/base/memoria.c, four to a byte.
use taek_os.Prelude.{
  ℕ, zero, suc, ◌-◌, ◌*◌, ◌/◌, ◌%◌, ◌^◌, ◌≤◌, ◌<◌, bit_and, bit_or, Bool, true, ◌&&◌, ◌≡◌, ap, refl,
  Option, none, some, List, [], ◌∷◌, arith, leb, ltb, ◌==◌, ==_iff, if◌then◌else◌, get_or, set,
  length, length-set, get_or-set, Bool-cases, inl, inr,
}

-- 0 reserved, 1 free, 2 handed out.
pub record PmmRangoEstado : Type 0 where
  pub inicio : ℕ
  pub paginas : ℕ
  pub estado : List ℕ

abbrev pub en_rango_pmm : PmmRangoEstado → ℕ → Bool
en_rango_pmm r phys = leb r.inicio phys && ltb ((phys - r.inicio) / 4096) r.paginas

abbrev pub indice : PmmRangoEstado → ℕ → ℕ
indice r phys = (phys - r.inicio) / 4096

-- `(byte >> d) & 3`
unfoldable pub leer_dos : ℕ → ℕ → ℕ
leer_dos byte d = bit_and (byte / 2 ^ d) 3

-- `(byte & ~(3U << d)) | ((valor & 3U) << d)`, in a byte
unfoldable pub escribir_dos : ℕ → ℕ → ℕ → ℕ
escribir_dos byte d valor =
    bit_or (bit_and byte (2 ^ 32 - 1 - 3 * 2 ^ d)) (bit_and valor 3 * 2 ^ d) % 256

-- None stands for -1: the address is in no range.
unfoldable pub pmm_estado_leer : List PmmRangoEstado → ℕ → Option ℕ
pmm_estado_leer [] phys = none
pmm_estado_leer (r ∷ rs) phys =
    if en_rango_pmm r phys
    then some (leer_dos (get_or r.estado (indice r phys / 4) 0) (indice r phys % 4 * 2))
    else pmm_estado_leer rs phys

unfoldable pub escribir_en : PmmRangoEstado → ℕ → ℕ → PmmRangoEstado
escribir_en r i valor = record r {
  estado = set r.estado (i / 4) (escribir_dos (get_or r.estado (i / 4) 0) (i % 4 * 2) valor);
}

unfoldable pub pmm_estado_escribir : List PmmRangoEstado → ℕ → ℕ → List PmmRangoEstado
pmm_estado_escribir [] phys valor = []
pmm_estado_escribir (r ∷ rs) phys valor =
    if en_rango_pmm r phys
    then escribir_en r (indice r phys) valor ∷ rs
    else r ∷ pmm_estado_escribir rs phys valor

-- Every byte value, pair of places and state, by evaluation.
todos : ℕ → (ℕ → Bool) → Bool
todos zero p = true
todos (suc n) p = p n && todos n p

todos_at : (n : ℕ) (p : ℕ → Bool) (x : ℕ) → todos n p ≡ true → x < n → p x ≡ true
unfolding todos
todos_at zero p x h l = absurd (omega arith)
todos_at (suc n) p x h l = ground (arith, todos_at n p x)

prueba_dos : ℕ → ℕ → ℕ → ℕ → Bool
prueba_dos b k j v =
    leer_dos (escribir_dos b (k * 2) v) (j * 2) == (if k == j then v else leer_dos b (j * 2))

tabla_dos : todos 256 (λ b. todos 4 (λ k. todos 4 (λ j. todos 4 (λ v. prueba_dos b k j v)))) ≡ true
unfolding todos prueba_dos leer_dos escribir_dos
tabla_dos = refl

-- Writing the state of one frame of a byte changes that state and no other.
leer-escribir_dos :
    (b k j v : ℕ)
    → b < 256
    → k < 4
    → j < 4
    → v < 4
    → leer_dos (escribir_dos b (k * 2) v) (j * 2) ≡ (if k == j then v else leer_dos b (j * 2))
unfolding prueba_dos
leer-escribir_dos b k j v hb hk hj hv = (==_iff _ _).0 (
    todos_at 4 (prueba_dos b k j) v
      (todos_at 4 _ j (todos_at 4 _ k (todos_at 256 _ b tabla_dos hb) hk) hj) hv)

escribir_dos-lt : (b d v : ℕ) → escribir_dos b d v < 256
unfolding escribir_dos
escribir_dos-lt b d v = omega arith

-- A range whose array has a place for each frame, all of them bytes, and that begins a page.
pub record IsRango (r : PmmRangoEstado) : Type 0 where
  pub alineado : r.inicio % 4096 ≡ 0
  pub bastante : r.paginas ≤ length r.estado * 4
  pub bytes : (i : ℕ) → get_or r.estado i 0 < 256

abbrev pub Rangos : List PmmRangoEstado → Type 0
Rangos [] = Unit {0}
Rangos (r ∷ rs) = IsRango r × Rangos rs

escribir_en-IsRango :
    (r : PmmRangoEstado) (i v : ℕ) → IsRango r → i < r.paginas → IsRango (escribir_en r i v)
unfolding escribir_en
escribir_en-IsRango r i v h l = record {
  alineado = h.alineado;
  bastante = rw length-set h.bastante;
  bytes = λ j. ground (
    arith,
    get_or-set r.estado (i / 4) j (escribir_dos (get_or r.estado (i / 4) 0) (i % 4 * 2) v) 0
        (omega (arith, h.bastante)),
    h.bytes j,
    escribir_dos-lt (get_or r.estado (i / 4) 0) (i % 4 * 2) v,
  );
}

pub escribir-Rangos :
    (rs : List PmmRangoEstado) (p v : ℕ) → Rangos rs → Rangos (pmm_estado_escribir rs p v)
unfolding pmm_estado_escribir
escribir-Rangos [] p v h = tt
escribir-Rangos (r ∷ rs) p v h = elim (Bool-cases (en_rango_pmm r p)) [
  | inl y ↦ rw y (escribir_en-IsRango r (indice r p) v h.0 (ground arith), h.1)
  | inr n ↦ rw n (h.0, escribir-Rangos rs p v h.1)
]

leer_en :
    (r : PmmRangoEstado) (i j v : ℕ)
    → IsRango r
    → i < r.paginas
    → v < 4
    → leer_dos (get_or (escribir_en r i v).estado (j / 4) 0) (j % 4 * 2)
      ≡ (if i == j then v else leer_dos (get_or r.estado (j / 4) 0) (j % 4 * 2))
unfolding escribir_en
leer_en r i j v h l hv =
    let byte = get_or r.estado (i / 4) 0 in
    let nuevo = escribir_dos byte (i % 4 * 2) v in
    let puesto = get_or-set r.estado (i / 4) (j / 4) nuevo 0 (omega (arith, h.bastante)) in
    elim (Bool-cases (i / 4 == j / 4)) [
      | inl y ↦
          let same : get_or r.estado (j / 4) 0 ≡ byte =
            ap (λ t. get_or r.estado t 0) {x = j / 4} {y = i / 4} (ground arith) in
          rw (puesto, y, same)
            (ground (
              arith,
              leer-escribir_dos byte (i % 4) (j % 4) v (h.bytes (i / 4)) (omega arith) (omega arith)
                  hv,
            ))
      | inr n ↦ rw (puesto, n) (ground arith)
    ]

-- Writing the state of a frame that is in a range changes that state and no other.
pub leer-escribir :
    (rs : List PmmRangoEstado) (p q v : ℕ) {s : ℕ}
    → Rangos rs
    → pmm_estado_leer rs p ≡ some s
    → p % 4096 ≡ 0
    → q % 4096 ≡ 0
    → v < 4
    → pmm_estado_leer (pmm_estado_escribir rs p v) q
      ≡ (if p == q then some v else pmm_estado_leer rs q)
unfolding pmm_estado_leer pmm_estado_escribir
leer-escribir [] p q v h e hp hq hv = absurd (ground arith)
leer-escribir (r ∷ rs) p q v {s} h e hp hq hv = elim (Bool-cases (en_rango_pmm r p)) [
  | inl y ↦ rw y (
      unfold escribir_en in
      ground (arith, h.0.alineado, leer_en r (indice r p) (indice r q) v h.0 (ground arith) hv))
  | inr n ↦ rw n (ground (arith, leer-escribir rs p q v {s = s} h.1 (ground arith) hp hq hv))
]
