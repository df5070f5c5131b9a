-- ===== src/Red/Suma.antt =====
-- The Internet checksum of nucleo/controladores/red/pila.c: the sum of 16-bit words with its carries
-- folded in, complemented.
use native.Mathlib.Decide.{ℕ_discrete}
use taek_os.Prelude.{
  ℕ, zero, suc, ◌+◌, ◌-◌, ◌*◌, ◌/◌, ◌%◌, ◌^◌, ◌≤◌, ◌<◌, ◌≡◌, refl, ap, ◌∙◌, List, [], ◌∷◌, ◌++◌,
  arith, ◌==◌, if◌then◌else◌, length, length-append, ◌↔◌,
}

-- The bytes in pairs, the first of a pair the high one (on bytes `|` is `+` here); `suma` is a `uint32_t`.
unfoldable pub red_suma : List ℕ → ℕ → ℕ
red_suma [] suma = suma
red_suma (a ∷ []) suma = (suma + a * 2 ^ 8) % 2 ^ 32
red_suma (a ∷ b ∷ resto) suma = red_suma resto ((suma + (a * 2 ^ 8 + b)) % 2 ^ 32)

-- The loop that folds the carries, on fuel.
unfoldable pub plegar : ℕ → ℕ → ℕ
plegar zero suma = suma
plegar (suc f) suma =
    let otra = plegar f ((suma % 2 ^ 16 + suma / 2 ^ 16) % 2 ^ 32) in
    if suma / 2 ^ 16 == 0 then suma else otra

-- Three rounds fold any 32-bit sum (`plegar_basta`).
unfoldable pub red_finalizar_suma : ℕ → ℕ
red_finalizar_suma suma = 2 ^ 16 - 1 - plegar 3 suma % 2 ^ 16

unfoldable pub red_checksum : List ℕ → ℕ
red_checksum datos = red_finalizar_suma (red_suma datos 0)

-- The words as one number, with no wrap.
abbrev pub palabras : List ℕ → ℕ
palabras [] = 0
palabras (a ∷ []) = a * 256
palabras (a ∷ b ∷ resto) = a * 256 + b + palabras resto

abbrev pub Bytes : List ℕ → Type 0
Bytes [] = Unit {0}
Bytes (a ∷ resto) = (a < 256) × Bytes resto

-- The words of `n` bytes sum to less than 2^16 for each byte.
pub palabras-lt : (l : List ℕ) → Bytes l → palabras l ≤ length l * 65280
palabras-lt [] h = omega arith
palabras-lt (a ∷ []) h = omega (arith, h.0)
palabras-lt (a ∷ b ∷ l) h = omega (arith, h.0, h.1.0, palabras-lt l h.1.1)

-- A buffer of at most 65535 bytes does not overflow the accumulator.
pub red_suma_lem :
    (l : List ℕ) (s : ℕ) → Bytes l → s + length l * 65280 < 2 ^ 32 → red_suma l s ≡ s + palabras l
unfolding red_suma
red_suma_lem [] s h k = omega arith
red_suma_lem (a ∷ []) s h k = omega (arith, h.0)
red_suma_lem (a ∷ b ∷ l) s h k =
    let e : (s + (a * 2 ^ 8 + b)) % 2 ^ 32 ≡ s + (a * 256 + b) = omega (arith, h.0, h.1.0) in
    rw e (omega (arith, red_suma_lem l (s + (a * 256 + b)) h.1.1 (omega (arith, h.0, h.1.0))))

-- Folding keeps the sum modulo 65535, and keeps a sum that is not zero from becoming zero.
pub plegar_basta :
    (s : ℕ)
    → s < 2 ^ 32
    → (plegar 3 s < 2 ^ 16) × (plegar 3 s % 65535 ≡ s % 65535) × (plegar 3 s ≡ 0 → s ≡ 0)
unfolding plegar
plegar_basta s h = ground arith

plegar-nada : plegar 3 0 ≡ 0
unfolding plegar
plegar-nada = refl

-- Of a 32-bit sum that is a positive multiple of 65535 nothing is left.
pub finalizar_cero : (s : ℕ) → s < 2 ^ 32 → s % 65535 ≡ 0 → 0 < s → red_finalizar_suma s ≡ 0
unfolding red_finalizar_suma
finalizar_cero s h m p =
    let b = plegar_basta s h in
    elim (ℕ_discrete (plegar 3 s) 0) [
      | yes e ↦ omega (arith, b.2 e)
      | no n ↦ omega (arith, b.0, b.1)
    ]

-- And of no other.
finalizar_solo_cero : (s : ℕ) → s < 2 ^ 32 → red_finalizar_suma s ≡ 0 → (s % 65535 ≡ 0) × (0 < s)
unfolding red_finalizar_suma
finalizar_solo_cero s h e =
    let b = plegar_basta s h in
    let lleno : plegar 3 s ≡ 65535 = omega (arith, b.0, e) in
    (
      omega (arith, lleno, b.1),
      elim (ℕ_discrete s 0) [
        | yes z ↦ omega (arith, lleno, ap (plegar 3) z, plegar-nada)
        | no n ↦ omega (arith, n)
      ],
    )

red_checksum-palabras :
    (l : List ℕ) → Bytes l → length l ≤ 65535 → red_checksum l ≡ red_finalizar_suma (palabras l)
unfolding red_checksum
red_checksum-palabras l h k =
    ap red_finalizar_suma (omega (arith, red_suma_lem l 0 h (omega (arith, k))))

-- A block of at most 65535 bytes checks to 0 exactly when their words sum to a positive multiple of 65535.
pub checksum_cero :
    (l : List ℕ)
    → Bytes l
    → length l ≤ 65535
    → red_checksum l ≡ 0 ↔ (palabras l % 65535 ≡ 0) × (0 < palabras l)
checksum_cero l h k =
    let v = palabras-lt l h in
    rw (red_checksum-palabras l h k) (
      finalizar_solo_cero (palabras l) (omega (arith, v, k)),
      λ q. finalizar_cero (palabras l) (omega (arith, v, k)) q.0 q.1,
    )

-- A prefix of whole words.
abbrev pub Par : List ℕ → Type 0
Par [] = Unit {0}
Par (a ∷ []) = ⊥
Par (a ∷ b ∷ l) = Par l

pub palabras-append : (l m : List ℕ) → Par l → palabras (l ++ m) ≡ palabras l + palabras m
palabras-append [] m h = omega arith
palabras-append (a ∷ []) m h = absurd h
palabras-append (a ∷ b ∷ l) m h = omega (arith, palabras-append l m h)

pub Bytes-append : (l m : List ℕ) → Bytes l → Bytes m → Bytes (l ++ m)
Bytes-append [] m h k = k
Bytes-append (a ∷ l) m h k = (h.0, Bytes-append l m h.1 k)

pub finalizar-lt : (s : ℕ) → red_finalizar_suma s ≤ 65535
unfolding red_finalizar_suma
finalizar-lt s = omega arith

-- The complement of a sum fills it up to a positive multiple of 65535.
pub finalizar-completa :
    (s : ℕ) → s < 2 ^ 32 → ((s + red_finalizar_suma s) % 65535 ≡ 0) × (0 < s + red_finalizar_suma s)
unfolding red_finalizar_suma
finalizar-completa s h =
    let b = plegar_basta s h in
    (
      omega (arith, b.0, b.1),
      elim (ℕ_discrete (plegar 3 s) 0) [
        | yes e ↦ omega (arith, e)
        | no n ↦ elim (ℕ_discrete s 0) [
          | yes z ↦ absurd (n (ap (plegar 3) z ∙ plegar-nada))
          | no m ↦ omega (arith, m)
        ]
      ],
    )

-- A header whose checksum field was zero when its checksum was computed checks to 0 once the checksum is in the field,
-- the high byte first, if the field starts a word and the block has at most 65535 bytes.
pub checksum-verifica :
    (antes resto : List ℕ)
    → Par antes
    → Bytes antes
    → Bytes resto
    → length (antes ++ 0 ∷ 0 ∷ resto) ≤ 65535
    → let c = red_checksum (antes ++ 0 ∷ 0 ∷ resto) in
      red_checksum (antes ++ c / 256 ∷ c % 256 ∷ resto) ≡ 0
checksum-verifica antes resto par h k n =
    let vacio = antes ++ 0 ∷ 0 ∷ resto in
    let vacio-Bytes : Bytes vacio =
      Bytes-append antes (0 ∷ 0 ∷ resto) h (omega arith, (omega arith, k)) in
    let c = red_checksum vacio in
    let lleno = antes ++ c / 256 ∷ c % 256 ∷ resto in
    let e : c ≡ red_finalizar_suma (palabras vacio) = red_checksum-palabras vacio vacio-Bytes n in
    let c_cabe : c ≤ 65535 = omega (arith, e, finalizar-lt (palabras vacio)) in
    let lleno-Bytes : Bytes lleno =
      Bytes-append antes (c / 256 ∷ c % 256 ∷ resto) h (omega (arith, c_cabe), (omega arith, k)) in
    let largo : length lleno ≤ 65535 = omega (
      arith,
      n,
      length-append antes (0 ∷ 0 ∷ resto),
      length-append antes (c / 256 ∷ c % 256 ∷ resto),
    ) in
    let suma : palabras lleno ≡ palabras vacio + c = omega (
      arith,
      palabras-append antes (0 ∷ 0 ∷ resto) par,
      palabras-append antes (c / 256 ∷ c % 256 ∷ resto) par,
    ) in
    let q = finalizar-completa (palabras vacio) (omega (arith, palabras-lt vacio vacio-Bytes, n)) in
    (checksum_cero lleno lleno-Bytes largo).1
      (omega (arith, suma, e, q.0), omega (arith, suma, e, q.1))
