-- ===== src/Utf8/Ida.antt =====
-- What the decoder of nucleo/base/utf8.c makes of a code point's encoding.
use native.Mathlib.Nat.{add-mul-mod_self_right, mod-eq_of_lt, pow-suc, mul-le-mul_right, one-le-pow}
use taek_os.Prelude.{
  ℕ, zero, suc, ◌+◌, ◌-◌, ◌*◌, ◌/◌, ◌%◌, ◌^◌, ◌≤◌, ◌<◌, ◌≡◌, refl, sym, ap, ◌∙◌, true, false, List,
  [], ◌∷◌, ◌++◌, ◌==◌, ltb, if◌then◌else◌, arith, bit_and, bit_or, Bool-cases, inl, inr, ltb→lt,
}
use taek_os.Prelude.Bits.{bit_and-ones, low, low-mod, bit_and-shift, shift-bit_or}
use taek_os.Utf8.Defs.{continuar, utf8_decodificar}

-- The encoding of RFC 3629.
unfoldable pub codificar : ℕ → List ℕ
codificar cp =
    if ltb cp 0x80
    then cp ∷ []
    else if ltb cp 0x800
    then (0xc0 + cp / 2 ^ 6) ∷ (0x80 + cp % 2 ^ 6) ∷ []
    else if ltb cp 0x10000
    then (0xe0 + cp / 2 ^ 12) ∷ (0x80 + cp / 2 ^ 6 % 2 ^ 6) ∷ (0x80 + cp % 2 ^ 6) ∷ []
    else (0xf0 + cp / 2 ^ 18)
      ∷ (0x80 + cp / 2 ^ 12 % 2 ^ 6)
      ∷ (0x80 + cp / 2 ^ 6 % 2 ^ 6)
      ∷ (0x80 + cp % 2 ^ 6)
      ∷ []

-- `b & ((1 << n) - 1)`
bajos : (n b : ℕ) → bit_and b (2 ^ n - 1) ≡ b % 2 ^ n
bajos n b =
    let (q, small, e) = low-mod n b in
    bit_and-ones n b
    ∙ sym (
        ap (λ (t : ℕ). t % 2 ^ n) e
        ∙ add-mul-mod_self_right (low n b) q (2 ^ n)
        ∙ mod-eq_of_lt small)

-- The masks of the leading bits of a byte.
mascara : (k m b : ℕ) → bit_and b ((2 ^ m - 1) * 2 ^ k) ≡ b / 2 ^ k % 2 ^ m * 2 ^ k
mascara k m b = bit_and-shift k b (2 ^ m - 1) ∙ ap (λ (t : ℕ). t * 2 ^ k) (bajos m (b / 2 ^ k))

continuar_lem :
    (n cp x : ℕ) (s : List ℕ)
    → x < 64
    → continuar n (cp, (0x80 + x) ∷ s) ≡ (bit_or cp (x * 2 ^ n), s)
unfolding continuar
continuar_lem n cp x s h =
    let e : bit_and (0x80 + x) 0xc0 ≡ 0x80 = omega (arith, h, mascara 6 2 (0x80 + x)) in
    let f : bit_and (0x80 + x) 0x3f ≡ x = omega (arith, h, bajos 6 (0x80 + x)) in rw e (rw f refl)

pow_seis : (n : ℕ) → 2 ^ (n + 6) ≡ 2 ^ n * 64
pow_seis zero = refl
pow_seis (suc n) =
    let e : 2 ^ (suc n + 6) ≡ 2 ^ suc (n + 6) = ap (λ (t : ℕ). 2 ^ t) (omega arith) in
    omega (arith, e, pow-suc 2 (n + 6), pow-suc 2 n, pow_seis n)

-- A continuation byte adds its six bits to a code point whose bits below are clear.
seguir :
    (n h x : ℕ) (s : List ℕ)
    → x < 64
    → continuar n (h * 2 ^ (n + 6), (0x80 + x) ∷ s) ≡ ((h * 64 + x) * 2 ^ n, s)
seguir n h x s k =
    let p : 2 ^ (n + 6) ≡ 2 ^ n * 64 = pow_seis n in
    let c : x * 2 ^ n ≤ 63 * 2 ^ n = mul-le-mul_right (2 ^ n) (omega (arith, k)) in
    let d : x * 2 ^ n < 2 ^ (n + 6) = omega (arith, p, c, one-le-pow n 2) in
    let q : h * 2 ^ (n + 6) + x * 2 ^ n ≡ (h * 64 + x) * 2 ^ n =
      omega (arith, ap (λ (t : ℕ). h * t) p) in
    continuar_lem n (h * 2 ^ (n + 6)) x s k
    ∙ ap (λ (t : ℕ). (t, s)) (shift-bit_or (n + 6) (x * 2 ^ n) h d ∙ q)

cerrar : (v : ℕ) (s : List ℕ) → ◌≡◌ {A = ℕ × List ℕ} (v * 2 ^ 0, s) (v, s)
cerrar v s = ap (λ (t : ℕ). (t, s)) (omega arith)

uno : (b : ℕ) (s : List ℕ) → 0 < b → b < 128 → utf8_decodificar (b ∷ s) ≡ (b, s)
unfolding utf8_decodificar
uno b s h k =
    let z : (b == 0) ≡ false = ground (arith, h) in
    let a : (bit_and b 0x80 == 0) ≡ true = ground (arith, k, mascara 7 1 b) in rw z (rw a refl)

dos :
    (h x : ℕ) (s : List ℕ)
    → h < 32
    → x < 64
    → utf8_decodificar ((0xc0 + h) ∷ (0x80 + x) ∷ s) ≡ (h * 64 + x, s)
unfolding utf8_decodificar
dos h x s m n =
    let b = 0xc0 + h in
    let z : (b == 0) ≡ false = ground arith in
    let a : (bit_and b 0x80 == 0) ≡ false = ground (arith, m, mascara 7 1 b) in
    let c : (bit_and b 0xe0 == 0xc0) ≡ true = ground (arith, m, mascara 5 3 b) in
    let v : bit_and b 0x1f ≡ h = omega (arith, m, bajos 5 b) in
    rw z (
      rw a (
        rw c (
          rw v (
            continuar_lem 0 (h * 2 ^ 6) x s n
            ∙ ap (λ (t : ℕ). (t, s))
                (ap (bit_or (h * 2 ^ 6)) (omega arith) ∙ shift-bit_or 6 x h n)))))

tres :
    (h y x : ℕ) (s : List ℕ)
    → h < 16
    → y < 64
    → x < 64
    → utf8_decodificar ((0xe0 + h) ∷ (0x80 + y) ∷ (0x80 + x) ∷ s) ≡ ((h * 64 + y) * 64 + x, s)
unfolding utf8_decodificar
tres h y x s m k n =
    let b = 0xe0 + h in
    let z : (b == 0) ≡ false = ground arith in
    let a : (bit_and b 0x80 == 0) ≡ false = ground (arith, m, mascara 7 1 b) in
    let c : (bit_and b 0xe0 == 0xc0) ≡ false = ground (arith, m, mascara 5 3 b) in
    let d : (bit_and b 0xf0 == 0xe0) ≡ true = ground (arith, m, mascara 4 4 b) in
    let v : bit_and b 0x0f ≡ h = omega (arith, m, bajos 4 b) in
    rw z (
      rw a (
        rw c (
          rw d (
            rw v (
              ap (continuar 0) (seguir 6 h y ((0x80 + x) ∷ s) k)
              ∙ seguir 0 (h * 64 + y) x s n
              ∙ cerrar ((h * 64 + y) * 64 + x) s)))))

cuatro :
    (h z y x : ℕ) (s : List ℕ)
    → h < 8
    → z < 64
    → y < 64
    → x < 64
    → utf8_decodificar ((0xf0 + h) ∷ (0x80 + z) ∷ (0x80 + y) ∷ (0x80 + x) ∷ s)
      ≡ (((h * 64 + z) * 64 + y) * 64 + x, s)
unfolding utf8_decodificar
cuatro h z y x s m j k n =
    let b = 0xf0 + h in
    let o : (b == 0) ≡ false = ground arith in
    let a : (bit_and b 0x80 == 0) ≡ false = ground (arith, m, mascara 7 1 b) in
    let c : (bit_and b 0xe0 == 0xc0) ≡ false = ground (arith, m, mascara 5 3 b) in
    let d : (bit_and b 0xf0 == 0xe0) ≡ false = ground (arith, m, mascara 4 4 b) in
    let e : (bit_and b 0xf8 == 0xf0) ≡ true = ground (arith, m, mascara 3 5 b) in
    let v : bit_and b 0x07 ≡ h = omega (arith, m, bajos 3 b) in
    rw o (
      rw a (
        rw c (
          rw d (
            rw e (
              rw v (
                ap (λ q. continuar 0 (continuar 6 q))
                  (seguir 12 h z ((0x80 + y) ∷ (0x80 + x) ∷ s) j)
                ∙ ap (continuar 0) (seguir 6 (h * 64 + z) y ((0x80 + x) ∷ s) k)
                ∙ seguir 0 ((h * 64 + z) * 64 + y) x s n
                ∙ cerrar (((h * 64 + z) * 64 + y) * 64 + x) s))))))

-- A code point other than 0 that has at most 21 bits is decoded from its encoding, whatever follows.
pub decodificar-codificar :
    (cp : ℕ) (s : List ℕ) → 0 < cp → cp < 2 ^ 21 → utf8_decodificar (codificar cp ++ s) ≡ (cp, s)
unfolding codificar
decodificar-codificar cp s h k = elim (Bool-cases (ltb cp 0x80)) [
  | inl a ↦ rw a (uno cp s h (ltb→lt cp 0x80 a))
  | inr a ↦ elim (Bool-cases (ltb cp 0x800)) [
    | inl b ↦ rw a (
        rw b (
          dos (cp / 2 ^ 6) (cp % 2 ^ 6) s (ground (arith, b)) (omega arith)
          ∙ ap (λ (t : ℕ). (t, s)) (omega arith)))
    | inr b ↦ elim (Bool-cases (ltb cp 0x10000)) [
      | inl c ↦ rw a (
          rw b (
            rw c (
              tres (cp / 2 ^ 12) (cp / 2 ^ 6 % 2 ^ 6) (cp % 2 ^ 6) s (ground (arith, c))
                (omega arith) (omega arith)
              ∙ ap (λ (t : ℕ). (t, s)) (omega arith))))
      | inr c ↦ rw a (
          rw b (
            rw c (
              cuatro (cp / 2 ^ 18) (cp / 2 ^ 12 % 2 ^ 6) (cp / 2 ^ 6 % 2 ^ 6) (cp % 2 ^ 6) s
                (omega (arith, k)) (omega arith) (omega arith) (omega arith)
              ∙ ap (λ (t : ℕ). (t, s)) (omega arith))))
    ]
  ]
]
