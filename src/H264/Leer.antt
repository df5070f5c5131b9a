-- ===== src/H264/Leer.antt =====
-- The bit reader of nucleo/controladores/multimedia/h264/bits.c stays in its buffer, and reads what is there.
use native.Mathlib.Nat.{pow-suc, pow-le-pow_right}
use taek_os.Prelude.{
  ℕ, zero, suc, ◌+◌, ◌-◌, ◌*◌, ◌%◌, ◌^◌, ◌≤◌, ◌<◌, ◌≡◌, refl, sym, ap, subst, ap₂, ltb, ◌⊎◌, inl,
  inr, Bool-cases, ◌∙◌, List, [], ◌∷◌, length, arith, true, false,
}
use taek_os.H264.Defs.{
  H264Bits, bit_en, max_bytes, con_error, leer_bits, no_cabe, h264_bits_leer, contar_ceros, h264_ue,
}

-- The bits `l` stand at position `p`.
abbrev pub Contiene : List ℕ → ℕ → List ℕ → Type 0
Contiene datos p [] = Unit {0}
Contiene datos p (x ∷ l) = (bit_en datos p ≡ x) × Contiene datos (p + 1) l

-- The number that bits make, the highest first, after `v`.
abbrev pub valor : ℕ → List ℕ → ℕ
valor v [] = v
valor v (x ∷ l) = valor (v * 2 + x) l

-- A reader that can still read `n` bits.
pub record Alcanza (b : H264Bits) (n : ℕ) : Type 0 where
  pub sano : b.error ≡ false
  pub bytes_bien : b.bytes ≤ max_bytes
  pub alcanza : b.posicion + n ≤ b.bytes * 8

abbrev pub avanzado : H264Bits → ℕ → H264Bits
avanzado b n = record b { posicion = b.posicion + n }

pub bit_en-lt : (l : List ℕ) (i : ℕ) → bit_en l i < 2
unfolding bit_en
bit_en-lt l i = omega arith

leer_bits_lem :
    (l : List ℕ) (b : H264Bits) (v k : ℕ)
    → Contiene b.datos b.posicion l
    → v < 2 ^ k
    → k + length l ≤ 32
    → leer_bits (length l) b v ≡ (valor v l, avanzado b (length l))
unfolding leer_bits
leer_bits_lem [] b v k h w n = ap (λ (p : ℕ). (v, record b { posicion = p })) (omega arith)
leer_bits_lem (x ∷ l) b v k h w n =
    let p : 2 ^ suc k ≡ 2 ^ k * 2 = omega (arith, pow-suc 2 k) in
    let cota : v * 2 + x < 2 ^ suc k = omega (arith, w, p, h.0, bit_en-lt b.datos b.posicion) in
    let cabe : suc k ≤ 32 = omega (arith, n) in
    let tope : 2 ^ suc k ≤ 2 ^ 32 = pow-le-pow_right {n = 2} (omega arith) cabe in
    let paso : (v * 2 % 2 ^ 32 + bit_en b.datos b.posicion) % 2 ^ 32 ≡ v * 2 + x =
      omega (arith, h.0, cota, tope) in
    ap (leer_bits (length l) (avanzado b 1)) paso
    ∙ leer_bits_lem l (avanzado b 1) (v * 2 + x) (suc k) h.1 cota (omega (arith, n))
    ∙ ap (λ (q : ℕ). (valor (v * 2 + x) l, record b { posicion = q })) (omega arith)

no_cabe-false : (b : H264Bits) (n : ℕ) → Alcanza b n → n ≤ 32 → no_cabe b n ≡ false
no_cabe-false b n h k = ground (arith, h.sano, h.bytes_bien, h.alcanza)

-- A read of at most 32 bits that are in the buffer of a reader with no error returns the number they make and moves
-- past them.
pub leer-Contiene :
    (b : H264Bits) (l : List ℕ)
    → Alcanza b (length l)
    → Contiene b.datos b.posicion l
    → length l ≤ 32
    → h264_bits_leer b (length l) ≡ (valor 0 l, avanzado b (length l))
unfolding h264_bits_leer
leer-Contiene b l h k n =
    rw (no_cabe-false b (length l) h n) (leer_bits_lem l b 0 0 k (omega arith) (omega (arith, n)))

-- `k` zeros and a one, before `m`.
abbrev pub prefijo : ℕ → List ℕ → List ℕ
prefijo zero m = 1 ∷ m
prefijo (suc k) m = 0 ∷ prefijo k m

Contiene-prefijo :
    (k : ℕ) (m d : List ℕ) (p : ℕ) → Contiene d p (prefijo k m) → Contiene d (p + (k + 1)) m
Contiene-prefijo zero m d p h = h.1
Contiene-prefijo (suc k) m d p h =
    subst (λ (q : ℕ). Contiene d q m) (omega arith) (Contiene-prefijo k m d (p + 1) h.1)

pub avanzado-Alcanza : (b : H264Bits) (i n : ℕ) → Alcanza b (i + n) → Alcanza (avanzado b i) n
avanzado-Alcanza b i n h = record {
  sano = h.sano;
  bytes_bien = h.bytes_bien;
  alcanza = omega (arith, h.alcanza);
}

pub leer_uno :
    (b : H264Bits) (n x : ℕ)
    → Alcanza b (suc n)
    → bit_en b.datos b.posicion ≡ x
    → h264_bits_leer b 1 ≡ (x, avanzado b 1)
leer_uno b n x h e =
    leer-Contiene b (x ∷ [])
      (record { sano = h.sano; bytes_bien = h.bytes_bien; alcanza = omega (arith, h.alcanza) })
      (e, tt) (omega arith)
    ∙ ap (λ (v : ℕ). (v, avanzado b 1)) (omega arith)

-- One round of the loop: it ends at a one, and goes on after a zero.
contar-uno :
    (f c : ℕ) (b d : H264Bits)
    → b.error ≡ false
    → h264_bits_leer b 1 ≡ (1, d)
    → contar_ceros (suc f) c b ≡ (c, d)
unfolding contar_ceros
contar-uno f c b d h e = rw e (rw h refl)

contar-cero :
    (f c : ℕ) (b d : H264Bits)
    → b.error ≡ false
    → h264_bits_leer b 1 ≡ (0, d)
    → c < 31
    → contar_ceros (suc f) c b ≡ contar_ceros f (c + 1) d
unfolding contar_ceros
contar-cero f c b d h e n =
    let t : ltb 31 (c + 1) ≡ false = ground (arith, n) in rw e (rw h (rw t refl))

contar_ceros_lem :
    (k f c : ℕ) (b : H264Bits) (m : List ℕ)
    → Alcanza b (k + 1)
    → Contiene b.datos b.posicion (prefijo k m)
    → k < f
    → c + k ≤ 31
    → contar_ceros f c b ≡ (c + k, avanzado b (k + 1))
contar_ceros_lem k zero c b m h e n t = absurd (omega (arith, n))
contar_ceros_lem zero (suc f) c b m h e n t =
    let a : Alcanza b 1 = record {
      sano = h.sano;
      bytes_bien = h.bytes_bien;
      alcanza = omega (arith, h.alcanza);
    } in
    contar-uno f c b (avanzado b 1) h.sano (leer_uno b 0 1 a e.0)
    ∙ ap (λ (q : ℕ × ℕ). (q.0, record b { posicion = q.1 }))
        (ap₂ (λ (x y : ℕ). (x, y)) (omega arith) (omega arith))
contar_ceros_lem (suc k) (suc f) c b m h e n t =
    let a : Alcanza b (suc k) = record {
      sano = h.sano;
      bytes_bien = h.bytes_bien;
      alcanza = omega (arith, h.alcanza);
    } in
    let resto : Alcanza b (1 + (k + 1)) = record {
      sano = h.sano;
      bytes_bien = h.bytes_bien;
      alcanza = omega (arith, h.alcanza);
    } in
    contar-cero f c b (avanzado b 1) h.sano (leer_uno b k 0 a e.0) (omega (arith, t))
    ∙ contar_ceros_lem k f (c + 1) (avanzado b 1) m (avanzado-Alcanza b 1 (k + 1) resto) e.1
        (omega (arith, n)) (omega (arith, t))
    ∙ ap (λ (q : ℕ × ℕ). (q.0, record b { posicion = q.1 }))
        (ap₂ (λ (x y : ℕ). (x, y)) (omega arith) (omega arith))

valor-lt : (l d : List ℕ) (p v k : ℕ) → Contiene d p l → v < 2 ^ k → valor v l < 2 ^ (k + length l)
valor-lt [] d p v k h w = subst (λ (j : ℕ). v < 2 ^ j) (omega arith) w
valor-lt (x ∷ l) d p v k h w =
    let e : 2 ^ suc k ≡ 2 ^ k * 2 = omega (arith, pow-suc 2 k) in
    let cota : v * 2 + x < 2 ^ suc k = omega (arith, w, e, h.0, bit_en-lt d p) in
    subst (λ (j : ℕ). valor (v * 2 + x) l < 2 ^ j) (omega arith)
      (valor-lt l d (p + 1) (v * 2 + x) (suc k) h.1 cota)

ue_pasos :
    (b c d : H264Bits) (k v : ℕ)
    → contar_ceros 32 0 b ≡ (k, c)
    → h264_bits_leer c k ≡ (v, d)
    → c.error ≡ false
    → 2 ^ k - 1 + v < 2 ^ 32
    → h264_ue b ≡ (2 ^ k - 1 + v, d)
unfolding h264_ue
ue_pasos b c d k v e f h n =
    let cabe : (2 ^ k - 1 + v) % 2 ^ 32 ≡ 2 ^ k - 1 + v = omega (arith, n) in
    rw e (rw f (rw h (ap (λ (x : ℕ). (x, d)) cabe)))

-- A code of `k` zeros, a one and `k` bits, in the buffer of a reader with no error, is read as 2^k - 1 plus the number
-- that the last bits make, and the reader moves past it, if `k` is at most 31.
pub ue-Contiene :
    (b : H264Bits) (k : ℕ) (m : List ℕ)
    → Alcanza b (k + 1 + k)
    → Contiene b.datos b.posicion (prefijo k m)
    → length m ≡ k
    → k ≤ 31
    → h264_ue b ≡ (2 ^ k - 1 + valor 0 m, avanzado b (k + 1 + k))
ue-Contiene b k m h e n t =
    let a : Alcanza b (k + 1) = record {
      sano = h.sano;
      bytes_bien = h.bytes_bien;
      alcanza = omega (arith, h.alcanza);
    } in
    let c = avanzado b (k + 1) in
    let ceros : contar_ceros 32 0 b ≡ (k, c) =
      contar_ceros_lem k 32 0 b m a e (omega (arith, t)) (omega (arith, t))
      ∙ ap (λ (j : ℕ). (j, c)) (omega arith) in
    let resto : Contiene c.datos c.posicion m = Contiene-prefijo k m b.datos b.posicion e in
    let leido : h264_bits_leer c k ≡ (valor 0 m, avanzado c k) =
      subst (λ (j : ℕ). h264_bits_leer c j ≡ (valor 0 m, avanzado c j)) n
        (leer-Contiene c m (subst (Alcanza c) (sym n) (avanzado-Alcanza b (k + 1) k h)) resto
          (omega (arith, n, t))) in
    let cota : valor 0 m < 2 ^ k =
      subst (λ (j : ℕ). valor 0 m < 2 ^ j) (omega (arith, n))
        (valor-lt m b.datos c.posicion 0 0 resto (omega arith)) in
    let tope : 2 ^ k ≤ 2 ^ 31 = pow-le-pow_right {n = 2} (omega arith) t in
    ue_pasos b c (avanzado c k) k (valor 0 m) ceros leido h.sano (omega (arith, cota, tope))
    ∙ ap (λ (p : ℕ). (2 ^ k - 1 + valor 0 m, record b { posicion = p })) (omega arith)

-- The bits that stand at a position.
bits_desde : List ℕ → ℕ → ℕ → List ℕ
bits_desde d p zero = []
bits_desde d p (suc n) = bit_en d p ∷ bits_desde d (p + 1) n

bits_desde-Contiene :
    (d : List ℕ) (p n : ℕ) → Contiene d p (bits_desde d p n) × (length (bits_desde d p n) ≡ n)
unfolding bits_desde
bits_desde-Contiene d p zero = (tt, refl)
bits_desde-Contiene d p (suc n) =
    let h = bits_desde-Contiene d (p + 1) n in ((refl, h.0), ap suc h.1)

leer-no_cabe : (b : H264Bits) (n : ℕ) → no_cabe b n ≡ true → h264_bits_leer b n ≡ (0, con_error b)
unfolding h264_bits_leer
leer-no_cabe b n h = rw h refl

no_cabe-Alcanza : (b : H264Bits) (n : ℕ) → no_cabe b n ≡ false → Alcanza b n × (n ≤ 32)
no_cabe-Alcanza b n h = (
  record { sano = ground (arith, h); bytes_bien = ground (arith, h); alcanza = ground (arith, h) },
  ground (arith, h),
)

-- A read of any number of bits either fails, and then it returns 0 and moves nowhere but sets the error, or the bits
-- are in the buffer, at most 32, and it returns a number of that many bits and moves past them.
pub leer-Alcanza :
    (b : H264Bits) (n : ℕ)
    → (h264_bits_leer b n ≡ (0, con_error b))
      ⊎ (Alcanza b n
          × (n ≤ 32)
          × ((h264_bits_leer b n).0 < 2 ^ n)
          × ((h264_bits_leer b n).1 ≡ avanzado b n))
leer-Alcanza b n = elim (Bool-cases (no_cabe b n)) [
  | inl e ↦ inl (leer-no_cabe b n e)
  | inr e ↦
      let a = no_cabe-Alcanza b n e in
      let q = bits_desde-Contiene b.datos b.posicion n in
      let l = bits_desde b.datos b.posicion n in
      let leido : h264_bits_leer b n ≡ (valor 0 l, avanzado b n) =
        subst (λ (j : ℕ). h264_bits_leer b j ≡ (valor 0 l, avanzado b j)) q.1
          (leer-Contiene b l (subst (Alcanza b) (sym q.1) a.0) q.0 (omega (arith, q.1, a.1))) in
      let cota : valor 0 l < 2 ^ n =
        subst (λ (j : ℕ). valor 0 l < 2 ^ j) (omega (arith, q.1))
          (valor-lt l b.datos b.posicion 0 0 q.0 (omega arith)) in
      inr (a.0, a.1, rw leido cota, ap (λ (r : ℕ × H264Bits). r.1) leido)
]
