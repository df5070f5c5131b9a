-- ===== src/H264/Acuerdo.antt =====
-- h264_mas_rbsp and h264_fin_rbsp of nucleo/controladores/multimedia/h264/bits.c against each other.
use native.Mathlib.Decide.{ℕ_discrete as dec_eq}
use taek_os.Prelude.{
  ℕ, suc, ◌+◌, ◌-◌, ◌*◌, ◌%◌, ◌≤◌, ◌<◌, ◌≡◌, refl, sym, ap, ◌∙◌, Bool, true, false, not, ◌&&◌, ◌||◌,
  ◌==◌, ltb, leb, si, Bool-cases, inl, inr, arith,
}
use taek_os.H264.Defs.{H264Bits, bit_en, max_bytes, con_error, h264_bits_leer}
use taek_os.H264.Leer.{Alcanza, avanzado}
use taek_os.H264.Final.{
  hay_otro, h264_mas_rbsp, con_bit, alinear, h264_fin_rbsp, alinear_error, debido, otro_no, otro_si,
  leer-con_bit, leer-con_error, alinear-Alinea,
}

mas_muchos : (b : H264Bits) → Alcanza b 1 → b.posicion + 8 < b.bytes * 8 → h264_mas_rbsp b ≡ true
unfolding h264_mas_rbsp
mas_muchos b h k =
    si (λ x. x ≡ true) (b.error || ltb max_bytes b.bytes || leb (b.bytes * 8) b.posicion) _ _
      (λ e. absurd (ground (arith, e, h.sano, h.bytes_bien, h.alcanza)))
      (λ e.
        si (λ x. x ≡ true) (ltb 8 (b.bytes * 8 - b.posicion)) _ _ (λ g. refl)
          (λ g. absurd (ground (arith, g, k))))

mas_pocos :
    (b : H264Bits) (n : ℕ)
    → Alcanza b 1
    → b.posicion + n ≡ b.bytes * 8
    → n ≤ 8
    → h264_mas_rbsp b ≡ hay_otro b.datos b.posicion n b.posicion
unfolding h264_mas_rbsp
mas_pocos b n h k l =
    si (λ x. x ≡ hay_otro b.datos b.posicion n b.posicion)
      (b.error || ltb max_bytes b.bytes || leb (b.bytes * 8) b.posicion) _ _
      (λ e. absurd (ground (arith, e, h.sano, h.bytes_bien, h.alcanza)))
      (λ e.
        si (λ x. x ≡ hay_otro b.datos b.posicion n b.posicion) (ltb 8 (b.bytes * 8 - b.posicion)) _
          _ (λ g. absurd (ground (arith, g, k, l)))
          (λ g. ap (λ m. hay_otro b.datos b.posicion m b.posicion) (omega (arith, k))))

-- Data is left when the bits up to the whole byte say so, or when bytes come after it.
mas_segun :
    (b : H264Bits) (k : ℕ) (x : Bool)
    → Alcanza b 1
    → (b.posicion + 1 + k) % 8 ≡ 0
    → k < 8
    → hay_otro b.datos b.posicion (suc k) b.posicion ≡ x
    → h264_mas_rbsp b ≡ (not (b.posicion + 1 + k == b.bytes * 8) || x)
mas_segun b k x h e l g = elim (dec_eq (b.posicion + 1 + k) (b.bytes * 8)) [
  | yes y ↦
      mas_pocos b (suc k) h (omega (arith, y)) (omega (arith, l))
      ∙ (g ∙ sym (fuera (b.posicion + 1 + k) (b.bytes * 8) y))
  | no n ↦
      mas_muchos b h (omega (arith, n, e, l, h.alcanza))
      ∙ sym (dentro (b.posicion + 1 + k) (b.bytes * 8) n)
]
  where
    fuera : (i j : ℕ) → i ≡ j → (not (i == j) || x) ≡ x
    fuera i j y = ap (λ z. not z || x) (es i j y)
      where
        es : (i j : ℕ) → i ≡ j → (i == j) ≡ true
        es i j y = ground (arith, y)

    dentro : (i j : ℕ) → (i ≡ j → ⊥) → (not (i == j) || x) ≡ true
    dentro i j n = ap (λ z. not z || x) (no_es i j n)
      where
        no_es : (i j : ℕ) → (i ≡ j → ⊥) → (i == j) ≡ false
        no_es i j n = ground (arith, n)

-- What the result says of a reader that the loop leaves.
abbrev acaba : H264Bits → Bool
acaba c = not c.error && c.posicion == c.bytes * 8

acaba_error : (c : H264Bits) → c.error ≡ true → acaba c ≡ false
acaba_error c h = ap (λ e. not e && c.posicion == c.bytes * 8) h

acaba_bien :
    (b c : H264Bits) (k : ℕ)
    → b.error ≡ false
    → c ≡ avanzado (avanzado b 1) k
    → acaba c ≡ (b.posicion + 1 + k == b.bytes * 8)
acaba_bien b c k h e = ap acaba e ∙ ap (λ x. not x && b.posicion + 1 + k == b.bytes * 8) h

no_segun : (z x : Bool) → (z && not x) ≡ not (not z || x)
no_segun true x = refl
no_segun false x = refl

-- The end of a payload succeeds when the bits up to the whole byte are trailing bits and nothing comes after it.
fin_segun :
    (b : H264Bits) (k : ℕ)
    → Alcanza b 1
    → (b.posicion + 1 + k) % 8 ≡ 0
    → k < 8
    → (h264_fin_rbsp b).0 ≡ (
        (b.posicion + 1 + k == b.bytes * 8) && not (hay_otro b.datos b.posicion (suc k) b.posicion))
unfolding h264_fin_rbsp
fin_segun b k h e l = elim (dec_eq (bit_en b.datos b.posicion) 1) [
  | yes y ↦
      let r =
        alinear-Alinea k 7 b.posicion (avanzado b 1) (queda b k h e l) e l (omega (arith, l))
          (omega arith) in
      let q = ap (alinear 7) (leer-con_bit b 0 1 h y) in
      let o = otro_no b.datos b.posicion k b.posicion 1 (debido_en b.posicion) y in
      elim (Bool-cases (hay_otro b.datos b.posicion k (b.posicion + 1))) [
        | inl t ↦
            acaba_error (alinear 7 (con_bit 1 (h264_bits_leer b 1)))
              (ap (λ (x : H264Bits). x.error) q ∙ r.mal t)
            ∙ sym (falso _ _ (o ∙ t))
        | inr t ↦
            acaba_bien b (alinear 7 (con_bit 1 (h264_bits_leer b 1))) k h.sano (q ∙ r.bien t)
            ∙ sym (cierto _ _ (o ∙ t))
      ]
  | no z ↦
      acaba_error (alinear 7 (con_bit 1 (h264_bits_leer b 1))) (
        ap (λ (x : H264Bits). x.error)
          (ap (alinear 7) (leer-con_error b 0 1 h z)
            ∙ alinear_error 7 (con_error (avanzado b 1)) refl))
      ∙ sym
          (falso _ _ (otro_si b.datos b.posicion k b.posicion (λ g. z (g ∙ debido_en b.posicion))))
]
  where
    queda :
        (b : H264Bits) (k : ℕ)
        → Alcanza b 1
        → (b.posicion + 1 + k) % 8 ≡ 0
        → k < 8
        → Alcanza (avanzado b 1) k
    queda b k h e l = record {
      sano = h.sano;
      bytes_bien = h.bytes_bien;
      alcanza = omega (arith, h.alcanza, e, l);
    }

    debido_en : (p : ℕ) → debido p p ≡ 1
    debido_en p = si (λ x. x ≡ 1) (p == p) _ _ (λ e. refl) (λ e. absurd (ground (arith, e)))

    falso : (z x : Bool) → x ≡ true → (z && not x) ≡ false
    falso true x h = ap not h
    falso false x h = refl

    cierto : (z x : Bool) → x ≡ false → (z && not x) ≡ z
    cierto true x h = ap not h
    cierto false x h = refl

-- Of a reader with no error that has a bit left, in a buffer of no more bytes than a position takes: h264_fin_rbsp
-- succeeds when h264_mas_rbsp says that no data is left, and fails when it says that there is.
pub fin_rbsp-mas_rbsp : (b : H264Bits) → Alcanza b 1 → (h264_fin_rbsp b).0 ≡ not (h264_mas_rbsp b)
fin_rbsp-mas_rbsp b h =
    let k = (7 - b.posicion % 8) in
    let x = hay_otro b.datos b.posicion (suc k) b.posicion in
    fin_segun b k h (omega arith) (omega arith)
    ∙ (no_segun (b.posicion + 1 + k == b.bytes * 8) x
        ∙ ap not (sym (mas_segun b k x h (omega arith) (omega arith) refl)))
