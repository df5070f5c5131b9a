-- ===== src/H264/Final.antt =====
-- The end of a payload in the bit reader of nucleo/controladores/multimedia/h264/bits.c.
use native.Mathlib.Decide.{ℕ_discrete as dec_eq}
use taek_os.Prelude.{
  ℕ, zero, suc, ◌+◌, ◌-◌, ◌*◌, ◌%◌, ◌≤◌, ◌<◌, ◌≡◌, refl, sym, ap, ◌∙◌, Bool, true, false, not, ◌&&◌,
  ◌||◌, List, ◌==◌, ltb, leb, si, if◌then◌else◌, arith,
}
use taek_os.H264.Defs.{H264Bits, bit_en, max_bytes, con_error, h264_bits_leer}
use taek_os.H264.Leer.{Alcanza, avanzado, avanzado-Alcanza, leer_uno}

-- Of the `k` bits from `i`, is one not what trailing bits from `p` on have there?
unfoldable pub hay_otro : List ℕ → ℕ → ℕ → ℕ → Bool
hay_otro datos p zero i = false
hay_otro datos p (suc k) i =
    let resto = hay_otro datos p k (i + 1) in
    if not (bit_en datos i == (if i == p then 1 else 0)) then true else resto

unfoldable pub h264_mas_rbsp : H264Bits → Bool
h264_mas_rbsp b =
    if b.error || ltb max_bytes b.bytes || leb (b.bytes * 8) b.posicion
    then false
    else if ltb 8 (b.bytes * 8 - b.posicion)
    then true
    else hay_otro b.datos b.posicion (b.bytes * 8 - b.posicion) b.posicion

abbrev pub con_bit : ℕ → ℕ × H264Bits → H264Bits
con_bit x (v, c) = if v == x then c else con_error c

-- The loop up to a whole byte, on fuel: it ends at an error, and seven bits at most are before a whole byte.
unfoldable pub alinear : ℕ → H264Bits → H264Bits
alinear zero b = b
alinear (suc f) b =
    let otra = alinear f (con_bit 0 (h264_bits_leer b 1)) in
    if b.error || b.posicion % 8 == 0 then b else otra

unfoldable pub h264_fin_rbsp : H264Bits → Bool × H264Bits
h264_fin_rbsp b =
    let c = alinear 7 (con_bit 1 (h264_bits_leer b 1)) in
    (not c.error && c.posicion == c.bytes * 8, c)

pub alinear_error : (f : ℕ) (b : H264Bits) → b.error ≡ true → alinear f b ≡ b
unfolding alinear
alinear_error zero b h = refl
alinear_error (suc f) b h = rw h refl

alinear_entero : (f : ℕ) (b : H264Bits) → b.posicion % 8 ≡ 0 → alinear f b ≡ b
unfolding alinear
alinear_entero zero b h = refl
alinear_entero (suc f) b h =
    si (λ x. x ≡ b) (b.error || b.posicion % 8 == 0) _ _ (λ e. refl)
      (λ e. absurd (ground (arith, e, h)))

alinear_sigue :
    (f : ℕ) (b : H264Bits)
    → b.error ≡ false
    → (b.posicion % 8 ≡ 0 → ⊥)
    → alinear (suc f) b ≡ alinear f (con_bit 0 (h264_bits_leer b 1))
unfolding alinear
alinear_sigue f b h k =
    si (λ x. x ≡ alinear f (con_bit 0 (h264_bits_leer b 1))) (b.error || b.posicion % 8 == 0) _ _
      (λ e. absurd (ground (arith, e, h, k))) (λ e. refl)

-- The bit at `i` as trailing bits from `p` on have it.
abbrev pub debido : ℕ → ℕ → ℕ
debido p i = if i == p then 1 else 0

pub otro_no :
    (d : List ℕ) (p k i x : ℕ)
    → debido p i ≡ x
    → bit_en d i ≡ x
    → hay_otro d p (suc k) i ≡ hay_otro d p k (i + 1)
unfolding hay_otro
otro_no d p k i x e h =
    si (λ b. b ≡ hay_otro d p k (i + 1)) (not (bit_en d i == debido p i)) _ _
      (λ g. absurd (distinto _ _ x g h e)) (λ g. refl)
  where
    distinto : (a b x : ℕ) → not (a == b) ≡ true → a ≡ x → b ≡ x → ⊥
    distinto a b x g h e = ground (arith, g, h, e)

pub otro_si :
    (d : List ℕ) (p k i : ℕ) → (bit_en d i ≡ debido p i → ⊥) → hay_otro d p (suc k) i ≡ true
unfolding hay_otro
otro_si d p k i h =
    si (λ b. b ≡ true) (not (bit_en d i == debido p i)) _ _ (λ g. refl)
      (λ g. absurd (h (igual _ _ g)))
  where
    igual : (a b : ℕ) → not (a == b) ≡ false → a ≡ b
    igual a b g = ground (arith, g)

debido_tras : (p i : ℕ) → p < i → debido p i ≡ 0
debido_tras p i h = si (λ x. x ≡ 0) (i == p) _ _ (λ e. absurd (ground (arith, e, h))) (λ e. refl)

-- A read of one bit that has to be `x`.
pub leer-con_bit :
    (b : H264Bits) (n x : ℕ)
    → Alcanza b (suc n)
    → bit_en b.datos b.posicion ≡ x
    → con_bit x (h264_bits_leer b 1) ≡ avanzado b 1
leer-con_bit b n x h e =
    ap (con_bit x) (leer_uno b n x h e)
    ∙ si (λ y. y ≡ avanzado b 1) (x == x) _ _ (λ g. refl) (λ g. absurd (ground (arith, g)))

pub leer-con_error :
    (b : H264Bits) (n x : ℕ)
    → Alcanza b (suc n)
    → (bit_en b.datos b.posicion ≡ x → ⊥)
    → con_bit x (h264_bits_leer b 1) ≡ con_error (avanzado b 1)
leer-con_error b n x h e =
    ap (con_bit x) (leer_uno b n (bit_en b.datos b.posicion) h refl)
    ∙ si (λ y. y ≡ con_error (avanzado b 1)) (bit_en b.datos b.posicion == x) _ _
        (λ g. absurd (e (ground (arith, g)))) (λ g. refl)

-- What the loop makes of the bits before a whole byte.
pub record Alinea (b d : H264Bits) (k p : ℕ) : Type 0 where
  pub bien : hay_otro b.datos p k b.posicion ≡ false → d ≡ avanzado b k
  pub mal : hay_otro b.datos p k b.posicion ≡ true → d.error ≡ true

pub alinear-Alinea :
    (k f p : ℕ) (b : H264Bits)
    → Alcanza b k
    → (b.posicion + k) % 8 ≡ 0
    → k < 8
    → k ≤ f
    → p < b.posicion
    → Alinea b (alinear f b) k p
unfolding hay_otro
alinear-Alinea zero f p b h e l n m = record {
  bien = λ g.
      alinear_entero f b (omega (arith, e))
      ∙ ap (λ (x : ℕ). record b { posicion = x }) (omega arith);
  mal = λ g. absurd (nunca g);
}
  where
    nunca : false ≡ true → ⊥
    nunca g = cc
alinear-Alinea (suc k) zero p b h e l n m = absurd (omega (arith, n))
alinear-Alinea (suc k) (suc f) p b h e l n m =
    let paso = alinear_sigue f b h.sano (omega (arith, e, l)) in
    let cero = debido_tras p b.posicion m in
    elim (dec_eq (bit_en b.datos b.posicion) 0) [
      | yes y ↦
          let r =
            alinear-Alinea k f p (avanzado b 1) (avanzado-Alcanza b 1 k (junta b.posicion k h))
              (omega (arith, e)) (omega (arith, l)) (omega (arith, n)) (omega (arith, m)) in
          let q = paso ∙ ap (alinear f) (leer-con_bit b k 0 h y) in
          let o = otro_no b.datos p k b.posicion 0 cero y in
          record {
            bien = λ g.
                q ∙ (r.bien (sym o ∙ g) ∙ ap (λ (x : ℕ). record b { posicion = x }) (omega arith));
            mal = λ g. ap (λ (x : H264Bits). x.error) q ∙ r.mal (sym o ∙ g);
          }
      | no z ↦
          let o = otro_si b.datos p k b.posicion (λ g. z (g ∙ cero)) in
          record {
            bien = λ g. absurd (nunca (sym o ∙ g));
            mal = λ g.
                ap (λ (x : H264Bits). x.error)
                  (paso
                    ∙ (ap (alinear f) (leer-con_error b k 0 h z)
                        ∙ alinear_error f (con_error (avanzado b 1)) refl));
          }
    ]
  where
    nunca : true ≡ false → ⊥
    nunca g = cc

    junta : (q k : ℕ) → Alcanza b (suc k) → Alcanza b (1 + k)
    junta q k h = record {
      sano = h.sano;
      bytes_bien = h.bytes_bien;
      alcanza = omega (arith, h.alcanza);
    }
