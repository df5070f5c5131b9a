-- ===== src/Mp4/Cuenta.antt =====
-- The samples of a track chunk by chunk, against the count of the rules in mp4.c.
use native.Mathlib.Decide.{ℕ_discrete as dec_eq}
use native.Mathlib.Nat.{mul-le-mul, suc-mul}
use taek_os.Prelude.{
  ℕ, zero, suc, ◌+◌, ◌-◌, ◌*◌, ◌%◌, ◌^◌, ◌≤◌, ◌<◌, true, Option, none, some, List, ◌≡◌, refl, sym,
  ap, ◌∙◌, subst, ltb, si, arith,
}
use taek_os.Mp4.Vista.{Vista, be32}
use taek_os.Mp4.Pista.{
  Pista, primero_de, por_fragmento, siguiente_de, regla_mala, cuenta_con, contar_reglas, igual,
  reglas_bien,
}
use taek_os.Mp4.Cursor.{avanzar_regla}
use taek_os.Mp4.Reparto.{
  son_bytes, be32-lt, ReglaIsValida, valida, Validas, De, avanzar_regla-De, S-suc, S_ultima,
}

-- How many samples chunk `c` has, and the chunks before it.
abbrev pub en_fragmento : List ℕ → Vista → ℕ → ℕ
en_fragmento s stsc c = por_fragmento s stsc (avanzar_regla s stsc (be32 s (stsc.p + 4)) 0 c)

unfoldable pub hasta : List ℕ → Vista → ℕ → ℕ
hasta s stsc zero = 0
hasta s stsc (suc c) = hasta s stsc c + en_fragmento s stsc c

nada_cuenta : (A : Type 0) (m : ℕ) → none ≡ some m → A
nada_cuenta A m h = cc

-- The rules of a count that ends well are valid.
contar-Validas :
    (s : List ℕ) (stsc : Vista) (chunks n muestras k i cuenta m : ℕ)
    → contar_reglas s stsc chunks n muestras k i cuenta ≡ some m
    → (j : ℕ) → i ≤ j
    → j < i + k
    → ReglaIsValida s stsc chunks n j
unfolding contar_reglas
contar-Validas s stsc chunks n muestras zero i cuenta m h j a b = absurd (omega (arith, a, b))
contar-Validas s stsc chunks n muestras (suc k) i cuenta m h j a b =
    si (λ x. x ≡ some m → ReglaIsValida s stsc chunks n j) (regla_mala s stsc chunks n i) _ _
      (λ e g. nada_cuenta _ m g)
      (λ e.
        si (λ x. x ≡ some m → ReglaIsValida s stsc chunks n j)
          (ltb muestras (cuenta_con s stsc chunks n i cuenta)) _ _ (λ f g. nada_cuenta _ m g)
          (λ f g. elim (dec_eq i j) [
            | yes y ↦ subst (ReglaIsValida s stsc chunks n) y (valida s stsc chunks n i e)
            | no z ↦
                contar-Validas s stsc chunks n muestras k (i + 1)
                  (cuenta_con s stsc chunks n i cuenta) m g j (omega (arith, a, z))
                  (omega (arith, b))
          ]))
      h

-- A product of words and a word more fit 64 bits.
cabe : (x y z : ℕ) → x < 2 ^ 32 → y < 2 ^ 32 → z < 2 ^ 32 → (z + x * y) % 2 ^ 64 ≡ z + x * y
cabe x y z h k l =
    let p : x * y ≤ (2 ^ 32 - 1) * (2 ^ 32 - 1) = mul-le-mul (menos x h) (menos y k) in
    omega (arith, p, l)
  where
    menos : (x : ℕ) → x < 2 ^ 32 → x ≤ 2 ^ 32 - 1
    menos x h = omega (arith, h)

module _ (s : List ℕ) (stsc : Vista) (chunks : ℕ) (acotados : chunks < 2 ^ 32)
    (v : Validas s stsc chunks acotados) where
  pub en_fragmento-De :
      (i c : ℕ) → De s stsc chunks acotados i c → en_fragmento s stsc c ≡ por_fragmento s stsc i
  en_fragmento-De i c d = ap (por_fragmento s stsc) (
      avanzar_regla-De s stsc chunks acotados v (be32 s (stsc.p + 4)) 0 i c d (omega arith)
        (omega (arith, d.0)))

  -- `d` chunks of one rule.
  hasta_bloque :
      (i a d : ℕ)
      → i < be32 s (stsc.p + 4)
      → primero_de s stsc i ≤ a + 1
      → a + d + 1 ≤ siguiente_de s stsc chunks (be32 s (stsc.p + 4)) i
      → hasta s stsc (a + d) ≡ hasta s stsc a + d * por_fragmento s stsc i
  unfolding hasta
  hasta_bloque i a zero h k l = ap (hasta s stsc) (nada a) ∙ omega arith
    where
      nada : (a : ℕ) → a + 0 ≡ a
      nada a = omega arith
  hasta_bloque i a (suc d) h k l =
      ap (hasta s stsc) (corre a d)
      ∙ (ap (λ x. x + en_fragmento s stsc (a + d)) (hasta_bloque i a d h k (omega (arith, l)))
          ∙ (ap (λ x. hasta s stsc a + d * por_fragmento s stsc i + x)
                (en_fragmento-De i (a + d) (h, omega (arith, k), omega (arith, l)))
              ∙ suma (hasta s stsc a) d (por_fragmento s stsc i)))
    where
      corre : (a d : ℕ) → a + suc d ≡ suc (a + d)
      corre a d = omega arith

      suma : (x d y : ℕ) → x + d * y + y ≡ x + suc d * y
      suma x d y = omega (arith, suc-mul d y)

  module _ (bytes : son_bytes s ≡ true) (muestras : ℕ) (pocas : muestras < 2 ^ 32) where
    -- A rule that is valid counts the samples of its chunks.
    cuenta-hasta :
        (i cuenta : ℕ)
        → i < be32 s (stsc.p + 4)
        → cuenta ≡ hasta s stsc (primero_de s stsc i - 1)
        → cuenta ≤ muestras
        → cuenta_con s stsc chunks (be32 s (stsc.p + 4)) i cuenta
          ≡ hasta s stsc (siguiente_de s stsc chunks (be32 s (stsc.p + 4)) i - 1)
    cuenta-hasta i cuenta h e l =
        let r = v i h in
        let P = primero_de s stsc i in
        let S = siguiente_de s stsc chunks (be32 s (stsc.p + 4)) i in
        cabe (S - P) (por_fragmento s stsc i) cuenta
          (omega (arith, r.positivo, r.sube, r.cabe, acotados))
          (be32-lt s (stsc.p + 8 + i * 12 + 4) bytes) (omega (arith, l, pocas))
        ∙ (ap (λ x. x + (S - P) * por_fragmento s stsc i) e
            ∙ (sym (
                  hasta_bloque i (P - 1) (S - P) h (omega arith)
                    (omega (arith, r.positivo, r.sube)))
                ∙ ap (hasta s stsc) (junta P S r.positivo r.sube)))
      where
        junta : (P S : ℕ) → 0 < P → P < S → P - 1 + (S - P) ≡ S - 1
        junta P S h k = omega (arith, h, k)

    abbrev con : ℕ → ℕ → ℕ
    con i cuenta = cuenta_con s stsc chunks (be32 s (stsc.p + 4)) i cuenta

    abbrev desde : ℕ → ℕ → ℕ → Option ℕ
    desde k i cuenta = contar_reglas s stsc chunks (be32 s (stsc.p + 4)) muestras k i cuenta

    -- A count that ends well goes on after its first rule.
    sigue_cuenta :
        (k i cuenta m : ℕ)
        → desde (suc k) i cuenta ≡ some m
        → (con i cuenta ≤ muestras) × (desde k (i + 1) (con i cuenta) ≡ some m)
    unfolding contar_reglas
    sigue_cuenta k i cuenta m =
        si (λ x. x ≡ some m → (con i cuenta ≤ muestras) × (desde k (i + 1) (con i cuenta) ≡ some m))
          (regla_mala s stsc chunks (be32 s (stsc.p + 4)) i) _ _ (λ f g. nada_cuenta _ m g)
          (λ f.
            si
              (λ x.
                x ≡ some m → (con i cuenta ≤ muestras) × (desde k (i + 1) (con i cuenta) ≡ some m))
              (ltb muestras (con i cuenta)) _ _ (λ q g. nada_cuenta _ m g)
              (λ q g. (ground (arith, q), g)))

    -- From rule `i` on, with the samples before it counted.
    contar-hasta :
        (k i cuenta m : ℕ)
        → i + suc k ≡ be32 s (stsc.p + 4)
        → cuenta ≡ hasta s stsc (primero_de s stsc i - 1)
        → cuenta ≤ muestras
        → desde (suc k) i cuenta ≡ some m
        → m ≡ hasta s stsc chunks
    unfolding contar_reglas
    contar-hasta zero i cuenta m e h l g =
        sym (igual_some (ultima i (con i cuenta) m (sigue_cuenta 0 i cuenta m g).1))
        ∙ (cuenta-hasta i cuenta (omega (arith, e)) h l
            ∙ (ap (λ x. hasta s stsc (x - 1))
                  (S_ultima s stsc chunks acotados i (omega (arith, e))
                    (omega (arith, (v i (omega (arith, e))).sube)))
                ∙ ap (hasta s stsc) (quita chunks)))
      where
        igual_some : {x y : ℕ} → some x ≡ some y → x ≡ y
        igual_some e = cc

        quita : (x : ℕ) → x + 1 - 1 ≡ x
        quita x = omega arith

        ultima : (i c m : ℕ) → desde zero (i + 1) c ≡ some m → some c ≡ some m
        ultima i c m g = g
    contar-hasta (suc k) i cuenta m e h l g =
        let t = sigue_cuenta (suc k) i cuenta m g in
        contar-hasta k (i + 1) (con i cuenta) m (omega (arith, e))
          (cuenta-hasta i cuenta (omega (arith, e)) h l
            ∙ ap (λ x. hasta s stsc (x - 1)) (S-suc s stsc chunks acotados i (omega (arith, e))))
          t.0 t.1

-- What `reglas_bien` gives for a track with samples: valid rules, at least one of them, that share out all the samples.
pub record Reparte (s : List ℕ) (p : Pista) (acotados : be32 s (p.stco.p + 4) < 2 ^ 32)
    : Type 0 where
  pub algunas : 0 < be32 s (p.stsc.p + 4)
  pub validas : Validas s p.stsc (be32 s (p.stco.p + 4)) acotados
  pub todas : hasta s p.stsc (be32 s (p.stco.p + 4)) ≡ p.muestras

pub igual-some : (o : Option ℕ) (n : ℕ) → igual o n ≡ true → o ≡ some n
igual-some none n h = cc
igual-some (some c) n h = ap some (ground (arith, h))

reparte_desde :
    (s : List ℕ) (p : Pista) (acotados : be32 s (p.stco.p + 4) < 2 ^ 32) (k : ℕ)
    → son_bytes s ≡ true
    → p.muestras < 2 ^ 32
    → 0 < p.muestras
    → k ≡ be32 s (p.stsc.p + 4)
    → contar_reglas s p.stsc (be32 s (p.stco.p + 4)) (be32 s (p.stsc.p + 4)) p.muestras k 0 0
      ≡ some p.muestras
    → Reparte s p acotados
unfolding contar_reglas hasta
reparte_desde s p acotados zero b h l e g = absurd (vacia p.muestras l g)
  where
    vacia : (x : ℕ) → 0 < x → some 0 ≡ some x → ⊥
    vacia x h g = omega (arith, h, quita g)
      where
        quita : {x y : ℕ} → some x ≡ some y → x ≡ y
        quita e = cc
reparte_desde s p acotados (suc k) b h l e g =
    let v : Validas s p.stsc (be32 s (p.stco.p + 4)) acotados = λ j a.
      contar-Validas s p.stsc (be32 s (p.stco.p + 4)) (be32 s (p.stsc.p + 4)) p.muestras (suc k) 0 0
        p.muestras g j (omega arith) (omega (arith, a, e)) in
    record {
      algunas = omega (arith, e);
      validas = v;
      todas = sym (
          contar-hasta s p.stsc (be32 s (p.stco.p + 4)) acotados v b p.muestras h k 0 0 p.muestras
            (omega (arith, e))
            (ap (λ x. hasta s p.stsc (x - 1)) (sym ((v 0 (omega (arith, e))).uno refl)))
            (omega arith) g);
    }

-- The rules that the opening of a track accepts share out its samples.
pub reglas_bien-Reparte :
    (s : List ℕ) (p : Pista) (b : son_bytes s ≡ true)
    → p.muestras < 2 ^ 32
    → 0 < p.muestras
    → reglas_bien s p ≡ true
    → Reparte s p (be32-lt s (p.stco.p + 4) b)
unfolding reglas_bien
reglas_bien-Reparte s p b h l g =
    reparte_desde s p (be32-lt s (p.stco.p + 4) b) (be32 s (p.stsc.p + 4)) b h l refl
      (igual-some _ p.muestras g)
