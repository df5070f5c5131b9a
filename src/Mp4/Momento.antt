-- ===== src/Mp4/Momento.antt =====
-- When the samples of a track are, against the cursor of mp4.c.
use native.Mathlib.Decide.{ℕ_discrete as dec_eq}
use taek_os.Prelude.{
  ℕ, zero, suc, ◌+◌, ◌-◌, ◌*◌, ◌%◌, ◌^◌, ◌≤◌, ◌<◌, true, false, none, some, List, ◌≡◌, refl, sym,
  ap, ◌∙◌, subst, ◌==◌, si, arith,
}
use taek_os.Mp4.Vista.{be32}
use taek_os.Mp4.Pista.{Pista}
use taek_os.Mp4.Abrir.{contar, cuenta_bien}
use taek_os.Mp4.Cursor.{Cursor}
use taek_os.Mp4.Reparto.{son_bytes, be32-lt}
use taek_os.Mp4.Cuenta.{igual-some}

-- Of entry `i` of `stts`: its samples and the duration of each. Then those of the entries before it in all.
abbrev pub veces : List ℕ → Pista → ℕ → ℕ
veces s p i = be32 s (p.stts.p + 8 + i * 8)

abbrev pub dura : List ℕ → Pista → ℕ → ℕ
dura s p i = be32 s (p.stts.p + 12 + i * 8)

unfoldable pub van : List ℕ → Pista → ℕ → ℕ
van s p zero = 0
van s p (suc i) = van s p i + veces s p i

unfoldable pub tiempo_hasta : List ℕ → Pista → ℕ → ℕ
tiempo_hasta s p zero = 0
tiempo_hasta s p (suc i) = tiempo_hasta s p i + veces s p i * dura s p i

abbrev pub momento_en : List ℕ → Pista → ℕ → ℕ → ℕ
momento_en s p j k = (tiempo_hasta s p j + k * dura s p j) % 2 ^ 64

-- Sample `i` begins at `t`: after the entries before its own and the samples of its own that are before it.
pub record Momento (s : List ℕ) (p : Pista) (i t : ℕ) : Type 0 where
  pub entrada : ℕ
  pub hay : entrada < be32 s (p.stts.p + 4)
  pub desde : van s p entrada ≤ i
  pub antes : i < van s p (suc entrada)
  pub cuando : t ≡ momento_en s p entrada (i - van s p entrada)

module _ (s : List ℕ) (p : Pista) (b : son_bytes s ≡ true) where
  abbrev entradas : ℕ
  entradas = be32 s (p.stts.p + 4)

  van-le : (i : ℕ) → van s p i ≤ i * (2 ^ 32 - 1)
  unfolding van
  van-le zero = omega arith
  van-le (suc i) = omega (arith, van-le i, be32-lt s (p.stts.p + 8 + i * 8) b)

  -- A count of `k` entries from `i` on.
  contar-van :
      (k i cuenta m : ℕ)
      → i + k ≤ 2 ^ 32
      → cuenta ≡ van s p i
      → contar s p.stts k i cuenta ≡ some m
      → (m ≡ van s p (i + k)) × ((j : ℕ) → i ≤ j → j < i + k → 0 < veces s p j)
  unfolding contar van
  contar-van zero i cuenta m h e g =
      (sym (quita g) ∙ (e ∙ ap (van s p) (mas_cero i)), λ j k l. absurd (omega (arith, k, l)))
    where
      quita : {x y : ℕ} → some x ≡ some y → x ≡ y
      quita e = cc

      mas_cero : (x : ℕ) → x ≡ x + 0
      mas_cero x = omega arith
  contar-van (suc k) i cuenta m h e g =
      si
        (λ x.
          x ≡ some m
          → (m ≡ van s p (i + suc k)) × ((j : ℕ) → i ≤ j → j < i + suc k → 0 < veces s p j))
        (veces s p i == 0) _ _ (λ f q. absurd (ninguno q))
        (λ f q.
          let t =
            contar-van k (i + 1) ((cuenta + veces s p i) % 2 ^ 64) m (omega (arith, h))
              (suma i cuenta (omega (arith, h)) e) q in
          (
            t.0 ∙ ap (van s p) (corre i k),
            λ j l n. elim (dec_eq i j) [
              | yes y ↦ subst (λ x. 0 < veces s p x) y (positivo _ f)
              | no z ↦ t.1 j (omega (arith, l, z)) (omega (arith, n))
            ],
          ))
        g
    where
      corre : (i k : ℕ) → i + 1 + k ≡ i + suc k
      corre i k = omega arith

      ninguno : none ≡ some m → ⊥
      ninguno e = cc

      positivo : (x : ℕ) → (x == 0) ≡ false → 0 < x
      positivo x h = ground (arith, h)

      suma :
          (i cuenta : ℕ)
          → i + 1 ≤ 2 ^ 32
          → cuenta ≡ van s p i
          → (cuenta + veces s p i) % 2 ^ 64 ≡ van s p (i + 1)
      suma i cuenta h e = omega (arith, e, van-le (i + 1), h, uno i)
        where
          mas : (i : ℕ) → suc i ≡ i + 1
          mas i = omega arith

          uno : (i : ℕ) → van s p i + veces s p i ≡ van s p (i + 1)
          uno i = ap (van s p) (mas i)

  -- The fields of a cursor in an entry, after `k` of its samples, and of one at the beginning of an entry or the end.
  pub record Durante (indice regla restante tiempo : ℕ) : Type 0 where
    pub k : ℕ
    pub hay : regla < entradas
    pub resto : restante + k ≡ veces s p regla
    pub queda : 0 < restante
    pub lugar : indice ≡ van s p regla + k
    pub cuando : tiempo ≡ momento_en s p regla k

  pub record Nueva (indice regla restante tiempo : ℕ) : Type 0 where
    pub hay : regla ≤ entradas
    pub en_cero : restante ≡ 0
    pub lugar : indice ≡ van s p regla
    pub cuando : tiempo ≡ momento_en s p regla 0

  pub data EnHora (indice regla restante tiempo : ℕ) : Type 0 where
    durante : Durante indice regla restante tiempo → EnHora indice regla restante tiempo
    estrenada : Nueva indice regla restante tiempo → EnHora indice regla restante tiempo

  abbrev pub CursorEnHora : Cursor → Type 0
  CursorEnHora c = EnHora c.indice c.regla_tiempo c.restante_tiempo c.tiempo

  abbrev pub CursorDurante : Cursor → Type 0
  CursorDurante c = Durante c.indice c.regla_tiempo c.restante_tiempo c.tiempo

  -- The counts of `stts` make up the samples.
  pub record Cuadra : Type 0 where
    pub todas : van s p entradas ≡ p.muestras
    pub positivas : (j : ℕ) → j < entradas → 0 < veces s p j

  pub cuenta_bien-Cuadra : cuenta_bien s p.stts p.muestras ≡ true → Cuadra
  unfolding van
  cuenta_bien-Cuadra h =
      let t =
        contar-van entradas 0 0 p.muestras (omega (arith, be32-lt s (p.stts.p + 4) b)) refl
          (igual-some _ p.muestras h) in
      record {
        todas = sym (t.0 ∙ ap (van s p) cero_mas);
        positivas = λ j l. t.1 j (omega arith) (omega (arith, l));
      }
    where
      cero_mas : 0 + entradas ≡ entradas
      cero_mas = omega arith

  -- A cursor on time is when its sample begins.
  pub Durante-Momento : (c : Cursor) → CursorDurante c → Momento s p c.indice c.tiempo
  unfolding van
  Durante-Momento c h = record {
    entrada = c.regla_tiempo;
    hay = h.hay;
    desde = omega (arith, h.lugar);
    antes = omega (arith, h.lugar, h.queda, h.resto);
    cuando = h.cuando ∙ ap (momento_en s p c.regla_tiempo) (omega (arith, h.lugar));
  }

  pub entrada-Momento :
      (c : Cursor) (h : CursorDurante c) → (Durante-Momento c h).entrada ≡ c.regla_tiempo
  unfolding Durante-Momento
  entrada-Momento c h = refl
