-- ===== src/Mp4/Horario.antt =====
-- The times of the cursor of mp4.c from one sample to the next.
use native.Mathlib.Decide.{ℕ_discrete as dec_eq}
use native.Mathlib.Nat.{suc-mul}
use taek_os.Prelude.{
  ℕ, suc, ◌+◌, ◌-◌, ◌*◌, ◌%◌, ◌^◌, ◌≤◌, ◌<◌, Bool, true, false, not, some, List, ◌≡◌, refl, sym, ap,
  ◌∙◌, ◌==◌, ltb, si, if◌then◌else◌, arith,
}
use taek_os.Mp4.Vista.{be32}
use taek_os.Mp4.Pista.{Pista}
use taek_os.Mp4.Cursor.{Cursor, cronometrar, delta_de, adelantar}
use taek_os.Mp4.Reparto.{son_bytes, be32-lt}
use taek_os.Mp4.Momento.{
  veces, dura, van, tiempo_hasta, momento_en, Durante, Nueva, EnHora, durante, estrenada,
  CursorEnHora, CursorDurante, Cuadra,
}

module _ (s : List ℕ) (p : Pista) (b : son_bytes s ≡ true) (q : Cuadra s p b) where
  entrada-lt :
      (i m : ℕ)
      → i ≤ (be32 s (p.stts.p + 4))
      → van s p i ≤ m
      → m < p.muestras
      → i < (be32 s (p.stts.p + 4))
  entrada-lt i m h l k = elim (dec_eq i (be32 s (p.stts.p + 4))) [
    | yes y ↦ absurd (omega (arith, ap (van s p) y, q.todas, l, k))
    | no n ↦ omega (arith, h, n)
  ]

  -- The next entry begins, while samples are left.
  pub Nueva-Durante :
      (i regla restante tiempo : ℕ)
      → Nueva s p b i regla restante tiempo
      → i < p.muestras
      → (regla < (be32 s (p.stts.p + 4))) × Durante s p b i regla (veces s p regla) tiempo
  Nueva-Durante i regla restante tiempo h k =
      let l = entrada-lt regla i h.hay (omega (arith, h.lugar)) k in
      (
        l,
        record {
          k = 0;
          hay = l;
          resto = omega arith;
          queda = q.positivas regla l;
          lugar = omega (arith, h.lugar);
          cuando = h.cuando;
        },
      )

  -- `cronometrar` goes to the time of the same sample and leaves its place.
  pub record Cronometrado (c d : Cursor) : Type 1 where
    pub a : cronometrar s p c ≡ some d
    pub en_hora : CursorDurante s p b d
    pub indice : d.indice ≡ c.indice
    pub deja :
        (P : ℕ → ℕ → ℕ → ℕ → ℕ → Type 0)
        → P c.indice c.fragmento c.muestra_fragmento c.regla_fragmento c.offset_muestra
        → P d.indice d.fragmento d.muestra_fragmento d.regla_fragmento d.offset_muestra

  pub cronometrar-Cronometrado :
      (c : Cursor) → CursorEnHora s p b c → c.indice < p.muestras → (d : Cursor) × Cronometrado c d
  unfolding cronometrar
  cronometrar-Cronometrado c (durante h) k = (
    c,
    record {
      a =
          si (λ x. x ≡ some c) (not (c.restante_tiempo == 0)) _ _ (λ e. refl)
            (λ e. absurd (ground (arith, e, h.queda)));
      en_hora = h;
      indice = refl;
      deja = λ P x. x;
    },
  )
  cronometrar-Cronometrado c (estrenada h) k =
      let (l, g) = Nueva-Durante c.indice c.regla_tiempo c.restante_tiempo c.tiempo h k in
      let d : Cursor = record c { restante_tiempo = veces s p c.regla_tiempo } in
      (
        d,
        record {
          a =
              si (λ x. x ≡ some d) (not (c.restante_tiempo == 0)) _ _
                (λ e. absurd (ground (arith, e, h.en_cero)))
                (λ e.
                  si (λ x. x ≡ some d) (not (ltb c.regla_tiempo (be32 s (p.stts.p + 4)))) _ _
                    (λ f. absurd (ground (arith, f, l))) (λ f. refl));
          en_hora = g;
          indice = refl;
          deja = λ P x. x;
        },
      )

  menos_uno :
      (c : Cursor) (h : CursorDurante s p b c)
      → (c.restante_tiempo + 2 ^ 32 - 1) % 2 ^ 32 ≡ c.restante_tiempo - 1
  menos_uno c h = omega (arith, h.queda, h.resto, be32-lt s (p.stts.p + 8 + c.regla_tiempo * 8) b)

  -- A duration more.
  otra : (t k d x : ℕ) → t ≡ (x + k * d) % 2 ^ 64 → (t + d) % 2 ^ 64 ≡ (x + suc k * d) % 2 ^ 64
  otra t k d x e = omega (arith, e, suc-mul k d)

  adelantar-Nueva :
      (c : Cursor)
      → p.muestras < 2 ^ 32
      → (h : CursorDurante s p b c) → c.indice < p.muestras
      → c.restante_tiempo ≡ 1
      → Nueva s p b
          ((c.indice + 1) % 2 ^ 32)
          ((c.regla_tiempo + 1) % 2 ^ 32)
          ((c.restante_tiempo + 2 ^ 32 - 1) % 2 ^ 32)
          ((c.tiempo + dura s p c.regla_tiempo) % 2 ^ 64)
  unfolding van tiempo_hasta
  adelantar-Nueva c g h l u =
      let r : (c.regla_tiempo + 1) % 2 ^ 32 ≡ suc c.regla_tiempo =
        omega (arith, h.hay, be32-lt s (p.stts.p + 4) b) in
      let v : suc h.k ≡ veces s p c.regla_tiempo = omega (arith, h.resto, u) in
      record {
        hay = omega (arith, r, h.hay);
        en_cero = menos_uno c h ∙ omega (arith, u);
        lugar = omega (arith, h.lugar, v, g, l) ∙ ap (van s p) (sym r);
        cuando =
            otra c.tiempo h.k (dura s p c.regla_tiempo) (tiempo_hasta s p c.regla_tiempo) h.cuando
            ∙ (ap (λ x. (tiempo_hasta s p c.regla_tiempo + x * dura s p c.regla_tiempo) % 2 ^ 64) v
                ∙ (mas_cero (tiempo_hasta s p (suc c.regla_tiempo)) (dura s p (suc c.regla_tiempo))
                    ∙ ap (λ x. momento_en s p x 0) (sym r)));
      }
    where
      mas_cero : (x d : ℕ) → x % 2 ^ 64 ≡ (x + 0 * d) % 2 ^ 64
      mas_cero x d = omega arith

  adelantar-Durante :
      (c : Cursor)
      → p.muestras < 2 ^ 32
      → (h : CursorDurante s p b c) → c.indice < p.muestras
      → (c.restante_tiempo ≡ 1 → ⊥)
      → Durante s p b
          ((c.indice + 1) % 2 ^ 32)
          c.regla_tiempo
          ((c.restante_tiempo + 2 ^ 32 - 1) % 2 ^ 32)
          ((c.tiempo + dura s p c.regla_tiempo) % 2 ^ 64)
  adelantar-Durante c g h l u =
      let r = menos_uno c h in
      record {
        k = suc h.k;
        hay = h.hay;
        resto = omega (arith, r, h.resto, h.queda);
        queda = omega (arith, r, h.queda, u);
        lugar = omega (arith, h.lugar, g, l);
        cuando =
            otra c.tiempo h.k (dura s p c.regla_tiempo) (tiempo_hasta s p c.regla_tiempo) h.cuando;
      }

  segun_acaba :
      (a : Bool) (i f g m t : ℕ)
      → (a ≡ true → Nueva s p b i f m t)
      → (a ≡ false → Durante s p b i g m t)
      → EnHora s p b i (if a then f else g) m t
  segun_acaba true i f g m t h k = estrenada (h refl)
  segun_acaba false i f g m t h k = durante (k refl)

  -- A cursor on time goes on to the next sample.
  pub adelantar-EnHora :
      (c : Cursor) (tam : ℕ)
      → p.muestras < 2 ^ 32
      → CursorDurante s p b c
      → c.indice < p.muestras
      → CursorEnHora s p b (adelantar s p tam (delta_de s p c) c)
  unfolding adelantar
  adelantar-EnHora c tam g h k =
      segun_acaba ((c.restante_tiempo + 2 ^ 32 - 1) % 2 ^ 32 == 0) _ _ _ _ _
        (λ a. adelantar-Nueva c g h k (omega (arith, h.queda, menos_uno c h, es_cero _ a)))
        (λ a. adelantar-Durante c g h k (λ e. no_cero _ a (menos_uno c h ∙ omega (arith, e))))
    where
      es_cero : (x : ℕ) → (x == 0) ≡ true → x ≡ 0
      es_cero x h = ground (arith, h)

      no_cero : (x : ℕ) → (x == 0) ≡ false → x ≡ 0 → ⊥
      no_cero x h e = ground (arith, h, e)
