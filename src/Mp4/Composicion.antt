-- ===== src/Mp4/Composicion.antt =====
-- The composition offsets of the samples, against the cursor of the video of mp4.c.
use taek_os.Prelude.{
  ℕ, suc, ◌+◌, ◌%◌, ◌^◌, ◌≤◌, ◌<◌, Bool, true, false, not, Option, none, some, List, ◌≡◌, refl,
  subst, ◌==◌, ltb, si, get_or, arith,
}
use taek_os.Mp4.Vista.{Vista, be32}
use taek_os.Mp4.Pista.{Pista}
use taek_os.Mp4.Abrir.{cuenta_bien, cuenta_ctts}
use taek_os.Mp4.Cursor.{Cursor, CursorVideo, delta_de, adelantar}
use taek_os.Mp4.Siguiente.{compuesto, componer}
use taek_os.Mp4.Reparto.{son_bytes}
use taek_os.Mp4.Momento.{
  van, dura, tiempo_hasta, veces, EnHora, durante, estrenada, Durante, cuenta_bien-Cuadra,
}
use taek_os.Mp4.Horario.{Nueva-Durante, adelantar-EnHora}

-- The track with the composition table in the place of `stts`: both tables count samples.
abbrev pub con_tabla : Pista → Vista → Pista
con_tabla p v = record p { stts = v }

-- The composition offset of sample `i`: the one of its entry, signed from version 1 of the table on; none without a
-- table.
pub record Desfase (s : List ℕ) (p : Pista) (v : Vista) (i : ℕ) (u : ℕ × Bool) : Type 0 where
  pub entrada : ℕ
  pub desde : van s (con_tabla p v) entrada ≤ i
  pub antes : i < van s (con_tabla p v) (suc entrada)
  pub medida : u ≡ (dura s (con_tabla p v) entrada, not (get_or s v.p 0 == 0))

abbrev pub Corrido : List ℕ → Pista → Option Vista → ℕ → ℕ × Bool → Type 0
Corrido s p none i u = u ≡ (0, false)
Corrido s p (some v) i u = Desfase s p v i u

module _ (s : List ℕ) (p : Pista) (b : son_bytes s ≡ true) where
  -- The composition fields of a cursor are those of sample `i`.
  abbrev pub EnCtts : Option Vista → ℕ → ℕ → ℕ → Type 0
  EnCtts none i regla restante = Unit {0}
  EnCtts (some v) i regla restante = (t : ℕ) × EnHora s (con_tabla p v) b i regla restante t

  pub cero-EnCtts : (o : Option Vista) → EnCtts o 0 0 0
  unfolding van tiempo_hasta
  cero-EnCtts none = tt
  cero-EnCtts (some v) = (
    0,
    estrenada (record { hay = omega arith; en_cero = refl; lugar = refl; cuando = omega arith }),
  )

  -- `componer` gives the offset of the cursor's sample and goes on to the next one's.
  pub record Compuesto (o : Option Vista) (c : CursorVideo) : Type 0 where
    pub u : ℕ × Bool
    pub regla : ℕ
    pub restante : ℕ
    pub a :
        componer s o c
        ≡ some (u, record c { restante_composicion = restante; regla_composicion = regla })
    pub corrido : Corrido s p o c.cursor.indice u
    pub en_ctts : EnCtts o (c.cursor.indice + 1) regla restante

  module _ (pocas : p.muestras < 2 ^ 32) where
    compuesto-Compuesto :
        (v : Vista) (c : CursorVideo) (n t : ℕ)
        → cuenta_bien s v p.muestras ≡ true
        → c.cursor.indice < p.muestras
        → Durante s (con_tabla p v) b c.cursor.indice c.regla_composicion n t
        → componer s (some v) c ≡ some (compuesto s v c n)
        → Compuesto (some v) c
    unfolding van adelantar
    compuesto-Compuesto v c n t h k e g =
        let d : Cursor = record c.cursor {
          regla_tiempo = c.regla_composicion;
          restante_tiempo = n;
          tiempo = t;
        } in
        let m =
          adelantar-EnHora s (con_tabla p v) b (cuenta_bien-Cuadra s (con_tabla p v) b h) d 0 pocas
            e k in
        record {
          u = (compuesto s v c n).0;
          regla = (compuesto s v c n).1.regla_composicion;
          restante = (compuesto s v c n).1.restante_composicion;
          a = g;
          corrido = record {
            entrada = c.regla_composicion;
            desde = omega (arith, e.lugar);
            antes = omega (arith, e.lugar, e.queda, e.resto);
            medida = refl;
          };
          en_ctts = (
            (t + delta_de s (con_tabla p v) d) % 2 ^ 64,
            subst
                (λ i.
                  EnHora s (con_tabla p v) b i (compuesto s v c n).1.regla_composicion
                    (compuesto s v c n).1.restante_composicion
                    ((t + delta_de s (con_tabla p v) d) % 2 ^ 64))
                (sin_vuelta c.cursor.indice k) m,
          );
        }
      where
        sin_vuelta : (i : ℕ) → i < p.muestras → (i + 1) % 2 ^ 32 ≡ i + 1
        sin_vuelta i h = omega (arith, h, pocas)

    pub componer-Compuesto :
        (o : Option Vista) (c : CursorVideo)
        → cuenta_ctts s o p.muestras ≡ true
        → EnCtts o c.cursor.indice c.regla_composicion c.restante_composicion
        → c.cursor.indice < p.muestras
        → Compuesto o c
    unfolding componer
    componer-Compuesto none c h e k = record {
      u = (0, false);
      regla = c.regla_composicion;
      restante = c.restante_composicion;
      a = refl;
      corrido = refl;
      en_ctts = tt;
    }
    componer-Compuesto (some v) c h (t, durante e) k =
        compuesto-Compuesto v c c.restante_composicion t h k e (
          si (λ x. x ≡ some (compuesto s v c c.restante_composicion))
            (not (c.restante_composicion == 0)) _ _ (λ f. refl)
            (λ f. absurd (ground (arith, f, e.queda))))
    componer-Compuesto (some v) c h (t, estrenada e) k =
        let (l, g) =
          Nueva-Durante s (con_tabla p v) b (cuenta_bien-Cuadra s (con_tabla p v) b h)
            c.cursor.indice c.regla_composicion c.restante_composicion t e k in
        let n = veces s (con_tabla p v) c.regla_composicion in
        compuesto-Compuesto v c n t h k g (
          si (λ x. x ≡ some (compuesto s v c n)) (not (c.restante_composicion == 0)) _ _
            (λ f. absurd (ground (arith, f, e.en_cero)))
            (λ f.
              si (λ x. x ≡ some (compuesto s v c n))
                (not (ltb c.regla_composicion (be32 s (v.p + 4)))) _ _
                (λ x. absurd (ground (arith, x, l))) (λ x. refl)))
