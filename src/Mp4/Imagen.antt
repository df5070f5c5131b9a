-- ===== src/Mp4/Imagen.antt =====
-- Every call of mp4_siguiente_video of nucleo/controladores/multimedia/mp4/mp4.c.
use taek_os.Prelude.{
  ℕ, ◌∙◌, ◌+◌, ◌-◌, ◌^◌, ◌≤◌, ◌<◌, Bool, true, not, some, List, ◌≡◌, refl, sym, ap, subst, ◌==◌,
  ltb, si, arith,
}
use taek_os.Mp4.Pista.{Mp4Resultado, datos_invalidos, limite_excedido}
use taek_os.Mp4.Abrir.{Video, cuenta_ctts}
use taek_os.Mp4.Fuente.{Lector}
use taek_os.Mp4.Cursor.{
  Cursor, CursorVideo, Muestra, mp4_leer_muestra, ubicar, tamano_de, cronometrar, delta_de,
  adelantar,
}
use taek_os.Mp4.Siguiente.{
  ℤ, Medio, final, fallo, entrega, Paso, componer, presentacion, leer_imagen, en, medir_imagen,
  ubicar_imagen, mp4_siguiente_video,
}
use taek_os.Mp4.Reparto.{be32-lt}
use taek_os.Mp4.Cuenta.{Reparte, reglas_bien-Reparte}
use taek_os.Mp4.Sitio.{tamano_de-en, CursorSituado, Situado, situado, Situado-Sitio, ubicar-Ubicado}
use taek_os.Mp4.Lugar.{adelantar-Vale}
use taek_os.Mp4.Momento.{
  entrada-Momento, Momento, dura, CursorEnHora, CursorDurante, EnHora, durante, Durante-Momento,
  Cuadra, cuenta_bien-Cuadra,
}
use taek_os.Mp4.Horario.{cronometrar-Cronometrado, adelantar-EnHora}
use taek_os.Mp4.Entrega.{Leida-segun, mp4_leer_muestra-Leida}
use taek_os.Mp4.Composicion.{Corrido, EnCtts, componer-Compuesto}
use taek_os.Mp4.Audio.{es_cero, CursorIsBueno, Motivo, vacia, ausente, Dada, PistaIsBuena}

module _ (s : List ℕ) (v : Video) (h : PistaIsBuena s v.pista)
    (compuestas : cuenta_ctts s v.ctts v.pista.muestras ≡ true) where
  abbrev pub r : Reparte s v.pista (be32-lt s (v.pista.stco.p + 4) h.bytes)
  r = reglas_bien-Reparte s v.pista h.bytes h.pocas h.algunas h.reparte

  abbrev q : Cuadra s v.pista h.bytes
  q = cuenta_bien-Cuadra s v.pista h.bytes h.cuadra

  abbrev pub Bueno : Cursor → Type 0
  Bueno c = CursorIsBueno s v.pista h.bytes r c

  -- The composition fields are those of the cursor's sample.
  abbrev pub EnOrden : CursorVideo → Type 0
  EnOrden c =
      EnCtts s v.pista h.bytes v.ctts c.cursor.indice c.regla_composicion c.restante_composicion

  abbrev pub Pasea : CursorVideo → Type 0
  Pasea c = Bueno c.cursor × EnOrden c × (c.cursor.indice ≤ v.pista.muestras)

  module _ {W : Type 0} (medio : Medio W) (l : Lector W) where
    -- Why picture `i` does not come: as a sample of the sound, or it is too late for 63 bits.
    pub data MotivoImagen (i : ℕ) : Mp4Resultado → Type 0 where
      de_muestra : (e : Mp4Resultado) → Motivo s v.pista h.bytes r medio 0 l i e → MotivoImagen i e
      tarde : (t : ℕ) → Momento s v.pista i t → 2 ^ 63 - 2 ^ 32 < t → MotivoImagen i limite_excedido

    -- Picture `i` comes as `m`, of `tam` bytes, to be shown from `x.0` on for `x.1`.
    pub record Mostrada (i : ℕ) (m : Muestra) (tam : ℕ) (x : ℤ × ℕ) : Type 0 where
      pub tiempo : ℕ
      pub dada : Dada s v.pista h.bytes r medio 0 l i m tam tiempo
      pub desfase : ℕ × Bool
      pub corrido : Corrido s v.pista v.ctts i desfase
      pub presenta : x.0 ≡ presentacion tiempo desfase
      pub duracion : x.1 ≡ dura s v.pista dada.cuando.entrada

    abbrev pub RespuestaImagen : ℕ → Paso (ℤ × ℕ) CursorVideo W → Type 0
    RespuestaImagen i (final, d, n) =
        Bueno d.cursor × EnOrden d × (d.cursor.indice ≡ i) × (i ≡ v.pista.muestras)
    RespuestaImagen i (fallo e, d, n) = Bueno d.cursor × (d.cursor.indice ≡ i) × MotivoImagen i e
    RespuestaImagen i (entrega m tam x, d, n) =
        Bueno d.cursor × EnOrden d × (d.cursor.indice ≡ i + 1) × Mostrada i m tam x

    leer_imagen-Respuesta :
        (d : CursorVideo)
        → CursorSituado s v.pista h.bytes r d.cursor
        → CursorDurante s v.pista h.bytes d.cursor
        → EnOrden d
        → d.cursor.indice < v.pista.muestras
        → RespuestaImagen d.cursor.indice (
            leer_imagen medio s v.pista
              (tamano_de s v.pista d.cursor.indice)
              d
              (componer s v.ctts d)
              l)
    leer_imagen-Respuesta d t g o k =
        let x = componer-Compuesto s v.pista h.bytes h.pocas v.ctts d compuestas o k in
        let tam = tamano_de s v.pista d.cursor.indice in
        let e : CursorVideo = record d {
          restante_composicion = x.restante;
          regla_composicion = x.regla;
        } in
        let f : CursorVideo = record e {
          cursor = adelantar s v.pista tam (delta_de s v.pista d.cursor) d.cursor;
        } in
        let bueno : Bueno d.cursor = record { vale = situado t; en_hora = durante g } in
        let (w, y) =
          adelantar-Vale s v.pista h.bytes r h.pocas d.cursor tam (delta_de s v.pista d.cursor) t k
            refl in
        let u = Durante-Momento s v.pista h.bytes d.cursor g in
        let a = Situado-Sitio s v.pista h.bytes r d.cursor t in
        subst (λ z. RespuestaImagen d.cursor.indice (leer_imagen medio s v.pista tam d z l))
          (sym x.a)
          (si (RespuestaImagen d.cursor.indice) (ltb (2 ^ 63 - 1 - (2 ^ 32 - 1)) d.cursor.tiempo) _
            _ (λ z. (bueno, refl, tarde d.cursor.tiempo u (ground (arith, z))))
            (λ z.
              Leida-segun medio 0 d.cursor.offset_muestra tam l (RespuestaImagen d.cursor.indice) e
                f (presentacion d.cursor.tiempo x.u, delta_de s v.pista d.cursor)
                (λ m n b j. (
                  record {
                    vale = w;
                    en_hora = adelantar-EnHora s v.pista h.bytes q d.cursor tam h.pocas g k;
                  },
                  subst (λ i. EnCtts s v.pista h.bytes v.ctts i x.regla x.restante) (sym y)
                      x.en_ctts,
                  y,
                  record {
                    tiempo = d.cursor.tiempo;
                    dada = record {
                      queda = k;
                      tamano = tamano_de-en s v.pista d.cursor.indice;
                      sitio = d.cursor.offset_muestra;
                      ahi = a;
                      cabe = b;
                      datos = j;
                      cuando = u;
                    };
                    desfase = x.u;
                    corrido = x.corrido;
                    presenta = refl;
                    duracion =
                        ap (dura s v.pista) (sym (entrada-Momento s v.pista h.bytes d.cursor g));
                  },
                ))
                (λ j n b. (
                  bueno,
                  refl,
                  de_muestra j (
                      ausente d.cursor.offset_muestra tam j (tamano_de-en s v.pista d.cursor.indice)
                        a b),
                ))
                (mp4_leer_muestra medio.origen medio.solo_indice medio.bytes 0
                  d.cursor.offset_muestra tam l)
                (mp4_leer_muestra-Leida medio 0 d.cursor.offset_muestra tam l)))

    medir_imagen-Respuesta :
        (d : CursorVideo)
        → CursorSituado s v.pista h.bytes r d.cursor
        → CursorEnHora s v.pista h.bytes d.cursor
        → EnOrden d
        → d.cursor.indice < v.pista.muestras
        → RespuestaImagen d.cursor.indice (
            medir_imagen medio s v
              (tamano_de s v.pista d.cursor.indice)
              d
              (cronometrar s v.pista d.cursor)
              l)
    medir_imagen-Respuesta d t g o k =
        let (f, u) = cronometrar-Cronometrado s v.pista h.bytes q d.cursor g k in
        subst
          (λ x.
            RespuestaImagen d.cursor.indice
              (medir_imagen medio s v (tamano_de s v.pista d.cursor.indice) d x l))
          (sym u.a)
          (subst
            (λ i. RespuestaImagen i (
              leer_imagen medio s v.pista (tamano_de s v.pista i) (en d f)
                (componer s v.ctts (en d f)) l))
            u.indice
            (leer_imagen-Respuesta (en d f) (u.deja (Situado s v.pista h.bytes r) t) u.en_hora
              (subst
                (λ i. EnCtts s v.pista h.bytes v.ctts i d.regla_composicion d.restante_composicion)
                (sym u.indice) o)
              (omega (arith, u.indice, k))))

    ubicar_imagen-Respuesta :
        (c : CursorVideo)
        → Bueno c.cursor
        → EnOrden c
        → c.cursor.indice < v.pista.muestras
        → RespuestaImagen c.cursor.indice (ubicar_imagen medio s v c (ubicar s v.pista c.cursor) l)
    ubicar_imagen-Respuesta c g o k =
        let (d, u) = ubicar-Ubicado s v.pista h.bytes r c.cursor g.vale k in
        let w = u.deja (EnHora s v.pista h.bytes) g.en_hora in
        subst (λ x. RespuestaImagen c.cursor.indice (ubicar_imagen medio s v c x l)) (sym u.a)
          (subst (λ i. RespuestaImagen i (ubicar_imagen medio s v c (some d) l)) u.mismo
            (si (RespuestaImagen d.indice) (tamano_de s v.pista d.indice == 0) _ _
              (λ e. (
                record { vale = situado u.en_sitio; en_hora = w },
                refl,
                de_muestra datos_invalidos
                    (vacia (sym (tamano_de-en s v.pista d.indice) ∙ es_cero _ e)),
              ))
              (λ e.
                medir_imagen-Respuesta (en c d) u.en_sitio w
                  (subst
                    (λ i.
                      EnCtts s v.pista h.bytes v.ctts i c.regla_composicion c.restante_composicion)
                    (sym u.mismo) o)
                  (omega (arith, u.mismo, k)))))

    pub siguiente-RespuestaImagen :
        (c : CursorVideo)
        → v.pista.tiene ≡ true
        → Pasea c
        → RespuestaImagen c.cursor.indice (mp4_siguiente_video medio s v c l)
    unfolding mp4_siguiente_video
    siguiente-RespuestaImagen c t n =
        si (RespuestaImagen c.cursor.indice) (not v.pista.tiene) _ _
          (λ e. absurd (ground (arith, e, t)))
          (λ e.
            si (RespuestaImagen c.cursor.indice) (c.cursor.indice == v.pista.muestras) _ _
              (λ f. (n.0, n.1, refl, ground (arith, f)))
              (λ f. ubicar_imagen-Respuesta c n.0 n.1 (ground (arith, f, n.2))))

    pub sigue-Pasea :
        (i : ℕ) (x : Paso (ℤ × ℕ) CursorVideo W) (m : Muestra) (tam : ℕ) (t : ℤ × ℕ)
        → x.0 ≡ entrega m tam t
        → RespuestaImagen i x
        → Pasea x.1
    sigue-Pasea i (final, d, n) m tam t e g = cc
    sigue-Pasea i (fallo y, d, n) m tam t e g = cc
    sigue-Pasea i (entrega m' tam' t', d, n) m tam t e g =
        (g.0, g.1, omega (arith, g.2, g.3.dada.queda))
