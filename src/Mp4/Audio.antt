-- ===== src/Mp4/Audio.antt =====
-- Every call of mp4_siguiente_audio of nucleo/controladores/multimedia/mp4/mp4.c.
use taek_os.Prelude.{
  ltb, ◌≤◌, ◌-◌, ◌∙◌, ℕ, ◌+◌, ◌^◌, ◌<◌, true, not, some, List, ◌≡◌, refl, sym, subst, ◌==◌, si,
  arith,
}
use taek_os.Mp4.Pista.{Mp4Resultado, datos_invalidos, Pista, reglas_bien}
use taek_os.Mp4.Abrir.{Audio, cuenta_bien}
use taek_os.Mp4.Fuente.{Lector}
use taek_os.Mp4.Cursor.{
  cursor_cero, mp4_rebobinar_audio, Cursor, Muestra, mp4_leer_muestra, ubicar, tamano_de,
  cronometrar, delta_de, adelantar,
}
use taek_os.Mp4.Siguiente.{
  ℤ, pos, negsuc, int64, Medio, final, fallo, entrega, Paso, con_muestra_leida, leer_sonido,
  medir_sonido, ubicar_sonido, mp4_siguiente_audio,
}
use taek_os.Mp4.Reparto.{son_bytes, be32-lt}
use taek_os.Mp4.Cuenta.{Reparte, reglas_bien-Reparte, hasta}
use taek_os.Mp4.Sitio.{
  tamano_en, tamano_de-en, Sitio, CursorVale, CursorSituado, Situado, situado, inicial,
  Situado-Sitio, ubicar-Ubicado,
}
use taek_os.Mp4.Lugar.{adelantar-Vale}
use taek_os.Mp4.Momento.{
  van, tiempo_hasta, cuenta_bien-Cuadra, Momento, CursorEnHora, CursorDurante, EnHora, durante,
  estrenada, Durante-Momento, Cuadra,
}
use taek_os.Mp4.Horario.{cronometrar-Cronometrado, adelantar-EnHora}
use taek_os.Mp4.Entrega.{Leida-segun, Traida, Falta, Leida, mp4_leer_muestra-Leida}

pub es_cero : (x : ℕ) → (x == 0) ≡ true → x ≡ 0
es_cero x h = ground (arith, h)

int64_positivo : (t : ℕ) → t < 2 ^ 63 → int64 t ≡ pos t
int64_positivo t h =
    si (λ x. x ≡ pos t) (ltb t (2 ^ 63)) _ _ (λ _. refl) (λ e. absurd (ground (arith, e, h)))

int64_negativo : (t : ℕ) → 2 ^ 63 ≤ t → int64 t ≡ negsuc (2 ^ 64 - 1 - t)
int64_negativo t h =
    si (λ x. x ≡ negsuc (2 ^ 64 - 1 - t)) (ltb t (2 ^ 63)) _ _ (λ e. absurd (ground (arith, e, h)))
      (λ _. refl)

module _ (s : List ℕ) (p : Pista) (b : son_bytes s ≡ true)
    (r : Reparte s p (be32-lt s (p.stco.p + 4) b)) where
  -- A cursor of the track: in its place and on time.
  pub record CursorIsBueno (c : Cursor) : Type 0 where
    pub vale : CursorVale s p b r c
    pub en_hora : CursorEnHora s p b c

  pub cursor_cero-IsBueno : CursorIsBueno cursor_cero
  unfolding hasta van tiempo_hasta
  cursor_cero-IsBueno = record {
    vale = inicial (record {
      lugar = refl;
      en_cero = refl;
      fragmentos = omega arith;
      hay = r.algunas;
      empieza = omega (arith, (r.validas 0 r.algunas).uno refl);
    });
    en_hora =
        estrenada
          (record { hay = omega arith; en_cero = refl; lugar = refl; cuando = omega arith });
  }

  module _ {W : Type 0} (medio : Medio W) (pista : ℕ) (l : Lector W) where
    -- Why sample `i` does not come.
    pub data Motivo (i : ℕ) : Mp4Resultado → Type 0 where
      vacia : tamano_en s p i ≡ 0 → Motivo i datos_invalidos
      ausente :
          (o tam : ℕ) (e : Mp4Resultado)
          → tam ≡ tamano_en s p i
          → Sitio s p i o
          → Falta medio pista o tam l e
          → Motivo i e

    -- Sample `i` comes as `m`, of `tam` bytes and at time `t`.
    pub record Dada (i : ℕ) (m : Muestra) (tam t : ℕ) : Type 0 where
      pub queda : i < p.muestras
      pub tamano : tam ≡ tamano_en s p i
      pub sitio : ℕ
      pub ahi : Sitio s p i sitio
      pub cabe : sitio + tam ≤ medio.bytes
      pub datos : Traida medio pista sitio tam l m
      pub cuando : Momento s p i t

    -- Sample `i` of the sound comes at its time as a signed number of 64 bits.
    pub record Sonada (i : ℕ) (m : Muestra) (tam : ℕ) (x : ℤ) : Type 0 where
      pub tiempo : ℕ
      pub dada : Dada i m tam tiempo
      pub positivo : tiempo < 2 ^ 63 → x ≡ pos tiempo
      pub negativo : 2 ^ 63 ≤ tiempo → x ≡ negsuc (2 ^ 64 - 1 - tiempo)

    -- What a call gives whose cursor is at sample `i`.
    abbrev pub Respuesta : ℕ → Paso ℤ Cursor W → Type 0
    Respuesta i (final, d, n) = CursorIsBueno d × (d.indice ≡ i) × (i ≡ p.muestras)
    Respuesta i (fallo e, d, n) = CursorIsBueno d × (d.indice ≡ i) × Motivo i e
    Respuesta i (entrega m tam t, d, n) = CursorIsBueno d × (d.indice ≡ i + 1) × Sonada i m tam t

    Leida-Respuesta :
        (i o t : ℕ) (c d : Cursor) (x : (Mp4Resultado × Muestra) × Lector W)
        → c.indice ≡ i
        → CursorIsBueno c
        → d.indice ≡ i + 1
        → CursorIsBueno d
        → i < p.muestras
        → Sitio s p i o
        → Momento s p i t
        → Leida medio pista o (tamano_de s p i) l x
        → Respuesta i (con_muestra_leida c d (tamano_de s p i) (int64 t) x)
    Leida-Respuesta i o t c d x e h g k z a u f =
        Leida-segun medio pista o (tamano_de s p i) l (Respuesta i) c d (int64 t)
          (λ m n b y. (
            k,
            g,
            record {
              tiempo = t;
              dada = record {
                queda = z;
                tamano = tamano_de-en s p i;
                sitio = o;
                ahi = a;
                cabe = b;
                datos = y;
                cuando = u;
              };
              positivo = int64_positivo t;
              negativo = int64_negativo t;
            },
          ))
          (λ y n b. (h, e, ausente o (tamano_de s p i) y (tamano_de-en s p i) a b)) x f

  module _ {W : Type 0} (medio : Medio W) (l : Lector W) (pocas : p.muestras < 2 ^ 32)
      (q : Cuadra s p b) where
    leer_sonido-Respuesta :
        (d : Cursor)
        → CursorSituado s p b r d
        → CursorDurante s p b d
        → d.indice < p.muestras
        → Respuesta medio 1 l d.indice (leer_sonido medio s p (tamano_de s p d.indice) d l)
    leer_sonido-Respuesta d t h k =
        let tam = tamano_de s p d.indice in
        let (v, e) = adelantar-Vale s p b r pocas d tam (delta_de s p d) t k refl in
        Leida-Respuesta medio 1 l d.indice d.offset_muestra d.tiempo d
          (adelantar s p tam (delta_de s p d) d)
          (mp4_leer_muestra medio.origen medio.solo_indice medio.bytes 1 d.offset_muestra tam l)
          refl (record { vale = situado t; en_hora = durante h }) e
          (record { vale = v; en_hora = adelantar-EnHora s p b q d tam pocas h k }) k
          (Situado-Sitio s p b r d t) (Durante-Momento s p b d h)
          (mp4_leer_muestra-Leida medio 1 d.offset_muestra tam l)

    medir_sonido-Respuesta :
        (d : Cursor)
        → CursorSituado s p b r d
        → CursorEnHora s p b d
        → d.indice < p.muestras
        → Respuesta medio 1 l d.indice
            (medir_sonido medio s p (tamano_de s p d.indice) d (cronometrar s p d) l)
    medir_sonido-Respuesta d t h k =
        let (f, u) = cronometrar-Cronometrado s p b q d h k in
        subst
          (λ x.
            Respuesta medio 1 l d.indice (medir_sonido medio s p (tamano_de s p d.indice) d x l))
          (sym u.a)
          (subst (λ i. Respuesta medio 1 l i (leer_sonido medio s p (tamano_de s p i) f l)) u.indice
            (leer_sonido-Respuesta f (u.deja (Situado s p b r) t) u.en_hora
              (omega (arith, u.indice, k))))

    ubicar_sonido-Respuesta :
        (c : Cursor)
        → CursorIsBueno c
        → c.indice < p.muestras
        → Respuesta medio 1 l c.indice (ubicar_sonido medio s p c (ubicar s p c) l)
    ubicar_sonido-Respuesta c h k =
        let (d, u) = ubicar-Ubicado s p b r c h.vale k in
        subst (λ x. Respuesta medio 1 l c.indice (ubicar_sonido medio s p c x l)) (sym u.a)
          (subst (λ i. Respuesta medio 1 l i (ubicar_sonido medio s p c (some d) l)) u.mismo
            (si (Respuesta medio 1 l d.indice) (tamano_de s p d.indice == 0) _ _
              (λ e. (
                record { vale = situado u.en_sitio; en_hora = u.deja (EnHora s p b) h.en_hora },
                refl,
                vacia (sym (tamano_de-en s p d.indice) ∙ es_cero _ e),
              ))
              (λ e.
                medir_sonido-Respuesta d u.en_sitio (u.deja (EnHora s p b) h.en_hora)
                  (omega (arith, u.mismo, k)))))

-- A track that the opening accepts, in a file of bytes, whose `stts` counts its samples too.
pub record PistaIsBuena (s : List ℕ) (p : Pista) : Type 0 where
  pub bytes : son_bytes s ≡ true
  pub reparte : reglas_bien s p ≡ true
  pub cuadra : cuenta_bien s p.stts p.muestras ≡ true
  pub algunas : 0 < p.muestras
  pub pocas : p.muestras < 2 ^ 32

module _ (s : List ℕ) (a : Audio) (h : PistaIsBuena s a.pista) where
  abbrev pub r : Reparte s a.pista (be32-lt s (a.pista.stco.p + 4) h.bytes)
  r = reglas_bien-Reparte s a.pista h.bytes h.pocas h.algunas h.reparte

  abbrev Marcha : Cursor → Type 0
  Marcha c = CursorIsBueno s a.pista h.bytes r c × (c.indice ≤ a.pista.muestras)

  inicio-Marcha : Marcha cursor_cero
  inicio-Marcha = (cursor_cero-IsBueno s a.pista h.bytes r, omega arith)

  module _ {W : Type 0} (medio : Medio W) (tiene : a.pista.tiene ≡ true) where
    abbrev Contesta : Lector W → ℕ → Paso ℤ Cursor W → Type 0
    Contesta l i x = Respuesta s a.pista h.bytes r medio 1 l i x

    siguiente-Contesta :
        (c : Cursor) (l : Lector W)
        → Marcha c
        → Contesta l c.indice (mp4_siguiente_audio medio s a c l)
    unfolding mp4_siguiente_audio
    siguiente-Contesta c l n =
        si (Contesta l c.indice) (not a.pista.tiene) _ _ (λ e. absurd (ground (arith, e, tiene)))
          (λ e.
            si (Contesta l c.indice) (c.indice == a.pista.muestras) _ _
              (λ f. (n.0, refl, ground (arith, f)))
              (λ f.
                ubicar_sonido-Respuesta s a.pista h.bytes r medio l h.pocas
                  (cuenta_bien-Cuadra s a.pista h.bytes h.cuadra) c n.0 (ground (arith, f, n.1))))

    Contesta-Marcha :
        (l : Lector W) (i : ℕ) (x : Paso ℤ Cursor W)
        → i ≤ a.pista.muestras
        → Contesta l i x
        → Marcha x.1
    Contesta-Marcha l i (final, d, n) k g = (g.0, omega (arith, g.1, k))
    Contesta-Marcha l i (fallo e, d, n) k g = (g.0, omega (arith, g.1, k))
    Contesta-Marcha l i (entrega m tam t, d, n) k g = (g.0, omega (arith, g.1, g.2.dada.queda))

    -- The cursors that rewinding and calls reach, whatever the source does meanwhile.
    pub data Alcanzado : Cursor → Type 0 where
      rebobinado : (c : Cursor) → Alcanzado (mp4_rebobinar_audio c)
      llamado :
          (c : Cursor) (l : Lector W)
          → Alcanzado c
          → Alcanzado (mp4_siguiente_audio medio s a c l).1

    Alcanzado-Marcha : (c : Cursor) → Alcanzado c → Marcha c
    unfolding mp4_rebobinar_audio
    Alcanzado-Marcha c (rebobinado d) = inicio-Marcha
    Alcanzado-Marcha c (llamado d l g) =
        let n = Alcanzado-Marcha d g in
        Contesta-Marcha l d.indice (mp4_siguiente_audio medio s a d l) n.1
          (siguiente-Contesta d l n)

    -- Of the sound of an open container that is rewound once and then called for samples any number of times, also
    -- after calls that failed: the next call ends only after the last sample; or it fails for a sample of size zero,
    -- one that is not in the file, a buffer that is missing or too small, or a source that does not give its bytes, and
    -- the cursor stays at that sample; or it gives the sample next in order, with the size that `stsz` gives, from the
    -- position in the file that `stsc` and `stco` say, whole in the file, with the data that memory or the source has
    -- there, at the time that `stts` says as a signed number of 64 bits, and the cursor is at the one after. The file
    -- is of bytes, `stsc` and `stts` count the samples, which are some and fewer than 2^32.
    pub siguiente_audio-Respuesta :
        (c : Cursor) (l : Lector W)
        → Alcanzado c
        → Respuesta s a.pista h.bytes r medio 1 l c.indice (mp4_siguiente_audio medio s a c l)
    siguiente_audio-Respuesta c l g = siguiente-Contesta c l (Alcanzado-Marcha c g)
