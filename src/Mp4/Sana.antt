-- ===== src/Mp4/Sana.antt =====
-- The container that mp4.c opens has its tracks in the file.
use taek_os.Prelude.{
  ℕ, zero, suc, ◌+◌, ◌/◌, ◌^◌, ◌≤◌, ◌<◌, true, false, not, ◌&&◌, ◌||◌, ◌≡◌, refl, List, ◌==◌, ltb,
  si, arith, if◌then◌else◌, get_or, subst, length,
}
use taek_os.Mp4.Vista.{
  Vista, be16, be32, tipo_de, Hallado, ninguna, mala, hallada, buscar, Caja, acabada, rota, una,
  caja,
}
use taek_os.Mp4.Cajas.{fin, Halla, buscar-Halla, Cabe, caja-Cabe}
use taek_os.Mp4.Pista.{
  Mp4Resultado, mp4_ok, datos_invalidos, no_soportado, sin_memoria, limite_excedido, error_lectura,
  Pista, Cabeza, detenida, abierta, cabeza, tablas, reglas_bien,
}
use taek_os.Mp4.Abrir.{
  Video, Audio, oye, descripciones, pista_video, con_reglas, con_sonido, suena, con_descripciones,
  pista_audio, Contenedor, cero, probar_audio, tras_video, con_trak, sigue_trak, pistas, con_alguna,
  mp4_parsear_moov, con_moov, todo, mp4_abrir,
}
use taek_os.Mp4.Tablas.{SiOk, TablasIsSana, Deja, tablas-Deja, Abre, cabeza-Abre}
use taek_os.Mp4.Video.{Queda, Queda-tiene, parada, VideoIsSano, Bien, pista_video-Bien}

abbrev pub AudioIsSano : List ℕ → ℕ → Audio → Type 0
AudioIsSano s m a = TablasIsSana s m a.pista × (0 < a.canales) × (0 < a.frecuencia)

module _ (s : List ℕ) (m : ℕ) where
  abbrev Suena : Mp4Resultado × Audio → Type 0
  Suena r = Queda r.0 r.1.pista.tiene (AudioIsSano s m r.1)

  con_reglas-Suena :
      (a : Audio) (r : Mp4Resultado × Pista)
      → 0 < a.canales
      → 0 < a.frecuencia
      → Deja false (TablasIsSana s m) r
      → Suena (con_reglas s a r)
  con_reglas-Suena a (mp4_ok, p) c f h =
      si Suena (not (reglas_bien s p)) _ _ (λ e. h.0) (λ e. ((h.1, c, f), refl))
  con_reglas-Suena a (datos_invalidos, p) c f h = h.0
  con_reglas-Suena a (no_soportado, p) c f h = h.0
  con_reglas-Suena a (sin_memoria, p) c f h = h.0
  con_reglas-Suena a (limite_excedido, p) c f h = h.0
  con_reglas-Suena a (error_lectura, p) c f h = h.0

  o_si_no : (n k : ℕ) → 0 < k → 0 < (if n == 0 then k else n)
  o_si_no n k h = ground arith

  suena-Suena :
      (stbl : Vista)
      → fin stbl ≤ m
      → (a : Audio) (c : Caja) → a.pista.tiene ≡ false
      → 0 < a.pista.escala_tiempo
      → Suena (suena s stbl a c)
  suena-Suena stbl d a acabada t e = t
  suena-Suena stbl d a rota t e = t
  suena-Suena stbl d a (una tipo x resto) t e =
      si Suena (not (tipo == tipo_de 109 112 52 97)) _ _ (λ i. t)
        (λ i.
          si Suena (ltb x.n 28) _ _ (λ j. t)
            (λ j.
              con_reglas-Suena (con_sonido s a x) (tablas s stbl a.pista)
                (o_si_no (be16 s (x.p + 16)) 2 (omega arith))
                (o_si_no (be32 s (x.p + 24) / 2 ^ 16) a.pista.escala_tiempo e)
                (tablas-Deja s m stbl d false a.pista t e)))

  con_descripciones-Suena :
      (a : Audio) (c : Cabeza) → Abre m false c → Suena (con_descripciones s a c)
  con_descripciones-Suena a (detenida r p) h = parada r p.tiene _ h.0 h.1
  con_descripciones-Suena a (abierta p stbl stsd) h =
      si Suena (not (get_or s stsd.p 0 == 0) || be32 s (stsd.p + 4) == 0) _ _ (λ i. h.0)
        (λ i. suena-Suena stbl h.2 (oye a p) (caja s (descripciones stsd)) h.0 h.1)

  pista_audio-Suena :
      (a : Audio) (trak : Vista)
      → fin trak ≤ m
      → a.pista.tiene ≡ false
      → Suena (pista_audio s a trak)
  unfolding pista_audio
  pista_audio-Suena a trak d t =
      con_descripciones-Suena a (cabeza s (tipo_de 115 111 117 110) trak a.pista)
        (cabeza-Abre s m false _ trak a.pista d t)

  -- The tracks that are there are sound.
  abbrev pub ContenedorIsSano : Contenedor → Type 0
  ContenedorIsSano c =
      (c.video.pista.tiene ≡ true → VideoIsSano s m c.video)
      × (c.audio.pista.tiene ≡ true → AudioIsSano s m c.audio)

  probar_audio-Sano :
      (trak : Vista) (c : Contenedor)
      → fin trak ≤ m
      → ContenedorIsSano c
      → ContenedorIsSano (probar_audio s trak c)
  probar_audio-Sano trak c d h =
      si ContenedorIsSano c.audio.pista.tiene _ _ (λ e. h)
        (λ e. (
          h.0,
          Queda-tiene (pista_audio s c.audio trak).0 _ _ (pista_audio-Suena c.audio trak d e),
        ))

  tras_video-Sano :
      (trak : Vista) (c : Contenedor) (r : Mp4Resultado × Video)
      → fin trak ≤ m
      → Bien s m r
      → ContenedorIsSano c
      → ContenedorIsSano (tras_video s trak c r)
  tras_video-Sano trak c (mp4_ok, v) d q h = (λ e. q.0, h.1)
  tras_video-Sano trak c (datos_invalidos, v) d q h =
      probar_audio-Sano trak (record c { video = v }) d (Queda-tiene datos_invalidos _ _ q, h.1)
  tras_video-Sano trak c (no_soportado, v) d q h =
      probar_audio-Sano trak (record c { video = v }) d (Queda-tiene no_soportado _ _ q, h.1)
  tras_video-Sano trak c (sin_memoria, v) d q h =
      probar_audio-Sano trak (record c { video = v }) d (Queda-tiene sin_memoria _ _ q, h.1)
  tras_video-Sano trak c (limite_excedido, v) d q h =
      probar_audio-Sano trak (record c { video = v }) d (Queda-tiene limite_excedido _ _ q, h.1)
  tras_video-Sano trak c (error_lectura, v) d q h =
      probar_audio-Sano trak (record c { video = v }) d (Queda-tiene error_lectura _ _ q, h.1)

  con_trak-Sano :
      (t : ℕ) (trak : Vista) (c : Contenedor)
      → fin trak ≤ m
      → ContenedorIsSano c
      → ContenedorIsSano (con_trak s t trak c)
  con_trak-Sano t trak c d h =
      si ContenedorIsSano (not (t == tipo_de 116 114 97 107)) _ _ (λ e. h)
        (λ e.
          si ContenedorIsSano c.video.pista.tiene _ _ (λ i. probar_audio-Sano trak c d h)
            (λ i.
              tras_video-Sano trak c (pista_video s c.video trak) d
                (pista_video-Bien s m c.video trak d i) h))

  sigue_trak-Sano :
      (w : Vista) (c : Contenedor) (x : Caja) (k : Vista → Contenedor → Contenedor)
      → Cabe w x
      → fin w ≤ m
      → ContenedorIsSano c
      → ((r : Vista) (e : Contenedor) → fin r ≤ m → ContenedorIsSano e → ContenedorIsSano (k r e))
      → ContenedorIsSano (sigue_trak s c x k)
  sigue_trak-Sano w c acabada k h d i q = i
  sigue_trak-Sano w c rota k h d i q = i
  sigue_trak-Sano w c (una t trak resto) k h d i q =
      q resto (con_trak s t trak c) (omega (arith, h.1, d))
        (con_trak-Sano t trak c (omega (arith, h.0, d)) i)

  pistas-Sano :
      (f : ℕ) (moov : Vista) (c : Contenedor)
      → fin moov ≤ m
      → ContenedorIsSano c
      → ContenedorIsSano (pistas s f moov c)
  unfolding pistas
  pistas-Sano zero moov c d i = i
  pistas-Sano (suc f) moov c d i =
      sigue_trak-Sano moov c (caja s moov) (λ r e. pistas s f r e) (caja-Cabe s moov) d i
        (λ r e k j. pistas-Sano f r e k j)

  abbrev Abierto : Mp4Resultado × Contenedor → Type 0
  Abierto r =
      SiOk r.0 (ContenedorIsSano r.1 × ((r.1.video.pista.tiene || r.1.audio.pista.tiene) ≡ true))

  con_alguna-Abierto : (c : Contenedor) → ContenedorIsSano c → Abierto (con_alguna c)
  con_alguna-Abierto c h =
      si Abierto (not c.video.pista.tiene && not c.audio.pista.tiene) _ _ (λ e. tt)
        (λ e. (h, ground (arith, e)))

  con_moov-Abierto : (h : Hallado) → Halla m h → Abierto (con_moov s h)
  unfolding mp4_parsear_moov
  con_moov-Abierto ninguna h = tt
  con_moov-Abierto mala h = tt
  con_moov-Abierto (hallada moov) h =
      con_alguna-Abierto (pistas s moov.n moov cero)
        (pistas-Sano moov.n moov cero h (λ e. cc, λ e. cc))

abrir-Abierto : (m : Contenedor) (s : List ℕ) → Abierto s (length s) (mp4_abrir m s)
unfolding mp4_abrir
abrir-Abierto m s =
    si (Abierto s (length s)) (ltb (length s) 8) _ _ (λ e. tt)
      (λ e.
        con_moov-Abierto s (length s) (buscar s (todo s) (tipo_de 109 111 111 118))
          (buscar-Halla s (length s) (todo s) _ (omega arith)))

-- A file of any bytes that opens has a track; of each track the tables and the configuration lie in the file with all
-- their entries, and the scale of its times and the number of its samples are not zero.
pub mp4_abrir-IsSano :
    (m : Contenedor) (s : List ℕ)
    → (mp4_abrir m s).0 ≡ mp4_ok
    → ContenedorIsSano s (length s) (mp4_abrir m s).1
      × (((mp4_abrir m s).1.video.pista.tiene || (mp4_abrir m s).1.audio.pista.tiene) ≡ true)
mp4_abrir-IsSano m s h =
    subst
      (λ r. SiOk r (
        ContenedorIsSano s (length s) (mp4_abrir m s).1
        × (((mp4_abrir m s).1.video.pista.tiene || (mp4_abrir m s).1.audio.pista.tiene) ≡ true)))
      h (abrir-Abierto m s)
