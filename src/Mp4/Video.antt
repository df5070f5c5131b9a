-- ===== src/Mp4/Video.antt =====
-- The video track that mp4.c takes lies in the file.
use taek_os.Prelude.{
  ℕ, ◌+◌, ◌%◌, ◌≤◌, ◌<◌, Bool, true, false, not, ◌||◌, ◌≡◌, refl, List, ◌==◌, ltb, si, arith,
  get_or, Option, none, some,
}
use taek_os.Mp4.Vista.{
  Vista, be32, tipo_de, Hallado, ninguna, mala, hallada, buscar, Caja, acabada, rota, una, caja,
}
use taek_os.Mp4.Cajas.{fin, Halla, buscar-Halla, Cabe, caja-Cabe}
use taek_os.Mp4.Pista.{
  Mp4Resultado, mp4_ok, datos_invalidos, no_soportado, sin_memoria, limite_excedido, error_lectura,
  Pista, Cabeza, detenida, abierta, cabeza, tablas,
}
use taek_os.Mp4.Abrir.{
  Video, con_pista, durar, con_duracion, descuadra, validar, ctts_mala, con_ctts, tras_tablas,
  avcc_ajena, con_avcc, es_avc, extensiones, con_muestra, descripciones, con_stsd, pista_video,
}
use taek_os.Mp4.Tablas.{SiOk, TablaIsSana, TablasIsSana, Deja, tablas-Deja, Abre, cabeza-Abre}

abbrev pub CttsIsSana : List ℕ → ℕ → Option Vista → Type 0
CttsIsSana s m none = Unit {0}
CttsIsSana s m (some v) = TablaIsSana s m v 8

abbrev pub AvccIsSana : ℕ → Video → Type 0
AvccIsSana m v = (fin v.avcc ≤ m) × (7 ≤ v.avcc.n) × (0 < v.longitud_nal) × (v.longitud_nal ≤ 4)

abbrev pub VideoIsSano : List ℕ → ℕ → Video → Type 0
VideoIsSano s m v =
    TablasIsSana s m v.pista × AvccIsSana m v × CttsIsSana s m v.ctts × (0 < v.duracion_ticks)

-- A track is there after a success, and then `A`; it is not after a failure.
abbrev pub Queda : Mp4Resultado → Bool → Type 0 → Type 0
Queda mp4_ok t A = A × (t ≡ true)
Queda r t A = t ≡ false

pub Queda-tiene : (r : Mp4Resultado) (t : Bool) (A : Type 0) → Queda r t A → t ≡ true → A
Queda-tiene mp4_ok t A q e = q.0
Queda-tiene datos_invalidos t A q e = cc
Queda-tiene no_soportado t A q e = cc
Queda-tiene sin_memoria t A q e = cc
Queda-tiene limite_excedido t A q e = cc
Queda-tiene error_lectura t A q e = cc

pub parada :
    (r : Mp4Resultado) (b : Bool) (A : Type 0) → b ≡ false → SiOk r (true ≡ false) → Queda r b A
parada mp4_ok b A t h = cc
parada datos_invalidos b A t h = t
parada no_soportado b A t h = t
parada sin_memoria b A t h = t
parada limite_excedido b A t h = t
parada error_lectura b A t h = t

module _ (s : List ℕ) (m : ℕ) where
  abbrev pub Bien : Mp4Resultado × Video → Type 0
  Bien r = Queda r.0 r.1.pista.tiene (VideoIsSano s m r.1)

  con_duracion-Bien :
      (v : Video) (d : ℕ × Bool)
      → v.pista.tiene ≡ false
      → TablasIsSana s m v.pista
      → AvccIsSana m v
      → CttsIsSana s m v.ctts
      → Bien (con_duracion v d)
  con_duracion-Bien v (d, false) t p a c = t
  con_duracion-Bien v (d, true) t p a c =
      si Bien (d == 0) _ _ (λ e. t) (λ e. ((p, a, c, ground (arith, e)), refl))

  validar-Bien :
      (v : Video)
      → v.pista.tiene ≡ false
      → TablasIsSana s m v.pista
      → AvccIsSana m v
      → CttsIsSana s m v.ctts
      → Bien (validar s v)
  unfolding validar
  validar-Bien v t p a c =
      si Bien (descuadra s v) _ _ (λ e. t)
        (λ e. con_duracion-Bien v (durar s v.pista.stts (be32 s (v.pista.stts.p + 4)) 0 0) t p a c)

  ctts_lem : (v : Vista) → fin v ≤ m → ctts_mala s v ≡ false → TablaIsSana s m v 8
  ctts_lem v d e = (d, ground arith, ground arith)

  con_ctts-Bien :
      (v : Video) (h : Hallado)
      → Halla m h
      → v.pista.tiene ≡ false
      → TablasIsSana s m v.pista
      → AvccIsSana m v
      → Bien (con_ctts s v h)
  con_ctts-Bien v mala h t p a = t
  con_ctts-Bien v ninguna h t p a = validar-Bien (record v { ctts = none }) t p a tt
  con_ctts-Bien v (hallada w) h t p a =
      si Bien (ctts_mala s w) _ _ (λ e. t)
        (λ e. validar-Bien (record v { ctts = some w }) t p a (ctts_lem w h e))

  tras_tablas-Bien :
      (stbl : Vista)
      → fin stbl ≤ m
      → (v : Video) (r : Mp4Resultado × Pista) → AvccIsSana m v
      → Deja false (TablasIsSana s m) r
      → Bien (tras_tablas s stbl v r)
  tras_tablas-Bien stbl d v (mp4_ok, p) a h =
      con_ctts-Bien (con_pista v p) (buscar s stbl (tipo_de 99 116 116 115))
        (buscar-Halla s m stbl _ d) h.0 h.1 a
  tras_tablas-Bien stbl d v (datos_invalidos, p) a h = h.0
  tras_tablas-Bien stbl d v (no_soportado, p) a h = h.0
  tras_tablas-Bien stbl d v (sin_memoria, p) a h = h.0
  tras_tablas-Bien stbl d v (limite_excedido, p) a h = h.0
  tras_tablas-Bien stbl d v (error_lectura, p) a h = h.0

  con_avcc-Bien :
      (stbl : Vista)
      → fin stbl ≤ m
      → (v : Video) (h : Hallado) → Halla m h
      → v.pista.tiene ≡ false
      → 0 < v.pista.escala_tiempo
      → Bien (con_avcc s stbl v h)
  con_avcc-Bien stbl d v ninguna h t e = t
  con_avcc-Bien stbl d v mala h t e = t
  con_avcc-Bien stbl d v (hallada a) h t e =
      si Bien (ltb a.n 7) _ _ (λ i. t)
        (λ i.
          si Bien (avcc_ajena s a) _ _ (λ j. t)
            (λ j.
              tras_tablas-Bien stbl d
                (record v { avcc = a; longitud_nal = get_or s (a.p + 4) 0 % 4 + 1 })
                (tablas s stbl v.pista) (h, ground (arith, i), ground arith, omega arith)
                (tablas-Deja s m stbl d false v.pista t e)))

  con_muestra-Bien :
      (stbl : Vista)
      → fin stbl ≤ m
      → (v : Video) (w : Vista) (c : Caja) → Cabe w c
      → fin w ≤ m
      → v.pista.tiene ≡ false
      → 0 < v.pista.escala_tiempo
      → Bien (con_muestra s stbl v c)
  con_muestra-Bien stbl d v w acabada h k t e = t
  con_muestra-Bien stbl d v w rota h k t e = t
  con_muestra-Bien stbl d v w (una tipo x resto) h k t e =
      si Bien (not (es_avc tipo)) _ _ (λ i. t)
        (λ i.
          si Bien (ltb x.n 78) _ _ (λ j. t)
            (λ j.
              con_avcc-Bien stbl d v (buscar s (extensiones x) (tipo_de 97 118 99 67))
                (buscar-Halla s m (extensiones x) _ (ground (arith, h.0, k, j))) t e))

  con_stsd-Bien : (v : Video) (c : Cabeza) → Abre m false c → Bien (con_stsd s v c)
  con_stsd-Bien v (detenida r p) h = parada r p.tiene _ h.0 h.1
  con_stsd-Bien v (abierta p stbl stsd) h =
      si Bien (not (get_or s stsd.p 0 == 0) || not (be32 s (stsd.p + 4) == 1)) _ _ (λ i. h.0)
        (λ i.
          con_muestra-Bien stbl h.2 (con_pista v p) (descripciones stsd)
            (caja s (descripciones stsd)) (caja-Cabe s (descripciones stsd))
            (omega (arith, h.3, h.4)) h.0 h.1)

  pub pista_video-Bien :
      (v : Video) (trak : Vista)
      → fin trak ≤ m
      → v.pista.tiene ≡ false
      → Bien (pista_video s v trak)
  unfolding pista_video
  pista_video-Bien v trak d t =
      con_stsd-Bien v (cabeza s (tipo_de 118 105 100 101) trak v.pista)
        (cabeza-Abre s m false _ trak v.pista d t)
