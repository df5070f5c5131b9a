-- ===== src/Mp4/Abrir.antt =====
-- Opening a container in memory, in nucleo/controladores/multimedia/mp4/mp4.c.
use taek_os.Prelude.{
  ℕ, zero, suc, ◌+◌, ◌-◌, ◌*◌, ◌/◌, ◌%◌, ◌^◌, Bool, true, false, not, ◌&&◌, ◌||◌, Option, none,
  some, List, ◌==◌, ltb, if◌then◌else◌, get_or, length,
}
use taek_os.Mp4.Vista.{
  Vista, nula, be16, be32, tipo_de, Caja, acabada, rota, una, caja, Hallado, ninguna, mala, hallada,
  buscar,
}
use taek_os.Mp4.Pista.{
  Mp4Resultado, mp4_ok, datos_invalidos, no_soportado, limite_excedido, Pista, Cabeza, detenida,
  abierta, cabeza, tablas, reglas_bien, igual,
}

pub record Video : Type 0 where
  pub pista : Pista
  pub avcc : Vista
  pub ctts : Option Vista
  pub duracion_ticks : ℕ
  pub longitud_nal : ℕ

pub record Audio : Type 0 where
  pub pista : Pista
  pub canales : ℕ
  pub frecuencia : ℕ

abbrev pub con_pista : Video → Pista → Video
con_pista v p = record v { pista = p }

abbrev pub oye : Audio → Pista → Audio
oye a p = record a { pista = p }

-- The samples that `k` entries from `i` of a table of times count, if none of them counts none.
unfoldable pub contar : List ℕ → Vista → ℕ → ℕ → ℕ → Option ℕ
contar s v zero i cuenta = some cuenta
contar s v (suc k) i cuenta =
    let n = be32 s (v.p + 8 + i * 8) in
    let resto = contar s v k (i + 1) ((cuenta + n) % 2 ^ 64) in if n == 0 then none else resto

abbrev pub cuenta_bien : List ℕ → Vista → ℕ → Bool
cuenta_bien s v muestras = igual (contar s v (be32 s (v.p + 4)) 0 0) muestras

abbrev pub cuenta_ctts : List ℕ → Option Vista → ℕ → Bool
cuenta_ctts s none muestras = true
cuenta_ctts s (some v) muestras = cuenta_bien s v muestras

-- The sum of the durations, up to where it no longer fits 64 bits, and whether it all fits.
unfoldable pub durar : List ℕ → Vista → ℕ → ℕ → ℕ → ℕ × Bool
durar s v zero i d = (d, true)
durar s v (suc k) i d =
    let n = be32 s (v.p + 8 + i * 8) in
    let delta = be32 s (v.p + 12 + i * 8) in
    let resto = durar s v k (i + 1) ((d + n * delta) % 2 ^ 64) in
    if not (delta == 0) && ltb ((2 ^ 64 - 1 - d) / delta) n then (d, false) else resto

abbrev pub con_duracion : Video → ℕ × Bool → Mp4Resultado × Video
con_duracion v (d, false) = (limite_excedido, record v { duracion_ticks = d })
con_duracion v (d, true) =
    if d == 0
    then (datos_invalidos, record v { duracion_ticks = d })
    else (mp4_ok, record v { duracion_ticks = d; pista = record v.pista { tiene = true } })

-- Do the tables disagree on how many samples there are?
abbrev pub descuadra : List ℕ → Video → Bool
descuadra s v =
    not (reglas_bien s v.pista)
    || not (cuenta_bien s v.pista.stts v.pista.muestras)
    || not (cuenta_ctts s v.ctts v.pista.muestras)

unfoldable pub validar : List ℕ → Video → Mp4Resultado × Video
validar s v =
    if descuadra s v
    then (datos_invalidos, v)
    else con_duracion v (durar s v.pista.stts (be32 s (v.pista.stts.p + 4)) 0 0)

abbrev pub ctts_mala : List ℕ → Vista → Bool
ctts_mala s v =
    ltb v.n 8
    || ltb 1 (get_or s v.p 0)
    || be32 s (v.p + 4) == 0
    || ltb ((v.n - 8) / 8) (be32 s (v.p + 4))

abbrev pub con_ctts : List ℕ → Video → Hallado → Mp4Resultado × Video
con_ctts s v mala = (datos_invalidos, v)
con_ctts s v ninguna = validar s (record v { ctts = none })
con_ctts s v (hallada w) =
    if ctts_mala s w
    then (datos_invalidos, record v { ctts = none })
    else validar s (record v { ctts = some w })

abbrev pub tras_tablas : List ℕ → Vista → Video → Mp4Resultado × Pista → Mp4Resultado × Video
tras_tablas s stbl v (mp4_ok, p) =
    con_ctts s (con_pista v p) (buscar s stbl (tipo_de 99 116 116 115))
tras_tablas s stbl v (r, p) = (r, con_pista v p)

abbrev pub avcc_ajena : List ℕ → Vista → Bool
avcc_ajena s a = not (get_or s a.p 0 == 1) || get_or s (a.p + 4) 0 % 4 == 2

abbrev pub con_avcc : List ℕ → Vista → Video → Hallado → Mp4Resultado × Video
con_avcc s stbl v ninguna = (datos_invalidos, v)
con_avcc s stbl v mala = (datos_invalidos, v)
con_avcc s stbl v (hallada a) =
    if ltb a.n 7
    then (datos_invalidos, v)
    else if avcc_ajena s a
    then (no_soportado, v)
    else tras_tablas s stbl (record v { avcc = a; longitud_nal = get_or s (a.p + 4) 0 % 4 + 1 })
        (tablas s stbl v.pista)

abbrev pub es_avc : ℕ → Bool
es_avc t = t == tipo_de 97 118 99 49 || t == tipo_de 97 118 99 51

abbrev pub extensiones : Vista → Vista
extensiones muestra = record { p = muestra.p + 78; n = muestra.n - 78 }

abbrev pub con_muestra : List ℕ → Vista → Video → Caja → Mp4Resultado × Video
con_muestra s stbl v acabada = (datos_invalidos, v)
con_muestra s stbl v rota = (datos_invalidos, v)
con_muestra s stbl v (una t m resto) =
    if not (es_avc t)
    then (no_soportado, v)
    else if ltb m.n 78
    then (datos_invalidos, v)
    else con_avcc s stbl v (buscar s (extensiones m) (tipo_de 97 118 99 67))

abbrev pub descripciones : Vista → Vista
descripciones stsd = record { p = stsd.p + 8; n = stsd.n - 8 }

abbrev pub con_stsd : List ℕ → Video → Cabeza → Mp4Resultado × Video
con_stsd s v (detenida r p) = (r, con_pista v p)
con_stsd s v (abierta p stbl stsd) =
    if not (get_or s stsd.p 0 == 0) || not (be32 s (stsd.p + 4) == 1)
    then (no_soportado, con_pista v p)
    else con_muestra s stbl (con_pista v p) (caja s (descripciones stsd))

unfoldable pub pista_video : List ℕ → Video → Vista → Mp4Resultado × Video
pista_video s v trak = con_stsd s v (cabeza s (tipo_de 118 105 100 101) trak v.pista)

abbrev pub con_reglas : List ℕ → Audio → Mp4Resultado × Pista → Mp4Resultado × Audio
con_reglas s a (mp4_ok, p) =
    if not (reglas_bien s p)
    then (datos_invalidos, oye a p)
    else (mp4_ok, oye a (record p { tiene = true }))
con_reglas s a (r, p) = (r, oye a p)

-- The channels and the rate that the description of samples gives, or those taken instead.
abbrev pub con_sonido : List ℕ → Audio → Vista → Audio
con_sonido s a m =
    let canales = be16 s (m.p + 16) in
    let frecuencia = be32 s (m.p + 24) / 2 ^ 16 in
    record a {
      canales = if canales == 0 then 2 else canales;
      frecuencia = if frecuencia == 0 then a.pista.escala_tiempo else frecuencia;
    }

abbrev pub suena : List ℕ → Vista → Audio → Caja → Mp4Resultado × Audio
suena s stbl a acabada = (datos_invalidos, a)
suena s stbl a rota = (datos_invalidos, a)
suena s stbl a (una t m resto) =
    if not (t == tipo_de 109 112 52 97)
    then (no_soportado, a)
    else if ltb m.n 28
    then (datos_invalidos, a)
    else con_reglas s (con_sonido s a m) (tablas s stbl a.pista)

abbrev pub con_descripciones : List ℕ → Audio → Cabeza → Mp4Resultado × Audio
con_descripciones s a (detenida r p) = (r, oye a p)
con_descripciones s a (abierta p stbl stsd) =
    if not (get_or s stsd.p 0 == 0) || be32 s (stsd.p + 4) == 0
    then (no_soportado, oye a p)
    else suena s stbl (oye a p) (caja s (descripciones stsd))

unfoldable pub pista_audio : List ℕ → Audio → Vista → Mp4Resultado × Audio
pista_audio s a trak = con_descripciones s a (cabeza s (tipo_de 115 111 117 110) trak a.pista)

-- The tracks of `mp4_contenedor`.
pub record Contenedor : Type 0 where
  pub video : Video
  pub audio : Audio

abbrev pub sin_pista : Pista
sin_pista = record {
  tiene = false;
  stsz = nula;
  stsc = nula;
  stco = nula;
  stts = nula;
  muestras = 0;
  escala_tiempo = 0;
  offsets_64 = false;
}

-- `mp4_cero`
abbrev pub cero : Contenedor
cero = record {
  video = record {
    pista = sin_pista;
    avcc = nula;
    ctts = none;
    duracion_ticks = 0;
    longitud_nal = 0;
  };
  audio = record { pista = sin_pista; canales = 0; frecuencia = 0 };
}

abbrev pub probar_audio : List ℕ → Vista → Contenedor → Contenedor
probar_audio s trak c =
    if c.audio.pista.tiene then c else record c { audio = (pista_audio s c.audio trak).1 }

abbrev pub tras_video : List ℕ → Vista → Contenedor → Mp4Resultado × Video → Contenedor
tras_video s trak c (mp4_ok, v) = record c { video = v }
tras_video s trak c (r, v) = probar_audio s trak (record c { video = v })

abbrev pub con_trak : List ℕ → ℕ → Vista → Contenedor → Contenedor
con_trak s t trak c =
    if not (t == tipo_de 116 114 97 107)
    then c
    else if c.video.pista.tiene
    then probar_audio s trak c
    else tras_video s trak c (pista_video s c.video trak)

abbrev pub sigue_trak : List ℕ → Contenedor → Caja → (Vista → Contenedor → Contenedor) → Contenedor
sigue_trak s c acabada sigue = c
sigue_trak s c rota sigue = c
sigue_trak s c (una t trak resto) sigue = sigue resto (con_trak s t trak c)

-- The boxes of `moov`, on fuel: a box takes up a byte at least.
unfoldable pub pistas : List ℕ → ℕ → Vista → Contenedor → Contenedor
pistas s zero moov c = c
pistas s (suc f) moov c = sigue_trak s c (caja s moov) (λ resto d. pistas s f resto d)

abbrev pub con_alguna : Contenedor → Mp4Resultado × Contenedor
con_alguna c =
    if not c.video.pista.tiene && not c.audio.pista.tiene then (no_soportado, c) else (mp4_ok, c)

unfoldable pub mp4_parsear_moov : List ℕ → Contenedor → Vista → Mp4Resultado × Contenedor
mp4_parsear_moov s c moov = con_alguna (pistas s moov.n moov c)

abbrev pub con_moov : List ℕ → Hallado → Mp4Resultado × Contenedor
con_moov s ninguna = (datos_invalidos, cero)
con_moov s mala = (datos_invalidos, cero)
con_moov s (hallada moov) = mp4_parsear_moov s cero moov

abbrev pub todo : List ℕ → Vista
todo s = record { p = 0; n = length s }

-- On the file's bytes. `m` is what the container held.
unfoldable pub mp4_abrir : Contenedor → List ℕ → Mp4Resultado × Contenedor
mp4_abrir m s =
    if ltb (length s) 8
    then (datos_invalidos, m)
    else con_moov s (buscar s (todo s) (tipo_de 109 111 111 118))
