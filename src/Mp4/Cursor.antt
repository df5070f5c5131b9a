-- ===== src/Mp4/Cursor.antt =====
-- The samples of a track one after the other, in nucleo/controladores/multimedia/mp4/mp4.c.
use taek_os.Prelude.{
  ℕ, zero, suc, ◌+◌, ◌-◌, ◌*◌, ◌%◌, ◌^◌, Bool, true, false, not, ◌&&◌, ◌||◌, Option, none, some,
  List, ◌==◌, ltb, leb, if◌then◌else◌,
}
use taek_os.Mp4.Vista.{Vista, be32, be64}
use taek_os.Mp4.Pista.{
  Mp4Resultado, mp4_ok, datos_invalidos, limite_excedido, error_lectura, Pista, primero_de,
  por_fragmento,
}
use taek_os.Mp4.Fuente.{en_muestra, Lectura, Lector, mp4_leer_exacto}

-- The fields of `mp4_contenedor` that move, with a `v_` and with an `a_` (`tiempo` is v_tiempo_decodificacion and
-- a_tiempo).
pub record Cursor : Type 0 where
  pub indice : ℕ
  pub fragmento : ℕ
  pub muestra_fragmento : ℕ
  pub regla_fragmento : ℕ
  pub regla_tiempo : ℕ
  pub restante_tiempo : ℕ
  pub offset_muestra : ℕ
  pub tiempo : ℕ

-- Those of the video alone besides.
pub record CursorVideo : Type 0 where
  pub cursor : Cursor
  pub regla_composicion : ℕ
  pub restante_composicion : ℕ

abbrev pub cursor_cero : Cursor
cursor_cero = record {
  indice = 0;
  fragmento = 0;
  muestra_fragmento = 0;
  regla_fragmento = 0;
  regla_tiempo = 0;
  restante_tiempo = 0;
  offset_muestra = 0;
  tiempo = 0;
}

unfoldable pub mp4_rebobinar_audio : Cursor → Cursor
mp4_rebobinar_audio c = cursor_cero

unfoldable pub mp4_rebobinar_video : CursorVideo → CursorVideo
mp4_rebobinar_video c = record {
  cursor = cursor_cero;
  regla_composicion = 0;
  restante_composicion = 0;
}

-- Where the bytes of a sample are: nowhere, for a cursor that only looks ahead, at a position of the file, or in the
-- buffer that they were read into.
pub data Muestra : Type 0 where
  sin_datos : Muestra
  en_archivo : ℕ → Muestra
  en_bufer : List ℕ → Muestra

-- Where a container reads: in memory, or by `leer_fuente` into a buffer, if there is one, of a capacity.
pub data Origen (W : Type 0) : Type 0 where
  en_memoria : Origen W
  por_lectura : Lectura W → Bool → ℕ → Origen W

module _ {W : Type 0} where
  abbrev pub con_lectura : Option (List ℕ) × Lector W → (Mp4Resultado × Muestra) × Lector W
  con_lectura (none, l) = ((error_lectura, sin_datos), l)
  con_lectura (some s, l) = ((mp4_ok, en_bufer s), l)

  abbrev pub segun_origen :
      Origen W → Bool → ℕ → ℕ → ℕ → Lector W → (Mp4Resultado × Muestra) × Lector W
  segun_origen o true pista offset tam l = ((mp4_ok, sin_datos), l)
  segun_origen en_memoria false pista offset tam l = ((mp4_ok, en_archivo offset), l)
  segun_origen (por_lectura leer hay capacidad) false pista offset tam l =
      if not hay || ltb capacidad tam
      then ((limite_excedido, sin_datos), l)
      else con_lectura (mp4_leer_exacto leer pista offset en_muestra tam l)

  unfoldable pub mp4_leer_muestra :
      Origen W → Bool → ℕ → ℕ → ℕ → ℕ → Lector W → (Mp4Resultado × Muestra) × Lector W
  mp4_leer_muestra o solo_indice bytes pista offset tam l =
      if ltb bytes offset || ltb (bytes - offset) tam
      then ((datos_invalidos, sin_datos), l)
      else segun_origen o solo_indice pista offset tam l

-- The rule of the chunk, from the rule of an earlier one on; on fuel, for the rules there are. Neither sum passes 32
-- bits: the rule and the chunk are below counts of 32 bits.
unfoldable pub avanzar_regla : List ℕ → Vista → ℕ → ℕ → ℕ → ℕ
avanzar_regla s stsc zero regla fragmento = regla
avanzar_regla s stsc (suc f) regla fragmento =
    if ltb (regla + 1) (be32 s (stsc.p + 4)) && leb (primero_de s stsc (regla + 1)) (fragmento + 1)
    then avanzar_regla s stsc f (regla + 1) fragmento
    else regla

abbrev pub posicion_de : List ℕ → Pista → ℕ → ℕ
posicion_de s p fragmento =
    if p.offsets_64
    then be64 s (p.stco.p + 8 + fragmento * 8)
    else be32 s (p.stco.p + 8 + fragmento * 4)

-- At the first sample of a chunk: where it begins, and its rule. `none` past the last chunk.
unfoldable pub ubicar : List ℕ → Pista → Cursor → Option Cursor
ubicar s p c =
    if not (c.muestra_fragmento == 0)
    then some c
    else if not (ltb c.fragmento (be32 s (p.stco.p + 4)))
    then none
    else some (record c {
      offset_muestra = posicion_de s p c.fragmento;
      regla_fragmento =
          avanzar_regla s p.stsc (be32 s (p.stsc.p + 4)) c.regla_fragmento c.fragmento;
    })

unfoldable pub tamano_de : List ℕ → Pista → ℕ → ℕ
tamano_de s p indice =
    let t = be32 s (p.stsz.p + 4) in if t == 0 then be32 s (p.stsz.p + 12 + indice * 4) else t

-- The samples that are left of the entry of `stts`. `none` past the last entry.
unfoldable pub cronometrar : List ℕ → Pista → Cursor → Option Cursor
cronometrar s p c =
    if not (c.restante_tiempo == 0)
    then some c
    else if not (ltb c.regla_tiempo (be32 s (p.stts.p + 4)))
    then none
    else some (record c { restante_tiempo = be32 s (p.stts.p + 8 + c.regla_tiempo * 8) })

abbrev pub delta_de : List ℕ → Pista → Cursor → ℕ
delta_de s p c = be32 s (p.stts.p + 12 + c.regla_tiempo * 8)

-- The cursor after a sample.
unfoldable pub adelantar : List ℕ → Pista → ℕ → ℕ → Cursor → Cursor
adelantar s p tam delta c =
    let restante = (c.restante_tiempo + 2 ^ 32 - 1) % 2 ^ 32 in
    let m = (c.muestra_fragmento + 1) % 2 ^ 32 in
    let acaba = m == por_fragmento s p.stsc c.regla_fragmento in
    record c {
      offset_muestra = (c.offset_muestra + tam) % 2 ^ 64;
      tiempo = (c.tiempo + delta) % 2 ^ 64;
      restante_tiempo = restante;
      regla_tiempo = if restante == 0 then (c.regla_tiempo + 1) % 2 ^ 32 else c.regla_tiempo;
      indice = (c.indice + 1) % 2 ^ 32;
      muestra_fragmento = if acaba then 0 else m;
      fragmento = if acaba then (c.fragmento + 1) % 2 ^ 32 else c.fragmento;
    }
