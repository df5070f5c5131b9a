-- ===== src/Mp4/Siguiente.antt =====
-- mp4_siguiente_video and mp4_siguiente_audio of nucleo/controladores/multimedia/mp4/mp4.c.
use taek_os.Prelude.{
  ℕ, ◌+◌, ◌-◌, ◌*◌, ◌%◌, ◌^◌, Bool, true, false, not, Option, none, some, List, ◌==◌, ltb,
  if◌then◌else◌, get_or,
}
use taek_os.Mp4.Vista.{Vista, be32}
use taek_os.Mp4.Pista.{Mp4Resultado, mp4_ok, datos_invalidos, limite_excedido, Pista}
use taek_os.Mp4.Abrir.{Video, Audio}
use taek_os.Mp4.Fuente.{Lector}
use taek_os.Mp4.Cursor.{
  Cursor, CursorVideo, Muestra, Origen, mp4_leer_muestra, ubicar, tamano_de, cronometrar, delta_de,
  adelantar,
}

-- Integers, for presentation times: `negsuc n` is n + 1 below zero.
pub data ℤ : Type 0 where
  pos negsuc : ℕ → ℤ

-- `a` and the 32 bits `u` as a signed number.
abbrev pub con_signo : ℕ → ℕ → ℤ
con_signo a u =
    if ltb u (2 ^ 31)
    then pos (a + u)
    else if ltb a (2 ^ 32 - u)
    then negsuc (2 ^ 32 - u - a - 1)
    else pos (a - (2 ^ 32 - u))

-- `(int64_t)` of a number of 64 bits.
abbrev pub int64 : ℕ → ℤ
int64 t = if ltb t (2 ^ 63) then pos t else negsuc (2 ^ 64 - 1 - t)

-- What a container reads its samples from: the bytes of the file, where they are, and `solo_indice`.
pub record Medio (W : Type 0) : Type 0 where
  pub origen : Origen W
  pub bytes : ℕ
  pub solo_indice : Bool

-- The result of a call: 0, an error below zero, or 1 with the sample, its size and its times.
pub data Retorno (T : Type 0) : Type 0 where
  final : Retorno T
  fallo : Mp4Resultado → Retorno T
  entrega : Muestra → ℕ → T → Retorno T

-- A call's result, with the cursor `C` and the source after it.
abbrev pub Paso : Type 0 → Type 0 → Type 0 → Type 0
Paso T C W = Retorno T × C × Lector W

-- After the read of a sample: an error leaves the cursor as it was before the read.
abbrev pub con_muestra_leida :
    {T C W : Type 0} → C → C → ℕ → T → (Mp4Resultado × Muestra) × Lector W → Paso T C W
con_muestra_leida antes despues tam t ((mp4_ok, m), l) = (entrega m tam t, despues, l)
con_muestra_leida antes despues tam t ((r, m), l) = (fallo r, antes, l)

-- The 32 bits of the composition offset, whether they have a sign, and the cursor after it.
abbrev pub compuesto : List ℕ → Vista → CursorVideo → ℕ → (ℕ × Bool) × CursorVideo
compuesto s v c restante =
    let r = (restante + 2 ^ 32 - 1) % 2 ^ 32 in
    (
      (be32 s (v.p + 12 + c.regla_composicion * 8), not (get_or s v.p 0 == 0)),
      record c {
        restante_composicion = r;
        regla_composicion =
            if r == 0 then (c.regla_composicion + 1) % 2 ^ 32 else c.regla_composicion;
      },
    )

unfoldable pub componer : List ℕ → Option Vista → CursorVideo → Option ((ℕ × Bool) × CursorVideo)
componer s none c = some ((0, false), c)
componer s (some v) c =
    if not (c.restante_composicion == 0)
    then some (compuesto s v c c.restante_composicion)
    else if not (ltb c.regla_composicion (be32 s (v.p + 4)))
    then none
    else some (compuesto s v c (be32 s (v.p + 8 + c.regla_composicion * 8)))

abbrev pub presentacion : ℕ → ℕ × Bool → ℤ
presentacion tiempo (u, true) = con_signo tiempo u
presentacion tiempo (u, false) = pos (tiempo + u)

abbrev pub en : CursorVideo → Cursor → CursorVideo
en c d = record c { cursor = d }

module _ {W : Type 0} (medio : Medio W) (s : List ℕ) where
  abbrev pub leer_sonido : Pista → ℕ → Cursor → Lector W → Paso ℤ Cursor W
  leer_sonido p tam c l =
      con_muestra_leida c (adelantar s p tam (delta_de s p c) c) tam (int64 c.tiempo)
        (mp4_leer_muestra medio.origen medio.solo_indice medio.bytes 1 c.offset_muestra tam l)

  abbrev pub medir_sonido : Pista → ℕ → Cursor → Option Cursor → Lector W → Paso ℤ Cursor W
  medir_sonido p tam c none l = (fallo datos_invalidos, c, l)
  medir_sonido p tam c (some d) l = leer_sonido p tam d l

  abbrev pub ubicar_sonido : Pista → Cursor → Option Cursor → Lector W → Paso ℤ Cursor W
  ubicar_sonido p c none l = (fallo datos_invalidos, c, l)
  ubicar_sonido p c (some d) l =
      let tam = tamano_de s p d.indice in
      if tam == 0 then (fallo datos_invalidos, d, l) else medir_sonido p tam d (cronometrar s p d) l

  unfoldable pub mp4_siguiente_audio : Audio → Cursor → Lector W → Paso ℤ Cursor W
  mp4_siguiente_audio a c l =
      if not a.pista.tiene
      then (fallo datos_invalidos, c, l)
      else if c.indice == a.pista.muestras
      then (final, c, l)
      else ubicar_sonido a.pista c (ubicar s a.pista c) l

  -- `d` is the cursor before the composition offset was taken.
  abbrev pub leer_imagen :
      Pista
      → ℕ
      → CursorVideo
      → Option ((ℕ × Bool) × CursorVideo)
      → Lector W
      → Paso (ℤ × ℕ) CursorVideo W
  leer_imagen p tam d none l = (fallo datos_invalidos, d, l)
  leer_imagen p tam d (some (u, e)) l =
      let delta = delta_de s p e.cursor in
      if ltb (2 ^ 63 - 1 - (2 ^ 32 - 1)) e.cursor.tiempo
      then (fallo limite_excedido, e, l)
      else con_muestra_leida e (record e { cursor = adelantar s p tam delta e.cursor }) tam
          (presentacion e.cursor.tiempo u, delta)
          (mp4_leer_muestra medio.origen medio.solo_indice medio.bytes 0 e.cursor.offset_muestra tam
            l)

  abbrev pub medir_imagen :
      Video → ℕ → CursorVideo → Option Cursor → Lector W → Paso (ℤ × ℕ) CursorVideo W
  medir_imagen v tam c none l = (fallo datos_invalidos, c, l)
  medir_imagen v tam c (some d) l = leer_imagen v.pista tam (en c d) (componer s v.ctts (en c d)) l

  abbrev pub ubicar_imagen :
      Video → CursorVideo → Option Cursor → Lector W → Paso (ℤ × ℕ) CursorVideo W
  ubicar_imagen v c none l = (fallo datos_invalidos, c, l)
  ubicar_imagen v c (some d) l =
      let tam = tamano_de s v.pista d.indice in
      if tam == 0
      then (fallo datos_invalidos, en c d, l)
      else medir_imagen v tam (en c d) (cronometrar s v.pista d) l

  unfoldable pub mp4_siguiente_video : Video → CursorVideo → Lector W → Paso (ℤ × ℕ) CursorVideo W
  mp4_siguiente_video v c l =
      if not v.pista.tiene
      then (fallo datos_invalidos, c, l)
      else if c.cursor.indice == v.pista.muestras
      then (final, c, l)
      else ubicar_imagen v c (ubicar s v.pista c.cursor) l
