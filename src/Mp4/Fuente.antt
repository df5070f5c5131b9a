-- ===== src/Mp4/Fuente.antt =====
-- Opening a container by reads of a source, in nucleo/controladores/multimedia/mp4/mp4.c.
use taek_os.Prelude.{
  ℕ, zero, suc, ◌+◌, ◌-◌, ◌^◌, Bool, not, ◌||◌, Option, none, some, List, [], ◌∷◌, ◌==◌, ltb,
  if◌then◌else◌,
}
use taek_os.Mp4.Vista.{tipo_de, be32, be64, Caja, acabada, rota, una, caja}
use taek_os.Mp4.Pista.{Mp4Resultado, datos_invalidos, limite_excedido, error_lectura}
use taek_os.Mp4.Abrir.{Contenedor, cero, todo, mp4_parsear_moov}

-- What a read gives: the bytes asked for, fewer, or an error, `r` below zero.
pub data Leido : Type 0 where
  leidos : List ℕ → Leido
  corta : Leido
  negativa : ℕ → Leido

-- `leer_fuente` over a state `W` of its own: the track, the position and how many bytes.
abbrev pub Lectura : Type 0 → Type 0
Lectura W = W → ℕ → ℕ → ℕ → Leido × W

-- The buffers that reads go to: `h` of mp4_abrir_fuente, of 16 bytes, the caller's for metadata and those for samples.
pub data Destino : Type 0 where
  en_h en_metadatos en_muestra : Destino

-- A read that was asked for: the position, the buffer and how many bytes.
pub record Pedida : Type 0 where
  pub offset : ℕ
  pub destino : Destino
  pub cantidad : ℕ

-- The source, `ultimo_error_lectura` (how far below zero) and the reads asked for, the last one first.
pub record Lector (W : Type 0) : Type 0 where
  pub mundo : W
  pub ultimo_error_lectura : ℕ
  pub pedidas : List Pedida

abbrev pub Abierta : Type 0 → Type 0
Abierta W = (Mp4Resultado × Contenedor) × Lector W

module _ {W : Type 0} where
  abbrev pub con_leido : Lector W → Leido → Option (List ℕ) × Lector W
  con_leido l (leidos h) = (some h, l)
  con_leido l corta = (none, record l { ultimo_error_lectura = 5 })
  con_leido l (negativa r) = (none, record l { ultimo_error_lectura = r })

  abbrev pub pedida : Lector W → ℕ → Destino → ℕ → W → Lector W
  pedida l offset destino cantidad w = record l {
    mundo = w;
    pedidas = record { offset = offset; destino = destino; cantidad = cantidad } ∷ l.pedidas;
  }

  unfoldable pub mp4_leer_exacto :
      Lectura W → ℕ → ℕ → Destino → ℕ → Lector W → Option (List ℕ) × Lector W
  mp4_leer_exacto leer pista offset destino cantidad l =
      let r = leer l.mundo pista offset cantidad in
      con_leido (pedida l offset destino cantidad r.1) r.0

  abbrev pub negada : Mp4Resultado → Lector W → Abierta W
  negada r l = ((r, cero), l)

  -- After a read that has to succeed.
  abbrev pub leida : (List ℕ → Lector W → Abierta W) → Option (List ℕ) × Lector W → Abierta W
  leida sigue (none, l) = negada error_lectura l
  leida sigue (some h, l) = sigue h l

  -- The box that the metadata begin with.
  abbrev pub con_caja : List ℕ → Lector W → Caja → Abierta W
  con_caja s l acabada = negada datos_invalidos l
  con_caja s l rota = negada datos_invalidos l
  con_caja s l (una t moov resto) =
      if not (t == tipo_de 109 111 111 118)
      then negada datos_invalidos l
      else (mp4_parsear_moov s cero moov, l)

-- `capacidad` is `metadatos_capacidad`.
module _ {W : Type 0} (leer : Lectura W) (bytes capacidad : ℕ) where
  unfoldable pub leer_moov : ℕ → ℕ → Lector W → Abierta W
  leer_moov offset tam l =
      if ltb capacidad tam || ltb (2 ^ 64 - 1) tam
      then negada limite_excedido l
      else leida (λ s m. con_caja s m (caja s (todo s)))
          (mp4_leer_exacto leer 0 offset en_metadatos tam l)

  -- The box at `offset`, of the type and with the sizes that its header gives; the next one is at `sigue`'s argument.
  unfoldable pub con_tamano : ℕ → ℕ → ℕ → ℕ → (ℕ → Lector W → Abierta W) → Lector W → Abierta W
  con_tamano offset t tam cabecera sigue l =
      if ltb tam cabecera || ltb (bytes - offset) tam
      then negada datos_invalidos l
      else if t == tipo_de 109 111 111 118
      then leer_moov offset tam l
      else sigue (offset + tam) l

  unfoldable pub con_cabecera : ℕ → (ℕ → Lector W → Abierta W) → List ℕ → Lector W → Abierta W
  con_cabecera offset sigue h l =
      let tam = be32 h 0 in
      let t = be32 h 4 in
      if not (tam == 1)
      then con_tamano offset t (if tam == 0 then bytes - offset else tam) 8 sigue l
      else if ltb (bytes - offset) 16
      then negada datos_invalidos l
      else leida (λ g m. con_tamano offset t (be64 g 8) 16 sigue m)
          (mp4_leer_exacto leer 0 offset en_h 16 l)

  -- The loop over the boxes, on fuel: a box takes up eight bytes at least.
  unfoldable pub abrir_desde : ℕ → ℕ → Lector W → Abierta W
  abrir_desde zero offset l = negada datos_invalidos l
  abrir_desde (suc f) offset l =
      if ltb (bytes - 8) offset
      then negada datos_invalidos l
      else leida (con_cabecera offset (λ o m. abrir_desde f o m))
          (mp4_leer_exacto leer 0 offset en_h 8 l)

  -- `hay` says that both buffers for samples are there, with a capacity. `m` is what the container held.
  unfoldable pub mp4_abrir_fuente : Bool → Contenedor → W → Abierta W
  mp4_abrir_fuente hay m w =
      let l : Lector W = record { mundo = w; ultimo_error_lectura = 0; pedidas = [] } in
      if not hay || ltb capacidad 8 || ltb bytes 8
      then ((datos_invalidos, m), l)
      else abrir_desde bytes 0 l
