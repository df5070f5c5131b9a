-- ===== src/Fuentes/Anillo.antt =====
-- The storage ring nucleo/controladores/multimedia/reproductor/anillo_almacenamiento.c.
use taek_os.Prelude.{
  ℕ, zero, suc, ◌+◌, ◌-◌, ◌%◌, ◌^◌, min, max, Bool, true, false, not, ◌&&◌, Option, none, some,
  List, [], ◌∷◌, ◌==◌, ltb, if◌then◌else◌, get_or, set, map, replicate,
}
use taek_os.Mp4.Fuente.{Leido, leidos, corta, negativa}

-- `anillo_estado`
pub data Estado : Type 0 where
  vacio llenando listo consumiendo : Estado

-- A slot: `anillo_bloque` with its `datos` and `tocado`.
pub record Bloque : Type 0 where
  pub offset : ℕ
  pub bytes : ℕ
  pub estado : Estado
  pub datos : List ℕ
  pub tocado : Bool

abbrev pub bloque_cero : Bloque
bloque_cero = record { offset = 0; bytes = 0; estado = vacio; datos = []; tocado = false }

-- `anillo_almacenamiento`, with the state of its source and of its callback.
pub record Anillo (W : Type 0) : Type 0 where
  pub mundo : W
  pub tamano : ℕ
  pub bloque_bytes : ℕ
  pub bloques : List Bloque
  pub productor_off : ℕ
  pub cola : ℕ
  pub cabeza : ℕ
  pub cantidad : ℕ
  pub leido : List ℕ
  pub pista_activa : List Bool
  pub lecturas : ℕ
  pub aciertos : ℕ
  pub fallos : ℕ
  pub reposiciones : ℕ
  pub bloques_leidos : ℕ
  pub bytes_leidos : ℕ
  pub evicciones : ℕ
  pub starvations : ℕ
  pub productor_paradas : ℕ
  pub bytes_inutiles : ℕ
  pub bytes_utiles : ℕ
  pub margen_min : ℕ
  pub margen_max : ℕ
  pub margen_suma : ℕ
  pub margen_muestras : ℕ

abbrev pub mas : ℕ → ℕ → ℕ
mas a b = (a + b) % 2 ^ 64

abbrev pub es_vacio : Estado → Bool
es_vacio vacio = true
es_vacio e = false

abbrev pub tiene : Bloque → ℕ → Bool
tiene b pos = not (es_vacio b.estado) && not (ltb pos b.offset) && ltb (pos - b.offset) b.bytes

-- The first of the `k` slots from place `i` of the window on that has the byte.
unfoldable pub buscar_lugar : List Bloque → ℕ → ℕ → ℕ → ℕ → Option ℕ
buscar_lugar l cabeza zero i pos = none
buscar_lugar l cabeza (suc k) i pos =
    let s = (cabeza + i) % 8 in
    if tiene (get_or l s bloque_cero) pos then some s else buscar_lugar l cabeza k (i + 1) pos

abbrev pub con_menor : ℕ → Option ℕ → ℕ
con_menor n none = n
con_menor n (some k) = min n k

-- The least `leido` of the tracks that are active, if any is.
unfoldable pub menor_leido : List ℕ → List Bool → Option ℕ
menor_leido [] l = none
menor_leido l [] = none
menor_leido (n ∷ l) (activa ∷ m) =
    let resto = menor_leido l m in if activa then some (con_menor n resto) else resto

abbrev pub vaciado : Bloque → Bloque
vaciado b = record b { estado = vacio }

-- The bytes of the window's slots that were touched, and of those that were not.
unfoldable pub contar_bytes : Bool → List Bloque → ℕ → ℕ → ℕ → ℕ
contar_bytes tocado l cabeza zero i = 0
contar_bytes tocado l cabeza (suc k) i =
    let b = get_or l ((cabeza + i) % 8) bloque_cero in
    (if (if tocado then b.tocado else not b.tocado) then b.bytes else 0)
    + contar_bytes tocado l cabeza k (i + 1)

-- What anillo_rellenar returns: 0, 1, or how far below zero. Its `(int)r` leaves an error of the source as it is: the
-- codes of the sources are small.
pub data Relleno : Type 0 where
  fin_archivo progreso : Relleno
  roto : ℕ → Relleno

module _ {W : Type 0} where
  abbrev pub primero : Anillo W → Bloque
  primero a = get_or a.bloques a.cabeza bloque_cero

  abbrev pub inicio : Anillo W → ℕ
  inicio a = if a.cantidad == 0 then a.productor_off else (primero a).offset

  abbrev pub o_inicio : Anillo W → Option ℕ → ℕ
  o_inicio a none = inicio a
  o_inicio a (some m) = m

  unfoldable pub anillo_min_leido : Anillo W → ℕ
  anillo_min_leido a = o_inicio a (menor_leido a.leido a.pista_activa)

  unfoldable pub anillo_buscar : Anillo W → ℕ → Option ℕ
  anillo_buscar a pos = buscar_lugar a.bloques a.cabeza a.cantidad 0 pos

  abbrev pub anillo_muestrear_margen : Anillo W → Anillo W
  anillo_muestrear_margen a =
      let m = a.productor_off - anillo_min_leido a in
      record a {
        margen_min = min m a.margen_min;
        margen_max = max m a.margen_max;
        margen_suma = mas a.margen_suma m;
        margen_muestras = mas a.margen_muestras 1;
      }

  abbrev pub anillo_descartar_todo : Anillo W → Anillo W
  anillo_descartar_todo a = record a {
    bytes_utiles = mas a.bytes_utiles (contar_bytes true a.bloques a.cabeza a.cantidad 0);
    bytes_inutiles = mas a.bytes_inutiles (contar_bytes false a.bloques a.cabeza a.cantidad 0);
    bloques = map vaciado a.bloques;
    cabeza = 0;
    cola = 0;
    cantidad = 0;
  }

  -- The oldest slot leaves the window.
  abbrev pub soltar : Anillo W → Anillo W
  soltar a = record a {
    bloques = set a.bloques a.cabeza (vaciado (primero a));
    cabeza = (a.cabeza + 1) % 8;
    cantidad = a.cantidad - 1;
    evicciones = mas a.evicciones 1;
  }

  -- The same in anillo_rellenar, which counts its bytes.
  abbrev pub evictar : Anillo W → Anillo W
  evictar a = record (soltar a) {
    bytes_utiles =
        if (primero a).tocado then mas a.bytes_utiles (primero a).bytes else a.bytes_utiles;
    bytes_inutiles =
        if (primero a).tocado then a.bytes_inutiles else mas a.bytes_inutiles (primero a).bytes;
  }

  abbrev pub por_producir : Anillo W → ℕ
  por_producir a = min (a.tamano - a.productor_off) a.bloque_bytes

  abbrev pub con_bloque : Anillo W → Bloque → W → Anillo W
  con_bloque a b w = record a { bloques = set a.bloques a.cola b; mundo = w }

  abbrev pub producido : Anillo W → List ℕ → W → Anillo W
  producido a datos w =
      let n = por_producir a in
      record (con_bloque a
        (record {
          offset = a.productor_off;
          bytes = n;
          estado = listo;
          datos = datos;
          tocado = false;
        })
        w) {
          productor_off = a.productor_off + n;
          cola = (a.cola + 1) % 8;
          cantidad = a.cantidad + 1;
          bloques_leidos = mas a.bloques_leidos 1;
          bytes_leidos = mas a.bytes_leidos n;
        }

  -- The slot of a read that fails; the bytes that it leaves there are read by nobody.
  abbrev pub fallido : Anillo W → W → Anillo W
  fallido a w =
      con_bloque a (record (get_or a.bloques a.cola bloque_cero) { estado = vacio; datos = [] }) w

  abbrev pub tras_leer : (Anillo W → Relleno × Anillo W) → Anillo W → Leido × W → Relleno × Anillo W
  tras_leer sigue a (leidos datos, w) = sigue (anillo_muestrear_margen (producido a datos w))
  tras_leer sigue a (corta, w) = (roto 1, fallido a w)
  tras_leer sigue a (negativa r, w) = (roto r, fallido a w)

  abbrev pub protegido : Anillo W → Bool
  protegido a = a.cantidad == 8 && ltb (anillo_min_leido a) ((primero a).offset + (primero a).bytes)

-- On a source in state `w`, for a file of `tamano` bytes.
unfoldable pub anillo_iniciar : {W : Type 0} → W → ℕ → Anillo W
anillo_iniciar w tamano = record {
  mundo = w;
  tamano = tamano;
  bloque_bytes = 131072;
  bloques = replicate 8 bloque_cero;
  productor_off = 0;
  cola = 0;
  cabeza = 0;
  cantidad = 0;
  leido = replicate 4 0;
  pista_activa = replicate 4 false;
  lecturas = 0;
  aciertos = 0;
  fallos = 0;
  reposiciones = 0;
  bloques_leidos = 0;
  bytes_leidos = 0;
  evicciones = 0;
  starvations = 0;
  productor_paradas = 0;
  bytes_inutiles = 0;
  bytes_utiles = 0;
  margen_min = 2 ^ 64 - 1;
  margen_max = 0;
  margen_suma = 0;
  margen_muestras = 0;
}
