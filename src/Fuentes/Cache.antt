-- ===== src/Fuentes/Cache.antt =====
-- The read-ahead cache nucleo/controladores/multimedia/reproductor/cache_fuente.c.
use taek_os.Prelude.{
  ℕ, zero, suc, ◌+◌, ◌-◌, ◌*◌, ◌/◌, ◌%◌, ◌^◌, min, Bool, true, false, not, ◌&&◌, ◌||◌, Option, none,
  some, List, [], ◌∷◌, ◌==◌, ltb, leb, if◌then◌else◌, get_or, set, take, drop, map,
}
use taek_os.Mp4.Fuente.{Leido, leidos, corta, negativa, Lectura}
use taek_os.Fuentes.Fiel.{Aviso, avisar, juntar}

abbrev pub cache_fuente_max : ℕ
cache_fuente_max = 262144

-- `cache_readahead`
pub record ReadAhead : Type 0 where
  pub activo : Bool
  pub offset_esperado : ℕ
  pub ventana : ℕ
  pub consecutivas : ℕ
  pub secuencial : Bool

abbrev pub ra_cero : ReadAhead
ra_cero = record {
  activo = false;
  offset_esperado = 0;
  ventana = 0;
  consecutivas = 0;
  secuencial = false;
}

-- A slot's `offset_ranura`, `validos` and `datos`.
pub record Ranura : Type 0 where
  pub offset : ℕ
  pub validos : ℕ
  pub datos : List ℕ

abbrev pub vacia : Ranura
vacia = record { offset = 0; validos = 0; datos = [] }

-- `cache_fuente`, with the state of its source and of its callback.
pub record Cache (W : Type 0) : Type 0 where
  pub mundo : W
  pub tamano : ℕ
  pub ventana : ℕ
  pub reemplazo : ℕ
  pub lecturas : ℕ
  pub aciertos : ℕ
  pub fallos : ℕ
  pub adelantos : ℕ
  pub ranuras : List Ranura
  pub ra : List ReadAhead

abbrev pub contiene : Ranura → ℕ → Bool
contiene r pos = not (r.validos == 0) && not (ltb pos r.offset) && ltb (pos - r.offset) r.validos

-- The first slot from `s` on with the byte.
unfoldable pub cache_buscar : List Ranura → ℕ → ℕ → Option ℕ
cache_buscar [] s pos = none
cache_buscar (r ∷ l) s pos = if contiene r pos then some s else cache_buscar l (s + 1) pos

abbrev pub nueva : ℕ → ℕ → List ℕ → Ranura
nueva base bytes datos = record { offset = base; validos = bytes; datos = datos }

abbrev pub anulada : Ranura → Ranura
anulada r = record r { validos = 0 }

abbrev pub mas_uno : ℕ → ℕ
mas_uno n = (n + 1) % 2 ^ 64

-- The track's place in `ra`.
abbrev pub pista_de : ℕ → ℕ
pista_de pista = if ltb pista 4 then pista else 0

-- How many bytes of the slot are copied: the code's difference wraps.
abbrev pub copiables : Ranura → ℕ → ℕ → ℕ
copiables r pos n = min ((r.validos + 2 ^ 64 - (pos - r.offset)) % 2 ^ 64) n

-- What is asked of the source at `base`: the window of a sequential track or what is left, within the file and the slot.
unfoldable pub pedido : ReadAhead → ℕ → ℕ → ℕ → ℕ
pedido ra tamano pos n =
    let base = pos / 512 * 512 in
    min (min (if ra.secuencial then ra.ventana else n + (pos - base)) cache_fuente_max)
      (tamano - base)

-- `ra` before the loop: whether the track reads on.
unfoldable pub preparar_ra : ℕ → ReadAhead → ℕ → ReadAhead
preparar_ra ventana ra off =
    let v = if ra.ventana == 0 then ventana else ra.ventana in
    let avanza = not (ltb off ra.offset_esperado) && leb (off - ra.offset_esperado) v in
    let k =
      if ra.activo then if avanza then (ra.consecutivas + 1) % 2 ^ 32 else 0 else ra.consecutivas in
    record ra {
      activo = true;
      ventana = v;
      consecutivas = k;
      secuencial =
          if not (ltb k 3) then true else if ra.activo && not avanza then false else ra.secuencial;
    }

module _ {W : Type 0} where
  abbrev pub cache_invalidar : Cache W → Cache W
  cache_invalidar c = record c { ranuras = map anulada c.ranuras }

  abbrev pub fracaso : ℕ → Cache W → Leido × Cache W
  fracaso r c = (negativa r, cache_invalidar c)

  -- After a callback: its failure ends the read.
  abbrev pub avisado : (Cache W → Leido × Cache W) → Cache W → Option ℕ × W → Leido × Cache W
  avisado sigue c (none, w) = sigue (record c { mundo = w })
  avisado sigue c (some r, w) = fracaso r (record c { mundo = w })

  -- The bytes at `pos` that slot `s` has, of the `n` that are left to read.
  abbrev pub servir : (ℕ → ℕ → Cache W → Leido × Cache W) → ℕ → ℕ → ℕ → Cache W → Leido × Cache W
  servir sigue pos n s c =
      let r = get_or c.ranuras s vacia in
      let k = copiables r pos n in
      juntar (take k (drop (pos - r.offset) r.datos)) (sigue (pos + k) (n - k) c)

  abbrev pub con_fallo : ReadAhead → Cache W → W → Cache W
  con_fallo ra c w = record c {
    mundo = w;
    fallos = mas_uno c.fallos;
    adelantos = if ra.secuencial then mas_uno c.adelantos else c.adelantos;
  }

  abbrev pub con_ranura : ℕ → Ranura → Cache W → Cache W
  con_ranura s r c = record c { ranuras = set c.ranuras s r }

  -- After the read into slot `s`.
  abbrev pub llegado :
      Aviso W → (ℕ → Cache W → Leido × Cache W) → ℕ → ℕ → ℕ → Cache W → Leido → Leido × Cache W
  llegado validar sigue s base bytes c (leidos datos) =
      avisado (λ d. sigue s (con_ranura s (nueva base bytes datos) d)) c (avisar validar c.mundo)
  llegado validar sigue s base bytes c corta = fracaso 5 c
  llegado validar sigue s base bytes c (negativa r) = fracaso r c

  abbrev pub girada : Cache W → ℕ → Cache W
  girada c s = record c {
    reemplazo = (c.reemplazo + 1) % 2 ^ 32;
    ranuras = set c.ranuras s (anulada (get_or c.ranuras s vacia));
  }

  abbrev pub anotado : ℕ → ℕ → Leido × Cache W → Leido × Cache W
  anotado pista fin (leidos s, c) = (
    leidos s,
    record c {
      ra =
          set c.ra (pista_de pista)
            (record (get_or c.ra (pista_de pista) ra_cero) { offset_esperado = fin });
    },
  )
  anotado pista fin (r, c) = (r, c)

  abbrev pub empezado : ℕ → Cache W → ReadAhead → Cache W
  empezado pista c ra = record c {
    ra = set c.ra (pista_de pista) ra;
    lecturas = mas_uno c.lecturas;
  }

  abbrev pub rechaza : Cache W → ℕ → ℕ → Bool
  rechaza c off n =
      c.ventana == 0 || ltb cache_fuente_max c.ventana || ltb c.tamano off || ltb (c.tamano - off) n

module _ {W : Type 0} (leer : Lectura W) (validar : Aviso W) (pista : ℕ) where
  -- A byte that no slot has: a slot is read again, and `sigue` goes on with it.
  unfoldable pub traer :
      ReadAhead → ℕ → ℕ → (ℕ → Cache W → Leido × Cache W) → Cache W → Leido × Cache W
  traer ra pos n sigue c =
      let base = pos / 512 * 512 in
      let bytes = pedido ra c.tamano pos n in
      let s = c.reemplazo % 2 in
      let d : Cache W = girada c s in
      let r = leer d.mundo pista base bytes in
      if bytes == 0
      then (negativa 5, c)
      else llegado validar sigue s base bytes (con_fallo ra d r.1) r.0

  abbrev pub hallado :
      ReadAhead → ℕ → ℕ → (ℕ → Cache W → Leido × Cache W) → Cache W → Option ℕ → Leido × Cache W
  hallado ra pos n sigue c none = traer ra pos n sigue c
  hallado ra pos n sigue c (some s) = sigue s (record c { aciertos = mas_uno c.aciertos })

  -- The loop, for `n` bytes from `pos` on, on fuel: a round copies a byte at least.
  unfoldable pub copiar : ReadAhead → ℕ → ℕ → ℕ → Cache W → Leido × Cache W
  copiar ra zero pos n c = (leidos [], c)
  copiar ra (suc f) pos n c =
      if n == 0
      then (leidos [], c)
      else avisado
          (λ d. hallado ra pos n (servir (copiar ra f) pos n) d (cache_buscar d.ranuras 0 pos)) c
          (avisar validar c.mundo)

module _ {W : Type 0} (leer : Lectura W) (validar : Aviso W) where
  unfoldable pub cache_fuente_leer : Lectura (Cache W)
  cache_fuente_leer c pista off n =
      let ra = preparar_ra c.ventana (get_or c.ra (pista_de pista) ra_cero) off in
      if rechaza c off n
      then (negativa 1, c)
      else if n == 0
      then (leidos [], c)
      else anotado pista (off + n) (copiar leer validar pista ra n off n (empezado pista c ra))
