-- ===== src/Red/Tcp/Defs.antt =====
-- The TCP connection of nucleo/controladores/red/pila.c: building a segment, handling one that arrives, and the
-- timer that sends the last one again.
use taek_os.Prelude.{
  ℕ, ◌+◌, ◌-◌, ◌*◌, ◌/◌, ◌%◌, ◌^◌, Bool, true, false, not, ◌&&◌, ◌||◌, Option, none, some, List, [],
  ◌∷◌, ◌++◌, ◌==◌, ltb, if◌then◌else◌, length, get_or, take, drop, bit_and,
}
use taek_os.Red.Orden.{red_be16, red_be32, leer16, leer32, bytes16, bytes32}
use taek_os.Red.Suma.{red_suma, red_finalizar_suma}

abbrev pub red_ip_tcp : ℕ
red_ip_tcp = 6

abbrev pub red_tcp_fin : ℕ
red_tcp_fin = 0x01

abbrev pub red_tcp_syn : ℕ
red_tcp_syn = 0x02

abbrev pub red_tcp_rst : ℕ
red_tcp_rst = 0x04

abbrev pub red_tcp_ack : ℕ
red_tcp_ack = 0x10

-- `rx_destino` is the caller's buffer, none for a null pointer; the C flags are Booleans.
pub record TcpConexion : Type 0 where
  pub activa : Bool
  pub remota_ip : List ℕ
  pub puerto_remoto : ℕ
  pub puerto_local : ℕ
  pub seq : ℕ
  pub ack : ℕ
  pub isn : ℕ
  pub estado : ℕ
  pub ack_de_datos : Bool
  pub fin_recibido : Bool
  pub seq_ultimo : ℕ
  pub len_ultimo : ℕ
  pub ultimo_era_fin : Bool
  pub ultimo_flags : ℕ
  pub reintentos : ℕ
  pub ultimo_envio_ms : ℕ
  pub ultimo_payload : List ℕ
  pub rx_destino : Option (List ℕ)
  pub rx_capacidad : ℕ
  pub rx_longitud : ℕ
  pub rx_completo : Bool
  pub rx_desbordado : Bool

-- `g_tcp`, the address in `g_cfg`, and the segments handed to red_enviar_ipv4 so far, the latest first.
pub record Red : Type 0 where
  pub tcp : TcpConexion
  pub ip : List ℕ
  pub enviados : List (List ℕ)

abbrev pub tiene : ℕ → ℕ → Bool
tiene banderas b = not (bit_and banderas b == 0)

abbrev pub red_ip_igual : List ℕ → List ℕ → Bool
red_ip_igual a b =
    get_or a 0 0 == get_or b 0 0
    && get_or a 1 0 == get_or b 1 0
    && get_or a 2 0 == get_or b 2 0
    && get_or a 3 0 == get_or b 3 0

unfoldable pub red_tcp_checksum : List ℕ → List ℕ → List ℕ → ℕ → ℕ
red_tcp_checksum origen destino segmento longitud =
    let suma = red_suma (take 4 destino) (red_suma (take 4 origen) 0) in
    let suma = (suma + red_ip_tcp) % 2 ^ 32 in
    let suma = (suma + longitud % 2 ^ 16) % 2 ^ 32 in
    red_finalizar_suma (red_suma (take longitud segmento) suma)

-- The header up to its checksum, which is the two bytes after it.
abbrev pub cabecera : TcpConexion → ℕ → ℕ → List ℕ
cabecera t banderas seq =
    bytes16 (red_be16 t.puerto_local)
    ++ bytes16 (red_be16 t.puerto_remoto)
    ++ bytes32 (red_be32 seq)
    ++ bytes32 (red_be32 t.ack)
    ++ 0x50 ∷ banderas ∷ []
    ++ bytes16 (red_be16 64240)

abbrev pub red_segmento : Red → List ℕ → ℕ → ℕ → List ℕ
red_segmento r datos banderas seq =
    let antes = cabecera r.tcp banderas seq in
    let suma =
      red_tcp_checksum r.ip r.tcp.remota_ip (antes ++ 0 ∷ 0 ∷ 0 ∷ 0 ∷ datos) (20 + length datos) in
    antes ++ bytes16 (red_be16 suma) ++ 0 ∷ 0 ∷ datos

unfoldable pub red_tcp_enviar_segmento_seq : Red → List ℕ → ℕ → ℕ → Red
red_tcp_enviar_segmento_seq r datos banderas seq = record r {
  enviados = red_segmento r datos banderas seq ∷ r.enviados;
}

abbrev pub red_tcp_enviar_segmento : Red → List ℕ → ℕ → Red
red_tcp_enviar_segmento r datos banderas = red_tcp_enviar_segmento_seq r datos banderas r.tcp.seq

abbrev pub con : Red → TcpConexion → Red
con r t = record r { tcp = t }

unfoldable pub red_tcp_guardar_ultimo : ℕ → TcpConexion → List ℕ → ℕ → TcpConexion
red_tcp_guardar_ultimo ahora t datos banderas = record t {
  seq_ultimo = t.seq;
  len_ultimo = length datos;
  ultimo_era_fin = tiene banderas red_tcp_fin;
  ultimo_flags = banderas;
  ultimo_payload = datos ++ drop (length datos) t.ultimo_payload;
  reintentos = 0;
  ultimo_envio_ms = ahora;
  ack_de_datos = false;
}

abbrev pub es_syn_acuse : TcpConexion → ℕ → ℕ → Bool
es_syn_acuse t banderas ackno =
    t.estado == 1 && tiene banderas red_tcp_ack && ackno == (t.isn + 1) % 2 ^ 32

abbrev pub establecer : TcpConexion → ℕ → TcpConexion
establecer t seq = record t {
  ack = (seq + 1) % 2 ^ 32;
  seq = (t.isn + 1) % 2 ^ 32;
  estado = 2;
  ack_de_datos = true;
}

unfoldable pub recibir_syn : Red → ℕ → ℕ → ℕ → Red
recibir_syn r banderas seq ackno =
    if es_syn_acuse r.tcp banderas ackno
    then red_tcp_enviar_segmento (con r (establecer r.tcp seq)) [] red_tcp_ack
    else r

abbrev pub esperado : TcpConexion → ℕ
esperado t = (t.seq_ultimo + t.len_ultimo + (if tiene t.ultimo_flags 0x03 then 1 else 0)) % 2 ^ 32

abbrev pub es_acuse : TcpConexion → ℕ → ℕ → Bool
es_acuse t banderas ackno =
    tiene banderas red_tcp_ack && not (ltb t.estado 2) && ackno == esperado t

unfoldable pub recibir_ack : TcpConexion → ℕ → ℕ → TcpConexion
recibir_ack t banderas ackno =
    if es_acuse t banderas ackno then record t { ack_de_datos = true } else t

-- `memcpy(rx_destino + rx_longitud, datos, copiar)`
abbrev pub volcar : List ℕ → ℕ → List ℕ → List ℕ
volcar destino i datos = take i destino ++ datos ++ drop (i + length datos) destino

unfoldable pub copiar_en : TcpConexion → Option (List ℕ) → List ℕ → TcpConexion
copiar_en t none datos = t
copiar_en t (some destino) datos = record t {
  rx_destino = some (volcar destino t.rx_longitud datos);
  rx_longitud = (t.rx_longitud + length datos) % 2 ^ 32;
}

abbrev pub copiar_a : TcpConexion → List ℕ → TcpConexion
copiar_a t datos = copiar_en t t.rx_destino datos

abbrev pub espacio : TcpConexion → ℕ
espacio t = (t.rx_capacidad + 2 ^ 32 - t.rx_longitud) % 2 ^ 32

abbrev pub cuanto : TcpConexion → ℕ → ℕ
cuanto t datos_len = if ltb datos_len (espacio t) then datos_len else espacio t

abbrev pub marcar_desborde : TcpConexion → ℕ → TcpConexion
marcar_desborde t datos_len =
    if ltb (cuanto t datos_len) datos_len then record t { rx_desbordado = true } else t

abbrev pub copiar_datos : TcpConexion → ℕ → List ℕ → TcpConexion
copiar_datos t copiar datos = if copiar == 0 then t else copiar_a t (take copiar datos)

abbrev pub avanzar : TcpConexion → ℕ → TcpConexion
avanzar t n = record t { ack = (t.ack + n) % 2 ^ 32 }

unfoldable pub guardar_datos : TcpConexion → List ℕ → TcpConexion
guardar_datos t datos =
    let n = length datos in avanzar (copiar_datos (marcar_desborde t n) (cuanto t n) datos) n

unfoldable pub recibir_datos : Red → ℕ → List ℕ → Red
recibir_datos r seq datos =
    if length datos == 0
    then r
    else red_tcp_enviar_segmento (if seq == r.tcp.ack then con r (guardar_datos r.tcp datos) else r)
        [] red_tcp_ack

abbrev pub es_fin : TcpConexion → ℕ → ℕ → ℕ → Bool
es_fin t banderas seq datos_len =
    tiene banderas red_tcp_fin && (seq + datos_len) % 2 ^ 32 == t.ack && not t.fin_recibido

abbrev pub cerrada_remota : TcpConexion → TcpConexion
cerrada_remota t = record t {
  ack = (t.ack + 1) % 2 ^ 32;
  fin_recibido = true;
  rx_completo = true;
  estado = 4;
}

unfoldable pub recibir_fin : Red → ℕ → ℕ → ℕ → Red
recibir_fin r banderas seq datos_len =
    if es_fin r.tcp banderas seq datos_len
    then red_tcp_enviar_segmento (con r (cerrada_remota r.tcp)) [] red_tcp_ack
    else r

-- The segment after its guards.
unfoldable pub recibir : Red → ℕ → ℕ → ℕ → List ℕ → Red
recibir r banderas seq ackno datos =
    if tiene banderas red_tcp_rst
    then con r (record r.tcp { estado = 0; activa = false })
    else if tiene banderas red_tcp_syn
    then recibir_syn r banderas seq ackno
    else recibir_fin (recibir_datos (con r (recibir_ack r.tcp banderas ackno)) seq datos) banderas
        seq (length datos)

abbrev pub doff : List ℕ → ℕ
doff carga = get_or carga 12 0 / 2 ^ 4 * 4

unfoldable pub es_nuestro : TcpConexion → List ℕ → List ℕ → List ℕ → Bool
es_nuestro t origen destino carga =
    t.activa
    && red_ip_igual origen t.remota_ip
    && not (ltb (length carga) 20)
    && red_tcp_checksum origen destino carga (length carga) == 0
    && red_be16 (leer16 carga 2) == t.puerto_local
    && red_be16 (leer16 carga 0) == t.puerto_remoto
    && not (ltb (doff carga) 20)
    && not (ltb (length carga) (doff carga))

unfoldable pub red_procesar_tcp : Red → List ℕ → List ℕ → List ℕ → Red
red_procesar_tcp r origen destino carga =
    if es_nuestro r.tcp origen destino carga
    then recibir r (bit_and (get_or carga 13 0) 0x3f) (red_be32 (leer32 carga 4))
        (red_be32 (leer32 carga 8)) (drop (doff carga) carga)
    else r

-- `(int)(a - b) < limite` for a `limite` that is positive.
abbrev pub antes_de : ℕ → ℕ → ℕ → Bool
antes_de a b limite = let d = (a + 2 ^ 64 - b) % 2 ^ 32 in ltb d limite || not (ltb d (2 ^ 31))

abbrev pub en_plazo : ℕ → TcpConexion → Bool
en_plazo ahora t =
    not t.activa || t.ack_de_datos || t.estado == 0 || antes_de ahora t.ultimo_envio_ms 1000

abbrev pub reintento : ℕ → TcpConexion → TcpConexion
reintento ahora t = record t { reintentos = t.reintentos + 1; ultimo_envio_ms = ahora }

abbrev pub cerrada : TcpConexion → TcpConexion
cerrada t = record t { estado = 0; activa = false }

unfoldable pub red_tcp_temporizador : ℕ → Red → Red
red_tcp_temporizador ahora r =
    let t = r.tcp in
    if en_plazo ahora t
    then r
    else if not (ltb t.reintentos 8)
    then con r (cerrada t)
    else red_tcp_enviar_segmento_seq (con r (reintento ahora t))
        (take t.len_ultimo t.ultimo_payload) t.ultimo_flags t.seq_ultimo
