-- ===== src/Red/Tests.antt =====
-- Runs of the IPv4 stack of nucleo/controladores/red/pila.c, and instances of its theorems.
use taek_os.Prelude.{
  ℕ, ◌/◌, ◌%◌, ◌<◌, ◌≡◌, ◌≢◌, ◌↔◌, refl, List, [], ◌∷◌, ◌++◌, length, take, min, arith, true, false,
  some, ◌-◌,
}
use taek_os.Red.Orden.{red_be16, red_be32}
use taek_os.Red.Suma.{
  red_suma, plegar, red_finalizar_suma, red_checksum, palabras, checksum_cero, checksum-verifica,
}
use taek_os.Red.Tcp.Defs.{
  TcpConexion, Red, red_tcp_checksum, red_segmento, red_procesar_tcp, recibir_datos, es_nuestro,
  recibir, recibir_ack, recibir_fin, red_tcp_enviar_segmento_seq, guardar_datos, copiar_en,
}
use taek_os.Red.Tcp.Segmento.{segmento-verifica}
use taek_os.Red.Tcp.Recibir.{IsConexion}
use taek_os.Red.Tcp.Entrega.{
  recibido, entrega, datos_repetidos, llega, reloj, correr, correr-IsConexion,
}

-- An established connection that expects byte 7 and has room for four bytes, of which one is taken.
abbrev abierta : TcpConexion
abierta = record {
  activa = true;
  remota_ip = 10 ∷ 0 ∷ 0 ∷ 2 ∷ [];
  puerto_remoto = 80;
  puerto_local = 40000;
  seq = 101;
  ack = 7;
  isn = 100;
  estado = 2;
  ack_de_datos = true;
  fin_recibido = false;
  seq_ultimo = 100;
  len_ultimo = 0;
  ultimo_era_fin = false;
  ultimo_flags = 2;
  reintentos = 0;
  ultimo_envio_ms = 0;
  ultimo_payload = [];
  rx_destino = some (65 ∷ 0 ∷ 0 ∷ 0 ∷ []);
  rx_capacidad = 4;
  rx_longitud = 1;
  rx_completo = false;
  rx_desbordado = false;
}

abbrev local : Red
local = record { tcp = abierta; ip = 10 ∷ 0 ∷ 0 ∷ 1 ∷ []; enviados = [] }

-- The other end, whose sequence number is what `local` expects.
abbrev remota : Red
remota = record {
  tcp = record abierta {
    remota_ip = 10 ∷ 0 ∷ 0 ∷ 1 ∷ [];
    puerto_remoto = 40000;
    puerto_local = 80;
    ack = 101;
  };
  ip = 10 ∷ 0 ∷ 0 ∷ 2 ∷ [];
  enviados = [];
}

abbrev carga : List ℕ
carga = red_segmento remota (66 ∷ 67 ∷ []) 0x18 7

abbrev tras_carga : Red
tras_carga = red_procesar_tcp local remota.ip local.ip carga

-- Its segment of two bytes is delivered and acknowledged.
codigo : Unit {0}
unfolding red_be16 red_be32 red_suma plegar red_finalizar_suma red_tcp_checksum red_procesar_tcp
    es_nuestro recibir recibir_ack recibir_datos guardar_datos copiar_en recibir_fin
    red_tcp_enviar_segmento_seq
codigo =
    let e : recibido tras_carga.tcp ≡ 65 ∷ 66 ∷ 67 ∷ [] = refl in
    let f : length tras_carga.enviados ≡ 1 = refl in tt

abierta-IsConexion : IsConexion abierta
abierta-IsConexion = record {
  estado_bien = omega arith;
  seq_bien = omega arith;
  ack_bien = omega arith;
  capacidad_bien = omega arith;
  cabe = omega arith;
  destino_bien = refl;
  fin_completo = λ e. e;
  reintentos_bien = omega arith;
}

checksum_cero_example :
    red_checksum (255 ∷ 255 ∷ []) ≡ 0
    ↔ (palabras (255 ∷ 255 ∷ []) % 65535 ≡ 0) × (0 < palabras (255 ∷ 255 ∷ []))
checksum_cero_example =
    checksum_cero (255 ∷ 255 ∷ []) (omega arith, (omega arith, tt)) (omega arith)

checksum-verifica_example :
    let c = red_checksum (69 ∷ 0 ∷ 0 ∷ 0 ∷ 10 ∷ []) in
    red_checksum (69 ∷ 0 ∷ c / 256 ∷ c % 256 ∷ 10 ∷ []) ≡ 0
checksum-verifica_example =
    checksum-verifica (69 ∷ 0 ∷ []) (10 ∷ []) tt (omega arith, (omega arith, tt)) (omega arith, tt)
      (omega arith)

segmento-verifica_example : red_tcp_checksum remota.ip remota.tcp.remota_ip carga (length carga) ≡ 0
segmento-verifica_example =
    segmento-verifica remota (66 ∷ 67 ∷ []) 0x18 7
      (omega arith, (omega arith, (omega arith, (omega arith, tt))))
      (omega arith, (omega arith, (omega arith, (omega arith, tt))))
      (omega arith, (omega arith, tt)) (omega arith) (omega arith)

correr-IsConexion_example :
    IsConexion (correr (llega remota.ip local.ip carga ∷ reloj 5000 ∷ []) local).tcp
correr-IsConexion_example =
    correr-IsConexion (llega remota.ip local.ip carga ∷ reloj 5000 ∷ []) local abierta-IsConexion

entrega_example :
    (7 ≡ local.tcp.ack
      → recibido (recibir_datos local 7 (66 ∷ 67 ∷ [])).tcp
        ≡ recibido local.tcp
          ++ take (min 2 (local.tcp.rx_capacidad - local.tcp.rx_longitud)) (66 ∷ 67 ∷ []))
    × (7 ≢ local.tcp.ack → (recibir_datos local 7 (66 ∷ 67 ∷ [])).tcp ≡ local.tcp)
entrega_example = entrega local 7 (66 ∷ 67 ∷ []) (65 ∷ 0 ∷ 0 ∷ 0 ∷ []) abierta-IsConexion refl

datos_repetidos_example :
    (recibir_datos (recibir_datos local 7 (66 ∷ 67 ∷ [])) 7 (66 ∷ 67 ∷ [])).tcp
    ≡ (recibir_datos local 7 (66 ∷ 67 ∷ [])).tcp
datos_repetidos_example = datos_repetidos local 7 (66 ∷ 67 ∷ []) abierta-IsConexion (omega arith)
