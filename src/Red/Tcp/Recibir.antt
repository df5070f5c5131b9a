-- ===== src/Red/Tcp/Recibir.antt =====
-- The invariant of the TCP connection of nucleo/controladores/red/pila.c, and what a segment that arrives does.
use taek_os.Prelude.{
  si, ℕ, zero, suc, ◌+◌, ◌-◌, ◌^◌, ◌≤◌, ◌<◌, ◌≡◌, refl, sym, ap, ◌∙◌, List, [], ◌∷◌, ◌++◌, length,
  take, drop, get_or, bit_and, arith, Bool, true, Option, none, some, if◌then◌else◌, ltb, ◌==◌,
  length-append,
}
use taek_os.Red.Orden.{red_be32, leer32}
use taek_os.Red.Tcp.Segmento.{length-take_le}
use taek_os.Red.Tcp.Defs.{
  TcpConexion, Red, es_acuse, es_syn_acuse, es_fin, tiene, doff, red_tcp_rst, red_tcp_syn,
  copiar_en, establecer, cerrada_remota, marcar_desborde, copiar_datos, avanzar, espacio, cuanto,
  red_tcp_ack, con, recibir_syn, recibir_ack, recibir_datos, recibir_fin, recibir, guardar_datos,
  copiar_a, volcar, es_nuestro, red_procesar_tcp, red_tcp_enviar_segmento,
  red_tcp_enviar_segmento_seq,
}

-- The caller's buffer has the capacity that the connection records.
abbrev pub IsDestino : Option (List ℕ) → ℕ → Type 0
IsDestino none n = Unit {0}
IsDestino (some l) n = length l ≡ n

pub record EnRango (estado seq ack capacidad longitud : ℕ) (destino : Option (List ℕ))
    (fin completo : Bool) (reintentos : ℕ) : Type 0 where
  pub estado_bien : estado ≤ 4
  pub seq_bien : seq < 2 ^ 32
  pub ack_bien : ack < 2 ^ 32
  pub capacidad_bien : capacidad < 2 ^ 32
  pub cabe : longitud ≤ capacidad
  pub destino_bien : IsDestino destino capacidad
  pub fin_completo : fin ≡ true → completo ≡ true
  pub reintentos_bien : reintentos ≤ 8

abbrev pub IsConexion : TcpConexion → Type 0
IsConexion t =
    EnRango t.estado t.seq t.ack t.rx_capacidad t.rx_longitud t.rx_destino t.fin_recibido
      t.rx_completo t.reintentos

take-append : (l m : List ℕ) → take (length l) (l ++ m) ≡ l
take-append [] m = refl
take-append (a ∷ l) m = ap (λ x. a ∷ x) (take-append l m)

pub length-take : (n : ℕ) (l : List ℕ) → n ≤ length l → length (take n l) ≡ n
length-take zero l h = refl
length-take (suc n) [] h = omega (arith, h)
length-take (suc n) (a ∷ l) h = omega (arith, length-take n l (omega (arith, h)))

length-drop : (n : ℕ) (l : List ℕ) → length (drop n l) ≡ length l - n
length-drop zero l = omega arith
length-drop (suc n) [] = omega arith
length-drop (suc n) (a ∷ l) = omega (arith, length-drop n l)

-- A copy inside the buffer keeps its length, and extends what had been received by the data.
pub length-volcar :
    (b : List ℕ) (i : ℕ) (d : List ℕ) → i + length d ≤ length b → length (volcar b i d) ≡ length b
length-volcar b i d h =
    let e : length (take i b ++ d ++ drop (i + length d) b) ≡ length b = omega (
      arith,
      length-append (take i b) (d ++ drop (i + length d) b),
      length-append (take i b) d,
      length-append (take i b ++ d) (drop (i + length d) b),
      length-append d (drop (i + length d) b),
      length-take i b (omega (arith, h)),
      length-drop (i + length d) b,
      h,
    ) in
    e

append_assoc : (a b c : List ℕ) → (a ++ b) ++ c ≡ a ++ b ++ c
append_assoc [] b c = refl
append_assoc (x ∷ a) b c = ap (λ l. x ∷ l) (append_assoc a b c)

pub take-volcar :
    (b : List ℕ) (i : ℕ) (d : List ℕ)
    → i + length d ≤ length b
    → take (i + length d) (volcar b i d) ≡ take i b ++ d
take-volcar b i d h =
    let e : i + length d ≡ length (take i b ++ d) =
      omega (arith, length-append (take i b) d, length-take i b (omega (arith, h))) in
    ap (λ (n : ℕ). take n (volcar b i d)) e
    ∙ ap (take (length (take i b ++ d))) (sym (append_assoc (take i b) d (drop (i + length d) b)))
    ∙ take-append (take i b ++ d) (drop (i + length d) b)

pub recibir_ack-IsConexion :
    (t : TcpConexion) (b a : ℕ) → IsConexion t → IsConexion (recibir_ack t b a)
unfolding recibir_ack
recibir_ack-IsConexion t b a h = si IsConexion (es_acuse t b a) _ _ (λ _. h) (λ _. h)

recibir_syn-IsConexion :
    (r : Red) (b s a : ℕ) → IsConexion r.tcp → IsConexion (recibir_syn r b s a).tcp
unfolding recibir_syn red_tcp_enviar_segmento_seq
recibir_syn-IsConexion r b s a h =
    si (λ (m : Red). IsConexion m.tcp) (es_syn_acuse r.tcp b a)
      (red_tcp_enviar_segmento (con r (establecer r.tcp s)) [] red_tcp_ack) r
      (λ _. record {
        estado_bien = omega arith;
        seq_bien = omega arith;
        ack_bien = omega arith;
        capacidad_bien = h.capacidad_bien;
        cabe = h.cabe;
        destino_bien = h.destino_bien;
        fin_completo = h.fin_completo;
        reintentos_bien = h.reintentos_bien;
      })
      (λ _. h)

recibir_fin-IsConexion :
    (r : Red) (b s n : ℕ) → IsConexion r.tcp → IsConexion (recibir_fin r b s n).tcp
unfolding recibir_fin red_tcp_enviar_segmento_seq
recibir_fin-IsConexion r b s n h =
    si (λ (m : Red). IsConexion m.tcp) (es_fin r.tcp b s n)
      (red_tcp_enviar_segmento (con r (cerrada_remota r.tcp)) [] red_tcp_ack) r
      (λ _. record {
        estado_bien = omega arith;
        seq_bien = h.seq_bien;
        ack_bien = omega arith;
        capacidad_bien = h.capacidad_bien;
        cabe = h.cabe;
        destino_bien = h.destino_bien;
        fin_completo = λ _. refl;
        reintentos_bien = h.reintentos_bien;
      })
      (λ _. h)

-- The room left is what the capacity has over the bytes received, and no more is copied.
pub espacio_lem : (t : TcpConexion) → IsConexion t → espacio t ≡ t.rx_capacidad - t.rx_longitud
espacio_lem t h = omega (arith, h.cabe, h.capacidad_bien)

pub cuanto-le :
    (t : TcpConexion) (n : ℕ)
    → IsConexion t
    → (cuanto t n ≤ n) × (t.rx_longitud + cuanto t n ≤ t.rx_capacidad)
cuanto-le t n h = ground (arith, espacio_lem t h, h.cabe)

copiar_en-IsConexion :
    (t : TcpConexion) (o : Option (List ℕ)) (d : List ℕ)
    → IsConexion t
    → IsDestino o t.rx_capacidad
    → t.rx_longitud + length d ≤ t.rx_capacidad
    → IsConexion (copiar_en t o d)
unfolding copiar_en
copiar_en-IsConexion t none d h k m = h
copiar_en-IsConexion t (some b) d h k m =
    let e = length-volcar b t.rx_longitud d (omega (arith, k, m)) in
    record {
      estado_bien = h.estado_bien;
      seq_bien = h.seq_bien;
      ack_bien = h.ack_bien;
      capacidad_bien = h.capacidad_bien;
      cabe = omega (arith, m);
      destino_bien = e ∙ k;
      fin_completo = h.fin_completo;
      reintentos_bien = h.reintentos_bien;
    }

pub marcar_desborde-IsConexion :
    (t : TcpConexion) (n : ℕ) → IsConexion t → IsConexion (marcar_desborde t n)
marcar_desborde-IsConexion t n h =
    si IsConexion (ltb (cuanto t n) n) (record t { rx_desbordado = true }) t (λ _. h) (λ _. h)

copiar_datos-IsConexion :
    (t : TcpConexion) (n : ℕ) (d : List ℕ)
    → IsConexion t
    → t.rx_longitud + n ≤ t.rx_capacidad
    → IsConexion (copiar_datos t n d)
copiar_datos-IsConexion t n d h k =
    si IsConexion (n == 0) t (copiar_a t (take n d)) (λ _. h)
      (λ _.
        copiar_en-IsConexion t t.rx_destino (take n d) h h.destino_bien
          (omega (arith, k, length-take_le n d)))

avanzar-IsConexion : (t : TcpConexion) (n : ℕ) → IsConexion t → IsConexion (avanzar t n)
avanzar-IsConexion t n h = record {
  estado_bien = h.estado_bien;
  seq_bien = h.seq_bien;
  ack_bien = omega arith;
  capacidad_bien = h.capacidad_bien;
  cabe = h.cabe;
  destino_bien = h.destino_bien;
  fin_completo = h.fin_completo;
  reintentos_bien = h.reintentos_bien;
}

guardar_datos-IsConexion :
    (t : TcpConexion) (d : List ℕ) → IsConexion t → IsConexion (guardar_datos t d)
unfolding guardar_datos
guardar_datos-IsConexion t d h =
    let n = length d in
    let m = marcar_desborde t n in
    let p : m.rx_longitud + cuanto t n ≤ m.rx_capacidad =
      si (λ (u : TcpConexion). u.rx_longitud + cuanto t n ≤ u.rx_capacidad) (ltb (cuanto t n) n)
        (record t { rx_desbordado = true }) t (λ _. (cuanto-le t n h).1)
        (λ _. (cuanto-le t n h).1) in
    avanzar-IsConexion (copiar_datos m (cuanto t n) d) n
      (copiar_datos-IsConexion m (cuanto t n) d (marcar_desborde-IsConexion t n h) p)

recibir_datos-IsConexion :
    (r : Red) (s : ℕ) (d : List ℕ) → IsConexion r.tcp → IsConexion (recibir_datos r s d).tcp
unfolding recibir_datos red_tcp_enviar_segmento_seq
recibir_datos-IsConexion r s d h =
    let P = λ (m : Red). IsConexion m.tcp in
    let llegado = con r (guardar_datos r.tcp d) in
    let siguiente = if s == r.tcp.ack then llegado else r in
    si P (length d == 0) r (red_tcp_enviar_segmento siguiente [] red_tcp_ack) (λ _. h)
      (λ _. si P (s == r.tcp.ack) llegado r (λ _. guardar_datos-IsConexion r.tcp d h) (λ _. h))

recibir-IsConexion :
    (r : Red) (b s a : ℕ) (d : List ℕ) → IsConexion r.tcp → IsConexion (recibir r b s a d).tcp
unfolding recibir
recibir-IsConexion r b s a d h =
    let P = λ (m : Red). IsConexion m.tcp in
    let acusada = con r (recibir_ack r.tcp b a) in
    let seguida = recibir_fin (recibir_datos acusada s d) b s (length d) in
    si P (tiene b red_tcp_rst) _ (if tiene b red_tcp_syn then recibir_syn r b s a else seguida)
      (λ _. record {
        estado_bien = omega arith;
        seq_bien = h.seq_bien;
        ack_bien = h.ack_bien;
        capacidad_bien = h.capacidad_bien;
        cabe = h.cabe;
        destino_bien = h.destino_bien;
        fin_completo = h.fin_completo;
        reintentos_bien = h.reintentos_bien;
      })
      (λ _.
        si P (tiene b red_tcp_syn) (recibir_syn r b s a) seguida
          (λ _. recibir_syn-IsConexion r b s a h)
          (λ _.
            recibir_fin-IsConexion (recibir_datos acusada s d) b s (length d)
              (recibir_datos-IsConexion acusada s d (recibir_ack-IsConexion r.tcp b a h))))

-- A segment that arrives, whatever it holds, leaves the connection in range: a state of the protocol, 32-bit numbers,
-- no more bytes received than the caller's buffer holds, and that buffer of the same size.
pub procesar-IsConexion :
    (r : Red) (origen destino carga : List ℕ)
    → IsConexion r.tcp
    → IsConexion (red_procesar_tcp r origen destino carga).tcp
unfolding red_procesar_tcp
procesar-IsConexion r o d carga h =
    si (λ (m : Red). IsConexion m.tcp) (es_nuestro r.tcp o d carga) _ r
      (λ _.
        recibir-IsConexion r (bit_and (get_or carga 13 0) 0x3f) (red_be32 (leer32 carga 4))
          (red_be32 (leer32 carga 8)) (drop (doff carga) carga) h)
      (λ _. h)
