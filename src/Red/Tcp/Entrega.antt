-- ===== src/Red/Tcp/Entrega.antt =====
-- What the TCP connection of nucleo/controladores/red/pila.c delivers to its caller, and its runs.
use native.Mathlib.Decide.{ℕ_discrete}
use taek_os.Prelude.{
  si, ℕ, ◌+◌, ◌-◌, ◌%◌, ◌^◌, ◌≤◌, ◌<◌, ◌≡◌, ◌≢◌, refl, sym, ap, subst, min, ◌∙◌, List, [], ◌∷◌,
  ◌++◌, length, take, arith, true, not, Option, none, some, if◌then◌else◌, ltb, ◌==◌, ==_iff,
  ==_refl, ==-false_of_ne,
}
use taek_os.Red.Tcp.Defs.{
  TcpConexion, Red, red_tcp_ack, con, recibir_datos, guardar_datos, copiar_en, copiar_a,
  copiar_datos, marcar_desborde, avanzar, volcar, cuanto, en_plazo, reintento, cerrada,
  red_procesar_tcp, red_tcp_temporizador, red_tcp_enviar_segmento, red_tcp_enviar_segmento_seq,
}
use taek_os.Red.Tcp.Recibir.{
  IsConexion, IsDestino, take-volcar, espacio_lem, cuanto-le, length-take, procesar-IsConexion,
}

-- The bytes that the caller has: those received so far, at the front of its buffer.
abbrev pub recibido_en : Option (List ℕ) → ℕ → List ℕ
recibido_en none n = []
recibido_en (some b) n = take n b

abbrev pub recibido : TcpConexion → List ℕ
recibido t = recibido_en t.rx_destino t.rx_longitud

append_nil : (l : List ℕ) → l ≡ l ++ []
append_nil [] = refl
append_nil (x ∷ l) = ap (λ m. x ∷ m) (append_nil l)

copiar_en-ack : (t : TcpConexion) (o : Option (List ℕ)) (d : List ℕ) → (copiar_en t o d).ack ≡ t.ack
unfolding copiar_en
copiar_en-ack t none d = refl
copiar_en-ack t (some b) d = refl

guardar_datos-ack :
    (t : TcpConexion) (d : List ℕ) → (guardar_datos t d).ack ≡ (t.ack + length d) % 2 ^ 32
unfolding guardar_datos
guardar_datos-ack t d =
    let n = length d in
    let k = cuanto t n in
    let m = marcar_desborde t n in
    let e : m.ack ≡ t.ack =
      si (λ (u : TcpConexion). u.ack ≡ t.ack) (ltb k n) (record t { rx_desbordado = true }) t
        (λ _. refl) (λ _. refl) in
    let f : (copiar_datos m k d).ack ≡ m.ack =
      si (λ (u : TcpConexion). u.ack ≡ m.ack) (k == 0) m (copiar_a m (take k d)) (λ _. refl)
        (λ _. copiar_en-ack m m.rx_destino (take k d)) in
    ap (λ (a : ℕ). (a + n) % 2 ^ 32) (f ∙ e)

copiar_en-recibido :
    (t : TcpConexion) (b d : List ℕ)
    → IsConexion t
    → length b ≡ t.rx_capacidad
    → t.rx_longitud + length d ≤ t.rx_capacidad
    → recibido (copiar_en t (some b) d) ≡ take t.rx_longitud b ++ d
unfolding copiar_en
copiar_en-recibido t b d h k m =
    let e : (t.rx_longitud + length d) % 2 ^ 32 ≡ t.rx_longitud + length d =
      omega (arith, m, h.capacidad_bien) in
    ap (λ (n : ℕ). take n (volcar b t.rx_longitud d)) e
    ∙ take-volcar b t.rx_longitud d (omega (arith, k, m))

copiar_datos-recibido :
    (t : TcpConexion) (c : ℕ) (d b : List ℕ)
    → IsConexion t
    → t.rx_destino ≡ some b
    → t.rx_longitud + c ≤ t.rx_capacidad
    → c ≤ length d
    → recibido (copiar_datos t c d) ≡ recibido t ++ take c d
copiar_datos-recibido t c d b h q m n =
    let largo : length b ≡ t.rx_capacidad =
      subst (λ (o : Option (List ℕ)). IsDestino o t.rx_capacidad) q h.destino_bien in
    si (λ (u : TcpConexion). recibido u ≡ recibido t ++ take c d) (c == 0) t (copiar_a t (take c d))
      (λ z. rw ((==_iff c 0).0 z) (append_nil (recibido t)))
      (λ _.
        ap (λ (o : Option (List ℕ)). recibido (copiar_en t o (take c d))) q
        ∙ copiar_en-recibido t b (take c d) h largo (omega (arith, m, length-take c d n))
        ∙ ap (λ (o : Option (List ℕ)). recibido_en o t.rx_longitud ++ take c d) (sym q))

guardar_datos-recibido :
    (t : TcpConexion) (d b : List ℕ)
    → IsConexion t
    → t.rx_destino ≡ some b
    → recibido (guardar_datos t d) ≡ recibido t ++ take (cuanto t (length d)) d
unfolding guardar_datos
guardar_datos-recibido t d b h q =
    let n = length d in
    let k = cuanto t n in
    si (λ (m : TcpConexion). recibido (avanzar (copiar_datos m k d) n) ≡ recibido t ++ take k d)
      (ltb k n) (record t { rx_desbordado = true }) t
      (λ _.
        copiar_datos-recibido (record t { rx_desbordado = true }) k d b h q (cuanto-le t n h).1
          (cuanto-le t n h).0)
      (λ _. copiar_datos-recibido t k d b h q (cuanto-le t n h).1 (cuanto-le t n h).0)

ignorado : (r : Red) (s : ℕ) (d : List ℕ) → s ≢ r.tcp.ack → (recibir_datos r s d).tcp ≡ r.tcp
unfolding recibir_datos red_tcp_enviar_segmento_seq
ignorado r s d n =
    let P = λ (m : Red). m.tcp ≡ r.tcp in
    let llegado = con r (guardar_datos r.tcp d) in
    si P (length d == 0) r
      (red_tcp_enviar_segmento (if s == r.tcp.ack then llegado else r) [] red_tcp_ack) (λ _. refl)
      (λ _.
        si P (s == r.tcp.ack) llegado r (λ e. absurd (n ((==_iff s r.tcp.ack).0 e))) (λ _. refl))

guardado :
    (r : Red) (s : ℕ) (d : List ℕ)
    → s ≡ r.tcp.ack
    → length d ≢ 0
    → (recibir_datos r s d).tcp ≡ guardar_datos r.tcp d
unfolding recibir_datos red_tcp_enviar_segmento_seq
guardado r s d e n = rw (==-false_of_ne (length d) 0 n) (rw e (rw (==_refl r.tcp.ack) refl))

sin_datos : (r : Red) (s : ℕ) (d : List ℕ) → length d ≡ 0 → recibir_datos r s d ≡ r
unfolding recibir_datos
sin_datos r s d e = rw e refl

-- On a connection in range with a buffer, data that start where the connection expects them are appended to what the
-- caller has, up to the room left in its buffer; data that start anywhere else leave the connection as it was.
pub entrega :
    (r : Red) (s : ℕ) (d b : List ℕ)
    → IsConexion r.tcp
    → r.tcp.rx_destino ≡ some b
    → (s ≡ r.tcp.ack
        → recibido (recibir_datos r s d).tcp
          ≡ recibido r.tcp ++ take (min (length d) (r.tcp.rx_capacidad - r.tcp.rx_longitud)) d)
      × (s ≢ r.tcp.ack → (recibir_datos r s d).tcp ≡ r.tcp)
entrega r s d b h q =
    let n = length d in
    let k : cuanto r.tcp n ≡ min n (r.tcp.rx_capacidad - r.tcp.rx_longitud) =
      ground (arith, espacio_lem r.tcp h) in
    (
      λ e. elim (ℕ_discrete n 0) [
        | yes z ↦
            let nada : 0 ≡ min n (r.tcp.rx_capacidad - r.tcp.rx_longitud) = omega (arith, z) in
            ap (λ (m : Red). recibido m.tcp) (sin_datos r s d z)
            ∙ append_nil (recibido r.tcp)
            ∙ ap (λ (m : ℕ). recibido r.tcp ++ take m d) nada
        | no m ↦
            ap recibido (guardado r s d e m)
            ∙ guardar_datos-recibido r.tcp d b h q
            ∙ ap (λ (c : ℕ). recibido r.tcp ++ take c d) k
      ],
      ignorado r s d,
    )

-- On a connection in range, data of fewer than 2^32 bytes that arrive twice in a row change it only the first time.
pub datos_repetidos :
    (r : Red) (s : ℕ) (d : List ℕ)
    → IsConexion r.tcp
    → length d < 2 ^ 32
    → (recibir_datos (recibir_datos r s d) s d).tcp ≡ (recibir_datos r s d).tcp
datos_repetidos r s d h n =
    let otra = recibir_datos r s d in
    elim (ℕ_discrete (length d) 0) [
      | yes z ↦ ap (λ (m : Red). (recibir_datos m s d).tcp) (sin_datos r s d z)
      | no m ↦ elim (ℕ_discrete s r.tcp.ack) [
        | yes e ↦ ignorado otra s d (λ f. absurd (
            omega (
              arith,
              n,
              m,
              e,
              f,
              h.ack_bien,
              ap (λ (t : TcpConexion). t.ack) (guardado r s d e m),
              guardar_datos-ack r.tcp d,
            )))
        | no k ↦ ignorado otra s d (λ f. k (f ∙ ap (λ (t : TcpConexion). t.ack) (ignorado r s d k)))
      ]
    ]

temporizador-IsConexion :
    (ahora : ℕ) (r : Red) → IsConexion r.tcp → IsConexion (red_tcp_temporizador ahora r).tcp
unfolding red_tcp_temporizador red_tcp_enviar_segmento_seq
temporizador-IsConexion ahora r h =
    let P = λ (m : Red). IsConexion m.tcp in
    let t = r.tcp in
    let otra =
      red_tcp_enviar_segmento_seq (con r (reintento ahora t)) (take t.len_ultimo t.ultimo_payload)
        t.ultimo_flags t.seq_ultimo in
    let agotados = not (ltb t.reintentos 8) in
    si P (en_plazo ahora t) r (if agotados then con r (cerrada t) else otra) (λ _. h)
      (λ _.
        si P agotados (con r (cerrada t)) otra
          (λ _. record {
            estado_bien = omega arith;
            seq_bien = h.seq_bien;
            ack_bien = h.ack_bien;
            capacidad_bien = h.capacidad_bien;
            cabe = h.cabe;
            destino_bien = h.destino_bien;
            fin_completo = h.fin_completo;
            reintentos_bien = h.reintentos_bien;
          })
          (λ e. record {
            estado_bien = h.estado_bien;
            seq_bien = h.seq_bien;
            ack_bien = h.ack_bien;
            capacidad_bien = h.capacidad_bien;
            cabe = h.cabe;
            destino_bien = h.destino_bien;
            fin_completo = h.fin_completo;
            reintentos_bien = ground (arith, e);
          }))

-- What happens to the connection: a segment arrives, or the timer runs.
pub data Evento : Type 0 where
  llega : List ℕ → List ℕ → List ℕ → Evento
  reloj : ℕ → Evento

abbrev pub atender : Evento → Red → Red
atender (llega origen destino carga) r = red_procesar_tcp r origen destino carga
atender (reloj ahora) r = red_tcp_temporizador ahora r

abbrev pub correr : List Evento → Red → Red
correr [] r = r
correr (e ∷ es) r = correr es (atender e r)

-- Whatever segments arrive and whenever the timer runs, a connection in range stays in range: its state is one of the
-- protocol, its numbers have 32 bits, at most 8 retries are made, and the bytes received fit in the caller's buffer.
pub correr-IsConexion :
    (es : List Evento) (r : Red) → IsConexion r.tcp → IsConexion (correr es r).tcp
correr-IsConexion [] r h = h
correr-IsConexion (llega o d c ∷ es) r h =
    correr-IsConexion es (red_procesar_tcp r o d c) (procesar-IsConexion r o d c h)
correr-IsConexion (reloj n ∷ es) r h =
    correr-IsConexion es (red_tcp_temporizador n r) (temporizador-IsConexion n r h)
