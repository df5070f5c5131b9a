-- ===== src/Red/Tcp/Segmento.antt =====
-- The checksum of the segments that nucleo/controladores/red/pila.c builds, as the other end computes it.
use taek_os.Prelude.{
  ℕ, zero, suc, ◌+◌, ◌*◌, ◌/◌, ◌%◌, ◌^◌, ◌≤◌, ◌<◌, ◌≡◌, refl, sym, ap, ◌∙◌, List, [], ◌∷◌, ◌++◌,
  length, take, arith,
}
use taek_os.Red.Orden.{bytes16-red_be16}
use taek_os.Red.Suma.{
  red_suma, red_finalizar_suma, palabras, palabras-lt, Bytes, Bytes-append, palabras-append,
  red_suma_lem, finalizar-lt, finalizar_cero, finalizar-completa,
}
use taek_os.Red.Tcp.Defs.{TcpConexion, Red, red_tcp_checksum, cabecera, red_segmento}

Bytes-take : (n : ℕ) (l : List ℕ) → Bytes l → Bytes (take n l)
Bytes-take zero l h = tt
Bytes-take (suc n) [] h = tt
Bytes-take (suc n) (a ∷ l) h = (h.0, Bytes-take n l h.1)

pub length-take_le : (n : ℕ) (l : List ℕ) → length (take n l) ≤ n
length-take_le zero l = omega arith
length-take_le (suc n) [] = omega arith
length-take_le (suc n) (a ∷ l) = omega (arith, length-take_le n l)

take-length : (l : List ℕ) → take (length l) l ≡ l
take-length [] = refl
take-length (a ∷ l) = ap (λ m. a ∷ m) (take-length l)

-- What the pseudo-header adds to the sum.
abbrev pseudo : List ℕ → List ℕ → ℕ → ℕ
pseudo origen destino n = palabras (take 4 origen) + palabras (take 4 destino) + 6 + n

pseudo-lt :
    (o d : List ℕ) (n : ℕ) → Bytes o → Bytes d → n ≤ 65535 → pseudo o d n ≤ 8 * 65280 + 6 + 65535
pseudo-lt o d n h k m = omega (
  arith,
  m,
  palabras-lt (take 4 o) (Bytes-take 4 o h),
  palabras-lt (take 4 d) (Bytes-take 4 d k),
  length-take_le 4 o,
  length-take_le 4 d,
)

red_tcp_checksum_lem :
    (o d l : List ℕ)
    → Bytes o
    → Bytes d
    → Bytes l
    → length l ≤ 65000
    → red_tcp_checksum o d l (length l) ≡ red_finalizar_suma (pseudo o d (length l) + palabras l)
unfolding red_tcp_checksum
red_tcp_checksum_lem o d l h k b n =
    let a1 = red_suma_lem (take 4 o) 0 (Bytes-take 4 o h) (omega (arith, length-take_le 4 o)) in
    let v1 = palabras-lt (take 4 o) (Bytes-take 4 o h) in
    let a2 =
      red_suma_lem (take 4 d) (red_suma (take 4 o) 0) (Bytes-take 4 d k)
        (omega (arith, a1, v1, length-take_le 4 o, length-take_le 4 d)) in
    let v2 = palabras-lt (take 4 d) (Bytes-take 4 d k) in
    let s : ((red_suma (take 4 d) (red_suma (take 4 o) 0) + 6) % 2 ^ 32 + length l % 2 ^ 16)
          % 2 ^ 32
        ≡ pseudo o d (length l) =
      omega (arith, a1, a2, v1, v2, n, length-take_le 4 o, length-take_le 4 d) in
    rw s (
      rw (take-length l) (
        ap red_finalizar_suma (
          red_suma_lem l (pseudo o d (length l)) b
            (omega (arith, n, pseudo-lt o d (length l) h k (omega (arith, n)))))))

cabecera-Bytes : (t : TcpConexion) (b s : ℕ) → b < 256 → Bytes (cabecera t b s)
cabecera-Bytes t b s h = (
  omega arith,
  (
    omega arith,
    (
      omega arith,
      (
        omega arith,
        (
          omega arith,
          (
            omega arith,
            (
              omega arith,
              (
                omega arith,
                (
                  omega arith,
                  (
                    omega arith,
                    (
                      omega arith,
                      (omega arith, (omega arith, (h, (omega arith, (omega arith, tt))))),
                    ),
                  ),
                ),
              ),
            ),
          ),
        ),
      ),
    ),
  ),
)

-- A segment that the stack builds passes the checksum test of the end that receives it, if the addresses, the flags
-- and the data are bytes and the data fit in one segment.
pub segmento-verifica :
    (r : Red) (datos : List ℕ) (banderas seq : ℕ)
    → Bytes r.ip
    → Bytes r.tcp.remota_ip
    → Bytes datos
    → banderas < 256
    → length datos ≤ 1460
    → let s = red_segmento r datos banderas seq in
      red_tcp_checksum r.ip r.tcp.remota_ip s (length s) ≡ 0
segmento-verifica r datos b seq h k v w n =
    let antes = cabecera r.tcp b seq in
    let vacio = antes ++ 0 ∷ 0 ∷ 0 ∷ 0 ∷ datos in
    let antes-Bytes = cabecera-Bytes r.tcp b seq w in
    let vacio-Bytes : Bytes vacio =
      Bytes-append antes (0 ∷ 0 ∷ 0 ∷ 0 ∷ datos) antes-Bytes
        (omega arith, (omega arith, (omega arith, (omega arith, v)))) in
    let c = red_tcp_checksum r.ip r.tcp.remota_ip vacio (20 + length datos) in
    let p = pseudo r.ip r.tcp.remota_ip (length vacio) in
    let largo : length vacio ≡ 20 + length datos = omega arith in
    let e : c ≡ red_finalizar_suma (p + palabras vacio) =
      ap (red_tcp_checksum r.ip r.tcp.remota_ip vacio) (sym largo)
      ∙ red_tcp_checksum_lem r.ip r.tcp.remota_ip vacio h k vacio-Bytes (omega (arith, n)) in
    let cabe : c ≤ 65535 = omega (arith, e, finalizar-lt (p + palabras vacio)) in
    let final = antes ++ c / 256 ∷ c % 256 ∷ 0 ∷ 0 ∷ datos in
    let final-Bytes : Bytes final =
      Bytes-append antes (c / 256 ∷ c % 256 ∷ 0 ∷ 0 ∷ datos) antes-Bytes
        (omega (arith, cabe), (omega arith, (omega arith, (omega arith, v)))) in
    let suma : palabras final ≡ palabras vacio + c = omega (
      arith,
      palabras-append antes (0 ∷ 0 ∷ 0 ∷ 0 ∷ datos) tt,
      palabras-append antes (c / 256 ∷ c % 256 ∷ 0 ∷ 0 ∷ datos) tt,
    ) in
    let cota : p + palabras final < 2 ^ 32 = omega (
      arith,
      n,
      pseudo-lt r.ip r.tcp.remota_ip (length vacio) h k (omega (arith, n)),
      palabras-lt final final-Bytes,
    ) in
    let q = finalizar-completa (p + palabras vacio) (omega (arith, cota, suma)) in
    let z : red_finalizar_suma (p + palabras final) ≡ 0 =
      finalizar_cero (p + palabras final) cota (omega (arith, suma, e, q.0))
        (omega (arith, suma, e, q.1)) in
    let igual : red_segmento r datos b seq ≡ final =
      ap (λ (x : List ℕ). antes ++ x ++ 0 ∷ 0 ∷ datos) (bytes16-red_be16 c (omega (arith, cabe))) in
    ap (λ (x : List ℕ). red_tcp_checksum r.ip r.tcp.remota_ip x (length x)) igual
    ∙ red_tcp_checksum_lem r.ip r.tcp.remota_ip final h k final-Bytes (omega (arith, n))
    ∙ z
