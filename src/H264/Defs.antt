-- ===== src/H264/Defs.antt =====
-- The bit reader and the Exp-Golomb codes of nucleo/controladores/multimedia/h264/bits.c.
use taek_os.Prelude.{
  ℕ, zero, suc, ◌+◌, ◌-◌, ◌*◌, ◌/◌, ◌%◌, ◌^◌, Bool, true, false, not, ◌||◌, List, ◌==◌, ltb,
  if◌then◌else◌, get_or,
}

pub record H264Bits : Type 0 where
  pub datos : List ℕ
  pub bytes : ℕ
  pub posicion : ℕ
  pub error : Bool

-- `(datos[i >> 3] >> (7 - (i & 7))) & 1`
unfoldable pub bit_en : List ℕ → ℕ → ℕ
bit_en datos i = get_or datos (i / 8) 0 / 2 ^ (7 - i % 8) % 2

-- `SIZE_MAX / 8`
abbrev pub max_bytes : ℕ
max_bytes = 0x1fffffffffffffff

abbrev pub con_error : H264Bits → H264Bits
con_error b = record b { error = true }

-- The loop of a read of `n` bits into `v`.
unfoldable pub leer_bits : ℕ → H264Bits → ℕ → ℕ × H264Bits
leer_bits zero b v = (v, b)
leer_bits (suc n) b v =
    leer_bits n (record b { posicion = b.posicion + 1 })
      ((v * 2 % 2 ^ 32 + bit_en b.datos b.posicion) % 2 ^ 32)

abbrev pub no_cabe : H264Bits → ℕ → Bool
no_cabe b n =
    b.error
    || ltb 32 n
    || ltb max_bytes b.bytes
    || ltb (b.bytes * 8) b.posicion
    || ltb (b.bytes * 8 - b.posicion) n

unfoldable pub h264_bits_leer : H264Bits → ℕ → ℕ × H264Bits
h264_bits_leer b n = if no_cabe b n then (0, con_error b) else leer_bits n b 0

-- The zeros before the one, on fuel: none when the loop ends in an error.
unfoldable pub contar_ceros : ℕ → ℕ → H264Bits → ℕ × H264Bits
contar_ceros zero ceros b = (ceros, b)
contar_ceros (suc f) ceros b =
    let (v, c) = h264_bits_leer b 1 in
    let otra = contar_ceros f (ceros + 1) c in
    if b.error
    then (ceros, b)
    else if not (v == 0)
    then (ceros, c)
    else if ltb 31 (ceros + 1)
    then (ceros + 1, con_error c)
    else otra

-- The 32nd zero is an error, so 32 rounds are enough.
unfoldable pub h264_ue : H264Bits → ℕ × H264Bits
h264_ue b =
    let (ceros, c) = contar_ceros 32 0 b in
    let (v, d) = h264_bits_leer c ceros in
    if c.error then (0, c) else ((2 ^ ceros - 1 + v) % 2 ^ 32, d)

-- `int32_t`: the sign (true for a negative number) and the magnitude.
unfoldable pub h264_se : H264Bits → (Bool × ℕ) × H264Bits
h264_se b =
    let (v, c) = h264_ue b in
    if v == 2 ^ 32 - 1
    then ((false, 0), con_error c)
    else if v % 2 == 1
    then ((false, v / 2 + 1), c)
    else ((not (v == 0), v / 2), c)
