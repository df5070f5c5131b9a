-- ===== src/Red/Orden.antt =====
-- Byte order in nucleo/controladores/red/pila.c.
use Prim.Native.Nat.{bit_and, bit_or}
use taek_os.Prelude.{ℕ, ◌+◌, ◌*◌, ◌/◌, ◌%◌, ◌^◌, ◌<◌, ◌≡◌, arith, refl, List, [], ◌∷◌, get_or}
use taek_os.Prelude.Bits.{bit_or-shift}

-- `(uint16_t)((v >> 8) | (v << 8))`
unfoldable pub red_be16 : ℕ → ℕ
red_be16 v = bit_or (v / 2 ^ 8) (v * 2 ^ 8) % 2 ^ 16

unfoldable pub red_be32 : ℕ → ℕ
red_be32 v =
    bit_or
      (bit_or (bit_or (bit_and v 0xff * 2 ^ 24 % 2 ^ 32) (bit_and v 0xff00 * 2 ^ 8 % 2 ^ 32))
        (bit_and v 0xff0000 / 2 ^ 8))
      (bit_and v 0xff000000 / 2 ^ 24)

-- A field in memory, where the processor keeps the low byte first: read, and written.
abbrev pub leer16 : List ℕ → ℕ → ℕ
leer16 l i = get_or l i 0 + get_or l (i + 1) 0 * 2 ^ 8

abbrev pub leer32 : List ℕ → ℕ → ℕ
leer32 l i = leer16 l i + leer16 l (i + 2) * 2 ^ 16

abbrev pub bytes16 : ℕ → List ℕ
bytes16 v = v % 2 ^ 8 ∷ v / 2 ^ 8 % 2 ^ 8 ∷ []

abbrev pub bytes32 : ℕ → List ℕ
bytes32 v = v % 2 ^ 8 ∷ v / 2 ^ 8 % 2 ^ 8 ∷ v / 2 ^ 16 % 2 ^ 8 ∷ v / 2 ^ 24 % 2 ^ 8 ∷ []

-- On 16 bits the two bytes change places.
pub red_be16_lem : (v : ℕ) → v < 2 ^ 16 → red_be16 v ≡ v / 256 + v % 256 * 256
unfolding red_be16
red_be16_lem v h = omega (arith, h, bit_or-shift 8 (v / 2 ^ 8) v (omega (arith, h)))

-- So what is stored is the high byte, then the low one.
pub bytes16-red_be16 : (v : ℕ) → v < 2 ^ 16 → bytes16 (red_be16 v) ≡ v / 256 ∷ v % 256 ∷ []
bytes16-red_be16 v h =
    let a : red_be16 v % 2 ^ 8 ≡ v / 256 = omega (arith, h, red_be16_lem v h) in
    let b : red_be16 v / 2 ^ 8 % 2 ^ 8 ≡ v % 256 = omega (arith, h, red_be16_lem v h) in
    rw a (rw b refl)
