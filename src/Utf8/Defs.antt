-- ===== src/Utf8/Defs.antt =====
-- The UTF-8 decoder of nucleo/base/utf8.c, on the bytes up to the string's end.
use taek_os.Prelude.{ℕ, ◌*◌, ◌^◌, List, [], ◌∷◌, ◌==◌, if◌then◌else◌, bit_and, bit_or}

-- `if ((*s & 0xC0) == 0x80) codepoint |= (*s++ & 0x3F) << n;`
unfoldable pub continuar : ℕ → ℕ × List ℕ → ℕ × List ℕ
continuar n (cp, []) = (cp, [])
continuar n (cp, b ∷ s) =
    if bit_and b 0xc0 == 0x80 then (bit_or cp (bit_and b 0x3f * 2 ^ n), s) else (cp, b ∷ s)

-- The code point and what is left of the string; 0 at its end, where nothing is read.
unfoldable pub utf8_decodificar : List ℕ → ℕ × List ℕ
utf8_decodificar [] = (0, [])
utf8_decodificar (b ∷ s) =
    if b == 0
    then (0, b ∷ s)
    else if bit_and b 0x80 == 0
    then (b, s)
    else if bit_and b 0xe0 == 0xc0
    then continuar 0 (bit_and b 0x1f * 2 ^ 6, s)
    else if bit_and b 0xf0 == 0xe0
    then continuar 0 (continuar 6 (bit_and b 0x0f * 2 ^ 12, s))
    else if bit_and b 0xf8 == 0xf0
    then continuar 0 (continuar 6 (continuar 12 (bit_and b 0x07 * 2 ^ 18, s)))
    else (0, s)
