-- ===== src/Utf8/Tests.antt =====
-- Runs of the decoder of nucleo/base/utf8.c, and an instance of its theorem.
use taek_os.Prelude.{◌≡◌, refl, [], ◌∷◌, ◌++◌, arith}
use taek_os.Utf8.Defs.{continuar, utf8_decodificar}
use taek_os.Utf8.Ida.{codificar, decodificar-codificar}

-- The letter n with tilde, and a lead byte with no continuation.
codigo : Unit {0}
unfolding continuar utf8_decodificar codificar
codigo =
    let e : codificar 0xf1 ≡ 0xc3 ∷ 0xb1 ∷ [] = refl in
    let f : (utf8_decodificar (0xc3 ∷ 0xb1 ∷ 65 ∷ [])).0 ≡ 0xf1 = refl in
    let g : (utf8_decodificar (0xe1 ∷ 65 ∷ [])).1 ≡ 65 ∷ [] = refl in tt

decodificar-codificar_example : utf8_decodificar (codificar 0x1f600 ++ 65 ∷ []) ≡ (0x1f600, 65 ∷ [])
decodificar-codificar_example = decodificar-codificar 0x1f600 (65 ∷ []) (omega arith) (omega arith)
