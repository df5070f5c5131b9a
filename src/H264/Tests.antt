-- ===== src/H264/Tests.antt =====
-- Runs of the bit reader of nucleo/controladores/multimedia/h264/bits.c, and instances of its theorems.
use taek_os.Prelude.{not, ◌+◌, ◌-◌, ◌^◌, ◌≤◌, ◌<◌, ◌≡◌, ◌⊎◌, refl, [], ◌∷◌, arith, false, true}
use taek_os.H264.Defs.{
  H264Bits, bit_en, con_error, leer_bits, h264_bits_leer, contar_ceros, h264_ue, h264_se,
}
use taek_os.H264.Final.{h264_mas_rbsp, alinear, h264_fin_rbsp}
use taek_os.H264.Acuerdo.{fin_rbsp-mas_rbsp}
use taek_os.H264.Leer.{Alcanza, Contiene, valor, avanzado, leer-Alcanza, leer-Contiene, ue-Contiene}

-- The bits 0010 1100: the code 00101, which is 4, and a rest.
abbrev flujo : H264Bits
flujo = record { datos = 0x2c ∷ []; bytes = 1; posicion = 0; error = false }

codigo : Unit {0}
unfolding bit_en leer_bits h264_bits_leer contar_ceros h264_ue h264_se
codigo =
    let e : (h264_ue flujo).0 ≡ 4 = refl in
    let f : (h264_se flujo).0 ≡ (true, 2) = refl in
    let g : (h264_bits_leer flujo 9).1.error ≡ true = refl in
    let h : (h264_ue (avanzado flujo 6)).1.error ≡ true = refl in tt

flujo-Contiene : Contiene flujo.datos 0 (0 ∷ 0 ∷ 1 ∷ 0 ∷ 1 ∷ [])
unfolding bit_en
flujo-Contiene = (refl, (refl, (refl, (refl, (refl, tt)))))

ue-Contiene_example : h264_ue flujo ≡ (2 ^ 2 - 1 + valor 0 (0 ∷ 1 ∷ []), avanzado flujo (2 + 1 + 2))
ue-Contiene_example =
    ue-Contiene flujo 2 (0 ∷ 1 ∷ [])
      (record { sano = refl; bytes_bien = omega arith; alcanza = omega arith }) flujo-Contiene refl
      (omega arith)

leer-Contiene_example :
    h264_bits_leer flujo 5 ≡ (valor 0 (0 ∷ 0 ∷ 1 ∷ 0 ∷ 1 ∷ []), avanzado flujo 5)
leer-Contiene_example =
    leer-Contiene flujo (0 ∷ 0 ∷ 1 ∷ 0 ∷ 1 ∷ [])
      (record { sano = refl; bytes_bien = omega arith; alcanza = omega arith }) flujo-Contiene
      (omega arith)

leer-Alcanza_example :
    (h264_bits_leer flujo 9 ≡ (0, con_error flujo))
    ⊎ (Alcanza flujo 9
        × (9 ≤ 32)
        × ((h264_bits_leer flujo 9).0 < 2 ^ 9)
        × ((h264_bits_leer flujo 9).1 ≡ avanzado flujo 9))
leer-Alcanza_example = leer-Alcanza flujo 9

-- After five bits of 0010 1100 there are a one and zeros; after four, another one besides.
fin_rbsp-mas_rbsp_example :
    (h264_fin_rbsp (avanzado flujo 5)).0 ≡ not (h264_mas_rbsp (avanzado flujo 5))
fin_rbsp-mas_rbsp_example =
    fin_rbsp-mas_rbsp (avanzado flujo 5)
      (record { sano = refl; bytes_bien = omega arith; alcanza = omega arith })

fines :
    ((h264_fin_rbsp (avanzado flujo 5)).0 ≡ true) × ((h264_fin_rbsp (avanzado flujo 4)).0 ≡ false)
unfolding bit_en leer_bits h264_bits_leer h264_fin_rbsp alinear
fines = (refl, refl)
