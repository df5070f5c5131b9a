-- ===== src/Mp4/Tests.antt =====
-- A small file for mp4.c, and what its parts make of it.
use taek_os.Prelude.{
  ℕ, take, drop, ltb, if◌then◌else◌, ◌+◌, ◌*◌, ◌≤◌, ◌<◌, ◌/◌, ◌%◌, ◌^◌, true, ◌||◌, ◌≡◌, refl, List,
  [], ◌∷◌, ◌++◌, length, replicate, arith,
}
use taek_os.Mp4.Vista.{tipo_de, be32, be64, caja, buscar_desde, buscar, tabla}
use taek_os.Mp4.Pista.{
  mp4_ok, no_soportado, error_lectura, ver_stbl, ver_mdhd, cabeza, ver_stts, ver_stsc, tablas,
  contar_reglas, reglas_bien,
}
use taek_os.Mp4.Abrir.{
  contar, durar, validar, pista_video, pista_audio, cero, pistas, mp4_parsear_moov, todo, mp4_abrir,
}
use taek_os.Mp4.Cajas.{Recorrido, caja-Recorrido}
use taek_os.Mp4.Sana.{ContenedorIsSano, mp4_abrir-IsSano}
use taek_os.Mp4.Fuente.{
  en_h, en_metadatos, leidos, corta, Lectura, mp4_leer_exacto, leer_moov, con_tamano, con_cabecera,
  abrir_desde, mp4_abrir_fuente,
}
use taek_os.Mp4.Rondas.{abrir-combustible}
use taek_os.Mp4.Pedidas.{Leibles, mp4_abrir_fuente-Leibles}

abbrev pub b32 : ℕ → List ℕ
b32 n = n / 2 ^ 24 % 256 ∷ n / 2 ^ 16 % 256 ∷ n / 2 ^ 8 % 256 ∷ n % 256 ∷ []

abbrev pub ceros : ℕ → List ℕ
ceros n = replicate n 0

abbrev pub en_caja : ℕ → List ℕ → List ℕ
en_caja t c = b32 (8 + length c) ++ (b32 t ++ c)

abbrev pub avc1 : List ℕ
avc1 =
    en_caja (tipo_de 97 118 99 49)
      (ceros 78 ++ en_caja (tipo_de 97 118 99 67) (1 ∷ 0 ∷ 0 ∷ 0 ∷ 3 ∷ 0 ∷ 0 ∷ []))

abbrev cajas_stbl : ℕ → List ℕ
cajas_stbl n =
    en_caja (tipo_de 115 116 115 100) (ceros 4 ++ (b32 1 ++ avc1))
    ++ (en_caja (tipo_de 115 116 115 122) (ceros 4 ++ (b32 4 ++ b32 n))
        ++ (en_caja (tipo_de 115 116 115 99) (ceros 4 ++ (b32 1 ++ (b32 1 ++ (b32 2 ++ b32 1))))
            ++ (en_caja (tipo_de 115 116 99 111) (ceros 4 ++ (b32 1 ++ b32 0))
                ++ en_caja (tipo_de 115 116 116 115) (ceros 4 ++ (b32 1 ++ (b32 2 ++ b32 40))))))

-- A file with a track of two samples of four bytes, or with `n` in `stsz`.
abbrev pelicula_de : ℕ → List ℕ
pelicula_de n = en_caja (tipo_de 109 111 111 118) (
    en_caja (tipo_de 116 114 97 107) (
      en_caja (tipo_de 109 100 105 97) (
        en_caja (tipo_de 104 100 108 114) (ceros 8 ++ b32 (tipo_de 118 105 100 101))
        ++ (en_caja (tipo_de 109 100 104 100) (ceros 12 ++ (b32 1000 ++ ceros 4))
            ++ en_caja (tipo_de 109 105 110 102)
                (en_caja (tipo_de 115 116 98 108) (cajas_stbl n))))))

abbrev pelicula : List ℕ
pelicula = pelicula_de 2

abrir_pelicula : (mp4_abrir cero pelicula).0 ≡ mp4_ok
unfolding mp4_abrir mp4_parsear_moov pistas pista_video pista_audio validar contar durar reglas_bien
    contar_reglas tablas ver_stsc ver_stts cabeza ver_mdhd ver_stbl tabla buscar buscar_desde caja
    be32 be64 replicate
abrir_pelicula = refl

-- One sample less than the chunk has: no track is left.
abrir_corta : (mp4_abrir cero (pelicula_de 1)).0 ≡ no_soportado
unfolding mp4_abrir mp4_parsear_moov pistas pista_video pista_audio validar contar durar reglas_bien
    contar_reglas tablas ver_stsc ver_stts cabeza ver_mdhd ver_stbl tabla buscar buscar_desde caja
    be32 be64 replicate
abrir_corta = refl

mp4_abrir-IsSano_example :
    ContenedorIsSano pelicula (length pelicula) (mp4_abrir cero pelicula).1
    × (((mp4_abrir cero pelicula).1.video.pista.tiene
          || (mp4_abrir cero pelicula).1.audio.pista.tiene)
        ≡ true)
mp4_abrir-IsSano_example = mp4_abrir-IsSano cero pelicula abrir_pelicula

caja-Recorrido_example :
    (k : ℕ) × (k * 8 ≤ length pelicula)
    × Recorrido pelicula (todo pelicula) k
    × ((f : ℕ)
        → k < f
        → buscar_desde pelicula f (todo pelicula) (tipo_de 109 111 111 118)
          ≡ buscar pelicula (todo pelicula) (tipo_de 109 111 111 118))
caja-Recorrido_example = caja-Recorrido pelicula (todo pelicula) (tipo_de 109 111 111 118)

-- The file after a box that is skipped, as a source that reads no more than `n` bytes at a time.
abbrev pub disco : List ℕ
disco = en_caja (tipo_de 102 116 121 112) (ceros 4) ++ pelicula

abbrev hasta : ℕ → Lectura (Unit {0})
hasta n w pista offset cantidad =
    (if ltb n cantidad then corta else leidos (take cantidad (drop offset disco)), w)

fuente_pedidas :
    (mp4_abrir_fuente (hasta 1000) (length disco) 4096 true cero tt).1.pedidas
    ≡ record { offset = 12; destino = en_metadatos; cantidad = length pelicula }
      ∷ record { offset = 12; destino = en_h; cantidad = 8 }
      ∷ record { offset = 0; destino = en_h; cantidad = 8 }
      ∷ []
unfolding mp4_abrir_fuente abrir_desde con_cabecera con_tamano leer_moov mp4_leer_exacto mp4_abrir
    mp4_parsear_moov pistas pista_video pista_audio validar contar durar reglas_bien contar_reglas
    tablas ver_stsc ver_stts cabeza ver_mdhd ver_stbl tabla buscar buscar_desde caja be32 be64
    replicate
fuente_pedidas = refl

fuente_abierta : (mp4_abrir_fuente (hasta 1000) (length disco) 4096 true cero tt).0.0 ≡ mp4_ok
unfolding mp4_abrir_fuente abrir_desde con_cabecera con_tamano leer_moov mp4_leer_exacto mp4_abrir
    mp4_parsear_moov pistas pista_video pista_audio validar contar durar reglas_bien contar_reglas
    tablas ver_stsc ver_stts cabeza ver_mdhd ver_stbl tabla buscar buscar_desde caja be32 be64
    replicate
fuente_abierta = refl

fuente_corta : (mp4_abrir_fuente (hasta 100) (length disco) 4096 true cero tt).0.0 ≡ error_lectura
unfolding mp4_abrir_fuente abrir_desde con_cabecera con_tamano leer_moov mp4_leer_exacto mp4_abrir
    mp4_parsear_moov pistas pista_video pista_audio validar contar durar reglas_bien contar_reglas
    tablas ver_stsc ver_stts cabeza ver_mdhd ver_stbl tabla buscar buscar_desde caja be32 be64
    replicate
fuente_corta = refl

mp4_abrir_fuente-Leibles_example :
    Leibles
      (length disco)
      4096
      (mp4_abrir_fuente (hasta 1000) (length disco) 4096 true cero tt).1.pedidas
mp4_abrir_fuente-Leibles_example =
    mp4_abrir_fuente-Leibles (hasta 1000) (length disco) 4096 true cero tt

abrir-combustible_example :
    abrir_desde
      (hasta 1000)
      12
      4096
      20
      4
      (record { mundo = tt; ultimo_error_lectura = 0; pedidas = [] })
    ≡ abrir_desde
        (hasta 1000)
        12
        4096
        8
        4
        (record { mundo = tt; ultimo_error_lectura = 0; pedidas = [] })
abrir-combustible_example =
    abrir-combustible (hasta 1000) 12 4096 20 8 4
      (record { mundo = tt; ultimo_error_lectura = 0; pedidas = [] }) (omega arith) (omega arith)
      (omega arith)
