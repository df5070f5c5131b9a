-- ===== src/Mp4/Sonido.antt =====
-- A small file with sound, and the samples that mp4.c gives of it.
use taek_os.Prelude.{ℕ, zero, suc, true, false, ◌≡◌, refl, List, [], ◌++◌, length, replicate, arith}
use taek_os.Mp4.Vista.{tipo_de, be32, be64, caja, buscar_desde, buscar, tabla}
use taek_os.Mp4.Pista.{
  ver_stbl, ver_mdhd, cabeza, ver_stts, ver_stsc, tablas, contar_reglas, reglas_bien,
}
use taek_os.Mp4.Abrir.{
  Audio, contar, durar, validar, pista_video, pista_audio, cero, pistas, mp4_parsear_moov,
  mp4_abrir,
}
use taek_os.Mp4.Fuente.{Lector}
use taek_os.Mp4.Cursor.{
  Cursor, cursor_cero, mp4_rebobinar_audio, en_archivo, en_memoria, mp4_leer_muestra, avanzar_regla,
  ubicar, tamano_de, cronometrar, adelantar,
}
use taek_os.Mp4.Siguiente.{pos, Medio, entrega, mp4_siguiente_audio}
use taek_os.Mp4.Reparto.{son_bytes}
use taek_os.Mp4.Audio.{PistaIsBuena, rebobinado, llamado, Respuesta, siguiente_audio-Respuesta, r}
use taek_os.Mp4.Tests.{b32, ceros, en_caja}

abbrev mp4a : List ℕ
mp4a = en_caja (tipo_de 109 112 52 97) (ceros 28)

-- The tables of a track of three samples of four bytes, two to the first chunk, which last 40 and 40 and 50.
abbrev pub tablas_con : List ℕ → List ℕ
tablas_con descripcion =
    en_caja (tipo_de 115 116 115 100) (ceros 4 ++ (b32 1 ++ descripcion))
    ++ (en_caja (tipo_de 115 116 115 122) (ceros 4 ++ (b32 4 ++ b32 3))
        ++ (en_caja (tipo_de 115 116 115 99)
              (ceros 4 ++ (b32 2 ++ (b32 1 ++ (b32 2 ++ (b32 1 ++ (b32 2 ++ (b32 1 ++ b32 1)))))))
            ++ (en_caja (tipo_de 115 116 99 111) (ceros 4 ++ (b32 2 ++ (b32 16 ++ b32 100)))
                ++ en_caja (tipo_de 115 116 116 115)
                    (ceros 4 ++ (b32 2 ++ (b32 2 ++ (b32 40 ++ (b32 1 ++ b32 50))))))))

-- A file with a track of the kind and with the tables given.
abbrev pub archivo_con : ℕ → ℕ → ℕ → ℕ → List ℕ → List ℕ
archivo_con a b c d stbl = en_caja (tipo_de 109 111 111 118) (
    en_caja (tipo_de 116 114 97 107) (
      en_caja (tipo_de 109 100 105 97) (
        en_caja (tipo_de 104 100 108 114) (ceros 8 ++ b32 (tipo_de a b c d))
        ++ (en_caja (tipo_de 109 100 104 100) (ceros 12 ++ (b32 1000 ++ ceros 4))
            ++ en_caja (tipo_de 109 105 110 102) (en_caja (tipo_de 115 116 98 108) stbl)))))

abbrev cancion : List ℕ
cancion = archivo_con 115 111 117 110 (tablas_con mp4a)

abbrev sonido : Audio
sonido = (mp4_abrir cero cancion).1.audio

suena_sonido : sonido.pista.tiene ≡ true
unfolding mp4_abrir mp4_parsear_moov pistas pista_video pista_audio validar contar durar reglas_bien
    contar_reglas tablas ver_stsc ver_stts cabeza ver_mdhd ver_stbl tabla buscar buscar_desde caja
    be32 be64 replicate
suena_sonido = refl

sonido-IsBueno : PistaIsBuena cancion sonido.pista
unfolding mp4_abrir mp4_parsear_moov pistas pista_video pista_audio validar contar durar reglas_bien
    contar_reglas tablas ver_stsc ver_stts cabeza ver_mdhd ver_stbl tabla buscar buscar_desde caja
    be32 be64 replicate son_bytes
sonido-IsBueno = record {
  bytes = refl;
  reparte = refl;
  cuadra = refl;
  algunas = omega (arith, tres);
  pocas = omega (arith, tres);
}
  where
    tres : sonido.pista.muestras ≡ 3
    tres = refl

abbrev pub medio_de : List ℕ → Medio ℕ
medio_de s = record { origen = en_memoria; bytes = length s; solo_indice = false }

abbrev pub lector : Lector ℕ
lector = record { mundo = 0; ultimo_error_lectura = 0; pedidas = [] }

abbrev tras_llamadas : ℕ → Cursor
tras_llamadas zero = cursor_cero
tras_llamadas (suc n) =
    (mp4_siguiente_audio (medio_de cancion) cancion sonido (tras_llamadas n) lector).1

tercera :
    (mp4_siguiente_audio (medio_de cancion) cancion sonido (tras_llamadas 2) lector).0
    ≡ entrega (en_archivo 100) 4 (pos 80)
unfolding mp4_abrir mp4_parsear_moov pistas pista_video pista_audio validar contar durar reglas_bien
    contar_reglas tablas ver_stsc ver_stts cabeza ver_mdhd ver_stbl tabla buscar buscar_desde caja
    be32 be64 replicate mp4_siguiente_audio ubicar avanzar_regla tamano_de cronometrar adelantar
    mp4_leer_muestra
tercera = refl

siguiente_audio-Respuesta_example :
    Respuesta cancion sonido.pista sonido-IsBueno.bytes
      (r cancion sonido sonido-IsBueno)
      (medio_de cancion)
      1
      lector
      (mp4_siguiente_audio
        (medio_de cancion)
        cancion
        sonido
        (mp4_rebobinar_audio cursor_cero)
        lector).1.indice
      (mp4_siguiente_audio
        (medio_de cancion)
        cancion
        sonido
        (mp4_siguiente_audio
          (medio_de cancion)
          cancion
          sonido
          (mp4_rebobinar_audio cursor_cero)
          lector).1
        lector)
siguiente_audio-Respuesta_example =
    siguiente_audio-Respuesta cancion sonido sonido-IsBueno (medio_de cancion) suena_sonido
      (mp4_siguiente_audio (medio_de cancion) cancion sonido (mp4_rebobinar_audio cursor_cero)
        lector).1
      lector (llamado (mp4_rebobinar_audio cursor_cero) lector (rebobinado cursor_cero))
