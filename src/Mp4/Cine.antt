-- ===== src/Mp4/Cine.antt =====
-- A small file with a composition table, and the pictures that mp4.c gives of it.
use taek_os.Prelude.{ℕ, ◌-◌, ◌^◌, true, ◌≡◌, refl, List, ◌∷◌, ◌++◌, replicate, arith}
use taek_os.Mp4.Vista.{tipo_de, be32, be64, caja, buscar_desde, buscar, tabla}
use taek_os.Mp4.Pista.{
  ver_stbl, ver_mdhd, cabeza, ver_stts, ver_stsc, tablas, contar_reglas, reglas_bien,
}
use taek_os.Mp4.Abrir.{
  Video, contar, durar, validar, pista_video, cero, pistas, mp4_parsear_moov, mp4_abrir,
  cuenta_ctts,
}
use taek_os.Mp4.Cursor.{
  CursorVideo, cursor_cero, mp4_rebobinar_video, en_archivo, mp4_leer_muestra, avanzar_regla,
  ubicar, tamano_de, cronometrar, adelantar,
}
use taek_os.Mp4.Siguiente.{pos, entrega, componer, mp4_siguiente_video}
use taek_os.Mp4.Reparto.{son_bytes}
use taek_os.Mp4.Audio.{PistaIsBuena}
use taek_os.Mp4.Imagen.{RespuestaImagen}
use taek_os.Mp4.Orden.{rebobinado, entregado, siguiente_video-RespuestaImagen}
use taek_os.Mp4.Tests.{avc1, b32, ceros, en_caja}
use taek_os.Mp4.Sonido.{tablas_con, archivo_con, medio_de, lector}

-- The third picture is shown five ticks before its time, the others ten after theirs.
abbrev cine : List ℕ
cine = archivo_con 118 105 100 101 (
    tablas_con avc1
    ++ en_caja (tipo_de 99 116 116 115)
        (1 ∷ ceros 3 ++ (b32 2 ++ (b32 2 ++ (b32 10 ++ (b32 1 ++ b32 (2 ^ 32 - 5)))))))

abbrev imagen : Video
imagen = (mp4_abrir cero cine).1.video

se_ve : imagen.pista.tiene ≡ true
unfolding mp4_abrir mp4_parsear_moov pistas pista_video validar contar durar reglas_bien
    contar_reglas tablas ver_stsc ver_stts cabeza ver_mdhd ver_stbl tabla buscar buscar_desde caja
    be32 be64 replicate
se_ve = refl

cine-IsBueno : PistaIsBuena cine imagen.pista
unfolding mp4_abrir mp4_parsear_moov pistas pista_video validar contar durar reglas_bien
    contar_reglas tablas ver_stsc ver_stts cabeza ver_mdhd ver_stbl tabla buscar buscar_desde caja
    be32 be64 replicate son_bytes
cine-IsBueno = record {
  bytes = refl;
  reparte = refl;
  cuadra = refl;
  algunas = omega (arith, tres);
  pocas = omega (arith, tres);
}
  where
    tres : imagen.pista.muestras ≡ 3
    tres = refl

compuestas : cuenta_ctts cine imagen.ctts imagen.pista.muestras ≡ true
unfolding mp4_abrir mp4_parsear_moov pistas pista_video validar contar durar reglas_bien
    contar_reglas tablas ver_stsc ver_stts cabeza ver_mdhd ver_stbl tabla buscar buscar_desde caja
    be32 be64 replicate
compuestas = refl

abbrev inicio : CursorVideo
inicio =
    mp4_rebobinar_video
      (record { cursor = cursor_cero; regla_composicion = 0; restante_composicion = 0 })

abbrev visto : CursorVideo → CursorVideo
visto c = (mp4_siguiente_video (medio_de cine) cine imagen c lector).1

primera :
    (mp4_siguiente_video (medio_de cine) cine imagen inicio lector).0
    ≡ entrega (en_archivo 16) 4 (pos 10, 40)
unfolding mp4_abrir mp4_parsear_moov pistas pista_video validar contar durar reglas_bien
    contar_reglas tablas ver_stsc ver_stts cabeza ver_mdhd ver_stbl tabla buscar buscar_desde caja
    be32 be64 replicate mp4_siguiente_video mp4_rebobinar_video componer ubicar avanzar_regla
    tamano_de cronometrar adelantar mp4_leer_muestra
primera = refl

tercera_imagen :
    (mp4_siguiente_video (medio_de cine) cine imagen (visto (visto inicio)) lector).0
    ≡ entrega (en_archivo 100) 4 (pos 75, 50)
unfolding mp4_abrir mp4_parsear_moov pistas pista_video validar contar durar reglas_bien
    contar_reglas tablas ver_stsc ver_stts cabeza ver_mdhd ver_stbl tabla buscar buscar_desde caja
    be32 be64 replicate mp4_siguiente_video mp4_rebobinar_video componer ubicar avanzar_regla
    tamano_de cronometrar adelantar mp4_leer_muestra
tercera_imagen = refl

siguiente_video-RespuestaImagen_example :
    RespuestaImagen cine imagen cine-IsBueno compuestas
      (medio_de cine)
      lector
      (visto inicio).cursor.indice
      (mp4_siguiente_video (medio_de cine) cine imagen (visto inicio) lector)
siguiente_video-RespuestaImagen_example =
    siguiente_video-RespuestaImagen cine imagen cine-IsBueno compuestas (medio_de cine) se_ve
      (visto inicio) lector
      (entregado inicio lector (en_archivo 16) 4 (pos 10, 40)
        (rebobinado
          (record { cursor = cursor_cero; regla_composicion = 0; restante_composicion = 0 }))
        primera)
