-- ===== src/Mp4/Orden.antt =====
-- The pictures that mp4.c gives one after the other to a caller that goes on after each one that it gets.
use taek_os.Prelude.{ℕ, true, List, ◌≡◌, arith}
use taek_os.Mp4.Abrir.{Video, cuenta_ctts}
use taek_os.Mp4.Fuente.{Lector}
use taek_os.Mp4.Cursor.{mp4_rebobinar_video, CursorVideo, Muestra}
use taek_os.Mp4.Siguiente.{ℤ, Medio, entrega, mp4_siguiente_video}
use taek_os.Mp4.Composicion.{cero-EnCtts}
use taek_os.Mp4.Audio.{PistaIsBuena, cursor_cero-IsBueno}
use taek_os.Mp4.Imagen.{r, Pasea, RespuestaImagen, siguiente-RespuestaImagen, sigue-Pasea}

module _ (s : List ℕ) (v : Video) (h : PistaIsBuena s v.pista)
    (compuestas : cuenta_ctts s v.ctts v.pista.muestras ≡ true) {W : Type 0} (medio : Medio W)
    (tiene : v.pista.tiene ≡ true) where
  -- The cursors that rewinding and calls that gave a picture reach.
  pub data Seguido : CursorVideo → Type 0 where
    rebobinado : (c : CursorVideo) → Seguido (mp4_rebobinar_video c)
    entregado :
        (c : CursorVideo) (l : Lector W) (m : Muestra) (tam : ℕ) (t : ℤ × ℕ)
        → Seguido c
        → (mp4_siguiente_video medio s v c l).0 ≡ entrega m tam t
        → Seguido (mp4_siguiente_video medio s v c l).1

  Seguido-Pasea : (c : CursorVideo) → Seguido c → Pasea s v h compuestas c
  unfolding mp4_rebobinar_video
  Seguido-Pasea c (rebobinado d) = (
    cursor_cero-IsBueno s v.pista h.bytes (r s v h compuestas),
    cero-EnCtts s v.pista h.bytes v.ctts,
    omega arith,
  )
  Seguido-Pasea c (entregado d l m tam t g e) =
      sigue-Pasea s v h compuestas medio l d.cursor.indice (mp4_siguiente_video medio s v d l) m tam
        t e (siguiente-RespuestaImagen s v h compuestas medio l d tiene (Seguido-Pasea d g))

  -- Of the video of an open container that is rewound and then called for pictures, as long as calls give them: the
  -- next call ends only after the last one; or it fails for a sample of size zero, one that is not in the file, a
  -- buffer that is missing or too small, a source that does not give its bytes or a decoding time that does not leave
  -- room in 63 bits, and the cursor stays at that sample; or it gives the sample next in order, with the size that
  -- `stsz` gives, from the position that `stsc` and `stco` say, whole in the file, with the data that memory or the
  -- source has there, the duration that `stts` says, and the presentation time that is the time of `stts` with the
  -- offset of `ctts`, if there is one. The file is of bytes; `stsc`, `stts` and `ctts` count the samples, which are
  -- some and fewer than 2^32.
  pub siguiente_video-RespuestaImagen :
      (c : CursorVideo) (l : Lector W)
      → Seguido c
      → RespuestaImagen s v h compuestas medio l c.cursor.indice (mp4_siguiente_video medio s v c l)
  siguiente_video-RespuestaImagen c l g =
      siguiente-RespuestaImagen s v h compuestas medio l c tiene (Seguido-Pasea c g)
