-- ===== src/Mp4/Entrega.antt =====
-- What a call of mp4.c for the next sample gives.
use taek_os.Prelude.{
  ℕ, ◌+◌, ◌-◌, ◌≤◌, ◌<◌, Bool, true, false, not, ◌||◌, List, ◌≡◌, refl, sym, ◌∙◌, ltb, si, arith,
}
use taek_os.Mp4.Pista.{
  Mp4Resultado, mp4_ok, datos_invalidos, no_soportado, sin_memoria, limite_excedido, error_lectura,
}
use taek_os.Mp4.Fuente.{
  en_muestra, Leido, leidos, corta, negativa, Lectura, Lector, con_leido, pedida, mp4_leer_exacto,
}
use taek_os.Mp4.Cursor.{
  Muestra, sin_datos, en_archivo, en_bufer, Origen, en_memoria, por_lectura, con_lectura,
  segun_origen, mp4_leer_muestra,
}
use taek_os.Mp4.Siguiente.{Paso, entrega, fallo, con_muestra_leida, Medio}

module _ {W : Type 0} (medio : Medio W) (pista o tam : ℕ) (l : Lector W) where
  -- The data of a sample, `tam` bytes at `o`: what the medium has there.
  pub data Traida : Muestra → Type 0 where
    de_indice : medio.solo_indice ≡ true → Traida sin_datos
    de_memoria : medio.solo_indice ≡ false → medio.origen ≡ en_memoria → Traida (en_archivo o)
    de_fuente :
        (leer : Lectura W) (capacidad : ℕ) (d : List ℕ)
        → medio.origen ≡ por_lectura leer true capacidad
        → tam ≤ capacidad
        → (leer l.mundo pista o tam).0 ≡ leidos d
        → Traida (en_bufer d)

  -- Why a sample does not come: it is not in the file, there is no room for it, or the source fails.
  pub data Falta : Mp4Resultado → Type 0 where
    fuera : medio.bytes < o + tam → Falta datos_invalidos
    sin_sitio :
        (leer : Lectura W) (hay : Bool) (capacidad : ℕ)
        → medio.origen ≡ por_lectura leer hay capacidad
        → (not hay || ltb capacidad tam) ≡ true
        → Falta limite_excedido
    sin_lectura :
        (leer : Lectura W) (capacidad : ℕ)
        → medio.origen ≡ por_lectura leer true capacidad
        → ((d : List ℕ) → (leer l.mundo pista o tam).0 ≡ leidos d → ⊥)
        → Falta error_lectura

  abbrev pub Leida : (Mp4Resultado × Muestra) × Lector W → Type 0
  Leida ((mp4_ok, m), n) = (o + tam ≤ medio.bytes) × Traida m
  Leida ((datos_invalidos, m), n) = Falta datos_invalidos
  Leida ((no_soportado, m), n) = Falta no_soportado
  Leida ((sin_memoria, m), n) = Falta sin_memoria
  Leida ((limite_excedido, m), n) = Falta limite_excedido
  Leida ((error_lectura, m), n) = Falta error_lectura

  de_la_lectura :
      (leer : Lectura W) (capacidad : ℕ)
      → medio.origen ≡ por_lectura leer true capacidad
      → tam ≤ capacidad
      → o + tam ≤ medio.bytes
      → Leida (con_lectura (mp4_leer_exacto leer pista o en_muestra tam l))
  unfolding mp4_leer_exacto
  de_la_lectura leer capacidad e h k = dado ((leer l.mundo pista o tam).0) refl
    where
      dado :
          (x : Leido)
          → (leer l.mundo pista o tam).0 ≡ x
          → Leida
              (con_lectura (con_leido (pedida l o en_muestra tam (leer l.mundo pista o tam).1) x))
      dado (leidos d) g = (k, de_fuente leer capacidad d e h g)
      dado corta g = sin_lectura leer capacidad e (λ d f. nunca d (sym g ∙ f))
        where
          nunca : (d : List ℕ) → corta ≡ leidos d → ⊥
          nunca d f = cc
      dado (negativa r) g = sin_lectura leer capacidad e (λ d f. nunca d (sym g ∙ f))
        where
          nunca : (d : List ℕ) → negativa r ≡ leidos d → ⊥
          nunca d f = cc

  segun-Leida :
      (u : Origen W) (b : Bool)
      → medio.origen ≡ u
      → medio.solo_indice ≡ b
      → o + tam ≤ medio.bytes
      → Leida (segun_origen u b pista o tam l)
  segun-Leida u true e g k = (k, de_indice g)
  segun-Leida en_memoria false e g k = (k, de_memoria g e)
  segun-Leida (por_lectura leer false capacidad) false e g k = sin_sitio leer false capacidad e refl
  segun-Leida (por_lectura leer true capacidad) false e g k =
      si Leida (ltb capacidad tam) _ _ (λ f. sin_sitio leer true capacidad e f)
        (λ f. de_la_lectura leer capacidad e (ground (arith, f)) k)

  pub mp4_leer_muestra-Leida :
      Leida (mp4_leer_muestra medio.origen medio.solo_indice medio.bytes pista o tam l)
  unfolding mp4_leer_muestra
  mp4_leer_muestra-Leida =
      si Leida (ltb medio.bytes o || ltb (medio.bytes - o) tam) _ _ (λ e. fuera (ground (arith, e)))
        (λ e. segun-Leida medio.origen medio.solo_indice refl refl (ground (arith, e)))

  -- What holds after a read, from what holds if it gives the sample and if it does not.
  pub Leida-segun :
      {T C : Type 0} (R : Paso T C W → Type 0) (antes despues : C) (t : T)
      → ((m : Muestra) (n : Lector W)
          → o + tam ≤ medio.bytes
          → Traida m
          → R (entrega m tam t, despues, n))
      → ((e : Mp4Resultado) (n : Lector W) → Falta e → R (fallo e, antes, n))
      → (x : (Mp4Resultado × Muestra) × Lector W) → Leida x
      → R (con_muestra_leida antes despues tam t x)
  Leida-segun R antes despues t h k ((mp4_ok, m), n) f = h m n f.0 f.1
  Leida-segun R antes despues t h k ((datos_invalidos, m), n) f = k datos_invalidos n f
  Leida-segun R antes despues t h k ((no_soportado, m), n) f = k no_soportado n f
  Leida-segun R antes despues t h k ((sin_memoria, m), n) f = k sin_memoria n f
  Leida-segun R antes despues t h k ((limite_excedido, m), n) f = k limite_excedido n f
  Leida-segun R antes despues t h k ((error_lectura, m), n) f = k error_lectura n f
