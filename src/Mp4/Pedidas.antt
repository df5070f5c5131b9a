-- ===== src/Mp4/Pedidas.antt =====
-- The reads that mp4_abrir_fuente of mp4.c asks of its source.
use taek_os.Prelude.{
  ℕ, zero, suc, ◌+◌, ◌-◌, ◌^◌, ◌≤◌, Bool, not, ◌||◌, List, [], ◌∷◌, ◌==◌, ltb, si, arith,
}
use taek_os.Mp4.Vista.{tipo_de, be32, be64, Caja, acabada, rota, una, caja}
use taek_os.Mp4.Abrir.{Contenedor, todo}
use taek_os.Mp4.Fuente.{
  Destino, en_h, en_metadatos, en_muestra, Pedida, Leido, leidos, corta, negativa, Lectura, Lector,
  con_leido, pedida, mp4_leer_exacto, Abierta, leida, con_caja, leer_moov, con_tamano, con_cabecera,
  abrir_desde, mp4_abrir_fuente,
}

-- The room of a buffer; opening a container has no samples to read.
abbrev pub cabida : ℕ → Destino → ℕ
cabida capacidad en_h = 16
cabida capacidad en_metadatos = capacidad
cabida capacidad en_muestra = 0

-- Every read lies in a file of `bytes`, and asks for no more than its own buffer takes.
abbrev pub Leibles : ℕ → ℕ → List Pedida → Type 0
Leibles bytes capacidad [] = Unit {0}
Leibles bytes capacidad (p ∷ ps) =
    (p.offset + p.cantidad ≤ bytes)
    × (p.cantidad ≤ cabida capacidad p.destino)
    × Leibles bytes capacidad ps

module _ {W : Type 0} (leer : Lectura W) (bytes capacidad : ℕ) where
  abbrev Bien : Abierta W → Type 0
  Bien r = Leibles bytes capacidad r.1.pedidas

  con_leido-Bien :
      (l : Lector W) (x : Leido) (k : List ℕ → Lector W → Abierta W)
      → Leibles bytes capacidad l.pedidas
      → ((h : List ℕ) (m : Lector W) → Leibles bytes capacidad m.pedidas → Bien (k h m))
      → Bien (leida k (con_leido l x))
  con_leido-Bien l (leidos h) k i q = q h l i
  con_leido-Bien l corta k i q = i
  con_leido-Bien l (negativa r) k i q = i

  exacta-Bien :
      (offset n : ℕ) (d : Destino) (l : Lector W) (k : List ℕ → Lector W → Abierta W)
      → offset + n ≤ bytes
      → n ≤ cabida capacidad d
      → Leibles bytes capacidad l.pedidas
      → ((h : List ℕ) (m : Lector W) → Leibles bytes capacidad m.pedidas → Bien (k h m))
      → Bien (leida k (mp4_leer_exacto leer 0 offset d n l))
  unfolding mp4_leer_exacto
  exacta-Bien offset n d l k a b i q =
      let r = leer l.mundo 0 offset n in con_leido-Bien (pedida l offset d n r.1) r.0 k (a, b, i) q

  con_caja-Bien :
      (s : List ℕ) (l : Lector W) (c : Caja)
      → Leibles bytes capacidad l.pedidas
      → Bien (con_caja s l c)
  con_caja-Bien s l acabada i = i
  con_caja-Bien s l rota i = i
  con_caja-Bien s l (una t moov resto) i =
      si Bien (not (t == tipo_de 109 111 111 118)) _ _ (λ e. i) (λ e. i)

  leer_moov-Bien :
      (offset tam : ℕ) (l : Lector W)
      → offset + tam ≤ bytes
      → Leibles bytes capacidad l.pedidas
      → Bien (leer_moov leer bytes capacidad offset tam l)
  unfolding leer_moov
  leer_moov-Bien offset tam l a i =
      si Bien (ltb capacidad tam || ltb (2 ^ 64 - 1) tam) _ _ (λ e. i)
        (λ e.
          exacta-Bien offset tam en_metadatos l _ a (ground (arith, e)) i
            (λ s m j. con_caja-Bien s m (caja s (todo s)) j))

  abbrev Sigue : (ℕ → Lector W → Abierta W) → Type 0
  Sigue k = (o : ℕ) (m : Lector W) → o ≤ bytes → Leibles bytes capacidad m.pedidas → Bien (k o m)

  con_tamano-Bien :
      (offset t tam c : ℕ) (k : ℕ → Lector W → Abierta W) (l : Lector W)
      → offset ≤ bytes
      → Leibles bytes capacidad l.pedidas
      → Sigue k
      → Bien (con_tamano leer bytes capacidad offset t tam c k l)
  unfolding con_tamano
  con_tamano-Bien offset t tam c k l a i q =
      si Bien (ltb tam c || ltb (bytes - offset) tam) _ _ (λ e. i)
        (λ e.
          si Bien (t == tipo_de 109 111 111 118) _ _
            (λ f. leer_moov-Bien offset tam l (ground (arith, e, a)) i)
            (λ f. q (offset + tam) l (ground (arith, e, a)) i))

  con_cabecera-Bien :
      (offset : ℕ) (k : ℕ → Lector W → Abierta W) (h : List ℕ) (l : Lector W)
      → offset ≤ bytes
      → Leibles bytes capacidad l.pedidas
      → Sigue k
      → Bien (con_cabecera leer bytes capacidad offset k h l)
  unfolding con_cabecera
  con_cabecera-Bien offset k h l a i q =
      si Bien (not (be32 h 0 == 1)) _ _ (λ e. con_tamano-Bien offset (be32 h 4) _ 8 k l a i q)
        (λ e.
          si Bien (ltb (bytes - offset) 16) _ _ (λ f. i)
            (λ f.
              exacta-Bien offset 16 en_h l _ (ground (arith, f, a)) (omega arith) i
                (λ g m j. con_tamano-Bien offset (be32 h 4) (be64 g 8) 16 k m a j q)))

  abrir_desde-Bien :
      (f offset : ℕ) (l : Lector W)
      → 8 ≤ bytes
      → Leibles bytes capacidad l.pedidas
      → Bien (abrir_desde leer bytes capacidad f offset l)
  unfolding abrir_desde
  abrir_desde-Bien zero offset l b i = i
  abrir_desde-Bien (suc f) offset l b i =
      si Bien (ltb (bytes - 8) offset) _ _ (λ e. i)
        (λ e. exacta-Bien offset 8 en_h l _ (ground (arith, e, b)) (omega arith) i (λ h m j.
          con_cabecera-Bien offset _ h m (ground (arith, e, b)) j
            (λ o n a p. abrir_desde-Bien f o n b p)))

-- Whatever the source answers, mp4_abrir_fuente asks it for no byte past the size given, and each read goes to the
-- header's buffer and is of 16 bytes at most, or to the caller's for metadata and of no more than its capacity.
pub mp4_abrir_fuente-Leibles :
    {W : Type 0} (leer : Lectura W) (bytes capacidad : ℕ) (hay : Bool) (m : Contenedor) (w : W)
    → Leibles bytes capacidad (mp4_abrir_fuente leer bytes capacidad hay m w).1.pedidas
unfolding mp4_abrir_fuente
mp4_abrir_fuente-Leibles leer bytes capacidad hay m w =
    si (Bien leer bytes capacidad) (not hay || ltb capacidad 8 || ltb bytes 8) _ _ (λ e. tt)
      (λ e. abrir_desde-Bien leer bytes capacidad bytes 0 _ (ground (arith, e)) tt)
