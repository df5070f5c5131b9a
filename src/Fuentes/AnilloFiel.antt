-- ===== src/Fuentes/AnilloFiel.antt =====
-- The producer of anillo_almacenamiento.c, over a source that gives the bytes of a file.
use taek_os.Prelude.{
  ℕ, zero, suc, ◌+◌, ◌≤◌, ◌<◌, true, false, not, ◌||◌, Option, none, some, List, [], ◌∷◌, ◌≡◌, inl,
  inr, refl, ap, ◌∙◌, ltb, si, length, ◌==◌, map, arith,
}
use taek_os.Mp4.Fuente.{Leido, leidos, corta, negativa, Lectura}
use taek_os.Fuentes.Fiel.{Trae, IsFiel}
use taek_os.Fuentes.Anillo.{
  Bloque, vaciado, Anillo, inicio, anillo_buscar, soltar, evictar, por_producir, tras_leer,
  protegido, Relleno, fin_archivo, progreso, roto,
}
use taek_os.Fuentes.Consumo.{
  producir, anillo_rellenar, sigue_llenando, falta, llenar_hasta, reponer,
}
use taek_os.Fuentes.Cadena.{Cadena-le, Sitio, buscar_lugar-Sitio}
use taek_os.Fuentes.AnilloVivo.{
  VivoDesde, AnilloIsVivo, inicio_es, soltar-Vivo, llenar-Vivo, fallar-Vivo,
}

module _ {W : Type 0} (F : Type 0) (archivo : ℕ → ℕ) (tamano : ℕ) (Vale : W → Type 0)
    (leer : Lectura W) (fiel : IsFiel F archivo tamano Vale leer) where
  abbrev Bien : Anillo W → Type 0
  Bien a = AnilloIsVivo archivo tamano Vale a

  abbrev Desde : ℕ → Anillo W → Type 0
  Desde ini a = VivoDesde archivo tamano Vale ini a

  soltar-Bien : (a : Anillo W) (ini : ℕ) → 0 < a.cantidad → Desde ini a → Bien (soltar a)
  soltar-Bien a ini p v =
      soltar-Vivo archivo tamano Vale a.mundo a.tamano a.bloque_bytes a.bloques a.productor_off
        a.cola a.cabeza a.cantidad ini p v

  -- After one block: the producer has gone on, or the source has failed.
  abbrev Producida : Anillo W → Relleno × Anillo W → Type 0
  Producida a (fin_archivo, d) = true ≡ false
  Producida a (roto r, d) = F × Bien d
  Producida a (progreso, d) =
      (ini : ℕ) × Desde ini d × (ini ≤ a.productor_off) × (a.productor_off < d.productor_off)

  tras_leer-Producida :
      (a : Anillo W) (ini : ℕ) (x : Leido × W)
      → Desde ini a
      → a.cantidad < 8
      → a.productor_off < a.tamano
      → Vale x.1
      → Trae F archivo a.productor_off (por_producir a) x.0
      → Producida a (tras_leer (λ d. (progreso, d)) a x)
  tras_leer-Producida a ini (leidos datos, w) v p q z t = (
    ini,
    llenar-Vivo archivo tamano Vale a.mundo w a.tamano a.bloque_bytes a.bloques a.productor_off
        a.cola a.cabeza a.cantidad ini (por_producir a) datos p v z (omega (arith, q, v.bloque_es))
        (omega (arith, v.bloque_es)) (omega (arith, q, v.tam_es)) t,
    Cadena-le archivo a.bloques a.cabeza a.cantidad 0 ini a.productor_off v.cadena,
    omega (arith, q, v.bloque_es),
  )
  tras_leer-Producida a ini (corta, w) v p q z t = (
    t,
    (
      ini,
      fallar-Vivo archivo tamano Vale a.mundo w a.tamano a.bloque_bytes a.bloques a.productor_off
          a.cola a.cabeza a.cantidad ini _ p v z,
    ),
  )
  tras_leer-Producida a ini (negativa r, w) v p q z t = (
    t,
    (
      ini,
      fallar-Vivo archivo tamano Vale a.mundo w a.tamano a.bloque_bytes a.bloques a.productor_off
          a.cola a.cabeza a.cantidad ini _ p v z,
    ),
  )

  producir-Producida :
      (a : Anillo W) (ini : ℕ)
      → Desde ini a
      → a.cantidad < 8
      → a.productor_off < a.tamano
      → Producida a (producir leer (λ d. (progreso, d)) a)
  producir-Producida a ini v p q =
      let e : a.productor_off + por_producir a ≤ tamano = omega (arith, q, v.tam_es) in
      tras_leer-Producida a ini (leer a.mundo 0 a.productor_off (por_producir a)) v p q
        (fiel.sigue a.mundo 0 a.productor_off (por_producir a) e v.vale)
        (fiel.trae a.mundo 0 a.productor_off (por_producir a) e v.vale)

  -- Any number of blocks: the ring stays valid, and an error is one of the source.
  abbrev pub Rellenada : Relleno × Anillo W → Type 0
  Rellenada (roto r, d) = F × Bien d
  Rellenada (x, d) = Bien d

  sigue-Rellenada :
      (a : Anillo W) (k : Anillo W → Relleno × Anillo W) (x : Leido × W)
      → Producida a (tras_leer (λ d. (progreso, d)) a x)
      → ((d : Anillo W) → Bien d → Rellenada (k d))
      → Rellenada (tras_leer k a x)
  sigue-Rellenada a k (leidos datos, w) h q = q _ (h.0, h.1)
  sigue-Rellenada a k (corta, w) h q = h
  sigue-Rellenada a k (negativa r, w) h q = h

  producir-Rellenada :
      (a : Anillo W) (b : Bien a) (k : Anillo W → Relleno × Anillo W)
      → a.cantidad < 8
      → a.productor_off < a.tamano
      → ((d : Anillo W) → Bien d → Rellenada (k d))
      → Rellenada (producir leer k a)
  producir-Rellenada a b k p q h =
      sigue-Rellenada a k (leer a.mundo 0 a.productor_off (por_producir a))
        (producir-Producida a b.0 b.1 p q) h

  pub rellenar-Rellenada : (k : ℕ) (a : Anillo W) → Bien a → Rellenada (anillo_rellenar leer k a)
  unfolding anillo_rellenar
  rellenar-Rellenada zero a b = b
  rellenar-Rellenada (suc k) a b =
      si Rellenada (not (ltb a.productor_off a.tamano)) _ _ (λ e. b)
        (λ e.
          si Rellenada (protegido a) _ _ (λ g. (b.0, b.1))
            (λ g.
              si (λ d. Rellenada (producir leer (anillo_rellenar leer k) d)) (a.cantidad == 8) _ _
                (λ y.
                  producir-Rellenada (evictar a) (soltar-Bien a b.0 (ground (arith, y)) b.1)
                    (anillo_rellenar leer k) (omega (arith, b.1.caben)) (ground (arith, e))
                    (λ d c. rellenar-Rellenada k d c))
                (λ y.
                  producir-Rellenada a b (anillo_rellenar leer k) (ground (arith, y, b.1.caben))
                    (ground (arith, e)) (λ d c. rellenar-Rellenada k d c))))

  -- The byte at `pos` is in the ring.
  abbrev pub Tiene : ℕ → Anillo W → Type 0
  Tiene pos a = (ini : ℕ) × Desde ini a × (ini ≤ pos) × (pos < a.productor_off)

  abbrev pub Llega : ℕ → Option ℕ × Anillo W → Type 0
  Llega pos (some r, a) = F × Bien a
  Llega pos (none, a) = Tiene pos a

  pub buscar-Sitio :
      (a : Anillo W) (ini pos : ℕ)
      → Desde ini a
      → Sitio archivo a.bloques ini a.productor_off pos (anillo_buscar a pos)
  unfolding anillo_buscar
  buscar-Sitio a ini pos v =
      buscar_lugar-Sitio archivo a.bloques a.cabeza a.cantidad 0 ini a.productor_off pos v.cadena

  falta_ya :
      (pos : ℕ) (k : Anillo W → Option ℕ × Anillo W) (a : Anillo W) (h : Tiene pos a) (x : Option ℕ)
      → Sitio archivo a.bloques h.0 a.productor_off pos x
      → Llega pos (falta leer k a x)
  falta_ya pos k a h (some s) c = h
  falta_ya pos k a h none (inl c) = absurd (omega (arith, c, h.2))
  falta_ya pos k a h none (inr c) = absurd (omega (arith, c, h.3))

  llenar_ya : (f pos : ℕ) (a : Anillo W) → Tiene pos a → Llega pos (llenar_hasta leer f pos a)
  unfolding llenar_hasta
  llenar_ya zero pos a h = h
  llenar_ya (suc f) pos a h =
      falta_ya pos (llenar_hasta leer f pos) a h (anillo_buscar a pos) (buscar-Sitio a h.0 pos h.1)

  sigue-Llega :
      (f pos : ℕ) (a : Anillo W) (x : Relleno × Anillo W)
      → a.productor_off ≡ pos
      → Producida a x
      → Llega pos (sigue_llenando leer (llenar_hasta leer f pos) x)
  sigue-Llega f pos a (fin_archivo, d) e h = absurd (ground (arith, h))
  sigue-Llega f pos a (roto r, d) e h = h
  sigue-Llega f pos a (progreso, d) e h =
      llenar_ya f pos d (h.0, h.1, omega (arith, h.2, e), omega (arith, h.3, e))

  rellenar_uno :
      (a : Anillo W) (ini : ℕ)
      → Desde ini a
      → a.cantidad < 8
      → a.productor_off < a.tamano
      → Producida a (anillo_rellenar leer 1 a)
  unfolding anillo_rellenar
  rellenar_uno a ini v p q =
      si (Producida a) (not (ltb a.productor_off a.tamano)) _ _ (λ e. absurd (ground (arith, e, q)))
        (λ e.
          si (Producida a) (protegido a) _ _ (λ g. absurd (ground (arith, g, p)))
            (λ g.
              si (λ d. Producida a (producir leer (λ x. (progreso, x)) d)) (a.cantidad == 8) _ _
                (λ y. absurd (ground (arith, y, p))) (λ y. producir-Producida a ini v p q)))

  falta-Llega :
      (f pos ini : ℕ) (a : Anillo W) (x : Option ℕ)
      → Desde ini a
      → ini ≤ pos
      → pos ≤ a.productor_off
      → pos < tamano
      → Sitio archivo a.bloques ini a.productor_off pos x
      → Llega pos (falta leer (llenar_hasta leer f pos) a x)
  falta-Llega f pos ini a (some s) v h k m c = (ini, v, h, c.5)
  falta-Llega f pos ini a none v h k m (inl c) = absurd (omega (arith, c, h))
  falta-Llega f pos ini a none v h k m (inr c) =
      si (Llega pos) (not (ltb a.productor_off a.tamano)) _ _
        (λ e. absurd (ground (arith, e, c, k, m, v.tam_es)))
        (λ e.
          si
            (λ d.
              Llega pos (sigue_llenando leer (llenar_hasta leer f pos) (anillo_rellenar leer 1 d)))
            (a.cantidad == 8) _ _
            (λ y.
              let b = soltar-Bien a ini (ground (arith, y)) v in
              sigue-Llega f pos (soltar a) (anillo_rellenar leer 1 (soltar a)) (omega (arith, c, k))
                (rellenar_uno (soltar a) b.0 b.1 (omega (arith, v.caben)) (ground (arith, e))))
            (λ y.
              sigue-Llega f pos a (anillo_rellenar leer 1 a) (omega (arith, c, k))
                (rellenar_uno a ini v (ground (arith, y, v.caben)) (ground (arith, e)))))

  pub llenar-Llega :
      (f pos ini : ℕ) (a : Anillo W)
      → 0 < f
      → Desde ini a
      → ini ≤ pos
      → pos ≤ a.productor_off
      → pos < tamano
      → Llega pos (llenar_hasta leer f pos a)
  unfolding llenar_hasta
  llenar-Llega zero pos ini a p v h k m = absurd (omega (arith, p))
  llenar-Llega (suc f) pos ini a p v h k m =
      falta-Llega f pos ini a (anillo_buscar a pos) v h k m (buscar-Sitio a ini pos v)

  abbrev pub Alcance : ℕ → Anillo W → Type 0
  Alcance pos a = (ini : ℕ) × Desde ini a × (ini ≤ pos) × (pos ≤ a.productor_off)

  length-map : (l : List Bloque) → length (map vaciado l) ≡ length l
  length-map [] = refl
  length-map (b ∷ l) = ap suc (length-map l)

  pub reponer-Alcance :
      (pos ini : ℕ) (a : Anillo W) → Desde ini a → pos ≤ tamano → Alcance pos (reponer pos a)
  reponer-Alcance pos ini a v h =
      si (Alcance pos) (ltb pos (inicio a) || ltb a.productor_off pos) _ _
        (λ e. (
          pos,
          record {
            vale = v.vale;
            tam_es = v.tam_es;
            bloque_es = v.bloque_es;
            ocho = length-map a.bloques ∙ v.ocho;
            cabe = omega arith;
            caben = omega arith;
            cola_es = omega arith;
            cadena = refl;
            corto = h;
          },
          omega arith,
          omega arith,
        ))
        (λ e.
          let i = inicio_es archivo tamano Vale a ini v in
          (ini, v, ground (arith, e, i), ground (arith, e)))
