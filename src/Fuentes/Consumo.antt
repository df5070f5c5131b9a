-- ===== src/Fuentes/Consumo.antt =====
-- The producer and the reads of anillo_almacenamiento.c, in nucleo/controladores/multimedia/reproductor.
use taek_os.Prelude.{
  ℕ, zero, suc, ◌+◌, ◌-◌, ◌%◌, ◌^◌, min, max, true, not, ◌||◌, Option, none, some, [], ◌==◌, ltb,
  if◌then◌else◌, get_or, set, take, drop,
}
use taek_os.Mp4.Fuente.{Leido, leidos, negativa, Lectura}
use taek_os.Fuentes.Fiel.{Aviso, avisar, juntar}
use taek_os.Fuentes.Anillo.{
  bloque_cero, Anillo, mas, Relleno, inicio, anillo_buscar, anillo_muestrear_margen,
  anillo_descartar_todo, soltar, evictar, por_producir, tras_leer, protegido, consumiendo,
  fin_archivo, progreso, roto,
}

module _ {W : Type 0} (leer : Lectura W) where
  abbrev pub producir : (Anillo W → Relleno × Anillo W) → Anillo W → Relleno × Anillo W
  producir sigue a = tras_leer sigue a (leer a.mundo 0 a.productor_off (por_producir a))

  unfoldable pub anillo_rellenar : ℕ → Anillo W → Relleno × Anillo W
  anillo_rellenar zero a = (progreso, a)
  anillo_rellenar (suc k) a =
      if not (ltb a.productor_off a.tamano)
      then (fin_archivo, a)
      else if protegido a
      then (progreso, record a { productor_paradas = mas a.productor_paradas 1 })
      else producir (anillo_rellenar k) (if a.cantidad == 8 then evictar a else a)

  abbrev pub sigue_llenando :
      (Anillo W → Option ℕ × Anillo W) → Relleno × Anillo W → Option ℕ × Anillo W
  sigue_llenando sigue (roto r, a) = (some r, a)
  sigue_llenando sigue (fin_archivo, a) = (none, a)
  sigue_llenando sigue (progreso, a) = sigue a

  abbrev pub con_sitio : Anillo W → Anillo W
  con_sitio a = if a.cantidad == 8 then soltar a else a

  -- A round of the inner loop of anillo_leer, by where the byte is: another slot is filled until it is there.
  abbrev pub falta : (Anillo W → Option ℕ × Anillo W) → Anillo W → Option ℕ → Option ℕ × Anillo W
  falta sigue a (some s) = (none, a)
  falta sigue a none =
      if not (ltb a.productor_off a.tamano)
      then (none, a)
      else sigue_llenando sigue (anillo_rellenar 1 (con_sitio a))

  -- The loop, on fuel, with how far below zero it fails: a round reads a byte of the file at least.
  unfoldable pub llenar_hasta : ℕ → ℕ → Anillo W → Option ℕ × Anillo W
  llenar_hasta zero pos a = (none, a)
  llenar_hasta (suc f) pos a = falta (llenar_hasta f pos) a (anillo_buscar a pos)

module _ {W : Type 0} where
  abbrev pub con_estado : ℕ → Anillo W → Anillo W
  con_estado s a = record a {
    aciertos = mas a.aciertos 1;
    bloques = set a.bloques s (record (get_or a.bloques s bloque_cero) { estado = consumiendo });
  }

  abbrev pub tocar : ℕ → Anillo W → Anillo W
  tocar s a = record a {
    bloques = set a.bloques s (record (get_or a.bloques s bloque_cero) { tocado = true });
  }

  -- The bytes at `pos` that slot `s` has, of the `n` that are left to read.
  abbrev pub servir_de :
      (ℕ → ℕ → Anillo W → Leido × Anillo W) → ℕ → ℕ → ℕ → Anillo W → Leido × Anillo W
  servir_de sigue pos n s a =
      let b = get_or a.bloques s bloque_cero in
      let dentro = pos - b.offset in
      let k = min ((b.bytes + 2 ^ 64 - dentro) % 2 ^ 64) n in
      juntar (take k (drop dentro b.datos)) (sigue (pos + k) (n - k) (tocar s a))

  -- Where the byte is neither in the window nor right behind it, the window starts again there.
  abbrev pub reponer : ℕ → Anillo W → Anillo W
  reponer pos a =
      if ltb pos (inicio a) || ltb a.productor_off pos
      then record (anillo_descartar_todo a) {
        productor_off = pos;
        reposiciones = mas a.reposiciones 1;
      }
      else a

  abbrev pub en_falta : Anillo W → Anillo W
  en_falta a = record a { fallos = mas a.fallos 1; starvations = mas a.starvations 1 }

  abbrev pub atendido : (Anillo W → Leido × Anillo W) → Anillo W → Option ℕ × W → Leido × Anillo W
  atendido sigue a (none, w) = sigue (record a { mundo = w })
  atendido sigue a (some r, w) = (negativa r, record a { mundo = w })

  abbrev pub buscado : (ℕ → Anillo W → Leido × Anillo W) → Anillo W → Option ℕ → Leido × Anillo W
  buscado sigue a none = (negativa 5, a)
  buscado sigue a (some s) = sigue s a

  abbrev pub llenado :
      (ℕ → Anillo W → Leido × Anillo W) → ℕ → Option ℕ × Anillo W → Leido × Anillo W
  llenado sigue pos (some r, a) = (negativa r, a)
  llenado sigue pos (none, a) = buscado sigue a (anillo_buscar a pos)

  abbrev pub apuntado : ℕ → ℕ → Leido × Anillo W → Leido × Anillo W
  apuntado p fin (leidos s, a) = (
    leidos s,
    anillo_muestrear_margen (record a {
      leido = set a.leido p (max fin (get_or a.leido p 0));
      pista_activa = set a.pista_activa p true;
    }),
  )
  apuntado p fin (r, a) = (r, a)

module _ {W : Type 0} (leer : Lectura W) (validar : Aviso W) where
  abbrev pub desde : (ℕ → Anillo W → Leido × Anillo W) → ℕ → Anillo W → Option ℕ → Leido × Anillo W
  desde sigue pos a (some s) = sigue s (con_estado s a)
  desde sigue pos a none =
      llenado sigue pos (llenar_hasta leer (a.tamano + 1) pos (en_falta (reponer pos a)))

  -- The loop, for `n` bytes from `pos` on, on fuel: a round copies a byte at least.
  unfoldable pub recorrer_anillo : ℕ → ℕ → ℕ → Anillo W → Leido × Anillo W
  recorrer_anillo zero pos n a = (leidos [], a)
  recorrer_anillo (suc f) pos n a =
      if n == 0
      then (leidos [], a)
      else atendido (λ b. desde (servir_de (recorrer_anillo f) pos n) pos b (anillo_buscar b pos)) a
          (avisar validar a.mundo)

  unfoldable pub anillo_leer : Lectura (Anillo W)
  anillo_leer a pista off n =
      let p = if ltb pista 4 then pista else 0 in
      if ltb a.tamano off || ltb (a.tamano - off) n
      then (negativa 1, a)
      else if n == 0
      then (leidos [], a)
      else apuntado p (off + n) (recorrer_anillo n off n (record a { lecturas = mas a.lecturas 1 }))
