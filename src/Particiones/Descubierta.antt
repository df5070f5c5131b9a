-- ===== src/Particiones/Descubierta.antt =====
-- The table that particiones_descubrir of nucleo/controladores/particiones.c leaves, on every outcome.
use taek_os.Prelude.{
  ℕ, suc, ◌+◌, ◌-◌, ◌%◌, ◌^◌, ◌<◌, ◌≡◌, refl, sym, ap, subst, ◌∙◌, Bool, not, ◌||◌, Option, some,
  List, [], ◌∷◌, ◌==◌, length, map, arith, get_or, si, if◌then◌else◌,
}
use taek_os.Particiones.Usb.{
  UsbMscDispositivo, Usb, VolumenResultado, volumen_ok, desconocido_error, no_soportado, corrupto,
  transporte, desconectado, cancelado, sector_no_soportado, Res, listo, fallo,
}
use taek_os.Particiones.Leer.{Particion}
use taek_os.Particiones.Defs.{
  Particiones, vacias, mbr, disco_de, protector, es_desconocido, de_corte,
}
use taek_os.Particiones.Descubrir.{
  leer, gpt, particion_identificar, identificar_todas, particiones_descubrir, buscar_gpt, ver_copia,
  identificar_halladas, terminar, con_directo, con_sector, con_dispositivo,
}
use taek_os.Particiones.Tabla.{rango, Tabla, IsTabla, CumpleRes}
use taek_os.Particiones.Hallar.{
  gpt-IsTabla, mbr-IsTabla, identificar-rango, identificar_todas-rango,
}

length-map : (ps : List Particion) → length (map rango ps) ≡ length ps
length-map [] = refl
length-map (p ∷ ps) = ap suc (length-map ps)

module _ {W : Type 0} (u : Usb W) (lectura : ℕ) (disco : Particion)
    (cabe : disco.sectores < 2 ^ 64) where
  abbrev Deja : (VolumenResultado × Particiones) × W → Type 0
  Deja r = IsTabla disco.sectores r.0.1

  vacias-IsTabla : IsTabla disco.sectores vacias
  vacias-IsTabla = (tt, omega arith)

  ver_copia-Deja :
      (r : Res Particiones × W)
      → CumpleRes (IsTabla disco.sectores) r.0
      → Deja (ver_copia u lectura r)
  ver_copia-Deja (listo out, w) h = h
  ver_copia-Deja (fallo e, w) h = vacias-IsTabla

  buscar_gpt-Deja :
      (r : Res Particiones × W)
      → CumpleRes (IsTabla disco.sectores) r.0
      → Deja (buscar_gpt u lectura disco r)
  buscar_gpt-Deja (fallo corrupto, w) h =
      ver_copia-Deja (gpt u lectura vacias disco ((disco.sectores + 2 ^ 64 - 1) % 2 ^ 64) w) (
        gpt-IsTabla u lectura disco cabe vacias ((disco.sectores + 2 ^ 64 - 1) % 2 ^ 64)
          vacias-IsTabla w)
  buscar_gpt-Deja (listo out, w) h = h
  buscar_gpt-Deja (fallo volumen_ok, w) h = vacias-IsTabla
  buscar_gpt-Deja (fallo desconocido_error, w) h = vacias-IsTabla
  buscar_gpt-Deja (fallo no_soportado, w) h = vacias-IsTabla
  buscar_gpt-Deja (fallo transporte, w) h = vacias-IsTabla
  buscar_gpt-Deja (fallo desconectado, w) h = vacias-IsTabla
  buscar_gpt-Deja (fallo cancelado, w) h = vacias-IsTabla
  buscar_gpt-Deja (fallo sector_no_soportado, w) h = vacias-IsTabla

  -- The list that was identified has the ranges of the one found.
  abbrev Mismos : List Particion → List Particion → Type 0
  Mismos ps qs = map rango qs ≡ map rango ps

  Mismos-IsTabla :
      (ps qs : List Particion) (b c : Bool)
      → Mismos ps qs
      → IsTabla disco.sectores (record { entradas = ps; recuperado = b })
      → IsTabla disco.sectores (record { entradas = qs; recuperado = c })
  Mismos-IsTabla ps qs b c e h = (
    subst (Tabla disco.sectores) (sym e) h.0,
    omega (arith, h.1, length-map ps, length-map qs, ap length e),
  )

  terminar-Deja :
      (ps : List Particion) (r : (VolumenResultado × List Particion) × W) (b : Bool)
      → Mismos ps r.0.1
      → IsTabla disco.sectores (record { entradas = ps; recuperado = b })
      → Deja (terminar u lectura r b)
  terminar-Deja ps ((volumen_ok, []), w) b e h = vacias-IsTabla
  terminar-Deja ps ((volumen_ok, q ∷ qs), w) b e h = Mismos-IsTabla ps (q ∷ qs) b b e h
  terminar-Deja ps ((desconocido_error, qs), w) b e h = Mismos-IsTabla ps qs b b e h
  terminar-Deja ps ((no_soportado, qs), w) b e h = Mismos-IsTabla ps qs b b e h
  terminar-Deja ps ((corrupto, qs), w) b e h = Mismos-IsTabla ps qs b b e h
  terminar-Deja ps ((transporte, qs), w) b e h = Mismos-IsTabla ps qs b b e h
  terminar-Deja ps ((desconectado, qs), w) b e h = Mismos-IsTabla ps qs b b e h
  terminar-Deja ps ((cancelado, qs), w) b e h = Mismos-IsTabla ps qs b b e h
  terminar-Deja ps ((sector_no_soportado, qs), w) b e h = Mismos-IsTabla ps qs b b e h

  identificar_halladas-Deja :
      (r : (VolumenResultado × Particiones) × W) → Deja r → Deja (identificar_halladas u lectura r)
  identificar_halladas-Deja ((volumen_ok, out), w) h =
      terminar-Deja out.entradas (identificar_todas u lectura out.entradas w) out.recuperado
        (identificar_todas-rango u lectura out.entradas w) h
  identificar_halladas-Deja ((desconocido_error, out), w) h = h
  identificar_halladas-Deja ((no_soportado, out), w) h = h
  identificar_halladas-Deja ((corrupto, out), w) h = h
  identificar_halladas-Deja ((transporte, out), w) h = h
  identificar_halladas-Deja ((desconectado, out), w) h = h
  identificar_halladas-Deja ((cancelado, out), w) h = h
  identificar_halladas-Deja ((sector_no_soportado, out), w) h = h

  con_directo-Deja :
      (s : List ℕ) (r : Particion × W)
      → rango r.0 ≡ (0, disco.sectores)
      → Deja (con_directo u lectura disco s r)
  con_directo-Deja s (directo, w) e =
      let firma = not (get_or s 510 0 == 0x55) || not (get_or s 511 0 == 0xaa) in
      let por_gpt =
        identificar_halladas u lectura
          (buscar_gpt u lectura disco (gpt u lectura vacias disco 1 w)) in
      let por_mbr = identificar_halladas u lectura (mbr 4 0 disco s vacias, w) in
      let hallada = if protector s then por_gpt else por_mbr in
      let entero : (VolumenResultado × Particiones) × W =
        ((volumen_ok, record vacias { entradas = record directo { numero = 1 } ∷ [] }), w) in
      let con_firma = if firma then ((corrupto, vacias), w) else hallada in
      si Deja (de_corte directo.resultado) ((directo.resultado, vacias), w)
        (if not (es_desconocido directo.formato) then entero else con_firma) (λ _. vacias-IsTabla)
        (λ _.
          si Deja (not (es_desconocido directo.formato)) entero con_firma
            (λ _. (
              (omega (arith, ap (λ (x : ℕ × ℕ). x.0) e, ap (λ (x : ℕ × ℕ). x.1) e), tt, tt),
              omega arith,
            ))
            (λ _.
              si Deja firma ((corrupto, vacias), w) hallada (λ _. vacias-IsTabla)
                (λ _.
                  si Deja (protector s) por_gpt por_mbr
                    (λ _.
                      identificar_halladas-Deja
                        (buscar_gpt u lectura disco (gpt u lectura vacias disco 1 w))
                        (buscar_gpt-Deja (gpt u lectura vacias disco 1 w)
                          (gpt-IsTabla u lectura disco cabe vacias 1 vacias-IsTabla w)))
                    (λ _.
                      identificar_halladas-Deja (mbr 4 0 disco s vacias, w)
                        (mbr-IsTabla disco 4 0 s vacias cabe vacias-IsTabla)))))

  con_sector-Deja : (r : Res (List ℕ) × W) → disco.inicio ≡ 0 → Deja (con_sector u lectura disco r)
  con_sector-Deja (fallo e, w) h = vacias-IsTabla
  con_sector-Deja (listo s, w) h =
      con_directo-Deja s (particion_identificar u lectura disco w)
        (identificar-rango u lectura disco w ∙ ap (λ (i : ℕ). (i, disco.sectores)) h)

-- Whatever the disk holds and however the search ends, the partitions that it leaves lie in the disk, no two of them
-- share a sector, and there are at most 128, if the device reports fewer than 2^32 sectors.
pub descubrir-IsTabla :
    {W : Type 0} (u : Usb W) (lectura unidad : ℕ) (w : W) (d : UsbMscDispositivo)
    → u.obtener w unidad ≡ some d
    → d.sectores_totales < 2 ^ 32
    → IsTabla d.sectores_totales (particiones_descubrir u lectura unidad w).0.1
unfolding particiones_descubrir
descubrir-IsTabla {W} u lectura unidad w d e h =
    let disco = disco_de unidad d in
    let P : (VolumenResultado × Particiones) × W → Type 0 = λ r. IsTabla d.sectores_totales r.0.1 in
    let cabe : disco.sectores < 2 ^ 64 = omega (arith, h) in
    let leida = con_sector u lectura disco (leer u lectura disco 0 w) in
    let con_tamano =
      if not (d.tamano_sector == 512) then ((sector_no_soportado, vacias), w) else leida in
    subst (λ (o : Option UsbMscDispositivo). P (con_dispositivo u lectura unidad o w)) (sym e)
      (si P (not d.activo || not d.listo) ((desconectado, vacias), w) con_tamano
        (λ _. (tt, omega arith))
        (λ _.
          si P (not (d.tamano_sector == 512)) ((sector_no_soportado, vacias), w) leida
            (λ _. (tt, omega arith))
            (λ _. con_sector-Deja u lectura disco cabe (leer u lectura disco 0 w) refl)))
