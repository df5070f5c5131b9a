-- ===== src/Particiones/Descubrir.antt =====
-- Recognising a volume and finding the partitions of a disk, in nucleo/controladores/particiones.c.
use taek_os.Prelude.{
  ℕ, zero, suc, ◌+◌, ◌-◌, ◌*◌, ◌/◌, ◌%◌, ◌^◌, Bool, true, false, not, ◌||◌, Option, none, some,
  List, [], ◌∷◌, ◌==◌, ltb, if◌then◌else◌, get_or, take, drop, bit_xor,
}
use taek_os.Particiones.Usb.{
  UsbMscDispositivo, Usb, VolumenResultado, volumen_ok, desconocido_error, no_soportado, corrupto,
  desconectado, sector_no_soportado, desconocido, fat32, exfat, ext4, Res, listo, fallo, M, ◌>>=◌,
  ◌>>◌, pure, rechazar,
}
use taek_os.Particiones.Leer.{Particion, particion_leer}
use taek_os.Particiones.Defs.{
  Clase, es, otra_fat, rota, nada, Particiones, u16, u32, u64, empieza, nombre_exfat, crc,
  clasificar, marcar, vacias, gpt_entrada, cabecera_mala, rango_malo, crc_malo, entradas_malas,
  sectores_tabla, tabla_mala, mbr, protector, de_lectura, es_desconocido, de_corte, disco_de,
}

module _ {W : Type 0} (u : Usb W) (lectura : ℕ) where
  -- A read with no flag to cancel it.
  abbrev pub leer : Particion → ℕ → M W (List ℕ)
  leer p sector = particion_leer u lectura (λ _. false) p sector 1

  -- The later copies: the backup of an exFAT volume and the superblock of ext4.
  abbrev pub ver_ext4 : Particion → Res (List ℕ) × W → Particion × W
  ver_ext4 p (fallo e, w) = (marcar p desconocido e, w)
  ver_ext4 p (listo s, w) = (
    if u16 s 56 == 0xef53 then marcar p ext4 volumen_ok else marcar p desconocido desconocido_error,
    w,
  )

  abbrev pub probar_ext4 : Particion → W → Particion × W
  probar_ext4 p w =
      if ltb 2 p.sectores
      then ver_ext4 p (leer p 2 w)
      else (marcar p desconocido desconocido_error, w)

  abbrev pub ver_exfat : Particion → Res (List ℕ) × W → Particion × W
  ver_exfat p (fallo e, w) = (marcar p desconocido e, w)
  ver_exfat p (listo s, w) =
      if empieza (drop 3 s) nombre_exfat
      then (record p { formato = exfat; resultado = volumen_ok; recuperado = true }, w)
      else probar_ext4 p w

  abbrev pub probar_copias : Particion → W → Particion × W
  probar_copias p w = if ltb 12 p.sectores then ver_exfat p (leer p 12 w) else probar_ext4 p w

  abbrev pub segun : Particion → Clase → W → Particion × W
  segun p (es f) w = (marcar p f volumen_ok, w)
  segun p otra_fat w = (marcar p desconocido no_soportado, w)
  segun p rota w = (marcar p fat32 corrupto, w)
  segun p nada w = probar_copias p w

  -- The partition with its format, and in `resultado` what is returned.
  abbrev pub ver_primero : Particion → Res (List ℕ) × W → Particion × W
  ver_primero p (fallo e, w) = (marcar p desconocido e, w)
  ver_primero p (listo s, w) = segun p (clasificar s) w

  unfoldable pub particion_identificar : Particion → W → Particion × W
  particion_identificar p w = ver_primero p (leer p 0 w)

  abbrev pub de_res : {A : Type 0} → Res A → M W A
  de_res r w = (r, w)

  -- The checksum of the table, a sector at a time.
  unfoldable pub crc_tabla : Particion → ℕ → ℕ → ℕ → ℕ → M W ℕ
  crc_tabla disco zero sector bytes c = pure c
  crc_tabla disco (suc f) sector bytes c = do
    s ← leer disco sector
    crc_tabla disco f (sector + 1) (bytes - 512)
        (crc c (take (if ltb bytes 512 then bytes else 512) s))

  unfoldable pub gpt_entradas : Particion → ℕ → ℕ → ℕ → ℕ → ℕ → ℕ → Particiones → M W Particiones
  gpt_entradas disco tabla entrada primero ultimo zero i out = pure out
  gpt_entradas disco tabla entrada primero ultimo (suc f) i out = do
    s ← leer disco ((tabla + i * entrada / 512) % 2 ^ 64)
    otra ← de_res (gpt_entrada disco primero ultimo i (drop (i * entrada % 512) s) out)
    gpt_entradas disco tabla entrada primero ultimo f (i + 1) otra

  -- The table whose header is at sector `donde`, added to `out`.
  unfoldable pub gpt : Particiones → Particion → ℕ → M W Particiones
  gpt out disco donde = do
    h ← leer disco donde
    rechazar (cabecera_mala disco donde h) corrupto
    rechazar (rango_malo disco donde h) corrupto
    rechazar (crc_malo h) corrupto
    rechazar (entradas_malas h) no_soportado
    rechazar (tabla_mala disco donde h) corrupto
    c ← crc_tabla disco (sectores_tabla h) (u64 h 72) (u32 h 80 * u32 h 84) 0xffffffff
    rechazar (not (bit_xor c 0xffffffff == u32 h 88)) corrupto
    gpt_entradas disco (u64 h 72) (u32 h 84) (u64 h 40) (u64 h 48) (u32 h 80) 0 out

  -- A table whose first copy is corrupt is looked for in the last sector.
  abbrev pub ver_gpt : Particion → Res Particiones × W → (VolumenResultado × Particiones) × W
  ver_gpt disco (listo out, w) = ((volumen_ok, out), w)
  ver_gpt disco (fallo e, w) = ((e, vacias), w)

  abbrev pub ver_copia : Res Particiones × W → (VolumenResultado × Particiones) × W
  ver_copia (listo out, w) = ((volumen_ok, record out { recuperado = true }), w)
  ver_copia (fallo e, w) = ((e, vacias), w)

  abbrev pub buscar_gpt : Particion → Res Particiones × W → (VolumenResultado × Particiones) × W
  buscar_gpt disco (fallo corrupto, w) =
      ver_copia (gpt vacias disco ((disco.sectores + 2 ^ 64 - 1) % 2 ^ 64) w)
  buscar_gpt disco r = ver_gpt disco r

  -- The format of each partition found, up to the first read that fails.
  unfoldable pub identificar_todas : List Particion → W → (VolumenResultado × List Particion) × W
  identificar_todas [] w = ((volumen_ok, []), w)
  identificar_todas (p ∷ ps) w =
      let q = particion_identificar p w in
      let resto = identificar_todas ps q.1 in
      if de_lectura q.0.resultado
      then ((q.0.resultado, q.0 ∷ ps), q.1)
      else ((resto.0.0, q.0 ∷ resto.0.1), resto.1)

  abbrev pub terminar :
      (VolumenResultado × List Particion) × W → Bool → (VolumenResultado × Particiones) × W
  terminar ((volumen_ok, []), w) b =
      ((desconocido_error, record { entradas = []; recuperado = b }), w)
  terminar ((e, ps), w) b = ((e, record { entradas = ps; recuperado = b }), w)

  abbrev pub identificar_halladas :
      (VolumenResultado × Particiones) × W → (VolumenResultado × Particiones) × W
  identificar_halladas ((volumen_ok, out), w) =
      terminar (identificar_todas out.entradas w) out.recuperado
  identificar_halladas r = r

  -- The whole disk is a volume, or its first sector `s` leads to a table.
  abbrev pub con_directo : Particion → List ℕ → Particion × W → (VolumenResultado × Particiones) × W
  con_directo disco s (directo, w) =
      if de_corte directo.resultado
      then ((directo.resultado, vacias), w)
      else if not (es_desconocido directo.formato)
      then ((volumen_ok, record vacias { entradas = record directo { numero = 1 } ∷ [] }), w)
      else if not (get_or s 510 0 == 0x55) || not (get_or s 511 0 == 0xaa)
      then ((corrupto, vacias), w)
      else if protector s
      then identificar_halladas (buscar_gpt disco (gpt vacias disco 1 w))
      else identificar_halladas (mbr 4 0 disco s vacias, w)

  abbrev pub con_sector : Particion → Res (List ℕ) × W → (VolumenResultado × Particiones) × W
  con_sector disco (fallo e, w) = ((e, vacias), w)
  con_sector disco (listo s, w) = con_directo disco s (particion_identificar disco w)

  abbrev pub con_dispositivo :
      ℕ → Option UsbMscDispositivo → W → (VolumenResultado × Particiones) × W
  con_dispositivo unidad none w = ((desconectado, vacias), w)
  con_dispositivo unidad (some d) w =
      if not d.activo || not d.listo
      then ((desconectado, vacias), w)
      else if not (d.tamano_sector == 512)
      then ((sector_no_soportado, vacias), w)
      else con_sector (disco_de unidad d) (leer (disco_de unidad d) 0 w)

  unfoldable pub particiones_descubrir : ℕ → W → (VolumenResultado × Particiones) × W
  particiones_descubrir unidad w = con_dispositivo unidad (u.obtener w unidad) w
