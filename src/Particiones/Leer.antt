-- ===== src/Particiones/Leer.antt =====
-- Reads of a partition's sectors in nucleo/controladores/particiones.c.
use taek_os.Prelude.{
  ℕ, zero, suc, ◌+◌, ◌-◌, ◌*◌, ◌%◌, ◌^◌, Bool, true, false, not, ◌||◌, Option, none, some, List, [],
  ◌++◌, ◌==◌, ltb, if◌then◌else◌,
}
use taek_os.Particiones.Usb.{
  UsbMscDispositivo, Usb, VolumenResultado, corrupto, transporte, desconectado, cancelado,
  sector_no_soportado, VolumenFormato, Res, listo, fallo, M, error,
}

pub record Particion : Type 0 where
  pub inicio : ℕ
  pub sectores : ℕ
  pub generacion_msc : ℕ
  pub numero : ℕ
  pub unidad : ℕ
  pub esquema : ℕ
  pub formato : VolumenFormato
  pub resultado : VolumenResultado
  pub recuperado : Bool

-- `lectura_sectores` from its value and the KiB asked for, and whether these are allowed.
unfoldable pub particiones_configurar_lectura : ℕ → ℕ → ℕ × Bool
particiones_configurar_lectura lectura kib =
    if kib == 4 || kib == 16 || kib == 32 || kib == 64 || kib == 128 || kib == 256
    then (kib * 2 % 2 ^ 16, true)
    else (lectura, false)

-- The device of the partition, if it is still the one that the partition was found on.
abbrev pub vigente : Particion → Option UsbMscDispositivo → Option UsbMscDispositivo
vigente p none = none
vigente p (some d) =
    if not d.activo || not d.listo || not (d.generacion == p.generacion_msc) then none else some d

abbrev pub no_alcanza : ℕ → ℕ → UsbMscDispositivo → Bool
no_alcanza lba k d =
    ltb (2 ^ 32 - 1) lba || ltb d.sectores_totales k || ltb (d.sectores_totales - k) lba

module _ {W : Type 0} where
  abbrev pub juntar : List ℕ → Res (List ℕ) × W → Res (List ℕ) × W
  juntar datos (listo mas, w) = (listo (datos ++ mas), w)
  juntar datos (fallo e, w) = (fallo e, w)

  -- After a transfer: the device has to be there still.
  abbrev pub transferido :
      Option (List ℕ) → Option UsbMscDispositivo → Res (List ℕ) × W → W → Res (List ℕ) × W
  transferido none v resto w = (fallo transporte, w)
  transferido (some datos) none resto w = (fallo desconectado, w)
  transferido (some datos) (some d) resto w = juntar datos resto

  abbrev pub presente : Option UsbMscDispositivo → W → Res (List ℕ) × W
  presente none w = (fallo desconectado, w)
  presente (some d) w = (listo [], w)

  abbrev pub con_vigente :
      ℕ → ℕ → Option UsbMscDispositivo → Res (List ℕ) × W → W → Res (List ℕ) × W
  con_vigente lba k none hecho w = (fallo desconectado, w)
  con_vigente lba k (some d) hecho w =
      if not (d.tamano_sector == 512)
      then (fallo sector_no_soportado, w)
      else if no_alcanza lba k d
      then (fallo corrupto, w)
      else hecho

module _ {W : Type 0} (u : Usb W) (lectura : ℕ) (cancel : W → Bool) (p : Particion) where
  -- The reads of `k` sectors each, on fuel; the sectors come back as their bytes.
  unfoldable pub leer_trozos : ℕ → ℕ → ℕ → M W (List ℕ)
  leer_trozos zero sector n w = (listo [], w)
  leer_trozos (suc f) sector n w =
      let s = u.servicio w in
      let k = if ltb lectura n then lectura else n in
      let lba = (p.inicio + sector) % 2 ^ 64 in
      let t = u.leer_sectores s.1 p.unidad lba (k % 2 ^ 16) in
      let resto = leer_trozos f (sector + k) (n - k) t.1 in
      if n == 0
      then (listo [], w)
      else if s.0 || cancel s.1
      then (fallo cancelado, s.1)
      else con_vigente lba k (vigente p (u.obtener s.1 p.unidad))
          (transferido t.0 (vigente p (u.obtener t.1 p.unidad)) resto t.1) s.1

  unfoldable pub comprobar : M W (List ℕ)
  comprobar w =
      let s = u.servicio w in
      if s.0 || cancel s.1
      then (fallo cancelado, s.1)
      else presente (vigente p (u.obtener s.1 p.unidad)) s.1

  -- Each round reads a sector at least, so `n` rounds are enough.
  unfoldable pub particion_leer : ℕ → ℕ → M W (List ℕ)
  particion_leer sector n =
      if ltb p.sectores sector || ltb (p.sectores - sector) n
      then error corrupto
      else if ltb (2 ^ 64 - 1 - sector) p.inicio
      then error corrupto
      else if n == 0
      then comprobar
      else leer_trozos n sector n
