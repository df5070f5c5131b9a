-- ===== src/Particiones/Tests.antt =====
-- Runs of nucleo/controladores/particiones.c on a small disk, and instances of its theorems.
use taek_os.Prelude.{
  ℕ, ◌+◌, ◌≤◌, ◌≡◌, refl, true, false, some, List, [], ◌∷◌, ◌++◌, ◌==◌, if◌then◌else◌, replicate,
  map, arith, bit_xor, if◌then◌else◌,
}
use taek_os.Particiones.Usb.{
  UsbMscDispositivo, Usb, VolumenResultado, volumen_ok, desconocido, listo,
}
use taek_os.Particiones.Leer.{Particion, leer_trozos, comprobar, particion_leer}
use taek_os.Particiones.Defs.{Particiones, solapa, agregar, crc_bits, crc, clasificar, mbr}
use taek_os.Particiones.Descubrir.{particion_identificar, identificar_todas, particiones_descubrir}
use taek_os.Particiones.Exacto.{tramo, IsFiel, leer-exacto}
use taek_os.Particiones.Tabla.{rango, IsTabla}
use taek_os.Particiones.Descubierta.{descubrir-IsTabla}

-- An entry of the MBR: its type, and the range.
abbrev entrada_mbr : ℕ → ℕ → ℕ → List ℕ
entrada_mbr tipo inicio n =
    0 ∷ 0 ∷ 0 ∷ 0 ∷ tipo ∷ 0 ∷ 0 ∷ 0 ∷ inicio ∷ 0 ∷ 0 ∷ 0 ∷ n ∷ 0 ∷ 0 ∷ 0 ∷ []

abbrev primer_sector : List ℕ
primer_sector =
    replicate 446 0
    ++ (entrada_mbr 0x83 1 20 ++ (entrada_mbr 0x83 21 70 ++ (replicate 32 0 ++ (0x55 ∷ 0xaa ∷ []))))

abbrev sector : ℕ → List ℕ
sector lba = if lba == 0 then primer_sector else replicate 512 0

abbrev tarjeta : UsbMscDispositivo
tarjeta = record {
  generacion = 1;
  activo = true;
  listo = true;
  sectores_totales = 100;
  tamano_sector = 512;
}

-- The disk of each unit: the first has two partitions.
abbrev discos : ℕ → ℕ → List ℕ
discos unidad lba = if unidad == 0 then sector lba else replicate 512 0

-- A driver that never fails.
abbrev memoria_usb : Usb (Unit {0})
memoria_usb = record {
  servicio = λ w. (false, w);
  obtener = λ w unidad. some tarjeta;
  leer_sectores = λ w unidad lba k. (some (tramo (discos unidad) lba k), w);
}

memoria_usb-IsFiel : IsFiel memoria_usb discos
memoria_usb-IsFiel w w' unidad lba k d e = cc

abbrev hallada : (VolumenResultado × Particiones) × Unit {0}
hallada = particiones_descubrir memoria_usb 8 0 tt

codigo : Unit {0}
unfolding replicate tramo leer_trozos comprobar particion_leer solapa agregar clasificar mbr
    particion_identificar identificar_todas particiones_descubrir
codigo =
    let e : hallada.0.0 ≡ volumen_ok = refl in
    let f : map rango hallada.0.1.entradas ≡ (1, 20) ∷ (21, 70) ∷ [] = refl in tt

-- The check value of the CRC: that of the nine digits.
codigo_crc : Unit {0}
unfolding crc crc_bits
codigo_crc =
    let e : bit_xor (crc 0xffffffff (49 ∷ 50 ∷ 51 ∷ 52 ∷ 53 ∷ 54 ∷ 55 ∷ 56 ∷ 57 ∷ [])) 0xffffffff
        ≡ 0xcbf43926 =
      refl in
    tt

abbrev segunda : Particion
segunda = record {
  inicio = 21;
  sectores = 70;
  generacion_msc = 1;
  numero = 2;
  unidad = 0;
  esquema = 1;
  formato = desconocido;
  resultado = volumen_ok;
  recuperado = false;
}

descubrir-IsTabla_example : IsTabla 100 hallada.0.1
descubrir-IsTabla_example = descubrir-IsTabla memoria_usb 8 0 tt tarjeta refl (omega arith)

leido_lem :
    (particion_leer memoria_usb 8 (λ w. false) segunda 3 10 tt).0
    ≡ listo (tramo (discos 0) 24 8 ++ (tramo (discos 0) 32 2 ++ []))
unfolding leer_trozos comprobar particion_leer
leido_lem = refl

leer-exacto_example :
    (tramo (discos 0) 24 8 ++ (tramo (discos 0) 32 2 ++ []) ≡ tramo (discos 0) (21 + 3) 10)
    × (3 + 10 ≤ 70)
leer-exacto_example =
    leer-exacto memoria_usb 8 (λ w. false) segunda discos memoria_usb-IsFiel 3 10 tt
      (tramo (discos 0) 24 8 ++ (tramo (discos 0) 32 2 ++ [])) (omega arith) (omega arith)
      (omega arith) leido_lem
