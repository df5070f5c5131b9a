-- ===== src/Particiones/Usb.antt =====
-- What nucleo/controladores/particiones.c asks of the USB storage driver, and the results of its calls.
use taek_os.Prelude.{ℕ, Bool, true, false, Option, List}

-- The fields of `struct usb_msc_dispositivo` that the partition code reads.
pub record UsbMscDispositivo : Type 0 where
  pub generacion : ℕ
  pub activo : Bool
  pub listo : Bool
  pub sectores_totales : ℕ
  pub tamano_sector : ℕ

-- The driver over a state of its own: the idle service (false when there is none), usb_msc_obtener_dispositivo, and
-- usb_msc_leer_sectores, where none is a transfer that failed.
pub record Usb (W : Type 0) : Type 0 where
  pub servicio : W → Bool × W
  pub obtener : W → ℕ → Option UsbMscDispositivo
  pub leer_sectores : W → ℕ → ℕ → ℕ → Option (List ℕ) × W

-- `enum volumen_resultado`, as far as this code returns it.
pub data VolumenResultado : Type 0 where
  volumen_ok desconocido_error no_soportado corrupto transporte desconectado cancelado
        sector_no_soportado :
      VolumenResultado

pub data VolumenFormato : Type 0 where
  desconocido fat32 exfat ntfs ext4 : VolumenFormato

pub data Res (A : Type 0) : Type 0 where
  listo : A → Res A
  fallo : VolumenResultado → Res A

-- A call that may fail and changes the driver's state.
abbrev pub M : Type 0 → Type 0 → Type 0
M W A = W → Res A × W

module _ {W : Type 0} where
  abbrev pub pure : {A : Type 0} → A → M W A
  pure a w = (listo a, w)

  infixl 5 ◌>>=◌ ◌>>◌
  unfoldable pub ◌>>=◌ : {A B : Type 0} → M W A → (A → M W B) → M W B
  ◌>>=◌ m f w = let r = m w in elim r.0 [ listo a ↦ f a r.1 | fallo e ↦ (fallo e, r.1) ]

  abbrev pub ◌>>◌ : {A B : Type 0} → M W A → M W B → M W B
  m >> k = m >>= λ _. k

  abbrev pub error : {A : Type 0} → VolumenResultado → M W A
  error e w = (fallo e, w)

  abbrev pub rechazar : Bool → VolumenResultado → M W (Unit {0})
  rechazar true e = error e
  rechazar false e = pure tt
