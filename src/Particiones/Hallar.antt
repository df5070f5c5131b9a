-- ===== src/Particiones/Hallar.antt =====
-- The search of nucleo/controladores/particiones.c, in the MBR, the GPT and the copies, keeps a table.
use taek_os.Prelude.{
  ℕ, zero, suc, ◌+◌, ◌-◌, ◌*◌, ◌/◌, ◌%◌, ◌^◌, ◌<◌, ◌≡◌, refl, ap, ap₂, true, not, ◌&&◌, ◌||◌, List,
  [], ◌∷◌, ◌==◌, ltb, if◌then◌else◌, map, drop, arith, bit_xor, get_or, Bool-cases, inl, inr, si,
}
use taek_os.Particiones.Usb.{
  desconocido, exfat, ext4, Usb, VolumenResultado, volumen_ok, desconocido_error, no_soportado,
  corrupto, Res, listo, fallo, M, ◌>>=◌, rechazar,
}
use taek_os.Particiones.Leer.{Particion}
use taek_os.Particiones.Defs.{
  u16, marcar, empieza, nombre_exfat, de_lectura, mbr_sigue, Particiones, Clase, es, otra_fat, rota,
  nada, u32, u64, agregar, gpt_entrada, alguno, cabecera_mala, rango_malo, crc_malo, entradas_malas,
  tabla_mala, sectores_tabla, mbr, clasificar,
}
use taek_os.Particiones.Descubrir.{
  leer, de_res, crc_tabla, gpt_entradas, gpt, particion_identificar, segun, identificar_todas,
  ver_primero, ver_exfat, ver_ext4, probar_ext4,
}
use taek_os.Particiones.Tabla.{rango, IsTabla, CumpleRes, si_res, agregar-IsTabla}

gpt_entrada-IsTabla :
    (disco : Particion) (primero ultimo i : ℕ) (e : List ℕ) (out : Particiones)
    → disco.sectores < 2 ^ 64
    → IsTabla disco.sectores out
    → CumpleRes (IsTabla disco.sectores) (gpt_entrada disco primero ultimo i e out)
gpt_entrada-IsTabla disco primero ultimo i e out t h = elim (Bool-cases (not (alguno 16 e))) [
  | inl q ↦ rw q h
  | inr q ↦ rw q (
      si_res (IsTabla disco.sectores)
        (ltb (u64 e 32) primero || ltb ultimo (u64 e 40) || ltb (u64 e 40) (u64 e 32))
        (agregar out disco (u64 e 32) (u64 e 40 - u64 e 32 + 1) (i + 1) 2) corrupto
        (λ _. agregar-IsTabla out disco (u64 e 32) (u64 e 40 - u64 e 32 + 1) (i + 1) 2 t h))
]

algo : {A : Type 0} (r : Res A) → CumpleRes (λ _. Unit {0}) r
algo (listo a) = tt
algo (fallo e) = tt

module _ {W : Type 0} where
  -- What a call returns, when it succeeds, satisfies `P`, whatever the driver does.
  abbrev Cumple : {A : Type 0} → (A → Type 0) → M W A → Type 0
  Cumple P m = (w : W) → CumpleRes P (m w).0

  seguir :
      {A B : Type 0} (P : A → Type 0) (Q : B → Type 0) (r : Res A × W) (f : A → M W B)
      → CumpleRes P r.0
      → ((a : A) → P a → Cumple Q (f a))
      → CumpleRes Q (((λ _. r) >>= f) r.1).0
  unfolding ◌>>=◌
  seguir P Q (listo a, w) f h k = k a h w
  seguir P Q (fallo e, w) f h k = tt

  Cumple-bind :
      {A B : Type 0} (P : A → Type 0) (Q : B → Type 0) (m : M W A) (f : A → M W B)
      → Cumple P m
      → ((a : A) → P a → Cumple Q (f a))
      → Cumple Q (m >>= f)
  unfolding ◌>>=◌
  Cumple-bind P Q m f h k w = seguir P Q (m w) f (h w) k

  -- A call of which nothing is needed.
  Cumple-seguido :
      {A B : Type 0} (Q : B → Type 0) (m : M W A) (f : A → M W B)
      → ((a : A) → Cumple Q (f a))
      → Cumple Q (m >>= f)
  Cumple-seguido Q m f k = Cumple-bind (λ _. Unit {0}) Q m f (λ w. algo (m w).0) (λ a _. k a)

module _ {W : Type 0} (u : Usb W) (lectura : ℕ) (disco : Particion)
    (cabe : disco.sectores < 2 ^ 64) where
  gpt_entradas-IsTabla :
      (tabla entrada primero ultimo f i : ℕ) (out : Particiones)
      → IsTabla disco.sectores out
      → Cumple
          (IsTabla disco.sectores)
          (gpt_entradas u lectura disco tabla entrada primero ultimo f i out)
  unfolding gpt_entradas
  gpt_entradas-IsTabla t n a b zero i out h = λ w. h
  gpt_entradas-IsTabla t n a b (suc f) i out h =
      let Q = IsTabla disco.sectores in
      Cumple-seguido Q (leer u lectura disco ((t + i * n / 512) % 2 ^ 64))
        (λ s.
          de_res u lectura (gpt_entrada disco a b i (drop (i * n % 512) s) out)
          >>= gpt_entradas u lectura disco t n a b f (i + 1))
        (λ s.
          Cumple-bind Q Q (de_res u lectura (gpt_entrada disco a b i (drop (i * n % 512) s) out))
            (gpt_entradas u lectura disco t n a b f (i + 1))
            (λ w. gpt_entrada-IsTabla disco a b i (drop (i * n % 512) s) out cabe h)
            (λ otra k. gpt_entradas-IsTabla t n a b f (i + 1) otra k))

  pub gpt-IsTabla :
      (out : Particiones) (donde : ℕ)
      → IsTabla disco.sectores out
      → Cumple (IsTabla disco.sectores) (gpt u lectura out disco donde)
  unfolding gpt
  gpt-IsTabla out donde h =
      let Q = IsTabla disco.sectores in
      Cumple-seguido Q (leer u lectura disco donde) _ (λ s.
        Cumple-seguido Q (rechazar (cabecera_mala disco donde s) corrupto) _ (λ _.
          Cumple-seguido Q (rechazar (rango_malo disco donde s) corrupto) _ (λ _.
            Cumple-seguido Q (rechazar (crc_malo s) corrupto) _ (λ _.
              Cumple-seguido Q (rechazar (entradas_malas s) no_soportado) _ (λ _.
                Cumple-seguido Q (rechazar (tabla_mala disco donde s) corrupto) _ (λ _.
                  Cumple-seguido Q
                    (crc_tabla u lectura disco (sectores_tabla s) (u64 s 72) (u32 s 80 * u32 s 84)
                      0xffffffff)
                    _
                    (λ c.
                      Cumple-seguido Q (rechazar (not (bit_xor c 0xffffffff == u32 s 88)) corrupto)
                        _
                        (λ _.
                          gpt_entradas-IsTabla (u64 s 72) (u32 s 84) (u64 s 40) (u64 s 48)
                            (u32 s 80) 0 out h))))))))

mbr_sigue-IsTabla :
    (disco : Particion) (sigue : Particiones → VolumenResultado × Particiones) (out : Particiones)
    (r : Res Particiones)
    → ((otra : Particiones) → IsTabla disco.sectores otra → IsTabla disco.sectores (sigue otra).1)
    → CumpleRes (IsTabla disco.sectores) r
    → IsTabla disco.sectores (mbr_sigue sigue out r).1
mbr_sigue-IsTabla disco sigue out (fallo c) h k = (tt, omega arith)
mbr_sigue-IsTabla disco sigue out (listo otra) h k = h otra k

pub mbr-IsTabla :
    (disco : Particion) (f i : ℕ) (s : List ℕ) (out : Particiones)
    → disco.sectores < 2 ^ 64
    → IsTabla disco.sectores out
    → IsTabla disco.sectores (mbr f i disco s out).1
unfolding mbr
mbr-IsTabla disco zero i s out t h = h
mbr-IsTabla disco (suc f) i s out t h =
    let P = λ (r : VolumenResultado × Particiones). IsTabla disco.sectores r.1 in
    let e = drop (446 + i * 16) s in
    let tipo = get_or e 4 0 in
    let r = if tipo == 0 then listo out else agregar out disco (u32 e 8) (u32 e 12) (i + 1) 1 in
    let mala = not (tipo == 0) && not (get_or e 0 0 == 0) && not (get_or e 0 0 == 0x80) in
    let extendida = tipo == 5 || tipo == 15 || tipo == 0x85 in
    let sigue = mbr_sigue (mbr f (i + 1) disco s) out r in
    si P mala (corrupto, out) (if extendida then (no_soportado, out) else sigue) (λ _. h)
      (λ _.
        si P extendida (no_soportado, out) sigue (λ _. h)
          (λ _.
            mbr_sigue-IsTabla disco (mbr f (i + 1) disco s) out r
              (λ otra k. mbr-IsTabla disco f (i + 1) s otra t k)
              (si (CumpleRes (IsTabla disco.sectores)) (tipo == 0) (listo out)
                (agregar out disco (u32 e 8) (u32 e 12) (i + 1) 1) (λ _. h)
                (λ _. agregar-IsTabla out disco (u32 e 8) (u32 e 12) (i + 1) 1 t h))))

-- Recognising a volume does not move it.
module _ {W : Type 0} (u : Usb W) (lectura : ℕ) where
  ver_ext4-rango :
      (p : Particion) (r : Res (List ℕ) × W) → rango (ver_ext4 u lectura p r).0 ≡ rango p
  ver_ext4-rango p (fallo e, w) = refl
  ver_ext4-rango p (listo s, w) =
      si (λ (q : Particion). rango q ≡ rango p) (u16 s 56 == 0xef53) (marcar p ext4 volumen_ok)
        (marcar p desconocido desconocido_error) (λ _. refl) (λ _. refl)

  probar_ext4-rango : (p : Particion) (w : W) → rango (probar_ext4 u lectura p w).0 ≡ rango p
  probar_ext4-rango p w =
      si (λ (q : Particion × W). rango q.0 ≡ rango p) (ltb 2 p.sectores)
        (ver_ext4 u lectura p (leer u lectura p 2 w)) (marcar p desconocido desconocido_error, w)
        (λ _. ver_ext4-rango p (leer u lectura p 2 w)) (λ _. refl)

  ver_exfat-rango :
      (p : Particion) (r : Res (List ℕ) × W) → rango (ver_exfat u lectura p r).0 ≡ rango p
  ver_exfat-rango p (fallo e, w) = refl
  ver_exfat-rango p (listo s, w) =
      si (λ (q : Particion × W). rango q.0 ≡ rango p) (empieza (drop 3 s) nombre_exfat)
        (record p { formato = exfat; resultado = volumen_ok; recuperado = true }, w)
        (probar_ext4 u lectura p w) (λ _. refl) (λ _. probar_ext4-rango p w)

  segun-rango : (p : Particion) (c : Clase) (w : W) → rango (segun u lectura p c w).0 ≡ rango p
  segun-rango p (es f) w = refl
  segun-rango p otra_fat w = refl
  segun-rango p rota w = refl
  segun-rango p nada w =
      si (λ (q : Particion × W). rango q.0 ≡ rango p) (ltb 12 p.sectores)
        (ver_exfat u lectura p (leer u lectura p 12 w)) (probar_ext4 u lectura p w)
        (λ _. ver_exfat-rango p (leer u lectura p 12 w)) (λ _. probar_ext4-rango p w)

  ver_primero-rango :
      (p : Particion) (r : Res (List ℕ) × W) → rango (ver_primero u lectura p r).0 ≡ rango p
  ver_primero-rango p (fallo e, w) = refl
  ver_primero-rango p (listo s, w) = segun-rango p (clasificar s) w

  pub identificar-rango :
      (p : Particion) (w : W) → rango (particion_identificar u lectura p w).0 ≡ rango p
  unfolding particion_identificar
  identificar-rango p w = ver_primero-rango p (leer u lectura p 0 w)

  pub identificar_todas-rango :
      (ps : List Particion) (w : W)
      → map rango (identificar_todas u lectura ps w).0.1 ≡ map rango ps
  unfolding identificar_todas
  identificar_todas-rango [] w = refl
  identificar_todas-rango (p ∷ ps) w =
      let q = particion_identificar u lectura p w in
      let resto = identificar_todas u lectura ps q.1 in
      si (λ (r : (VolumenResultado × List Particion) × W). map rango r.0.1 ≡ map rango (p ∷ ps))
        (de_lectura q.0.resultado) ((q.0.resultado, q.0 ∷ ps), q.1)
        ((resto.0.0, q.0 ∷ resto.0.1), resto.1)
        (λ _. ap (λ x. x ∷ map rango ps) (identificar-rango p w))
        (λ _. ap₂ (λ x l. x ∷ l) (identificar-rango p w) (identificar_todas-rango ps q.1))
