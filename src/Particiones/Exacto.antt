-- ===== src/Particiones/Exacto.antt =====
-- A read of a partition in nucleo/controladores/particiones.c, cut into transfers, is one read of the disk.
use taek_os.Prelude.{
  ℕ, zero, suc, ◌+◌, ◌-◌, ◌%◌, ◌^◌, ◌≤◌, ◌<◌, ◌≡◌, refl, sym, ap, ap₂, subst, ◌∙◌, Bool, not, ◌||◌,
  Option, none, some, List, [], ◌∷◌, ◌++◌, ◌==◌, ltb, if◌then◌else◌, arith, si,
}
use taek_os.Particiones.Usb.{
  UsbMscDispositivo, Usb, corrupto, cancelado, sector_no_soportado, Res, listo, fallo, M, error,
}
use taek_os.Particiones.Leer.{
  presente, juntar, transferido, con_vigente, no_alcanza, Particion, vigente, leer_trozos,
  comprobar, particion_leer,
}

-- The bytes of `n` sectors of a disk.
unfoldable pub tramo : (ℕ → List ℕ) → ℕ → ℕ → List ℕ
tramo disco lba zero = []
tramo disco lba (suc n) = disco lba ++ tramo disco (lba + 1) n

append_assoc : (a b c : List ℕ) → (a ++ b) ++ c ≡ a ++ (b ++ c)
append_assoc [] b c = refl
append_assoc (x ∷ a) b c = ap (λ l. x ∷ l) (append_assoc a b c)

tramo-append :
    (disco : ℕ → List ℕ) (lba a b : ℕ)
    → tramo disco lba (a + b) ≡ tramo disco lba a ++ tramo disco (lba + a) b
unfolding tramo
tramo-append disco lba zero b = ap₂ (λ (x y : ℕ). tramo disco x y) (omega arith) (omega arith)
tramo-append disco lba (suc a) b =
    let e : suc a + b ≡ suc (a + b) = omega arith in
    let f : lba + 1 + a ≡ lba + suc a = omega arith in
    ap (tramo disco lba) e
    ∙ ap (λ l. disco lba ++ l)
        (tramo-append disco (lba + 1) a b
          ∙ ap (λ (x : ℕ). tramo disco (lba + 1) a ++ tramo disco x b) f)
    ∙ sym (append_assoc (disco lba) (tramo disco (lba + 1) a) (tramo disco (lba + suc a) b))

-- A transfer that succeeds returns what the disk of the unit it is asked of holds: `disco` has one for each unit.
abbrev pub IsFiel : {W : Type 0} → Usb W → (ℕ → ℕ → List ℕ) → Type 0
IsFiel {W} u disco =
    (w w' : W) (unidad lba k : ℕ) (d : List ℕ)
    → u.leer_sectores w unidad lba k ≡ (some d, w')
    → d ≡ tramo (disco unidad) lba k

-- A result, if it is one, is `l`.
abbrev Da : List ℕ → Res (List ℕ) → Type 0
Da l (listo d) = d ≡ l
Da l (fallo e) = Unit {0}

juntar-Da :
    {W : Type 0} (a b d : List ℕ) (r : Res (List ℕ) × W)
    → d ≡ a
    → Da b r.0
    → Da (a ++ b) (juntar d r).0
juntar-Da a b d (listo m, w) e h = ap₂ (λ x y. x ++ y) e h
juntar-Da a b d (fallo c, w) e h = tt

transferido-Da :
    {W : Type 0} (a b : List ℕ) (t : Option (List ℕ)) (v : Option UsbMscDispositivo)
    (r : Res (List ℕ) × W) (w : W)
    → ((d : List ℕ) → t ≡ some d → d ≡ a)
    → Da b r.0
    → Da (a ++ b) (transferido t v r w).0
transferido-Da a b none v r w e h = tt
transferido-Da a b (some d) none r w e h = tt
transferido-Da a b (some d) (some x) r w e h = juntar-Da a b d r (e d refl) h

con_vigente-Da :
    {W : Type 0} (l : List ℕ) (lba k : ℕ) (v : Option UsbMscDispositivo) (r : Res (List ℕ) × W)
    (w : W)
    → Da l r.0
    → Da l (con_vigente lba k v r w).0
con_vigente-Da l lba k none r w h = tt
con_vigente-Da {W} l lba k (some d) r w h =
    let P : Res (List ℕ) × W → Type 0 = λ x. Da l x.0 in
    si P (not (d.tamano_sector == 512)) (fallo sector_no_soportado, w)
      (if no_alcanza lba k d then (fallo corrupto, w) else r) (λ _. tt)
      (λ _. si P (no_alcanza lba k d) (fallo corrupto, w) r (λ _. tt) (λ _. h))

module _ {W : Type 0} (u : Usb W) (lectura : ℕ) (cancel : W → Bool) (p : Particion)
    (disco : ℕ → ℕ → List ℕ) (fiel : IsFiel u disco) where
  trozos-Da :
      (f sector n : ℕ) (w : W)
      → 0 < lectura
      → lectura ≤ 512
      → n ≤ f
      → p.inicio + sector + n ≤ 2 ^ 64
      → Da
          (tramo (disco p.unidad) (p.inicio + sector) n)
          (leer_trozos u lectura cancel p f sector n w).0
  unfolding leer_trozos tramo
  trozos-Da zero sector n w a b h m =
      let e : 0 ≡ n = omega (arith, h) in ap (tramo (disco p.unidad) (p.inicio + sector)) e
  trozos-Da (suc f) sector n w a b h m =
      let P : Res (List ℕ) × W → Type 0 =
        λ x. Da (tramo (disco p.unidad) (p.inicio + sector) n) x.0 in
      let s = u.servicio w in
      let k = if ltb lectura n then lectura else n in
      let lba = (p.inicio + sector) % 2 ^ 64 in
      let t = u.leer_sectores s.1 p.unidad lba (k % 2 ^ 16) in
      let resto = leer_trozos u lectura cancel p f (sector + k) (n - k) t.1 in
      let hecho = transferido t.0 (vigente p (u.obtener t.1 p.unidad)) resto t.1 in
      let sigue = con_vigente lba k (vigente p (u.obtener s.1 p.unidad)) hecho s.1 in
      si P (n == 0) (listo [], w) (if s.0 || cancel s.1 then (fallo cancelado, s.1) else sigue)
        (λ z.
          let e : 0 ≡ n = ground (arith, z) in ap (tramo (disco p.unidad) (p.inicio + sector)) e)
        (λ z.
          si P (s.0 || cancel s.1) (fallo cancelado, s.1) sigue (λ _. tt)
            (λ _.
              let sector_bien : p.inicio + (sector + k) + (n - k) ≤ 2 ^ 64 = ground (arith, m) in
              let k_bien : (0 < k) × (k ≤ n) × (k ≤ 512) = ground (arith, z, a, b) in
              let lba_bien : lba ≡ p.inicio + sector = omega (arith, m, k_bien.0, k_bien.1) in
              let corto : k % 2 ^ 16 ≡ k = omega (arith, k_bien.2) in
              let tras : p.inicio + sector + k ≡ p.inicio + (sector + k) = omega arith in
              let todo : k + (n - k) ≡ n = omega (arith, k_bien.1) in
              let partes : tramo (disco p.unidad) lba (k % 2 ^ 16)
                    ++ tramo (disco p.unidad) (p.inicio + (sector + k)) (n - k)
                  ≡ tramo (disco p.unidad) (p.inicio + sector) n =
                ap₂
                  (λ x y.
                    tramo (disco p.unidad) x y
                    ++ tramo (disco p.unidad) (p.inicio + (sector + k)) (n - k))
                  lba_bien corto
                ∙ ap
                    (λ x.
                      tramo (disco p.unidad) (p.inicio + sector) k
                      ++ tramo (disco p.unidad) x (n - k))
                    (sym tras)
                ∙ sym (tramo-append (disco p.unidad) (p.inicio + sector) k (n - k))
                ∙ ap (tramo (disco p.unidad) (p.inicio + sector)) todo in
              subst (λ l. Da l sigue.0) partes
                (con_vigente-Da _ lba k (vigente p (u.obtener s.1 p.unidad)) hecho s.1 (
                  transferido-Da (tramo (disco p.unidad) lba (k % 2 ^ 16))
                    (tramo (disco p.unidad) (p.inicio + (sector + k)) (n - k)) t.0
                    (vigente p (u.obtener t.1 p.unidad)) resto t.1
                    (λ d q. fiel s.1 t.1 p.unidad lba (k % 2 ^ 16) d (ap (λ o. (o, t.1)) q))
                    (trozos-Da f (sector + k) (n - k) t.1 a b (omega (arith, h, k_bien.0))
                      sector_bien)))))

  presente-Da : (v : Option UsbMscDispositivo) (w : W) → Da [] (presente v w).0
  presente-Da none w = tt
  presente-Da (some d) w = refl

  comprobar-Da : (l : List ℕ) (w : W) → [] ≡ l → Da l (comprobar u lectura cancel p w).0
  unfolding comprobar
  comprobar-Da l w e =
      let s = u.servicio w in
      si (λ (x : Res (List ℕ) × W). Da l x.0) (s.0 || cancel s.1) (fallo cancelado, s.1)
        (presente (vigente p (u.obtener s.1 p.unidad)) s.1) (λ _. tt)
        (λ _.
          subst (λ m. Da m (presente (vigente p (u.obtener s.1 p.unidad)) s.1).0) e
            (presente-Da (vigente p (u.obtener s.1 p.unidad)) s.1))

  -- What a result shows, of the bytes and of the range asked for.
  abbrev Exacta : ℕ → ℕ → Res (List ℕ) → Type 0
  Exacta sector n (listo d) =
      (d ≡ tramo (disco p.unidad) (p.inicio + sector) n) × (sector + n ≤ p.sectores)
  Exacta sector n (fallo e) = Unit {0}

  Da-Exacta :
      (sector n : ℕ) (r : Res (List ℕ))
      → sector + n ≤ p.sectores
      → Da (tramo (disco p.unidad) (p.inicio + sector) n) r
      → Exacta sector n r
  Da-Exacta sector n (listo d) h e = (e, h)
  Da-Exacta sector n (fallo c) h e = tt

  leer-Exacta :
      (sector n : ℕ) (w : W)
      → 0 < lectura
      → lectura ≤ 512
      → p.inicio + p.sectores ≤ 2 ^ 64
      → Exacta sector n (particion_leer u lectura cancel p sector n w).0
  unfolding particion_leer tramo
  leer-Exacta sector n w a b h =
      let P : M W (List ℕ) → Type 0 = λ m. Exacta sector n (m w).0 in
      let lee =
        if n == 0
        then comprobar u lectura cancel p
        else leer_trozos u lectura cancel p n sector n in
      let fuera = ltb p.sectores sector || ltb (p.sectores - sector) n in
      let lejos = ltb (2 ^ 64 - 1 - sector) p.inicio in
      si P fuera (error corrupto) (if lejos then error corrupto else lee) (λ _. tt)
        (λ f.
          let cabe : sector + n ≤ p.sectores = ground (arith, f) in
          si P lejos (error corrupto) lee (λ _. tt)
            (λ _.
              si P (n == 0) (comprobar u lectura cancel p)
                (leer_trozos u lectura cancel p n sector n)
                (λ z.
                  let e : 0 ≡ n = ground (arith, z) in
                  Da-Exacta sector n (comprobar u lectura cancel p w).0 cabe
                    (comprobar-Da _ w (ap (tramo (disco p.unidad) (p.inicio + sector)) e)))
                (λ _.
                  Da-Exacta sector n (leer_trozos u lectura cancel p n sector n w).0 cabe
                    (trozos-Da n sector n w a b (omega arith) (omega (arith, h, cabe))))))

  -- The bytes of a read that succeeds are those that the disk of the partition's unit holds at its sectors, whatever
  -- the size of the transfers, and the sectors are the partition's, if transfers that succeed return what the disk
  -- holds.
  pub leer-exacto :
      (sector n : ℕ) (w : W) (d : List ℕ)
      → 0 < lectura
      → lectura ≤ 512
      → p.inicio + p.sectores ≤ 2 ^ 64
      → (particion_leer u lectura cancel p sector n w).0 ≡ listo d
      → (d ≡ tramo (disco p.unidad) (p.inicio + sector) n) × (sector + n ≤ p.sectores)
  leer-exacto sector n w d a b h e = subst (Exacta sector n) e (leer-Exacta sector n w a b h)
