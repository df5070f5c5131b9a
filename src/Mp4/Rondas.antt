-- ===== src/Mp4/Rondas.antt =====
-- The loops of mp4.c over the tracks and over the boxes of a source have fuel for all of their rounds.
use taek_os.Prelude.{
  ℕ, zero, suc, ◌+◌, ◌-◌, ◌≤◌, ◌<◌, Bool, true, false, not, ◌||◌, ◌≡◌, refl, sym, Option, none,
  some, List, ◌==◌, ltb, if◌then◌else◌, arith,
}
use taek_os.Mp4.Vista.{Vista, tipo_de, be32, be64, Caja, acabada, rota, una, caja}
use taek_os.Mp4.Cajas.{Cabe, caja-Cabe}
use taek_os.Mp4.Abrir.{Contenedor, con_trak, sigue_trak, pistas}
use taek_os.Mp4.Fuente.{
  en_h, Lectura, Lector, mp4_leer_exacto, Abierta, leida, con_tamano, con_cabecera, abrir_desde,
}

sigue_trak_ext :
    (s : List ℕ) (c : Contenedor) (w : Vista) (x : Caja) (j k : Vista → Contenedor → Contenedor)
    → Cabe w x
    → ((r : Vista) (d : Contenedor) → r.n < w.n → j r d ≡ k r d)
    → sigue_trak s c x j ≡ sigue_trak s c x k
sigue_trak_ext s c w acabada j k h q = refl
sigue_trak_ext s c w rota j k h q = refl
sigue_trak_ext s c w (una t trak r) j k h q = q r (con_trak s t trak c) (omega (arith, h.2))

sigue_trak_vacia :
    (s : List ℕ) (c : Contenedor) (w : Vista) (x : Caja) (k : Vista → Contenedor → Contenedor)
    → Cabe w x
    → w.n ≡ 0
    → sigue_trak s c x k ≡ c
sigue_trak_vacia s c w acabada k h z = refl
sigue_trak_vacia s c w rota k h z = refl
sigue_trak_vacia s c w (una t trak r) k h z = absurd (omega (arith, h.2, z))

pistas_vacia : (s : List ℕ) (f : ℕ) (v : Vista) (c : Contenedor) → v.n ≡ 0 → pistas s f v c ≡ c
unfolding pistas
pistas_vacia s zero v c h = refl
pistas_vacia s (suc f) v c h =
    sigue_trak_vacia s c v (caja s v) (λ r d. pistas s f r d) (caja-Cabe s v) h

-- The loop of mp4_parsear_moov: any fuel from the size of `moov` on finds the same tracks.
pistas-combustible :
    (s : List ℕ) (f g : ℕ) (v : Vista) (c : Contenedor)
    → v.n ≤ f
    → v.n ≤ g
    → pistas s f v c ≡ pistas s g v c
unfolding pistas
pistas-combustible s zero g v c h k = sym (pistas_vacia s g v c (omega (arith, h)))
pistas-combustible s (suc f) zero v c h k = pistas_vacia s (suc f) v c (omega (arith, k))
pistas-combustible s (suc f) (suc g) v c h k =
    sigue_trak_ext s c v (caja s v) (λ r d. pistas s f r d) (λ r d. pistas s g r d) (caja-Cabe s v)
      (λ r d l. pistas-combustible s f g r d (omega (arith, h, l)) (omega (arith, k, l)))

-- Conditionals on one test that agree in each branch.
si_ext :
    {A : Type 0} (b : Bool) (x y u v : A)
    → (b ≡ true → x ≡ u)
    → (b ≡ false → y ≡ v)
    → (if b then x else y) ≡ (if b then u else v)
si_ext true x y u v h k = h refl
si_ext false x y u v h k = k refl

si_cierta : {A : Type 0} (b : Bool) (x y : A) → b ≡ true → (if b then x else y) ≡ x
si_cierta true x y h = refl
si_cierta false x y h = cc

module _ {W : Type 0} (leer : Lectura W) (bytes capacidad : ℕ) where
  leida_ext :
      (x : Option (List ℕ) × Lector W) (j k : List ℕ → Lector W → Abierta W)
      → ((h : List ℕ) (m : Lector W) → j h m ≡ k h m)
      → leida j x ≡ leida k x
  leida_ext (none, l) j k q = refl
  leida_ext (some h, l) j k q = q h l

  -- From eight bytes after `offset` on.
  abbrev Iguales : ℕ → (ℕ → Lector W → Abierta W) → (ℕ → Lector W → Abierta W) → Type 0
  Iguales offset j k = (o : ℕ) (m : Lector W) → offset + 8 ≤ o → j o m ≡ k o m

  con_tamano_ext :
      (offset t tam c : ℕ) (j k : ℕ → Lector W → Abierta W) (l : Lector W)
      → 8 ≤ c
      → Iguales offset j k
      → con_tamano leer bytes capacidad offset t tam c j l
        ≡ con_tamano leer bytes capacidad offset t tam c k l
  unfolding con_tamano
  con_tamano_ext offset t tam c j k l h q =
      si_ext (ltb tam c || ltb (bytes - offset) tam) _ _ _ _ (λ e. refl)
        (λ e.
          si_ext (t == tipo_de 109 111 111 118) _ _ _ _ (λ f. refl)
            (λ f. q (offset + tam) l (ground (arith, e, h))))

  con_cabecera_ext :
      (offset : ℕ) (j k : ℕ → Lector W → Abierta W) (h : List ℕ) (l : Lector W)
      → Iguales offset j k
      → con_cabecera leer bytes capacidad offset j h l
        ≡ con_cabecera leer bytes capacidad offset k h l
  unfolding con_cabecera
  con_cabecera_ext offset j k h l q =
      si_ext (not (be32 h 0 == 1)) _ _ _ _
        (λ e. con_tamano_ext offset (be32 h 4) _ 8 j k l (omega arith) q)
        (λ e.
          si_ext (ltb (bytes - offset) 16) _ _ _ _ (λ f. refl)
            (λ f.
              leida_ext (mp4_leer_exacto leer 0 offset en_h 16 l) _ _
                (λ g m. con_tamano_ext offset (be32 h 4) (be64 g 8) 16 j k m (omega arith) q)))

  -- The loop of mp4_abrir_fuente: any fuel from the bytes that are left on opens the same.
  pub abrir-combustible :
      (f g offset : ℕ) (l : Lector W)
      → 8 ≤ bytes
      → bytes ≤ offset + f
      → bytes ≤ offset + g
      → abrir_desde leer bytes capacidad f offset l ≡ abrir_desde leer bytes capacidad g offset l
  unfolding abrir_desde
  abrir-combustible zero zero offset l b h k = refl
  abrir-combustible zero (suc g) offset l b h k =
      sym (si_cierta (ltb (bytes - 8) offset) _ _ (ground (arith, h, b)))
  abrir-combustible (suc f) zero offset l b h k =
      si_cierta (ltb (bytes - 8) offset) _ _ (ground (arith, k, b))
  abrir-combustible (suc f) (suc g) offset l b h k =
      si_ext (ltb (bytes - 8) offset) _ _ _ _ (λ e. refl)
        (λ e. leida_ext (mp4_leer_exacto leer 0 offset en_h 8 l) _ _ (λ x m.
          con_cabecera_ext offset (λ o n. abrir_desde leer bytes capacidad f o n)
            (λ o n. abrir_desde leer bytes capacidad g o n) x m
            (λ o n a. abrir-combustible f g o n b (omega (arith, h, a)) (omega (arith, k, a)))))
