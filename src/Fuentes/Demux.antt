-- ===== src/Fuentes/Demux.antt =====
-- mp4_abrir_fuente of mp4.c cannot tell the sources of a file apart.
use taek_os.Prelude.{
  ℕ, zero, suc, ◌+◌, ◌-◌, ◌^◌, ◌≤◌, Bool, not, ◌||◌, List, ◌≡◌, refl, sym, ◌∙◌, subst, ◌==◌, ltb,
  si_dos, arith,
}
use taek_os.Mp4.Vista.{tipo_de, be32, be64, Caja, acabada, rota, una, caja}
use taek_os.Mp4.Abrir.{Contenedor, todo}
use taek_os.Mp4.Fuente.{
  Destino, en_h, en_metadatos, Leido, leidos, corta, negativa, Lectura, Lector, Abierta, con_leido,
  pedida, mp4_leer_exacto, leida, con_caja, leer_moov, con_tamano, con_cabecera, abrir_desde,
  mp4_abrir_fuente,
}
use taek_os.Fuentes.Fiel.{Trae, IsFiel}

module _ {W V : Type 0} (archivo : ℕ → ℕ) (bytes capacidad : ℕ) (Vale : W → Type 0)
    (leer : Lectura W) (fiel : IsFiel ⊥ archivo bytes Vale leer) (Valen : V → Type 0)
    (otro : Lectura V) (fieles : IsFiel ⊥ archivo bytes Valen otro) where
  -- Both end in the same way, with the same container.
  abbrev Par : Abierta W → Abierta V → Type 0
  Par x y = x.0 ≡ y.0

  abbrev Continua : (List ℕ → Lector W → Abierta W) → (List ℕ → Lector V → Abierta V) → Type 0
  Continua j k =
      (h : List ℕ) (l : Lector W) (m : Lector V)
      → Vale l.mundo
      → Valen m.mundo
      → Par (j h l) (k h m)

  leida-Par :
      (o n : ℕ) (l : Lector W) (m : Lector V) (j : List ℕ → Lector W → Abierta W)
      (k : List ℕ → Lector V → Abierta V) (x y : Leido)
      → Vale l.mundo
      → Valen m.mundo
      → Trae ⊥ archivo o n x
      → Trae ⊥ archivo o n y
      → Continua j k
      → Par (leida j (con_leido l x)) (leida k (con_leido m y))
  leida-Par o n l m j k (leidos h) (leidos g) v w e f q =
      subst (λ s. Par (j h l) (k s m)) (e ∙ sym f) (q h l m v w)
  leida-Par o n l m j k (leidos h) corta v w e f q = absurd f
  leida-Par o n l m j k (leidos h) (negativa r) v w e f q = absurd f
  leida-Par o n l m j k corta y v w e f q = absurd e
  leida-Par o n l m j k (negativa r) y v w e f q = absurd e

  exacta-Par :
      (o n : ℕ) (d : Destino) (l : Lector W) (m : Lector V) (j : List ℕ → Lector W → Abierta W)
      (k : List ℕ → Lector V → Abierta V)
      → o + n ≤ bytes
      → Vale l.mundo
      → Valen m.mundo
      → Continua j k
      → Par (leida j (mp4_leer_exacto leer 0 o d n l)) (leida k (mp4_leer_exacto otro 0 o d n m))
  unfolding mp4_leer_exacto
  exacta-Par o n d l m j k h v w q =
      let x = leer l.mundo 0 o n in
      let y = otro m.mundo 0 o n in
      leida-Par o n (pedida l o d n x.1) (pedida m o d n y.1) j k x.0 y.0
        (fiel.sigue l.mundo 0 o n h v) (fieles.sigue m.mundo 0 o n h w)
        (fiel.trae l.mundo 0 o n h v) (fieles.trae m.mundo 0 o n h w) q

  con_caja-Par :
      (s : List ℕ) (l : Lector W) (m : Lector V) (c : Caja) → Par (con_caja s l c) (con_caja s m c)
  con_caja-Par s l m acabada = refl
  con_caja-Par s l m rota = refl
  con_caja-Par s l m (una t moov resto) =
      si_dos Par (not (t == tipo_de 109 111 111 118)) _ _ _ _ (λ e. refl) (λ e. refl)

  leer_moov-Par :
      (offset tam : ℕ) (l : Lector W) (m : Lector V)
      → offset + tam ≤ bytes
      → Vale l.mundo
      → Valen m.mundo
      → Par
          (leer_moov leer bytes capacidad offset tam l)
          (leer_moov otro bytes capacidad offset tam m)
  unfolding leer_moov
  leer_moov-Par offset tam l m h v w =
      si_dos Par (ltb capacidad tam || ltb (2 ^ 64 - 1) tam) _ _ _ _ (λ e. refl)
        (λ e.
          exacta-Par offset tam en_metadatos l m _ _ h v w
            (λ s g r x y. con_caja-Par s g r (caja s (todo s))))

  abbrev Sigue : (ℕ → Lector W → Abierta W) → (ℕ → Lector V → Abierta V) → Type 0
  Sigue j k =
      (o : ℕ) (l : Lector W) (m : Lector V) → Vale l.mundo → Valen m.mundo → Par (j o l) (k o m)

  con_tamano-Par :
      (offset t tam c : ℕ) (j : ℕ → Lector W → Abierta W) (k : ℕ → Lector V → Abierta V)
      (l : Lector W) (m : Lector V)
      → offset ≤ bytes
      → Vale l.mundo
      → Valen m.mundo
      → Sigue j k
      → Par
          (con_tamano leer bytes capacidad offset t tam c j l)
          (con_tamano otro bytes capacidad offset t tam c k m)
  unfolding con_tamano
  con_tamano-Par offset t tam c j k l m h v w q =
      si_dos Par (ltb tam c || ltb (bytes - offset) tam) _ _ _ _ (λ e. refl)
        (λ e.
          si_dos Par (t == tipo_de 109 111 111 118) _ _ _ _
            (λ f. leer_moov-Par offset tam l m (ground (arith, e, h)) v w)
            (λ f. q (offset + tam) l m v w))

  con_cabecera-Par :
      (offset : ℕ) (j : ℕ → Lector W → Abierta W) (k : ℕ → Lector V → Abierta V) (h : List ℕ)
      (l : Lector W) (m : Lector V)
      → offset ≤ bytes
      → Vale l.mundo
      → Valen m.mundo
      → Sigue j k
      → Par
          (con_cabecera leer bytes capacidad offset j h l)
          (con_cabecera otro bytes capacidad offset k h m)
  unfolding con_cabecera
  con_cabecera-Par offset j k h l m b v w q =
      si_dos Par (not (be32 h 0 == 1)) _ _ _ _
        (λ e. con_tamano-Par offset (be32 h 4) _ 8 j k l m b v w q)
        (λ e.
          si_dos Par (ltb (bytes - offset) 16) _ _ _ _ (λ f. refl)
            (λ f.
              exacta-Par offset 16 en_h l m _ _ (ground (arith, f, b)) v w
                (λ g x y a c. con_tamano-Par offset (be32 h 4) (be64 g 8) 16 j k x y b a c q)))

  abrir_desde-Par :
      (f offset : ℕ) (l : Lector W) (m : Lector V)
      → 8 ≤ bytes
      → Vale l.mundo
      → Valen m.mundo
      → Par
          (abrir_desde leer bytes capacidad f offset l)
          (abrir_desde otro bytes capacidad f offset m)
  unfolding abrir_desde
  abrir_desde-Par zero offset l m b v w = refl
  abrir_desde-Par (suc f) offset l m b v w =
      si_dos Par (ltb (bytes - 8) offset) _ _ _ _ (λ e. refl)
        (λ e. exacta-Par offset 8 en_h l m _ _ (ground (arith, e, b)) v w (λ h x y a c.
          con_cabecera-Par offset _ _ h x y (ground (arith, e, b)) a c
            (λ o g r p z. abrir_desde-Par f o g r b p z)))

-- mp4_abrir_fuente ends in the same way and with the same container on any two sources that give the bytes of the same
-- file and never fail, the player's caches among them.
pub abrir_fuente-mismo :
    {W V : Type 0} (archivo : ℕ → ℕ) (bytes capacidad : ℕ) (Vale : W → Type 0) (leer : Lectura W)
    → IsFiel ⊥ archivo bytes Vale leer
    → (Valen : V → Type 0) (otro : Lectura V) → IsFiel ⊥ archivo bytes Valen otro
    → (hay : Bool) (m : Contenedor) (w : W) (v : V) → Vale w
    → Valen v
    → (mp4_abrir_fuente leer bytes capacidad hay m w).0
      ≡ (mp4_abrir_fuente otro bytes capacidad hay m v).0
unfolding mp4_abrir_fuente
abrir_fuente-mismo {W} {V} archivo bytes capacidad Vale leer fiel Valen otro fieles hay m w v vale
      valen =
    si_dos (λ (x : Abierta W) (y : Abierta V). x.0 ≡ y.0)
      (not hay || ltb capacidad 8 || ltb bytes 8) _ _ _ _ (λ e. refl)
      (λ e.
        abrir_desde-Par archivo bytes capacidad Vale leer fiel Valen otro fieles bytes 0 _ _
          (ground (arith, e)) vale valen)
