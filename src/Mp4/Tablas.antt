-- ===== src/Mp4/Tablas.antt =====
-- The tables that mp4.c keeps of a track lie in the file, with all of their entries.
use taek_os.Prelude.{
  ℕ, ◌+◌, ◌*◌, ◌≤◌, ◌<◌, Bool, true, false, not, ◌||◌, ◌≡◌, List, ◌==◌, ltb, si, arith,
  if◌then◌else◌, get_or,
}
use taek_os.Mp4.Vista.{Vista, be32, tipo_de, tabla, Hallado, ninguna, mala, hallada, buscar}
use taek_os.Mp4.Cajas.{fin, Halla, buscar-Halla}
use taek_os.Mp4.Pista.{
  Mp4Resultado, mp4_ok, Pista, con_stsz, exigir, Cabeza, detenida, abierta, hijo, escala, mdhd_mala,
  ver_stbl, ver_mdhd, cabeza, ver_stts, con_stco, elegir_stco, ver_stsc, faltan_tamanos, tablas,
}

abbrev pub SiOk : Mp4Resultado → Type 0 → Type 0
SiOk mp4_ok A = A
SiOk r A = Unit {0}

-- The view of a table with entries of `paso` bytes: it lies in the first `m` bytes, and its entries in it.
abbrev pub TablaIsSana : List ℕ → ℕ → Vista → ℕ → Type 0
TablaIsSana s m v paso = (fin v ≤ m) × (0 < be32 s (v.p + 4)) × (8 + be32 s (v.p + 4) * paso ≤ v.n)

abbrev pub paso_stco : Bool → ℕ
paso_stco b = if b then 8 else 4

-- The sizes: one for all the samples, or one for each, in the view.
abbrev pub Tamanos : List ℕ → ℕ → Pista → Type 0
Tamanos s m p =
    (fin p.stsz ≤ m)
    × (12 ≤ p.stsz.n)
    × (0 < p.muestras)
    × (0 < p.escala_tiempo)
    × (be32 s (p.stsz.p + 4) ≡ 0 → 12 + p.muestras * 4 ≤ p.stsz.n)

abbrev pub TablasIsSana : List ℕ → ℕ → Pista → Type 0
TablasIsSana s m p =
    Tamanos s m p
    × TablaIsSana s m p.stsc 12
    × TablaIsSana s m p.stco (paso_stco p.offsets_64)
    × TablaIsSana s m p.stts 8

-- A step on a track leaves `tiene` at `b`, and what `Q` says when it succeeds.
abbrev pub Deja : Bool → (Pista → Type 0) → Mp4Resultado × Pista → Type 0
Deja b Q r = (r.1.tiene ≡ b) × SiOk r.0 (Q r.1)

tabla-4 :
    (s : List ℕ) (m : ℕ) (v : Vista) → fin v ≤ m → not (tabla s v 4) ≡ false → TablaIsSana s m v 4
unfolding tabla
tabla-4 s m v h k = (h, ground arith, ground arith)

tabla-8 :
    (s : List ℕ) (m : ℕ) (v : Vista) → fin v ≤ m → not (tabla s v 8) ≡ false → TablaIsSana s m v 8
unfolding tabla
tabla-8 s m v h k = (h, ground arith, ground arith)

tabla-12 :
    (s : List ℕ) (m : ℕ) (v : Vista) → fin v ≤ m → not (tabla s v 12) ≡ false → TablaIsSana s m v 12
unfolding tabla
tabla-12 s m v h k = (h, ground arith, ground arith)

tabla-stco :
    (s : List ℕ) (m : ℕ) (v : Vista) (b : Bool)
    → fin v ≤ m
    → not (tabla s v (paso_stco b)) ≡ false
    → TablaIsSana s m v (paso_stco b)
tabla-stco s m v true h k = tabla-8 s m v h k
tabla-stco s m v false h k = tabla-4 s m v h k

exigir-Deja :
    (m : ℕ) (b : Bool) (Q : Pista → Type 0) (h : Hallado) (p : Pista)
    (k : Vista → Mp4Resultado × Pista)
    → Halla m h
    → p.tiene ≡ b
    → ((v : Vista) → fin v ≤ m → Deja b Q (k v))
    → Deja b Q (exigir h p k)
exigir-Deja m b Q ninguna p k h t q = (t, tt)
exigir-Deja m b Q mala p k h t q = (t, tt)
exigir-Deja m b Q (hallada v) p k h t q = q v h

module _ (s : List ℕ) (m : ℕ) (stbl : Vista) (dentro : fin stbl ≤ m) (b : Bool) where
  ver_stts-Deja :
      (p : Pista)
      → p.tiene ≡ b
      → Tamanos s m p
      → TablaIsSana s m p.stsc 12
      → TablaIsSana s m p.stco (paso_stco p.offsets_64)
      → Deja b (TablasIsSana s m) (ver_stts s stbl p)
  unfolding ver_stts
  ver_stts-Deja p t z c o =
      exigir-Deja m b (TablasIsSana s m) (buscar s stbl (tipo_de 115 116 116 115)) p _
        (buscar-Halla s m stbl _ dentro) t
        (λ v d.
          si (Deja b (TablasIsSana s m)) (not (tabla s v 8)) _ _ (λ e. (t, tt))
            (λ e. (t, (z, c, o, tabla-8 s m v d e))))

  con_stco-Deja :
      (ancho : Bool) (p : Pista)
      → p.tiene ≡ b
      → Tamanos s m p
      → TablaIsSana s m p.stsc 12
      → (v : Vista) → fin v ≤ m
      → Deja b (TablasIsSana s m) (con_stco s stbl ancho (paso_stco ancho) p v)
  con_stco-Deja ancho p t z c v d =
      si (Deja b (TablasIsSana s m)) (not (tabla s v (paso_stco ancho))) _ _ (λ e. (t, tt))
        (λ e.
          ver_stts-Deja (record p { offsets_64 = ancho; stco = v }) t z c
            (tabla-stco s m v ancho d e))

  elegir_stco-Deja :
      (p : Pista) (h : Hallado)
      → Halla m h
      → p.tiene ≡ b
      → Tamanos s m p
      → TablaIsSana s m p.stsc 12
      → Deja b (TablasIsSana s m) (elegir_stco s stbl p h)
  elegir_stco-Deja p (hallada v) h t z c = con_stco-Deja false p t z c v h
  elegir_stco-Deja p mala h t z c = (t, tt)
  elegir_stco-Deja p ninguna h t z c =
      exigir-Deja m b (TablasIsSana s m) (buscar s stbl (tipo_de 99 111 54 52))
        (record p { offsets_64 = true }) _ (buscar-Halla s m stbl _ dentro) t
        (con_stco-Deja true p t z c)

  ver_stsc-Deja :
      (p : Pista) → p.tiene ≡ b → Tamanos s m p → Deja b (TablasIsSana s m) (ver_stsc s stbl p)
  unfolding ver_stsc
  ver_stsc-Deja p t z =
      exigir-Deja m b (TablasIsSana s m) (buscar s stbl (tipo_de 115 116 115 99)) p _
        (buscar-Halla s m stbl _ dentro) t
        (λ v d.
          si (Deja b (TablasIsSana s m)) (not (tabla s v 12)) _ _ (λ e. (t, tt))
            (λ e.
              elegir_stco-Deja (record p { stsc = v }) (buscar s stbl (tipo_de 115 116 99 111))
                (buscar-Halla s m stbl _ dentro) t z (tabla-12 s m v d e)))

  tamanos_lem :
      (p : Pista) (v : Vista)
      → fin v ≤ m
      → (ltb v.n 12 || not (get_or s v.p 0 == 0)) ≡ false
      → faltan_tamanos s v ≡ false
      → 0 < p.escala_tiempo
      → Tamanos s m (con_stsz p v (be32 s (v.p + 8)))
  tamanos_lem p v d h k l = (d, ground arith, ground arith, l, λ e. ground arith)

  pub tablas-Deja :
      (p : Pista) → p.tiene ≡ b → 0 < p.escala_tiempo → Deja b (TablasIsSana s m) (tablas s stbl p)
  unfolding tablas
  tablas-Deja p t l =
      exigir-Deja m b (TablasIsSana s m) (buscar s stbl (tipo_de 115 116 115 122)) p _
        (buscar-Halla s m stbl _ dentro) t
        (λ v d.
          si (Deja b (TablasIsSana s m)) (ltb v.n 12 || not (get_or s v.p 0 == 0)) _ _
            (λ e. (t, tt))
            (λ e.
              si (Deja b (TablasIsSana s m)) (faltan_tamanos s v) _ _ (λ f. (t, tt))
                (λ f. ver_stsc-Deja (con_stsz p v (be32 s (v.p + 8))) t (tamanos_lem p v d e f l))))

-- What `cabeza` gives: the views lie in the first `m` bytes.
abbrev pub Abre : ℕ → Bool → Cabeza → Type 0
Abre m b (detenida r p) = (p.tiene ≡ b) × SiOk r (true ≡ false)
Abre m b (abierta p stbl stsd) =
    (p.tiene ≡ b) × (0 < p.escala_tiempo) × (fin stbl ≤ m) × (fin stsd ≤ m) × (8 ≤ stsd.n)

hijo-Abre :
    (m : ℕ) (b : Bool) (h : Hallado) (p : Pista) (k : Vista → Cabeza)
    → Halla m h
    → p.tiene ≡ b
    → ((v : Vista) → fin v ≤ m → Abre m b (k v))
    → Abre m b (hijo h p k)
hijo-Abre m b ninguna p k h t q = (t, tt)
hijo-Abre m b mala p k h t q = (t, tt)
hijo-Abre m b (hallada v) p k h t q = q v h

module _ (s : List ℕ) (m : ℕ) (b : Bool) where
  ver_stbl-Abre :
      (mdia : Vista) (p : Pista)
      → fin mdia ≤ m
      → p.tiene ≡ b
      → 0 < p.escala_tiempo
      → Abre m b (ver_stbl s mdia p)
  unfolding ver_stbl
  ver_stbl-Abre mdia p d t e =
      hijo-Abre m b (buscar s mdia (tipo_de 109 105 110 102)) p _ (buscar-Halla s m mdia _ d) t
        (λ minf f.
          hijo-Abre m b (buscar s minf (tipo_de 115 116 98 108)) p _ (buscar-Halla s m minf _ f) t
            (λ stbl g.
              hijo-Abre m b (buscar s stbl (tipo_de 115 116 115 100)) p _
                (buscar-Halla s m stbl _ g) t
                (λ stsd h.
                  si (Abre m b) (ltb stsd.n 8) _ _ (λ i. (t, tt))
                    (λ i. (t, e, g, h, ground (arith, i))))))

  ver_mdhd-Abre :
      (mdia : Vista) (p : Pista) → fin mdia ≤ m → p.tiene ≡ b → Abre m b (ver_mdhd s mdia p)
  unfolding ver_mdhd
  ver_mdhd-Abre mdia p d t =
      hijo-Abre m b (buscar s mdia (tipo_de 109 100 104 100)) p _ (buscar-Halla s m mdia _ d) t
        (λ mdhd f.
          si (Abre m b) (mdhd_mala s mdhd) _ _ (λ i. (t, tt))
            (λ i.
              si (Abre m b) (escala s mdhd == 0) _ _ (λ j. (t, tt))
                (λ j.
                  ver_stbl-Abre mdia (record p { escala_tiempo = escala s mdhd }) d t
                    (ground (arith, j)))))

  pub cabeza-Abre :
      (manejador : ℕ) (trak : Vista) (p : Pista)
      → fin trak ≤ m
      → p.tiene ≡ b
      → Abre m b (cabeza s manejador trak p)
  unfolding cabeza
  cabeza-Abre manejador trak p d t =
      hijo-Abre m b (buscar s trak (tipo_de 109 100 105 97)) p _ (buscar-Halla s m trak _ d) t
        (λ mdia f.
          hijo-Abre m b (buscar s mdia (tipo_de 104 100 108 114)) p _ (buscar-Halla s m mdia _ f) t
            (λ hdlr g.
              si (Abre m b) (ltb hdlr.n 12) _ _ (λ i. (t, tt))
                (λ i.
                  si (Abre m b) (not (be32 s (hdlr.p + 8) == manejador)) _ _ (λ j. (t, tt))
                    (λ j. ver_mdhd-Abre mdia p f t))))
