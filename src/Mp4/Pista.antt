-- ===== src/Mp4/Pista.antt =====
-- The tables of a track, in nucleo/controladores/multimedia/mp4/mp4.c.
use taek_os.Prelude.{
  ℕ, zero, suc, ◌+◌, ◌-◌, ◌*◌, ◌/◌, ◌%◌, ◌^◌, Bool, true, false, not, ◌&&◌, ◌||◌, Option, none,
  some, List, ◌==◌, ltb, if◌then◌else◌, get_or,
}
use taek_os.Mp4.Vista.{Vista, be32, tipo_de, Hallado, ninguna, mala, hallada, buscar, tabla}

pub data Mp4Resultado : Type 0 where
  mp4_ok datos_invalidos no_soportado sin_memoria limite_excedido error_lectura : Mp4Resultado

-- What the tracks share of `mp4_contenedor`: each field is there with a `v_` and with an `a_` (`tiene` is
-- `tiene_video` and `tiene_audio`), a table's view is its pointer with its `_bytes`, the view `nula` a null one.
pub record Pista : Type 0 where
  pub tiene : Bool
  pub stsz : Vista
  pub stsc : Vista
  pub stco : Vista
  pub stts : Vista
  pub muestras : ℕ
  pub escala_tiempo : ℕ
  pub offsets_64 : Bool

abbrev pub con_stsz : Pista → Vista → ℕ → Pista
con_stsz p v n = record p { stsz = v; muestras = n }

-- After a `buscar` that has to find the box.
abbrev pub exigir : Hallado → Pista → (Vista → Mp4Resultado × Pista) → Mp4Resultado × Pista
exigir (hallada v) p sigue = sigue v
exigir ninguna p sigue = (datos_invalidos, p)
exigir mala p sigue = (datos_invalidos, p)

-- The track up to its descriptions of samples: the reason to stop, or `stbl` and `stsd`.
pub data Cabeza : Type 0 where
  detenida : Mp4Resultado → Pista → Cabeza
  abierta : Pista → Vista → Vista → Cabeza

abbrev pub hijo : Hallado → Pista → (Vista → Cabeza) → Cabeza
hijo (hallada v) p sigue = sigue v
hijo ninguna p sigue = detenida datos_invalidos p
hijo mala p sigue = detenida datos_invalidos p

abbrev pub escala : List ℕ → Vista → ℕ
escala s mdhd = be32 s (mdhd.p + (if get_or s mdhd.p 0 == 0 then 12 else 20))

abbrev pub mdhd_mala : List ℕ → Vista → Bool
mdhd_mala s mdhd =
    ltb mdhd.n 20 || ltb 1 (get_or s mdhd.p 0) || get_or s mdhd.p 0 == 1 && ltb mdhd.n 32

unfoldable pub ver_stbl : List ℕ → Vista → Pista → Cabeza
ver_stbl s mdia p = hijo (buscar s mdia (tipo_de 109 105 110 102)) p (λ minf.
    hijo (buscar s minf (tipo_de 115 116 98 108)) p (λ stbl.
      hijo (buscar s stbl (tipo_de 115 116 115 100)) p
        (λ stsd. if ltb stsd.n 8 then detenida datos_invalidos p else abierta p stbl stsd)))

unfoldable pub ver_mdhd : List ℕ → Vista → Pista → Cabeza
ver_mdhd s mdia p = hijo (buscar s mdia (tipo_de 109 100 104 100)) p (λ mdhd.
    if mdhd_mala s mdhd
    then detenida datos_invalidos p
    else if escala s mdhd == 0
    then detenida datos_invalidos (record p { escala_tiempo = escala s mdhd })
    else ver_stbl s mdia (record p { escala_tiempo = escala s mdhd }))

unfoldable pub cabeza : List ℕ → ℕ → Vista → Pista → Cabeza
cabeza s manejador trak p = hijo (buscar s trak (tipo_de 109 100 105 97)) p (λ mdia.
    hijo (buscar s mdia (tipo_de 104 100 108 114)) p (λ hdlr.
      if ltb hdlr.n 12
      then detenida datos_invalidos p
      else if not (be32 s (hdlr.p + 8) == manejador)
      then detenida no_soportado p
      else ver_mdhd s mdia p))

unfoldable pub ver_stts : List ℕ → Vista → Pista → Mp4Resultado × Pista
ver_stts s stbl p =
    exigir (buscar s stbl (tipo_de 115 116 116 115)) p
      (λ v. if not (tabla s v 8) then (datos_invalidos, p) else (mp4_ok, record p { stts = v }))

abbrev pub con_stco : List ℕ → Vista → Bool → ℕ → Pista → Vista → Mp4Resultado × Pista
con_stco s stbl ancho paso p v =
    if not (tabla s v paso)
    then (datos_invalidos, record p { offsets_64 = ancho })
    else ver_stts s stbl (record p { offsets_64 = ancho; stco = v })

-- The positions of the chunks: `stco`, or `co64` where there is no `stco`.
abbrev pub elegir_stco : List ℕ → Vista → Pista → Hallado → Mp4Resultado × Pista
elegir_stco s stbl p (hallada v) = con_stco s stbl false 4 p v
elegir_stco s stbl p mala = (datos_invalidos, record p { offsets_64 = false })
elegir_stco s stbl p ninguna =
    exigir (buscar s stbl (tipo_de 99 111 54 52)) (record p { offsets_64 = true })
      (con_stco s stbl true 8 p)

unfoldable pub ver_stsc : List ℕ → Vista → Pista → Mp4Resultado × Pista
ver_stsc s stbl p = exigir (buscar s stbl (tipo_de 115 116 115 99)) p (λ v.
    if not (tabla s v 12)
    then (datos_invalidos, p)
    else elegir_stco s stbl (record p { stsc = v }) (buscar s stbl (tipo_de 115 116 99 111)))

abbrev pub faltan_tamanos : List ℕ → Vista → Bool
faltan_tamanos s v =
    let n = be32 s (v.p + 8) in n == 0 || be32 s (v.p + 4) == 0 && ltb ((v.n - 12) / 4) n

-- The tables from `stsz` to `stts`.
unfoldable pub tablas : List ℕ → Vista → Pista → Mp4Resultado × Pista
tablas s stbl p = exigir (buscar s stbl (tipo_de 115 116 115 122)) p (λ v.
    if ltb v.n 12 || not (get_or s v.p 0 == 0)
    then (datos_invalidos, p)
    else if faltan_tamanos s v
    then (datos_invalidos, con_stsz p v (be32 s (v.p + 8)))
    else ver_stsc s stbl (con_stsz p v (be32 s (v.p + 8))))

-- Of rule `i` of `reglas`: its first chunk, and the first of the next rule's or one after the last.
abbrev pub primero_de : List ℕ → Vista → ℕ → ℕ
primero_de s stsc i = be32 s (stsc.p + 8 + i * 12)

abbrev pub por_fragmento : List ℕ → Vista → ℕ → ℕ
por_fragmento s stsc i = be32 s (stsc.p + 8 + i * 12 + 4)

abbrev pub siguiente_de : List ℕ → Vista → ℕ → ℕ → ℕ → ℕ
siguiente_de s stsc chunks reglas i =
    if ltb (i + 1) reglas then primero_de s stsc (i + 1) else (chunks + 1) % 2 ^ 32

abbrev pub regla_mala : List ℕ → Vista → ℕ → ℕ → ℕ → Bool
regla_mala s stsc chunks reglas i =
    let primero = primero_de s stsc i in
    let siguientes = siguiente_de s stsc chunks reglas i in
    i == 0 && not (primero == 1)
    || primero == 0
    || ltb chunks primero
    || not (ltb primero siguientes)
    || ltb (chunks + 1) siguientes
    || por_fragmento s stsc i == 0
    || not (be32 s (stsc.p + 8 + i * 12 + 8) == 1)

abbrev pub cuenta_con : List ℕ → Vista → ℕ → ℕ → ℕ → ℕ → ℕ
cuenta_con s stsc chunks reglas i cuenta =
    (cuenta + (siguiente_de s stsc chunks reglas i - primero_de s stsc i) * por_fragmento s stsc i)
    % 2 ^ 64

-- The `k` rules from `i`: the samples counted.
unfoldable pub contar_reglas : List ℕ → Vista → ℕ → ℕ → ℕ → ℕ → ℕ → ℕ → Option ℕ
contar_reglas s stsc chunks reglas muestras zero i cuenta = some cuenta
contar_reglas s stsc chunks reglas muestras (suc k) i cuenta =
    let c = cuenta_con s stsc chunks reglas i cuenta in
    let resto = contar_reglas s stsc chunks reglas muestras k (i + 1) c in
    if regla_mala s stsc chunks reglas i then none else if ltb muestras c then none else resto

abbrev pub igual : Option ℕ → ℕ → Bool
igual none n = false
igual (some c) n = c == n

-- Do the rules of `stsc` share out all the samples, on chunks that are there?
unfoldable pub reglas_bien : List ℕ → Pista → Bool
reglas_bien s p =
    let reglas = be32 s (p.stsc.p + 4) in
    igual (contar_reglas s p.stsc (be32 s (p.stco.p + 4)) reglas p.muestras reglas 0 0) p.muestras
