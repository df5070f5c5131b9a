-- ===== src/Mp4/Lugar.antt =====
-- The place of the cursor of mp4.c from one sample to the next.
use taek_os.Prelude.{
  ℕ, suc, ◌+◌, ◌*◌, ◌%◌, ◌^◌, ◌<◌, Bool, true, false, List, ◌≡◌, refl, sym, ap, ◌∙◌, ◌==◌,
  if◌then◌else◌, arith,
}
use taek_os.Mp4.Vista.{be32}
use taek_os.Mp4.Pista.{Pista, por_fragmento}
use taek_os.Mp4.Cursor.{Cursor, tamano_de, adelantar}
use taek_os.Mp4.Reparto.{son_bytes, be32-lt}
use taek_os.Mp4.Cuenta.{en_fragmento, hasta, Reparte}
use taek_os.Mp4.Sitio.{
  tamano_de-en, suma_tamanos, sitio_en, Situado, Inicial, Vale, situado, inicial, CursorVale,
  CursorSituado, en_fragmento-por,
}

module _ (s : List ℕ) (p : Pista) (b : son_bytes s ≡ true)
    (r : Reparte s p (be32-lt s (p.stco.p + 4) b)) (pocas : p.muestras < 2 ^ 32) where
  -- The fields after the next sample.
  sube : (i : ℕ) → i < p.muestras → (i + 1) % 2 ^ 32 ≡ i + 1
  sube i h = omega (arith, h, pocas)

  adelantar-Inicial :
      (c : Cursor) (tam delta : ℕ)
      → CursorSituado s p b r c
      → c.indice < p.muestras
      → c.muestra_fragmento + 1 ≡ por_fragmento s p.stsc c.regla_fragmento
      → Inicial s p b r ((c.indice + 1) % 2 ^ 32) ((c.fragmento + 1) % 2 ^ 32) 0 c.regla_fragmento
  unfolding hasta
  adelantar-Inicial c tam delta t h e =
      let m : c.muestra_fragmento + 1 ≡ en_fragmento s p.stsc c.fragmento =
        omega (arith, e, en_fragmento-por s p b r c.regla_fragmento c.fragmento t.suya) in
      let k = (r.validas c.regla_fragmento t.suya.0).cabe in
      let q = no_pasa c.fragmento (omega (arith, t.suya.2, k)) in
      record {
        lugar = sube c.indice h ∙ (omega (arith, t.lugar, m) ∙ ap (hasta s p.stsc) (sym q));
        en_cero = refl;
        fragmentos = omega (arith, q, t.suya.2, k);
        hay = t.suya.0;
        empieza = omega (arith, q, t.suya.1);
      }
    where
      no_pasa : (f : ℕ) → f < (be32 s (p.stco.p + 4)) → (f + 1) % 2 ^ 32 ≡ suc f
      no_pasa f h = omega (arith, h, be32-lt s (p.stco.p + 4) b)

  adelantar-Situado :
      (c : Cursor) (tam : ℕ)
      → CursorSituado s p b r c
      → c.indice < p.muestras
      → tam ≡ tamano_de s p c.indice
      → (c.muestra_fragmento + 1 ≡ por_fragmento s p.stsc c.regla_fragmento → ⊥)
      → Situado s p b r
          ((c.indice + 1) % 2 ^ 32)
          c.fragmento
          ((c.muestra_fragmento + 1) % 2 ^ 32)
          c.regla_fragmento
          ((c.offset_muestra + tam) % 2 ^ 64)
  unfolding suma_tamanos
  adelantar-Situado c tam t h e n =
      let q = no_pasa c.muestra_fragmento t.queda in
      record {
        lugar = sube c.indice h ∙ omega (arith, t.lugar, q);
        suya = t.suya;
        queda = omega (arith, q, n, t.queda);
        ahi =
            omega (
              arith,
              t.ahi,
              e,
              ap (tamano_de s p) t.lugar,
              tamano_de-en s p (hasta s p.stsc c.fragmento + c.muestra_fragmento),
            )
            ∙ ap (sitio_en s p c.fragmento) (sym q);
      }
    where
      no_pasa : (m : ℕ) → m < por_fragmento s p.stsc c.regla_fragmento → (m + 1) % 2 ^ 32 ≡ suc m
      no_pasa m h = omega (arith, h, be32-lt s (p.stsc.p + 8 + c.regla_fragmento * 12 + 4) b)

  sin_vuelta :
      (c : Cursor)
      → CursorSituado s p b r c
      → c.muestra_fragmento + 1 ≡ (c.muestra_fragmento + 1) % 2 ^ 32
  sin_vuelta c t = omega (arith, t.queda, be32-lt s (p.stsc.p + 8 + c.regla_fragmento * 12 + 4) b)

  segun_acaba :
      (a : Bool) (i f g m ρ o : ℕ)
      → (a ≡ true → Inicial s p b r i f 0 ρ)
      → (a ≡ false → Situado s p b r i g m ρ o)
      → Vale s p b r i (if a then f else g) (if a then 0 else m) ρ o
  segun_acaba true i f g m ρ o h k = inicial (h refl)
  segun_acaba false i f g m ρ o h k = situado (k refl)

  -- A cursor in its place goes on to the next sample.
  pub adelantar-Vale :
      (c : Cursor) (tam delta : ℕ)
      → CursorSituado s p b r c
      → c.indice < p.muestras
      → tam ≡ tamano_de s p c.indice
      → CursorVale s p b r (adelantar s p tam delta c)
        × ((adelantar s p tam delta c).indice ≡ c.indice + 1)
  unfolding adelantar
  adelantar-Vale c tam delta t h e = (
    segun_acaba ((c.muestra_fragmento + 1) % 2 ^ 32 == por_fragmento s p.stsc c.regla_fragmento) _ _
        _ _ _ _ (λ a. adelantar-Inicial c tam delta t h (sin_vuelta c t ∙ ground (arith, a)))
        (λ a. adelantar-Situado c tam t h e (λ g. absurd (ground (arith, a, g, sin_vuelta c t)))),
    sube c.indice h,
  )
