-- ===== src/Fuentes/AnilloLeer.antt =====
-- The ring of anillo_almacenamiento.c gives the bytes of the file, over a source that does.
use taek_os.Prelude.{
  ℕ, zero, suc, ◌+◌, ◌-◌, ◌%◌, ◌^◌, ◌≤◌, ◌<◌, min, true, ◌||◌, Option, none, some, ◌≡◌, inl, inr,
  refl, sym, subst, ltb, si, get_or, get_or-set_self, ◌==◌, arith,
}
use taek_os.Mp4.Fuente.{Leido, leidos, corta, negativa, Lectura}
use taek_os.Fuentes.Fiel.{
  tramo_vacio, tramo_de_tramo, Trae, IsFiel, Aviso, avisar, Avisa, IsDiscreto, juntar-Trae,
  juntar_estado,
}
use taek_os.Fuentes.Anillo.{consumiendo, Bloque, bloque_cero, Anillo, anillo_buscar, anillo_iniciar}
use taek_os.Fuentes.Consumo.{
  anillo_rellenar, llenar_hasta, con_estado, tocar, servir_de, reponer, en_falta, atendido, buscado,
  llenado, apuntado, desde, recorrer_anillo, anillo_leer,
}
use taek_os.Fuentes.Cadena.{Lleno, Sitio}
use taek_os.Fuentes.AnilloVivo.{VivoDesde, AnilloIsVivo, iniciar-IsVivo, marcar-Vivo}
use taek_os.Fuentes.AnilloFiel.{
  buscar-Sitio, Llega, llenar-Llega, Rellenada, rellenar-Rellenada, reponer-Alcance,
}

module _ {W : Type 0} (F : Type 0) (archivo : ℕ → ℕ) (tamano : ℕ) (Vale : W → Type 0)
    (leer : Lectura W) (validar : Aviso W) (fiel : IsFiel F archivo tamano Vale leer)
    (discreto : IsDiscreto F Vale validar) where
  abbrev Bien : Anillo W → Type 0
  Bien a = AnilloIsVivo archivo tamano Vale a

  abbrev Sale : ℕ → ℕ → Leido × Anillo W → Type 0
  Sale pos n x = Trae F archivo pos n x.0 × Bien x.1

  con_mundo : (a : Anillo W) (w : W) → Bien a → Vale w → Bien (record a { mundo = w })
  con_mundo a w b v = (
    b.0,
    record {
      vale = v;
      tam_es = b.1.tam_es;
      bloque_es = b.1.bloque_es;
      ocho = b.1.ocho;
      cabe = b.1.cabe;
      caben = b.1.caben;
      cola_es = b.1.cola_es;
      cadena = b.1.cadena;
      corto = b.1.corto;
    },
  )

  -- Slot `s` has the byte at `pos`.
  abbrev En : ℕ → ℕ → Anillo W → Type 0
  En s pos a =
      Lleno archivo (get_or a.bloques s bloque_cero)
      × ((get_or a.bloques s bloque_cero).offset ≤ pos)
      × (pos < (get_or a.bloques s bloque_cero).offset + (get_or a.bloques s bloque_cero).bytes)
      × (s < 8)

  -- The rest of a read, from a later byte on.
  abbrev Resto : ℕ → (ℕ → ℕ → Anillo W → Leido × Anillo W) → Type 0
  Resto n sigue =
      (o k : ℕ) (a : Anillo W) → Bien a → o + k ≤ tamano → k < n → Sale o k (sigue o k a)

  servir_de-Sale :
      (sigue : ℕ → ℕ → Anillo W → Leido × Anillo W) (pos n s : ℕ) (a : Anillo W)
      → Bien a
      → En s pos a
      → pos + n ≤ tamano
      → 0 < n
      → Resto n sigue
      → Sale pos n (servir_de sigue pos n s a)
  servir_de-Sale sigue pos n s a b i h p q =
      let r = get_or a.bloques s bloque_cero in
      let k = min ((r.bytes + 2 ^ 64 - (pos - r.offset)) % 2 ^ 64) n in
      let e : k ≡ min (r.bytes - (pos - r.offset)) n = omega (arith, i.1, i.2, i.0.2) in
      let d : Bien (tocar s a) = (
        b.0,
        marcar-Vivo archivo tamano Vale a.mundo a.tamano a.bloque_bytes a.bloques a.productor_off
            a.cola a.cabeza a.cantidad b.0 s (record r { tocado = true }) i.3 (λ f. f) refl refl
            b.1,
      ) in
      let x =
        q (pos + k) (n - k) (tocar s a) d (omega (arith, h, e)) (omega (arith, e, i.2, i.1, p)) in
      (
        subst (λ m. Trae F archivo pos m (servir_de sigue pos n s a).0) (omega (arith, e))
            (juntar-Trae F archivo pos k (n - k) _ (sigue (pos + k) (n - k) (tocar s a))
              (tramo_de_tramo archivo r.offset r.bytes pos n k r.datos i.0.3 i.1 i.2 e) x.0),
        juntar_estado Bien _ (sigue (pos + k) (n - k) (tocar s a)) x.1,
      )

  -- What goes on with a slot that has the byte.
  abbrev Con : ℕ → ℕ → (ℕ → Anillo W → Leido × Anillo W) → Type 0
  Con pos n sigue = (s : ℕ) (a : Anillo W) → Bien a → En s pos a → Sale pos n (sigue s a)

  buscado-Sale :
      (pos n ini : ℕ) (sigue : ℕ → Anillo W → Leido × Anillo W) (a : Anillo W) (x : Option ℕ)
      → VivoDesde archivo tamano Vale ini a
      → ini ≤ pos
      → pos < a.productor_off
      → Sitio archivo a.bloques ini a.productor_off pos x
      → Con pos n sigue
      → Sale pos n (buscado sigue a x)
  buscado-Sale pos n ini sigue a (some s) v h k c q = q s a (ini, v) (c.0, c.1, c.2, c.3)
  buscado-Sale pos n ini sigue a none v h k (inl c) q = absurd (omega (arith, c, h))
  buscado-Sale pos n ini sigue a none v h k (inr c) q = absurd (omega (arith, c, k))

  llenado-Sale :
      (pos n : ℕ) (sigue : ℕ → Anillo W → Leido × Anillo W) (x : Option ℕ × Anillo W)
      → Llega F archivo tamano Vale leer fiel pos x
      → Con pos n sigue
      → Sale pos n (llenado sigue pos x)
  llenado-Sale pos n sigue (some r, a) l q = (l.0, l.1)
  llenado-Sale pos n sigue (none, a) l q =
      buscado-Sale pos n l.0 sigue a (anillo_buscar a pos) l.1 l.2 l.3
        (buscar-Sitio F archivo tamano Vale leer fiel a l.0 pos l.1) q

  desde-Sale :
      (pos n ini : ℕ) (sigue : ℕ → Anillo W → Leido × Anillo W) (a : Anillo W) (x : Option ℕ)
      → VivoDesde archivo tamano Vale ini a
      → Sitio archivo a.bloques ini a.productor_off pos x
      → pos < tamano
      → Con pos n sigue
      → Sale pos n (desde leer validar sigue pos a x)
  desde-Sale pos n ini sigue a (some s) v c h q =
      let r = get_or a.bloques s bloque_cero in
      q s (con_estado s a)
        (
          ini,
          marcar-Vivo archivo tamano Vale a.mundo a.tamano a.bloque_bytes a.bloques a.productor_off
              a.cola a.cabeza a.cantidad ini s _ c.3 (λ f. (refl, f.1, f.2, f.3)) refl refl v,
        )
        (subst
          (λ (b : Bloque).
            Lleno archivo b × (b.offset ≤ pos) × (pos < b.offset + b.bytes) × (s < 8))
          (sym (
            get_or-set_self a.bloques s (record r { estado = consumiendo }) bloque_cero
              (omega (arith, c.3, v.ocho))))
          ((refl, c.0.1, c.0.2, c.0.3), c.1, c.2, c.3))
  desde-Sale pos n ini sigue a none v c h q =
      let d = reponer-Alcance F archivo tamano Vale leer fiel pos ini a v (omega (arith, h)) in
      llenado-Sale pos n sigue (llenar_hasta leer (a.tamano + 1) pos (en_falta (reponer pos a)))
        (llenar-Llega F archivo tamano Vale leer fiel (a.tamano + 1) pos d.0
          (en_falta (reponer pos a)) (omega arith) d.1 d.2 d.3 h)
        q

  atendido-Sale :
      (pos n : ℕ) (sigue : Anillo W → Leido × Anillo W) (a : Anillo W) (x : Option ℕ × W)
      → Bien a
      → Vale x.1
      → Avisa F x.0
      → ((w : W) → Bien (record a { mundo = w }) → Sale pos n (sigue (record a { mundo = w })))
      → Sale pos n (atendido sigue a x)
  atendido-Sale pos n sigue a (none, w) b v f q = q w (con_mundo a w b v)
  atendido-Sale pos n sigue a (some r, w) b v f q = (f, con_mundo a w b v)

  recorrer-Sale :
      (f pos n : ℕ) (a : Anillo W)
      → Bien a
      → pos + n ≤ tamano
      → n ≤ f
      → Sale pos n (recorrer_anillo leer validar f pos n a)
  unfolding recorrer_anillo
  recorrer-Sale zero pos n a b h k = (tramo_vacio archivo pos n (omega (arith, k)), b)
  recorrer-Sale (suc f) pos n a b h k =
      si (Sale pos n) (n == 0) _ _ (λ z. (tramo_vacio archivo pos n (ground (arith, z)), b))
        (λ z.
          atendido-Sale pos n
            (λ d.
              desde leer validar (servir_de (recorrer_anillo leer validar f) pos n) pos d
                (anillo_buscar d pos))
            a (avisar validar a.mundo) b (discreto.sigue a.mundo b.1.vale)
            (discreto.avisa a.mundo b.1.vale)
            (λ w d.
              desde-Sale pos n d.0 (servir_de (recorrer_anillo leer validar f) pos n)
                (record a { mundo = w }) (anillo_buscar (record a { mundo = w }) pos) d.1
                (buscar-Sitio F archivo tamano Vale leer fiel (record a { mundo = w }) d.0 pos d.1)
                (ground (arith, h, z))
                (λ s e be i.
                  servir_de-Sale (recorrer_anillo leer validar f) pos n s e be i h
                    (ground (arith, z))
                    (λ o m g bg ho hm. recorrer-Sale f o m g bg ho (omega (arith, hm, k))))))

  apuntado-Sale :
      (p fin pos n : ℕ) (x : Leido × Anillo W) → Sale pos n x → Sale pos n (apuntado p fin x)
  apuntado-Sale p fin pos n (leidos s, a) h = h
  apuntado-Sale p fin pos n (corta, a) h = h
  apuntado-Sale p fin pos n (negativa r, a) h = h

  leer-Sale :
      (a : Anillo W) (pista off n : ℕ)
      → off + n ≤ tamano
      → Bien a
      → Sale off n (anillo_leer leer validar a pista off n)
  unfolding anillo_leer
  leer-Sale a pista off n h b =
      si (Sale off n) (ltb a.tamano off || ltb (a.tamano - off) n) _ _
        (λ e. absurd (ground (arith, e, h, b.1.tam_es)))
        (λ e.
          si (Sale off n) (n == 0) _ _ (λ z. (tramo_vacio archivo off n (ground (arith, z)), b))
            (λ z.
              apuntado-Sale _ (off + n) off n
                (recorrer_anillo leer validar n off n
                  (record a { lecturas = (a.lecturas + 1) % 2 ^ 64 }))
                (recorrer-Sale n off n (record a { lecturas = (a.lecturas + 1) % 2 ^ 64 }) b h
                  (omega arith))))

-- The ring over a source that gives the bytes of a file, and a callback that does no harm to it: anillo_iniciar makes
-- it valid, anillo_rellenar keeps it so and fails only where the source may, and anillo_leer is such a source itself: a
-- read in the file gives its bytes, whatever was read or produced before, and fails only where the source or the
-- callback may.
pub anillo-IsFiel :
    {W : Type 0} (F : Type 0) (archivo : ℕ → ℕ) (tamano : ℕ) (Vale : W → Type 0) (leer : Lectura W)
    (validar : Aviso W)
    → (fiel : IsFiel F archivo tamano Vale leer) → IsDiscreto F Vale validar
    → ((w : W) → Vale w → AnilloIsVivo archivo tamano Vale (anillo_iniciar w tamano))
      × ((k : ℕ) (a : Anillo W)
          → AnilloIsVivo archivo tamano Vale a
          → Rellenada F archivo tamano Vale leer fiel (anillo_rellenar leer k a))
      × IsFiel F archivo tamano (AnilloIsVivo archivo tamano Vale) (anillo_leer leer validar)
anillo-IsFiel F archivo tamano Vale leer validar fiel discreto = (
  iniciar-IsVivo archivo tamano Vale,
  rellenar-Rellenada F archivo tamano Vale leer fiel,
  record {
    sigue = λ a pista o n h b.
        (leer-Sale F archivo tamano Vale leer validar fiel discreto a pista o n h b).1;
    trae = λ a pista o n h b.
        (leer-Sale F archivo tamano Vale leer validar fiel discreto a pista o n h b).0;
  },
)
