-- ===== src/Fuentes/CacheFiel.antt =====
-- The cache of cache_fuente.c gives the bytes of the file, over a source that does.
use taek_os.Prelude.{
  ℕ, zero, suc, ◌+◌, ◌*◌, ◌/◌, ◌%◌, ◌≤◌, ◌<◌, true, Option, none, some, List, ◌≡◌, refl, sym, ◌∙◌,
  subst, ◌==◌, si, if◌then◌else◌, get_or, set, length-set, get_or-set, Todos-get_or, Todos-set,
  arith,
}
use taek_os.Mp4.Fuente.{Leido, leidos, corta, negativa, Lectura}
use taek_os.Fuentes.Fiel.{tramo, tramo_vacio, Trae, IsFiel, Aviso, avisar, IsDiscreto}
use taek_os.Fuentes.Cache.{
  cache_fuente_max, ReadAhead, ra_cero, Ranura, vacia, Cache, contiene, nueva, cache_buscar,
  mas_uno, pista_de, servir, pedido, con_fallo, con_ranura, llegado, girada, traer, hallado, copiar,
  preparar_ra, anotado, empezado, rechaza, cache_fuente_leer,
}
use taek_os.Fuentes.CacheValida.{
  Buena, Ancha, CacheIsFiel, Sitio, cache_buscar-Sitio, pedido_lem, preparar_ra-ventana, no_rechaza,
  fracaso-Sale, avisado-Sale, servir-Sale,
}

module _ {W : Type 0} (F : Type 0) (archivo : ℕ → ℕ) (tamano : ℕ) (Vale : W → Type 0)
    (leer : Lectura W) (validar : Aviso W) (fiel : IsFiel F archivo tamano Vale leer)
    (discreto : IsDiscreto F Vale validar) where
  abbrev Bien : Cache W → Type 0
  Bien c = CacheIsFiel archivo tamano Vale c

  abbrev Sale : ℕ → ℕ → Leido × Cache W → Type 0
  Sale pos n x = Trae F archivo pos n x.0 × Bien x.1

  abbrev Resto : ℕ → (ℕ → ℕ → Cache W → Leido × Cache W) → Type 0
  Resto n sigue = (o k : ℕ) (c : Cache W) → Bien c → o + k ≤ tamano → k < n → Sale o k (sigue o k c)

  -- What goes on with a slot that has the byte.
  abbrev Con : ℕ → ℕ → (ℕ → Cache W → Leido × Cache W) → Type 0
  Con pos n sigue =
      (s : ℕ) (c : Cache W)
      → Bien c
      → contiene (get_or c.ranuras s vacia) pos ≡ true
      → Sale pos n (sigue s c)

  puesta :
      (s : ℕ) (r v : Ranura) (pos : ℕ)
      → contiene r pos ≡ true
      → contiene (if s == s then r else v) pos ≡ true
  puesta s r v pos h =
      si (λ x. contiene x pos ≡ true) (s == s) r v (λ e. h) (λ e. absurd (ground (arith, e)))

  con_nueva :
      (s base bytes pos : ℕ) (datos : List ℕ) (c : Cache W)
      → Bien c
      → s < 2
      → base ≤ pos
      → pos < base + bytes
      → bytes ≤ cache_fuente_max
      → datos ≡ tramo archivo base bytes
      → Bien (con_ranura s (nueva base bytes datos) c)
        × (contiene (get_or (set c.ranuras s (nueva base bytes datos)) s vacia) pos ≡ true)
  con_nueva s base bytes pos datos c b h i j m e =
      let r = nueva base bytes datos in
      (
        record {
          mundo = b.mundo;
          tam = b.tam;
          dos = length-set c.ranuras s r ∙ b.dos;
          buenas = Todos-set (Buena archivo) c.ranuras s r (m, λ z. e) b.buenas;
          ancha = b.ancha;
          cabe = b.cabe;
          anchas = b.anchas;
        },
        subst (λ x. contiene x pos ≡ true)
            (sym (get_or-set c.ranuras s s r vacia (omega (arith, h, b.dos))))
            (puesta s r (get_or c.ranuras s vacia) pos (ground arith)),
      )

  llegado-Sale :
      (sigue : ℕ → Cache W → Leido × Cache W) (s base bytes pos n : ℕ) (c : Cache W) (r : Leido)
      → Bien c
      → s < 2
      → base ≤ pos
      → pos < base + bytes
      → bytes ≤ cache_fuente_max
      → Trae F archivo base bytes r
      → Con pos n sigue
      → Sale pos n (llegado validar sigue s base bytes c r)
  llegado-Sale sigue s base bytes pos n c corta b h i j m t q =
      fracaso-Sale F archivo tamano Vale leer validar fiel discreto pos n 5 c b t
  llegado-Sale sigue s base bytes pos n c (negativa r) b h i j m t q =
      fracaso-Sale F archivo tamano Vale leer validar fiel discreto pos n r c b t
  llegado-Sale sigue s base bytes pos n c (leidos datos) b h i j m t q =
      avisado-Sale F archivo tamano Vale leer validar fiel discreto pos n
        (λ d. sigue s (con_ranura s (nueva base bytes datos) d)) c (avisar validar c.mundo) b
        (discreto.sigue c.mundo b.mundo) (discreto.avisa c.mundo b.mundo)
        (λ w d.
          let x = con_nueva s base bytes pos datos (record c { mundo = w }) d h i j m t in
          q s _ x.0 x.1)

  traer-Sale :
      (pista : ℕ) (ra : ReadAhead) (pos n : ℕ) (sigue : ℕ → Cache W → Leido × Cache W) (c : Cache W)
      → Bien c
      → 512 ≤ ra.ventana
      → 0 < n
      → pos + n ≤ tamano
      → Con pos n sigue
      → Sale pos n (traer leer validar pista ra pos n sigue c)
  unfolding traer
  traer-Sale pista ra pos n sigue c b v p h q =
      let l = pedido_lem ra c.tamano pos n v p (omega (arith, h, b.tam)) in
      let base = pos / 512 * 512 in
      let bytes = pedido ra c.tamano pos n in
      let s = c.reemplazo % 2 in
      let d : Cache W = girada c s in
      let r = leer d.mundo pista base bytes in
      let e : base + bytes ≤ tamano = omega (arith, l.0, b.tam) in
      si (Sale pos n) (bytes == 0) _ _ (λ z. absurd (ground (arith, z, l.1)))
        (λ z.
          llegado-Sale sigue s base bytes pos n (con_fallo ra d r.1) r.0
            (record {
              mundo = fiel.sigue c.mundo pista base bytes e b.mundo;
              tam = b.tam;
              dos = length-set c.ranuras s _ ∙ b.dos;
              buenas =
                  Todos-set (Buena archivo) c.ranuras s _
                    (omega arith, λ y. absurd (omega (arith, y))) b.buenas;
              ancha = b.ancha;
              cabe = b.cabe;
              anchas = b.anchas;
            })
            (omega arith) (omega arith) (omega (arith, l.1)) l.2
            (fiel.trae c.mundo pista base bytes e b.mundo) q)

  hallado-Sale :
      (pista : ℕ) (ra : ReadAhead) (pos n : ℕ) (sigue : ℕ → Cache W → Leido × Cache W) (c : Cache W)
      (x : Option ℕ)
      → Bien c
      → Sitio c.ranuras 0 pos x
      → 512 ≤ ra.ventana
      → 0 < n
      → pos + n ≤ tamano
      → Con pos n sigue
      → Sale pos n (hallado leer validar pista ra pos n sigue c x)
  hallado-Sale pista ra pos n sigue c none b u v p h q = traer-Sale pista ra pos n sigue c b v p h q
  hallado-Sale pista ra pos n sigue c (some s) b u v p h q =
      q s (record c { aciertos = mas_uno c.aciertos })
        (record {
          mundo = b.mundo;
          tam = b.tam;
          dos = b.dos;
          buenas = b.buenas;
          ancha = b.ancha;
          cabe = b.cabe;
          anchas = b.anchas;
        })
        (subst (λ k. contiene (get_or c.ranuras k vacia) pos ≡ true) (omega arith) u.1)

  copiar-Sale :
      (pista : ℕ) (ra : ReadAhead) (f pos n : ℕ) (c : Cache W)
      → Bien c
      → 512 ≤ ra.ventana
      → pos + n ≤ tamano
      → n ≤ f
      → Sale pos n (copiar leer validar pista ra f pos n c)
  unfolding copiar
  copiar-Sale pista ra zero pos n c b v h k = (tramo_vacio archivo pos n (omega (arith, k)), b)
  copiar-Sale pista ra (suc f) pos n c b v h k =
      si (Sale pos n) (n == 0) _ _ (λ z. (tramo_vacio archivo pos n (ground (arith, z)), b))
        (λ z.
          avisado-Sale F archivo tamano Vale leer validar fiel discreto pos n
            (λ d.
              hallado leer validar pista ra pos n (servir (copiar leer validar pista ra f) pos n) d
                (cache_buscar d.ranuras 0 pos))
            c (avisar validar c.mundo) b (discreto.sigue c.mundo b.mundo)
            (discreto.avisa c.mundo b.mundo)
            (λ w d.
              hallado-Sale pista ra pos n (servir (copiar leer validar pista ra f) pos n)
                (record c { mundo = w }) (cache_buscar c.ranuras 0 pos) d
                (cache_buscar-Sitio c.ranuras 0 pos) v (ground (arith, z)) h
                (λ s e be i.
                  servir-Sale F archivo tamano Vale leer validar fiel discreto
                    (copiar leer validar pista ra f) pos n s e be h (ground (arith, z)) i
                    (λ o m g bg ho hm.
                      copiar-Sale pista ra f o m g bg v ho (omega (arith, hm, k))))))

  empezado-Bien :
      (pista : ℕ) (c : Cache W) (ra : ReadAhead) → Bien c → Ancha ra → Bien (empezado pista c ra)
  empezado-Bien pista c ra b h = record {
    mundo = b.mundo;
    tam = b.tam;
    dos = b.dos;
    buenas = b.buenas;
    ancha = b.ancha;
    cabe = b.cabe;
    anchas = Todos-set Ancha c.ra (pista_de pista) ra h b.anchas;
  }

  anotado-Sale :
      (pista fin pos n : ℕ) (x : Leido × Cache W) → Sale pos n x → Sale pos n (anotado pista fin x)
  anotado-Sale pista fin pos n (leidos s, c) h = (
    h.0,
    record {
      mundo = h.1.mundo;
      tam = h.1.tam;
      dos = h.1.dos;
      buenas = h.1.buenas;
      ancha = h.1.ancha;
      cabe = h.1.cabe;
      anchas =
          Todos-set Ancha c.ra (pista_de pista) _
            (Todos-get_or Ancha c.ra (pista_de pista) ra_cero (λ e. absurd (e refl)) h.1.anchas)
            h.1.anchas;
    },
  )
  anotado-Sale pista fin pos n (corta, c) h = h
  anotado-Sale pista fin pos n (negativa r, c) h = h

  leer-Sale :
      (c : Cache W) (pista off n : ℕ)
      → off + n ≤ tamano
      → Bien c
      → Sale off n (cache_fuente_leer leer validar c pista off n)
  unfolding cache_fuente_leer
  leer-Sale c pista off n h b =
      let vieja : Ancha (get_or c.ra (pista_de pista) ra_cero) =
        Todos-get_or Ancha c.ra (pista_de pista) ra_cero (λ e. absurd (e refl)) b.anchas in
      let ra = preparar_ra c.ventana (get_or c.ra (pista_de pista) ra_cero) off in
      let v =
        preparar_ra-ventana c.ventana (get_or c.ra (pista_de pista) ra_cero) off b.ancha vieja in
      si (Sale off n) (rechaza c off n) _ _
        (λ e. absurd (no_rechaza c off n b.ancha b.cabe (omega (arith, h, b.tam)) e))
        (λ e.
          si (Sale off n) (n == 0) _ _ (λ z. (tramo_vacio archivo off n (ground (arith, z)), b))
            (λ z.
              anotado-Sale pista (off + n) off n
                (copiar leer validar pista ra n off n (empezado pista c ra))
                (copiar-Sale pista ra n off n (empezado pista c ra)
                  (empezado-Bien pista c ra b (λ x. v)) v h (omega arith))))

-- Over a source that gives the bytes of a file, and a callback that does no harm to it, cache_fuente_leer is one too:
-- a read in the file gives its bytes, whatever was read before, and fails only where the source or the callback may.
pub cache-IsFiel :
    {W : Type 0} (F : Type 0) (archivo : ℕ → ℕ) (tamano : ℕ) (Vale : W → Type 0) (leer : Lectura W)
    (validar : Aviso W)
    → IsFiel F archivo tamano Vale leer
    → IsDiscreto F Vale validar
    → IsFiel F archivo tamano (CacheIsFiel archivo tamano Vale) (cache_fuente_leer leer validar)
cache-IsFiel F archivo tamano Vale leer validar fiel discreto = record {
  sigue = λ c pista o n h b.
      (leer-Sale F archivo tamano Vale leer validar fiel discreto c pista o n h b).1;
  trae = λ c pista o n h b.
      (leer-Sale F archivo tamano Vale leer validar fiel discreto c pista o n h b).0;
}
