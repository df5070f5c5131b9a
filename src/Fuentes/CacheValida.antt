-- ===== src/Fuentes/CacheValida.antt =====
-- What cache_fuente.c keeps up, and what it serves from a slot.
use taek_os.Prelude.{
  ℕ, suc, ◌+◌, ◌-◌, ◌*◌, ◌/◌, ◌≤◌, ◌<◌, min, true, Option, none, some, List, [], ◌∷◌, ◌≡◌, ◌≢◌,
  refl, ap, ◌∙◌, subst, ◌==◌, si, get_or, map, length, Todos, Todos-get_or, arith,
}
use taek_os.Mp4.Fuente.{Leido, Lectura}
use taek_os.Fuentes.Fiel.{
  tramo, tramo_de_tramo, Trae, IsFiel, Aviso, Avisa, IsDiscreto, juntar-Trae, juntar_estado,
}
use taek_os.Fuentes.Cache.{
  cache_fuente_max, ReadAhead, Ranura, vacia, Cache, contiene, cache_buscar, anulada, fracaso,
  avisado, copiables, servir, pedido, preparar_ra, rechaza,
}

-- A slot holds the bytes of the file that it says it holds.
abbrev pub Buena : (ℕ → ℕ) → Ranura → Type 0
Buena archivo r =
    (r.validos ≤ cache_fuente_max) × (0 < r.validos → r.datos ≡ tramo archivo r.offset r.validos)

-- A window, once chosen, has a sector at least.
abbrev pub Ancha : ReadAhead → Type 0
Ancha ra = ra.ventana ≢ 0 → 512 ≤ ra.ventana

pub record CacheIsFiel {W : Type 0} (archivo : ℕ → ℕ) (tamano : ℕ) (Vale : W → Type 0) (c : Cache W)
    : Type 0 where
  pub mundo : Vale c.mundo
  pub tam : c.tamano ≡ tamano
  pub dos : length c.ranuras ≡ 2
  pub buenas : Todos (Buena archivo) c.ranuras
  pub ancha : 512 ≤ c.ventana
  pub cabe : c.ventana ≤ cache_fuente_max
  pub anchas : Todos Ancha c.ra

abbrev pub Sitio : List Ranura → ℕ → ℕ → Option ℕ → Type 0
Sitio l s pos none = Unit {0}
Sitio l s pos (some j) = (s ≤ j) × (contiene (get_or l (j - s) vacia) pos ≡ true)

antes :
    (r : Ranura) (l : List Ranura) (s pos : ℕ) (x : Option ℕ)
    → Sitio l (s + 1) pos x
    → Sitio (r ∷ l) s pos x
antes r l s pos none h = tt
antes r l s pos (some j) h = (
  omega (arith, h.0),
  subst (λ k. contiene (get_or (r ∷ l) k vacia) pos ≡ true) (siguiente s j h.0) h.1,
)
  where
    siguiente : (s j : ℕ) → s + 1 ≤ j → suc (j - (s + 1)) ≡ j - s
    siguiente s j h = omega arith

pub cache_buscar-Sitio : (l : List Ranura) (s pos : ℕ) → Sitio l s pos (cache_buscar l s pos)
unfolding cache_buscar
cache_buscar-Sitio [] s pos = tt
cache_buscar-Sitio (r ∷ l) s pos =
    si (Sitio (r ∷ l) s pos) (contiene r pos) _ _
      (λ h. (omega arith, subst (λ k. contiene (get_or (r ∷ l) k vacia) pos ≡ true) (nada s) h))
      (λ h. antes r l s pos (cache_buscar l (s + 1) pos) (cache_buscar-Sitio l (s + 1) pos))
  where
    nada : (s : ℕ) → 0 ≡ s - s
    nada s = omega arith

pub anuladas : (archivo : ℕ → ℕ) (l : List Ranura) → Todos (Buena archivo) (map anulada l)
anuladas archivo [] = tt
anuladas archivo (r ∷ l) = ((omega arith, λ h. absurd (omega (arith, h))), anuladas archivo l)

pub length-map : (l : List Ranura) → length (map anulada l) ≡ length l
length-map [] = refl
length-map (r ∷ l) = ap suc (length-map l)

abbrev Dentro : Ranura → ℕ → Type 0
Dentro r pos = (r.offset ≤ pos) × (pos < r.offset + r.validos) × (r.validos ≤ cache_fuente_max)

contiene-Dentro :
    (archivo : ℕ → ℕ) (r : Ranura) (pos : ℕ)
    → Buena archivo r
    → contiene r pos ≡ true
    → Dentro r pos
contiene-Dentro archivo r pos b c = (ground (arith, c), ground (arith, c), b.0)

copiables_lem :
    (r : Ranura) (pos n : ℕ)
    → Dentro r pos
    → copiables r pos n ≡ min (r.validos - (pos - r.offset)) n
copiables_lem r pos n d = omega (arith, d)

-- What is asked for, `w` or less, reaches over `pos`, and stays in the file and the slot.
pub pedido_lem :
    (ra : ReadAhead) (tamano pos n : ℕ)
    → 512 ≤ ra.ventana
    → 0 < n
    → pos + n ≤ tamano
    → (pos / 512 * 512 + pedido ra tamano pos n ≤ tamano)
      × (pos - pos / 512 * 512 < pedido ra tamano pos n)
      × (pedido ra tamano pos n ≤ cache_fuente_max)
unfolding pedido
pedido_lem ra tamano pos n h p k = (ground arith, ground arith, ground arith)

pub preparar_ra-ventana :
    (ventana : ℕ) (ra : ReadAhead) (off : ℕ)
    → 512 ≤ ventana
    → Ancha ra
    → 512 ≤ (preparar_ra ventana ra off).ventana
unfolding preparar_ra
preparar_ra-ventana ventana ra off h a =
    si (λ v. 512 ≤ v) (ra.ventana == 0) _ _ (λ e. h) (λ e. a (ground (arith, e)))

pub no_rechaza :
    {W : Type 0} (c : Cache W) (off n : ℕ)
    → 512 ≤ c.ventana
    → c.ventana ≤ cache_fuente_max
    → off + n ≤ c.tamano
    → rechaza c off n ≡ true
    → ⊥
no_rechaza c off n h k l e = ground (arith, e)

module _ {W : Type 0} (F : Type 0) (archivo : ℕ → ℕ) (tamano : ℕ) (Vale : W → Type 0)
    (leer : Lectura W) (validar : Aviso W) (fiel : IsFiel F archivo tamano Vale leer)
    (discreto : IsDiscreto F Vale validar) where
  abbrev Bien : Cache W → Type 0
  Bien c = CacheIsFiel archivo tamano Vale c

  abbrev Sale : ℕ → ℕ → Leido × Cache W → Type 0
  Sale pos n x = Trae F archivo pos n x.0 × Bien x.1

  pub fracaso-Sale : (pos n r : ℕ) (c : Cache W) → Bien c → F → Sale pos n (fracaso r c)
  fracaso-Sale pos n r c b f = (
    f,
    record {
      mundo = b.mundo;
      tam = b.tam;
      dos = length-map c.ranuras ∙ b.dos;
      buenas = anuladas archivo c.ranuras;
      ancha = b.ancha;
      cabe = b.cabe;
      anchas = b.anchas;
    },
  )

  pub con_mundo : (c : Cache W) (w : W) → Bien c → Vale w → Bien (record c { mundo = w })
  con_mundo c w b v = record {
    mundo = v;
    tam = b.tam;
    dos = b.dos;
    buenas = b.buenas;
    ancha = b.ancha;
    cabe = b.cabe;
    anchas = b.anchas;
  }

  pub avisado-Sale :
      (pos n : ℕ) (sigue : Cache W → Leido × Cache W) (c : Cache W) (x : Option ℕ × W)
      → Bien c
      → Vale x.1
      → Avisa F x.0
      → ((w : W) → Bien (record c { mundo = w }) → Sale pos n (sigue (record c { mundo = w })))
      → Sale pos n (avisado sigue c x)
  avisado-Sale pos n sigue c (none, w) b v f q = q w (con_mundo c w b v)
  avisado-Sale pos n sigue c (some r, w) b v f q =
      fracaso-Sale pos n r (record c { mundo = w }) (con_mundo c w b v) f

  -- The rest of a read, from a later byte on.
  abbrev Resto : ℕ → (ℕ → ℕ → Cache W → Leido × Cache W) → Type 0
  Resto n sigue = (o k : ℕ) (c : Cache W) → Bien c → o + k ≤ tamano → k < n → Sale o k (sigue o k c)

  pub servir-Sale :
      (sigue : ℕ → ℕ → Cache W → Leido × Cache W) (pos n s : ℕ) (c : Cache W)
      → Bien c
      → pos + n ≤ tamano
      → 0 < n
      → contiene (get_or c.ranuras s vacia) pos ≡ true
      → Resto n sigue
      → Sale pos n (servir sigue pos n s c)
  servir-Sale sigue pos n s c b h p i q =
      let r = get_or c.ranuras s vacia in
      let buena : Buena archivo r =
        Todos-get_or (Buena archivo) c.ranuras s vacia (omega arith, λ z. absurd (omega (arith, z)))
          b.buenas in
      let d = contiene-Dentro archivo r pos buena i in
      let k = copiables r pos n in
      let e : k ≡ min (r.validos - (pos - r.offset)) n = copiables_lem r pos n d in
      let x = q (pos + k) (n - k) c b (omega (arith, h, e)) (omega (arith, e, d, p)) in
      (
        subst (λ m. Trae F archivo pos m (servir sigue pos n s c).0) (omega (arith, e))
            (juntar-Trae F archivo pos k (n - k) _ (sigue (pos + k) (n - k) c)
              (tramo_de_tramo archivo r.offset r.validos pos n k r.datos
                (buena.1 (omega (arith, d))) d.0 d.1 e)
              x.0),
        juntar_estado Bien _ (sigue (pos + k) (n - k) c) x.1,
      )
