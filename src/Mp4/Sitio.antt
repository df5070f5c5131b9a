-- ===== src/Mp4/Sitio.antt =====
-- Where the samples of a track are, against the cursor of mp4.c.
use native.Mathlib.Decide.{ℕ_discrete as dec_eq}
use taek_os.Prelude.{
  ℕ, zero, suc, ◌+◌, ◌-◌, ◌*◌, ◌%◌, ◌^◌, ◌≤◌, ◌<◌, true, not, some, List, ◌≡◌, refl, sym, ap, ap₂,
  if◌then◌else◌, ◌∙◌, subst, ◌==◌, ltb, si, arith,
}
use taek_os.Mp4.Vista.{Vista, be32, be64}
use taek_os.Mp4.Pista.{Pista, primero_de, por_fragmento}
use taek_os.Mp4.Cursor.{Cursor, avanzar_regla, posicion_de, ubicar, tamano_de}
use taek_os.Mp4.Reparto.{son_bytes, be32-lt, De, De-le, avanzar_regla-De, regla-De}
use taek_os.Mp4.Cuenta.{en_fragmento, hasta, en_fragmento-De, Reparte}

-- The contents of a table as words of 32 bits: in `stsz`, after version and flags, the size of all samples, or 0, the
-- count, and a size for each; in `stco`, after version and flags and the count, a position for each chunk, of two words
-- in `co64`.
abbrev pub palabra : List ℕ → Vista → ℕ → ℕ
palabra s v k = be32 s (v.p + 4 * k)

abbrev pub tamano_en : List ℕ → Pista → ℕ → ℕ
tamano_en s p i = if palabra s p.stsz 1 == 0 then palabra s p.stsz (3 + i) else palabra s p.stsz 1

abbrev pub posicion_en : List ℕ → Pista → ℕ → ℕ
posicion_en s p c =
    if p.offsets_64
    then palabra s p.stco (2 + 2 * c) * 2 ^ 32 + palabra s p.stco (3 + 2 * c)
    else palabra s p.stco (2 + c)

pub tamano_de-en : (s : List ℕ) (p : Pista) (i : ℕ) → tamano_de s p i ≡ tamano_en s p i
unfolding tamano_de
tamano_de-en s p i =
    ap₂ (λ (x y : ℕ). if be32 s x == 0 then be32 s y else be32 s x) (uno p.stsz.p) (otro p.stsz.p i)
  where
    uno : (x : ℕ) → x + 4 ≡ x + 4 * 1
    uno x = omega arith

    otro : (x i : ℕ) → x + 12 + i * 4 ≡ x + 4 * (3 + i)
    otro x i = omega arith

pub posicion_de-en : (s : List ℕ) (p : Pista) (c : ℕ) → posicion_de s p c ≡ posicion_en s p c
unfolding be64
posicion_de-en s p c =
    ap₂ (λ (x y : ℕ). if p.offsets_64 then x else y)
      (ap₂ (λ (x y : ℕ). be32 s x * 2 ^ 32 + be32 s y) (ancha p.stco.p c) (baja p.stco.p c))
      (ap (be32 s) (corta p.stco.p c))
  where
    ancha : (x c : ℕ) → x + 8 + c * 8 ≡ x + 4 * (2 + 2 * c)
    ancha x c = omega arith

    baja : (x c : ℕ) → x + 8 + c * 8 + 4 ≡ x + 4 * (3 + 2 * c)
    baja x c = omega arith

    corta : (x c : ℕ) → x + 8 + c * 4 ≡ x + 4 * (2 + c)
    corta x c = omega arith

-- The sizes of `k` samples from `i` on.
unfoldable pub suma_tamanos : List ℕ → Pista → ℕ → ℕ → ℕ
suma_tamanos s p i zero = 0
suma_tamanos s p i (suc k) = suma_tamanos s p i k + tamano_en s p (i + k)

abbrev pub sitio_en : List ℕ → Pista → ℕ → ℕ → ℕ
sitio_en s p c k = (posicion_en s p c + suma_tamanos s p (hasta s p.stsc c) k) % 2 ^ 64

-- Sample `i` begins at `o`: in its chunk, after the samples of the chunk that are before it.
pub record Sitio (s : List ℕ) (p : Pista) (i o : ℕ) : Type 0 where
  pub chunk : ℕ
  pub hay : chunk < be32 s (p.stco.p + 4)
  pub desde : hasta s p.stsc chunk ≤ i
  pub antes : i < hasta s p.stsc (suc chunk)
  pub ahi : o ≡ sitio_en s p chunk (i - hasta s p.stsc chunk)

be64-lt : (s : List ℕ) (i : ℕ) → son_bytes s ≡ true → be64 s i < 2 ^ 64
unfolding be64
be64-lt s i h = omega (arith, be32-lt s i h, be32-lt s (i + 4) h)

module _ (s : List ℕ) (p : Pista) (b : son_bytes s ≡ true)
    (r : Reparte s p (be32-lt s (p.stco.p + 4) b)) where
  abbrev chunks : ℕ
  chunks = be32 s (p.stco.p + 4)

  abbrev H : ℕ → ℕ
  H c = hasta s p.stsc c

  abbrev Suya : ℕ → ℕ → Type 0
  Suya i c = De s p.stsc chunks (be32-lt s (p.stco.p + 4) b) i c

  -- The fields of a cursor in a chunk, after `m` of its samples, and of one at the beginning of a chunk or the end.
  pub record Situado (indice fragmento m regla offset : ℕ) : Type 0 where
    pub lugar : indice ≡ H fragmento + m
    pub suya : Suya regla fragmento
    pub queda : m < por_fragmento s p.stsc regla
    pub ahi : offset ≡ sitio_en s p fragmento m

  pub record Inicial (indice fragmento m regla : ℕ) : Type 0 where
    pub lugar : indice ≡ H fragmento
    pub en_cero : m ≡ 0
    pub fragmentos : fragmento ≤ chunks
    pub hay : regla < be32 s (p.stsc.p + 4)
    pub empieza : primero_de s p.stsc regla ≤ fragmento + 1

  pub data Vale (indice fragmento m regla offset : ℕ) : Type 0 where
    situado : Situado indice fragmento m regla offset → Vale indice fragmento m regla offset
    inicial : Inicial indice fragmento m regla → Vale indice fragmento m regla offset

  abbrev pub CursorVale : Cursor → Type 0
  CursorVale c = Vale c.indice c.fragmento c.muestra_fragmento c.regla_fragmento c.offset_muestra

  abbrev pub CursorSituado : Cursor → Type 0
  CursorSituado c =
      Situado c.indice c.fragmento c.muestra_fragmento c.regla_fragmento c.offset_muestra

  fragmento-lt : (c i : ℕ) → c ≤ chunks → H c ≤ i → i < p.muestras → c < chunks
  fragmento-lt c i h l k = elim (dec_eq c chunks) [
    | yes y ↦ absurd (omega (arith, ap H y, r.todas, l, k))
    | no n ↦ omega (arith, h, n)
  ]

  de_regla : (c : ℕ) → c < chunks → (j : ℕ) × Suya j c
  de_regla c h = regla-De s p.stsc chunks (be32-lt s (p.stco.p + 4) b) r.validas c r.algunas h

  pub en_fragmento-por : (i c : ℕ) → Suya i c → en_fragmento s p.stsc c ≡ por_fragmento s p.stsc i
  en_fragmento-por i c d =
      en_fragmento-De s p.stsc chunks (be32-lt s (p.stco.p + 4) b) r.validas i c d

  posicion-lt : (c : ℕ) → posicion_de s p c < 2 ^ 64
  posicion-lt c =
      si (λ x. x < 2 ^ 64) p.offsets_64 _ _ (λ e. be64-lt s (p.stco.p + 8 + c * 8) b)
        (λ e. omega (arith, be32-lt s (p.stco.p + 8 + c * 4) b))

  -- `ubicar` takes the cursor to the place of the same sample and leaves its times.
  pub record Ubicado (c d : Cursor) : Type 1 where
    pub a : ubicar s p c ≡ some d
    pub en_sitio : CursorSituado d
    pub mismo : d.indice ≡ c.indice
    pub deja :
        (P : ℕ → ℕ → ℕ → ℕ → Type 0)
        → P c.indice c.regla_tiempo c.restante_tiempo c.tiempo
        → P d.indice d.regla_tiempo d.restante_tiempo d.tiempo

  abbrev colocado : Cursor → Cursor
  colocado c = record c {
    offset_muestra = posicion_de s p c.fragmento;
    regla_fragmento = avanzar_regla s p.stsc (be32 s (p.stsc.p + 4)) c.regla_fragmento c.fragmento;
  }

  colocado_lem :
      (c : Cursor)
      → c.muestra_fragmento ≡ 0
      → c.fragmento < chunks
      → ubicar s p c ≡ some (colocado c)
  unfolding ubicar
  colocado_lem c h k =
      si (λ x. x ≡ some (colocado c)) (not (c.muestra_fragmento == 0)) _ _
        (λ e. absurd (ground (arith, e, h)))
        (λ e.
          si (λ x. x ≡ some (colocado c)) (not (ltb c.fragmento chunks)) _ _
            (λ g. absurd (ground (arith, g, k))) (λ g. refl))

  al_principio : (c : ℕ) → posicion_de s p c ≡ sitio_en s p c 0
  unfolding suma_tamanos
  al_principio c = omega (arith, posicion-lt c, posicion_de-en s p c)

  colocado-Situado :
      (c : Cursor)
      → Inicial c.indice c.fragmento c.muestra_fragmento c.regla_fragmento
      → c.fragmento < chunks
      → CursorSituado (colocado c)
  colocado-Situado c i h =
      let (j, d) = de_regla c.fragmento h in
      let e : avanzar_regla s p.stsc (be32 s (p.stsc.p + 4)) c.regla_fragmento c.fragmento ≡ j =
        avanzar_regla-De s p.stsc chunks (be32-lt s (p.stco.p + 4) b) r.validas
          (be32 s (p.stsc.p + 4)) c.regla_fragmento j c.fragmento d
          (De-le s p.stsc chunks (be32-lt s (p.stco.p + 4) b) r.validas j c.regla_fragmento
            c.fragmento d i.hay i.empieza)
          (omega (arith, d.0)) in
      record {
        lugar = i.lugar ∙ omega (arith, i.en_cero);
        suya = subst (λ x. Suya x c.fragmento) (sym e) d;
        queda = omega (arith, i.en_cero, (r.validas j d.0).con, ap (por_fragmento s p.stsc) e);
        ahi = al_principio c.fragmento ∙ ap (sitio_en s p c.fragmento) (sym i.en_cero);
      }

  ubicar-Inicial :
      (c : Cursor)
      → Inicial c.indice c.fragmento c.muestra_fragmento c.regla_fragmento
      → c.indice < p.muestras
      → (d : Cursor) × Ubicado c d
  ubicar-Inicial c i h =
      let k = fragmento-lt c.fragmento c.indice i.fragmentos (omega (arith, i.lugar)) h in
      (
        colocado c,
        record {
          a = colocado_lem c i.en_cero k;
          en_sitio = colocado-Situado c i k;
          mismo = refl;
          deja = λ P x. x;
        },
      )

  quieto : (c : Cursor) → (c.muestra_fragmento ≡ 0 → ⊥) → ubicar s p c ≡ some c
  unfolding ubicar
  quieto c h =
      si (λ x. x ≡ some c) (not (c.muestra_fragmento == 0)) _ _ (λ e. refl)
        (λ e. absurd (h (ground (arith, e))))

  Situado-Inicial :
      (c : Cursor)
      → CursorSituado c
      → c.muestra_fragmento ≡ 0
      → Inicial c.indice c.fragmento c.muestra_fragmento c.regla_fragmento
  Situado-Inicial c t e = record {
    lugar = t.lugar ∙ omega (arith, e);
    en_cero = e;
    fragmentos = omega (arith, t.suya.2, (r.validas c.regla_fragmento t.suya.0).cabe);
    hay = t.suya.0;
    empieza = t.suya.1;
  }

  -- While samples are left, a valid cursor finds its place.
  pub ubicar-Ubicado :
      (c : Cursor) → CursorVale c → c.indice < p.muestras → (d : Cursor) × Ubicado c d
  ubicar-Ubicado c (inicial i) h = ubicar-Inicial c i h
  ubicar-Ubicado c (situado t) h = elim (dec_eq c.muestra_fragmento 0) [
    | yes y ↦ ubicar-Inicial c (Situado-Inicial c t y) h
    | no n ↦ (c, record { a = quieto c n; en_sitio = t; mismo = refl; deja = λ P x. x })
  ]

  -- A cursor in its place is where its sample begins.
  pub Situado-Sitio : (c : Cursor) → CursorSituado c → Sitio s p c.indice c.offset_muestra
  unfolding hasta
  Situado-Sitio c t = record {
    chunk = c.fragmento;
    hay = omega (arith, t.suya.2, (r.validas c.regla_fragmento t.suya.0).cabe);
    desde = omega (arith, t.lugar);
    antes = omega (arith, t.lugar, t.queda, en_fragmento-por c.regla_fragmento c.fragmento t.suya);
    ahi = t.ahi ∙ ap (sitio_en s p c.fragmento) (omega (arith, t.lugar));
  }
