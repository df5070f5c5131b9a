-- ===== src/Mp4/Vista.antt =====
-- Views of the file's bytes and the boxes in them, in nucleo/controladores/multimedia/mp4/mp4.c.
use taek_os.Prelude.{
  ℕ, zero, suc, ◌+◌, ◌-◌, ◌*◌, ◌/◌, ◌^◌, Bool, not, ◌&&◌, ◌||◌, List, ◌==◌, ltb, if◌then◌else◌,
  get_or,
}

-- `p` is a position in the bytes, `n` how many there are from it.
pub record Vista : Type 0 where
  pub p : ℕ
  pub n : ℕ

abbrev pub nula : Vista
nula = record { p = 0; n = 0 }

abbrev pub be16 : List ℕ → ℕ → ℕ
be16 s i = get_or s i 0 * 2 ^ 8 + get_or s (i + 1) 0

unfoldable pub be32 : List ℕ → ℕ → ℕ
be32 s i = be16 s i * 2 ^ 16 + be16 s (i + 2)

unfoldable pub be64 : List ℕ → ℕ → ℕ
be64 s i = be32 s i * 2 ^ 32 + be32 s (i + 4)

-- `TIPO`
abbrev pub tipo_de : ℕ → ℕ → ℕ → ℕ → ℕ
tipo_de a b c d = a * 2 ^ 24 + b * 2 ^ 16 + c * 2 ^ 8 + d

-- What `caja` returns, 0, -1 or 1, with what it writes: the type, the contents and the rest of the container.
pub data Caja : Type 0 where
  acabada rota : Caja
  una : ℕ → Vista → Vista → Caja

-- The size that the header gives, and the header's own.
abbrev pub tamano_caja : List ℕ → Vista → ℕ
tamano_caja s v =
    let n = be32 s v.p in if n == 1 then be64 s (v.p + 8) else if n == 0 then v.n else n

abbrev pub cabecera_caja : List ℕ → Vista → ℕ
cabecera_caja s v = if be32 s v.p == 1 then 16 else 8

abbrev pub contenido_caja : List ℕ → Vista → Vista
contenido_caja s v = record { p = v.p + cabecera_caja s v; n = tamano_caja s v - cabecera_caja s v }

abbrev pub tras_caja : List ℕ → Vista → Vista
tras_caja s v = record { p = v.p + tamano_caja s v; n = v.n - tamano_caja s v }

unfoldable pub caja : List ℕ → Vista → Caja
caja s v =
    if v.n == 0
    then acabada
    else if ltb v.n 8
    then rota
    else if be32 s v.p == 1 && ltb v.n 16
    then rota
    else if ltb (tamano_caja s v) (cabecera_caja s v) || ltb v.n (tamano_caja s v)
    then rota
    else una (be32 s (v.p + 4)) (contenido_caja s v) (tras_caja s v)

-- What `buscar` returns, 0, -1 or 1 with the box.
pub data Hallado : Type 0 where
  ninguna mala : Hallado
  hallada : Vista → Hallado

abbrev pub si_es : ℕ → Caja → (Vista → Hallado) → Hallado
si_es tipo acabada sigue = ninguna
si_es tipo rota sigue = mala
si_es tipo (una t v resto) sigue = if t == tipo then hallada v else sigue resto

unfoldable pub buscar_desde : List ℕ → ℕ → Vista → ℕ → Hallado
buscar_desde s zero v tipo = ninguna
buscar_desde s (suc f) v tipo = si_es tipo (caja s v) (λ resto. buscar_desde s f resto tipo)

-- A box takes up a byte at least, so there is fuel for all that fit.
unfoldable pub buscar : List ℕ → Vista → ℕ → Hallado
buscar s padre tipo = buscar_desde s padre.n padre tipo

-- Is the view a table of version 0 with an entry, and all of its entries of `paso` bytes in it?
unfoldable pub tabla : List ℕ → Vista → ℕ → Bool
tabla s v paso =
    not (ltb v.n 8)
    && get_or s v.p 0 == 0
    && not (be32 s (v.p + 4) == 0)
    && not (ltb ((v.n - 8) / paso) (be32 s (v.p + 4)))
