-- ===== src/Particiones/Tabla.antt =====
-- The partitions that nucleo/controladores/particiones.c finds lie in the disk and do not meet.
use taek_os.Prelude.{
  ℕ, ◌+◌, ◌%◌, ◌^◌, ◌≤◌, ◌<◌, ◌≡◌, ◌⊎◌, inl, inr, refl, sym, ap, subst, Bool, true, false, ◌&&◌,
  ◌||◌, List, [], ◌∷◌, ◌++◌, ◌==◌, ltb, if◌then◌else◌, length, length-append, map, arith,
}
use taek_os.Particiones.Usb.{VolumenResultado, corrupto, no_soportado, Res, listo, fallo}
use taek_os.Particiones.Leer.{Particion}
use taek_os.Particiones.Defs.{Particiones, no_entra, con_entrada, solapa, agregar}

abbrev pub rango : Particion → ℕ × ℕ
rango p = (p.inicio, p.sectores)

-- No range of the list meets the `n` sectors from `a` on.
abbrev pub Libre : List (ℕ × ℕ) → ℕ → ℕ → Type 0
Libre [] a n = Unit {0}
Libre (r ∷ l) a n = ((r.0 + r.1 ≤ a) ⊎ (a + n ≤ r.0)) × Libre l a n

-- The ranges lie in the first `total` sectors, and no two of them meet.
abbrev pub Tabla : ℕ → List (ℕ × ℕ) → Type 0
Tabla total [] = Unit {0}
Tabla total (r ∷ l) = (r.0 + r.1 ≤ total) × Libre l r.0 r.1 × Tabla total l

abbrev pub IsTabla : ℕ → Particiones → Type 0
IsTabla total out = Tabla total (map rango out.entradas) × (length out.entradas ≤ 128)

Libre-append :
    (l : List (ℕ × ℕ)) (r : ℕ × ℕ) (a n : ℕ)
    → Libre l a n
    → ((r.0 + r.1 ≤ a) ⊎ (a + n ≤ r.0))
    → Libre (l ++ r ∷ []) a n
Libre-append [] r a n h k = (k, tt)
Libre-append (x ∷ l) r a n h k = (h.0, Libre-append l r a n h.1 k)

cambiar : (a b c d : ℕ) → (a + b ≤ c) ⊎ (c + d ≤ a) → (c + d ≤ a) ⊎ (a + b ≤ c)
cambiar a b c d (inl h) = inr h
cambiar a b c d (inr h) = inl h

Tabla-append :
    (total : ℕ) (l : List (ℕ × ℕ)) (a n : ℕ)
    → Tabla total l
    → Libre l a n
    → a + n ≤ total
    → Tabla total (l ++ (a, n) ∷ [])
Tabla-append total [] a n h k m = (m, tt, tt)
Tabla-append total (r ∷ l) a n h k m = (
  h.0,
  Libre-append l (a, n) r.0 r.1 h.1 (cambiar r.0 r.1 a n k.0),
  Tabla-append total l a n h.2 k.1 m,
)

or_false : (a b : Bool) → (a || b) ≡ false → (a ≡ false) × (b ≡ false)
or_false true b h = ground (arith, h)
or_false false b h = (refl, h)

-- What the code tests is that no range of the list meets the new one.
separados :
    (a b c d : ℕ)
    → a + b < 2 ^ 64
    → c + d < 2 ^ 64
    → (ltb c ((a + b) % 2 ^ 64) && ltb a ((c + d) % 2 ^ 64)) ≡ false
    → (a + b ≤ c) ⊎ (c + d ≤ a)
separados a b c d h k e = ground (arith, h, k, e)

solapa-Libre :
    (total : ℕ) (ps : List Particion) (a n : ℕ)
    → total < 2 ^ 64
    → Tabla total (map rango ps)
    → a + n ≤ total
    → solapa ps a n ≡ false
    → Libre (map rango ps) a n
unfolding solapa
solapa-Libre total [] a n t h m e = tt
solapa-Libre total (p ∷ ps) a n t h m e =
    let q = or_false _ (solapa ps a n) e in
    (
      separados p.inicio p.sectores a n (omega (arith, t, h.0)) (omega (arith, t, m)) q.0,
      solapa-Libre total ps a n t h.2 m q.1,
    )

map-append :
    (ps : List Particion) (p : Particion) → map rango (ps ++ p ∷ []) ≡ map rango ps ++ rango p ∷ []
map-append [] p = refl
map-append (q ∷ ps) p = ap (λ l. rango q ∷ l) (map-append ps p)

-- What an addition leaves, when it succeeds.
abbrev pub CumpleRes : {A : Type 0} → (A → Type 0) → Res A → Type 0
CumpleRes P (listo a) = P a
CumpleRes P (fallo e) = Unit {0}

pub si_res :
    {A : Type 0} (P : A → Type 0) (b : Bool) (r : Res A) (e : VolumenResultado)
    → (b ≡ false → CumpleRes P r)
    → CumpleRes P (if b then fallo e else r)
si_res P true r e h = tt
si_res P false r e h = h refl

-- A partition added keeps the table: it lies in the disk and meets none of the others.
pub agregar-IsTabla :
    (out : Particiones) (disco : Particion) (inicio n num esquema : ℕ)
    → disco.sectores < 2 ^ 64
    → IsTabla disco.sectores out
    → CumpleRes (IsTabla disco.sectores) (agregar out disco inicio n num esquema)
unfolding agregar
agregar-IsTabla out disco inicio n num esquema t h =
    let P = IsTabla disco.sectores in
    let nueva = listo (con_entrada out disco inicio n num esquema) in
    let sin_choque = if solapa out.entradas inicio n then fallo corrupto else nueva in
    let con_sitio = if length out.entradas == 128 then fallo no_soportado else sin_choque in
    si_res P (no_entra disco inicio n) con_sitio corrupto (λ fuera.
      si_res P (length out.entradas == 128) sin_choque no_soportado (λ lleno.
        si_res P (solapa out.entradas inicio n) nueva corrupto (λ libre.
          let cabe : inicio + n ≤ disco.sectores = ground (arith, fuera) in
          let p = record disco { inicio = inicio; sectores = n; numero = num; esquema = esquema } in
          (
            subst (Tabla disco.sectores) (sym (map-append out.entradas p)) (
                Tabla-append disco.sectores (map rango out.entradas) inicio n h.0
                  (solapa-Libre disco.sectores out.entradas inicio n t h.0 cabe libre) cabe),
            ground (arith, lleno, h.1, length-append out.entradas (p ∷ [])),
          ))))
