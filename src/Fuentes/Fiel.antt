-- ===== src/Fuentes/Fiel.antt =====
-- What a source of the player, a function of type `mp4_lectura_posicional` in mp4.h, promises of a file.
use taek_os.Prelude.{
  ℕ, zero, suc, ◌+◌, ◌-◌, ◌≤◌, ◌<◌, min, Option, none, some, List, [], ◌∷◌, ◌++◌, ◌≡◌, refl, ap,
  ap₂, ◌∙◌, take, drop, length, arith,
}
use taek_os.Mp4.Fuente.{Leido, leidos, corta, negativa, Lectura}

-- The `n` bytes of a file from position `o` on; a file is its bytes by their positions.
unfoldable pub tramo : (ℕ → ℕ) → ℕ → ℕ → List ℕ
tramo archivo o zero = []
tramo archivo o (suc n) = archivo o ∷ tramo archivo (o + 1) n

suma : (m n : ℕ) → suc (m + n) ≡ suc m + n
suma m n = omega arith

module _ (archivo : ℕ → ℕ) where
  pub tramo_vacio : (o n : ℕ) → n ≡ 0 → [] ≡ tramo archivo o n
  unfolding tramo
  tramo_vacio o zero h = refl
  tramo_vacio o (suc n) h = absurd (omega (arith, h))

  pub length-tramo : (o n : ℕ) → length (tramo archivo o n) ≡ n
  unfolding tramo
  length-tramo o zero = refl
  length-tramo o (suc n) = ap suc (length-tramo (o + 1) n)

  pub tramo-append :
      (o m n : ℕ) → tramo archivo o m ++ tramo archivo (o + m) n ≡ tramo archivo o (m + n)
  unfolding tramo
  tramo-append o zero n = ap₂ (tramo archivo) (omega arith) (omega arith)
  tramo-append o (suc m) n =
      ap (λ x. archivo o ∷ (tramo archivo (o + 1) m ++ tramo archivo x n)) (omega arith)
      ∙ (ap (λ l. archivo o ∷ l) (tramo-append (o + 1) m n) ∙ ap (tramo archivo o) (suma m n))

  pub take-tramo : (o m n : ℕ) → m ≤ n → take m (tramo archivo o n) ≡ tramo archivo o m
  unfolding tramo
  take-tramo o zero n h = refl
  take-tramo o (suc m) zero h = absurd (omega (arith, h))
  take-tramo o (suc m) (suc n) h =
      ap (λ l. archivo o ∷ l) (take-tramo (o + 1) m n (omega (arith, h)))

  pub drop-tramo : (o m n : ℕ) → m ≤ n → drop m (tramo archivo o n) ≡ tramo archivo (o + m) (n - m)
  unfolding tramo
  drop-tramo o zero n h = ap₂ (tramo archivo) (omega arith) (omega arith)
  drop-tramo o (suc m) zero h = absurd (omega (arith, h))
  drop-tramo o (suc m) (suc n) h =
      drop-tramo (o + 1) m n (omega (arith, h)) ∙ ap₂ (tramo archivo) (omega arith) (omega arith)

  -- A part of a part: the bytes at `pos` of the `v` from `o` on, `n` of them or as many as there are.
  pub tramo_de_tramo :
      (o v pos n k : ℕ) (datos : List ℕ)
      → datos ≡ tramo archivo o v
      → o ≤ pos
      → pos < o + v
      → k ≡ min (v - (pos - o)) n
      → take k (drop (pos - o) datos) ≡ tramo archivo pos k
  tramo_de_tramo o v pos n k datos b h i e =
      ap (λ l. take k (drop (pos - o) l)) b
      ∙ (ap (take k) (drop-tramo o (pos - o) v (omega (arith, i)))
          ∙ (take-tramo (o + (pos - o)) k (v - (pos - o)) (omega (arith, e))
              ∙ ap (λ x. tramo archivo x k) (omega (arith, h))))

-- What a read of `n` bytes at `o` may give: the bytes of the file, or a failure where `F` holds.
abbrev pub Trae : Type 0 → (ℕ → ℕ) → ℕ → ℕ → Leido → Type 0
Trae F archivo o n (leidos s) = s ≡ tramo archivo o n
Trae F archivo o n corta = F
Trae F archivo o n (negativa r) = F

-- A source whose states satisfy `Vale` reads a file of `tamano` bytes, and fails where `F` holds only: with `F` false
-- it never fails.
pub record IsFiel {W : Type 0} (F : Type 0) (archivo : ℕ → ℕ) (tamano : ℕ) (Vale : W → Type 0)
    (leer : Lectura W) : Type 0 where
  pub sigue : (w : W) (pista o n : ℕ) → o + n ≤ tamano → Vale w → Vale (leer w pista o n).1
  pub trae :
      (w : W) (pista o n : ℕ) → o + n ≤ tamano → Vale w → Trae F archivo o n (leer w pista o n).0

-- The callback `validar`, if there is one: none for zero, or how far below zero its result is.
abbrev pub Aviso : Type 0 → Type 0
Aviso W = Option (W → Option ℕ × W)

abbrev pub avisar : {W : Type 0} → Aviso W → W → Option ℕ × W
avisar none w = (none, w)
avisar (some validar) w = validar w

-- What comes of a callback: nothing, or a failure where `F` holds.
abbrev pub Avisa : Type 0 → Option ℕ → Type 0
Avisa F none = Unit {0}
Avisa F (some r) = F

pub record IsDiscreto {W : Type 0} (F : Type 0) (Vale : W → Type 0) (validar : Aviso W)
    : Type 0 where
  pub sigue : (w : W) → Vale w → Vale (avisar validar w).1
  pub avisa : (w : W) → Vale w → Avisa F (avisar validar w).0

-- The bytes of a read in parts.
abbrev pub juntar : {S : Type 0} → List ℕ → Leido × S → Leido × S
juntar s (leidos t, c) = (leidos (s ++ t), c)
juntar s (r, c) = (r, c)

pub juntar-Trae :
    {S : Type 0} (F : Type 0) (archivo : ℕ → ℕ) (o m n : ℕ) (s : List ℕ) (r : Leido × S)
    → s ≡ tramo archivo o m
    → Trae F archivo (o + m) n r.0
    → Trae F archivo o (m + n) (juntar s r).0
juntar-Trae F archivo o m n s (leidos t, c) e h =
    ap (λ x. x ++ t) e ∙ ap (λ x. tramo archivo o m ++ x) h ∙ tramo-append archivo o m n
juntar-Trae F archivo o m n s (corta, c) e h = h
juntar-Trae F archivo o m n s (negativa r, c) e h = h

pub juntar_estado :
    {S : Type 0} (P : S → Type 0) (s : List ℕ) (r : Leido × S) → P r.1 → P (juntar s r).1
juntar_estado P s (leidos t, c) h = h
juntar_estado P s (corta, c) h = h
juntar_estado P s (negativa r, c) h = h

-- The file itself as a source.
abbrev pub directa : (ℕ → ℕ) → Lectura (Unit {0})
directa archivo w pista o n = (leidos (tramo archivo o n), w)

abbrev pub Cualquiera : Unit {0} → Type 0
Cualquiera w = Unit {0}

pub directa-IsFiel :
    (F : Type 0) (archivo : ℕ → ℕ) (tamano : ℕ)
    → IsFiel F archivo tamano Cualquiera (directa archivo)
directa-IsFiel F archivo tamano = record { sigue = λ w p o n h v. tt; trae = λ w p o n h v. refl }

-- No callback does no harm.
pub ninguno-IsDiscreto : {W : Type 0} (F : Type 0) (Vale : W → Type 0) → IsDiscreto F Vale none
ninguno-IsDiscreto F Vale = record { sigue = λ w v. v; avisa = λ w v. tt }
