-- ===== src/Mp4/Reparto.antt =====
-- The rules of `stsc` that mp4.c accepts share out the samples of a track.
use taek_os.Prelude.{
  ℕ, zero, suc, ◌+◌, ◌-◌, ◌^◌, ◌≤◌, ◌<◌, Bool, true, false, ◌&&◌, List, [], ◌∷◌, ◌≡◌, refl, sym, ap,
  subst, ltb, leb, si, get_or, arith,
}
use native.Mathlib.Decide.{dec_le, dec_lt, ℕ_discrete as dec_eq}
use taek_os.Mp4.Vista.{Vista, be32}
use taek_os.Mp4.Pista.{primero_de, por_fragmento, siguiente_de, regla_mala}
use taek_os.Mp4.Cursor.{avanzar_regla}

-- Are the elements bytes?
unfoldable pub son_bytes : List ℕ → Bool
son_bytes [] = true
son_bytes (b ∷ s) = ltb b 256 && son_bytes s

byte : (s : List ℕ) (i : ℕ) → son_bytes s ≡ true → get_or s i 0 < 256
unfolding son_bytes
byte [] i h = omega arith
byte (b ∷ s) zero h = ground (arith, h)
byte (b ∷ s) (suc i) h = byte s i (ground (arith, h))

pub be32-lt : (s : List ℕ) (i : ℕ) → son_bytes s ≡ true → be32 s i < 2 ^ 32
unfolding be32
be32-lt s i h = omega (arith, byte s i h, byte s (i + 1) h, byte s (i + 2) h, byte s (i + 2 + 1) h)

-- A rule that is accepted: it has chunks, from its first to the next rule's, and samples.
pub record ReglaIsValida (s : List ℕ) (stsc : Vista) (chunks reglas i : ℕ) : Type 0 where
  pub uno : i ≡ 0 → primero_de s stsc i ≡ 1
  pub positivo : 0 < primero_de s stsc i
  pub sube : primero_de s stsc i < siguiente_de s stsc chunks reglas i
  pub cabe : siguiente_de s stsc chunks reglas i ≤ chunks + 1
  pub con : 0 < por_fragmento s stsc i

pub valida :
    (s : List ℕ) (stsc : Vista) (chunks reglas i : ℕ)
    → regla_mala s stsc chunks reglas i ≡ false
    → ReglaIsValida s stsc chunks reglas i
valida s stsc chunks reglas i h = record {
  uno = λ e. ground (arith, h, e);
  positivo = ground (arith, h);
  sube = ground (arith, h);
  cabe = ground (arith, h);
  con = ground (arith, h);
}

-- The rules of the view, of `chunks` chunks.
module _ (s : List ℕ) (stsc : Vista) (chunks : ℕ) (acotados : chunks < 2 ^ 32) where
  abbrev pub reglas : ℕ
  reglas = be32 s (stsc.p + 4)

  abbrev pub Validas : Type 0
  Validas = (i : ℕ) → i < reglas → ReglaIsValida s stsc chunks reglas i

  abbrev P : ℕ → ℕ
  P i = primero_de s stsc i

  abbrev S : ℕ → ℕ
  S i = siguiente_de s stsc chunks reglas i

  pub S-suc : (i : ℕ) → i + 1 < reglas → S i ≡ P (i + 1)
  S-suc i h =
      si (λ x. x ≡ P (i + 1)) (ltb (i + 1) reglas) _ _ (λ e. refl)
        (λ e. absurd (ground (arith, e, h)))

  pub S_ultima : (i : ℕ) → reglas ≤ i + 1 → 0 < S i → S i ≡ chunks + 1
  S_ultima i h =
      si (λ x. 0 < x → x ≡ chunks + 1) (ltb (i + 1) reglas) _ _ (λ e. absurd (ground (arith, e, h)))
        (λ e p. omega (arith, acotados, p))

  -- The chunk `c`, from 0 on, is one of rule `i`.
  abbrev pub De : ℕ → ℕ → Type 0
  De i c = (i < reglas) × (P i ≤ c + 1) × (c + 1 < S i)

  module _ (v : Validas) where
    P_mono : (j i d : ℕ) → i ≡ j + d → i < reglas → P j ≤ P i
    P_mono j i zero e h = ap_le (ap P (omega (arith, e)))
      where
        ap_le : {x y : ℕ} → x ≡ y → x ≤ y
        ap_le e = omega (arith, e)
    P_mono j i (suc d) e h =
        let k = j + d in
        let m = v k (omega (arith, e, h)) in
        let n : P (k + 1) ≡ P i = ap P (omega (arith, e)) in
        omega
          (arith, P_mono j k d refl (omega (arith, e, h)), m.sube, S-suc k (omega (arith, e, h)), n)

    -- A rule that begins at the chunk or before is not after the chunk's.
    pub De-le : (i r c : ℕ) → De i c → r < reglas → P r ≤ c + 1 → r ≤ i
    De-le i r c d h k = elim (dec_le r i) [
      | yes y ↦ y
      | no n ↦ absurd (
          omega (
            arith,
            d.2,
            S-suc i (omega (arith, n, h)),
            P_mono (i + 1) r (r - (i + 1)) (omega (arith, n)) h,
            k,
          ))
    ]

    pasada : (r c : ℕ) → De r c → (ltb (r + 1) reglas && leb (P (r + 1)) (c + 1)) ≡ true → ⊥
    pasada r c d e =
        fuera (ltb (r + 1) reglas) (leb (P (r + 1)) (c + 1)) e
          (λ a b. omega (arith, d.2, S-suc r (ground (arith, a)), menor _ _ b))
      where
        fuera : (a b : Bool) → (a && b) ≡ true → (a ≡ true → b ≡ true → ⊥) → ⊥
        fuera true b e q = q refl e
        fuera false b e q = cc

        menor : (x y : ℕ) → leb x y ≡ true → x ≤ y
        menor x y h = ground (arith, h)

    -- The search finds the chunk's rule from any one before it.
    pub avanzar_regla-De :
        (f r i c : ℕ) → De i c → r ≤ i → i ≤ r + f → avanzar_regla s stsc f r c ≡ i
    unfolding avanzar_regla
    avanzar_regla-De zero r i c d h k = omega (arith, h, k)
    avanzar_regla-De (suc f) r i c d h k = elim (dec_eq r i) [
      | yes y ↦
          si (λ x. x ≡ i) (ltb (r + 1) reglas && leb (P (r + 1)) (c + 1)) _ _
            (λ e. absurd (pasada r c (subst (λ j. De j c) (sym y) d) e)) (λ e. y)
      | no n ↦
          si (λ x. x ≡ i) (ltb (r + 1) reglas && leb (P (r + 1)) (c + 1)) _ _
            (λ e. avanzar_regla-De f (r + 1) i c d (omega (arith, h, n)) (omega (arith, k)))
            (λ e. absurd (
              ground (
                arith,
                e,
                d.0,
                d.1,
                P_mono (r + 1) i (i - (r + 1)) (omega (arith, h, n)) d.0,
                h,
                n,
              )))
    ]

    -- Every chunk has a rule.
    regla_desde : (k i c : ℕ) → i + k ≡ reglas → 0 < k → P i ≤ c + 1 → c < chunks → (j : ℕ) × De j c
    regla_desde zero i c e p h q = absurd (omega (arith, p))
    regla_desde (suc k) i c e p h q = elim (dec_lt (c + 1) (S i)) [
      | yes y ↦ (i, (omega (arith, e), h, y))
      | no n ↦ elim (dec_eq k 0) [
        | yes z ↦ absurd (
            omega (
              arith,
              n,
              S_ultima i (omega (arith, e, z)) (omega (arith, (v i (omega (arith, e))).sube)),
              q,
            ))
        | no z ↦
            regla_desde k (i + 1) c (omega (arith, e)) (omega (arith, z))
              (omega (arith, n, S-suc i (omega (arith, e, z)))) q
      ]
    ]

    pub regla-De : (c : ℕ) → 0 < reglas → c < chunks → (j : ℕ) × De j c
    regla-De c p q = regla_desde reglas 0 c (omega arith) p (omega (arith, (v 0 p).uno refl)) q
