-- ===== src/Prelude/Bits.antt =====
-- The bits of a machine word: how `&`, `|` and the masks `1 << k` and `~(1 << k)` act on each bit.
use Prim.Native.Nat.{
  ℕ, zero, suc, ◌+◌, ◌-◌, ◌*◌, ◌/◌, ◌%◌, ◌^◌, ◌≤◌, ◌<◌, min, max, bit_and, bit_or, digits,
  bit_and-bitwise, bit_or-bitwise,
}
use mathlib.Core.Path.{◌≡◌, refl, sym, ◌∙◌, ap, subst}
use native.Mathlib.Omega.{arith}
use native.Mathlib.Nat.{pow-suc, one-le-pow, zero-add, suc-add, div-div-eq-div-mul}
use taek_os.Prelude.Tests.{◌==◌, if◌then◌else◌}

-- The native operations run through the digits on a count of rounds, of which any number that is
-- enough gives the same result. `rest` is what is left of the second word past the first one's end.
module _ (rest : ℕ → ℕ) (op : ℕ → ℕ → ℕ) where
  rounds_irrelevant : (a b n k : ℕ) → a ≤ n → digits rest op (n + k) a b ≡ digits rest op n a b
  rounds_irrelevant zero b zero zero h = refl
  rounds_irrelevant zero b zero (suc k) h = rw zero-add
  rounds_irrelevant zero b (suc n) k h = rw suc-add
  rounds_irrelevant (suc a) b zero k h = absurd (omega arith)
  rounds_irrelevant (suc a) b (suc n) k h = rw suc-add (
      ap (λ t. t * 2 + op (suc a % 2) (b % 2))
        (rounds_irrelevant (suc a / 2) (b / 2) n k (omega arith)))

  -- The lowest digit of the result, where the rest agrees with the operation at 0.
  lowest_digit :
      ((b : ℕ) → rest b ≡ rest (b / 2) * 2 + op 0 (b % 2))
      → (a b : ℕ)
      → digits rest op a a b ≡ digits rest op (a / 2) (a / 2) (b / 2) * 2 + op (a % 2) (b % 2)
  lowest_digit agrees zero b = agrees b
  lowest_digit agrees (suc a) b =
      let k = a - suc a / 2 in
      let half : suc a / 2 + k ≡ a = omega arith in
      ap (λ t. t * 2 + op (suc a % 2) (b % 2))
        (subst
          (λ n.
            digits rest op n (suc a / 2) (b / 2) ≡ digits rest op (suc a / 2) (suc a / 2) (b / 2))
          half (rounds_irrelevant (suc a / 2) (b / 2) (suc a / 2) k (omega arith)))

and_lowest : (a b : ℕ) → bit_and a b ≡ bit_and (a / 2) (b / 2) * 2 + min (a % 2) (b % 2)
and_lowest a b =
    rw (bit_and-bitwise a b, bit_and-bitwise (a / 2) (b / 2))
      (lowest_digit (λ _. 0) min (λ c. omega arith) a b)

or_lowest : (a b : ℕ) → bit_or a b ≡ bit_or (a / 2) (b / 2) * 2 + max (a % 2) (b % 2)
or_lowest a b =
    rw (bit_or-bitwise a b, bit_or-bitwise (a / 2) (b / 2))
      (lowest_digit (λ c. c) max (λ c. omega arith) a b)

-- Nothing is left of a word under an empty mask.
and_empty : (n a : ℕ) → a ≤ n → bit_and a 0 ≡ 0
and_empty n zero h = bit_and-bitwise 0 0
and_empty zero (suc a) h = absurd (omega arith)
and_empty (suc n) (suc a) h = omega (arith, and_lowest (suc a) 0, and_empty n (suc a / 2))

pub zero-bit_and : (b : ℕ) → bit_and 0 b ≡ 0
zero-bit_and b = bit_and-bitwise 0 b

-- Bit `j` of `a`, 0 or 1, by recursion on `j`.
abbrev pub bit : ℕ → ℕ → ℕ
bit a zero = a % 2
bit a (suc j) = bit (a / 2) j

pub bit-le_one : (a j : ℕ) → bit a j ≤ 1
bit-le_one a zero = omega arith
bit-le_one a (suc j) = bit-le_one (a / 2) j

pub bit-zero : (j : ℕ) → bit 0 j ≡ 0
bit-zero zero = refl
bit-zero (suc j) = bit-zero j

pub bit-bit_and : (a b j : ℕ) → bit (bit_and a b) j ≡ min (bit a j) (bit b j)
bit-bit_and a b zero = omega (arith, and_lowest a b)
bit-bit_and a b (suc j) =
    let e : bit_and a b / 2 ≡ bit_and (a / 2) (b / 2) = omega (arith, and_lowest a b) in
    ap (λ x. bit x j) e ∙ bit-bit_and (a / 2) (b / 2) j

pub bit-bit_or : (a b j : ℕ) → bit (bit_or a b) j ≡ max (bit a j) (bit b j)
bit-bit_or a b zero = omega (arith, or_lowest a b)
bit-bit_or a b (suc j) =
    let e : bit_or a b / 2 ≡ bit_or (a / 2) (b / 2) = omega (arith, or_lowest a b) in
    ap (λ x. bit x j) e ∙ bit-bit_or (a / 2) (b / 2) j

-- The mask `1 << k` has one bit.
pub bit-pow : (k j : ℕ) → bit (2 ^ k) j ≡ (if k == j then 1 else 0)
bit-pow zero zero = refl
bit-pow zero (suc j) = ground (arith, bit-zero j)
bit-pow (suc k) zero = ground (arith, pow-suc 2 k)
bit-pow (suc k) (suc j) =
    let e : 2 ^ suc k / 2 ≡ 2 ^ k = omega (arith, pow-suc 2 k) in
    ap (λ x. bit x j) e ∙ ground (arith, bit-pow k j)

pub bit_ones : (n j : ℕ) → j < n → bit (2 ^ n - 1) j ≡ 1
bit_ones zero j h = absurd (omega arith)
bit_ones (suc n) zero h = omega (arith, pow-suc 2 n, one-le-pow n 2)
bit_ones (suc n) (suc j) h =
    let e : (2 ^ suc n - 1) / 2 ≡ 2 ^ n - 1 = omega (arith, pow-suc 2 n, one-le-pow n 2) in
    ap (λ x. bit x j) e ∙ bit_ones n j (omega arith)

pow-lt-pow : (n k : ℕ) → k < n → 2 ^ k * 2 ≤ 2 ^ n
pow-lt-pow zero k h = absurd (omega arith)
pow-lt-pow (suc n) zero h = omega (arith, pow-suc 2 n, one-le-pow n 2)
pow-lt-pow (suc n) (suc k) h = omega (arith, pow-suc 2 n, pow-suc 2 k, pow-lt-pow n k (omega arith))

-- The mask `~(1 << k)` of a word of `n` bits has all the bits below `n` but one.
pub bit-not_pow :
    (n k j : ℕ) → k < n → j < n → bit (2 ^ n - 1 - 2 ^ k) j ≡ (if k == j then 0 else 1)
bit-not_pow zero k j hk hj = absurd (omega arith)
bit-not_pow (suc n) zero zero hk hj = ground (arith, pow-suc 2 n, one-le-pow n 2)
bit-not_pow (suc n) zero (suc j) hk hj =
    let e : (2 ^ suc n - 1 - 2 ^ 0) / 2 ≡ 2 ^ n - 1 = omega (arith, pow-suc 2 n, one-le-pow n 2) in
    ap (λ x. bit x j) e ∙ ground (arith, bit_ones n j (omega arith))
bit-not_pow (suc n) (suc k) zero hk hj =
    let e : (2 ^ suc n - 1 - 2 ^ suc k) % 2 ≡ 1 =
      omega (arith, pow-suc 2 n, pow-suc 2 k, pow-lt-pow n k (omega arith), one-le-pow k 2) in
    let f : 1 ≡ (if suc k == 0 then 0 else 1) = ground arith in e ∙ f
bit-not_pow (suc n) (suc k) (suc j) hk hj =
    let e : (2 ^ suc n - 1 - 2 ^ suc k) / 2 ≡ 2 ^ n - 1 - 2 ^ k =
      omega (arith, pow-suc 2 n, pow-suc 2 k, pow-lt-pow n k (omega arith)) in
    ap (λ x. bit x j) e ∙ ground (arith, bit-not_pow n k j (omega arith) (omega arith))

-- `w & (1 << k)`, as a number: it is zero exactly when bit `k` is.
pub bit_and-pow : (w k : ℕ) → bit_and w (2 ^ k) ≡ bit w k * 2 ^ k
bit_and-pow w zero = omega (arith, and_lowest w 1, and_empty (w / 2) (w / 2))
bit_and-pow w (suc k) =
    let e : 2 ^ suc k / 2 ≡ 2 ^ k = omega (arith, pow-suc 2 k) in
    let m : 2 ^ suc k % 2 ≡ 0 = omega (arith, pow-suc 2 k) in
    grind
      (arith, and_lowest w (2 ^ suc k), ap (bit_and (w / 2)) e, bit_and-pow (w / 2) k, pow-suc 2 k)

-- The number that the lowest `n` bits make.
pub low : ℕ → ℕ → ℕ
low zero w = 0
low (suc n) w = low n (w / 2) * 2 + w % 2

-- `w & ((1 << n) - 1)` keeps the lowest `n` bits.
pub bit_and-ones : (n w : ℕ) → bit_and w (2 ^ n - 1) ≡ low n w
unfolding low
bit_and-ones zero w = and_empty w w (omega arith)
bit_and-ones (suc n) w =
    let e : (2 ^ suc n - 1) / 2 ≡ 2 ^ n - 1 = omega (arith, pow-suc 2 n, one-le-pow n 2) in
    let h : bit_and (w / 2) ((2 ^ suc n - 1) / 2) ≡ low n (w / 2) =
      ap (bit_and (w / 2)) e ∙ bit_and-ones n (w / 2) in
    omega (arith, and_lowest w (2 ^ suc n - 1), h, pow-suc 2 n, one-le-pow n 2)

pub low-mod : (n w : ℕ) → (q : ℕ) × (low n w < 2 ^ n) × (w ≡ low n w + q * 2 ^ n)
unfolding low
low-mod zero w = (w, omega arith, omega arith)
low-mod (suc n) w =
    let (q, small, e) = low-mod n (w / 2) in
    (
      q,
      omega (arith, small, pow-suc 2 n),
      omega (arith, ap (λ (t : ℕ). t * 2) e, ap (λ (t : ℕ). q * t) (pow-suc 2 n)),
    )

-- `w & 0xfff` is the offset in the page.
pub bit_and-page : (w : ℕ) → bit_and w 0xfff ≡ w % 4096
bit_and-page w = let (q, small, e) = low-mod 12 w in omega (arith, bit_and-ones 12 w, small, e)

or_empty : (n b : ℕ) → b ≤ n → bit_or 0 b ≡ b
or_empty n zero h = refl
or_empty zero (suc b) h = absurd (omega arith)
or_empty (suc n) (suc b) h =
    omega (arith, or_lowest 0 (suc b), or_empty n (suc b / 2) (omega (arith, h)))

-- A word below `2 ^ k` and one shifted left by `k` share no bit.
pub bit_or-shift : (k a b : ℕ) → a < 2 ^ k → bit_or a (b * 2 ^ k) ≡ a + b * 2 ^ k
bit_or-shift zero a b h =
    let e : a ≡ 0 = omega (arith, h) in rw e (omega (arith, or_empty (b * 1) (b * 1) (omega arith)))
bit_or-shift (suc k) a b h =
    let p : b * 2 ^ suc k ≡ b * 2 ^ k * 2 = omega (arith, ap (λ (t : ℕ). b * t) (pow-suc 2 k)) in
    let e : b * 2 ^ suc k / 2 ≡ b * 2 ^ k = omega (arith, p) in
    let r : bit_or (a / 2) (b * 2 ^ suc k / 2) ≡ a / 2 + b * 2 ^ k =
      ap (bit_or (a / 2)) e ∙ bit_or-shift k (a / 2) b (omega (arith, h, pow-suc 2 k)) in
    omega (arith, or_lowest a (b * 2 ^ suc k), r, p)

-- A mask whose lowest `k` bits are clear.
pub bit_and-shift : (k a m : ℕ) → bit_and a (m * 2 ^ k) ≡ bit_and (a / 2 ^ k) m * 2 ^ k
bit_and-shift zero a m =
    let e : m * 2 ^ 0 ≡ m = omega arith in
    let f : a / 2 ^ 0 ≡ a = omega arith in rw e (rw f (omega arith))
bit_and-shift (suc k) a m =
    let p : m * 2 ^ suc k ≡ m * 2 ^ k * 2 = omega (arith, ap (λ (t : ℕ). m * t) (pow-suc 2 k)) in
    let e : m * 2 ^ suc k / 2 ≡ m * 2 ^ k = omega (arith, p) in
    let r : bit_and (a / 2) (m * 2 ^ suc k / 2) ≡ bit_and (a / 2 / 2 ^ k) m * 2 ^ k =
      ap (bit_and (a / 2)) e ∙ bit_and-shift k (a / 2) m in
    let f : a / 2 ^ suc k ≡ a / 2 / 2 ^ k =
      ap (λ (t : ℕ). a / t) (omega (arith, pow-suc 2 k)) ∙ sym (div-div-eq-div-mul a 2 (2 ^ k)) in
    let x = bit_and (a / 2 / 2 ^ k) m in
    let g : x * 2 ^ suc k ≡ x * 2 ^ k * 2 = omega (arith, ap (λ (t : ℕ). x * t) (pow-suc 2 k)) in
    let lados : bit_and a (m * 2 ^ suc k) ≡ x * 2 ^ suc k =
      omega (arith, and_lowest a (m * 2 ^ suc k), r, p, g) in
    lados ∙ ap (λ (t : ℕ). bit_and t m * 2 ^ suc k) (sym f)

or_none : (n b : ℕ) → b ≤ n → bit_or b 0 ≡ b
or_none n zero h = refl
or_none zero (suc b) h = absurd (omega arith)
or_none (suc n) (suc b) h =
    omega (arith, or_lowest (suc b) 0, or_none n (suc b / 2) (omega (arith, h)))

-- The same with the shifted word first.
pub shift-bit_or : (k a b : ℕ) → a < 2 ^ k → bit_or (b * 2 ^ k) a ≡ b * 2 ^ k + a
shift-bit_or zero a b h =
    let e : a ≡ 0 = omega (arith, h) in rw e (omega (arith, or_none (b * 1) (b * 1) (omega arith)))
shift-bit_or (suc k) a b h =
    let p : b * 2 ^ suc k ≡ b * 2 ^ k * 2 = omega (arith, ap (λ (t : ℕ). b * t) (pow-suc 2 k)) in
    let e : b * 2 ^ suc k / 2 ≡ b * 2 ^ k = omega (arith, p) in
    let r : bit_or (b * 2 ^ suc k / 2) (a / 2) ≡ b * 2 ^ k + a / 2 =
      ap (λ (t : ℕ). bit_or t (a / 2)) e
      ∙ shift-bit_or k (a / 2) b (omega (arith, h, pow-suc 2 k)) in
    omega (arith, or_lowest (b * 2 ^ suc k) a, r, p)
