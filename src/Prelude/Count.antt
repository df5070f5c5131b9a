-- ===== src/Prelude/Count.antt =====
-- Ranges of indices, and how many indices below a bound pass a test.
use Prim.Native.Nat.{ℕ, zero, suc, ◌+◌, ◌-◌, ◌≤◌, ◌<◌, min}
use mathlib.Core.Path.{◌≡◌, refl}
use mathlib.Core.Bool.{Bool, true, false, ◌&&◌}
use native.Mathlib.Omega.{arith}
use taek_os.Prelude.Tests.{leb, ltb, if◌then◌else◌}

-- Is `j` one of the `n` indices from `i` on?
abbrev pub en_rango : ℕ → ℕ → ℕ → Bool
en_rango i n j = leb i j && ltb j (i + n)

-- How many indices below `n` pass the test.
pub count : (ℕ → Bool) → ℕ → ℕ
count f zero = 0
count f (suc n) = (if f n then 1 else 0) + count f n

pub count-le : (f : ℕ → Bool) (n : ℕ) → count f n ≤ n
unfolding count
count-le f zero = omega arith
count-le f (suc n) = ground (arith, count-le f n)

pub count_eq : (f g : ℕ → Bool) (n : ℕ) → ((j : ℕ) → j < n → f j ≡ g j) → count f n ≡ count g n
unfolding count
count_eq f g zero h = refl
count_eq f g (suc n) h =
    ground (arith, count_eq f g n (λ j p. h j (omega arith)), h n (omega arith))

-- Setting a clear range of `p` indices adds the part of it below the bound to the count.
pub count_set :
    (f g : ℕ → Bool) (i p n : ℕ)
    → ((j : ℕ) → g j ≡ (if en_rango i p j then true else f j))
    → ((j : ℕ) → i ≤ j → j < i + p → f j ≡ false)
    → count g n ≡ count f n + min p (n - i)
unfolding count
count_set f g i p zero hg hf = omega arith
count_set f g i p (suc n) hg hf = ground (arith, count_set f g i p n hg hf, hg n, hf n)

-- Clearing a set range of `p` indices takes the part of it below the bound from the count.
pub count_clear :
    (f g : ℕ → Bool) (i p n : ℕ)
    → ((j : ℕ) → g j ≡ (if en_rango i p j then false else f j))
    → ((j : ℕ) → i ≤ j → j < i + p → f j ≡ true)
    → count f n ≡ count g n + min p (n - i)
unfolding count
count_clear f g i p zero hg hf = omega arith
count_clear f g i p (suc n) hg hf = ground (arith, count_clear f g i p n hg hf, hg n, hf n)

pub count_none : (f : ℕ → Bool) (n : ℕ) → ((j : ℕ) → j < n → f j ≡ false) → count f n ≡ 0
unfolding count
count_none f zero h = refl
count_none f (suc n) h =
    ground (arith, h n (omega arith), count_none f n (λ j p. h j (omega arith)))
