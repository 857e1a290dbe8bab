-- ===== src/Common/Bits.antt =====
-- Laws of `&` and `|` at variables, from the digit recursion that the native operations stand for.
use Prim.Native.Nat.{
  ℕ, zero, suc, ◌+◌, ◌-◌, ◌*◌, ◌/◌, ◌%◌, ◌≤◌, ◌<◌, min, max, digits, bitwise, bit_and, bit_or,
  bit_and-bitwise, bit_or-bitwise,
}
use mathlib.Core.Path.{◌≡◌, refl, ap, ◌∙◌}
use native.Mathlib.Nat.{le_refl}
use native.Mathlib.Omega.{arith}

-- With as much fuel as the number is large, one unit more gives the same digits, and so does any
-- number of them.
module _ (rest : ℕ → ℕ) (digit : ℕ → ℕ → ℕ) where
  one_more :
      (fuel m k : ℕ) → m ≤ fuel → digits rest digit (suc fuel) m k ≡ digits rest digit fuel m k
  one_more zero zero k h = refl
  one_more (suc fuel) zero k h = refl
  one_more zero (suc m) k h = absurd (omega arith)
  one_more (suc fuel) (suc m) k h =
      ap (λ r. r * 2 + digit (suc m % 2) (k % 2)) (one_more fuel (suc m / 2) (k / 2) (omega arith))

  any_more :
      (more fuel m k : ℕ) → fuel ≡ more + m → digits rest digit fuel m k ≡ digits rest digit m m k
  any_more zero fuel m k h = let e : fuel ≡ m = omega arith in rw e
  any_more (suc more) fuel m k h =
      let e : fuel ≡ suc (more + m) = omega arith in
      rw e (one_more (more + m) m k (omega arith) ∙ any_more more (more + m) m k refl)

  last_digit :
      (m k : ℕ)
      → bitwise rest digit (suc m) k
        ≡ bitwise rest digit (suc m / 2) (k / 2) * 2 + digit (suc m % 2) (k % 2)
  last_digit m k =
      ap (λ r. r * 2 + digit (suc m % 2) (k % 2))
        (any_more (m - suc m / 2) m (suc m / 2) (k / 2) (omega arith))

bit_or_step : (m k : ℕ) → bit_or m k ≡ bit_or (m / 2) (k / 2) * 2 + max (m % 2) (k % 2)
bit_or_step (suc m) k = rw (bit_or-bitwise, bit_or-bitwise) (last_digit (λ r. r) max m k)
bit_or_step zero k = simp bit_or-bitwise (omega arith)

bit_and_step : (m k : ℕ) → bit_and m k ≡ bit_and (m / 2) (k / 2) * 2 + min (m % 2) (k % 2)
bit_and_step (suc m) k = rw (bit_and-bitwise, bit_and-bitwise) (last_digit (λ _. 0) min m k)
bit_and_step zero k = simp bit_and-bitwise (omega arith)

-- One digit, under a mask that ends in a one and over a number that ends in a zero.
bit_and_odd : (a b c m : ℕ) → a / 2 ≡ c → b ≡ m * 2 + 1 → bit_and a b ≡ bit_and c m * 2 + a % 2
bit_and_odd a b c m p q =
    let e : b / 2 ≡ m = omega arith in omega (arith, rw (p, e) at (bit_and_step a b))

bit_or_even : (a b c d : ℕ) → a ≡ c * 2 → b / 2 ≡ d → bit_or a b ≡ bit_or c d * 2 + b % 2
bit_or_even a b c d p q =
    let e : a / 2 ≡ c = omega arith in omega (arith, rw (e, q) at (bit_or_step a b))

-- Four digits.
bit_and-nibble :
    (a b c m : ℕ) → a / 16 ≡ c → b ≡ m * 16 + 15 → bit_and a b ≡ bit_and c m * 16 + a % 16
bit_and-nibble a b c m p q = omega (
  arith,
  bit_and_odd a b (a / 2) (m * 8 + 7) (omega arith) (omega arith),
  bit_and_odd (a / 2) (m * 8 + 7) (a / 4) (m * 4 + 3) (omega arith) (omega arith),
  bit_and_odd (a / 4) (m * 4 + 3) (a / 8) (m * 2 + 1) (omega arith) (omega arith),
  bit_and_odd (a / 8) (m * 2 + 1) c m (omega arith) (omega arith),
)

bit_or-nibble : (a b c d : ℕ) → a ≡ c * 16 → b / 16 ≡ d → bit_or a b ≡ bit_or c d * 16 + b % 16
bit_or-nibble a b c d p q = omega (
  arith,
  bit_or_even a b (c * 8) (b / 2) (omega arith) (omega arith),
  bit_or_even (c * 8) (b / 2) (c * 4) (b / 4) (omega arith) (omega arith),
  bit_or_even (c * 4) (b / 4) (c * 2) (b / 8) (omega arith) (omega arith),
  bit_or_even (c * 2) (b / 8) c d (omega arith) (omega arith),
)

-- A zero beside the number.
module _ (k : ℕ) where
  and_nothing : (m : ℕ) → m ≤ k → bit_and m 0 ≡ 0
  and_nothing m h = go k m h
    where
      go : (fuel m : ℕ) → m ≤ fuel → bit_and m 0 ≡ 0
      go (suc fuel) (suc m) h =
          omega (arith, go fuel (suc m / 2) (omega arith), bit_and_step (suc m) 0)
      go zero (suc m) h = absurd (omega arith)
      go _ zero h = refl

  or_nothing : (m : ℕ) → m ≤ k → bit_or m 0 ≡ m
  or_nothing m h = go k m h
    where
      go : (fuel m : ℕ) → m ≤ fuel → bit_or m 0 ≡ m
      go (suc fuel) (suc m) h =
          omega (arith, go fuel (suc m / 2) (omega arith), bit_or_step (suc m) 0)
      go zero (suc m) h = absurd (omega arith)
      go _ zero h = refl

-- The mask 0xffff keeps the low half of a number.
pub bit_and-low_half : (a : ℕ) → bit_and a 0xffff ≡ a % 65536
bit_and-low_half a = omega (
  arith,
  bit_and-nibble a 0xffff (a / 16) 0xfff (omega arith) (omega arith),
  bit_and-nibble (a / 16) 0xfff (a / 256) 0xff (omega arith) (omega arith),
  bit_and-nibble (a / 256) 0xff (a / 4096) 0xf (omega arith) (omega arith),
  bit_and-nibble (a / 4096) 0xf (a / 65536) 0 (omega arith) (omega arith),
  and_nothing (a / 65536) (a / 65536) (le_refl _),
)

-- Halves that do not overlap are added.
pub bit_or-halves : (a b : ℕ) → b < 65536 → bit_or (a * 65536) b ≡ a * 65536 + b
bit_or-halves a b h = omega (
  arith,
  bit_or-nibble (a * 65536) b (a * 4096) (b / 16) (omega arith) (omega arith),
  bit_or-nibble (a * 4096) (b / 16) (a * 256) (b / 256) (omega arith) (omega arith),
  bit_or-nibble (a * 256) (b / 256) (a * 16) (b / 4096) (omega arith) (omega arith),
  bit_or-nibble (a * 16) (b / 4096) a 0 (omega arith) (omega arith),
  or_nothing a a (le_refl _),
)
