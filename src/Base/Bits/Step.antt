-- ===== src/Base/Bits/Step.antt =====
-- One equation for the lowest binary digit of each bit operation: the native operations mean
-- `digits`, a recursion on binary digits with fuel, and the fuel is dropped here.
use Prim.Native.Nat.{ℕ, zero, suc, ◌+◌, ◌-◌, ◌*◌, ◌/◌, ◌%◌, ◌≤◌, ◌<◌, min, max}
use Prim.Native.Nat.{digits, bitwise, differ}
use Prim.Native.Nat.{bit_and, bit_or, bit_xor, bit_and-bitwise, bit_or-bitwise, bit_xor-bitwise}
use mathlib.Core.Path.{◌≡◌, refl, ap, ◌∙◌}
use native.Mathlib.Omega.{arith}

abbrev keep : ℕ → ℕ
keep y = y

abbrev drop : ℕ → ℕ
drop y = 0

module _ (z : ℕ → ℕ) (f : ℕ → ℕ → ℕ) where
  -- Fuel for as many rounds as the first operand is large is enough.
  one_round_more : (n a b : ℕ) → a ≤ n → digits z f (suc n) a b ≡ digits z f n a b
  one_round_more zero zero b enough = refl
  one_round_more zero (suc a) b enough = absurd (omega arith)
  one_round_more (suc n) zero b enough = refl
  one_round_more (suc n) (suc a) b enough =
      rw (one_round_more n (suc a / 2) (b / 2) (omega arith)) refl

  rounds_more : (k n a b : ℕ) → a ≤ n → digits z f (k + n) a b ≡ digits z f n a b
  rounds_more zero n a b enough = ap (λ m. digits z f m a b) {x = 0 + n} {y = n} (omega arith)
  rounds_more (suc k) n a b enough =
      ap (λ m. digits z f m a b) {x = suc k + n} {y = suc (k + n)} (omega arith)
      ∙ one_round_more (k + n) a b (omega arith)
      ∙ rounds_more k n a b enough

  bitwise_lowest :
      (a b : ℕ)
      → f (suc a % 2) (b % 2) + 2 * bitwise z f (suc a / 2) (b / 2) ≡ bitwise z f (suc a) b
  bitwise_lowest a b =
      let half = suc a / 2 in
      let spare : (a - half) + half ≡ a = omega arith in
      omega (
        arith,
        ap (λ n. digits z f n half (b / 2)) spare,
        rounds_more (a - half) half half (b / 2) (omega arith),
      )

pub min-bit_and : (x y : ℕ) → min (x % 2) (y % 2) + 2 * bit_and (x / 2) (y / 2) ≡ bit_and x y
min-bit_and zero y = simp bit_and-bitwise (omega arith)
min-bit_and (suc x) y = simp bit_and-bitwise (bitwise_lowest drop min x y)

pub max-bit_or : (x y : ℕ) → max (x % 2) (y % 2) + 2 * bit_or (x / 2) (y / 2) ≡ bit_or x y
max-bit_or zero y = simp bit_or-bitwise (omega arith)
max-bit_or (suc x) y = simp bit_or-bitwise (bitwise_lowest keep max x y)

differ-zero : (y : ℕ) → differ 0 y ≡ y
differ-zero y = refl

pub differ-bit_xor : (x y : ℕ) → differ (x % 2) (y % 2) + 2 * bit_xor (x / 2) (y / 2) ≡ bit_xor x y
differ-bit_xor zero y = simp bit_xor-bitwise (omega (arith, differ-zero (y % 2)))
differ-bit_xor (suc x) y = simp bit_xor-bitwise (bitwise_lowest keep differ x y)

-- The exclusive or of two binary digits, as arithmetic.
pub differ-digits : (x y : ℕ) → x < 2 → y < 2 → differ x y ≡ (x + y) % 2
differ-digits zero y p q = omega arith
differ-digits (suc zero) zero p q = omega arith
differ-digits (suc zero) (suc zero) p q = omega arith
differ-digits (suc zero) (suc (suc y)) p q = absurd (omega arith)
differ-digits (suc (suc x)) y p q = absurd (omega arith)

pub bit_xor_digit : (a b : ℕ) → bit_xor a b ≡ bit_xor (a / 2) (b / 2) * 2 + (a % 2 + b % 2) % 2
bit_xor_digit a b =
    omega (arith, differ-bit_xor a b, differ-digits (a % 2) (b % 2) (omega arith) (omega arith))
