-- ===== src/Base/Split.antt =====
-- The bit operations on numbers made of a high and a low part.
use Prim.Native.Nat.{ℕ, zero, suc, ◌+◌, ◌*◌, ◌/◌, ◌%◌, ◌^◌, ◌<◌, max}
use Prim.Native.Nat.{bit_or, bit_xor, bit_or-bitwise, bit_xor-bitwise}
use mathlib.Core.Path.{◌≡◌, refl, sym, ap, ap₂, ◌∙◌}
use native.Mathlib.Nat.{mul_assoc, pow-suc}
use native.Mathlib.Omega.{arith}
use e_ssp.Base.Bits.{bit_or-zero, bit_xor_comm, bit_or_digit, bit_xor_digit}

times_double : (k a : ℕ) → a * 2 ^ suc k ≡ a * 2 ^ k * 2
times_double k a = ap (λ (t : ℕ). a * t) (pow-suc 2 k) ∙ sym (mul_assoc a (2 ^ k) 2)

one_times : (a : ℕ) → a * 2 ^ 0 + 0 ≡ a
one_times a = omega arith

-- An operation digit by digit keeps the digits above and below a place apart.
module _ (op g : ℕ → ℕ → ℕ) (none : op 0 0 ≡ 0)
    (digit : (a b : ℕ) → op a b ≡ op (a / 2) (b / 2) * 2 + g (a % 2) (b % 2)) where
  split_at :
      (k a b x y : ℕ)
      → x < 2 ^ k
      → y < 2 ^ k
      → op (a * 2 ^ k + x) (b * 2 ^ k + y) ≡ op a b * 2 ^ k + op x y
  split_at zero a b zero zero p q = ap₂ op (one_times a) (one_times b) ∙ omega (arith, none)
  split_at zero a b (suc x) y p q = absurd (omega arith)
  split_at zero a b x (suc y) p q = absurd (omega arith)
  split_at (suc k) a b x y p q =
      let ih =
        split_at k a b (x / 2) (y / 2) (omega (arith, pow-suc 2 k)) (omega (arith, pow-suc 2 k)) in
      let ha : (a * 2 ^ suc k + x) / 2 ≡ a * 2 ^ k + x / 2 = omega (arith, times_double k a) in
      let hb : (b * 2 ^ suc k + y) / 2 ≡ b * 2 ^ k + y / 2 = omega (arith, times_double k b) in
      let la : (a * 2 ^ suc k + x) % 2 ≡ x % 2 = omega (arith, times_double k a) in
      let lb : (b * 2 ^ suc k + y) % 2 ≡ y % 2 = omega (arith, times_double k b) in
      omega (
        arith,
        digit (a * 2 ^ suc k + x) (b * 2 ^ suc k + y),
        ap₂ op ha hb,
        ap₂ g la lb,
        ih,
        digit x y,
        times_double k (op a b),
      )

pub bit_xor_split :
    (k a b x y : ℕ)
    → x < 2 ^ k
    → y < 2 ^ k
    → bit_xor (a * 2 ^ k + x) (b * 2 ^ k + y) ≡ bit_xor a b * 2 ^ k + bit_xor x y
bit_xor_split = split_at bit_xor (λ a b. (a + b) % 2) refl bit_xor_digit

bit_or_split :
    (k a b x y : ℕ)
    → x < 2 ^ k
    → y < 2 ^ k
    → bit_or (a * 2 ^ k + x) (b * 2 ^ k + y) ≡ bit_or a b * 2 ^ k + bit_or x y
bit_or_split = split_at bit_or max refl bit_or_digit

pub zero-bit_xor : (a : ℕ) → bit_xor 0 a ≡ a
zero-bit_xor a = simp bit_xor-bitwise refl

zero-bit_or : (a : ℕ) → bit_or 0 a ≡ a
zero-bit_or a = simp bit_or-bitwise refl

low_part : (k x : ℕ) → 0 * 2 ^ k + x ≡ x
low_part k x = omega arith

high_part : (k a : ℕ) → a * 2 ^ k + 0 ≡ a * 2 ^ k
high_part k a = omega arith

-- Digits below a place, joined to a number that has none there.
pub bit_xor_join : (k a x : ℕ) → x < 2 ^ k → bit_xor (a * 2 ^ k) x ≡ a * 2 ^ k + x
bit_xor_join k a x h =
    ap₂ bit_xor (sym (high_part k a)) (sym (low_part k x))
    ∙ bit_xor_split k a 0 0 x (omega arith) h
    ∙ ap₂ (λ s t. s * 2 ^ k + t) (bit_xor_comm a 0 ∙ zero-bit_xor a) (zero-bit_xor x)

pub bit_or_join : (k a x : ℕ) → x < 2 ^ k → bit_or (a * 2 ^ k) x ≡ a * 2 ^ k + x
bit_or_join k a x h =
    ap₂ bit_or (sym (high_part k a)) (sym (low_part k x))
    ∙ bit_or_split k a 0 0 x (omega arith) h
    ∙ ap₂ (λ s t. s * 2 ^ k + t) (bit_or-zero a) (zero-bit_or x)
