-- ===== src/Base/Bits.antt =====
-- Laws of the bit operations at variables, by induction on the binary digits.
mod Step
use Step.{min-bit_and, max-bit_or}
pub use Step.{bit_xor_digit}
use Prim.Native.Nat.{ℕ, zero, suc, ◌+◌, ◌-◌, ◌*◌, ◌/◌, ◌%◌, ◌^◌, ◌≤◌, ◌<◌}
use Prim.Native.Nat.{bit_and, bit_or, bit_xor, max}
use mathlib.Core.Path.{◌≡◌, refl, sym, ap, ap₂, ◌∙◌}
use native.Mathlib.Nat.{div-div-eq-div-mul, mul_assoc, pow-succ', pow-suc, one-le-pow, le_refl}
use native.Mathlib.Omega.{arith}

-- Induction that halves a number until it is 0.
halving : (P : ℕ → Type 0) → P 0 → ((a : ℕ) → P (suc a / 2) → P (suc a)) → (a : ℕ) → P a
halving P base step a = below (suc a) a (omega arith)
  where
    below : (n b : ℕ) → b < n → P b
    below zero b h = absurd (omega arith)
    below (suc n) zero h = base
    below (suc n) (suc b) h = step b (below n (suc b / 2) (omega arith))

bit_and-zero : (a : ℕ) → bit_and a 0 ≡ 0
bit_and-zero = halving (λ a. bit_and a 0 ≡ 0) refl λ a ih. omega (arith, min-bit_and (suc a) 0, ih)

pub bit_or-zero : (a : ℕ) → bit_or a 0 ≡ a
bit_or-zero = halving (λ a. bit_or a 0 ≡ a) refl λ a ih. omega (arith, max-bit_or (suc a) 0, ih)

-- Setting the bit above all the bits of a number.
bit_or_above : (k x : ℕ) → x < 2 ^ k → bit_or x (2 ^ k) ≡ x + 2 ^ k
bit_or_above zero x h = let z : x ≡ 0 = omega arith in rw z
bit_or_above (suc k) x h =
    let double = pow-suc 2 k in
    let half : 2 ^ suc k / 2 ≡ 2 ^ k = omega (arith, double) in
    let ih = bit_or_above k (x / 2) (omega (arith, double)) in
    omega (arith, max-bit_or x (2 ^ suc k), double, ap (bit_or (x / 2)) half, ih)

pub bit_or_high : (x : ℕ) → x < 128 → bit_or x 0x80 ≡ x + 128
bit_or_high x h = bit_or_above 7 x h

pub bit_and_low_one : (a : ℕ) → bit_and a 1 ≡ a % 2
bit_and_low_one a = omega (arith, min-bit_and a 1, bit_and-zero (a / 2))

-- A mask with one more digit, set or clear.
bit_and_digit : (a m v : ℕ) → bit_and (a / 2) m ≡ v → bit_and a (suc (m * 2)) ≡ v * 2 + a % 2
bit_and_digit a m v e =
    let half : suc (m * 2) / 2 ≡ m = omega arith in
    omega (arith, min-bit_and a (suc (m * 2)), ap (bit_and (a / 2)) half, e)

bit_and_gap : (a m v : ℕ) → bit_and (a / 2) m ≡ v → bit_and a (m * 2) ≡ v * 2
bit_and_gap a m v e =
    let half : m * 2 / 2 ≡ m = omega arith in
    omega (arith, min-bit_and a (m * 2), ap (bit_and (a / 2)) half, e)

-- The masks of ones are remainders.
bit_and_ones2 : (a : ℕ) → bit_and a 3 ≡ a % 4
bit_and_ones2 a = bit_and_digit a 1 _ (bit_and_low_one (a / 2)) ∙ omega arith

bit_and_ones3 : (a : ℕ) → bit_and a 7 ≡ a % 8
bit_and_ones3 a = bit_and_digit a 3 _ (bit_and_ones2 (a / 2)) ∙ omega arith

bit_and_ones4 : (a : ℕ) → bit_and a 0x0f ≡ a % 16
bit_and_ones4 a = bit_and_digit a 7 _ (bit_and_ones3 (a / 2)) ∙ omega arith

bit_and_ones5 : (a : ℕ) → bit_and a 0x1f ≡ a % 32
bit_and_ones5 a = bit_and_digit a 0x0f _ (bit_and_ones4 (a / 2)) ∙ omega arith

bit_and_ones6 : (a : ℕ) → bit_and a 0x3f ≡ a % 64
bit_and_ones6 a = bit_and_digit a 0x1f _ (bit_and_ones5 (a / 2)) ∙ omega arith

pub bit_and_seven : (a : ℕ) → bit_and a 0x7f ≡ a % 128
bit_and_seven a = bit_and_digit a 0x3f _ (bit_and_ones6 (a / 2)) ∙ omega arith

pub bit_and_byte : (a : ℕ) → bit_and a 0xff ≡ a % 256
bit_and_byte a = bit_and_digit a 0x7f _ (bit_and_seven (a / 2)) ∙ omega arith

-- A mask of one digit.
pub bit_and_power : (k a : ℕ) → bit_and a (2 ^ k) ≡ a / 2 ^ k % 2 * 2 ^ k
bit_and_power zero a = omega (arith, bit_and_low_one a)
bit_and_power (suc k) a =
    let double : 2 ^ suc k ≡ 2 ^ k * 2 = omega (arith, pow-suc 2 k) in
    let digit : a / 2 / 2 ^ k % 2 ≡ a / 2 ^ suc k % 2 =
      ap (λ (t : ℕ). t % 2)
        (div-div-eq-div-mul a 2 (2 ^ k) ∙ ap (λ (t : ℕ). a / t) (sym (pow-succ' 2 k))) in
    ap (bit_and a) double
    ∙ bit_and_gap a (2 ^ k) _ (bit_and_power k (a / 2))
    ∙ mul_assoc (a / 2 / 2 ^ k % 2) (2 ^ k) 2
    ∙ ap₂ (λ (t u : ℕ). t * u) digit (sym double)

-- The top bit of a 16-bit word.
pub bit_and_top : (a : ℕ) → bit_and a 0x8000 ≡ a / 32768 % 2 * 32768
bit_and_top a = bit_and_power 15 a

bit_xor_undo_fuel : (n a b : ℕ) → a + b ≤ n → bit_xor (bit_xor a b) b ≡ a
bit_xor_undo_fuel n zero zero h = refl
bit_xor_undo_fuel zero a b h =
    let za : a ≡ 0 = omega arith in let zb : b ≡ 0 = omega arith in rw (za, zb)
bit_xor_undo_fuel (suc n) a b h =
    ground
      (arith, bit_xor_digit (bit_xor a b) b, bit_xor_digit a b, bit_xor_undo_fuel n (a / 2) (b / 2))

-- Exclusive or with the same word twice changes nothing.
pub bit_xor_undo : (a b : ℕ) → bit_xor (bit_xor a b) b ≡ a
bit_xor_undo a b = bit_xor_undo_fuel (a + b) a b (le_refl _)

pub bit_xor_cancel : (a b c : ℕ) → bit_xor a c ≡ bit_xor b c → a ≡ b
bit_xor_cancel a b c e = sym (bit_xor_undo a c) ∙ ap (λ x. bit_xor x c) e ∙ bit_xor_undo b c

pub bit_xor-lt : (k a b : ℕ) → a < 2 ^ k → b < 2 ^ k → bit_xor a b < 2 ^ k
bit_xor-lt zero a b p q =
    let za : a ≡ 0 = omega arith in let zb : b ≡ 0 = omega arith in rw (za, zb) (omega arith)
bit_xor-lt (suc k) a b p q = omega (
  arith,
  bit_xor_digit a b,
  pow-suc 2 k,
  bit_xor-lt k (a / 2) (b / 2) (omega (arith, pow-suc 2 k)) (omega (arith, pow-suc 2 k)),
)

pub bit_xor_parity : (a b : ℕ) → bit_xor a b % 2 ≡ (a + b) % 2
bit_xor_parity a b = omega (arith, bit_xor_digit a b)

bit_xor_comm_fuel : (n a b : ℕ) → a + b ≤ n → bit_xor a b ≡ bit_xor b a
bit_xor_comm_fuel n zero zero h = refl
bit_xor_comm_fuel zero a b h =
    let za : a ≡ 0 = omega arith in let zb : b ≡ 0 = omega arith in rw (za, zb)
bit_xor_comm_fuel (suc n) a b h =
    ground (arith, bit_xor_digit a b, bit_xor_digit b a, bit_xor_comm_fuel n (a / 2) (b / 2))

pub bit_xor_comm : (a b : ℕ) → bit_xor a b ≡ bit_xor b a
bit_xor_comm a b = bit_xor_comm_fuel (a + b) a b (le_refl _)

pub bit_xor_cancel_left : (a b c : ℕ) → bit_xor c a ≡ bit_xor c b → a ≡ b
bit_xor_cancel_left a b c e = bit_xor_cancel a b c (bit_xor_comm a c ∙ e ∙ bit_xor_comm c b)

pub bit_or_digit : (a b : ℕ) → bit_or a b ≡ bit_or (a / 2) (b / 2) * 2 + max (a % 2) (b % 2)
bit_or_digit a b = omega (arith, max-bit_or a b)

bit_xor_half : (a b : ℕ) → bit_xor a b / 2 ≡ bit_xor (a / 2) (b / 2)
bit_xor_half a b = omega (arith, bit_xor_digit a b)

bit_xor_assoc_fuel :
    (n a b c : ℕ) → a + b + c ≤ n → bit_xor (bit_xor a b) c ≡ bit_xor a (bit_xor b c)
bit_xor_assoc_fuel zero a b c h =
    let za : a ≡ 0 = omega arith in
    let zb : b ≡ 0 = omega arith in let zc : c ≡ 0 = omega arith in rw (za, zb, zc) refl
bit_xor_assoc_fuel (suc n) a b c h =
    let ih = bit_xor_assoc_fuel n (a / 2) (b / 2) (c / 2) (omega arith) in
    omega (
      arith,
      bit_xor_digit (bit_xor a b) c,
      bit_xor_digit a (bit_xor b c),
      ap (λ t. bit_xor t (c / 2)) (bit_xor_half a b),
      ap (bit_xor (a / 2)) (bit_xor_half b c),
      ih,
      bit_xor_parity a b,
      bit_xor_parity b c,
    )

pub bit_xor_assoc : (a b c : ℕ) → bit_xor (bit_xor a b) c ≡ bit_xor a (bit_xor b c)
bit_xor_assoc a b c = bit_xor_assoc_fuel (a + b + c) a b c (le_refl _)

-- Two exclusive ors, pair by pair.
pub bit_xor_interchange :
    (a b c d : ℕ) → bit_xor (bit_xor a b) (bit_xor c d) ≡ bit_xor (bit_xor a c) (bit_xor b d)
bit_xor_interchange a b c d =
    bit_xor_assoc a b (bit_xor c d)
    ∙ ap (bit_xor a)
        (sym (bit_xor_assoc b c d) ∙ ap (λ t. bit_xor t d) (bit_xor_comm b c) ∙ bit_xor_assoc c b d)
    ∙ sym (bit_xor_assoc a c (bit_xor b d))
