-- ===== src/Negotiation/Power.antt =====
-- `XpowYmodN` is the power, where no product leaves the range of a `long long`.
use e_ssp.Base.{
  ℕ, zero, suc, ◌+◌, ◌-◌, ◌*◌, ◌/◌, ◌%◌, ◌^◌, ◌≤◌, ◌<◌, bit_and, bit_and_power, u64, ◌==◌, not,
  true, false, ok, ◌>>=◌, ◌≡◌, refl, sym, ap, ap₂, ◌∙◌, arith, lt→ltb, Bool-cases, inl, inr, ==_iff,
}
use native.Mathlib.Nat.{
  pow-suc, pow-succ', one-le-pow, mul-lt-mul_of_pos_right, pow-zero, mul_assoc, mul_comm, mul-one,
  mod-add-div, add-mul, add-mul-mod_self_left, mul-le-mul, mod-lt, mod-eq_of_lt,
}
use native.Mathlib.Decide.{dec_lt}
use e_ssp.Negotiation.Long.{pos, signed, long_times, long_remainder}
use e_ssp.Negotiation.Random.{power_round, power_loop, x_pow_y_mod_n}

signed_pos : (n : ℕ) → signed false n ≡ pos n
signed_pos zero = refl
signed_pos (suc n) = refl

long_times-pos : (a b : ℕ) → a * b < 2 ^ 63 → long_times (pos a) (pos b) ≡ ok (pos (a * b))
unfolding long_times
long_times-pos a b h = rw (signed_pos (a * b), lt→ltb (a * b) (2 ^ 63) h) refl

long_remainder-pos : (a n : ℕ) → 0 < n → long_remainder (pos a) n ≡ ok (pos (a % n))
unfolding long_remainder
long_remainder-pos a n h = rw (not_zero n h, signed_pos (a % n)) refl
  where
    not_zero : (n : ℕ) → 0 < n → not (n == 0) ≡ true
    not_zero n h = ground arith

mod_times : (a b n : ℕ) → a % n * b % n ≡ a * b % n
mod_times a b n =
    let whole : a * b ≡ a % n * b + n * (a / n * b) =
      ap (λ (t : ℕ). t * b) (sym (mod-add-div a n))
      ∙ add-mul (a % n) (n * (a / n)) b
      ∙ ap (λ (t : ℕ). a % n * b + t) (mul_assoc n (a / n) b) in
    sym (ap (λ (t : ℕ). t % n) whole ∙ add-mul-mod_self_left (a % n * b) n (a / n * b))

pub mod_times_mod : (a b n : ℕ) → a % n * (b % n) % n ≡ a * b % n
mod_times_mod a b n =
    mod_times a (b % n) n
    ∙ ap (λ (t : ℕ). t % n) (mul_comm a (b % n))
    ∙ mod_times b a n
    ∙ ap (λ (t : ℕ). t % n) (mul_comm b a)

pub pow_add : (x a b : ℕ) → x ^ (a + b) ≡ x ^ a * x ^ b
pow_add x a zero =
    ap (λ t. x ^ t) {x = a + 0} {y = a} (omega arith)
    ∙ sym (ap (λ (t : ℕ). x ^ a * t) (pow-zero x) ∙ mul-one (x ^ a))
pow_add x a (suc b) =
    ap (λ t. x ^ t) {x = a + suc b} {y = suc (a + b)} (omega arith)
    ∙ pow-suc x (a + b)
    ∙ ap (λ (t : ℕ). t * x) (pow_add x a b)
    ∙ mul_assoc (x ^ a) (x ^ b) x
    ∙ ap (λ (t : ℕ). x ^ a * t) (sym (pow-suc x b))

pow_double : (x h : ℕ) → x ^ (h * 2) ≡ x ^ h * x ^ h
pow_double x h = ap (λ t. x ^ t) {x = h * 2} {y = h + h} (omega arith) ∙ pow_add x h h

low_bit : (y : ℕ) → y < 2 ^ 63 → bit_and y (2 ^ 63) ≡ 0
low_bit y h = omega (arith, bit_and_power 63 y)

high_bit : (y : ℕ) → y < 2 ^ 63 → bit_and (2 ^ 63 + y) (2 ^ 63) ≡ 2 ^ 63
high_bit y h = omega (arith, bit_and_power 63 (2 ^ 63 + y))

-- The places of a word of 64 bits, of which the top one is treated next.
place_bound : (i j q : ℕ) → i + j ≡ 63 → q < 2 ^ i → q * 2 ^ j < 2 ^ 63
place_bound i j q e small =
    let positive : 0 < 2 ^ j = one-le-pow j 2 (omega arith) in
    let bound : q * 2 ^ j < 2 ^ i * 2 ^ j = mul-lt-mul_of_pos_right small positive in
    let top : 2 ^ i * 2 ^ j ≡ 2 ^ 63 = sym (pow_add 2 i j) ∙ ap (λ t. 2 ^ t) e in
    omega (arith, bound, top)

next_place : (j q : ℕ) → q * 2 ^ j < 2 ^ 63 → u64 (q * 2 ^ j * 2) ≡ q * 2 ^ suc j
next_place j q h = omega arith ∙ mul_assoc q (2 ^ j) 2 ∙ ap (λ (t : ℕ). q * t) (sym (pow-suc 2 j))

top_place : (i j q : ℕ) → i + j ≡ 63 → (2 ^ i + q) * 2 ^ j ≡ 2 ^ 63 + q * 2 ^ j
top_place i j q e =
    add-mul (2 ^ i) q (2 ^ j)
    ∙ ap (λ (t : ℕ). t + q * 2 ^ j) (sym (pow_add 2 i j) ∙ ap (λ t. 2 ^ t) e)

drop_top : (y : ℕ) → u64 ((2 ^ 63 + y) * 2) ≡ u64 (y * 2)
drop_top y = omega arith

double_place : (h i : ℕ) → h * 2 * 2 ^ i ≡ h * 2 ^ suc i
double_place h i = mul_assoc h 2 (2 ^ i) ∙ ap (λ (t : ℕ). h * t) (sym (pow-succ' 2 i))

module _ (x n : ℕ) (positive : 0 < n) (square_fits : n * n < 2 ^ 63)
    (product_fits : n * x < 2 ^ 63) where
  remainder_times : (a b c : ℕ) → b ≤ c → n * c < 2 ^ 63 → a % n * b < 2 ^ 63
  remainder_times a b c h fit =
      let below = mod-lt a positive in
      let room : a % n * b ≤ n * c = mul-le-mul (omega arith) h in omega arith

  -- The square, reduced.
  squared : (h : ℕ) → x ^ h % n * (x ^ h % n) % n ≡ x ^ (h * 2) % n
  squared h = mod_times_mod (x ^ h) (x ^ h) n ∙ ap (λ (t : ℕ). t % n) (sym (pow_double x h))

  square_product :
      (h : ℕ) → long_times (pos (x ^ h % n)) (pos (x ^ h % n)) ≡ ok (pos (x ^ h % n * (x ^ h % n)))
  square_product h =
      let below = mod-lt (x ^ h) positive in
      long_times-pos (x ^ h % n) (x ^ h % n)
        (remainder_times (x ^ h) (x ^ h % n) n (omega arith) square_fits)

  square_rest :
      (h : ℕ) → long_remainder (pos (x ^ h % n * (x ^ h % n))) n ≡ ok (pos (x ^ (h * 2) % n))
  square_rest h =
      long_remainder-pos (x ^ h % n * (x ^ h % n)) n positive ∙ ap (λ t. ok (pos t)) (squared h)

  multiply_step :
      (h : ℕ)
      → (long_times (pos (x ^ h % n)) (pos x) >>= λ p. long_remainder p n)
        ≡ ok (pos (x ^ suc h % n))
  multiply_step h =
      let fit = remainder_times (x ^ h) x x (omega arith) product_fits in
      ap (λ r. r >>= λ s. long_remainder s n) (long_times-pos (x ^ h % n) x fit)
      ∙ long_remainder-pos (x ^ h % n * x) n positive
      ∙ ap (λ t. ok (pos t)) (mod_times (x ^ h) x n ∙ ap (λ (t : ℕ). t % n) (sym (pow-suc x h)))

  round_clear :
      (y h : ℕ)
      → y < 2 ^ 63
      → power_round (pos x) y n (pos (x ^ h % n)) ≡ ok (pos (x ^ (h * 2) % n))
  unfolding power_round
  round_clear y h small = rw (low_bit y small, square_product h, square_rest h) refl

  round_set :
      (y h : ℕ)
      → y < 2 ^ 63
      → power_round (pos x) (2 ^ 63 + y) n (pos (x ^ h % n)) ≡ ok (pos (x ^ suc (h * 2) % n))
  unfolding power_round
  round_set y h small =
      rw (high_bit y small, square_product h, square_rest h) (multiply_step (h * 2))

  -- The rounds that are left treat the top `i` bits of the word, which are those of `q`.
  power_loop-pos :
      (i j q h : ℕ)
      → i + j ≡ 64
      → q < 2 ^ i
      → power_loop i (pos x) (q * 2 ^ j) n (pos (x ^ h % n)) ≡ ok (pos (x ^ (h * 2 ^ i + q) % n))
  unfolding power_loop
  power_loop-pos zero j q h e small = ap (λ t. ok (pos (x ^ t % n))) (omega arith)
  power_loop-pos (suc i) j q h e small = elim (dec_lt q (2 ^ i)) [
    | yes low ↦
        let bound = place_bound i j q (omega arith) low in
        rw (round_clear (q * 2 ^ j) h bound, next_place j q bound)
          (power_loop-pos i (suc j) q (h * 2) (omega arith) low
            ∙ ap (λ t. ok (pos (x ^ (t + q) % n))) (double_place h i))
    | no high ↦
        let rest = q - 2 ^ i in
        let below : rest < 2 ^ i = omega (arith, pow-suc 2 i) in
        let bound = place_bound i j rest (omega arith) below in
        let split : q * 2 ^ j ≡ 2 ^ 63 + rest * 2 ^ j =
          ap (λ (t : ℕ). t * 2 ^ j) {x = q} {y = 2 ^ i + rest} (omega arith)
          ∙ top_place i j rest (omega arith) in
        let exponent : suc (h * 2) * 2 ^ i + rest ≡ h * 2 ^ suc i + q =
          omega (arith, double_place h i, add-mul 1 (h * 2) (2 ^ i)) in
        rw
          (
            split,
            round_set (rest * 2 ^ j) h bound,
            drop_top (rest * 2 ^ j),
            next_place j rest bound,
          )
          (power_loop-pos i (suc j) rest (suc (h * 2)) (omega arith) below
            ∙ ap (λ t. ok (pos (x ^ t % n))) exponent)
  ]

-- `XpowYmodN` returns the power modulo N, for an exponent of 64 bits and a modulus above 1, where
-- neither the square of the modulus nor its product with x leaves the range of a `long long`.
pub x_pow_y_mod_n-pos :
    (x y n : ℕ)
    → 1 < n
    → n * n < 2 ^ 63
    → n * x < 2 ^ 63
    → y < 2 ^ 64
    → x_pow_y_mod_n (pos x) y n ≡ ok (pos (x ^ y % n))
unfolding x_pow_y_mod_n
x_pow_y_mod_n-pos x y n big square product word = elim (Bool-cases (y == 1)) [
  | inl e ↦
      let one : y ≡ 1 = (==_iff y 1).0 e in
      let power : x ^ 1 ≡ x = pow-suc x 0 ∙ ap (λ (t : ℕ). t * x) (pow-zero x) ∙ omega arith in
      rw (e, one, power) (long_remainder-pos x n (omega arith))
  | inr e ↦
      let start : 1 ≡ x ^ 0 % n = sym (ap (λ (t : ℕ). t % n) (pow-zero x) ∙ mod-eq_of_lt big) in
      let loop = power_loop-pos x n (omega arith) square product 64 0 y 0 refl word in
      let whole : y * 2 ^ 0 ≡ y = omega arith in
      let exponent : 0 * 2 ^ 64 + y ≡ y = omega arith in
      rw e (
        ap₂ (λ s t. power_loop 64 (pos x) s n (pos t)) (sym whole) start
        ∙ loop
        ∙ ap (λ t. ok (pos (x ^ t % n))) exponent)
]
