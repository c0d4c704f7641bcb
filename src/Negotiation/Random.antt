-- ===== src/Negotiation/Random.antt =====
-- The number functions of _eSSP/lib/Random.c.
use e_ssp.Base.{
  ℕ, zero, suc, ◌+◌, ◌-◌, ◌*◌, ◌/◌, ◌%◌, ◌^◌, bit_and, bit_or, bit_xor, u64, ltb, ◌==◌, not, Bool,
  true, false, if◌then◌else◌, Run, ok, waiting, require, ◌>>=◌, ◌>>◌,
}
use e_ssp.Negotiation.Long.{ℤ, pos, negsuc, long_times, long_remainder}

-- One round of `XpowYmodN`: the result is squared, and multiplied if the top bit of `y` is set.
unfoldable pub power_round : ℤ → ℕ → ℕ → ℤ → Run ℤ
unfolding long_times long_remainder
power_round x y n result = do
  square ← long_times result result
  r ← long_remainder square n
  elim (bit_and y (2 ^ 63) == 0) [
    | true ↦ ok r
    | false ↦ long_times r x >>= λ p. long_remainder p n
  ]

-- The loop; `i` rounds are left, and `y` is shifted as 64 bits.
unfoldable pub power_loop : ℕ → ℤ → ℕ → ℕ → ℤ → Run ℤ
unfolding power_round
power_loop zero x y n result = ok result
power_loop (suc i) x y n result = do r ← power_round x y n result; power_loop i x (u64 (y * 2)) n r

unfoldable pub x_pow_y_mod_n : ℤ → ℕ → ℕ → Run ℤ
unfolding power_loop long_remainder
x_pow_y_mod_n x y n = if y == 1 then long_remainder x n else power_loop 64 x y n (pos 1)

-- Whether `d == 1`.
abbrev pub is_one : ℤ → Bool
is_one (pos n) = n == 1
is_one (negsuc n) = false

unfoldable pub is_it_prime : ℕ → ℕ → Run Bool
unfolding x_pow_y_mod_n
is_it_prime n a = do d ← x_pow_y_mod_n (pos a) (n - 1) n; ok (is_one d)

-- `|n - 3|`: a remainder by `n - 3` is one by its magnitude.
abbrev pub distance : ℕ → ℕ
distance n = if ltb n 3 then 3 - n else n - 3

-- What the number functions take from outside: the results of `rand` and of `GetSeed`, by the
-- number of the call. Those of `rand` are not negative.
pub record Entropy : Type 0 where
  pub rand : ℕ → ℕ
  pub get_seed : ℕ → ℕ

-- How often each was called.
pub record Draws : Type 0 where
  pub rands : ℕ
  pub seeds : ℕ

pub record Verdict : Type 0 where
  pub prime : Bool
  pub draws : Draws

pub record Number : Type 0 where
  pub value : ℕ
  pub draws : Draws

abbrev pub max_prime_number : ℕ
max_prime_number = 2147483648

abbrev pub max_random_integer : ℕ
max_random_integer = 2147483648

-- `LFSR(n)` and `ROT(x, y)`, on an `unsigned long` of 64 bits.
unfoldable pub lfsr : ℕ → ℕ
lfsr n = if bit_and n 1 == 0 then n / 2 else bit_or (bit_xor n 0x80000055 / 2) 0x80000000

unfoldable pub rot : ℕ → ℕ → ℕ
rot x y = bit_or (u64 (x * 2 ^ y)) (x / 2 ^ (32 - y))

-- The odd number that the search for a prime starts from.
unfoldable pub prime_candidate : ℕ → ℕ
prime_candidate random =
    let tmp = random % max_prime_number in if bit_and tmp 1 == 0 then tmp + 1 else tmp

module _ (entropy : Entropy) where
  unfoldable pub miller_rabin : ℕ → ℕ → Draws → Run Verdict
  miller_rabin n zero d = ok (record { prime = true; draws = d })
  miller_rabin n (suc trials) d = do
    require (not (distance n == 0))
    let a = entropy.rand d.rands % distance n + 2
    let drawn = record d { rands = d.rands + 1 }
    prime ← is_it_prime n a
    elim prime [
      | false ↦ ok (record { prime = false; draws = drawn })
      | true ↦ miller_rabin n trials drawn
    ]

  unfoldable pub generate_random_number : Draws → Number
  generate_random_number d =
      let n = u64 (entropy.get_seed d.seeds) in
      let rnd = rot (bit_xor 0x41594c49 (bit_xor n (lfsr 0x94c49514))) 7 in
      record {
        value = u64 (u64 (entropy.get_seed (d.seeds + 1)) + rnd);
        draws = record d { seeds = d.seeds + 2 };
      }

  -- `do tmp += 2 while (MillerRabin(tmp, 5) == 0)`, with as many rounds as the fuel at most.
  unfoldable pub next_prime : ℕ → ℕ → Draws → Run Number
  next_prime zero tmp d = waiting
  next_prime (suc fuel) tmp d = do
    v ← miller_rabin (tmp + 2) 5 d
    elim v.prime [
      | true ↦ ok (record { value = tmp + 2; draws = v.draws })
      | false ↦ next_prime fuel (tmp + 2) v.draws
    ]

  -- The test of the first candidate, and the search after it.
  unfoldable pub search_prime : ℕ → ℕ → Draws → Run Number
  search_prime fuel tmp d = do
    v ← miller_rabin tmp 5 d
    elim v.prime [
      | true ↦ ok (record { value = tmp; draws = v.draws })
      | false ↦ next_prime fuel tmp v.draws
    ]

  unfoldable pub generate_prime : ℕ → Draws → Run Number
  generate_prime fuel d =
      let r = generate_random_number d in search_prime fuel (prime_candidate r.value) r.draws
