-- ===== src/Negotiation/Range.antt =====
-- The primes are odd and near the range that they are drawn from, so no product of the
-- negotiation overflows.
use e_ssp.Base.{
  ℕ, zero, suc, ◌+◌, ◌*◌, ◌%◌, ◌≤◌, ◌<◌, bit_and_low_one, Bool, true, false, Run, ok, Post,
  Post-after, Post-weaken, ◌≡◌, arith,
}
use e_ssp.Negotiation.Random.{
  Entropy, Draws, Number, miller_rabin, next_prime, search_prime, generate_prime,
  generate_random_number, prime_candidate, max_prime_number,
}

-- A choice between two runs.
pub Post-choice {ℓ κ} :
    {A : Type ℓ} (Q : A → Type κ) (x y : Run A)
    → Post Q x
    → Post Q y
    → (b : Bool) → Post Q (elim b as (λ c. Run A) [ true ↦ x | false ↦ y ])
Post-choice Q x y p q true = p
Post-choice Q x y p q false = q

-- An odd number from `low` on, up to `high`.
pub record OddIn (low high : ℕ) (r : Number) : Type 0 where
  pub odd : r.value % 2 ≡ 1
  pub from_low : low ≤ r.value
  pub to_high : r.value ≤ high

prime_candidate-lem : (r : ℕ) → (prime_candidate r % 2 ≡ 1) × (prime_candidate r < max_prime_number)
unfolding prime_candidate
prime_candidate-lem r = ground (arith, bit_and_low_one (r % max_prime_number))

module _ (entropy : Entropy) where
  next_prime-OddIn :
      (fuel tmp : ℕ) (d : Draws)
      → tmp % 2 ≡ 1
      → Post (OddIn tmp (tmp + fuel * 2)) (next_prime entropy fuel tmp d)
  unfolding next_prime Post
  next_prime-OddIn zero tmp d odd = tt
  next_prime-OddIn (suc fuel) tmp d odd =
      Post-after (OddIn tmp (tmp + suc fuel * 2)) (miller_rabin entropy (tmp + 2) 5 d) _ λ v.
        Post-choice (OddIn tmp (tmp + suc fuel * 2))
          (ok (record { value = tmp + 2; draws = v.draws }))
          (next_prime entropy fuel (tmp + 2) v.draws)
          (record { odd = omega arith; from_low = omega arith; to_high = omega arith })
          (Post-weaken _ _ (next_prime entropy fuel (tmp + 2) v.draws)
            (next_prime-OddIn fuel (tmp + 2) v.draws (omega arith))
            λ r h. record {
              odd = h.odd;
              from_low = omega (arith, h.from_low);
              to_high = omega (arith, h.to_high);
            })
          v.prime

  search_prime-OddIn :
      (fuel tmp : ℕ) (d : Draws)
      → tmp % 2 ≡ 1
      → Post (OddIn tmp (tmp + fuel * 2)) (search_prime entropy fuel tmp d)
  unfolding search_prime Post
  search_prime-OddIn fuel tmp d odd =
      Post-after (OddIn tmp (tmp + fuel * 2)) (miller_rabin entropy tmp 5 d) _ λ v.
        Post-choice (OddIn tmp (tmp + fuel * 2)) (ok (record { value = tmp; draws = v.draws }))
          (next_prime entropy fuel tmp v.draws)
          (record { odd = odd; from_low = omega arith; to_high = omega arith })
          (next_prime-OddIn fuel tmp v.draws odd) v.prime

  -- What `GeneratePrime` returns is odd and below 2^31 plus twice the rounds of the search.
  pub generate_prime-OddIn :
      (fuel : ℕ) (d : Draws)
      → Post (OddIn 1 (max_prime_number + fuel * 2)) (generate_prime entropy fuel d)
  unfolding generate_prime
  generate_prime-OddIn fuel d =
      let r = generate_random_number entropy d in
      let tmp = prime_candidate r.value in
      let start = prime_candidate-lem r.value in
      Post-weaken (OddIn tmp (tmp + fuel * 2)) (OddIn 1 (max_prime_number + fuel * 2))
        (search_prime entropy fuel tmp r.draws) (search_prime-OddIn fuel tmp r.draws start.0)
        λ p h. record {
          odd = h.odd;
          from_low = omega (arith, h.from_low, start.0);
          to_high = omega (arith, h.to_high, start.1);
        }
