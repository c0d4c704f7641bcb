-- ===== src/Negotiation/Small.antt =====
-- The search for a prime divides by zero when it meets 3, which it does from every start below 4.
use e_ssp.Base.{
  ℕ, zero, suc, ◌+◌, ◌%◌, ◌<◌, bit_and_low_one, false, ok, fault, ◌≡◌, ◌⊎◌, refl, ap, ◌∙◌, arith,
  inl, inr,
}
use native.Mathlib.Nat.{mod-lt}
use e_ssp.Negotiation.Random.{
  Entropy, Draws, is_it_prime, miller_rabin, next_prime, search_prime, generate_prime,
  generate_random_number, prime_candidate, max_prime_number,
}

two_fails : is_it_prime 1 2 ≡ ok false
unfolding is_it_prime
two_fails = refl

three_fails : is_it_prime 1 3 ≡ ok false
unfolding is_it_prime
three_fails = refl

small_base : (r : ℕ) → r < 2 → is_it_prime 1 (r + 2) ≡ ok false
small_base zero h = two_fails
small_base (suc zero) h = three_fails
small_base (suc (suc r)) h = absurd (omega arith)

prime_candidate-small :
    (r : ℕ) → r % max_prime_number < 4 → (prime_candidate r ≡ 1) ⊎ (prime_candidate r ≡ 3)
unfolding prime_candidate
prime_candidate-small r h = ground (arith, bit_and_low_one (r % max_prime_number))

module _ (entropy : Entropy) where
  three_faults : (d : Draws) → miller_rabin entropy 3 5 d ≡ fault
  unfolding miller_rabin
  three_faults d = refl

  one_fails :
      (d : Draws)
      → miller_rabin entropy 1 5 d
        ≡ ok (record { prime = false; draws = record d { rands = d.rands + 1 } })
  unfolding miller_rabin
  one_fails d =
      rw (small_base (entropy.rand d.rands % 2) (mod-lt (entropy.rand d.rands) (omega arith))) refl

  search_three : (fuel : ℕ) (d : Draws) → search_prime entropy fuel 3 d ≡ fault
  unfolding search_prime
  search_three fuel d = rw (three_faults d) refl

  search_one : (fuel : ℕ) (d : Draws) → search_prime entropy (suc fuel) 1 d ≡ fault
  unfolding search_prime next_prime
  search_one fuel d = rw (one_fails d) (rw (three_faults (record d { rands = d.rands + 1 })) refl)

  -- When the random number that the search starts from is below 4 modulo 2^31, `GeneratePrime`
  -- divides by zero.
  pub generate_prime-fault :
      (fuel : ℕ) (d : Draws)
      → 0 < fuel
      → (generate_random_number entropy d).value % max_prime_number < 4
      → generate_prime entropy fuel d ≡ fault
  unfolding generate_prime
  generate_prime-fault zero d h small = absurd (omega arith)
  generate_prime-fault (suc fuel) d h small =
      let r = generate_random_number entropy d in
      elim (prime_candidate-small r.value small) [
        | inl e ↦ ap (λ p. search_prime entropy (suc fuel) p r.draws) e ∙ search_one fuel r.draws
        | inr e ↦
            ap (λ p. search_prime entropy (suc fuel) p r.draws) e ∙ search_three (suc fuel) r.draws
      ]
