-- ===== src/Negotiation/Primes.antt =====
-- What the search for a prime finds, and where the code divides by zero.
use e_ssp.Base.{
  ℕ, zero, suc, ◌+◌, ◌-◌, ◌*◌, ◌%◌, ◌^◌, ◌≤◌, ◌<◌, ◌==◌, not, Bool, true, false, ◌&&◌, Run, ok,
  ◌>>=◌, ◌≡◌, refl, ap, arith,
}
use native.Mathlib.Nat.{mul-le-mul, mod-lt}
use e_ssp.Negotiation.Random.{Entropy, Draws, Verdict, distance, is_it_prime, miller_rabin}
use e_ssp.Negotiation.Power.{x_pow_y_mod_n-pos}

is_it_prime-pos :
    (n a : ℕ) → 3 < n → n * n < 2 ^ 63 → a ≤ n → is_it_prime n a ≡ ok (a ^ (n - 1) % n == 1)
unfolding is_it_prime
is_it_prime-pos n a big square small =
    let room : n * a ≤ n * n = mul-le-mul {n₁ = n} {m₁ = a} {n₂ = n} {m₂ = n} (omega arith) small in
    let one : n * 1 ≤ n * n =
      mul-le-mul {n₁ = n} {m₁ = 1} {n₂ = n} {m₂ = n} (omega arith) (omega arith) in
    let word : n ≤ n * n = omega (arith, one) in
    rw (x_pow_y_mod_n-pos a (n - 1) n (omega arith) square (omega arith) (omega arith)) refl

distance_above : (n : ℕ) → 3 < n → distance n ≡ n - 3
distance_above n h = ground arith

not_zero : (n : ℕ) → 3 < n → not (n - 3 == 0) ≡ true
not_zero n h = ground arith

-- One base, and then the others.
trial :
    (next : Bool → Run Verdict) (d : Draws) (b : Bool)
    → next false ≡ ok (record { prime = false; draws = d })
    → (next true >>= λ v. ok v.prime) ≡ ok b
    → (c : Bool) → (next c >>= λ v. ok v.prime) ≡ ok (c && b)
trial next d b stop go true = go
trial next d b stop go false = ap (λ r. r >>= λ v. ok v.prime) stop

module _ (entropy : Entropy) where
  -- The test of Fermat by plain powers, for the bases that calls of `rand` from `k` on give.
  unfoldable pub fermat : ℕ → ℕ → ℕ → Bool
  fermat n zero k = true
  fermat n (suc trials) k =
      let a = entropy.rand k % (n - 3) + 2 in a ^ (n - 1) % n == 1 && fermat n trials (k + 1)

  -- For an n above 3 whose square is in the range of a `long long`, `MillerRabin` returns, and
  -- says whether every base a that it draws has a^(n-1) = 1 modulo n.
  pub miller_rabin-fermat :
      (n trials : ℕ) (d : Draws)
      → 3 < n
      → n * n < 2 ^ 63
      → (miller_rabin entropy n trials d >>= λ v. ok v.prime) ≡ ok (fermat n trials d.rands)
  unfolding miller_rabin fermat
  miller_rabin-fermat n zero d big square = refl
  miller_rabin-fermat n (suc trials) d big square =
      let a = entropy.rand d.rands % (n - 3) + 2 in
      let small : a ≤ n =
        let below = mod-lt (entropy.rand d.rands) {m = n - 3} (omega arith) in omega arith in
      let drawn = record d { rands = d.rands + 1 } in
      rw (distance_above n big, not_zero n big, is_it_prime-pos n a big square small)
        (trial
          (λ prime. elim prime as (λ c. Run Verdict) [
            | false ↦ ok (record { prime = false; draws = drawn })
            | true ↦ miller_rabin entropy n trials drawn
          ])
          drawn (fermat n trials (d.rands + 1)) refl (miller_rabin-fermat n trials drawn big square)
          (a ^ (n - 1) % n == 1))
