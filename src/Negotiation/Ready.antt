-- ===== src/Negotiation/Ready.antt =====
-- What the host keys are once they are initiated.
use e_ssp.Base.{
  ℕ, ◌+◌, ◌*◌, ◌%◌, ◌^◌, ◌≤◌, ◌<◌, ◌==◌, ◌||◌, ltb, if◌then◌else◌, Bool, true, false, Run, ok,
  fault, waiting, ◌>>=◌, write, Post, Post-ok, Post-bind, Post-after, ◌≡◌, refl, arith,
}
use native.Mathlib.Nat.{mod-lt}
use e_ssp.Defs.{max_ssp_port}
use e_ssp.Host.{Globals}
use e_ssp.Negotiation.Long.{ℤ, pos}
use e_ssp.Negotiation.Random.{
  Entropy, Draws, x_pow_y_mod_n, generate_random_number, max_prime_number, max_random_integer,
}
use e_ssp.Negotiation.Range.{OddIn, generate_prime-OddIn, Post-choice}
use e_ssp.Negotiation.{
  Keys, Derived, Initiated, swap_primes, create_host_inter_key, initiate_ssp_host_keys,
}

pub record Ready (bound : ℕ) (k : Keys) : Type 0 where
  pub generator-le : k.generator ≤ bound
  pub modulus-le : k.modulus ≤ bound
  pub random-lt : k.host_random < 2 ^ 31
  pub inter : x_pow_y_mod_n (pos k.generator) k.host_random k.modulus ≡ ok k.host_inter

-- The value of a run, by the run.
Post-self : {A : Type 0} (r : Run A) → Post (λ a. r ≡ ok a) r
unfolding Post
Post-self (ok a) = refl
Post-self fault = tt
Post-self waiting = tt

module _ (entropy : Entropy) where
  create_host_inter_key-Ready :
      (bound : ℕ) (k : Keys) (d : Draws)
      → k.generator ≤ bound
      → k.modulus ≤ bound
      → Post (λ c. c.success ≡ true → Ready bound c.keys) (create_host_inter_key entropy k d)
  unfolding create_host_inter_key
  create_host_inter_key-Ready bound k d gen modulus =
      let r = generate_random_number entropy d in
      let random = r.value % max_random_integer in
      let goal : Derived → Type 0 = λ c. c.success ≡ true → Ready bound c.keys in
      let p = x_pow_y_mod_n (pos k.generator) random k.modulus in
      let finish : ℤ → Run Derived = λ a. ok (record {
        success = true;
        keys = record k { host_random = random; host_inter = a };
        draws = r.draws;
      }) in
      Post-choice goal (ok (record { success = false; keys = k; draws = d })) (p >>= finish)
        (Post-ok goal _ λ e. absurd (ground arith))
        (Post-bind (λ a. p ≡ ok a) goal p finish (Post-self p)
          λ a e. Post-ok goal _ λ t. record {
            generator-le = gen;
            modulus-le = modulus;
            random-lt = mod-lt r.value (omega arith);
            inter = e;
          })
        (k.generator == 0 || k.modulus == 0)

  create_swapped-Ready :
      (bound : ℕ) (b : Bool) (k : Keys) (d : Draws)
      → k.generator ≤ bound
      → k.modulus ≤ bound
      → Post
          (λ c. c.success ≡ true → Ready bound c.keys)
          (create_host_inter_key entropy (if b then swap_primes k else k) d)
  create_swapped-Ready bound true k d = create_host_inter_key-Ready bound k d
  create_swapped-Ready bound false k d = create_host_inter_key-Ready bound k d

  -- The end of the initiation, after the intermediate key.
  reset_count-Ready :
      (bound ssp_address : ℕ) (g : Globals) (k : Keys) (success : Bool)
      → (success ≡ true → Ready bound k)
      → Post
          (λ i. i.success ≡ true → Ready bound i.keys)
          (elim success as (λ s. Run Initiated) [
            | false ↦ ok (record { success = false; keys = k; globals = g })
            | true ↦ write max_ssp_port g.enc_pkt_count ssp_address 0 >>= λ counts.
                ok (record {
                  success = true;
                  keys = k;
                  globals = record g { enc_pkt_count = counts };
                })
          ])
  reset_count-Ready bound ssp_address g k false h = Post-ok _ _ λ e. absurd (ground arith)
  reset_count-Ready bound ssp_address g k true h =
      Post-after _ (write max_ssp_port g.enc_pkt_count ssp_address 0) _
        λ counts. Post-ok _ _ λ e. h refl

  -- With at most 2^20 rounds for each search, the primes are at most 2^31 + 2^21, the random number
  -- is below 2^31, and the intermediate key is the result of `XpowYmodN` on them.
  pub initiate_ssp_host_keys-Ready :
      (fuel : ℕ) (k : Keys) (ssp_address : ℕ) (g : Globals)
      → fuel ≤ 2 ^ 20
      → Post
          (λ i. i.success ≡ true → Ready (2 ^ 31 + 2 ^ 21) i.keys)
          (initiate_ssp_host_keys entropy fuel k ssp_address g)
  unfolding initiate_ssp_host_keys
  initiate_ssp_host_keys-Ready fuel k ssp_address g enough =
      let goal : Initiated → Type 0 = λ i. i.success ≡ true → Ready (2 ^ 31 + 2 ^ 21) i.keys in
      Post-bind (OddIn 1 (max_prime_number + fuel * 2)) goal _ _
        (generate_prime-OddIn entropy fuel _)
        λ a ha.
          Post-bind (OddIn 1 (max_prime_number + fuel * 2)) goal _ _
            (generate_prime-OddIn entropy fuel a.draws)
            λ b hb.
              Post-bind (λ c. c.success ≡ true → Ready (2 ^ 31 + 2 ^ 21) c.keys) goal _ _
                (create_swapped-Ready (2 ^ 31 + 2 ^ 21) (ltb b.value a.value)
                  (record k { generator = a.value; modulus = b.value }) b.draws
                  (omega (arith, ha.to_high)) (omega (arith, hb.to_high)))
                λ c hc.
                  reset_count-Ready (2 ^ 31 + 2 ^ 21) ssp_address
                    (record g { rand_calls = c.draws.rands; seed_calls = c.draws.seeds }) c.keys
                    c.success hc
