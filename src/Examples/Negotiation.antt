-- ===== src/Examples/Negotiation.antt =====
-- The negotiation of keys at concrete random numbers.
use e_ssp.Base.{◌+◌, ◌*◌, ◌%◌, ◌^◌, true, ok, fault, ◌>>=◌, Post, update, ◌≡◌, refl, arith}
use e_ssp.Negotiation.{Keys, Initiated, create_host_inter_key, initiate_ssp_host_keys}
use e_ssp.Negotiation.Long.{pos, long_times, long_remainder}
use e_ssp.Negotiation.Random.{
  Entropy, lfsr, rot, power_round, power_loop, x_pow_y_mod_n, is_it_prime, miller_rabin, next_prime,
  search_prime, prime_candidate, generate_prime, generate_random_number,
}
use e_ssp.Negotiation.Power.{x_pow_y_mod_n-pos}
use e_ssp.Negotiation.Primes.{fermat, miller_rabin-fermat}
use e_ssp.Negotiation.Small.{generate_prime-fault}
use e_ssp.Negotiation.Range.{OddIn, generate_prime-OddIn}
use e_ssp.Negotiation.Session.{Locals, negotiate_ssp_encryption}
use e_ssp.Negotiation.Slave.{Slave, line}
use e_ssp.Negotiation.Handshake.{agreed, shared_key, negotiate_ssp_encryption-agreed}
use e_ssp.Negotiation.Keeps.{Kept, negotiate_ssp_encryption-Kept}
use e_ssp.Examples.{globals, blank, payout_command}

abbrev pub entropy : Entropy
entropy = record { rand = λ n. n * 7919 + 104729; get_seed = λ n. n * 1000003 + 15485863 }

abbrev pub no_keys : Keys
no_keys = record {
  generator = 0;
  modulus = 0;
  host_inter = pos 0;
  host_random = 0;
  slave_inter_key = pos 0;
  key_host = pos 0;
}

abbrev pub initiated : Initiated
initiated = record {
  success = true;
  keys = record {
    generator = 1822572539;
    modulus = 436570493;
    host_inter = pos 196384604;
    host_random = 174182139;
    slave_inter_key = pos 0;
    key_host = pos 0;
  };
  globals = record globals { enc_pkt_count = update blank 0 0; rand_calls = 20; seed_calls = 6 };
}

pub initiate : initiate_ssp_host_keys entropy 200 no_keys 0 globals ≡ ok initiated
unfolding initiate_ssp_host_keys create_host_inter_key generate_prime search_prime next_prime
    miller_rabin is_it_prime x_pow_y_mod_n power_loop power_round long_times long_remainder
    prime_candidate generate_random_number rot lfsr
initiate = refl

abbrev pub unit : Slave
unit = record { generator = 0; modulus = 0; secret = 5; key = 0 }

abbrev pub locals : Locals
locals = record { temp_keys = no_keys; sspc = payout_command; fuel = 200 }

negotiate_ssp_encryption-agreed_example :
    negotiate_ssp_encryption line entropy locals 0 payout_command.key
      (record { globals = globals; slave = unit })
    ≡ ok (agreed initiated payout_command.key unit (shared_key initiated.keys unit))
negotiate_ssp_encryption-agreed_example =
    negotiate_ssp_encryption-agreed entropy locals 0 payout_command.key
      (record { globals = globals; slave = unit }) initiated (omega arith) initiate refl
      (omega arith)

negotiate_ssp_encryption-Kept_example : Post (Kept payout_command.key) (
    negotiate_ssp_encryption line entropy locals 0 payout_command.key
      (record { globals = globals; slave = unit }))
negotiate_ssp_encryption-Kept_example =
    negotiate_ssp_encryption-Kept line payout_command.key entropy locals 0
      (record { globals = globals; slave = unit })

x_pow_y_mod_n-pos_example : x_pow_y_mod_n (pos 3) 1000 1009 ≡ ok (pos (3 ^ 1000 % 1009))
x_pow_y_mod_n-pos_example =
    x_pow_y_mod_n-pos 3 1000 1009 (omega arith) (omega arith) (omega arith) (omega arith)

miller_rabin-fermat_example :
    (miller_rabin entropy 1009 5 (record { rands = 0; seeds = 0 }) >>= λ v. ok v.prime)
    ≡ ok (fermat entropy 1009 5 0)
miller_rabin-fermat_example =
    miller_rabin-fermat entropy 1009 5 (record { rands = 0; seeds = 0 }) (omega arith) (omega arith)

generate_prime-OddIn_example :
    Post
      (OddIn 1 (2147483648 + 200 * 2))
      (generate_prime entropy 200 (record { rands = 0; seeds = 0 }))
generate_prime-OddIn_example = generate_prime-OddIn entropy 200 (record { rands = 0; seeds = 0 })

-- A counter that stands at the numbers which make the random number 1.
abbrev unlucky : Entropy
unlucky = record { rand = λ n. n; get_seed = λ n. n * 1652334204 }

generate_prime-fault_example : generate_prime unlucky 200 (record { rands = 0; seeds = 0 }) ≡ fault
unfolding generate_random_number rot lfsr
generate_prime-fault_example =
    generate_prime-fault unlucky 200 (record { rands = 0; seeds = 0 }) (omega arith) (omega arith)
