-- ===== src/Negotiation.antt =====
-- The negotiation of keys of _eSSP/lib/ITLSSPProc.c, with the calls of _eSSP/linux.c that hand it
-- to the command helpers.
pub mod Long
pub mod Random
pub mod Power
pub mod Agree
pub mod Primes
pub mod Small
pub mod Range
pub mod Ready
pub mod Session
pub mod Slave
pub mod Same
pub mod Served
pub mod Handshake
pub mod Wire
pub mod Wired
pub mod Keeps
use e_ssp.Base.{
  ℕ, zero, suc, ◌+◌, ◌*◌, ◌%◌, ◌==◌, ◌||◌, ltb, if◌then◌else◌, Bool, true, false, List, [], ◌∷◌,
  Array, write, Run, ok, ◌>>=◌,
}
use e_ssp.Defs.{Command, FullKey, max_ssp_port, ssp_cmd_sync, ssp_response_ok}
use e_ssp.Cipher.{le_bytes}
use e_ssp.Host.{Globals}
use e_ssp.Link.{Sent, Negotiated}
use e_ssp.Helpers.{with_request}
use e_ssp.Negotiation.Long.{ℤ, pos, to_unsigned, to_signed}
use e_ssp.Negotiation.Random.{
  Entropy, Draws, Number, x_pow_y_mod_n, generate_prime, generate_random_number, max_random_integer,
}

abbrev pub ssp_cmd_set_generator : ℕ
ssp_cmd_set_generator = 0x4A

abbrev pub ssp_cmd_set_modulus : ℕ
ssp_cmd_set_modulus = 0x4B

abbrev pub ssp_cmd_req_key_exchange : ℕ
ssp_cmd_req_key_exchange = 0x4C

-- `SSP_KEYS`; its slave random number and slave key are used nowhere. The generator, the modulus
-- and the random number are never negative.
pub record Keys : Type 0 where
  pub generator : ℕ
  pub modulus : ℕ
  pub host_inter : ℤ
  pub host_random : ℕ
  pub slave_inter_key : ℤ
  pub key_host : ℤ

-- What a function on the keys leaves.
pub record Derived : Type 0 where
  pub success : Bool
  pub keys : Keys
  pub draws : Draws

pub record Initiated : Type 0 where
  pub success : Bool
  pub keys : Keys
  pub globals : Globals

-- The swap as it is written: the generator is assigned twice.
abbrev pub swap_primes : Keys → Keys
swap_primes keys =
    let swap = keys.generator in
    record (record keys { generator = keys.modulus }) { generator = swap }

unfoldable pub create_ssp_host_encryption_key : Keys → Run Keys
create_ssp_host_encryption_key keys = do
  k ← x_pow_y_mod_n keys.slave_inter_key keys.host_random keys.modulus
  ok (record keys { key_host = k })

module _ (entropy : Entropy) where
  unfoldable pub create_host_inter_key : Keys → Draws → Run Derived
  create_host_inter_key keys d = elim (keys.generator == 0 || keys.modulus == 0) [
    | true ↦ ok (record { success = false; keys = keys; draws = d })
    | false ↦ do
      let r = generate_random_number entropy d
      let host_random = r.value % max_random_integer
      p ← x_pow_y_mod_n (pos keys.generator) host_random keys.modulus
      ok (record {
        success = true;
        keys = record keys { host_random = host_random; host_inter = p };
        draws = r.draws;
      })
  ]

  -- The searches for a prime have `fuel` rounds at most.
  unfoldable pub initiate_ssp_host_keys : ℕ → Keys → ℕ → Globals → Run Initiated
  initiate_ssp_host_keys fuel keys ssp_address g = do
    a ← generate_prime entropy fuel (record { rands = g.rand_calls; seeds = g.seed_calls })
    b ← generate_prime entropy fuel a.draws
    let primes = record keys { generator = a.value; modulus = b.value }
    c ← create_host_inter_key (if ltb b.value a.value then swap_primes primes else primes) b.draws
    let drawn = record g { rand_calls = c.draws.rands; seed_calls = c.draws.seeds }
    elim c.success [
      | false ↦ ok (record { success = false; keys = c.keys; globals = drawn })
      | true ↦ do
        counts ← write max_ssp_port drawn.enc_pkt_count ssp_address 0
        ok (record {
          success = true;
          keys = c.keys;
          globals = record drawn { enc_pkt_count = counts };
        })
    ]
