-- ===== src/Negotiation/Session.antt =====
-- `NegotiateSSPEncryption` and `my_init` of _eSSP/lib/ITLSSPProc.c, and the calls of _eSSP/linux.c
-- that hand the exchange and the negotiation to the command helpers.
use e_ssp.Base.{
  ℕ, zero, suc, ◌+◌, ◌*◌, ◌==◌, true, false, List, [], ◌∷◌, Array, Run, ok, ◌>>=◌, ltb,
  if◌then◌else◌,
}
use e_ssp.Defs.{Command, FullKey, Packet, max_ssp_port, ssp_cmd_sync, ssp_response_ok}
use e_ssp.Cipher.{BlockCipher, le_bytes}
use e_ssp.Host.{Globals, World}
use e_ssp.Link.{Sent, Negotiated, Link}
use e_ssp.Send.{ssp_send_command}
use e_ssp.Helpers.{with_request}
use e_ssp.Negotiation.Long.{to_unsigned, to_signed}
use e_ssp.Negotiation.Random.{Entropy}
use e_ssp.Negotiation.{
  Keys, initiate_ssp_host_keys, create_ssp_host_encryption_key, ssp_cmd_set_generator,
  ssp_cmd_set_modulus, ssp_cmd_req_key_exchange,
}

-- What the negotiation uses of the state behind the port: the globals, and the exchange.
pub record Exchange (W : Type 0) : Type 0 where
  pub globals : W → Globals
  pub with_globals : Globals → W → W
  pub send : Command → W → Run (Sent W)

-- The sum of eight bytes from index `i` on, shifted to their places.
unfoldable pub le_sum : Array → ℕ → ℕ → ℕ
le_sum resp i zero = 0
le_sum resp i (suc n) = resp i + 256 * le_sum resp (suc i) n

-- The settings of the structure that the negotiation sends with.
abbrev pub plain_command : ℕ → Command → Command
plain_command ssp_address sspc = record sspc {
  encryption_status = false;
  retry_level = 2;
  timeout = 1000;
  ssp_address = ssp_address;
}

-- What the local structures hold before they are set, and the fuel of the search for primes.
pub record Locals : Type 0 where
  pub temp_keys : Keys
  pub sspc : Command
  pub fuel : ℕ

module _ {W : Type 0} (exchange : Exchange W) where
  -- A request, after which the negotiation goes on if the reply is OK; the result of the call is
  -- not looked at.
  unfoldable pub request_step :
      List ℕ → FullKey → Command → W → (Command → W → Run (Negotiated W)) → Run (Negotiated W)
  request_step bytes key sspc w next = do
    s ← exchange.send (with_request sspc bytes) w
    elim (s.cmd.response_data 0 == ssp_response_ok) [
      | true ↦ next s.cmd s.world
      | false ↦ ok (record { success = false; key = key; world = s.world })
    ]

  -- The key of the slave is read from the reply to the last request.
  unfoldable pub finish_negotiation : Keys → FullKey → Command → W → Run (Negotiated W)
  finish_negotiation keys key sspc w = do
    k ←
        create_ssp_host_encryption_key
          (record keys { slave_inter_key = to_signed (le_sum sspc.response_data 1 8) })
    ok (record {
      success = true;
      key = record key { encrypt_key = to_unsigned k.key_host };
      world = w;
    })

  unfoldable pub negotiate_ssp_encryption : Entropy → Locals → ℕ → FullKey → W → Run (Negotiated W)
  negotiate_ssp_encryption entropy locals ssp_address key w = do
    i ← initiate_ssp_host_keys entropy locals.fuel locals.temp_keys ssp_address (exchange.globals w)
    let started = exchange.with_globals i.globals w
    elim i.success [
      | false ↦ ok (record { success = false; key = key; world = started })
      | true ↦
          request_step (ssp_cmd_sync ∷ []) key (plain_command ssp_address locals.sspc) started
            λ sspc w.
              request_step (ssp_cmd_set_generator ∷ le_bytes 8 i.keys.generator) key sspc w
                λ sspc w.
                  request_step (ssp_cmd_set_modulus ∷ le_bytes 8 i.keys.modulus) key sspc w
                    λ sspc w.
                      request_step
                        (ssp_cmd_req_key_exchange ∷ le_bytes 8 (to_unsigned i.keys.host_inter)) key
                        sspc w (finish_negotiation i.keys key)
    ]

-- `my_init`, which runs when the library is loaded.
abbrev pub my_init : Globals → Globals
my_init g = record g {
  enc_pkt_count = λ i. if ltb i max_ssp_port then 0 else g.enc_pkt_count i;
  ssp_seq = λ i. if ltb i max_ssp_port then 0x80 else g.ssp_seq i;
  seed_calls = g.seed_calls + 1;
}

-- The library itself behind the port: `open_port` is the only one.
abbrev pub over_port : BlockCipher → Entropy → Packet → Exchange World
over_port cipher entropy ssp = record {
  globals = λ w. w.globals;
  with_globals = λ g w. record w { globals = g };
  send = ssp_send_command cipher entropy.rand ssp;
}

-- `send_ssp_command` and `negotiate_ssp_encryption` of _eSSP/linux.c.
unfoldable pub port_link : BlockCipher → Entropy → Packet → Locals → Link World
port_link cipher entropy ssp locals = record {
  send = ssp_send_command cipher entropy.rand ssp;
  negotiate = negotiate_ssp_encryption (over_port cipher entropy ssp) entropy locals;
}
