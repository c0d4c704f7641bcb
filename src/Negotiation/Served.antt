-- ===== src/Negotiation/Served.antt =====
-- A negotiation whose four requests are accepted ends with the power of the unit's number.
use e_ssp.Base.{
  ℕ, ◌+◌, ◌*◌, ◌%◌, ◌^◌, ◌≤◌, ◌<◌, true, [], ◌∷◌, Run, ok, fault, waiting, Post, ◌≡◌, sym, ap, ◌∙◌,
  arith,
}
use mathlib.Core.Path.{subst}
use native.Mathlib.Nat.{mul-le-mul}
use e_ssp.Defs.{Command, FullKey, ssp_cmd_sync}
use e_ssp.Cipher.{le_bytes}
use e_ssp.Link.{Negotiated}
use e_ssp.Negotiation.Long.{ℤ, pos, to_unsigned}
use e_ssp.Negotiation.Random.{Entropy}
use e_ssp.Negotiation.Power.{x_pow_y_mod_n-pos}
use e_ssp.Negotiation.{
  Keys, Initiated, initiate_ssp_host_keys, ssp_cmd_set_generator, ssp_cmd_set_modulus,
  ssp_cmd_req_key_exchange,
}
use e_ssp.Negotiation.Ready.{Ready, initiate_ssp_host_keys-Ready}
use e_ssp.Host.{Globals}
use e_ssp.Negotiation.Session.{
  Exchange, Locals, request_step, finish_negotiation, negotiate_ssp_encryption, plain_command,
}
use e_ssp.Negotiation.Same.{Accepts, accepted, finished}

-- The number that the host sends to the unit.
abbrev pub host_power : Keys → ℕ
host_power k = k.generator ^ k.host_random % k.modulus

-- The four requests of a negotiation, each accepted; the unit answers the last one with `v`.
pub record Serves {W : Type 0} (exchange : Exchange W) (k : Keys) (v : ℕ) (c0 : Command) (w0 w4 : W)
    : Type 0 where
  pub c1 : Command
  pub c2 : Command
  pub c3 : Command
  pub c4 : Command
  pub w1 : W
  pub w2 : W
  pub w3 : W
  pub syncs : Accepts exchange (ssp_cmd_sync ∷ []) [] c0 c1 w0 w1
  pub sets_generator :
      Accepts exchange (ssp_cmd_set_generator ∷ le_bytes 8 k.generator) [] c1 c2 w1 w2
  pub sets_modulus : Accepts exchange (ssp_cmd_set_modulus ∷ le_bytes 8 k.modulus) [] c2 c3 w2 w3
  pub exchanges :
      Accepts exchange
        (ssp_cmd_req_key_exchange ∷ le_bytes 8 (host_power k))
        (le_bytes 8 v)
        c3
        c4
        w3
        w4

value_or : ℤ → Run ℤ → ℤ
value_or d (ok a) = a
value_or d fault = d
value_or d waiting = d

module _ (k : Keys) (bound : ℕ) (big : 1 < k.modulus) (square : bound * bound < 2 ^ 63)
    (ready : Ready bound k) where
  host_inter-power : k.host_inter ≡ pos (k.generator ^ k.host_random % k.modulus)
  unfolding value_or
  host_inter-power =
      let room : k.modulus * k.modulus ≤ bound * bound =
        mul-le-mul (ready.modulus-le) (ready.modulus-le) in
      let room' : k.modulus * k.generator ≤ bound * bound =
        mul-le-mul (ready.modulus-le) (ready.generator-le) in
      ap (value_or (pos 0)) (
        sym (ready.inter)
        ∙ x_pow_y_mod_n-pos k.generator k.host_random k.modulus big (omega arith) (omega arith)
            (omega (arith, ready.random-lt)))

  -- The requests of a negotiation and its end.
  handshake :
      {W : Type 0} (exchange : Exchange W) (key : FullKey) (v : ℕ) (c : Command) (w w' : W)
      → Serves exchange k v c w w'
      → v < k.modulus
      → request_step exchange (ssp_cmd_sync ∷ []) key c w (λ c w.
        request_step exchange (ssp_cmd_set_generator ∷ le_bytes 8 k.generator) key c w λ c w.
          request_step exchange (ssp_cmd_set_modulus ∷ le_bytes 8 k.modulus) key c w λ c w.
            request_step exchange
              (ssp_cmd_req_key_exchange ∷ le_bytes 8 (to_unsigned k.host_inter))
              key
              c
              w
              (finish_negotiation exchange k key))
        ≡ ok (record {
          success = true;
          key = record key { encrypt_key = v ^ k.host_random % k.modulus };
          world = w';
        })
  handshake {W} exchange key v c w w' h below =
      let last : Command → W → Run (Negotiated W) = finish_negotiation exchange k key in
      let third : Command → W → Run (Negotiated W) = λ c w.
        request_step exchange (ssp_cmd_req_key_exchange ∷ le_bytes 8 (to_unsigned k.host_inter)) key
          c w last in
      let second : Command → W → Run (Negotiated W) =
        λ c w. request_step exchange (ssp_cmd_set_modulus ∷ le_bytes 8 k.modulus) key c w third in
      let first : Command → W → Run (Negotiated W) = λ c w.
        request_step exchange (ssp_cmd_set_generator ∷ le_bytes 8 k.generator) key c w second in
      accepted exchange (ssp_cmd_sync ∷ []) [] c h.c1 w h.w1 h.syncs key first
      ∙ accepted exchange (ssp_cmd_set_generator ∷ le_bytes 8 k.generator) [] h.c1 h.c2 h.w1 h.w2
          h.sets_generator key second
      ∙ accepted exchange (ssp_cmd_set_modulus ∷ le_bytes 8 k.modulus) [] h.c2 h.c3 h.w2 h.w3
          h.sets_modulus key third
      ∙ ap
          (λ x.
            request_step exchange (ssp_cmd_req_key_exchange ∷ le_bytes 8 (to_unsigned x)) key h.c3
              h.w3 last)
          host_inter-power
      ∙ accepted exchange (ssp_cmd_req_key_exchange ∷ le_bytes 8 (host_power k)) (le_bytes 8 v) h.c3
          h.c4 h.w3 w' h.exchanges key last
      ∙ finished exchange bound k key h.c4 w' h.c3.response_data v big square ready below
          h.exchanges.carries

Post-at : {A : Type 0} (P : A → Type 0) (r : Run A) (a : A) → r ≡ ok a → Post P r → P a
unfolding Post
Post-at P r a e h = subst (Post P) e h

module _ (entropy : Entropy) (locals : Locals) (ssp_address : ℕ) (g : Globals) (i : Initiated)
    (fuel : locals.fuel ≤ 2 ^ 20)
    (made : initiate_ssp_host_keys entropy locals.fuel locals.temp_keys ssp_address g ≡ ok i)
    (success : i.success ≡ true) where
  ready : Ready (2 ^ 31 + 2 ^ 21) i.keys
  ready =
      Post-at _ (initiate_ssp_host_keys entropy locals.fuel locals.temp_keys ssp_address g) i made
        (initiate_ssp_host_keys-Ready entropy locals.fuel locals.temp_keys ssp_address g fuel)
        success

  -- The generator, the modulus and what is below it fit 8 bytes.
  pub initiated-small :
      1 < i.keys.modulus → (i.keys.generator < 256 ^ 8) × (i.keys.modulus < 256 ^ 8)
  initiated-small big =
      let r = ready in (omega (arith, r.generator-le), omega (arith, r.modulus-le))

  -- A negotiation whose requests are accepted.
  pub negotiate_ssp_encryption-served :
      {W : Type 0} (exchange : Exchange W) (key : FullKey) (v : ℕ) (w w' : W)
      → exchange.globals w ≡ g
      → 1 < i.keys.modulus
      → v < i.keys.modulus
      → Serves exchange i.keys v
          (plain_command ssp_address locals.sspc)
          (exchange.with_globals i.globals w)
          w'
      → negotiate_ssp_encryption exchange entropy locals ssp_address key w
        ≡ ok (record {
          success = true;
          key = record key { encrypt_key = v ^ i.keys.host_random % i.keys.modulus };
          world = w';
        })
  unfolding negotiate_ssp_encryption
  negotiate_ssp_encryption-served exchange key v w w' same big below serves =
      rw (same, made, success)
        (handshake i.keys (2 ^ 31 + 2 ^ 21) big (omega arith) ready exchange key v
          (plain_command ssp_address locals.sspc) (exchange.with_globals i.globals w) w' serves
          below)
