-- ===== src/Negotiation/Handshake.antt =====
-- A negotiation with a unit that follows the protocol, over a line that delivers everything, leaves
-- both sides with the same key.
use e_ssp.Base.{ℕ, ◌%◌, ◌^◌, ◌≤◌, ◌<◌, true, List, [], ◌∷◌, ok, ◌≡◌, refl, ap, ◌∙◌, arith}
use native.Mathlib.Nat.{mod-lt}
use e_ssp.Defs.{Command, FullKey, ssp_cmd_sync, ssp_response_ok}
use e_ssp.Cipher.{le_bytes}
use e_ssp.Link.{Negotiated}
use e_ssp.Helpers.{with_request}
use e_ssp.Helpers.Requests.{payload-with_request}
use e_ssp.Negotiation.Random.{Entropy}
use e_ssp.Negotiation.Agree.{pow_swap}
use e_ssp.Negotiation.{
  Keys, Initiated, initiate_ssp_host_keys, ssp_cmd_set_generator, ssp_cmd_set_modulus,
  ssp_cmd_req_key_exchange,
}
use e_ssp.Negotiation.Session.{Locals, negotiate_ssp_encryption, plain_command}
use e_ssp.Negotiation.Slave.{Slave, answer, Line, line, delivered}
use e_ssp.Negotiation.Same.{Accepts, answer_sync, answer_generator, answer_modulus, answer_exchange}
use e_ssp.Negotiation.Served.{Serves, host_power, initiated-small, negotiate_ssp_encryption-served}

-- The key of both sides.
abbrev pub shared_key : Keys → Slave → ℕ
shared_key k s = (k.generator ^ s.secret % k.modulus) ^ k.host_random % k.modulus

-- The result when both sides hold the key `shared`.
abbrev pub agreed : Initiated → FullKey → Slave → ℕ → Negotiated Line
agreed i key s shared = record {
  success = true;
  key = record key { encrypt_key = shared };
  world = record {
    globals = i.globals;
    slave = record s { generator = i.keys.generator; modulus = i.keys.modulus; key = shared };
  };
}

-- A request over the line.
line-Accepts :
    (bytes rest : List ℕ) (c : Command) (w : Line) (s : Slave)
    → answer bytes w.slave ≡ record { reply = ssp_response_ok ∷ rest; slave = s }
    → Accepts line bytes rest c
        (delivered (with_request c bytes) (ssp_response_ok ∷ rest))
        w
        (record w { slave = s })
unfolding line with_request
line-Accepts bytes rest c w s e = record {
  sends = rw (payload-with_request c bytes, e) refl;
  carries = refl;
}

-- When the host keys are initiated with a modulus above 1, the searches for primes having 2^20
-- rounds at most, a negotiation with a unit that follows the protocol over a line that delivers
-- everything succeeds, the unit holds the generator and the modulus of the host, and the key of
-- the host is the key of the unit.
pub negotiate_ssp_encryption-agreed :
    (entropy : Entropy) (locals : Locals) (ssp_address : ℕ) (key : FullKey) (w : Line)
    (i : Initiated)
    → locals.fuel ≤ 2 ^ 20
    → initiate_ssp_host_keys entropy locals.fuel locals.temp_keys ssp_address w.globals ≡ ok i
    → i.success ≡ true
    → 1 < i.keys.modulus
    → negotiate_ssp_encryption line entropy locals ssp_address key w
      ≡ ok (agreed i key w.slave (shared_key i.keys w.slave))
unfolding line
negotiate_ssp_encryption-agreed entropy locals ssp_address key w i fuel e success big =
    let small = initiated-small entropy locals ssp_address w.globals i fuel e success big in
    let g = i.keys.generator in
    let m = i.keys.modulus in
    let h = host_power i.keys in
    let v = g ^ w.slave.secret % m in
    let h-lt : h < m = mod-lt (g ^ i.keys.host_random) (omega arith) in
    let s1 = record (w.slave) { generator = g } in
    let s2 = record s1 { modulus = m } in
    let s3 = record s2 { key = h ^ s2.secret % m } in
    let at : Slave → Line = λ s. record { globals = i.globals; slave = s } in
    let serves : Serves line i.keys v (plain_command ssp_address locals.sspc) (at w.slave) (at s3) =
      record {
        c1 = _;
        c2 = _;
        c3 = _;
        c4 = _;
        w1 = _;
        w2 = _;
        w3 = _;
        syncs =
            line-Accepts (ssp_cmd_sync ∷ []) [] (plain_command ssp_address locals.sspc) (at w.slave)
              w.slave (answer_sync w.slave);
        sets_generator =
            line-Accepts (ssp_cmd_set_generator ∷ le_bytes 8 g) [] _ (at w.slave) s1
              (answer_generator w.slave g small.0);
        sets_modulus =
            line-Accepts (ssp_cmd_set_modulus ∷ le_bytes 8 m) [] _ (at s1) s2
              (answer_modulus s1 m small.1);
        exchanges =
            line-Accepts (ssp_cmd_req_key_exchange ∷ le_bytes 8 h) (le_bytes 8 v) _ (at s2) s3
              (answer_exchange s2 h (omega (arith, h-lt, small.1)));
      } in
    negotiate_ssp_encryption-served entropy locals ssp_address w.globals i fuel e success line key v
      w (at s3) refl big (mod-lt (g ^ w.slave.secret) (omega arith)) serves
    ∙ ap
        (λ x. ok (record {
          success = true;
          key = record key { encrypt_key = shared_key i.keys w.slave };
          world = at (record s2 { key = x });
        }))
        (pow_swap g i.keys.host_random w.slave.secret m)
