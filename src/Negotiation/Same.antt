-- ===== src/Negotiation/Same.antt =====
-- A negotiation with a unit that follows the protocol leaves both sides with the same key.
use e_ssp.Base.{
  ℕ, ◌*◌, ◌%◌, ◌^◌, ◌≤◌, ◌<◌, ◌==◌, true, false, List, [], ◌∷◌, Array, fill, fill-at, lt→ltb, Run,
  ok, fault, waiting, ◌>>=◌, ◌≡◌, refl, sym, ap, ◌∙◌, arith,
}
use native.Mathlib.Nat.{mul-le-mul}
use e_ssp.Defs.{Command, FullKey, ssp_cmd_sync, ssp_response_ok}
use e_ssp.Cipher.{le_bytes}
use e_ssp.Cipher.Laws.{length-le_bytes}
use e_ssp.Link.{Negotiated}
use e_ssp.Helpers.{with_request}
use e_ssp.Negotiation.Long.{ℤ, pos, to_unsigned, to_signed}
use e_ssp.Negotiation.Random.{x_pow_y_mod_n}
use e_ssp.Negotiation.Power.{x_pow_y_mod_n-pos}
use e_ssp.Negotiation.{
  Keys, create_ssp_host_encryption_key, ssp_cmd_set_generator, ssp_cmd_set_modulus,
  ssp_cmd_req_key_exchange,
}
use e_ssp.Negotiation.Ready.{Ready}
use e_ssp.Negotiation.Session.{Exchange, request_step, finish_negotiation, le_sum}
use e_ssp.Negotiation.Slave.{number-le_bytes, le_sum-fill, Slave, answer}

-- A request that is sent and answered with `SSP_RESPONSE_OK` and the bytes `rest` behind it.
pub record Accepts {W : Type 0} (exchange : Exchange W) (bytes rest : List ℕ) (c c' : Command)
    (w w' : W) : Type 0 where
  pub sends :
      exchange.send (with_request c bytes) w ≡ ok (record { success = true; cmd = c'; world = w' })
  pub carries : c'.response_data ≡ fill c.response_data 0 (ssp_response_ok ∷ rest)

module _ {W : Type 0} (exchange : Exchange W) (bytes rest : List ℕ) (c c' : Command) (w w' : W)
    (h : Accepts exchange bytes rest c c' w w') where
  pub accepted :
      (key : FullKey) (next : Command → W → Run (Negotiated W))
      → request_step exchange bytes key c w next ≡ next c' w'
  unfolding request_step
  accepted key next =
      let status : c'.response_data 0 ≡ ssp_response_ok =
        ap (λ (a : Array). a 0) h.carries ∙ fill-at c.response_data 0 [] ssp_response_ok rest in
      rw (h.sends) (
        ap
          (λ n. elim (n == ssp_response_ok) as (λ b. Run (Negotiated W)) [
            | true ↦ next c' w'
            | false ↦ ok (record { success = false; key = key; world = w' })
          ])
          status)

-- The answers of the unit to the requests of the negotiation.
module _ (s : Slave) where
  pub answer_sync :
      answer (ssp_cmd_sync ∷ []) s ≡ record { reply = ssp_response_ok ∷ []; slave = s }
  unfolding answer
  answer_sync = refl

  pub answer_generator :
      (v : ℕ)
      → v < 256 ^ 8
      → answer (ssp_cmd_set_generator ∷ le_bytes 8 v) s
        ≡ record { reply = ssp_response_ok ∷ []; slave = record s { generator = v } }
  unfolding answer
  answer_generator v h =
      ap (λ n. record { reply = ssp_response_ok ∷ []; slave = record s { generator = n } })
        (number-le_bytes 8 v h)

  pub answer_modulus :
      (v : ℕ)
      → v < 256 ^ 8
      → answer (ssp_cmd_set_modulus ∷ le_bytes 8 v) s
        ≡ record { reply = ssp_response_ok ∷ []; slave = record s { modulus = v } }
  unfolding answer
  answer_modulus v h =
      ap (λ n. record { reply = ssp_response_ok ∷ []; slave = record s { modulus = n } })
        (number-le_bytes 8 v h)

  pub answer_exchange :
      (v : ℕ)
      → v < 256 ^ 8
      → answer (ssp_cmd_req_key_exchange ∷ le_bytes 8 v) s ≡ record {
        reply = ssp_response_ok ∷ le_bytes 8 (s.generator ^ s.secret % s.modulus);
        slave = record s { key = v ^ s.secret % s.modulus };
      }
  unfolding answer
  answer_exchange v h =
      ap
        (λ n. record {
          reply = ssp_response_ok ∷ le_bytes 8 (s.generator ^ s.secret % s.modulus);
          slave = record s { key = n ^ s.secret % s.modulus };
        })
        (number-le_bytes 8 v h)

bind_ok :
    {A B C : Type 0} (r : Run A) (f : A → B) (g : B → Run C)
    → ((r >>= λ a. ok (f a)) >>= g) ≡ (r >>= λ a. g (f a))
bind_ok (ok a) f g = refl
bind_ok fault f g = refl
bind_ok waiting f g = refl

to_signed-small : (v : ℕ) → v < 2 ^ 63 → to_signed v ≡ pos v
to_signed-small v h = rw (lt→ltb v (2 ^ 63) h) refl

-- What the host makes of the reply with the unit's intermediate key.
pub finished :
    {W : Type 0} (exchange : Exchange W) (bound : ℕ) (k : Keys) (key : FullKey) (c : Command)
    (w : W) (a : Array) (v : ℕ)
    → 1 < k.modulus
    → bound * bound < 2 ^ 63
    → Ready bound k
    → v < k.modulus
    → c.response_data ≡ fill a 0 (ssp_response_ok ∷ le_bytes 8 v)
    → finish_negotiation exchange k key c w
      ≡ ok (record {
        success = true;
        key = record key { encrypt_key = v ^ k.host_random % k.modulus };
        world = w;
      })
unfolding finish_negotiation create_ssp_host_encryption_key
finished {W} exchange bound k key c w a v big square ready below reply =
    let room : k.modulus * k.modulus ≤ bound * bound =
      mul-le-mul (ready.modulus-le) (ready.modulus-le) in
    let room' : k.modulus * v ≤ bound * bound =
      mul-le-mul (ready.modulus-le) (omega (arith, ready.modulus-le)) in
    let one : k.modulus * 1 ≤ k.modulus * k.modulus =
      mul-le-mul {n₁ = k.modulus} {m₁ = 1} {n₂ = k.modulus} {m₂ = k.modulus} (omega arith)
        (omega arith) in
    let value : le_sum c.response_data 1 8 ≡ v =
      ap (λ r. le_sum r 1 8) reply
      ∙ ap (le_sum (fill a 0 (ssp_response_ok ∷ le_bytes 8 v)) 1) (sym (length-le_bytes 8 v))
      ∙ le_sum-fill a ssp_response_ok (le_bytes 8 v)
      ∙ number-le_bytes 8 v (omega arith) in
    let slave : to_signed (le_sum c.response_data 1 8) ≡ pos v =
      ap to_signed value ∙ to_signed-small v (omega arith) in
    let finish : ℤ → Run (Negotiated W) = λ x. x_pow_y_mod_n x k.host_random k.modulus >>= λ p.
    ok (record { success = true; key = record key { encrypt_key = to_unsigned p }; world = w }) in
    bind_ok (x_pow_y_mod_n _ k.host_random k.modulus) _ _
    ∙ ap finish slave
    ∙ rw
        (x_pow_y_mod_n-pos v k.host_random k.modulus big (omega arith) (omega arith)
          (omega (arith, ready.random-lt)))
        refl
