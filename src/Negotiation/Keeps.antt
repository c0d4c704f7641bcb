-- ===== src/Negotiation/Keeps.antt =====
-- A negotiation changes only the encryption key of the caller, and only when it succeeds.
use e_ssp.Base.{ℕ, ◌==◌, false, List, Run, ok, Post, Post-ok, Post-after, ◌≡◌, refl, arith}
use e_ssp.Defs.{Command, FullKey, ssp_response_ok}
use e_ssp.Link.{Negotiated}
use e_ssp.Helpers.{with_request}
use e_ssp.Negotiation.Random.{Entropy}
use e_ssp.Negotiation.Range.{Post-choice}
use e_ssp.Negotiation.{Keys, initiate_ssp_host_keys, create_ssp_host_encryption_key}
use e_ssp.Negotiation.Session.{
  Exchange, Locals, request_step, finish_negotiation, negotiate_ssp_encryption,
}

-- What a negotiation may change of a key.
pub record Kept {W : Type 0} (key : FullKey) (n : Negotiated W) : Type 0 where
  pub fixed : n.key.fixed_key ≡ key.fixed_key
  pub on_failure : n.success ≡ false → n.key ≡ key

module _ {W : Type 0} (exchange : Exchange W) (key : FullKey) where
  failed : (w : W) → Kept key (record { success = false; key = key; world = w })
  failed w = record { fixed = refl; on_failure = λ e. refl }

  request_step-Kept :
      (bytes : List ℕ) (c : Command) (w : W) (next : Command → W → Run (Negotiated W))
      → ((c : Command) (w : W) → Post (Kept key) (next c w))
      → Post (Kept key) (request_step exchange bytes key c w next)
  unfolding request_step
  request_step-Kept bytes c w next h =
      Post-after (Kept key) (exchange.send (with_request c bytes) w) _ λ s.
        Post-choice (Kept key) (next s.cmd s.world)
          (ok (record { success = false; key = key; world = s.world })) (h s.cmd s.world)
          (Post-ok (Kept key) _ (failed s.world)) (s.cmd.response_data 0 == ssp_response_ok)

  finish_negotiation-Kept :
      (k : Keys) (c : Command) (w : W) → Post (Kept key) (finish_negotiation exchange k key c w)
  unfolding finish_negotiation
  finish_negotiation-Kept k c w =
      Post-after (Kept key) (create_ssp_host_encryption_key _) _
        λ k. Post-ok (Kept key) _ (record { fixed = refl; on_failure = λ e. absurd (ground arith) })

  -- Whatever is behind the port: a negotiation that returns leaves the fixed key as it was, and
  -- one that fails leaves the whole key as it was.
  pub negotiate_ssp_encryption-Kept :
      (entropy : Entropy) (locals : Locals) (ssp_address : ℕ) (w : W)
      → Post (Kept key) (negotiate_ssp_encryption exchange entropy locals ssp_address key w)
  unfolding negotiate_ssp_encryption
  negotiate_ssp_encryption-Kept entropy locals ssp_address w =
      Post-after (Kept key)
        (initiate_ssp_host_keys entropy locals.fuel locals.temp_keys ssp_address
          (exchange.globals w))
        _
        λ i.
          Post-choice (Kept key) _
            (ok (record { success = false; key = key; world = exchange.with_globals i.globals w }))
            (request_step-Kept _ _ _ _ λ c w. request_step-Kept _ c w _ λ c w.
              request_step-Kept _ c w _
                λ c w. request_step-Kept _ c w _ λ c w. finish_negotiation-Kept i.keys c w)
            (Post-ok (Kept key) _ (failed (exchange.with_globals i.globals w))) i.success
