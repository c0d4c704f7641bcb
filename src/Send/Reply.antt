-- ===== src/Send/Reply.antt =====
-- The loops of `SSPSendCommand`: how long it waits, and how often it transmits.
use e_ssp.Base.{
  ℕ, ◌+◌, ◌≤◌, ◌<◌, ◌==◌, if◌then◌else◌, u8, true, false, List, [], ◌∷◌, ◌++◌, length, All, slice,
  replicate, replicate-cons, ok, ◌>>=◌, ◌≡◌, refl, ap, ◌∙◌, arith,
}
use e_ssp.Defs.{Packet, ssp_cmd_timeout}
use e_ssp.Host.{Poll, Attempt}
use e_ssp.Packet.{receive}
use e_ssp.Send.{wait_reply, transmit}

-- Rounds of waiting in which nothing arrives, until one that is past the timeout.
pub data IsSilent (timeout : ℕ) : List Poll → Type 0 where
  late : (p : Poll) (ps : List Poll) → timeout < p.elapsed → IsSilent timeout (p ∷ ps)
  quiet :
      (p : Poll) (ps : List Poll)
      → p.elapsed ≤ timeout
      → p.arrived ≡ []
      → IsSilent timeout ps
      → IsSilent timeout (p ∷ ps)

-- Rounds in which nothing arrives, until the bytes do.
pub data Brings (timeout : ℕ) (bytes : List ℕ) : List Poll → Type 0 where
  now :
      (p : Poll) (ps : List Poll)
      → p.elapsed ≤ timeout
      → p.arrived ≡ bytes
      → Brings timeout bytes (p ∷ ps)
  later :
      (p : Poll) (ps : List Poll)
      → p.elapsed ≤ timeout
      → p.arrived ≡ []
      → Brings timeout bytes ps
      → Brings timeout bytes (p ∷ ps)

module _ (timeout : ℕ) (ss : Packet) (none_yet : ss.new_response ≡ false) where
  quiet_round :
      (p : Poll) (ps : List Poll)
      → p.elapsed ≤ timeout
      → p.arrived ≡ []
      → wait_reply timeout (p ∷ ps) ss ≡ wait_reply timeout ps ss
  unfolding wait_reply receive
  quiet_round p ps h nothing =
      ground (arith, ap (λ bs. receive bs ss >>= wait_reply timeout ps) nothing)

  wait_reply-silent :
      {ps : List Poll} → IsSilent timeout ps → wait_reply timeout ps ss ≡ ok (true, ss)
  unfolding wait_reply
  wait_reply-silent (late p ps h) = ground arith
  wait_reply-silent (quiet p ps h nothing rest) =
      quiet_round p ps h nothing ∙ wait_reply-silent rest

  round_done :
      (p : Poll) (ps : List Poll) (t : Packet)
      → p.elapsed ≤ timeout
      → receive p.arrived ss ≡ ok t
      → t.new_response ≡ true
      → wait_reply timeout (p ∷ ps) ss ≡ ok (false, t)
  unfolding wait_reply
  round_done p [] t h got done = ground arith
  round_done p (q ∷ ps) t h got done = ground arith

  pub wait_reply-Brings :
      (bytes : List ℕ) (t : Packet) {ps : List Poll}
      → Brings timeout bytes ps
      → receive bytes ss ≡ ok t
      → t.new_response ≡ true
      → wait_reply timeout ps ss ≡ ok (false, t)
  wait_reply-Brings bytes t (now p ps h e) got done =
      round_done p ps t h (ap (λ bs. receive bs ss) e ∙ got) done
  wait_reply-Brings bytes t (later p ps h nothing rest) got done =
      quiet_round p ps h nothing ∙ wait_reply-Brings bytes t rest got done

-- An attempt that is written, and to which nothing is replied.
abbrev pub IsUnanswered : ℕ → Attempt → Type 0
IsUnanswered timeout a = (a.written ≡ true) × IsSilent timeout a.polls

-- `retry` counts down in an unsigned char and is tested after it is decremented.
abbrev pub rounds : ℕ → ℕ
rounds retry = if retry == 0 then 256 else retry

module _ (timeout : ℕ) where
  -- The packet as a transmission leaves it when nothing is replied.
  abbrev pub unanswered : Packet → Packet
  unanswered ss = record ss { new_response = false }

  transmit-again :
      (retry : ℕ) (a : Attempt) (script : List Attempt) (ss : Packet) (sent : List (List ℕ))
      → IsUnanswered timeout a
      → transmit timeout retry (a ∷ script) ss sent ≡ (
          if u8 (retry + 255) == 0
          then ok (record {
            status = ssp_cmd_timeout;
            packet = unanswered ss;
            script = script;
            sent = slice ss.tx_data 0 ss.tx_buffer_length ∷ sent;
          })
          else transmit timeout
              (u8 (retry + 255))
              script
              (unanswered ss)
              (slice ss.tx_data 0 ss.tx_buffer_length ∷ sent))
  unfolding transmit
  transmit-again retry a script ss sent (written, silent) =
      ground (arith, wait_reply-silent timeout (unanswered ss) refl silent)

  pub transmit-unanswered :
      (tries rest : List Attempt) (retry : ℕ) (ss : Packet) (sent : List (List ℕ))
      → All (IsUnanswered timeout) tries
      → length tries ≡ rounds retry
      → retry < 256
      → transmit timeout retry (tries ++ rest) ss sent
        ≡ ok (record {
          status = ssp_cmd_timeout;
          packet = unanswered ss;
          script = rest;
          sent = replicate (length tries) (slice ss.tx_data 0 ss.tx_buffer_length) ++ sent;
        })
  transmit-unanswered [] rest retry ss sent h size small = absurd (ground arith)
  transmit-unanswered (a ∷ []) rest retry ss sent h size small =
      transmit-again retry a rest ss sent h.0 ∙ ground arith
  transmit-unanswered (a ∷ b ∷ tries) rest retry ss sent h size small =
      let frame = slice ss.tx_data 0 ss.tx_buffer_length in
      let next : length (b ∷ tries) ≡ rounds (u8 (retry + 255)) = ground arith in
      let more : (u8 (retry + 255) == 0) ≡ false = ground arith in
      let ih =
        transmit-unanswered (b ∷ tries) rest (u8 (retry + 255)) (unanswered ss) (frame ∷ sent) h.1
          next (omega arith) in
      transmit-again retry a (b ∷ tries ++ rest) ss sent h.0
      ∙ rw more (
          ih
          ∙ ap
              (λ log. ok (record {
                status = ssp_cmd_timeout;
                packet = unanswered ss;
                script = rest;
                sent = log;
              }))
              (replicate-cons (length (b ∷ tries)) frame sent))
