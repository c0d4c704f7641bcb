-- ===== src/Examples/Wire.antt =====
-- The negotiation of keys frame by frame, with a unit whose secret number is 5.
use e_ssp.Base.{ℕ, true, List, [], ◌∷◌, refl, arith}
use e_ssp.Defs.{ssp_response_ok}
use e_ssp.Cipher.{le_bytes}
use e_ssp.Host.{Attempt, World}
use e_ssp.Packet.Frame.{wire_frame}
use e_ssp.Send.Reply.{now}
use e_ssp.Negotiation.Session.{over_port, negotiate_ssp_encryption}
use e_ssp.Negotiation.Handshake.{shared_key}
use e_ssp.Negotiation.Wire.{Station, Replied}
use e_ssp.Negotiation.Wired.{Ended, unit_power, negotiate_ssp_encryption-Ended}
use e_ssp.Examples.{adding, idle, globals, payout_command}
use e_ssp.Examples.Negotiation.{entropy, locals, initiated, initiate, unit}

-- The reply after 10 milliseconds, with the sequence bit of the host.
abbrev reply : ℕ → List ℕ → Attempt
reply seq xs = record {
  written = true;
  polls = record { elapsed = 10; arrived = wire_frame seq xs } ∷ [];
}

reply-high : (xs : List ℕ) → Replied 0 1000 (reply 0x80 xs) xs
reply-high xs = record {
  address = 0x80;
  no_stx = λ e. absurd (omega (arith, e));
  ours = refl;
  written = refl;
  brings = now _ _ (omega arith) refl;
}

reply-low : (xs : List ℕ) → Replied 0 1000 (reply 0 xs) xs
reply-low xs = record {
  address = 0;
  no_stx = λ e. absurd (omega (arith, e));
  ours = refl;
  written = refl;
  brings = now _ _ (omega arith) refl;
}

abbrev last_reply : List ℕ
last_reply = ssp_response_ok ∷ le_bytes 8 (unit_power initiated.keys unit)

abbrev station : Station
station = record { device = idle; slave = unit }

abbrev talking : World
talking = record {
  globals = globals;
  script =
      reply 0x80 (ssp_response_ok ∷ [])
      ∷ reply 0 (ssp_response_ok ∷ [])
      ∷ reply 0x80 (ssp_response_ok ∷ [])
      ∷ reply 0 last_reply
      ∷ [];
  sent = [];
}

negotiate_ssp_encryption-Ended_example :
    Ended
      (negotiate_ssp_encryption
        (over_port adding entropy idle)
        entropy
        locals
        0
        payout_command.key
        talking)
      payout_command.key
      initiated.keys
      talking
      station
      []
      (shared_key initiated.keys unit)
negotiate_ssp_encryption-Ended_example =
    negotiate_ssp_encryption-Ended adding entropy idle locals 0 payout_command.key talking station
      initiated _ _ _ _ [] (omega arith) initiate refl (omega arith) (omega arith)
      (record { plain = refl; inside = omega arith; header = omega arith; fits = omega arith }) refl
      refl (reply-high _) (reply-low _) (reply-high _) (reply-low _)
