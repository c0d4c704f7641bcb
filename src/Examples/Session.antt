-- ===== src/Examples/Session.antt =====
-- A session of one call that is answered.
use e_ssp.Base.{◌+◌, ◌%◌, ◌^◌, fill, List, [], ◌∷◌, true, ok, ◌≡◌, refl, arith}
use e_ssp.Host.{World}
use e_ssp.Packet.Frame.{wire_frame}
use e_ssp.Packet.Compile.{payload, address_byte, synced}
use e_ssp.Link.{Sent}
use e_ssp.Send.{ssp_send_command}
use e_ssp.Send.Reply.{now, later}
use e_ssp.Send.Laws.{alternated, answered, ssp_send_command-reply}
use e_ssp.Send.Session.{Event, event_of, replay_bit, encryptions, no_call, then_call, Calls-replay}
use e_ssp.Examples.{adding, dice, idle, payout_command, globals}
use e_ssp.Examples.Frames.{fits}
use e_ssp.Examples.Calls.{reply_bytes, answered_once, live_line}

abbrev finished : World
finished = record {
  globals = alternated 0 (synced payout_command globals);
  script = [];
  sent =
      wire_frame (address_byte payout_command (synced payout_command globals))
        (payload payout_command)
      ∷ [];
}

abbrev outcome : Sent World
outcome = record { success = true; cmd = answered payout_command reply_bytes; world = finished }

one_call : ssp_send_command adding dice idle payout_command live_line ≡ ok outcome
one_call =
    (ssp_send_command-reply adding dice idle payout_command live_line answered_once [] 0 reply_bytes
      refl (omega arith) (omega arith) fits refl refl
      (later _ _ (omega arith) refl (now _ _ (omega arith) refl)) (λ e. absurd (omega (arith, e)))
      refl (omega arith) (λ e. absurd (omega (arith, e))) (λ e. absurd (omega (arith, e)))).0

abbrev events : List Event
events = event_of payout_command true ∷ []

Calls-replay_example :
    (finished.globals.ssp_seq 0 ≡ replay_bit 0 events 0)
    × (finished.globals.enc_pkt_count 0 ≡ (0 + encryptions 0 events) % 2 ^ 32)
Calls-replay_example =
    Calls-replay adding dice
      (then_call live_line finished idle payout_command outcome [] one_call (no_call finished)) 0
      (omega arith)

bit_set : replay_bit 0 events 0 ≡ 0x80
unfolding replay_bit fill
bit_set = refl
