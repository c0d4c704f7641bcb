-- ===== src/Examples/Calls.antt =====
-- Calls of Send and Helpers, at concrete commands and replies.
use e_ssp.Base.{
  ℕ, Post, ◌∷◌, [], ◌++◌, List, replicate, slice, update, true, false, ok, ◌≡◌, refl, arith,
}
use e_ssp.Defs.{Command, ssp_cmd_timeout, ssp_response_timeout}
use e_ssp.Host.{Attempt, World}
use e_ssp.Link.{Link}
use e_ssp.Packet.{Compiled}
use e_ssp.Packet.Frame.{wire_frame}
use e_ssp.Packet.Compile.{payload, address_byte, synced, compiled, compile_ssp_command-wire_frame}
use e_ssp.Send.{ssp_send_command}
use e_ssp.Send.Reply.{late, quiet, now, later, IsUnanswered}
use e_ssp.Send.Laws.{alternated, answered, ssp_send_command-timeout, ssp_send_command-reply}
use e_ssp.Send.Sequence.{bits_after, ssp_send_command-seq}
use e_ssp.Examples.{adding, dice, idle, payout_command, globals}
use e_ssp.Examples.Frames.{fits}

-- Nothing arrives, at 10 and at 1001 milliseconds.
abbrev unanswered_once : Attempt
unanswered_once = record {
  written = true;
  polls = record { elapsed = 10; arrived = [] } ∷ record { elapsed = 1001; arrived = [] } ∷ [];
}

silent : IsUnanswered 1000 unanswered_once
silent = (refl, quiet _ _ (omega arith) refl (late _ _ (omega arith)))

abbrev dead_line : World
dead_line = record { globals = globals; script = replicate 3 unanswered_once; sent = [] }

abbrev made : Compiled
made = compiled adding dice payout_command idle globals

ssp_send_command-timeout_example :
    ssp_send_command adding dice idle payout_command dead_line
    ≡ ok (record {
      success = false;
      cmd = record payout_command {
        response_status = ssp_cmd_timeout;
        response_data = update payout_command.response_data 0 ssp_response_timeout;
      };
      world = record {
        globals = made.globals;
        script = [];
        sent = replicate 3 (slice made.packet.tx_data 0 made.packet.tx_buffer_length) ++ [];
      };
    })
ssp_send_command-timeout_example =
    ssp_send_command-timeout adding dice idle payout_command dead_line made
      (replicate 3 unanswered_once) []
      ((compile_ssp_command-wire_frame adding dice payout_command idle globals refl (omega arith)
        (omega arith) fits).0)
      (omega arith) refl (silent, (silent, (silent, tt))) refl

-- The reply "OK" arrives at 20 milliseconds.
abbrev pub reply_bytes : List ℕ
reply_bytes = 0xF0 ∷ []

abbrev pub answered_once : Attempt
answered_once = record {
  written = true;
  polls =
      record { elapsed = 10; arrived = [] }
      ∷ record { elapsed = 20; arrived = wire_frame 0 reply_bytes }
      ∷ [];
}

abbrev pub live_line : World
live_line = record { globals = globals; script = answered_once ∷ []; sent = [] }

ssp_send_command-reply_example :
    (ssp_send_command adding dice idle payout_command live_line
      ≡ ok (record {
        success = true;
        cmd = answered payout_command reply_bytes;
        world = record {
          globals = alternated 0 (synced payout_command globals);
          script = [];
          sent =
              wire_frame
                (address_byte payout_command (synced payout_command globals))
                (payload payout_command)
              ∷ [];
        };
      }))
    × (slice (answered payout_command reply_bytes).response_data 0 1 ≡ reply_bytes)
ssp_send_command-reply_example =
    ssp_send_command-reply adding dice idle payout_command live_line answered_once [] 0 reply_bytes
      refl (omega arith) (omega arith) fits refl refl
      (later _ _ (omega arith) refl (now _ _ (omega arith) refl)) (λ e. absurd (omega (arith, e)))
      refl (omega arith) (λ e. absurd (omega (arith, e))) (λ e. absurd (omega (arith, e)))

ssp_send_command-seq_example :
    Post
      (λ s.
        s.world.globals.ssp_seq ≡ bits_after adding dice idle payout_command live_line s.success)
      (ssp_send_command adding dice idle payout_command live_line)
ssp_send_command-seq_example = ssp_send_command-seq adding dice idle payout_command live_line

-- A line whose state is the list of the commands sent.
abbrev recorder : Link (List Command)
recorder = record {
  send = λ cmd w. ok (record { success = true; cmd = cmd; world = cmd ∷ w });
  negotiate = λ addr key w. ok (record { success = true; key = key; world = w });
}
