-- ===== src/Examples/Amounts.antt =====
-- A poll of _eSSP/lib/ssp_commands.c answered with one amount.
use e_ssp.Base.{ℕ, suc, ◌*◌, ◌^◌, [], ◌∷◌, Array, fill, true, ok, ◌≡◌, refl, arith}
use e_ssp.Defs.{ssp_reply_ok, ssp_response_ok}
use e_ssp.Link.{Link}
use e_ssp.Helpers.{with_request}
use e_ssp.Commands.{Reply, setup_command_structure, return_values, request}
use e_ssp.Commands.Replies.{PollData, data_size, ssp_poll}
use e_ssp.Commands.Amounts.{first_amount, ssp_poll-amount}
use e_ssp.Examples.{listed, payout_command}
use e_ssp.Examples.Answers.{setup}

-- Dispensed: 500.
abbrev dispensed : Array
dispensed = listed (0xF0 ∷ 0xD2 ∷ 0xF4 ∷ 1 ∷ 0 ∷ 0 ∷ [])

abbrev polled : Link ℕ
polled = record {
  send = λ cmd w. ok (record {
    success = true;
    cmd = record cmd {
      response_data = dispensed;
      response_data_length = 6;
      response_status = ssp_reply_ok;
    };
    world = suc w;
  });
  negotiate = λ addr key w. ok (record { success = true; key = key; world = w });
}

abbrev answer : Reply ℕ
answer = record {
  resp = ssp_response_ok;
  cmd = record (with_request (setup_command_structure setup payout_command) (0x07 ∷ [])) {
    response_data = dispensed;
    response_data_length = 6;
    response_status = ssp_reply_ok;
  };
  world = 1;
}

answered : request polled setup payout_command 0 (0x07 ∷ []) ≡ ok answer
unfolding request return_values fill
answered = refl

abbrev no_poll : PollData
no_poll = record { events = λ n. record { event = 0; datum = 0 }; event_count = 0 }

one_amount :
    (t : PollData) × (ssp_poll polled setup payout_command 0 no_poll ≡ ok (t, answer))
    × (t.event_count ≡ 1)
    × ((t.events 0).event ≡ 0xD2)
    × ((t.events 0).datum ≡ first_amount dispensed * 2 ^ 16)
unfolding data_size fill
one_amount =
    ssp_poll-amount polled setup payout_command 0 no_poll answer answered refl refl refl
      (omega arith) (omega arith) (omega arith) (omega arith)
