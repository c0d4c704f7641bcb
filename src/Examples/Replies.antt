-- ===== src/Examples/Replies.antt =====
-- Polls of _eSSP/lib/ssp_commands.c answered with several events.
use e_ssp.Base.{ℕ, suc, length, List, [], ◌∷◌, ◌++◌, All, fill, true, ok, fault, ◌≡◌, refl, arith}
use e_ssp.Defs.{Command, ssp_reply_ok, ssp_response_ok}
use e_ssp.Link.{Link}
use e_ssp.Helpers.{with_request}
use e_ssp.Helpers.Poll.Simple.{Item, plain, with_byte, encode}
use e_ssp.Commands.{Reply, setup_command_structure, return_values, request}
use e_ssp.Commands.Replies.{PollData, data_size, ssp_poll}
use e_ssp.Commands.Polls.{IsAnnounced, Entered, ssp_poll-Entered, ssp_poll-late_amount}
use e_ssp.Examples.{listed, payout_command}
use e_ssp.Examples.Answers.{setup}

-- Reset, a note read in channel 2, stacked; and an amount of 500.
abbrev items : List Item
items = plain 0xF1 ∷ with_byte 0xEF 2 ∷ plain 0xEB ∷ []

abbrev three_events : List ℕ
three_events = 0xF0 ∷ encode items

abbrev amount_last : List ℕ
amount_last = three_events ++ 0xD2 ∷ 0xF4 ∷ 1 ∷ 0 ∷ 0 ∷ []

abbrev answered_by : List ℕ → Command → Command
answered_by bytes cmd = record cmd {
  response_data = listed bytes;
  response_data_length = length bytes;
  response_status = ssp_reply_ok;
}

abbrev replying : List ℕ → Link ℕ
replying bytes = record {
  send = λ cmd w. ok (record { success = true; cmd = answered_by bytes cmd; world = suc w });
  negotiate = λ addr key w. ok (record { success = true; key = key; world = w });
}

abbrev reply_of : List ℕ → Reply ℕ
reply_of bytes = record {
  resp = ssp_response_ok;
  cmd = answered_by bytes (with_request (setup_command_structure setup payout_command) (0x07 ∷ []));
  world = 1;
}

abbrev no_poll : PollData
no_poll = record { events = λ n. record { event = 0; datum = 0 }; event_count = 0 }

announced : All IsAnnounced items
unfolding data_size
announced = (refl, (refl, (refl, tt)))

ssp_poll-Entered_example :
    (t : PollData) × (ssp_poll (replying three_events) setup payout_command 0 no_poll
      ≡ ok (t, reply_of three_events))
    × (t.event_count ≡ 3)
    × Entered t 0 items
unfolding request return_values fill
ssp_poll-Entered_example =
    ssp_poll-Entered (replying three_events) setup payout_command 0 no_poll (reply_of three_events)
      items refl refl announced refl (omega arith) refl

ssp_poll-late_amount_example :
    ssp_poll (replying amount_last) setup payout_command 0 no_poll ≡ fault
unfolding request return_values fill data_size
ssp_poll-late_amount_example =
    ssp_poll-late_amount (replying amount_last) setup payout_command 0 no_poll
      (reply_of amount_last) items refl refl announced refl (omega arith) (omega arith)
      (omega arith) (omega arith) refl
