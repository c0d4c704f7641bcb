-- ===== src/Examples/Answers.antt =====
-- A link that answers a setup request of ssp_commands.c, with one channel and with 17.
use e_ssp.Base.{
  ◌++◌, ℕ, suc, ◌<◌, ◌∷◌, [], Array, IsByte, update, slice, true, false, ok, fault, ◌≡◌, refl,
  arith,
}
use e_ssp.Defs.{ssp_reply_ok, ssp_response_ok}
use e_ssp.Link.{Link, Sent}
use e_ssp.Commands.{Setup, Reply}
use e_ssp.Commands.Replies.{ChannelData, SetupRequestData, ssp_setup_request}
use e_ssp.Commands.Setups.{Answers, ssp_setup_request-read, ssp_setup_request-fault}
use e_ssp.Helpers.{with_request}
use e_ssp.Commands.{setup_command_structure}
use e_ssp.Examples.{blank, payout_command}

-- Only the response code and the number of channels are not 0.
abbrev reply : ℕ → Array
reply channels = update (update blank 0 ssp_response_ok) 12 channels

abbrev pub answering : Array → Link ℕ
answering bytes = record {
  send = λ cmd w. ok (record {
    success = true;
    cmd = record cmd { response_data = bytes; response_status = ssp_reply_ok };
    world = suc w;
  });
  negotiate = λ addr key w. ok (record { success = true; key = key; world = w });
}

abbrev pub setup : Setup
setup = record {
  key = payout_command.key;
  timeout = 1000;
  ssp_address = 0;
  retry_level = 3;
  encryption_status = false;
}

abbrev sent : ℕ → Sent ℕ
sent channels = record {
  success = true;
  cmd = record (with_request (setup_command_structure setup payout_command) (0x05 ∷ [])) {
    response_data = reply channels;
    response_status = ssp_reply_ok;
  };
  world = 1;
}

reply-Answers :
    (channels : ℕ) → Answers (answering (reply channels)) setup payout_command 0 (sent channels)
reply-Answers channels = record { sends = refl; succeeds = refl; received = refl; accepted = refl }

reply-IsByte : (channels : ℕ) → channels < 256 → (j : ℕ) → IsByte (reply channels j)
reply-IsByte channels h j = ground arith

abbrev empty_channels : ChannelData
empty_channels = record { number_of_channels = 0; channel_data = blank }

abbrev no_setup : SetupRequestData
no_setup = record {
  unit_type = 0;
  firmware_version = [];
  country_code = [];
  value_multiplier = 0;
  channel_values = empty_channels;
  channel_security = empty_channels;
  real_value_multiplier = 0;
  protocol_version = 0;
}

ssp_setup_request-read_example :
    (d : SetupRequestData) × (r : Reply ℕ) × (ssp_setup_request
        (answering (reply 1))
        setup
        payout_command
        0
        no_setup
      ≡ ok (d, r))
    × (r.resp ≡ ssp_response_ok)
    × (d.unit_type ≡ 0)
    × (d.firmware_version ≡ slice (reply 1) 2 4 ++ 0 ∷ [])
    × (d.country_code ≡ slice (reply 1) 6 3 ++ 0 ∷ [])
    × (d.value_multiplier ≡ 0)
    × (d.channel_values.number_of_channels ≡ 1)
    × (d.channel_security.number_of_channels ≡ 1)
    × (slice d.channel_values.channel_data 0 1 ≡ slice (reply 1) 13 1)
    × (slice d.channel_security.channel_data 0 1 ≡ slice (reply 1) 14 1)
    × (d.real_value_multiplier ≡ 0)
    × (d.protocol_version ≡ 0)
ssp_setup_request-read_example =
    ssp_setup_request-read (answering (reply 1)) setup payout_command 0 (sent 1) no_setup
      (reply-Answers 1) (reply-IsByte 1 (omega arith)) (omega arith)

ssp_setup_request-fault_example :
    ssp_setup_request (answering (reply 17)) setup payout_command 0 no_setup ≡ fault
ssp_setup_request-fault_example =
    ssp_setup_request-fault (answering (reply 17)) setup payout_command 0 (sent 17) no_setup
      (reply-Answers 17) (omega arith)
