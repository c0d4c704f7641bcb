-- ===== src/Examples/Setups.antt =====
-- Replies to a setup request: a validator and a hopper, each with one channel.
use e_ssp.Base.{ℕ, ◌+◌, ◌*◌, ◌^◌, ◌<◌, ◌∷◌, [], Array, fill, slice, ok, ◌≡◌, refl, arith}
use e_ssp.Helpers.Setup.{SetupData6, parse_setup}
use e_ssp.Helpers.Setup.Layout.{IsChannel, parse_setup-validator, parse_setup-hopper}
use e_ssp.Examples.{blank, listed}

abbrev nothing : SetupData6
nothing = record {
  unit_type = 0;
  firmware_version = blank;
  number_of_channels = 0;
  channel_data = λ k. record { security = 0; value = 0; cc = blank };
  real_value_multiplier = 0;
  protocol_version = 0;
}

-- Unit type 0, firmware 0100, one channel of 5 EUR.
abbrev validator : Array
validator = listed (
    0xF0 ∷ 0 ∷ 48 ∷ 49 ∷ 48 ∷ 48 ∷ 69 ∷ 85 ∷ 82 ∷ 0 ∷ 0 ∷ 1 ∷ 1 ∷ 5 ∷ 2 ∷ 0 ∷ 0 ∷ 100 ∷ 6 ∷ 69 ∷ 85
    ∷ 82 ∷ 5 ∷ 0 ∷ 0 ∷ 0 ∷ [])

parse_setup-validator_example :
    (d : SetupData6) × (parse_setup validator nothing ≡ ok d)
    × (d.unit_type ≡ validator 1)
    × (slice d.firmware_version 0 4 ≡ slice validator 2 4)
    × (d.firmware_version 4 ≡ 0)
    × (d.number_of_channels ≡ validator 12)
    × (d.real_value_multiplier
        ≡ validator (13 + validator 12 * 2) * 2 ^ 16
          + validator (14 + validator 12 * 2) * 2 ^ 8
          + validator (15 + validator 12 * 2))
    × (d.protocol_version ≡ validator (16 + validator 12 * 2))
    × ((j : ℕ)
        → j < validator 12
        → ((d.channel_data j).security ≡ validator (13 + validator 12 + j))
          × IsChannel validator
              (17 + validator 12 * 2 + j * 3)
              (17 + validator 12 * 5 + j * 4)
              4
              (d.channel_data j))
unfolding fill
parse_setup-validator_example =
    parse_setup-validator validator nothing (λ e. absurd (omega (arith, e))) (omega arith)

-- Unit type 3, one channel of 5 cent.
abbrev hopper : Array
hopper = listed (0xF0 ∷ 3 ∷ 48 ∷ 49 ∷ 48 ∷ 48 ∷ 69 ∷ 85 ∷ 82 ∷ 6 ∷ 1 ∷ 5 ∷ 0 ∷ 69 ∷ 85 ∷ 82 ∷ [])

parse_setup-hopper_example :
    (d : SetupData6) × (parse_setup hopper nothing ≡ ok d)
    × (d.unit_type ≡ 3)
    × (slice d.firmware_version 0 4 ≡ slice hopper 2 4)
    × (d.firmware_version 4 ≡ 10)
    × (d.number_of_channels ≡ hopper 10)
    × (d.real_value_multiplier ≡ nothing.real_value_multiplier)
    × (d.protocol_version ≡ hopper 9)
    × ((j : ℕ)
        → j < hopper 10
        → ((d.channel_data j).security ≡ (nothing.channel_data j).security)
          × IsChannel hopper (11 + hopper 10 * 2 + j * 3) (11 + j * 2) 2 (d.channel_data j))
unfolding fill
parse_setup-hopper_example = parse_setup-hopper hopper nothing refl (omega arith)
