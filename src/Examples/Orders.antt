-- ===== src/Examples/Orders.antt =====
-- The requests of ssp_commands.c at concrete values.
use e_ssp.Base.{ℕ, some, ◌≡◌}
use e_ssp.Defs.{Command}
use e_ssp.Packet.Compile.{payload}
use e_ssp.Helpers.{with_request}
use e_ssp.Commands.{return_values, setup_command_structure}
use e_ssp.Commands.Requests.{place, read_order, order_of, Misread, Call, read_order_lem}
use e_ssp.Examples.{blank, payout_command}
use e_ssp.Examples.Answers.{answering, setup}

read_order_lem_example :
    ((call : Call)
      → (c : Command) × (place (answering blank) setup payout_command 0 call
          ≡ return_values (answering blank) c 0)
        × (read_order (payload c) ≡ some (order_of call))
        × (c ≡ with_request (setup_command_structure setup payout_command) (payload c)))
    × ((value minimum_payout : ℕ)
        → Misread (answering blank) setup payout_command 0 value minimum_payout)
read_order_lem_example = read_order_lem (answering blank) setup payout_command 0
