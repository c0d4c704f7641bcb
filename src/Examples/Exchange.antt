-- ===== src/Examples/Exchange.antt =====
-- A payout with encryption, that is answered with one byte of data.
use e_ssp.Base.{
  ℕ, ◌≤◌, ◌∷◌, [], length-slice, List, length, slice, fill, update, true, ok, inl, ◌≡◌, refl, arith,
}
use native.Mathlib.Decide.{dec_lt}
use e_ssp.Defs.{Command, Packet, ssp_reply_ok, ssp_stex}
use e_ssp.Cipher.{aes_decrypt}
use e_ssp.Host.{Globals, Attempt, World}
use e_ssp.Link.{Sent}
use e_ssp.Crypt.{packed_length, pack_length}
use e_ssp.Crypt.Plain.{plain_packet}
use e_ssp.Packet.{receive}
use e_ssp.Packet.Frame.{wire_frame, length-wire_frame}
use e_ssp.Packet.Compile.{payload, address_byte, synced}
use e_ssp.Send.{ssp_send_command}
use e_ssp.Send.Reply.{now}
use e_ssp.Send.Encrypted.{sealed_data, sealed_globals, request_data, sealed_frame}
use e_ssp.Send.Encrypted.Laws.{length-sealed_data}
use e_ssp.Send.Encrypted.Exchange.{ssp_send_command-sealed}
use e_ssp.Examples.{
  adding, dice, idle, payout_command, globals, request_bytes, are_bytes, are_bytes-IsByte,
}
use e_ssp.Examples.Frames.{idle-IsOpen}

abbrev secret_command : Command
secret_command = record payout_command { encryption_status = true }

abbrev reply_frame : List ℕ
reply_frame = wire_frame 0 (sealed_data adding secret_command dice 0 1 (0xF0 ∷ []))

abbrev first : Attempt
first = record { written = true; polls = record { elapsed = 0; arrived = reply_frame } ∷ [] }

abbrev start : World
start = record { globals = globals; script = first ∷ []; sent = [] }

payload_lem : payload secret_command ≡ request_bytes
unfolding fill
payload_lem = refl

abbrev begun : Globals
begun = synced secret_command globals

fits : length (sealed_frame adding dice secret_command idle begun (omega arith) (omega arith)) ≤ 255
unfolding packed_length pack_length
fits = omega (
  arith,
  length-wire_frame
      (address_byte secret_command
        (sealed_globals adding dice secret_command idle begun (omega arith) (omega arith)))
      (request_data adding dice secret_command idle begun (omega arith) (omega arith)),
  length-sealed_data adding secret_command dice begun.rand_calls (begun.enc_pkt_count 0)
      (payload secret_command) (omega (arith, length-slice secret_command.command_data 0 9)),
)

ssp_send_command-sealed_example :
    (r : Sent World) × (ssp_send_command adding dice idle secret_command start ≡ ok r)
    × (r.success ≡ true)
    × (r.cmd.response_status ≡ ssp_reply_ok)
    × (r.cmd.response_data_length ≡ 1)
    × (slice r.cmd.response_data 0 1 ≡ 0xF0 ∷ [])
    × (r.world.globals.enc_pkt_count 0 ≡ 1)
    × (r.world.globals.ssp_seq ≡ update begun.ssp_seq 0 0x80)
    × (r.world.script ≡ [])
    × (frame : List ℕ) × (r.world.sent ≡ frame ∷ [])
    × (got : Packet) × (receive frame idle ≡ ok got)
    × (got.new_response ≡ true)
    × (got.rx_data 3 ≡ ssp_stex)
    × (aes_decrypt adding secret_command.key (slice got.rx_data 4 (packed_length 9))
        ≡ plain_packet dice 0 0 (payload secret_command))
unfolding synced fill are_bytes dec_lt
ssp_send_command-sealed_example =
    ssp_send_command-sealed adding dice idle secret_command start first [] (omega arith)
      (omega arith) 0 dice 0 (0xF0 ∷ []) idle refl (are_bytes-IsByte (payload secret_command) refl)
      (inl refl) fits refl refl (λ e. absurd (omega (arith, e))) refl (omega arith)
      (omega arith, tt) (now _ _ (omega arith) refl) idle-IsOpen refl
