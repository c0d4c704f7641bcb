-- ===== src/Examples/Encryption.antt =====
-- The encryption of a request, and of one that is too long.
use e_ssp.Base.{
  fill, ◌+◌, ◌-◌, ◌*◌, ◌/◌, slice, Array, All, IsByte, update, u32, ok, fault, ◌≡◌, arith,
}
use e_ssp.Defs.{ssp_stex}
use e_ssp.Crypt.{Encrypted, pack_length, encrypt_ssp_packet, decrypt_ssp_packet}
use e_ssp.Crypt.Plain.{plain_packet}
use e_ssp.Crypt.Laws.{decrypt_ssp_packet-encrypt_ssp_packet, encrypt_ssp_packet-fault}
use e_ssp.Examples.{adding, dice, globals, payout_command}

request_bytes-IsByte : All IsByte (slice payout_command.command_data 0 9)
unfolding fill
request_bytes-IsByte = (
  omega arith,
  (
    omega arith,
    (
      omega arith,
      (omega arith, (omega arith, (omega arith, (omega arith, (omega arith, (omega arith, tt)))))),
    ),
  ),
)

decrypt_ssp_packet-encrypt_ssp_packet_example :
    (e : Encrypted) × (encrypt_ssp_packet adding dice 3 payout_command.command_data 9
        payout_command.key globals
      ≡ ok e)
    × (e.data_out 0 ≡ ssp_stex)
    × (e.length_out ≡ 9 + 7 + pack_length 9 + 1)
    × ((e.length_out - 1) / 16 * 16 ≡ e.length_out - 1)
    × (e.globals.enc_pkt_count ≡ update globals.enc_pkt_count 3 (u32 (0 + 1)))
    × (e.globals.rand_calls ≡ 0 + pack_length 9)
    × (buf : Array) × (decrypt_ssp_packet adding e.data_out 1 (e.length_out - 1) payout_command.key
        ≡ ok buf)
    × (slice buf 1 (e.length_out - 1)
        ≡ plain_packet dice 0 0 (slice payout_command.command_data 0 9))
decrypt_ssp_packet-encrypt_ssp_packet_example =
    decrypt_ssp_packet-encrypt_ssp_packet adding dice 3 payout_command.command_data 9
      payout_command.key globals (omega arith) (omega arith) request_bytes-IsByte

encrypt_ssp_packet-fault_example :
    encrypt_ssp_packet adding dice 3 payout_command.command_data 240 payout_command.key globals
    ≡ fault
encrypt_ssp_packet-fault_example =
    encrypt_ssp_packet-fault adding dice 3 payout_command.command_data 240 payout_command.key
      globals (omega arith) (omega arith) (omega arith)
