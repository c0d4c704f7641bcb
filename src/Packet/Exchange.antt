-- ===== src/Packet/Exchange.antt =====
-- A command goes from one end of the line to the other: `CompileSSPCommand` at the host, and a
-- slave that runs the receiver of `SSPDataIn`.
use e_ssp.Base.{
  ℕ, ◌≤◌, ◌<◌, bit_and, bit_or, bit_and_seven, bit_or_high, bit_or-zero, true, false, List, length,
  length-slice, slice, fill, update, slice-fill-append, ok, ◌⊎◌, ◌≡◌, ◌≢◌, refl, sym, ap, ◌∙◌,
  arith,
}
use e_ssp.Defs.{Command, Packet, ssp_stx}
use e_ssp.Cipher.{BlockCipher}
use e_ssp.Crc.{ssp_crc}
use e_ssp.Crypt.{crc_bytes}
use e_ssp.Host.{Globals}
use e_ssp.Packet.{Compiled, frame_body, compile_ssp_command, receive}
use e_ssp.Packet.Frame.{raw_packet, wire_frame}
use e_ssp.Packet.Receive.{IsOpen}
use e_ssp.Packet.RoundTrip.{received, receive-wire_frame}
use e_ssp.Packet.Compile.{payload, address_byte, synced, compiled, compile_ssp_command-wire_frame}

-- A sequence bit as the library keeps it.
abbrev pub IsSeq : ℕ → Type 0
IsSeq s = (s ≡ 0) ⊎ (s ≡ 0x80)

pub address_of :
    (addr seq : ℕ)
    → addr < 127
    → IsSeq seq
    → (bit_or addr seq ≢ ssp_stx) × (bit_and (bit_or addr seq) ssp_stx ≡ addr)
address_of addr seq small s =
    ground (arith, bit_or_high addr, bit_or-zero addr, bit_and_seven (bit_or addr seq))

pub received_data :
    (ss : Packet) (a : ℕ) (xs : List ℕ) → slice (received ss a xs).rx_data 3 (length xs) ≡ xs
unfolding raw_packet frame_body fill
received_data ss a xs =
    slice-fill-append (update (update (update ss.rx_data 0 ssp_stx) 1 a) 2 (length xs)) 3 xs
      (crc_bytes (ssp_crc (frame_body a xs)))

module _ (cipher : BlockCipher) (rand : ℕ → ℕ) (cmd : Command) (ss dev : Packet) (g : Globals) where
  -- What the host compiles, without encryption and at an address below 127, a slave at that
  -- address that is not in the middle of a stuffed pair accepts, and finds the data of the
  -- command behind the header; the data is at most 250 and not 127 bytes long, and its frame
  -- fits the transmit buffer.
  pub receive-compile_ssp_command :
      cmd.encryption_status ≡ false
      → cmd.ssp_address < 127
      → IsSeq ((synced cmd g).ssp_seq cmd.ssp_address)
      → cmd.command_data_length ≤ 250
      → cmd.command_data_length ≢ 127
      → length (wire_frame (address_byte cmd (synced cmd g)) (payload cmd)) ≤ 255
      → IsOpen dev
      → dev.ssp_address ≡ cmd.ssp_address
      → (c : Compiled) × (compile_ssp_command cipher rand cmd ss g ≡ ok c)
        × (t : Packet) × (receive (slice c.packet.tx_data 0 c.packet.tx_buffer_length) dev ≡ ok t)
        × (t.new_response ≡ true)
        × (slice t.rx_data 3 cmd.command_data_length ≡ payload cmd)
  receive-compile_ssp_command clear port seq short ne fits open_dev same =
      let size = length-slice cmd.command_data 0 cmd.command_data_length in
      let ours = address_of cmd.ssp_address ((synced cmd g).ssp_seq cmd.ssp_address) port seq in
      let a = address_byte cmd (synced cmd g) in
      let made =
        compile_ssp_command-wire_frame cipher rand cmd ss g clear (omega arith) short fits in
      let got =
        receive-wire_frame dev a (payload cmd) open_dev ours.0 (ours.1 ∙ sym same)
          (omega (arith, size)) (λ e. ne (sym size ∙ e)) in
      (
        compiled cipher rand cmd ss g,
        made.0,
        received dev a (payload cmd),
        ap (λ ys. receive ys dev) made.1 ∙ got.0,
        refl,
        ap (slice (received dev a (payload cmd)).rx_data 3) (sym size)
            ∙ received_data dev a (payload cmd),
      )
