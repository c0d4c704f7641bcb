-- ===== src/Packet/Compile.antt =====
-- What `CompileSSPCommand` puts on the wire.
use e_ssp.Base.{
  ℕ, ◌+◌, ◌-◌, ◌≤◌, ◌<◌, ◌==◌, if◌then◌else◌, leb, u8, bit_or, true, false, List, [], ◌∷◌, ◌++◌,
  length, length-append, length-slice, Array, slice, fill, fill-append, slice-fill, fill-at, update,
  ok, ◌≡◌, refl, sym, ap, ap₂, ◌∙◌, arith,
}
use e_ssp.Defs.{Command, Packet, ssp_stx, ssp_cmd_sync}
use e_ssp.Cipher.{BlockCipher}
use e_ssp.Crc.{ssp_crc}
use e_ssp.Crypt.{crc_bytes}
use e_ssp.Host.{Globals}
use e_ssp.Packet.{
  Compiled, stuff, frame_body, assemble, reset_seq, encrypt_command, compile_ssp_command,
}
use e_ssp.Packet.Frame.{raw_packet, wire_frame}
use e_ssp.Packet.Receive.{IsOpen}

-- The data that a command carries.
abbrev pub payload : Command → List ℕ
payload cmd = slice cmd.command_data 0 cmd.command_data_length

module _ (tx : Array) (a : ℕ) (xs : List ℕ) where
  abbrev headed : Array
  headed = fill tx 0 (ssp_stx ∷ frame_body a xs)

  abbrev summed : Array
  summed = fill headed (3 + length xs) (crc_bytes (ssp_crc (frame_body a xs)))

  length-frame_body : length (frame_body a xs) ≡ length xs + 2
  unfolding frame_body
  length-frame_body = omega arith

  slice-headed : slice headed 1 (length xs + 2) ≡ frame_body a xs
  unfolding fill
  slice-headed =
      ap (slice headed 1) (sym length-frame_body)
      ∙ slice-fill (update tx 0 ssp_stx) 1 (frame_body a xs)

  summed_lem : summed ≡ fill tx 0 (raw_packet a xs)
  unfolding raw_packet
  summed_lem =
      ap (λ n. fill headed n (crc_bytes (ssp_crc (frame_body a xs))))
        (omega (arith, length-frame_body))
      ∙ sym (fill-append tx 0 (ssp_stx ∷ frame_body a xs) (crc_bytes (ssp_crc (frame_body a xs))))

  summed_first : summed 0 ≡ ssp_stx
  unfolding raw_packet
  summed_first = ap (λ (f : Array). f 0) summed_lem ∙ fill-at tx 0 [] ssp_stx _

  slice-summed :
      slice summed 1 (length xs + 4) ≡ frame_body a xs ++ crc_bytes (ssp_crc (frame_body a xs))
  unfolding raw_packet fill crc_bytes
  slice-summed =
      ap (λ f. slice f 1 (length xs + 4)) summed_lem
      ∙ ap (slice (fill tx 0 (raw_packet a xs)) 1)
          {y = length (frame_body a xs ++ crc_bytes (ssp_crc (frame_body a xs)))}
          (omega (
            arith,
            length-frame_body,
            length-append (frame_body a xs) (crc_bytes (ssp_crc (frame_body a xs))),
          ))
      ∙ slice-fill (update tx 0 ssp_stx) 1 _

-- The address byte of a packet.
abbrev pub address_byte : Command → Globals → ℕ
address_byte cmd g = bit_or cmd.ssp_address (g.ssp_seq cmd.ssp_address)

-- The transmit buffer and its length after the stuffing, and the receiver as the reply finds it.
abbrev pub assembled : Command → Globals → Packet → Packet
assembled cmd g ss = record ss {
  tx_data =
      fill (summed ss.tx_data (address_byte cmd g) (payload cmd)) 0
        (wire_frame (address_byte cmd g) (payload cmd));
  tx_ptr = 0;
  rx_ptr = 0;
  rx_buffer_length = 3;
  tx_buffer_length = length (wire_frame (address_byte cmd g) (payload cmd));
  ssp_address = cmd.ssp_address;
  check_stuff = false;
}

module _ (cmd : Command) (g : Globals) (ss : Packet) (port : cmd.ssp_address < 200)
    (short : cmd.command_data_length ≤ 250)
    (fits : length (wire_frame (address_byte cmd g) (payload cmd)) ≤ 255) where
  abbrev before : Array
  before = headed ss.tx_data (address_byte cmd g) (payload cmd)

  abbrev after : Array
  after = summed ss.tx_data (address_byte cmd g) (payload cmd)

  payload_size : length (payload cmd) ≡ cmd.command_data_length
  payload_size = length-slice cmd.command_data 0 cmd.command_data_length

  room : leb (0 + length (ssp_stx ∷ frame_body (address_byte cmd g) (payload cmd))) 255 ≡ true
  room =
      ground (arith, length-frame_body ss.tx_data (address_byte cmd g) (payload cmd), payload_size)

  checked :
      slice before 1 (u8 (cmd.command_data_length + 5) - 3)
      ≡ frame_body (address_byte cmd g) (payload cmd)
  checked =
      ap (slice before 1) {y = length (payload cmd) + 2} (omega (arith, payload_size))
      ∙ slice-headed ss.tx_data (address_byte cmd g) (payload cmd)

  summed_here :
      fill before
        (3 + cmd.command_data_length)
        (crc_bytes (ssp_crc (frame_body (address_byte cmd g) (payload cmd))))
      ≡ after
  summed_here =
      ap
        (λ n.
          fill before (3 + n) (crc_bytes (ssp_crc (frame_body (address_byte cmd g) (payload cmd)))))
        (sym payload_size)

  to_stuff :
      after 0 ∷ stuff (slice after 1 (u8 (cmd.command_data_length + 5) - 1))
      ≡ wire_frame (address_byte cmd g) (payload cmd)
  unfolding wire_frame
  to_stuff =
      ap₂ (λ b ys. b ∷ stuff ys) (summed_first ss.tx_data (address_byte cmd g) (payload cmd))
        (ap (slice after 1) {y = length (payload cmd) + 4} (omega (arith, payload_size))
          ∙ slice-summed ss.tx_data (address_byte cmd g) (payload cmd))

  crc_room :
      leb
        (3
          + cmd.command_data_length
          + length (crc_bytes (ssp_crc (frame_body (address_byte cmd g) (payload cmd)))))
        255
      ≡ true
  unfolding crc_bytes
  crc_room = ground arith

  pub assemble-ok : assemble cmd g ss ≡ ok (assembled cmd g ss)
  unfolding assemble
  assemble-ok = ground (arith, room, checked, crc_room, summed_here, to_stuff)

-- The globals once a sync command has reset the sequence bit.
unfoldable pub synced : Command → Globals → Globals
synced cmd g =
    if cmd.command_data 0 == ssp_cmd_sync
    then record g { ssp_seq = update g.ssp_seq cmd.ssp_address 0x80 }
    else g

pub reset_seq-ok :
    (cmd : Command) (g : Globals) → cmd.ssp_address < 200 → reset_seq cmd g ≡ ok (synced cmd g)
unfolding reset_seq synced
reset_seq-ok cmd g port = ground arith

module _ (cipher : BlockCipher) (rand : ℕ → ℕ) (cmd : Command) (ss : Packet) (g : Globals) where
  -- The outcome of a compilation without encryption.
  abbrev pub compiled : Compiled
  compiled = record {
    globals = synced cmd g;
    cmd = cmd;
    packet = assembled cmd (synced cmd g) (record ss { rx_data = λ _. 0; rx_ptr = 0 });
  }

  -- Compiling a command that is not encrypted, at a port below 200, with at most 250 bytes of data
  -- and a frame that fits the buffer, succeeds. The transmit buffer then holds the frame of the
  -- address byte and the data, the command is unchanged, only a sync command changes the
  -- sequence bit, and the receiver waits for a packet.
  pub compile_ssp_command-wire_frame :
      cmd.encryption_status ≡ false
      → cmd.ssp_address < 200
      → cmd.command_data_length ≤ 250
      → length (wire_frame (address_byte cmd (synced cmd g)) (payload cmd)) ≤ 255
      → (compile_ssp_command cipher rand cmd ss g ≡ ok compiled)
        × (slice compiled.packet.tx_data 0 compiled.packet.tx_buffer_length
            ≡ wire_frame (address_byte cmd (synced cmd g)) (payload cmd))
        × IsOpen compiled.packet
  unfolding compile_ssp_command encrypt_command
  compile_ssp_command-wire_frame clear port short fits = (
    ground (
      arith,
      reset_seq-ok cmd g port,
      assemble-ok cmd (synced cmd g) (record ss { rx_data = λ _. 0; rx_ptr = 0 }) port short fits,
    ),
    slice-fill _ 0 (wire_frame (address_byte cmd (synced cmd g)) (payload cmd)),
    record { plain = refl; inside = omega arith; header = omega arith; fits = omega arith },
  )
