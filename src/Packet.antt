-- ===== src/Packet.antt =====
-- `CompileSSPCommand` and `SSPDataIn` of _eSSP/lib/SSPComs.c: a command becomes a framed packet
-- with a checksum and stuffed bytes, and received bytes become a packet again.
pub mod Frame
pub mod Receive
pub mod RoundTrip
pub mod Safety
pub mod Compile
pub mod Exchange
use e_ssp.Base.{
  ℕ, ◌+◌, ◌-◌, ◌/◌, ◌^◌, leb, ◌==◌, if◌then◌else◌, u8, bit_and, bit_or, Bool, true, false, ◌&&◌,
  ◌||◌, List, [], ◌∷◌, length, slice, update, write_all, write, read, Run, ok, require, ◌>>=◌, ◌>>◌,
}
use e_ssp.Defs.{Command, Packet, ssp_stx, ssp_cmd_sync, max_ssp_port}
use e_ssp.Cipher.{BlockCipher}
use e_ssp.Crc.{ssp_crc}
use e_ssp.Crypt.{encrypt_ssp_packet, crc_bytes}
use e_ssp.Host.{Globals}

-- The loop that doubles each `SSP_STX` after the first byte.
unfoldable pub stuff : List ℕ → List ℕ
stuff [] = []
stuff (b ∷ bs) = if b == ssp_stx then ssp_stx ∷ ssp_stx ∷ stuff bs else b ∷ stuff bs

-- The sequence bit starts afresh for a sync command.
unfoldable pub reset_seq : Command → Globals → Run Globals
reset_seq cmd g =
    if cmd.command_data 0 == ssp_cmd_sync
    then (do
      seq ← write max_ssp_port g.ssp_seq cmd.ssp_address 0x80
      ok (record g { ssp_seq = seq }))
    else ok g

-- The packet as it stands before the stuffing: start byte, address and sequence bit, data
-- length, data, checksum of all but the start byte.
unfoldable pub frame_body : ℕ → List ℕ → List ℕ
frame_body addr_seq xs = addr_seq ∷ length xs ∷ xs

unfoldable pub assemble : Command → Globals → Packet → Run Packet
assemble cmd g ss = do
  seq ← read max_ssp_port g.ssp_seq cmd.ssp_address
  let len = cmd.command_data_length
  let tx_length = u8 (len + 5)
  tx ←
      write_all 255 ss.tx_data 0
        (ssp_stx ∷ frame_body (bit_or cmd.ssp_address seq) (slice cmd.command_data 0 len))
  let crc = ssp_crc (slice tx 1 (tx_length - 3))
  tx ← write_all 255 tx (3 + len) (crc_bytes crc)
  let stuffed = tx 0 ∷ stuff (slice tx 1 (tx_length - 1))
  tx ← write_all 255 tx 0 stuffed
  ok (record ss {
    tx_data = tx;
    tx_ptr = 0;
    rx_ptr = 0;
    rx_buffer_length = 3;
    tx_buffer_length = length stuffed;
    ssp_address = cmd.ssp_address;
    check_stuff = false;
  })

pub record Compiled : Type 0 where
  pub globals : Globals
  pub cmd : Command
  pub packet : Packet

-- `EncryptSSPPacket` in place, if the command is to be encrypted.
module _ (cipher : BlockCipher) (rand : ℕ → ℕ) where
  unfoldable pub encrypt_command : Command → Globals → Run (Command × Globals)
  encrypt_command cmd g =
      if cmd.encryption_status
      then (do
        e ←
            encrypt_ssp_packet cipher rand cmd.ssp_address cmd.command_data cmd.command_data_length
              cmd.key g
        ok (
          record cmd { command_data = e.data_out; command_data_length = e.length_out },
          e.globals,
        ))
      else ok (cmd, g)

  -- Returns 1 on every path that returns: `EncryptSSPPacket` never fails.
  unfoldable pub compile_ssp_command : Command → Packet → Globals → Run Compiled
  compile_ssp_command cmd ss g = do
    g ← reset_seq cmd g
    (cmd, g) ← encrypt_command cmd g
    ss ← assemble cmd g (record ss { rx_data = λ _. 0; rx_ptr = 0 })
    ok (record { globals = g; cmd = cmd; packet = ss })

-- `SSPDataIn`. A received byte is stored at `rxPtr`.
unfoldable pub store_byte : ℕ → Packet → Run Packet
store_byte rx_char ss = do
  rx ← write 255 ss.rx_data ss.rx_ptr rx_char
  ok (record ss { rx_data = rx; rx_ptr = u8 (ss.rx_ptr + 1) })

-- The last byte was a start byte: a second one is a stuffed byte, any other restarts the packet.
unfoldable pub after_start : ℕ → Packet → Run Packet
after_start rx_char ss =
    if rx_char == ssp_stx
    then (do ss ← store_byte rx_char ss; ok (record ss { check_stuff = false }))
    else ok (record ss {
      rx_data = update (update ss.rx_data 0 ssp_stx) 1 rx_char;
      rx_ptr = 2;
      check_stuff = false;
    })

-- A start byte may be the first of a stuffed pair; any other is data, and the third byte of a
-- packet gives its length.
unfoldable pub plain_byte : ℕ → Packet → Run Packet
plain_byte rx_char ss = if rx_char == ssp_stx then ok (record ss { check_stuff = true }) else (do
  ss ← store_byte rx_char ss
  ok (if ss.rx_ptr == 3 then record ss { rx_buffer_length = u8 (ss.rx_data 2 + 5) } else ss))

-- Is the packet for us, and is its checksum correct? With `rxBufferLength` below 2 the code would
-- read the checksum before the array.
unfoldable pub check_packet : Packet → Run Bool
check_packet ss =
    let n = ss.rx_buffer_length in
    let crc = ssp_crc (slice ss.rx_data 1 (n - 3)) in
    if bit_and (ss.rx_data 1) ssp_stx == ss.ssp_address
    then (do
      require (leb 2 n)
      ok (
          u8 (bit_and crc 0xFF) == ss.rx_data (n - 2)
          && u8 (bit_and (crc / 2 ^ 8) 0xFF) == ss.rx_data (n - 1)))
    else ok false

-- At the end of the packet.
unfoldable pub end_of_packet : Packet → Run Packet
end_of_packet ss =
    if ss.rx_ptr == ss.rx_buffer_length
    then (do
      accepted ← check_packet ss
      ok (record ss {
        new_response = ss.new_response || accepted;
        rx_ptr = 0;
        check_stuff = false;
      }))
    else ok ss

unfoldable pub ssp_data_in : ℕ → Packet → Run Packet
ssp_data_in rx_char ss = if rx_char == ssp_stx && ss.rx_ptr == 0 then store_byte rx_char ss else (do
  ss ← if ss.check_stuff then after_start rx_char ss else plain_byte rx_char ss
  end_of_packet ss)

-- `while (BytesInBuffer(port) > 0)` of `SSPSendCommand`.
unfoldable pub receive : List ℕ → Packet → Run Packet
receive [] ss = ok ss
receive (b ∷ bs) ss = do ss ← ssp_data_in b ss; receive bs ss
