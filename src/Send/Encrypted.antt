-- ===== src/Send/Encrypted.antt =====
-- An encrypted command of `SSPSendCommand`: what is compiled and sent.
pub mod Laws
pub mod Exchange
use e_ssp.Base.{
  if◌then◌else◌, ℕ, suc, ◌+◌, ◌-◌, ◌/◌, ◌≤◌, ◌<◌, bit_or, true, false, List, [], ◌∷◌, ◌++◌, length,
  slice, slice-fill, update, fill, All, IsByte, Run, ok, ◌>>=◌, ◌≡◌, refl, sym, ap, ◌∙◌, arith,
}
use e_ssp.Defs.{Command, Packet, ssp_stex}
use e_ssp.Cipher.{BlockCipher, aes_encrypt}
use e_ssp.Host.{Globals}
use e_ssp.Crypt.{packed_length, encrypt_ssp_packet}
use e_ssp.Crypt.Plain.{plain_packet}
use e_ssp.Crypt.Laws.{encrypted, plain, encrypt_ssp_packet-ok, slice-sealed, fits}
use e_ssp.Packet.{Compiled, encrypt_command, assemble, compile_ssp_command}
use e_ssp.Packet.Frame.{wire_frame}
use e_ssp.Packet.Receive.{IsOpen}
use e_ssp.Packet.Compile.{payload, address_byte, synced, assembled, assemble-ok, reset_seq-ok}

-- The data of an encrypted packet.
abbrev pub sealed_data : BlockCipher → Command → (ℕ → ℕ) → ℕ → ℕ → List ℕ → List ℕ
sealed_data cipher cmd rand calls count xs =
    ssp_stex ∷ aes_encrypt cipher cmd.key (plain_packet rand calls count xs)

module _ (cipher : BlockCipher) (rand : ℕ → ℕ) (cmd : Command) (ssp : Packet) (g : Globals)
    (port : cmd.ssp_address < 200) (short : cmd.command_data_length ≤ 233) where
  -- The data of the frame.
  abbrev pub request_data : List ℕ
  request_data =
      sealed_data cipher cmd rand g.rand_calls (g.enc_pkt_count cmd.ssp_address) (payload cmd)

  -- The command as it is sent.
  abbrev pub sealed_command : Command
  sealed_command =
      let e =
        encrypted cipher rand cmd.ssp_address cmd.command_data cmd.command_data_length cmd.key g
          port short in
      record cmd { command_data = e.data_out; command_data_length = e.length_out }

  payload-sealed : payload sealed_command ≡ request_data
  payload-sealed =
      ap (slice sealed_command.command_data 0) {x = sealed_command.command_data_length}
        {y = suc (packed_length cmd.command_data_length)} (omega arith)
      ∙ ap (λ t. ssp_stex ∷ t)
          (slice-sealed cipher rand cmd.ssp_address cmd.command_data cmd.command_data_length cmd.key
            g port short)

  -- The globals after the encryption: one packet more is counted.
  abbrev pub sealed_globals : Globals
  sealed_globals =
      (encrypted cipher rand cmd.ssp_address cmd.command_data cmd.command_data_length cmd.key g port
        short).globals

  abbrev pub sealed_frame : List ℕ
  sealed_frame = wire_frame (address_byte cmd sealed_globals) request_data

  -- The outcome of the compilation.
  abbrev pub sealed_compiled : Compiled
  sealed_compiled = record {
    globals = sealed_globals;
    cmd = sealed_command;
    packet = assembled sealed_command sealed_globals (record ssp { rx_data = λ _. 0; rx_ptr = 0 });
  }

  frame-sealed :
      wire_frame (address_byte cmd sealed_globals) (payload sealed_command) ≡ sealed_frame
  frame-sealed = ap (wire_frame (address_byte cmd sealed_globals)) payload-sealed

  pub assemble-sealed :
      length sealed_frame ≤ 255
      → (assemble sealed_command sealed_globals (record ssp { rx_data = λ _. 0; rx_ptr = 0 })
          ≡ ok (sealed_compiled.packet))
        × (slice sealed_compiled.packet.tx_data 0 sealed_compiled.packet.tx_buffer_length
            ≡ sealed_frame)
  assemble-sealed room =
      let blocks =
        fits cipher rand cmd.ssp_address cmd.command_data cmd.command_data_length cmd.key g port
          short in
      (
        assemble-ok sealed_command sealed_globals (record ssp { rx_data = λ _. 0; rx_ptr = 0 }) port
            (omega (arith, blocks.room)) (omega (arith, ap length frame-sealed)),
        slice-fill _ 0 (wire_frame (address_byte cmd sealed_globals) (payload sealed_command))
            ∙ frame-sealed,
      )

encrypt_command-sealed :
    (cipher : BlockCipher) (rand : ℕ → ℕ) (cmd : Command) (ssp : Packet) (g : Globals)
    (port : cmd.ssp_address < 200) (short : cmd.command_data_length ≤ 233)
    → cmd.encryption_status ≡ true
    → encrypt_command cipher rand cmd g
      ≡ ok (
        sealed_command cipher rand cmd ssp g port short,
        sealed_globals cipher rand cmd ssp g port short,
      )
unfolding encrypt_command
encrypt_command-sealed cipher rand cmd ssp g port short on =
    ap
      (λ b.
        if b
        then (encrypt_ssp_packet cipher rand cmd.ssp_address cmd.command_data
              cmd.command_data_length cmd.key g
            >>= λ e. ok (
              record cmd { command_data = e.data_out; command_data_length = e.length_out },
              e.globals,
            ))
        else ok (cmd, g))
      on
    ∙ ap
        (λ r. r >>= λ e.
          ok (
            record cmd { command_data = e.data_out; command_data_length = e.length_out },
            e.globals,
          ))
        (encrypt_ssp_packet-ok cipher rand cmd.ssp_address cmd.command_data cmd.command_data_length
          cmd.key g port short)

-- The compilation of an encrypted command, of at most 233 bytes at a port below 200.
pub compile_ssp_command-sealed :
    (cipher : BlockCipher) (rand : ℕ → ℕ) (cmd : Command) (ssp : Packet) (g : Globals)
    (port : cmd.ssp_address < 200) (short : cmd.command_data_length ≤ 233)
    → cmd.encryption_status ≡ true
    → length (sealed_frame cipher rand cmd ssp (synced cmd g) port short) ≤ 255
    → compile_ssp_command cipher rand cmd ssp g
      ≡ ok (sealed_compiled cipher rand cmd ssp (synced cmd g) port short)
unfolding compile_ssp_command
compile_ssp_command-sealed cipher rand cmd ssp g port short on room = rw (reset_seq-ok cmd g port) (
    rw (encrypt_command-sealed cipher rand cmd ssp (synced cmd g) port short on)
      (rw ((assemble-sealed cipher rand cmd ssp (synced cmd g) port short room).0) refl))
