-- ===== src/Send.antt =====
-- `SSPSendCommand` of _eSSP/lib/SSPComs.c: transmission with retries, the wait for a reply, and the
-- decoding of the reply.
pub mod Reply
pub mod Laws
pub mod Sequence
pub mod Session
pub mod Opened
pub mod Sealed
pub mod Encrypted
use e_ssp.Base.{
  ℕ, ◌+◌, ◌-◌, ◌*◌, ◌/◌, ◌^◌, ltb, leb, ◌==◌, if◌then◌else◌, u8, u32, bit_and, Bool, true, false,
  not, ◌&&◌, ◌||◌, List, [], ◌∷◌, ◌++◌, length, slice, update, write_all, read, write, Run, ok,
  waiting, require, ◌>>=◌, ◌>>◌,
}
use e_ssp.Defs.{
  Command, Packet, PortStatus, ssp_reply_ok, port_error, ssp_cmd_timeout, ssp_packet_error,
  ssp_stex, ssp_response_timeout, max_ssp_port,
}
use e_ssp.Cipher.{BlockCipher}
use e_ssp.Crc.{ssp_crc}
use e_ssp.Crypt.{decrypt_ssp_packet, crc_bytes}
use e_ssp.Host.{Globals, Poll, Attempt, World}
use e_ssp.Link.{Sent}
use e_ssp.Packet.{Compiled, compile_ssp_command, receive}

-- The loop `while(!ssp.NewResponse)`: has the reply timed out, and the packet. A script that ends
-- before either is a wait without end.
unfoldable pub wait_reply : ℕ → List Poll → Packet → Run (Bool × Packet)
wait_reply timeout [] ss = if ss.new_response then ok (false, ss) else waiting
wait_reply timeout (p ∷ ps) ss =
    if ss.new_response
    then ok (false, ss)
    else if ltb timeout p.elapsed
    then ok (true, ss)
    else (do ss ← receive p.arrived ss; wait_reply timeout ps ss)

-- What is left after the transmissions.
pub record Transfer : Type 0 where
  pub status : PortStatus
  pub packet : Packet
  pub script : List Attempt
  pub sent : List (List ℕ)

-- The loop `do … while(retry > 0)`; `retry` is an unsigned char.
unfoldable pub transmit : ℕ → ℕ → List Attempt → Packet → List (List ℕ) → Run Transfer
transmit timeout retry [] ss sent = waiting
transmit timeout retry (a ∷ script) ss sent =
    if a.written
    then (do
      let log = slice ss.tx_data 0 ss.tx_buffer_length ∷ sent
      (timed_out, ss) ← wait_reply timeout a.polls (record ss { new_response = false })
      let more = transmit timeout (u8 (retry + 255)) script ss log
      if not timed_out
          then ok (record { status = ssp_reply_ok; packet = ss; script = script; sent = log })
          else if u8 (retry + 255) == 0
          then ok (record { status = ssp_cmd_timeout; packet = ss; script = script; sent = log })
          else more)
    else ok (record {
      status = port_error;
      packet = record ss { new_response = false };
      script = script;
      sent = sent;
    })

-- The four bytes of a little-endian number at `i`.
abbrev pub le32_at : (ℕ → ℕ) → ℕ → ℕ
le32_at a i = u32 (a i + a (i + 1) * 2 ^ 8 + a (i + 2) * 2 ^ 16 + a (i + 3) * 2 ^ 24)

-- The reply once it is restored from an encrypted one, or the refusal of it.
pub data Decoded : Type 0 where
  packet_error : Decoded
  decoded : Packet → Decoded

module _ (cipher : BlockCipher) where
  -- The checks of an encrypted reply; `ssp` holds the decrypted bytes from index 4 on.
  unfoldable pub checks_out : ℕ → ℕ → Packet → Run Bool
  checks_out count encrypt_length ss = do
    let crc = ssp_crc (slice ss.rx_data 4 (encrypt_length - 2))
    require (leb (4 + (encrypt_length - 2)) 255)
    lo ← read 255 ss.rx_data (ss.rx_data 2 + 1)
    if u8 (bit_and crc 0xFF) == lo
        then (do
          hi ← read 255 ss.rx_data (ss.rx_data 2 + 2)
          ok (u8 (bit_and (crc / 2 ^ 8) 0xFF) == hi && le32_at ss.rx_data 5 == count))
        else ok false

  -- The plain packet is built in `tData` and copied back.
  unfoldable pub restore_packet : Packet → Run Packet
  restore_packet ss = do
    let n = ss.rx_data 4
    let rx_length = u8 (n + 5)
    require (leb (9 + n) 255)
    t ← write_all 255 (λ _. 0) 0 (ss.rx_data 0 ∷ ss.rx_data 1 ∷ n ∷ slice ss.rx_data 9 n)
    t ← write_all 255 t (3 + n) (crc_bytes (ssp_crc (slice t 1 (rx_length - 3))))
    rx ← write_all 255 ss.rx_data 0 (slice t 0 rx_length)
    ok (record ss { rx_data = rx; rx_buffer_length = rx_length })

  -- The branch for a reply that starts with `SSP_STEX`.
  unfoldable pub decode_reply : Command → Globals → Packet → Run Decoded
  decode_reply cmd g ss =
      if ss.rx_data 3 == ssp_stex
      then (do
        let encrypt_length = u8 (ss.rx_data 2 + 255)
        rx ← decrypt_ssp_packet cipher ss.rx_data 4 encrypt_length cmd.key
        count ← read max_ssp_port g.enc_pkt_count cmd.ssp_address
        good ← checks_out count encrypt_length (record ss { rx_data = rx })
        if good
            then (do ss ← restore_packet (record ss { rx_data = rx }); ok (decoded ss))
            else ok packet_error)
      else ok (decoded ss)

-- `cmd->ResponseDataLength = ssp.rxData[2]`, and the loop that copies the data.
unfoldable pub load_response : Command → Packet → Run Command
load_response cmd ss = do
  let n = ss.rx_data 2
  require (leb (n + 3) 255)
  r ← write_all 255 cmd.response_data 0 (slice ss.rx_data 3 n)
  ok (record cmd { response_data_length = n; response_data = r; response_status = ssp_reply_ok })

-- The sequence bit alternates after a reply.
unfoldable pub alternate : ℕ → Globals → Run Globals
alternate addr g = do
  seq ← read max_ssp_port g.ssp_seq addr
  ok (record g { ssp_seq = update g.ssp_seq addr (if seq == 0x80 then 0 else 0x80) })

-- After a reply: decode it, and hand its data over.
module _ (cipher : BlockCipher) where
  unfoldable pub take_reply : Command → World → Decoded → Run (Sent World)
  take_reply cmd w packet_error = ok (record {
    success = false;
    cmd = record cmd { response_status = ssp_packet_error };
    world = w;
  })
  take_reply cmd w (decoded ss) = do
    cmd ← load_response cmd ss
    g ← alternate cmd.ssp_address w.globals
    ok (record { success = true; cmd = cmd; world = record w { globals = g } })

  unfoldable pub after_transfer : Command → World → PortStatus → Packet → Run (Sent World)
  after_transfer cmd w ssp_reply_ok ss = do
    d ← decode_reply cipher cmd w.globals ss
    take_reply cmd w d
  after_transfer cmd w ssp_cmd_timeout ss = ok (record {
    success = false;
    cmd = record cmd {
      response_status = ssp_cmd_timeout;
      response_data = update cmd.response_data 0 ssp_response_timeout;
    };
    world = w;
  })
  after_transfer cmd w status ss =
      ok (record { success = false; cmd = record cmd { response_status = status }; world = w })

  -- `CompileSSPCommand` returns 1 whenever it returns, so the early return for its failure is
  -- never taken.
  unfoldable pub ssp_send_command : (ℕ → ℕ) → Packet → Command → World → Run (Sent World)
  ssp_send_command rand ssp cmd w = do
    c ← compile_ssp_command cipher rand cmd ssp w.globals
    t ← transmit c.cmd.timeout c.cmd.retry_level w.script c.packet w.sent
    after_transfer c.cmd (record { globals = c.globals; script = t.script; sent = t.sent }) t.status
        t.packet
