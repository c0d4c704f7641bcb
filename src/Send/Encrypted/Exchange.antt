-- ===== src/Send/Encrypted/Exchange.antt =====
-- A whole call of `SSPSendCommand` with encryption.
use e_ssp.Base.{
  if◌then◌else◌, ◌==◌, ℕ, ◌+◌, ◌≤◌, ◌<◌, u32, bit_and, true, false, List, ◌∷◌, length, slice,
  slice-fill, update, All, IsByte, ok, ◌≡◌, ◌≢◌, refl, arith,
}
use e_ssp.Defs.{Command, Packet, ssp_stx, ssp_stex, ssp_reply_ok}
use e_ssp.Cipher.{BlockCipher, aes_decrypt}
use e_ssp.Host.{Globals, Attempt, World}
use e_ssp.Crypt.{packed_length}
use e_ssp.Crypt.Plain.{plain_packet}
use e_ssp.Packet.{receive}
use e_ssp.Packet.Frame.{wire_frame}
use e_ssp.Packet.Receive.{IsOpen}
use e_ssp.Packet.RoundTrip.{received, receive-wire_frame}
use e_ssp.Packet.Compile.{payload, synced}
use e_ssp.Packet.Exchange.{IsSeq}
use e_ssp.Send.{ssp_send_command}
use e_ssp.Send.Reply.{Brings}
use e_ssp.Link.{Sent}
use e_ssp.Send.Encrypted.Laws.{after_transfer-sealed, sealed_data-room, receive-sealed_frame}
use e_ssp.Send.Laws.{alternated, answered, transmit-answered}
use e_ssp.Send.Encrypted.{
  sealed_data, sealed_command, sealed_globals, sealed_frame, sealed_compiled, assemble-sealed,
  compile_ssp_command-sealed,
}

module _ (cipher : BlockCipher) (rand : ℕ → ℕ) (ssp : Packet) (cmd : Command) (w : World)
    (t : Attempt) (rest : List Attempt) (port : cmd.ssp_address < 127)
    (short : cmd.command_data_length ≤ 233) (a : ℕ) (unit : ℕ → ℕ) (calls : ℕ) (ys : List ℕ)
    (dev : Packet) where
  -- The globals after the sync command's reset.
  abbrev pub before : Globals
  before = synced cmd w.globals

  -- The port is inside the arrays of the library.
  abbrev pub inside : cmd.ssp_address < 200
  inside = omega arith

  -- The count that the host expects in the reply.
  abbrev pub next_count : ℕ
  next_count = u32 (before.enc_pkt_count cmd.ssp_address + 1)

  ssp_send_command-sealed_reply :
      cmd.encryption_status ≡ true
      → length (sealed_frame cipher rand cmd ssp before inside short) ≤ 255
      → w.script ≡ t ∷ rest
      → t.written ≡ true
      → a ≢ ssp_stx
      → bit_and a ssp_stx ≡ cmd.ssp_address
      → length ys ≤ 233
      → All IsByte ys
      → Brings cmd.timeout (wire_frame a (sealed_data cipher cmd unit calls next_count ys)) t.polls
      → ssp_send_command cipher rand ssp cmd w
        ≡ ok (record {
          success = true;
          cmd = answered (sealed_command cipher rand cmd ssp before inside short) ys;
          world = record {
            globals =
                alternated cmd.ssp_address (sealed_globals cipher rand cmd ssp before inside short);
            script = rest;
            sent = sealed_frame cipher rand cmd ssp before inside short ∷ w.sent;
          };
        })
  unfolding ssp_send_command
  ssp_send_command-sealed_reply on fits script written ne us small bytes brings =
      let made = compile_ssp_command-sealed cipher rand cmd ssp w.globals inside short on fits in
      let framed = assemble-sealed cipher rand cmd ssp before inside short fits in
      let p = (sealed_compiled cipher rand cmd ssp before inside short).packet in
      let q = record p { new_response = false } in
      let xs = sealed_data cipher cmd unit calls next_count ys in
      let open_q : IsOpen q = record {
        plain = refl;
        inside = omega arith;
        header = omega arith;
        fits = omega arith;
      } in
      let room = sealed_data-room cipher cmd unit calls next_count ys small in
      let got = receive-wire_frame q a xs open_q ne us room.0 room.1 in
      rw
        (
          made,
          script,
          transmit-answered cmd.timeout cmd.retry_level t rest p (received q a xs) _ w.sent written
              brings (got.0) refl,
          framed.1,
        )
        (after_transfer-sealed cipher (sealed_command cipher rand cmd ssp before inside short) _ q a
          unit calls next_count ys small bytes inside (omega arith) (ground arith))

  -- With encryption, a call with at most 233 bytes of data to an address below 127, in which the first
  -- frame is written and answered in time by an encrypted frame of that address, whose count is the
  -- host's count after this command, succeeds. The command structure holds the data
  -- of the reply, exactly one frame was written, the count has grown by one modulo
  -- 2 ^ 32 and the sequence bit alternates. A unit at that address accepts the written frame, and
  -- its data is `SSP_STEX` and blocks that decrypt with the same key to the plain packet of
  -- the length, the host's count before the call, the data, the packing and the checksum. The
  -- written frame fits the transmit buffer, the unit's receiver is not inside a stuffed pair, the
  -- frame of the reply is for the address, the data of both are bytes, and the sequence bit is 0
  -- or 0x80.
  pub ssp_send_command-sealed :
      cmd.encryption_status ≡ true
      → All IsByte (payload cmd)
      → IsSeq (before.ssp_seq cmd.ssp_address)
      → length (sealed_frame cipher rand cmd ssp before inside short) ≤ 255
      → w.script ≡ t ∷ rest
      → t.written ≡ true
      → a ≢ ssp_stx
      → bit_and a ssp_stx ≡ cmd.ssp_address
      → length ys ≤ 233
      → All IsByte ys
      → Brings cmd.timeout (wire_frame a (sealed_data cipher cmd unit calls next_count ys)) t.polls
      → IsOpen dev
      → dev.ssp_address ≡ cmd.ssp_address
      → (r : Sent World) × (ssp_send_command cipher rand ssp cmd w ≡ ok r)
        × (r.success ≡ true)
        × (r.cmd.response_status ≡ ssp_reply_ok)
        × (r.cmd.response_data_length ≡ length ys)
        × (slice r.cmd.response_data 0 (length ys) ≡ ys)
        × (r.world.globals.enc_pkt_count cmd.ssp_address ≡ next_count)
        × (r.world.globals.ssp_seq
            ≡ update before.ssp_seq cmd.ssp_address
                (if before.ssp_seq cmd.ssp_address == 0x80 then 0 else 0x80))
        × (r.world.script ≡ rest)
        × (frame : List ℕ) × (r.world.sent ≡ frame ∷ w.sent)
        × (got : Packet) × (receive frame dev ≡ ok got)
        × (got.new_response ≡ true)
        × (got.rx_data 3 ≡ ssp_stex)
        × (aes_decrypt cipher cmd.key (slice got.rx_data 4 (packed_length cmd.command_data_length))
            ≡ plain_packet rand before.rand_calls
                (before.enc_pkt_count cmd.ssp_address)
                (payload cmd))
  ssp_send_command-sealed on data_bytes seq fits script written ne us small bytes brings open_dev
        same =
      let (got, took, flag, mark, plain) =
        receive-sealed_frame cipher rand cmd ssp before dev port short data_bytes seq open_dev
          same in
      (
        _,
        ssp_send_command-sealed_reply on fits script written ne us small bytes brings,
        refl,
        refl,
        refl,
        slice-fill cmd.response_data 0 ys,
        ground arith,
        refl,
        refl,
        sealed_frame cipher rand cmd ssp before inside short,
        refl,
        got,
        took,
        flag,
        mark,
        plain,
      )
