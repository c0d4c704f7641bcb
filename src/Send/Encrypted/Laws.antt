-- ===== src/Send/Encrypted/Laws.antt =====
-- What the unit makes of the frame of an encrypted command of `SSPSendCommand`, and the host of the
-- encrypted reply.
use e_ssp.Base.{
  ℕ, ◌+◌, ◌/◌, ◌^◌, ◌≤◌, ◌<◌, true, List, [], ◌∷◌, length, length-slice, slice, All, IsByte, ok,
  ◌≡◌, ◌≢◌, refl, sym, ap, ◌∙◌, arith,
}
use e_ssp.Defs.{Command, Packet, ssp_stx, ssp_stex, ssp_reply_ok}
use e_ssp.Cipher.{BlockCipher, aes_encrypt, aes_decrypt}
use e_ssp.Cipher.Laws.{length-aes_encrypt, aes_decrypt-encrypt}
use e_ssp.Host.{Globals, World}
use e_ssp.Crc.{ssp_crc}
use e_ssp.Crypt.{packed_length, crc_bytes}
use e_ssp.Crypt.Plain.{plain_packet, plain_packet-IsByte, length-plain_packet, packed_length-Fits}
use e_ssp.Packet.{receive, frame_body}
use e_ssp.Packet.Frame.{raw_packet}
use e_ssp.Packet.Receive.{IsOpen}
use e_ssp.Packet.RoundTrip.{received, receive-wire_frame}
use e_ssp.Packet.Compile.{payload, address_byte}
use e_ssp.Packet.Exchange.{IsSeq, address_of}
use e_ssp.Send.{load_response, take_reply, after_transfer}
use e_ssp.Send.Opened.{slice-fill_inside}
use e_ssp.Send.Sealed.{IsSealed, decode_reply-sealed}
use e_ssp.Send.Laws.{alternated, alternate-ok, answered, first_data, length_byte}
use e_ssp.Send.Encrypted.{sealed_data, sealed_frame}

-- The sealed data has whole blocks behind the mark.
pub length-sealed_data :
    (cipher : BlockCipher) (cmd : Command) (rand : ℕ → ℕ) (calls count : ℕ) (ys : List ℕ)
    → length ys ≤ 233
    → length (sealed_data cipher cmd rand calls count ys) ≡ packed_length (length ys) + 1
length-sealed_data cipher cmd rand calls count ys short =
    let fits = packed_length-Fits (length ys) short in
    let size = length-plain_packet rand calls count ys short in
    omega (
      arith,
      length-aes_encrypt cipher cmd.key (packed_length (length ys) / 16)
          (plain_packet rand calls count ys) (size ∙ sym fits.blocks),
      fits.blocks,
    )

-- The encrypted blocks behind the header of a packet that has been received.
blocks_received :
    (cipher : BlockCipher) (cmd : Command) (ss : Packet) (a : ℕ) (rand : ℕ → ℕ) (calls count : ℕ)
    (ys : List ℕ)
    → length ys ≤ 233
    → slice
        (received ss a (sealed_data cipher cmd rand calls count ys)).rx_data
        4
        (packed_length (length ys))
      ≡ aes_encrypt cipher cmd.key (plain_packet rand calls count ys)
unfolding raw_packet frame_body
blocks_received cipher cmd ss a rand calls count ys short =
    let xs = sealed_data cipher cmd rand calls count ys in
    let sealed = aes_encrypt cipher cmd.key (plain_packet rand calls count ys) in
    ap (slice (received ss a xs).rx_data 4) {y = length sealed}
      (omega (arith, length-sealed_data cipher cmd rand calls count ys short))
    ∙ slice-fill_inside ss.rx_data 0 (ssp_stx ∷ a ∷ length xs ∷ ssp_stex ∷ []) sealed
        (crc_bytes (ssp_crc (frame_body a xs)))

-- An encrypted reply as the receiver leaves it.
received-IsSealed :
    (cipher : BlockCipher) (cmd : Command) (ss : Packet) (a : ℕ) (rand : ℕ → ℕ) (calls count : ℕ)
    (ys : List ℕ)
    → length ys ≤ 233
    → All IsByte ys
    → count < 2 ^ 32
    → IsSealed cipher cmd.key
        (received ss a (sealed_data cipher cmd rand calls count ys))
        rand
        calls
        count
        ys
received-IsSealed cipher cmd ss a rand calls count ys short bytes small =
    let xs = sealed_data cipher cmd rand calls count ys in
    record {
      short = short;
      bytes = bytes;
      fits = small;
      size = length_byte ss a xs ∙ length-sealed_data cipher cmd rand calls count ys short;
      mark =
          first_data ss a ssp_stex (aes_encrypt cipher cmd.key (plain_packet rand calls count ys));
      sealed = blocks_received cipher cmd ss a rand calls count ys short;
    }

module _ (cipher : BlockCipher) (cmd : Command) (w : World) (ss : Packet) (a : ℕ) (rand : ℕ → ℕ)
    (calls count : ℕ) (ys : List ℕ) (short : length ys ≤ 233) (bytes : All IsByte ys)
    (port : cmd.ssp_address < 200) where
  load_response-at :
      (t : Packet)
      → t.rx_data 2 ≡ length ys
      → slice t.rx_data 3 (length ys) ≡ ys
      → load_response cmd t ≡ ok (answered cmd ys)
  unfolding load_response
  load_response-at t size bytes_of = ground (arith, size, bytes_of)

  -- After an encrypted reply with the count of the host, its data is handed over.
  pub after_transfer-sealed :
      count < 2 ^ 32
      → w.globals.enc_pkt_count cmd.ssp_address ≡ count
      → after_transfer cipher cmd w ssp_reply_ok
          (received ss a (sealed_data cipher cmd rand calls count ys))
        ≡ ok (record {
          success = true;
          cmd = answered cmd ys;
          world = record w { globals = alternated cmd.ssp_address w.globals };
        })
  unfolding after_transfer take_reply
  after_transfer-sealed small same =
      let (t, took, size, same_data) =
        decode_reply-sealed cipher cmd w.globals
          (received ss a (sealed_data cipher cmd rand calls count ys)) rand calls count ys
          (received-IsSealed cipher cmd ss a rand calls count ys short bytes small) port same in
      rw (took, load_response-at t size same_data, alternate-ok cmd.ssp_address w.globals port) refl

-- The data of an encrypted packet fits a frame, and its length is no start byte.
pub sealed_data-room :
    (cipher : BlockCipher) (cmd : Command) (rand : ℕ → ℕ) (calls count : ℕ) (ys : List ℕ)
    → length ys ≤ 233
    → (length (sealed_data cipher cmd rand calls count ys) ≤ 250)
      × (length (sealed_data cipher cmd rand calls count ys) ≢ 127)
sealed_data-room cipher cmd rand calls count ys short =
    let fits = packed_length-Fits (length ys) short in
    let size = length-sealed_data cipher cmd rand calls count ys short in
    (omega (arith, size, fits.room), λ e. absurd (omega (arith, size, fits.blocks, e)))

-- What a unit makes of the frame of an encrypted command.
pub receive-sealed_frame :
    (cipher : BlockCipher) (rand : ℕ → ℕ) (cmd : Command) (ssp : Packet) (g : Globals)
    (dev : Packet) (port : cmd.ssp_address < 127) (short : cmd.command_data_length ≤ 233)
    → All IsByte (payload cmd)
    → IsSeq (g.ssp_seq cmd.ssp_address)
    → IsOpen dev
    → dev.ssp_address ≡ cmd.ssp_address
    → (got : Packet) × (receive (sealed_frame cipher rand cmd ssp g (omega arith) short) dev
        ≡ ok got)
      × (got.new_response ≡ true)
      × (got.rx_data 3 ≡ ssp_stex)
      × (aes_decrypt cipher cmd.key (slice got.rx_data 4 (packed_length cmd.command_data_length))
          ≡ plain_packet rand g.rand_calls (g.enc_pkt_count cmd.ssp_address) (payload cmd))
receive-sealed_frame cipher rand cmd ssp g dev port short bytes seq open_dev same =
    let n = length-slice cmd.command_data 0 cmd.command_data_length in
    let small : length (payload cmd) ≤ 233 = omega (arith, n) in
    let count = g.enc_pkt_count cmd.ssp_address in
    let a = address_byte cmd g in
    let ours = address_of cmd.ssp_address (g.ssp_seq cmd.ssp_address) port seq in
    let room = sealed_data-room cipher cmd rand g.rand_calls count (payload cmd) small in
    let xs = sealed_data cipher cmd rand g.rand_calls count (payload cmd) in
    let fits = packed_length-Fits (length (payload cmd)) small in
    (
      received dev a xs,
      (receive-wire_frame dev a xs open_dev ours.0 (ours.1 ∙ sym same) room.0 room.1).0,
      refl,
      first_data dev a ssp_stex
          (aes_encrypt cipher cmd.key (plain_packet rand g.rand_calls count (payload cmd))),
      ap (aes_decrypt cipher cmd.key) (
            ap (λ k. slice (received dev a xs).rx_data 4 (packed_length k)) (sym n)
            ∙ blocks_received cipher cmd dev a rand g.rand_calls count (payload cmd) small)
          ∙ aes_decrypt-encrypt cipher cmd.key (packed_length (length (payload cmd)) / 16)
              (plain_packet rand g.rand_calls count (payload cmd))
              (length-plain_packet rand g.rand_calls count (payload cmd) small ∙ sym fits.blocks)
              (plain_packet-IsByte rand g.rand_calls count (payload cmd) small bytes),
    )
