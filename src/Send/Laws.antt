-- ===== src/Send/Laws.antt =====
-- Whole calls of `SSPSendCommand`.
use e_ssp.Base.{
  ℕ, suc, ◌≤◌, ◌<◌, ◌==◌, if◌then◌else◌, true, false, List, [], bit_and, ◌∷◌, ◌++◌, length, All,
  slice, update, fill, fill-at, slice-fill, replicate, ok, ◌≡◌, ◌≢◌, refl, arith,
}
use e_ssp.Defs.{
  Command, Packet, ssp_reply_ok, ssp_cmd_timeout, ssp_stx, ssp_stex, ssp_response_timeout,
}
use e_ssp.Host.{Globals, Attempt, World}
use e_ssp.Cipher.{BlockCipher}
use e_ssp.Packet.{frame_body, receive, Compiled, compile_ssp_command}
use e_ssp.Packet.Frame.{raw_packet, wire_frame}
use e_ssp.Packet.Receive.{IsOpen}
use e_ssp.Packet.RoundTrip.{received, receive-wire_frame}
use e_ssp.Packet.Compile.{payload, address_byte, synced, compiled, compile_ssp_command-wire_frame}
use e_ssp.Packet.Exchange.{received_data}
use e_ssp.Send.{
  transmit, decoded, decode_reply, load_response, alternate, take_reply, after_transfer,
  ssp_send_command,
}
use e_ssp.Send.Reply.{Brings, IsUnanswered, rounds, wait_reply-Brings, transmit-unanswered}

module _ (cipher : BlockCipher) (rand : ℕ → ℕ) (ssp : Packet) (cmd : Command) (w : World) where
  -- When a command compiles and every transmission is written and stays unanswered past the
  -- timeout, the call transmits the same frame `RetryLevel` times, or 256 times where that is 0,
  -- reports the timeout in its status and first response byte, returns 0, and leaves the globals
  -- as the compilation left them: the sequence bit does not alternate.
  pub ssp_send_command-timeout :
      (c : Compiled) (tries rest : List Attempt)
      → compile_ssp_command cipher rand cmd ssp w.globals ≡ ok c
      → c.cmd.retry_level < 256
      → length tries ≡ rounds c.cmd.retry_level
      → All (IsUnanswered c.cmd.timeout) tries
      → w.script ≡ tries ++ rest
      → ssp_send_command cipher rand ssp cmd w
        ≡ ok (record {
          success = false;
          cmd = record (c.cmd) {
            response_status = ssp_cmd_timeout;
            response_data = update c.cmd.response_data 0 ssp_response_timeout;
          };
          world = record {
            globals = c.globals;
            script = rest;
            sent =
                replicate
                  (rounds c.cmd.retry_level)
                  (slice c.packet.tx_data 0 c.packet.tx_buffer_length)
                ++ w.sent;
          };
        })
  unfolding ssp_send_command after_transfer
  ssp_send_command-timeout c tries rest made byte size silent script =
      rw
        (
          made,
          script,
          transmit-unanswered c.cmd.timeout tries rest c.cmd.retry_level c.packet w.sent silent size
              byte,
          size,
        )
        refl

-- A reply in the clear: it has data, and the first byte of it is not `SSP_STEX`.
abbrev pub IsClear : List ℕ → Type 0
IsClear [] = ⊥
IsClear (x ∷ xs) = x ≢ ssp_stex

pub first_data : (ss : Packet) (a x : ℕ) (xs : List ℕ) → (received ss a (x ∷ xs)).rx_data 3 ≡ x
unfolding raw_packet frame_body
first_data ss a x xs = fill-at ss.rx_data 0 (ssp_stx ∷ a ∷ suc (length xs) ∷ []) x _

decode_reply-clear :
    (cipher : BlockCipher) (cmd : Command) (g : Globals) (ss : Packet) (a : ℕ) (xs : List ℕ)
    → IsClear xs
    → decode_reply cipher cmd g (received ss a xs) ≡ ok (decoded (received ss a xs))
unfolding decode_reply
decode_reply-clear cipher cmd g ss a [] clear = absurd clear
decode_reply-clear cipher cmd g ss a (x ∷ xs) clear = ground (arith, first_data ss a x xs)

module _ (ss : Packet) (a : ℕ) (xs : List ℕ) where
  pub length_byte : (received ss a xs).rx_data 2 ≡ length xs
  unfolding raw_packet frame_body
  length_byte = fill-at ss.rx_data 0 (ssp_stx ∷ a ∷ []) (length xs) _

  load_response-received :
      (cmd : Command)
      → length xs ≤ 250
      → load_response cmd (received ss a xs)
        ≡ ok (record cmd {
          response_data_length = length xs;
          response_data = fill cmd.response_data 0 xs;
          response_status = ssp_reply_ok;
        })
  unfolding load_response
  load_response-received cmd small = ground (arith, length_byte, received_data ss a xs)

-- The globals once the sequence bit of a port has alternated.
abbrev pub alternated : ℕ → Globals → Globals
alternated addr g = record g {
  ssp_seq = update g.ssp_seq addr (if g.ssp_seq addr == 0x80 then 0 else 0x80);
}

pub alternate-ok : (addr : ℕ) (g : Globals) → addr < 200 → alternate addr g ≡ ok (alternated addr g)
unfolding alternate
alternate-ok addr g h = ground arith

-- The command structure with the data of a reply.
abbrev pub answered : Command → List ℕ → Command
answered cmd xs = record cmd {
  response_data_length = length xs;
  response_data = fill cmd.response_data 0 xs;
  response_status = ssp_reply_ok;
}

module _ (cipher : BlockCipher) (cmd : Command) (w : World) (ss : Packet) (a : ℕ)
    (xs : List ℕ) where
  after_transfer-clear :
      IsClear xs
      → length xs ≤ 250
      → cmd.ssp_address < 200
      → after_transfer cipher cmd w ssp_reply_ok (received ss a xs)
        ≡ ok (record {
          success = true;
          cmd = answered cmd xs;
          world = record w { globals = alternated cmd.ssp_address w.globals };
        })
  unfolding after_transfer take_reply
  after_transfer-clear clear small port =
      rw
        (
          decode_reply-clear cipher cmd w.globals ss a xs clear,
          load_response-received ss a xs cmd small,
          alternate-ok cmd.ssp_address w.globals port,
        )
        refl

pub transmit-answered :
    (timeout retry : ℕ) (t : Attempt) (rest : List Attempt) (ss got : Packet) (bytes : List ℕ)
    (sent : List (List ℕ))
    → t.written ≡ true
    → Brings timeout bytes t.polls
    → receive bytes (record ss { new_response = false }) ≡ ok got
    → got.new_response ≡ true
    → transmit timeout retry (t ∷ rest) ss sent
      ≡ ok (record {
        status = ssp_reply_ok;
        packet = got;
        script = rest;
        sent = slice ss.tx_data 0 ss.tx_buffer_length ∷ sent;
      })
unfolding transmit
transmit-answered timeout retry t rest ss got bytes sent written brings takes done = ground (
  arith,
  wait_reply-Brings timeout (record ss { new_response = false }) refl bytes got brings takes done,
)

module _ (cipher : BlockCipher) (rand : ℕ → ℕ) (ssp : Packet) (cmd : Command) (w : World)
    (t : Attempt) (rest : List Attempt) (a : ℕ) (xs : List ℕ) where
  -- A command that is not encrypted, with at most 250 bytes of data, to an address below 200, whose
  -- frame fits the transmit buffer of 255 bytes, is transmitted once if its first frame is written
  -- and answered in time by a clear frame of this address with data of 1 to 250 but not 127 bytes:
  -- the call returns 1, the command structure holds the data of the reply and its length, exactly
  -- one frame, that of the command, was written, and the sequence bit of the port alternates. The
  -- address byte of the reply is no start byte, and its data does not begin with `SSP_STEX`.
  pub ssp_send_command-reply :
      cmd.encryption_status ≡ false
      → cmd.ssp_address < 200
      → cmd.command_data_length ≤ 250
      → length (wire_frame (address_byte cmd (synced cmd w.globals)) (payload cmd)) ≤ 255
      → w.script ≡ t ∷ rest
      → t.written ≡ true
      → Brings cmd.timeout (wire_frame a xs) t.polls
      → a ≢ ssp_stx
      → bit_and a ssp_stx ≡ cmd.ssp_address
      → length xs ≤ 250
      → length xs ≢ 127
      → IsClear xs
      → (ssp_send_command cipher rand ssp cmd w
          ≡ ok (record {
            success = true;
            cmd = answered cmd xs;
            world = record {
              globals = alternated cmd.ssp_address (synced cmd w.globals);
              script = rest;
              sent = wire_frame (address_byte cmd (synced cmd w.globals)) (payload cmd) ∷ w.sent;
            };
          }))
        × (slice (answered cmd xs).response_data 0 (length xs) ≡ xs)
  unfolding ssp_send_command
  ssp_send_command-reply clear port short fits script written brings ne us small ne' plain =
      let made =
        compile_ssp_command-wire_frame cipher rand cmd ssp w.globals clear port short fits in
      let p = (compiled cipher rand cmd ssp w.globals).packet in
      let q = record p { new_response = false } in
      let open_q : IsOpen q = record {
        plain = refl;
        inside = omega arith;
        header = omega arith;
        fits = omega arith;
      } in
      let got = receive-wire_frame q a xs open_q ne us small ne' in
      (
        rw
            (
              made.0,
              script,
              transmit-answered cmd.timeout cmd.retry_level t rest p (received q a xs) _ w.sent
                  written brings (got.0) refl,
              made.1,
            )
            (after_transfer-clear cipher cmd _ q a xs plain small port),
        slice-fill cmd.response_data 0 xs,
      )
