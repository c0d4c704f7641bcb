-- ===== src/Send/Session.antt =====
-- Sequences of calls of `SSPSendCommand`, which share the globals `sspSeq` and `encPktCount`.
use e_ssp.Base.{
  ℕ, ◌+◌, ◌%◌, ◌^◌, ◌<◌, ◌==◌, ◌&&◌, if◌then◌else◌, u32, Bool, List, [], ◌∷◌, update, Array, ok,
  Post, Post-ok, Post-bind, Post-after, Post-value, Post-weaken, ◌≡◌, refl, ap, ◌∙◌, arith,
}
use e_ssp.Defs.{
  Command, Packet, PortStatus, ssp_reply_ok, port_error, ssp_cmd_timeout, port_closed, port_open,
  ssp_packet_error, ssp_cmd_sync,
}
use e_ssp.Host.{Globals, World}
use e_ssp.Cipher.{BlockCipher}
use e_ssp.Link.{Sent}
use e_ssp.Crypt.{encrypt_ssp_packet}
use e_ssp.Packet.{Compiled, reset_seq, encrypt_command, assemble, compile_ssp_command}
use e_ssp.Packet.Compile.{synced}
use e_ssp.Send.{
  Decoded, packet_error, decoded, transmit, decode_reply, load_response, alternate, take_reply,
  after_transfer, ssp_send_command,
}
use e_ssp.Send.Sequence.{ssp_send_command-seq}

-- The counts after the encryption of a command.
counted : Command → Array → Array
counted cmd counts =
    if cmd.encryption_status
    then update counts cmd.ssp_address (u32 (counts cmd.ssp_address + 1))
    else counts

module _ (cipher : BlockCipher) (rand : ℕ → ℕ) where
  encrypt_ssp_packet-count :
      (cmd : Command) (g : Globals)
      → Post
          (λ e.
            e.globals.enc_pkt_count
            ≡ update g.enc_pkt_count cmd.ssp_address (u32 (g.enc_pkt_count cmd.ssp_address + 1)))
          (encrypt_ssp_packet cipher rand cmd.ssp_address cmd.command_data cmd.command_data_length
            cmd.key g)
  unfolding encrypt_ssp_packet Post
  encrypt_ssp_packet-count cmd g = ground arith

  encrypt_command-count :
      (cmd : Command) (g : Globals)
      → Post
          (λ r. r.1.enc_pkt_count ≡ counted cmd g.enc_pkt_count)
          (encrypt_command cipher rand cmd g)
  unfolding encrypt_command counted Post
  encrypt_command-count cmd g = ground (arith, encrypt_ssp_packet-count cmd g)

  reset_seq-count :
      (cmd : Command) (g : Globals)
      → Post (λ (t : Globals). t.enc_pkt_count ≡ g.enc_pkt_count) (reset_seq cmd g)
  unfolding reset_seq Post
  reset_seq-count cmd g = ground arith

  Counts : Array → Compiled → Type 0
  Counts counts c = c.globals.enc_pkt_count ≡ counts

  compile_ssp_command-count :
      (cmd : Command) (ss : Packet) (g : Globals)
      → Post (Counts (counted cmd g.enc_pkt_count)) (compile_ssp_command cipher rand cmd ss g)
  unfolding compile_ssp_command Counts
  compile_ssp_command-count cmd ss g =
      Post-bind (λ (t : Globals). t.enc_pkt_count ≡ g.enc_pkt_count) _ (reset_seq cmd g) _
        (reset_seq-count cmd g)
        λ g' e.
          Post-bind (λ r. r.1.enc_pkt_count ≡ counted cmd g'.enc_pkt_count) _
            (encrypt_command cipher rand cmd g') _ (encrypt_command-count cmd g')
            λ r h.
              Post-after _ (assemble r.0 r.1 _) _
                λ ss'. Post-ok (Counts (counted cmd g.enc_pkt_count)) _ (h ∙ ap (counted cmd) e)

  Keeps : Array → Sent World → Type 0
  Keeps counts s = s.world.globals.enc_pkt_count ≡ counts

  alternate-count :
      (addr : ℕ) (g : Globals)
      → Post (λ (t : Globals). t.enc_pkt_count ≡ g.enc_pkt_count) (alternate addr g)
  unfolding alternate Post
  alternate-count addr g = ground arith

  take_reply-count :
      (cmd : Command) (w : World) (d : Decoded)
      → Post (Keeps w.globals.enc_pkt_count) (take_reply cipher cmd w d)
  unfolding take_reply Keeps
  take_reply-count cmd w packet_error = unfold Post in refl
  take_reply-count cmd w (decoded ss) = Post-after _ (load_response cmd ss) _ λ c.
      Post-bind (λ (t : Globals). t.enc_pkt_count ≡ w.globals.enc_pkt_count) _
        (alternate c.ssp_address w.globals) _ (alternate-count c.ssp_address w.globals)
        λ g e. Post-ok (Keeps w.globals.enc_pkt_count) _ e

  after_transfer-count :
      (cmd : Command) (w : World) (status : PortStatus) (ss : Packet)
      → Post (Keeps w.globals.enc_pkt_count) (after_transfer cipher cmd w status ss)
  unfolding after_transfer
  after_transfer-count cmd w ssp_reply_ok ss =
      Post-after _ (decode_reply cipher cmd w.globals ss) _ λ d. take_reply-count cmd w d
  after_transfer-count cmd w ssp_cmd_timeout ss = unfold Post Keeps in refl
  after_transfer-count cmd w port_closed ss = unfold Post Keeps in refl
  after_transfer-count cmd w port_open ss = unfold Post Keeps in refl
  after_transfer-count cmd w port_error ss = unfold Post Keeps in refl
  after_transfer-count cmd w ssp_packet_error ss = unfold Post Keeps in refl

  ssp_send_command-count :
      (ssp : Packet) (cmd : Command) (w : World)
      → Post (Keeps (counted cmd w.globals.enc_pkt_count)) (ssp_send_command cipher rand ssp cmd w)
  unfolding ssp_send_command Counts Keeps
  ssp_send_command-count ssp cmd w =
      Post-bind (Counts (counted cmd w.globals.enc_pkt_count)) _
        (compile_ssp_command cipher rand cmd ssp w.globals) _
        (compile_ssp_command-count cmd ssp w.globals)
        λ c h.
          Post-after _ (transmit c.cmd.timeout c.cmd.retry_level w.script c.packet w.sent) _ λ t.
            Post-weaken (Keeps c.globals.enc_pkt_count)
              (Keeps (counted cmd w.globals.enc_pkt_count)) _
              (after_transfer-count c.cmd
                (record { globals = c.globals; script = t.script; sent = t.sent }) t.status
                t.packet)
              λ s e. e ∙ h

-- What is to be known of a call that has returned.
pub record Event : Type 0 where
  pub addr : ℕ
  pub is_sync : Bool
  pub encrypted : Bool
  pub success : Bool

abbrev pub event_of : Command → Bool → Event
event_of cmd success = record {
  addr = cmd.ssp_address;
  is_sync = cmd.command_data 0 == ssp_cmd_sync;
  encrypted = cmd.encryption_status;
  success = success;
}

-- The sequence bit of one address, by what happened at that address: a sync command sets it, and
-- then a success flips it.
abbrev pub flipped : ℕ → ℕ
flipped bit = if bit == 0x80 then 0 else 0x80

abbrev pub bit_after : Event → ℕ → ℕ
bit_after e bit =
    let bit = if e.is_sync then 0x80 else bit in if e.success then flipped bit else bit

unfoldable pub replay_bit : ℕ → List Event → ℕ → ℕ
replay_bit a [] bit = bit
replay_bit a (e ∷ es) bit = replay_bit a es (if a == e.addr then bit_after e bit else bit)

-- How many encrypted commands went to one address.
unfoldable pub encryptions : ℕ → List Event → ℕ
encryptions a [] = 0
encryptions a (e ∷ es) = (if a == e.addr && e.encrypted then 1 else 0) + encryptions a es

module _ (cipher : BlockCipher) (rand : ℕ → ℕ) where
  -- Calls that return, one after the other, each with a command structure and a packet of any
  -- contents.
  pub data Calls : World → List Event → World → Type 0 where
    no_call : (w : World) → Calls w [] w
    then_call :
        (w w' : World) (ssp : Packet) (cmd : Command) (s : Sent World) (es : List Event)
        → ssp_send_command cipher rand ssp cmd w ≡ ok s
        → Calls s.world es w'
        → Calls w (event_of cmd s.success ∷ es) w'

  module _ (ssp : Packet) (cmd : Command) (w : World) (s : Sent World)
      (e : ssp_send_command cipher rand ssp cmd w ≡ ok s) (a : ℕ) where
    one_bit : s.world.globals.ssp_seq a ≡ (
        if a == cmd.ssp_address
        then bit_after (event_of cmd s.success) (w.globals.ssp_seq a)
        else w.globals.ssp_seq a)
    unfolding synced
    one_bit =
        ap (λ (f : Array). f a) (Post-value _ _ s (ssp_send_command-seq cipher rand ssp cmd w) e)
        ∙ ground arith

    one_count : s.world.globals.enc_pkt_count a ≡ (
        if a == cmd.ssp_address && cmd.encryption_status
        then u32 (w.globals.enc_pkt_count a + 1)
        else w.globals.enc_pkt_count a)
    unfolding Keeps counted
    one_count =
        ap (λ (f : Array). f a) (Post-value _ _ s (ssp_send_command-count cipher rand ssp cmd w) e)
        ∙ ground arith

  -- Over any sequence of calls that return, to any addresses, encrypted or not, whatever the port
  -- does and whatever comes of each, from counts below 2 ^ 32: the sequence bit of each address is the one
  -- that the events at that address alone give, where a sync command sets it and then a success
  -- flips it; and the packet count of each address has grown, modulo 2 ^ 32, by the number of
  -- encrypted commands to that address, answered or not.
  pub Calls-replay :
      {w w' : World} {es : List Event}
      → Calls w es w'
      → (a : ℕ) → w.globals.enc_pkt_count a < 2 ^ 32
      → (w'.globals.ssp_seq a ≡ replay_bit a es (w.globals.ssp_seq a))
        × (w'.globals.enc_pkt_count a ≡ (w.globals.enc_pkt_count a + encryptions a es) % 2 ^ 32)
  unfolding replay_bit encryptions
  Calls-replay (no_call w) a small = (refl, omega arith)
  Calls-replay (then_call w w' ssp cmd s es e more) a small =
      let count = one_count ssp cmd w s e a in
      let rest = Calls-replay more a (ground arith) in
      (rest.0 ∙ ap (replay_bit a es) (one_bit ssp cmd w s e a), ground (arith, rest.1))
