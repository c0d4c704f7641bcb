-- ===== src/Send/Sequence.antt =====
-- The sequence bits over a call of `SSPSendCommand`, on every branch.
use e_ssp.Base.{
  ℕ, ◌==◌, if◌then◌else◌, Bool, update, Post, Post-ok, Post-weaken, ap₂, Post-bind, Post-after, ◌≡◌,
  refl, ap, ◌∙◌, arith, Array,
}
use e_ssp.Defs.{
  Command, Packet, PortStatus, ssp_reply_ok, port_error, ssp_cmd_timeout, port_closed, port_open,
  ssp_packet_error,
}
use e_ssp.Host.{Globals, World}
use e_ssp.Cipher.{BlockCipher}
use e_ssp.Link.{Sent}
use e_ssp.Crypt.{encrypt_ssp_packet}
use e_ssp.Packet.{Compiled, reset_seq, encrypt_command, assemble, compile_ssp_command}
use e_ssp.Packet.Compile.{synced}
use e_ssp.Send.{
  Decoded, packet_error, decoded, transmit, decode_reply, load_response, alternate, take_reply,
  after_transfer, ssp_send_command,
}
use e_ssp.Send.Laws.{alternated}

-- What a finished call leaves of the sequence bits that it found after the compilation.
Moves : ℕ → (ℕ → ℕ) → Sent World → Type 0
Moves addr seq s =
    s.world.globals.ssp_seq
    ≡ (if s.success then update seq addr (if seq addr == 0x80 then 0 else 0x80) else seq)

module _ (cipher : BlockCipher) (rand : ℕ → ℕ) where
  encrypt_ssp_packet-seq :
      (pt_num : ℕ) (data_in : Array) (n : ℕ) (cmd : Command) (g : Globals)
      → Post
          (λ e. e.globals.ssp_seq ≡ g.ssp_seq)
          (encrypt_ssp_packet cipher rand pt_num data_in n cmd.key g)
  unfolding encrypt_ssp_packet Post
  encrypt_ssp_packet-seq pt_num data_in n cmd g = ground arith

  -- Encryption changes neither the address nor the sequence bits.
  Keeps : Command → Globals → Command × Globals → Type 0
  Keeps cmd g r = (r.0.ssp_address ≡ cmd.ssp_address) × (r.1.ssp_seq ≡ g.ssp_seq)

  encrypt_command-Keeps :
      (cmd : Command) (g : Globals) → Post (Keeps cmd g) (encrypt_command cipher rand cmd g)
  unfolding encrypt_command Keeps Post
  encrypt_command-Keeps cmd g =
      ground (
        arith,
        encrypt_ssp_packet-seq cmd.ssp_address cmd.command_data cmd.command_data_length cmd g,
      )

  -- Only a sync command changes the sequence bits when it is compiled.
  Compiles : Command → Globals → Compiled → Type 0
  Compiles cmd g c =
      (c.cmd.ssp_address ≡ cmd.ssp_address) × (c.globals.ssp_seq ≡ (synced cmd g).ssp_seq)

  reset_seq-synced :
      (cmd : Command) (g : Globals) → Post (λ g'. g' ≡ synced cmd g) (reset_seq cmd g)
  unfolding reset_seq synced Post
  reset_seq-synced cmd g = ground arith

  compile_ssp_command-Compiles :
      (cmd : Command) (ss : Packet) (g : Globals)
      → Post (Compiles cmd g) (compile_ssp_command cipher rand cmd ss g)
  unfolding compile_ssp_command Compiles Keeps
  compile_ssp_command-Compiles cmd ss g =
      Post-bind (λ g'. g' ≡ synced cmd g) _ (reset_seq cmd g) _ (reset_seq-synced cmd g)
        λ g' e.
          Post-bind (Keeps cmd g') _ (encrypt_command cipher rand cmd g') _
            (encrypt_command-Keeps cmd g')
            λ r h.
              Post-after _ (assemble r.0 r.1 _) _
                λ ss'. Post-ok (Compiles cmd g) _ (h.0, h.1 ∙ ap (λ (t : Globals). t.ssp_seq) e)

module _ (cipher : BlockCipher) where
  alternate-seq :
      (addr : ℕ) (g : Globals)
      → Post (λ g'. g'.ssp_seq ≡ (alternated addr g).ssp_seq) (alternate addr g)
  unfolding alternate Post
  alternate-seq addr g = ground arith

  load_response-address :
      (cmd : Command) (ss : Packet)
      → Post (λ c. c.ssp_address ≡ cmd.ssp_address) (load_response cmd ss)
  unfolding load_response Post
  load_response-address cmd ss = ground arith

  take_reply-Moves :
      (cmd : Command) (w : World) (d : Decoded)
      → Post (Moves cmd.ssp_address w.globals.ssp_seq) (take_reply cipher cmd w d)
  unfolding take_reply Moves
  take_reply-Moves cmd w packet_error = unfold Post in refl
  take_reply-Moves cmd w (decoded ss) =
      Post-bind (λ (c : Command). c.ssp_address ≡ cmd.ssp_address) _ (load_response cmd ss) _
        (load_response-address cmd ss)
        λ c same.
          Post-bind (λ (g : Globals). g.ssp_seq ≡ (alternated c.ssp_address w.globals).ssp_seq) _
            (alternate c.ssp_address w.globals) _ (alternate-seq c.ssp_address w.globals)
            λ g e.
              Post-ok (Moves cmd.ssp_address w.globals.ssp_seq) _
                (e ∙ ap (λ a. (alternated a w.globals).ssp_seq) same)

  after_transfer-Moves :
      (cmd : Command) (w : World) (status : PortStatus) (ss : Packet)
      → Post (Moves cmd.ssp_address w.globals.ssp_seq) (after_transfer cipher cmd w status ss)
  unfolding after_transfer
  after_transfer-Moves cmd w ssp_reply_ok ss =
      Post-after _ (decode_reply cipher cmd w.globals ss) _ λ d. take_reply-Moves cmd w d
  after_transfer-Moves cmd w ssp_cmd_timeout ss = unfold Post Moves in refl
  after_transfer-Moves cmd w port_closed ss = unfold Post Moves in refl
  after_transfer-Moves cmd w port_open ss = unfold Post Moves in refl
  after_transfer-Moves cmd w port_error ss = unfold Post Moves in refl
  after_transfer-Moves cmd w ssp_packet_error ss = unfold Post Moves in refl

module _ (cipher : BlockCipher) (rand : ℕ → ℕ) (ssp : Packet) (cmd : Command) (w : World) where
  -- The sequence bits after a call that returns.
  abbrev pub bits_after : Bool → ℕ → ℕ
  bits_after success =
      let seq = (synced cmd w.globals).ssp_seq in
      if success
      then update seq cmd.ssp_address (if seq cmd.ssp_address == 0x80 then 0 else 0x80)
      else seq

  -- Whenever a call returns, encrypted or not, and whatever came of it: the sequence bit of the
  -- command's address alternates, after the reset by a sync command, exactly when the call reports
  -- success, and no other sequence bit changes.
  pub ssp_send_command-seq :
      Post
        (λ s. s.world.globals.ssp_seq ≡ bits_after s.success)
        (ssp_send_command cipher rand ssp cmd w)
  unfolding ssp_send_command Compiles Moves
  ssp_send_command-seq =
      Post-bind (Compiles cipher rand cmd w.globals) _
        (compile_ssp_command cipher rand cmd ssp w.globals) _
        (compile_ssp_command-Compiles cipher rand cmd ssp w.globals)
        λ c h.
          Post-after _ (transmit c.cmd.timeout c.cmd.retry_level w.script c.packet w.sent) _ λ t.
            Post-weaken (Moves c.cmd.ssp_address c.globals.ssp_seq) _ _
              (after_transfer-Moves cipher c.cmd
                (record { globals = c.globals; script = t.script; sent = t.sent }) t.status
                t.packet)
              λ s e.
                e
                ∙ ap₂
                    (λ (a : ℕ) (q : Array).
                      if s.success then update q a (if q a == 0x80 then 0 else 0x80) else q)
                    h.0 h.1
