-- ===== src/Negotiation/Wire.antt =====
-- A unit at the end of the line: the receiver of `SSPDataIn` in front of the unit that negotiates,
-- and one request of the host with the reply to it, frame by frame.
use e_ssp.Base.{
  ℕ, ◌≤◌, ◌<◌, bit_and, bit_or, true, false, if◌then◌else◌, List, [], ◌∷◌, length, slice, Run, ok,
  ◌>>=◌, ◌≡◌, ◌≢◌, refl, sym, ap, ◌∙◌, arith,
}
use mathlib.Core.Path.{subst}
use e_ssp.Defs.{Command, Packet, ssp_stx, ssp_response_ok}
use e_ssp.Host.{Globals, Attempt, World}
use e_ssp.Cipher.{BlockCipher}
use e_ssp.Packet.{receive}
use e_ssp.Packet.Frame.{wire_frame, length-wire_frame}
use e_ssp.Packet.Receive.{IsOpen}
use e_ssp.Packet.RoundTrip.{received, receive-wire_frame}
use e_ssp.Packet.Compile.{payload, address_byte, synced}
use e_ssp.Packet.Exchange.{IsSeq, address_of, received_data}
use e_ssp.Link.{Sent}
use e_ssp.Send.{ssp_send_command}
use e_ssp.Send.Reply.{Brings}
use e_ssp.Send.Laws.{alternated, answered, length_byte, ssp_send_command-reply}
use e_ssp.Helpers.{with_request}
use e_ssp.Helpers.Requests.{payload-with_request}
use e_ssp.Negotiation.Random.{Entropy}
use e_ssp.Negotiation.Session.{Exchange, over_port}
use e_ssp.Negotiation.Slave.{Slave, Answer, answer}
use e_ssp.Negotiation.Same.{Accepts}

pub record Station : Type 0 where
  pub device : Packet
  pub slave : Slave

-- A frame that the receiver accepts is answered; any other leaves the unit as it was.
unfoldable pub take_frame : List ℕ → Station → Run (List ℕ × Station)
take_frame frame st = do
  ss ← receive frame (record (st.device) { new_response = false })
  let a = answer (slice ss.rx_data 3 (ss.rx_data 2)) st.slave
  ok (
      if ss.new_response
      then (a.reply, record { device = ss; slave = a.slave })
      else ([], record st { device = ss }))

-- The replies to some frames.
unfoldable pub serve : List (List ℕ) → Station → Run (List (List ℕ) × Station)
serve [] st = ok ([], st)
serve (frame ∷ frames) st = do
  (reply, st) ← take_frame frame st
  (replies, st) ← serve frames st
  ok (reply ∷ replies, st)

-- A transmission that is written and brings a frame of this address in time.
pub record Replied (addr timeout : ℕ) (t : Attempt) (xs : List ℕ) : Type 0 where
  pub address : ℕ
  pub no_stx : address ≢ ssp_stx
  pub ours : bit_and address ssp_stx ≡ addr
  pub written : t.written ≡ true
  pub brings : Brings timeout (wire_frame address xs) t.polls

-- The unit accepts the frame of a request at its address.
take_frame-wire_frame :
    (addr seq : ℕ) (bytes : List ℕ) (st : Station) (reply : List ℕ) (s : Slave)
    → addr < 127
    → IsSeq seq
    → IsOpen st.device
    → st.device.ssp_address ≡ addr
    → length bytes ≤ 100
    → answer bytes st.slave ≡ record { reply = reply; slave = s }
    → take_frame (wire_frame (bit_or addr seq) bytes) st
      ≡ ok (
        reply,
        record {
          device = received (record (st.device) { new_response = false }) (bit_or addr seq) bytes;
          slave = s;
        },
      )
unfolding take_frame
take_frame-wire_frame addr seq bytes st reply s port is ready same short e =
    let ours = address_of addr seq port is in
    let d = record (st.device) { new_response = false } in
    let a = bit_or addr seq in
    let open_d : IsOpen d = record {
      plain = ready.plain;
      inside = ready.inside;
      header = ready.header;
      fits = ready.fits;
    } in
    let got =
      receive-wire_frame d a bytes open_d (ours.0) (ours.1 ∙ sym same) (omega arith)
        (λ q. absurd (omega (arith, q))) in
    let found : slice (received d a bytes).rx_data 3 ((received d a bytes).rx_data 2) ≡ bytes =
      ap (slice (received d a bytes).rx_data 3) (length_byte d a bytes) ∙ received_data d a bytes in
    rw (got.0) (
      ap (λ (x : Answer). ok (x.reply, record { device = received d a bytes; slave = x.slave }))
        (ap (λ xs. answer xs st.slave) found ∙ e))

-- The two ends of the line between two requests: the script of the host is still to be run, and the
-- receiver of the unit waits for a packet at the address of the host.
pub record Linked (addr : ℕ) (c : Command) (w : World) (st : Station) (script : List Attempt)
    : Type 0 where
  pub in_clear : c.encryption_status ≡ false
  pub port : c.ssp_address ≡ addr
  pub patience : c.timeout ≡ 1000
  pub ahead : w.script ≡ script
  pub waits : IsOpen st.device
  pub same : st.device.ssp_address ≡ addr

-- One request with its reply, at both ends.
pub record Served (exchange : Exchange World) (addr : ℕ) (bytes rest : List ℕ) (c : Command)
    (w : World) (st : Station) (s : Slave) (script : List Attempt) : Type 0 where
  pub cmd : Command
  pub world : World
  pub station : Station
  pub frame : List ℕ
  pub accepts : Accepts exchange bytes rest c cmd w world
  pub wrote : world.sent ≡ frame ∷ w.sent
  pub takes : take_frame frame st ≡ ok (ssp_response_ok ∷ rest, station)
  pub slave : station.slave ≡ s
  pub seq : IsSeq (world.globals.ssp_seq addr)
  pub linked : Linked addr cmd world station script

alternated-IsSeq : (addr : ℕ) (g : Globals) → IsSeq ((alternated addr g).ssp_seq addr)
alternated-IsSeq addr g = ground arith

module _ (cipher : BlockCipher) (entropy : Entropy) (ssp : Packet) (addr : ℕ)
    (small : addr < 127) where
  request-sent :
      (bytes rest : List ℕ) (c : Command) (w : World) (st : Station) (t : Attempt)
      (script : List Attempt)
      → Linked addr c w st (t ∷ script)
      → length bytes ≤ 9
      → length rest ≤ 8
      → Replied addr 1000 t (ssp_response_ok ∷ rest)
      → ssp_send_command cipher entropy.rand ssp (with_request c bytes) w
        ≡ ok (record {
          success = true;
          cmd = answered (with_request c bytes) (ssp_response_ok ∷ rest);
          world = record {
            globals = alternated addr (synced (with_request c bytes) w.globals);
            script = script;
            sent =
                wire_frame
                  (bit_or addr ((synced (with_request c bytes) w.globals).ssp_seq addr))
                  bytes
                ∷ w.sent;
          };
        })
  unfolding with_request
  request-sent bytes rest c w st t script h short few r =
      let cmd = with_request c bytes in
      let g = synced cmd w.globals in
      let result : ℕ → List ℕ → Run (Sent World) = λ x xs. ok (record {
        success = true;
        cmd = answered cmd (ssp_response_ok ∷ rest);
        world = record {
          globals = alternated x g;
          script = script;
          sent = wire_frame (bit_or x (g.ssp_seq x)) xs ∷ w.sent;
        };
      }) in
      let brings : Brings c.timeout (wire_frame r.address (ssp_response_ok ∷ rest)) t.polls =
        subst (λ n. Brings n (wire_frame r.address (ssp_response_ok ∷ rest)) t.polls)
          (sym h.patience) r.brings in
      let same = ap length (payload-with_request c bytes) in
      let a = address_byte cmd g in
      let sent =
        ssp_send_command-reply cipher entropy.rand ssp cmd w t script r.address
          (ssp_response_ok ∷ rest) h.in_clear (omega (arith, h.port)) (omega arith)
          (omega (arith, length-wire_frame a (payload cmd), same)) h.ahead r.written brings r.no_stx
          (r.ours ∙ sym h.port) (omega arith) (λ q. absurd (omega (arith, q)))
          (λ q. absurd (omega (arith, q))) in
      sent.0
      ∙ ap (result c.ssp_address) (payload-with_request c bytes)
      ∙ ap (λ x. result x bytes) h.port

  pub request-Served :
      (bytes rest : List ℕ) (c : Command) (w : World) (st : Station) (s : Slave) (t : Attempt)
      (script : List Attempt)
      → Linked addr c w st (t ∷ script)
      → IsSeq ((synced (with_request c bytes) w.globals).ssp_seq addr)
      → length bytes ≤ 9
      → length rest ≤ 8
      → answer bytes st.slave ≡ record { reply = ssp_response_ok ∷ rest; slave = s }
      → Replied addr 1000 t (ssp_response_ok ∷ rest)
      → Served (over_port cipher entropy ssp) addr bytes rest c w st s script
  unfolding with_request
  request-Served bytes rest c w st s t script h is short few e r =
      let cmd = with_request c bytes in
      let g = synced cmd w.globals in
      let a = bit_or addr (g.ssp_seq addr) in
      let frame = wire_frame a bytes in
      record {
        cmd = answered cmd (ssp_response_ok ∷ rest);
        world = record { globals = alternated addr g; script = script; sent = frame ∷ w.sent };
        station = record {
          device = received (record (st.device) { new_response = false }) a bytes;
          slave = s;
        };
        frame = frame;
        accepts = record {
          sends = request-sent bytes rest c w st t script h short few r;
          carries = refl;
        };
        wrote = refl;
        takes =
            take_frame-wire_frame addr (g.ssp_seq addr) bytes st (ssp_response_ok ∷ rest) s small is
              h.waits h.same (omega arith) e;
        slave = refl;
        seq = alternated-IsSeq addr g;
        linked = record {
          in_clear = h.in_clear;
          port = h.port;
          patience = h.patience;
          ahead = refl;
          waits = record {
            plain = refl;
            inside = omega arith;
            header = omega arith;
            fits = omega arith;
          };
          same = h.same;
        };
      }
