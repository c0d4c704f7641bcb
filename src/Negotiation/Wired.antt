-- ===== src/Negotiation/Wired.antt =====
-- A negotiation over the packet layer, with a unit at the other end of the line: bytes are framed,
-- received, answered and read at both ends, and both ends hold the same key.
use e_ssp.Base.{
  ℕ, ◌%◌, ◌^◌, ◌≤◌, ◌<◌, true, List, [], ◌∷◌, length, fill-at, Run, ok, ◌≡◌, ◌≢◌, refl, ap, ◌∙◌,
  arith,
}
use native.Mathlib.Nat.{mod-lt}
use e_ssp.Defs.{Command, FullKey, Packet, ssp_cmd_sync, ssp_response_ok}
use e_ssp.Host.{Globals, Attempt, World}
use e_ssp.Cipher.{BlockCipher, le_bytes}
use e_ssp.Cipher.Laws.{length-le_bytes}
use e_ssp.Link.{Negotiated}
use e_ssp.Packet.Receive.{IsOpen}
use e_ssp.Packet.Compile.{synced}
use e_ssp.Packet.Exchange.{IsSeq}
use e_ssp.Helpers.{with_request}
use e_ssp.Negotiation.Random.{Entropy}
use e_ssp.Negotiation.Agree.{pow_swap}
use e_ssp.Negotiation.{
  Keys, Initiated, initiate_ssp_host_keys, ssp_cmd_set_generator, ssp_cmd_set_modulus,
  ssp_cmd_req_key_exchange,
}
use e_ssp.Negotiation.Session.{Locals, plain_command, over_port, negotiate_ssp_encryption}
use e_ssp.Negotiation.Slave.{Slave, answer}
use e_ssp.Negotiation.Same.{answer_sync, answer_generator, answer_modulus, answer_exchange}
use e_ssp.Negotiation.Served.{Serves, host_power, initiated-small, negotiate_ssp_encryption-served}
use e_ssp.Negotiation.Handshake.{shared_key}
use e_ssp.Negotiation.Wire.{Station, Replied, Linked, Served, take_frame, serve, request-Served}

synced_sync :
    (c : Command) (g : Globals) (addr : ℕ)
    → c.ssp_address ≡ addr
    → IsSeq ((synced (with_request c (ssp_cmd_sync ∷ [])) g).ssp_seq addr)
unfolding synced with_request
synced_sync c g addr e = ground (arith, fill-at c.command_data 0 [] ssp_cmd_sync [])

synced_other :
    (c : Command) (g : Globals) (addr op : ℕ) (bs : List ℕ)
    → op ≢ ssp_cmd_sync
    → IsSeq (g.ssp_seq addr)
    → IsSeq ((synced (with_request c (op ∷ bs)) g).ssp_seq addr)
unfolding synced with_request
synced_other c g addr op bs ne h = ground (arith, fill-at c.command_data 0 [] op bs)

-- A request that follows another one.
module _ (cipher : BlockCipher) (entropy : Entropy) (ssp : Packet) (addr : ℕ)
    (small : addr < 127) where
  next-Served :
      (bytes0 rest0 : List ℕ) (c : Command) (w : World) (st : Station) (s0 s : Slave) (t : Attempt)
      (script : List Attempt)
      (last : Served (over_port cipher entropy ssp) addr bytes0 rest0 c w st s0 (t ∷ script))
      (op : ℕ) (bs rest : List ℕ)
      → op ≢ ssp_cmd_sync
      → length bs ≡ 8
      → length rest ≤ 8
      → answer (op ∷ bs) s0 ≡ record { reply = ssp_response_ok ∷ rest; slave = s }
      → Replied addr 1000 t (ssp_response_ok ∷ rest)
      → Served
          (over_port cipher entropy ssp)
          addr
          (op ∷ bs)
          rest
          last.cmd
          last.world
          last.station
          s
          script
  next-Served bytes0 rest0 c w st s0 s t script last op bs rest ne eight few e r =
      request-Served cipher entropy ssp addr small (op ∷ bs) rest last.cmd last.world last.station s
        t script last.linked (synced_other last.cmd last.world.globals addr op bs ne last.seq)
        (omega arith) few (ap (answer (op ∷ bs)) last.slave ∙ e) r

-- The unit with the numbers of the host and a key.
abbrev pub keyed : Keys → Slave → ℕ → Slave
keyed k s shared = record s { generator = k.generator; modulus = k.modulus; key = shared }

serve_four :
    (f1 f2 f3 f4 r1 r2 r3 r4 : List ℕ) (s0 s1 s2 s3 s4 : Station)
    → take_frame f1 s0 ≡ ok (r1, s1)
    → take_frame f2 s1 ≡ ok (r2, s2)
    → take_frame f3 s2 ≡ ok (r3, s3)
    → take_frame f4 s3 ≡ ok (r4, s4)
    → serve (f1 ∷ f2 ∷ f3 ∷ f4 ∷ []) s0 ≡ ok (r1 ∷ r2 ∷ r3 ∷ r4 ∷ [], s4)
unfolding serve
serve_four f1 f2 f3 f4 r1 r2 r3 r4 s0 s1 s2 s3 s4 p q r s = rw (p, q, r, s) refl

-- The number with which the unit replies to the last request.
abbrev pub unit_power : Keys → Slave → ℕ
unit_power k s = k.generator ^ s.secret % k.modulus

-- What a negotiation leaves at both ends of the line: the host has succeeded with the key `shared`,
-- it wrote four frames and nothing else, the unit answers these frames with the replies, and it
-- holds the same key.
pub record Ended (run : Run (Negotiated World)) (key : FullKey) (k : Keys) (w : World)
    (st : Station) (script : List Attempt) (shared : ℕ) : Type 0 where
  pub world : World
  pub station : Station
  pub f1 : List ℕ
  pub f2 : List ℕ
  pub f3 : List ℕ
  pub f4 : List ℕ
  pub succeeds :
      run ≡ ok (record { success = true; key = record key { encrypt_key = shared }; world = world })
  pub script_left : world.script ≡ script
  pub wrote : world.sent ≡ f4 ∷ f3 ∷ f2 ∷ f1 ∷ w.sent
  pub answers :
      serve (f1 ∷ f2 ∷ f3 ∷ f4 ∷ []) st
      ≡ ok (
        (ssp_response_ok ∷ [])
            ∷ (ssp_response_ok ∷ [])
            ∷ (ssp_response_ok ∷ [])
            ∷ (ssp_response_ok ∷ le_bytes 8 (unit_power k st.slave))
            ∷ [],
        station,
      )
  pub slave : station.slave ≡ keyed k st.slave shared

-- When the host keys are initiated with a modulus above 1, the searches for primes having 2^20
-- rounds at most, the address is below 127, and the four transmissions that are next are written
-- and bring, in time, frames with the replies of a unit that follows the protocol, a negotiation
-- over the packet layer succeeds. It writes four frames. A receiver at the same address that is not
-- inside a stuffed pair, and whose packet is not complete and fits the buffer, accepts each of
-- them, the unit behind it answers them with exactly those replies, and in the end the unit holds
-- the key of the host.
pub negotiate_ssp_encryption-Ended :
    (cipher : BlockCipher) (entropy : Entropy) (ssp : Packet) (locals : Locals) (ssp_address : ℕ)
    (key : FullKey) (w : World) (st : Station) (i : Initiated) (t1 t2 t3 t4 : Attempt)
    (script : List Attempt)
    → locals.fuel ≤ 2 ^ 20
    → initiate_ssp_host_keys entropy locals.fuel locals.temp_keys ssp_address w.globals ≡ ok i
    → i.success ≡ true
    → 1 < i.keys.modulus
    → ssp_address < 127
    → IsOpen st.device
    → st.device.ssp_address ≡ ssp_address
    → w.script ≡ t1 ∷ t2 ∷ t3 ∷ t4 ∷ script
    → Replied ssp_address 1000 t1 (ssp_response_ok ∷ [])
    → Replied ssp_address 1000 t2 (ssp_response_ok ∷ [])
    → Replied ssp_address 1000 t3 (ssp_response_ok ∷ [])
    → Replied ssp_address 1000 t4 (ssp_response_ok ∷ le_bytes 8 (unit_power i.keys st.slave))
    → Ended
        (negotiate_ssp_encryption (over_port cipher entropy ssp) entropy locals ssp_address key w)
        key
        i.keys
        w
        st
        script
        (shared_key i.keys st.slave)
negotiate_ssp_encryption-Ended cipher entropy ssp locals ssp_address key w st i t1 t2 t3 t4 script
      fuel made success big port waits same ahead r1 r2 r3 r4 =
    let exchange = over_port cipher entropy ssp in
    let small = initiated-small entropy locals ssp_address w.globals i fuel made success big in
    let k = i.keys in
    let h = host_power k in
    let v = unit_power k st.slave in
    let h-lt : h < k.modulus = mod-lt (k.generator ^ k.host_random) (omega arith) in
    let w0 = record w { globals = i.globals } in
    let c0 = plain_command ssp_address locals.sspc in
    let start : Linked ssp_address c0 w0 st (t1 ∷ t2 ∷ t3 ∷ t4 ∷ script) = record {
      in_clear = refl;
      port = refl;
      patience = refl;
      ahead = ahead;
      waits = waits;
      same = same;
    } in
    let s1 = record (st.slave) { generator = k.generator } in
    let s2 = record s1 { modulus = k.modulus } in
    let s3 = record s2 { key = h ^ s2.secret % k.modulus } in
    let eight = length-le_bytes 8 in
    let a1 =
      request-Served cipher entropy ssp ssp_address port (ssp_cmd_sync ∷ []) [] c0 w0 st st.slave t1
        (t2 ∷ t3 ∷ t4 ∷ script) start (synced_sync c0 i.globals ssp_address refl) (omega arith)
        (omega arith) (answer_sync st.slave) r1 in
    let next = next-Served cipher entropy ssp ssp_address port in
    let a2 =
      next (ssp_cmd_sync ∷ []) [] c0 w0 st st.slave s1 t2 (t3 ∷ t4 ∷ script) a1
        ssp_cmd_set_generator (le_bytes 8 k.generator) [] (λ e. absurd (omega (arith, e)))
        (eight k.generator) (omega arith) (answer_generator st.slave k.generator small.0) r2 in
    let a3 =
      next _ [] _ _ _ s1 s2 t3 (t4 ∷ script) a2 ssp_cmd_set_modulus (le_bytes 8 k.modulus) []
        (λ e. absurd (omega (arith, e))) (eight k.modulus) (omega arith)
        (answer_modulus s1 k.modulus small.1) r3 in
    let a4 =
      next _ [] _ _ _ s2 s3 t4 script a3 ssp_cmd_req_key_exchange (le_bytes 8 h) (le_bytes 8 v)
        (λ e. absurd (omega (arith, e))) (eight h) (omega (arith, eight v))
        (answer_exchange s2 h (omega (arith, h-lt, small.1))) r4 in
    let serves : Serves exchange k v c0 w0 a4.world = record {
      c1 = a1.cmd;
      c2 = a2.cmd;
      c3 = a3.cmd;
      c4 = a4.cmd;
      w1 = a1.world;
      w2 = a2.world;
      w3 = a3.world;
      syncs = a1.accepts;
      sets_generator = a2.accepts;
      sets_modulus = a3.accepts;
      exchanges = a4.accepts;
    } in
    let one_key = pow_swap k.generator k.host_random st.slave.secret k.modulus in
    record {
      world = a4.world;
      station = a4.station;
      f1 = a1.frame;
      f2 = a2.frame;
      f3 = a3.frame;
      f4 = a4.frame;
      succeeds =
          negotiate_ssp_encryption-served entropy locals ssp_address w.globals i fuel made success
            exchange key v w a4.world refl big
            (mod-lt (k.generator ^ st.slave.secret) (omega arith)) serves;
      script_left = a4.linked.ahead;
      wrote =
          a4.wrote
          ∙ ap (λ t. a4.frame ∷ t)
              (a3.wrote ∙ ap (λ t. a3.frame ∷ t) (a2.wrote ∙ ap (λ t. a2.frame ∷ t) a1.wrote));
      answers =
          serve_four a1.frame a2.frame a3.frame a4.frame _ _ _ _ st a1.station a2.station a3.station
            a4.station a1.takes a2.takes a3.takes a4.takes;
      slave = a4.slave ∙ ap (keyed k st.slave) one_key;
    }
