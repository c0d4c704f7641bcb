-- ===== src/Download/Port.antt =====
-- The port as _eSSP/lib/SSPDownload.c uses it: the exchange of packets, raw bytes, and the wait for
-- a single byte.
use e_ssp.Base.{ℕ, List, [], ◌∷◌, Bool, ltb, ◌==◌, u8, if◌then◌else◌, Run, ok, waiting, ◌>>=◌}
use e_ssp.Defs.{Command, FullKey}
use e_ssp.Host.{Poll}
use e_ssp.Link.{Sent, Negotiated}

pub record Opened (W : Type 0) : Type 0 where
  pub success : Bool
  pub world : W

pub record Waited (W : Type 0) : Type 0 where
  pub polls : List Poll
  pub world : W

-- `SSPSendCommand`, `NegotiateSSPEncryption` and the calls of serialfunc.c with the handle that is
-- kept in `itlFile->port`, and `OpenSSPPort` with the name of the port. What the handle refers to
-- after it is closed, and after the name is opened again, is for the implementation to say:
-- `polls` is what `BytesInBuffer`, `ReadData` and `GetClockMs` say round by round from now on, and
-- `write_data` returns when the bytes are transmitted.
pub record Device (W : Type 0) : Type 0 where
  pub send : Command → W → Run (Sent W)
  pub negotiate : ℕ → FullKey → W → Run (Negotiated W)
  pub open_port : W → Opened W
  pub close_port : W → W
  pub set_baud : ℕ → W → W
  pub drain : W → W
  pub write_data : List ℕ → W → W
  pub polls : W → Waited W

-- The rounds of the wait: a byte that is there is returned, and after the timeout the result is
-- -1 as an `unsigned short`.
unfoldable pub wait_byte : ℕ → List Poll → Run ℕ
wait_byte timeout [] = waiting
wait_byte timeout (p ∷ ps) = elim (p.arrived) as (λ bs. Run ℕ) [
  | [] ↦ if ltb timeout p.elapsed then ok 0xFFFF else wait_byte timeout ps
  | b ∷ bs ↦ ok b
]

-- What a call that talks to the port leaves.
pub record Done (W A : Type 0) : Type 0 where
  pub result : A
  pub world : W

module _ {W : Type 0} (device : Device W) where
  unfoldable pub read_single_byte_reply : ℕ → W → Run (Done W ℕ)
  read_single_byte_reply timeout w = do
    let d = device.polls w
    b ← wait_byte timeout d.polls
    ok (record { result = b; world = d.world })

  -- The reply is kept in an `unsigned char`.
  unfoldable pub send_download_command : List ℕ → ℕ → W → Run (Done W Bool)
  send_download_command bytes expected_response w = do
    r ← read_single_byte_reply 500 (device.write_data bytes (device.drain w))
    ok (record { result = u8 r.result == expected_response; world = r.world })
