-- ===== src/Link.antt =====
-- The calls between the command helpers and the packet layer: `send_ssp_command` and
-- `negotiate_ssp_encryption` of _eSSP/linux.c, which pass on to `SSPSendCommand` and
-- `NegotiateSSPEncryption` with the one open port.
use e_ssp.Base.{ℕ, Bool, if◌then◌else◌, Run, ok, ◌>>=◌}
use e_ssp.Defs.{Command, FullKey, ssp_response_timeout}

-- What a call of `SSPSendCommand` leaves: the return value, the command structure, and the state
-- of whatever is behind the port.
pub record Sent (W : Type 0) : Type 0 where
  pub success : Bool
  pub cmd : Command
  pub world : W

pub record Negotiated (W : Type 0) : Type 0 where
  pub success : Bool
  pub key : FullKey
  pub world : W

pub record Link (W : Type 0) : Type 0 where
  pub send : Command → W → Run (Sent W)
  pub negotiate : ℕ → FullKey → W → Run (Negotiated W)

-- The result of a helper: the response code, the command structure, and the state.
pub record Responded (W : Type 0) : Type 0 where
  pub resp : ℕ
  pub cmd : Command
  pub world : W

-- `_ssp_return_values` of _eSSP/ssp_helpers.c.
unfoldable pub ssp_return_values : {W : Type 0} → Link W → Command → W → Run (Responded W)
ssp_return_values link cmd w = do
  s ← link.send cmd w
  ok (record {
    resp = if s.success then s.cmd.response_data 0 else ssp_response_timeout;
    cmd = s.cmd;
    world = s.world;
  })
