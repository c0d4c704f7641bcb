-- ===== src/Commands.antt =====
-- The commands of _eSSP/lib/ssp_commands.c: each fills a command structure of its own from the
-- setup, writes a request into it and sends it.
pub mod Replies
pub mod Setups
pub mod Requests
pub mod Amounts
pub mod Polls
use e_ssp.Base.{
  ℕ, ◌+◌, ◌*◌, ◌/◌, ◌^◌, ◌==◌, if◌then◌else◌, u8, u16, u64, Bool, true, false, List, [], ◌∷◌, ◌++◌,
  length, Array, update, fill, Run, ok, ◌>>=◌,
}
use e_ssp.Defs.{Command, FullKey, PortStatus, ssp_reply_ok, ssp_response_ok, ssp_response_timeout}
use e_ssp.Cipher.{le_bytes}
use e_ssp.Link.{Link}
use e_ssp.Helpers.{with_request}

-- `SSP_COMMAND_SETUP`, but for the port, which the link stands for.
pub record Setup : Type 0 where
  pub key : FullKey
  pub timeout : ℕ
  pub ssp_address : ℕ
  pub retry_level : ℕ
  pub encryption_status : Bool

-- The response code, the local command structure as the call leaves it, and the state.
pub record Reply (W : Type 0) : Type 0 where
  pub resp : ℕ
  pub cmd : Command
  pub world : W

-- `_ssp_return_values` of ssp_commands.c.
unfoldable pub is_reply_ok : PortStatus → Bool
is_reply_ok ssp_reply_ok = true
is_reply_ok _ = false

unfoldable pub return_values : {W : Type 0} → Link W → Command → W → Run (Reply W)
unfolding is_reply_ok
return_values link cmd w = do
  s ← link.send cmd w
  ok (record {
    resp =
        if s.success
        then if is_reply_ok s.cmd.response_status
          then s.cmd.response_data 0
          else ssp_response_timeout
        else ssp_response_timeout;
    cmd = s.cmd;
    world = s.world;
  })

-- `_ssp_setup_command_structure`; `raw` is the uninitialised local structure.
unfoldable pub setup_command_structure : Setup → Command → Command
setup_command_structure setup raw = record raw {
  timeout = setup.timeout;
  encryption_status = setup.encryption_status;
  ssp_address = setup.ssp_address;
  retry_level = setup.retry_level;
  key = setup.key;
}

module _ {W : Type 0} (link : Link W) (setup : Setup) (raw : Command) (w : W) where
  -- A request whose bytes stand at the start of `CommandData`.
  unfoldable pub request : List ℕ → Run (Reply W)
  request bytes = return_values link (with_request (setup_command_structure setup raw) bytes) w

  unfoldable pub ssp_reset : Run (Reply W)
  ssp_reset = request (0x01 ∷ [])

  unfoldable pub ssp_host_protocol : ℕ → Run (Reply W)
  ssp_host_protocol host_protocol = request (0x06 ∷ host_protocol ∷ [])

  unfoldable pub ssp_sync : Run (Reply W)
  ssp_sync = request (0x11 ∷ [])

  unfoldable pub ssp_disable : Run (Reply W)
  ssp_disable = request (0x09 ∷ [])

  unfoldable pub ssp_enable : Run (Reply W)
  ssp_enable = request (0x0A ∷ [])

  unfoldable pub ssp_set_inhibits : ℕ → ℕ → Run (Reply W)
  ssp_set_inhibits lowchannels highchannels = request (0x02 ∷ lowchannels ∷ highchannels ∷ [])

  unfoldable pub ssp_display_off : Run (Reply W)
  ssp_display_off = request (0x04 ∷ [])

  unfoldable pub ssp_display_on : Run (Reply W)
  ssp_display_on = request (0x03 ∷ [])

  unfoldable pub ssp_reject_note : Run (Reply W)
  ssp_reject_note = request (0x08 ∷ [])

  unfoldable pub ssp_hold_note : Run (Reply W)
  ssp_hold_note = request (0x18 ∷ [])

  unfoldable pub ssp_enable_higher_protocol_events : Run (Reply W)
  ssp_enable_higher_protocol_events = request (0x19 ∷ [])

  unfoldable pub ssp_payout_amount : ℕ → Run (Reply W)
  ssp_payout_amount amount = request (0x33 ∷ le_bytes 4 amount)

  unfoldable pub ssp_set_coin_amount : ℕ → ℕ → Run (Reply W)
  ssp_set_coin_amount value amount = request (0x34 ∷ le_bytes 2 amount ++ le_bytes 4 value)

  unfoldable pub ssp_halt_payout : Run (Reply W)
  ssp_halt_payout = request (0x38 ∷ [])

  unfoldable pub ssp_set_routing : ℕ → ℕ → Run (Reply W)
  ssp_set_routing value route = request (0x3B ∷ route ∷ le_bytes 4 value)

  -- A read of the routing that sends the code to set it.
  unfoldable pub ssp_get_routing : ℕ → Run (ℕ × Reply W)
  ssp_get_routing value = do
    r ← request (0x3B ∷ le_bytes 4 value)
    ok (if r.resp == ssp_response_ok then r.cmd.response_data 1 else 0, r)

  -- Seven bytes are written, of which five are sent, behind the code to set a routing.
  unfoldable pub ssp_float_hopper : ℕ → ℕ → Run (Reply W)
  ssp_float_hopper value minimum_payout =
      let cmd =
        with_request (setup_command_structure setup raw)
          (0x3B ∷ le_bytes 2 minimum_payout ++ le_bytes 4 value) in
      return_values link (record cmd { command_data_length = 5 }) w

  -- The value is written from index 3 on, and 5 bytes are sent: the bytes at 1 and 2 are not set,
  -- and the upper half of the value is not sent.
  unfoldable pub ssp_get_coin_amount : ℕ → Run (ℕ × Reply W)
  ssp_get_coin_amount value = do
    let cmd = setup_command_structure setup raw
    r ←
        return_values link
          (record cmd {
            command_data_length = 5;
            command_data = fill (update cmd.command_data 0 0x35) 3 (le_bytes 4 value);
          })
          w
    ok (
      if r.resp == ssp_response_ok
          then u16 (r.cmd.response_data 1 + r.cmd.response_data 2 * 2 ^ 8)
          else 0,
      r,
    )

-- What `ssp_setup_encryption` leaves.
pub record SetupResult (W : Type 0) : Type 0 where
  pub resp : ℕ
  pub setup : Setup
  pub world : W

unfoldable pub ssp_setup_encryption : {W : Type 0} → Link W → ℕ → Setup → W → Run (SetupResult W)
ssp_setup_encryption link fixedkey setup w = do
  n ← link.negotiate setup.ssp_address (record (setup.key) { fixed_key = fixedkey }) w
  ok (
      if n.success
      then record {
        resp = ssp_response_ok;
        setup = record setup { key = n.key; encryption_status = true };
        world = n.world;
      }
      else record {
        resp = ssp_response_timeout;
        setup = record setup { key = n.key };
        world = n.world;
      })
