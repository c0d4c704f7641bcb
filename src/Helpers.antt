-- ===== src/Helpers.antt =====
-- The command helpers of _eSSP/ssp_helpers.c: each writes a request into the command structure
-- and sends it.
pub mod Poll
pub mod Requests
pub mod Setup
use e_ssp.Base.{
  ℕ, ◌/◌, ◌^◌, ◌==◌, if◌then◌else◌, u8, Bool, true, not, List, [], ◌∷◌, ◌++◌, length, Array, slice,
  fill, Run, ok, ◌>>=◌,
}
use e_ssp.Defs.{Command, FullKey, ssp_cmd_sync, ssp_response_ok, ssp_response_timeout}
use e_ssp.Cipher.{le_bytes}
use e_ssp.Link.{Link, Responded, ssp_return_values}

-- Sets `CommandDataLength` and the bytes of `CommandData` from index 0 on.
unfoldable pub with_request : Command → List ℕ → Command
with_request cmd bytes = record cmd {
  command_data_length = length bytes;
  command_data = fill cmd.command_data 0 bytes;
}

-- An `int` is given by its 32-bit pattern, so `value >> (i*8)` stored in a byte is byte `i` of it.
module _ {W : Type 0} (link : Link W) where
  unfoldable pub send_request : List ℕ → Command → W → Run (Responded W)
  send_request bytes cmd w = ssp_return_values link (with_request cmd bytes) w

  unfoldable pub ssp6_payout : ℕ → Array → ℕ → Command → W → Run (Responded W)
  ssp6_payout value cc option cmd w =
      send_request (0x33 ∷ le_bytes 4 value ++ slice cc 0 3 ++ u8 option ∷ []) cmd w

  unfoldable pub ssp6_get_note_amount : ℕ → Array → Command → W → Run (Responded W)
  ssp6_get_note_amount value cc cmd w = send_request (0x35 ∷ le_bytes 4 value ++ slice cc 0 3) cmd w

  unfoldable pub ssp6_set_route : ℕ → Array → ℕ → Command → W → Run (Responded W)
  ssp6_set_route value cc route cmd w =
      send_request (0x3B ∷ u8 route ∷ le_bytes 4 value ++ slice cc 0 3) cmd w

  unfoldable pub ssp6_sync : Command → W → Run (Responded W)
  ssp6_sync cmd w = send_request (ssp_cmd_sync ∷ []) cmd w

  -- A failed negotiation leaves the encryption off, and the fixed key set.
  unfoldable pub ssp6_setup_encryption : ℕ → Command → W → Run (Responded W)
  ssp6_setup_encryption fixedkey cmd w = do
    n ←
        link.negotiate cmd.ssp_address
          (record { fixed_key = fixedkey; encrypt_key = cmd.key.encrypt_key }) w
    ok (
        if n.success
        then record {
          resp = ssp_response_ok;
          cmd = record cmd { key = n.key; encryption_status = true };
          world = n.world;
        }
        else record {
          resp = ssp_response_timeout;
          cmd = record cmd { key = n.key };
          world = n.world;
        })

  unfoldable pub ssp6_host_protocol : ℕ → Command → W → Run (Responded W)
  ssp6_host_protocol host_protocol cmd w = send_request (0x06 ∷ host_protocol ∷ []) cmd w

  unfoldable pub ssp6_enable : Command → W → Run (Responded W)
  ssp6_enable cmd w = send_request (0x0A ∷ []) cmd w

  unfoldable pub ssp6_reject : Command → W → Run (Responded W)
  ssp6_reject cmd w = send_request (0x08 ∷ []) cmd w

  -- An NV11 (type 7) takes one more byte.
  unfoldable pub ssp6_enable_payout : ℕ → Command → W → Run (Responded W)
  ssp6_enable_payout type cmd w =
      send_request (if type == 0x07 then 0x5C ∷ 0x00 ∷ [] else 0x5C ∷ []) cmd w

  unfoldable pub ssp6_empty : ℕ → Command → W → Run (Responded W)
  ssp6_empty type cmd w = send_request (if type == 0x07 then 0x52 ∷ 0x00 ∷ [] else 0x52 ∷ []) cmd w

  unfoldable pub ssp6_set_inhibits : ℕ → ℕ → Command → W → Run (Responded W)
  ssp6_set_inhibits lowchannels highchannels cmd w =
      send_request (0x02 ∷ lowchannels ∷ highchannels ∷ []) cmd w

  unfoldable pub ssp6_reset : Command → W → Run (Responded W)
  ssp6_reset cmd w = send_request (0x01 ∷ []) cmd w

  unfoldable pub ssp6_disable_payout : Command → W → Run (Responded W)
  ssp6_disable_payout cmd w = send_request (0x5B ∷ []) cmd w

  unfoldable pub ssp6_disable : Command → W → Run (Responded W)
  ssp6_disable cmd w = send_request (0x09 ∷ []) cmd w

  unfoldable pub ssp6_payout_note : Command → W → Run (Responded W)
  ssp6_payout_note cmd w = send_request (0x42 ∷ []) cmd w

  unfoldable pub ssp6_stack_note : Command → W → Run (Responded W)
  ssp6_stack_note cmd w = send_request (0x43 ∷ []) cmd w

  unfoldable pub ssp6_run_calibration : Command → W → Run (Responded W)
  ssp6_run_calibration cmd w = send_request (0x48 ∷ []) cmd w

  -- `value && 0xFF` is a logical "and": 1 for every value but 0.
  unfoldable pub ssp6_set_coinmech_inhibits : ℕ → Array → ℕ → Command → W → Run (Responded W)
  ssp6_set_coinmech_inhibits value cc state cmd w =
      send_request
        (0x40
          ∷ u8 state
          ∷ (if value == 0 then 0 else 1)
          ∷ (if value / 2 ^ 8 == 0 then 0 else 1)
          ∷ slice cc 0 3)
        cmd w
