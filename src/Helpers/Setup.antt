-- ===== src/Helpers/Setup.antt =====
-- `ssp6_setup_request` of _eSSP/ssp_helpers.c: what a unit says of itself and of its channels.
-- A shift of a byte by 24 wraps, as gcc defines it.
pub mod Loops
pub mod Layout
use e_ssp.Base.{
  ℕ, zero, suc, ◌+◌, ◌*◌, ◌^◌, ltb, leb, ◌==◌, if◌then◌else◌, u32, List, [], ◌∷◌, Array, slice,
  update, fill, read, Run, ok, require, ◌>>=◌, ◌>>◌,
}
use e_ssp.Defs.{Command, ssp_response_ok}
use e_ssp.Link.{Link, Responded}
use e_ssp.Helpers.{send_request}

-- `SSP6_CHANNEL_DATA` and `SSP6_SETUP_REQUEST_DATA`; the latter has room for 20 channels.
pub record Channel6 : Type 0 where
  pub security : ℕ
  pub value : ℕ
  pub cc : Array

pub record SetupData6 : Type 0 where
  pub unit_type : ℕ
  pub firmware_version : Array
  pub number_of_channels : ℕ
  pub channel_data : ℕ → Channel6
  pub real_value_multiplier : ℕ
  pub protocol_version : ℕ

-- `channel_data[k]` is replaced.
abbrev pub put_channel : (ℕ → Channel6) → ℕ → Channel6 → ℕ → Channel6
put_channel channels k c n = if n == k then c else channels n

-- A loop over the channels from `k` on that takes `width` bytes of the reply, at `offset`, for
-- each; `left` rounds are to come.
unfoldable pub channel_loop :
    ℕ → (ℕ → Channel6 → Channel6) → ℕ → ℕ → ℕ → (ℕ → Channel6) → Run (ℕ × (ℕ → Channel6))
channel_loop width step zero k offset channels = ok (offset, channels)
channel_loop width step (suc left) k offset channels = do
  require (ltb k 20)
  require (leb (offset + width) 255)
  channel_loop width step left (suc k) (offset + width)
      (put_channel channels k (step offset (channels k)))

-- `n` bytes of the reply from `i` on, the lowest first, as an `unsigned int`.
unfoldable pub le_value : Array → ℕ → ℕ → ℕ
le_value resp i zero = 0
le_value resp i (suc n) = u32 (resp i + 2 ^ 8 * le_value resp (suc i) n)

-- The bodies of the loops.
abbrev pub set_security : Array → ℕ → Channel6 → Channel6
set_security resp i c = record c { security = resp i }

abbrev pub set_value : ℕ → Array → ℕ → Channel6 → Channel6
set_value n resp i c = record c { value = le_value resp i n }

abbrev pub set_cc : Array → ℕ → Channel6 → Channel6
set_cc resp i c = record c { cc = update (fill c.cc 0 (slice resp i 3)) 3 0 }

-- `FirmwareVersion`, with the byte that the code stores behind it.
abbrev pub set_firmware : Array → ℕ → Array → Array
set_firmware resp last old = update (fill old 0 (slice resp 2 4)) 4 last

-- The branch for a SMART Hopper; a line feed ends the firmware version.
unfoldable pub parse_hopper : Array → SetupData6 → Run SetupData6
parse_hopper resp old = do
  let n = resp 10
  (offset, channels) ← channel_loop 2 (set_value 2 resp) n 0 11 old.channel_data
  (offset, channels) ← channel_loop 3 (set_cc resp) n 0 offset channels
  ok (record old {
    unit_type = resp 1;
    firmware_version = set_firmware resp 10 old.firmware_version;
    protocol_version = resp 9;
    number_of_channels = n;
    channel_data = channels;
  })

-- The branch for all other units.
unfoldable pub parse_validator : Array → SetupData6 → Run SetupData6
parse_validator resp old = do
  let n = resp 12
  (offset, channels) ← channel_loop 1 (set_security resp) n 0 (13 + n) old.channel_data
  m2 ← read 255 resp offset
  m1 ← read 255 resp (offset + 1)
  m0 ← read 255 resp (offset + 2)
  protocol ← read 255 resp (offset + 3)
  (offset, channels) ← channel_loop 3 (set_cc resp) n 0 (offset + 4) channels
  (offset, channels) ← channel_loop 4 (set_value 4 resp) n 0 offset channels
  ok (record {
    unit_type = resp 1;
    firmware_version = set_firmware resp 0 old.firmware_version;
    number_of_channels = n;
    channel_data = channels;
    real_value_multiplier = m2 * 2 ^ 16 + m1 * 2 ^ 8 + m0;
    protocol_version = protocol;
  })

unfoldable pub parse_setup : Array → SetupData6 → Run SetupData6
parse_setup resp old = if resp 1 == 3 then parse_hopper resp old else parse_validator resp old

pub record SetUp (W : Type 0) : Type 0 where
  pub responded : Responded W
  pub setup_data : SetupData6

unfoldable pub ssp6_setup_request : {W : Type 0} → Link W → SetupData6 → Command → W → Run (SetUp W)
ssp6_setup_request link old cmd w = do
  r ← send_request link (0x05 ∷ []) cmd w
  if r.resp == ssp_response_ok
      then (do
        d ← parse_setup r.cmd.response_data old
        ok (record { responded = r; setup_data = d }))
      else ok (record { responded = r; setup_data = old })
