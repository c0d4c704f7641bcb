-- ===== src/Commands/Replies.antt =====
-- The commands of _eSSP/lib/ssp_commands.c that read data from the reply.
use e_ssp.Base.{
  ◌++◌, ℕ, zero, suc, ◌+◌, ◌*◌, ◌^◌, ltb, leb, ◌==◌, if◌then◌else◌, u8, u64, Bool, false, ◌||◌,
  List, [], ◌∷◌, Array, slice, fill, read, Run, ok, waiting, require, ◌>>=◌, ◌>>◌,
}
use e_ssp.Defs.{Command, ssp_response_ok}
use e_ssp.Link.{Link}
use e_ssp.Commands.{Setup, Reply, request}

-- A big-endian number of `n` bytes at `i`, in 64 bits.
unfoldable pub be_at : Array → ℕ → ℕ → ℕ
be_at a i zero = 0
be_at a i (suc n) = u64 (a i * 2 ^ (8 * n) + be_at a (suc i) n)

-- `SSP_UNIT_DATA`; the two strings end with a zero.
pub record UnitData : Type 0 where
  pub unit_type : ℕ
  pub firmware_version : List ℕ
  pub country_code : List ℕ
  pub value_multiplier : ℕ
  pub protocol_version : ℕ

-- `SSP_CHANNEL_DATA`, with room for 16 channels.
pub record ChannelData : Type 0 where
  pub number_of_channels : ℕ
  pub channel_data : Array

-- `SSP_SETUP_REQUEST_DATA`; the two strings end with a zero.
pub record SetupRequestData : Type 0 where
  pub unit_type : ℕ
  pub firmware_version : List ℕ
  pub country_code : List ℕ
  pub value_multiplier : ℕ
  pub channel_values : ChannelData
  pub channel_security : ChannelData
  pub real_value_multiplier : ℕ
  pub protocol_version : ℕ

-- A loop that copies `n` bytes of the reply from `i` on into an array of 16.
unfoldable pub copy_channels : ℕ → Array → ℕ → Array → Run Array
copy_channels n resp i into = do
  require (leb n 16)
  require (leb (i + n) 255)
  ok (fill into 0 (slice resp i n))

-- `SSP_POLL_EVENT` and `SSP_POLL_DATA`; the latter has room for 20 events.
pub record Event : Type 0 where
  pub event : ℕ
  pub datum : ℕ

pub record PollData : Type 0 where
  pub events : ℕ → Event
  pub event_count : ℕ

abbrev member : ℕ → List ℕ → Bool
member c [] = false
member c (x ∷ xs) = (c == x) || member c xs

-- How many bytes of data follow a code.
unfoldable pub data_size : ℕ → ℕ
data_size c =
    if member c (0xEE ∷ 0xE6 ∷ 0xEF ∷ 0xE1 ∷ 0xE2 ∷ [])
    then 1
    else if member c
        (0xDA ∷ 0xD2 ∷ 0xD5 ∷ 0xD6 ∷ 0xD7 ∷ 0xD8 ∷ 0xD9 ∷ 0xDC ∷ 0xDD ∷ 0xDE ∷ 0xDF ∷ [])
    then 4
    else 0

-- The loop over `j`: four bytes, each shifted by 8 times its index in the reply.
unfoldable pub sum_data : ℕ → Array → ℕ → ℕ → Run (ℕ × ℕ)
sum_data zero resp i acc = ok (i, acc)
sum_data (suc j) resp i acc = do
  x ← read 255 resp (i + 1)
  require (ltb (i + 1) 8)
  sum_data j resp (i + 1) (u64 (acc + u64 (x * 2 ^ (8 * (i + 1)))))

unfoldable pub event_data : ℕ → Array → ℕ → Run (ℕ × ℕ)
event_data size resp i =
    if size == 1
    then (do x ← read 255 resp (i + 1); ok (i + 1, x))
    else if size == 4
    then sum_data 4 resp i 0
    else ok (i, 0)

unfoldable pub read_event : Array → ℕ → PollData → Run (ℕ × PollData)
read_event resp i pd = do
  code ← read 255 resp i
  require (ltb pd.event_count 20)
  (i, v) ← event_data (data_size code) resp i
  ok (
    i,
    record {
      events = λ n. if n == pd.event_count then record { event = code; datum = v } else pd.events n;
      event_count = u8 (pd.event_count + 1);
    },
  )

-- The loop over `i`; 255 rounds are enough, as a read at 255 is outside the array.
unfoldable pub read_events : ℕ → ℕ → Array → ℕ → PollData → Run PollData
read_events zero len resp i pd = waiting
read_events (suc fuel) len resp i pd =
    if ltb i len
    then (do (i, pd) ← read_event resp i pd; read_events fuel len resp (i + 1) pd)
    else ok pd

-- The parsers of the replies, from the data of a reply that is `SSP_RESPONSE_OK`.
unfoldable pub read_unit_data : Array → UnitData
read_unit_data resp = record {
  unit_type = resp 1;
  firmware_version = slice resp 2 4 ++ 0 ∷ [];
  country_code = slice resp 6 3 ++ 0 ∷ [];
  value_multiplier = be_at resp 9 3;
  protocol_version = resp 12;
}

unfoldable pub read_channels : Array → ChannelData → Run ChannelData
read_channels resp old = do
  let n = resp 1
  d ← copy_channels n resp 2 old.channel_data
  ok (record { number_of_channels = n; channel_data = d })

unfoldable pub read_setup : Array → SetupRequestData → Run SetupRequestData
read_setup resp old = do
  let n = resp 12
  values ← copy_channels n resp 13 old.channel_values.channel_data
  security ← copy_channels n resp (13 + n) old.channel_security.channel_data
  require (ltb (13 + n + n + 3) 255)
  ok (record {
    unit_type = resp 1;
    firmware_version = slice resp 2 4 ++ 0 ∷ [];
    country_code = slice resp 6 3 ++ 0 ∷ [];
    value_multiplier = be_at resp 9 3;
    channel_values = record { number_of_channels = n; channel_data = values };
    channel_security = record { number_of_channels = n; channel_data = security };
    real_value_multiplier = be_at resp (13 + n + n) 3;
    protocol_version = resp (13 + n + n + 3);
  })

module _ {W : Type 0} (link : Link W) (setup : Setup) (raw : Command) (w : W) where
  -- Sends a request and, if it succeeds, hands the reply to a parser; otherwise the caller's
  -- structure keeps its contents.
  unfoldable pub and_read : {A : Type 0} → List ℕ → A → (ℕ → Array → Run A) → Run (A × Reply W)
  and_read bytes old parse = do
    r ← request link setup raw w bytes
    if r.resp == ssp_response_ok
        then (do a ← parse r.cmd.response_data_length r.cmd.response_data; ok (a, r))
        else ok (old, r)

  unfoldable pub ssp_poll : PollData → Run (PollData × Reply W)
  ssp_poll old =
      and_read (0x07 ∷ []) old
        λ len resp. read_events 255 len resp 1 (record old { event_count = 0 })

  unfoldable pub ssp_get_serial : Run (ℕ × Reply W)
  ssp_get_serial = and_read (0x0C ∷ []) 0 λ len resp. ok (be_at resp 1 4)

  unfoldable pub ssp_unit_data : UnitData → Run (UnitData × Reply W)
  ssp_unit_data old = and_read (0x0D ∷ []) old λ len resp. ok (read_unit_data resp)

  unfoldable pub ssp_channel_value_data : ChannelData → Run (ChannelData × Reply W)
  ssp_channel_value_data old = and_read (0x0E ∷ []) old λ len resp. read_channels resp old

  unfoldable pub ssp_channel_security_data : ChannelData → Run (ChannelData × Reply W)
  ssp_channel_security_data old = and_read (0x0F ∷ []) old λ len resp. read_channels resp old

  unfoldable pub ssp_last_reject : Run (ℕ × Reply W)
  ssp_last_reject = and_read (0x17 ∷ []) 0 λ len resp. ok (resp 1)

  unfoldable pub ssp_setup_request : SetupRequestData → Run (SetupRequestData × Reply W)
  ssp_setup_request old = and_read (0x05 ∷ []) old λ len resp. read_setup resp old
