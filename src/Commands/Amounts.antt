-- ===== src/Commands/Amounts.antt =====
-- What `ssp_poll` of _eSSP/lib/ssp_commands.c makes of events with an amount: the shift of each byte
-- is taken from its place in the reply, not from its place in the amount.
use e_ssp.Base.{
  ℕ, suc, ◌+◌, ◌*◌, ◌^◌, ◌≤◌, ◌<◌, lt→ltb, u8, u64, IsByte, Array, [], ◌∷◌, ◌==◌, if◌then◌else◌, ok,
  ◌≡◌, refl, ◌∙◌, arith,
}
use e_ssp.Defs.{Command, ssp_response_ok}
use e_ssp.Link.{Link}
use e_ssp.Commands.{Setup, Reply, request}
use e_ssp.Commands.Replies.{
  and_read, ssp_poll, PollData, data_size, sum_data, event_data, read_event, read_events,
}

-- The amount that the unit writes at indices 2 to 5.
abbrev pub first_amount : Array → ℕ
first_amount resp = resp 2 + 256 * (resp 3 + 256 * (resp 4 + 256 * resp 5))

-- The list with one more event.
abbrev pub noted : PollData → ℕ → ℕ → PollData
noted pd code v = record {
  events = λ n. if n == pd.event_count then record { event = code; datum = v } else pd.events n;
  event_count = u8 (pd.event_count + 1);
}

pub read_events-suc :
    (fuel len : ℕ) (resp : Array) (i i' : ℕ) (pd pd' : PollData)
    → i < len
    → read_event resp i pd ≡ ok (i', pd')
    → read_events (suc fuel) len resp i pd ≡ read_events fuel len resp (i' + 1) pd'
unfolding read_events
read_events-suc fuel len resp i i' pd pd' more step = rw (lt→ltb i len more, step) refl

pub read_events_end :
    (fuel len : ℕ) (resp : Array) (i : ℕ) (pd : PollData)
    → len ≤ i
    → read_events (suc fuel) len resp i pd ≡ ok pd
unfolding read_events
read_events_end fuel len resp i pd h = ground arith

module _ (resp : Array) where
  -- What the code adds up for the first event.
  abbrev added : ℕ
  added = u64 (
      u64 (u64 (u64 (0 + u64 (resp 2 * 2 ^ 16)) + u64 (resp 3 * 2 ^ 24)) + u64 (resp 4 * 2 ^ 32))
      + u64 (resp 5 * 2 ^ 40))

  first_data : sum_data 4 resp 1 0 ≡ ok (5, added)
  unfolding sum_data
  first_data = refl

  first_event :
      (pd : PollData)
      → data_size (resp 1) ≡ 4
      → pd.event_count ≡ 0
      → read_event resp 1 pd ≡ ok (5, noted pd (resp 1) added)
  unfolding read_event event_data
  first_event pd size empty =
      rw (size, lt→ltb pd.event_count 20 (omega (arith, empty)), first_data) refl

  read_events-amount :
      (old : PollData)
      → data_size (resp 1) ≡ 4
      → IsByte (resp 2)
      → IsByte (resp 3)
      → IsByte (resp 4)
      → IsByte (resp 5)
      → (t : PollData) × (read_events 255 6 resp 1 (record old { event_count = 0 }) ≡ ok t)
        × (t.event_count ≡ 1)
        × ((t.events 0).event ≡ resp 1)
        × ((t.events 0).datum ≡ first_amount resp * 2 ^ 16)
  read_events-amount old size b2 b3 b4 b5 =
      let t = noted (record old { event_count = 0 }) (resp 1) added in
      (
        t,
        read_events-suc 254 6 resp 1 5 _ t (omega arith) (first_event _ size refl)
            ∙ read_events_end 253 6 resp 6 t (omega arith),
        refl,
        refl,
        omega arith,
      )

-- When the unit answers a poll with `SSP_RESPONSE_OK` and one event with an amount, `ssp_poll`
-- returns that code and one entry. The entry has the code of the event, and for its amount 2 ^ 16
-- times the amount that the unit wrote.
pub ssp_poll-amount :
    {W : Type 0} (link : Link W) (setup : Setup) (raw : Command) (w : W) (old : PollData)
    (r : Reply W)
    → request link setup raw w (0x07 ∷ []) ≡ ok r
    → r.resp ≡ ssp_response_ok
    → r.cmd.response_data_length ≡ 6
    → data_size (r.cmd.response_data 1) ≡ 4
    → IsByte (r.cmd.response_data 2)
    → IsByte (r.cmd.response_data 3)
    → IsByte (r.cmd.response_data 4)
    → IsByte (r.cmd.response_data 5)
    → (t : PollData) × (ssp_poll link setup raw w old ≡ ok (t, r))
      × (t.event_count ≡ 1)
      × ((t.events 0).event ≡ r.cmd.response_data 1)
      × ((t.events 0).datum ≡ first_amount r.cmd.response_data * 2 ^ 16)
unfolding ssp_poll and_read
ssp_poll-amount link setup raw w old r answer accepted six size b2 b3 b4 b5 =
    let read = read_events-amount r.cmd.response_data old size b2 b3 b4 b5 in
    (read.0, rw (answer, accepted, six, read.1) refl, read.2, read.3, read.4)
