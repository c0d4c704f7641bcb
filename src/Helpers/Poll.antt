-- ===== src/Helpers/Poll.antt =====
-- `ssp6_poll` of _eSSP/ssp_helpers.c: the events in the reply to a poll. `unsigned long` has 64
-- bits, and a shift by 64 or more is undefined.
pub mod Simple
pub mod Money
pub mod Ending
use e_ssp.Base.{
  ℕ, zero, suc, ◌+◌, ◌-◌, ◌*◌, ◌^◌, ltb, ◌==◌, if◌then◌else◌, u8, u64, Bool, true, false, ◌||◌,
  List, [], ◌∷◌, Array, update, read, Run, ok, waiting, require, ◌>>=◌, ◌>>◌,
}
use e_ssp.Defs.{Command, ssp_response_ok}
use e_ssp.Link.{Link, Responded}
use e_ssp.Helpers.{send_request}

-- `SSP_POLL_EVENT6` and `SSP_POLL_DATA6`; the latter has room for 20 events.
pub record Event6 : Type 0 where
  pub event : ℕ
  pub data1 : ℕ
  pub data2 : ℕ
  pub cc : Array

pub record PollData6 : Type 0 where
  pub events : ℕ → Event6
  pub event_count : ℕ

-- `events[event_count]` is replaced.
abbrev pub put_event : PollData6 → Event6 → PollData6
put_event pd e = record pd { events = λ n. if n == pd.event_count then e else pd.events n }

-- Which reply a code begins.
pub data EventKind : Type 0 where
  one_byte : EventKind
  per_country : EventKind
  per_country_twice : EventKind
  no_data : EventKind

abbrev member : ℕ → List ℕ → Bool
member c [] = false
member c (x ∷ xs) = (c == x) || member c xs

-- The cases of the `switch`.
unfoldable pub event_kind : ℕ → EventKind
event_kind c =
    if member c (0xEE ∷ 0xEF ∷ 0xE1 ∷ 0xE2 ∷ 0x83 ∷ [])
    then one_byte
    else if member c
        (0xDA ∷ 0xD2 ∷ 0xD5 ∷ 0xD6 ∷ 0xD7 ∷ 0xD8 ∷ 0xD9 ∷ 0xDE ∷ 0xDF ∷ 0xB3 ∷ 0xB4 ∷ 0xE6 ∷ [])
    then per_country
    else if member c (0xDC ∷ 0xDD ∷ [])
    then per_country_twice
    else no_data

-- `((unsigned long) x) << (8*i)`.
abbrev pub shifted : ℕ → ℕ → Run ℕ
shifted x i = do require (ltb i 8); ok (u64 (x * 2 ^ (8 * i)))

-- The loop over `k` that adds four shifted bytes; it moves `i` first.
unfoldable pub add_data : ℕ → Array → ℕ → ℕ → Run (ℕ × ℕ)
add_data zero resp i acc = ok (i, acc)
add_data (suc k) resp i acc = do
  x ← read 255 resp (i + 1)
  v ← shifted x (i + 1)
  add_data k resp (i + 1) (u64 (acc + v))

-- The loop over `k` that adds bytes to the country code; the array has 4 elements.
unfoldable pub add_cc : ℕ → ℕ → Array → ℕ → Array → Run (ℕ × Array)
add_cc zero k resp i cc = ok (i, cc)
add_cc (suc left) k resp i cc = do
  x ← read 255 resp (i + 1)
  add_cc left (suc k) resp (i + 1) (update cc k (u8 (cc k + x)))

-- One round of the loop over `j` for the codes with 7 bytes of data: the entry is started afresh,
-- but for the first three bytes of its country code. Four bytes are added to that code.
unfoldable pub country7 : ℕ → Array → ℕ → PollData6 → Run (ℕ × PollData6)
unfolding add_data add_cc
country7 event resp i pd = do
  require (ltb pd.event_count 20)
  (i, data1) ← add_data 4 resp i 0
  (i, cc) ← add_cc 4 0 resp i (update (pd.events pd.event_count).cc 3 0)
  ok (i, put_event pd (record { event = event; data1 = data1; data2 = 0; cc = cc }))

-- The same for the codes with 11 bytes of data.
unfoldable pub country11 : ℕ → Array → ℕ → PollData6 → Run (ℕ × PollData6)
unfolding add_data add_cc
country11 event resp i pd = do
  require (ltb pd.event_count 20)
  (i, data1) ← add_data 4 resp i 0
  (i, data2) ← add_data 4 resp i 0
  (i, cc) ← add_cc 3 0 resp i (update (pd.events pd.event_count).cc 3 0)
  ok (i, put_event pd (record { event = event; data1 = data1; data2 = data2; cc = cc }))

-- The loop over `j`, with the rounds left. `event_count` moves on after every round but the last.
unfoldable pub countries_loop :
    (ℕ → PollData6 → Run (ℕ × PollData6)) → ℕ → ℕ → PollData6 → Run (ℕ × PollData6)
countries_loop country zero i pd = ok (i, pd)
countries_loop country (suc left) i pd = do
  (i, pd) ← country i pd
  countries_loop country left i
      (if left == 0 then pd else record pd { event_count = u8 (pd.event_count + 1) })

-- The entry as every round of the loop starts it.
abbrev pub fresh : ℕ → Event6 → Event6
fresh code old = record { event = code; data1 = 0; data2 = 0; cc = update (update old.cc 0 0) 3 0 }

unfoldable pub event_case : EventKind → ℕ → Array → ℕ → PollData6 → Run (ℕ × PollData6)
event_case one_byte code resp i pd = do
  x ← read 255 resp (i + 1)
  ok (i + 1, put_event pd (record (pd.events pd.event_count) { data1 = x }))
event_case per_country code resp i pd = do
  countries ← read 255 resp (i + 1)
  countries_loop (country7 code resp) countries (i + 1) pd
event_case per_country_twice code resp i pd = do
  countries ← read 255 resp (i + 1)
  countries_loop (country11 code resp) countries (i + 1) pd
event_case no_data code resp i pd =
    let old = pd.events pd.event_count in
    ok (i, put_event pd (record old { data1 = 0; data2 = 0; cc = update old.cc 0 0 }))

-- One round of the loop over `i`.
unfoldable pub poll_event : Array → ℕ → PollData6 → Run (ℕ × PollData6)
poll_event resp i pd = do
  code ← read 255 resp i
  require (ltb pd.event_count 20)
  (i, pd) ←
      event_case (event_kind code) code resp i
        (put_event pd (fresh code (pd.events pd.event_count)))
  ok (i, record pd { event_count = u8 (pd.event_count + 1) })

-- The loop over `i`. Every round moves `i`, and a read at 255 is outside the array, so 255 rounds
-- are enough.
unfoldable pub poll_loop : ℕ → ℕ → Array → ℕ → PollData6 → Run PollData6
poll_loop zero len resp i pd = waiting
poll_loop (suc fuel) len resp i pd =
    if ltb i len
    then (do (i, pd) ← poll_event resp i pd; poll_loop fuel len resp (i + 1) pd)
    else ok pd

unfoldable pub parse_poll : ℕ → Array → PollData6 → Run PollData6
parse_poll len resp pd = poll_loop 255 len resp 1 (record pd { event_count = 0 })

pub record Polled (W : Type 0) : Type 0 where
  pub responded : Responded W
  pub events : PollData6

unfoldable pub ssp6_poll : {W : Type 0} → Link W → PollData6 → Command → W → Run (Polled W)
ssp6_poll link pd cmd w = do
  r ← send_request link (0x07 ∷ []) cmd w
  if r.resp == ssp_response_ok
      then (do
        pd ← parse_poll r.cmd.response_data_length r.cmd.response_data pd
        ok (record { responded = r; events = pd }))
      else ok (record { responded = r; events = pd })
