-- ===== src/Examples/Polls.antt =====
-- Replies to a poll, at concrete events.
use e_ssp.Base.{
  ◌≢◌, waiting, ℕ, ◌+◌, ◌*◌, ◌^◌, ◌∷◌, [], List, All, slice, fill, ok, fault, ◌≡◌, refl, arith,
}
use e_ssp.Helpers.Poll.{PollData6, parse_poll, event_kind}
use e_ssp.Helpers.Poll.Simple.{Item, plain, with_byte, encode, IsItem, Listed, parse_poll-Listed}
use e_ssp.Helpers.Poll.Ending.{parse_poll-ends}
use e_ssp.Helpers.Poll.Money.{amount, parse_poll_one_country, parse_poll_two_countries}
use e_ssp.Examples.{blank, listed}

abbrev no_events : PollData6
no_events = record {
  events = λ n. record { event = 0; data1 = 0; data2 = 0; cc = blank };
  event_count = 0;
}

-- A note read on channel 2, and "disabled".
abbrev items : List Item
items = with_byte 0xEF 2 ∷ plain 0xE8 ∷ []

items-IsItem : All IsItem items
items-IsItem = unfold event_kind in (refl, (refl, tt))

items-listed : slice (listed (0xF0 ∷ encode items)) 1 3 ≡ encode items
items-listed = unfold fill in refl

parse_poll-Listed_example :
    (t : PollData6) × (parse_poll (1 + 3) (listed (0xF0 ∷ encode items)) no_events ≡ ok t)
    × (t.event_count ≡ 2)
    × Listed t 0 items
parse_poll-Listed_example =
    parse_poll-Listed items (listed (0xF0 ∷ encode items)) no_events items-IsItem (omega arith)
      items-listed

-- Dispensed, one country: 500 EUR.
abbrev one : ℕ → ℕ
one = listed (0xF0 ∷ 0xD2 ∷ 1 ∷ 0xF4 ∷ 1 ∷ 0 ∷ 0 ∷ 69 ∷ 85 ∷ 82 ∷ [])

parse_poll_one_country_example :
    (t : PollData6) × (parse_poll 10 one no_events ≡ ok t)
    × (t.event_count ≡ 1)
    × ((t.events 0).event ≡ 0xD2)
    × ((t.events 0).data1 ≡ amount one * 2 ^ 24)
unfolding fill event_kind
parse_poll_one_country_example =
    parse_poll_one_country one no_events 0xD2 10 refl refl refl (omega arith) (omega arith)
      (omega arith) (omega arith) (omega arith) (omega arith)

-- Dispensed, two countries.
abbrev two : ℕ → ℕ
two = listed (0xF0 ∷ 0xD2 ∷ 2 ∷ [])

two_countries : parse_poll 17 two no_events ≡ fault
unfolding fill event_kind
two_countries = parse_poll_two_countries two no_events 0xD2 17 refl refl (omega arith) (omega arith)

parse_poll-ends_example : parse_poll 200 two no_events ≢ waiting
parse_poll-ends_example = parse_poll-ends 200 two no_events
