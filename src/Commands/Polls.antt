-- ===== src/Commands/Polls.antt =====
-- What `ssp_poll` of _eSSP/lib/ssp_commands.c makes of a reply of several events.
use e_ssp.Base.{
  ℕ, suc, ◌+◌, ◌≤◌, ◌<◌, ltb, lt→ltb, List, [], ◌∷◌, length, All, Array, slice, ok, fault,
  Bool-cases, inl, inr, ◌≡◌, refl, ap, ap₂, ◌-◌, ◌∙◌, arith,
}
use e_ssp.Defs.{Command, ssp_response_ok}
use e_ssp.Link.{Link}
use e_ssp.Helpers.Poll.Simple.{Item, plain, with_byte, encode, length-encode}
use e_ssp.Commands.{Setup, Reply, request}
use e_ssp.Commands.Replies.{
  and_read, ssp_poll, Event, PollData, data_size, sum_data, event_data, read_event, read_events,
}
use e_ssp.Commands.Amounts.{noted, read_events-suc, read_events_end}

-- The entry of an item.
abbrev pub entry : Item → Event
entry (plain code) = record { event = code; datum = 0 }
entry (with_byte code x) = record { event = code; datum = x }

-- The code of the item announces the data that it has.
abbrev pub IsAnnounced : Item → Type 0
IsAnnounced (plain code) = data_size code ≡ 0
IsAnnounced (with_byte code x) = data_size code ≡ 1

-- The entries from `k` on are those of the items, in order.
abbrev pub Entered : PollData → ℕ → List Item → Type 0
Entered pd k [] = Unit
Entered pd k (item ∷ items) = (pd.events k ≡ entry item) × Entered pd (suc k) items

-- The list when all the items are noted.
abbrev all_noted : PollData → List Item → PollData
all_noted pd [] = pd
all_noted pd (item ∷ items) = all_noted (noted pd (entry item).event (entry item).datum) items

all_noted-before :
    (items : List Item) (pd : PollData) (n : ℕ)
    → n < pd.event_count
    → pd.event_count + length items ≤ 20
    → (all_noted pd items).events n ≡ pd.events n
all_noted-before [] pd n h room = refl
all_noted-before (item ∷ items) pd n h room =
    all_noted-before items (noted pd (entry item).event (entry item).datum) n (omega arith)
      (omega arith)
    ∙ ground arith

all_noted-count :
    (items : List Item) (pd : PollData)
    → pd.event_count + length items ≤ 20
    → (all_noted pd items).event_count ≡ pd.event_count + length items
all_noted-count [] pd room = omega arith
all_noted-count (item ∷ items) pd room =
    omega
      (arith, all_noted-count items (noted pd (entry item).event (entry item).datum) (omega arith))

Entered-all_noted :
    (items : List Item) (pd : PollData) (k : ℕ)
    → k ≡ pd.event_count
    → pd.event_count + length items ≤ 20
    → Entered (all_noted pd items) k items
Entered-all_noted [] pd k e room = tt
Entered-all_noted (item ∷ items) pd k e room =
    let next = noted pd (entry item).event (entry item).datum in
    (
      all_noted-before items next k (omega arith) (omega arith) ∙ ground arith,
      Entered-all_noted items next (suc k) (omega arith) (omega arith),
    )

module _ (resp : Array) (pd : PollData) (room : pd.event_count < 20) (i code : ℕ)
    (here : resp i ≡ code) where
  read_event-plain : data_size code ≡ 0 → i < 255 → read_event resp i pd ≡ ok (i, noted pd code 0)
  unfolding read_event event_data
  read_event-plain size inside =
      rw (lt→ltb i 255 inside, lt→ltb pd.event_count 20 room, here, size) refl

  read_event-with_byte :
      (x : ℕ)
      → data_size code ≡ 1
      → resp (i + 1) ≡ x
      → i + 1 < 255
      → read_event resp i pd ≡ ok (i + 1, noted pd code x)
  unfolding read_event event_data
  read_event-with_byte x size next inside =
      rw
        (
          lt→ltb i 255 (omega arith),
          lt→ltb pd.event_count 20 room,
          here,
          size,
          lt→ltb (i + 1) 255 inside,
          next,
        )
        refl

  -- From index 4 on, a byte of an amount is shifted by 64 or more.
  sum_data-fault : 4 ≤ i → sum_data 4 resp i 0 ≡ fault
  unfolding sum_data
  sum_data-fault late = ground arith

  read_event-fault : data_size code ≡ 4 → 4 ≤ i → read_event resp i pd ≡ fault
  unfolding read_event event_data
  read_event-fault size late = elim (Bool-cases (ltb i 255)) [
    | inl inside ↦ rw (inside, lt→ltb pd.event_count 20 room, here, size, sum_data-fault late) refl
    | inr outside ↦ rw outside refl
  ]

-- The rounds for the items, and those after them.
read_events-all_noted :
    (items : List Item) (fuel len : ℕ) (resp : Array) (i : ℕ) (pd : PollData)
    → All IsAnnounced items
    → slice resp i (length (encode items)) ≡ encode items
    → i + length (encode items) ≤ len
    → len ≤ 255
    → pd.event_count + length items ≤ 20
    → read_events (length items + fuel) len resp i pd
      ≡ read_events fuel len resp (i + length (encode items)) (all_noted pd items)
read_events-all_noted [] fuel len resp i pd good bytes ends fits room =
    ap₂ (λ n j. read_events n len resp j pd) {x = 0 + fuel} (omega arith) (omega arith)
read_events-all_noted (plain code ∷ items) fuel len resp i pd good bytes ends fits room =
    ap (λ n. read_events n len resp i pd) {y = suc (length items + fuel)} (omega arith)
    ∙ read_events-suc (length items + fuel) len resp i i pd _ (omega arith)
        (read_event-plain resp pd (omega arith) i code (cc) good.0 (omega arith))
    ∙ ap (λ j. read_events (length items + fuel) len resp j (noted pd code 0)) {y = suc i}
        (omega arith)
    ∙ read_events-all_noted items fuel len resp (suc i) (noted pd code 0) good.1 (cc) (omega arith)
        fits (omega arith)
    ∙ ap (λ j. read_events fuel len resp j (all_noted (noted pd code 0) items)) (omega arith)
read_events-all_noted (with_byte code x ∷ items) fuel len resp i pd good bytes ends fits room =
    ap (λ n. read_events n len resp i pd) {y = suc (length items + fuel)} (omega arith)
    ∙ read_events-suc (length items + fuel) len resp i (i + 1) pd _ (omega arith) (
        read_event-with_byte resp pd (omega arith) i code (cc) x good.0 (ground arith)
          (omega arith))
    ∙ ap (λ j. read_events (length items + fuel) len resp j (noted pd code x)) {y = suc (suc i)}
        (omega arith)
    ∙ read_events-all_noted items fuel len resp (suc (suc i)) (noted pd code x) good.1 (cc)
        (omega arith) fits (omega arith)
    ∙ ap (λ j. read_events fuel len resp j (all_noted (noted pd code x) items)) (omega arith)

module _ {W : Type 0} (link : Link W) (setup : Setup) (raw : Command) (w : W) (old : PollData)
    (r : Reply W) (items : List Item) (answer : request link setup raw w (0x07 ∷ []) ≡ ok r)
    (accepted : r.resp ≡ ssp_response_ok) (good : All IsAnnounced items)
    (bytes : slice r.cmd.response_data 1 (length (encode items)) ≡ encode items) where
  abbrev empty : PollData
  empty = record old { event_count = 0 }

  -- When the unit answers a poll with `SSP_RESPONSE_OK` and at most 20 events, each with the one byte of
  -- data that its code announces or with none, `ssp_poll` returns that code and as many
  -- entries as events: entry by entry they hold the code and the data, in order.
  pub ssp_poll-Entered :
      length items ≤ 20
      → r.cmd.response_data_length ≡ 1 + length (encode items)
      → (t : PollData) × (ssp_poll link setup raw w old ≡ ok (t, r))
        × (t.event_count ≡ length items)
        × Entered t 0 items
  unfolding ssp_poll and_read
  ssp_poll-Entered room size =
      let len = 1 + length (encode items) in
      let short = length-encode items in
      let start =
        read_events-all_noted items (255 - length items) len r.cmd.response_data 1 empty good bytes
          (omega arith) (omega (arith, short)) (omega arith) in
      let ends =
        read_events_end (254 - length items) len r.cmd.response_data len (all_noted empty items)
          (omega arith) in
      let read : read_events 255 len r.cmd.response_data 1 empty ≡ ok (all_noted empty items) =
        ap (λ n. read_events n len r.cmd.response_data 1 empty)
          {y = length items + (255 - length items)} (omega arith)
        ∙ start
        ∙ ap (λ n. read_events n len r.cmd.response_data len (all_noted empty items))
            {y = suc (254 - length items)} (omega arith)
        ∙ ends in
      (
        all_noted empty items,
        rw (answer, accepted, size, read) refl,
        all_noted-count items empty (omega arith) ∙ omega arith,
        Entered-all_noted items empty 0 refl (omega arith),
      )

  -- When the unit answers a poll with `SSP_RESPONSE_OK` and, in a reply shorter than 256 bytes, an event
  -- with an amount follows fewer than 20 events, each with the one byte of data that its code
  -- announces or with none, and its code is not among the first four bytes of the reply, `ssp_poll` has
  -- undefined behaviour: a byte of the amount is shifted by 64 or more, or read past the array.
  pub ssp_poll-late_amount :
      length items < 20
      → r.cmd.response_data_length < 256
      → 3 ≤ length (encode items)
      → 1 + length (encode items) < r.cmd.response_data_length
      → data_size (r.cmd.response_data (1 + length (encode items))) ≡ 4
      → ssp_poll link setup raw w old ≡ fault
  unfolding ssp_poll and_read
  ssp_poll-late_amount room byte late more size =
      let len = r.cmd.response_data_length in
      let j = 1 + length (encode items) in
      let start =
        read_events-all_noted items (255 - length items) len r.cmd.response_data 1 empty good bytes
          (omega arith) (omega arith) (omega arith) in
      let stops =
        read_event-fault r.cmd.response_data (all_noted empty items)
          (omega (arith, all_noted-count items empty (omega arith))) j _ refl size (omega arith) in
      let read : read_events 255 len r.cmd.response_data 1 empty ≡ fault =
        ap (λ n. read_events n len r.cmd.response_data 1 empty)
          {y = length items + (255 - length items)} (omega arith)
        ∙ start
        ∙ ap (λ n. read_events n len r.cmd.response_data j (all_noted empty items))
            {y = suc (254 - length items)} (omega arith)
        ∙ (unfold read_events in rw (lt→ltb j len more, stops) refl) in
      rw (answer, accepted, read) refl
