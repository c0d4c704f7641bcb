-- ===== src/Helpers/Poll/Simple.antt =====
-- A reply of events that carry one byte of data or none is read as it was written.
use native.Mathlib.Numerals.{add-one}
use e_ssp.Base.{
  ℕ, zero, suc, ◌+◌, ◌≤◌, ◌<◌, lt→ltb, u8, List, [], ◌∷◌, length, All, Array, slice, update, ok,
  ◌≡◌, refl, ◌∙◌, arith,
}
use e_ssp.Helpers.Poll.{
  Event6, PollData6, one_byte, no_data, event_kind, event_case, poll_event, poll_loop, parse_poll,
  fresh, put_event,
}

pub data Item : Type 0 where
  plain : (code : ℕ) → Item
  with_byte : (code x : ℕ) → Item

-- An item as the unit writes it.
abbrev pub encode : List Item → List ℕ
encode [] = []
encode (plain code ∷ items) = code ∷ encode items
encode (with_byte code x ∷ items) = code ∷ x ∷ encode items

pub length-encode : (items : List Item) → length (encode items) ≤ length items + length items
length-encode [] = omega arith
length-encode (plain code ∷ items) = omega (arith, length-encode items)
length-encode (with_byte code x ∷ items) = omega (arith, length-encode items)

-- The code of the item announces the data that it has.
abbrev pub IsItem : Item → Type 0
IsItem (plain code) = event_kind code ≡ no_data
IsItem (with_byte code x) = event_kind code ≡ one_byte

-- An entry holds the item.
abbrev pub Holds : Event6 → Item → Type 0
Holds e (plain code) = (e.event ≡ code) × (e.data1 ≡ 0) × (e.data2 ≡ 0)
Holds e (with_byte code x) = (e.event ≡ code) × (e.data1 ≡ x) × (e.data2 ≡ 0)

-- The entries from `k` on hold the items, in order.
abbrev pub Listed : PollData6 → ℕ → List Item → Type 0
Listed pd k [] = Unit
Listed pd k (item ∷ items) = Holds (pd.events k) item × Listed pd (suc k) items

-- The list after a round for an item, as the code builds it.
abbrev started : PollData6 → ℕ → PollData6
started pd code = put_event pd (fresh code (pd.events pd.event_count))

abbrev filled : PollData6 → Item → PollData6
filled pd (plain code) =
    let old = (started pd code).events pd.event_count in
    put_event (started pd code) (record old { data1 = 0; data2 = 0; cc = update old.cc 0 0 })
filled pd (with_byte code x) =
    put_event (started pd code) (record ((started pd code).events pd.event_count) { data1 = x })

abbrev noted : PollData6 → Item → PollData6
noted pd item = record (filled pd item) { event_count = u8 (pd.event_count + 1) }

module _ (resp : Array) (pd : PollData6) (room : pd.event_count < 20) where
  poll_event-plain :
      (i code : ℕ)
      → event_kind code ≡ no_data
      → resp i ≡ code
      → i < 255
      → poll_event resp i pd ≡ ok (i, noted pd (plain code))
  unfolding poll_event event_case
  poll_event-plain i code kind here inside =
      rw (lt→ltb i 255 inside, lt→ltb pd.event_count 20 room, here, kind) refl

  poll_event-with_byte :
      (i code x : ℕ)
      → event_kind code ≡ one_byte
      → resp i ≡ code
      → resp (i + 1) ≡ x
      → i + 1 < 255
      → poll_event resp i pd ≡ ok (i + 1, noted pd (with_byte code x))
  unfolding poll_event event_case
  poll_event-with_byte i code x kind here next inside =
      rw
        (
          lt→ltb i 255 (omega arith),
          lt→ltb pd.event_count 20 room,
          here,
          kind,
          lt→ltb (i + 1) 255 inside,
          next,
        )
        refl

  Holds-noted : (item : Item) → Holds ((noted pd item).events pd.event_count) item
  Holds-noted (plain code) = ground arith
  Holds-noted (with_byte code x) = ground arith

  noted-before : (item : Item) (n : ℕ) → n < pd.event_count → (noted pd item).events n ≡ pd.events n
  noted-before (plain code) n h = ground arith
  noted-before (with_byte code x) n h = ground arith

-- The list when all the items are noted.
abbrev all_noted : PollData6 → List Item → PollData6
all_noted pd [] = pd
all_noted pd (item ∷ items) = all_noted (noted pd item) items

all_noted-before :
    (items : List Item) (pd : PollData6) (n : ℕ)
    → n < pd.event_count
    → pd.event_count + length items ≤ 20
    → (all_noted pd items).events n ≡ pd.events n
all_noted-before [] pd n h room = refl
all_noted-before (item ∷ items) pd n h room =
    all_noted-before items (noted pd item) n (omega arith) (omega arith)
    ∙ noted-before (λ _. 0) pd (omega arith) item n h

all_noted-count :
    (items : List Item) (pd : PollData6)
    → pd.event_count + length items ≤ 20
    → (all_noted pd items).event_count ≡ pd.event_count + length items
all_noted-count [] pd room = omega arith
all_noted-count (item ∷ items) pd room =
    omega (arith, all_noted-count items (noted pd item) (omega arith))

Listed-all_noted :
    (items : List Item) (pd : PollData6) (k : ℕ)
    → k ≡ pd.event_count
    → pd.event_count + length items ≤ 20
    → Listed (all_noted pd items) k items
Listed-all_noted [] pd k e room = tt
Listed-all_noted (item ∷ items) pd k e room = rw e (
  rw (all_noted-before items (noted pd item) pd.event_count (omega arith) (omega arith))
      (Holds-noted (λ _. 0) pd (omega arith) item),
  Listed-all_noted items (noted pd item) (suc pd.event_count) (omega arith) (omega arith),
)

-- A round in the loop.
pub poll_loop-suc :
    (fuel len : ℕ) (resp : Array) (i i' : ℕ) (pd pd' : PollData6)
    → i < len
    → poll_event resp i pd ≡ ok (i', pd')
    → poll_loop (suc fuel) len resp i pd ≡ poll_loop fuel len resp (suc i') pd'
unfolding poll_loop
poll_loop-suc fuel len resp i i' pd pd' more step = rw (lt→ltb i len more, step, add-one) refl

poll_loop-all_noted :
    (items : List Item) (fuel len : ℕ) (resp : Array) (i : ℕ) (pd : PollData6)
    → All IsItem items
    → length items < fuel
    → slice resp i (length (encode items)) ≡ encode items
    → i + length (encode items) ≡ len
    → len ≤ 255
    → pd.event_count + length items ≤ 20
    → poll_loop fuel len resp i pd ≡ ok (all_noted pd items)
poll_loop-all_noted items zero len resp i pd good enough bytes ends fits room = absurd (omega arith)
poll_loop-all_noted [] (suc fuel) len resp i pd good enough bytes ends fits room =
    unfold poll_loop in ground arith
poll_loop-all_noted (plain code ∷ items) (suc fuel) len resp i pd good enough bytes ends fits room =
    poll_loop-suc fuel len resp i i pd _ (omega arith)
      (poll_event-plain resp pd (omega arith) i code good.0 (cc) (omega arith))
    ∙ poll_loop-all_noted items fuel len resp (suc i) (noted pd (plain code)) good.1 (omega arith)
        (cc) (omega arith) fits (omega arith)
poll_loop-all_noted (with_byte code x ∷ items) (suc fuel) len resp i pd good enough bytes ends fits
      room =
    poll_loop-suc fuel len resp i (i + 1) pd _ (omega arith)
      (poll_event-with_byte resp pd (omega arith) i code x good.0 (cc) (ground arith) (omega arith))
    ∙ rw add-one (
        poll_loop-all_noted items fuel len resp (suc (suc i)) (noted pd (with_byte code x)) good.1
          (omega arith) (cc) (omega arith) fits (omega arith))

-- A reply with at most 20 events, each with the one byte of data that its code announces or with
-- none, is read to its end without an access outside an array: there are as many entries as
-- events, and entry by entry they hold the code and the data, in order.
pub parse_poll-Listed :
    (items : List Item) (resp : Array) (pd : PollData6)
    → All IsItem items
    → length items ≤ 20
    → slice resp 1 (length (encode items)) ≡ encode items
    → (t : PollData6) × (parse_poll (1 + length (encode items)) resp pd ≡ ok t)
      × (t.event_count ≡ length items)
      × Listed t 0 items
unfolding parse_poll
parse_poll-Listed items resp pd good room bytes =
    let start = record pd { event_count = 0 } in
    (
      all_noted start items,
      poll_loop-all_noted items 255 (1 + length (encode items)) resp 1 start good (omega arith)
          bytes refl (omega (arith, length-encode items)) (omega arith),
      all_noted-count items start (omega arith) ∙ omega arith,
      Listed-all_noted items start 0 refl (omega arith),
    )
