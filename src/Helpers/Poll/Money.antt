-- ===== src/Helpers/Poll/Money.antt =====
-- What `ssp6_poll` makes of events with an amount: the shift of each byte is taken from its place
-- in the reply, not from its place in the amount.
use e_ssp.Base.{
  false, ℕ, suc, ◌+◌, ◌-◌, ◌*◌, ◌^◌, ◌≤◌, ◌<◌, ◌==◌, if◌then◌else◌, lt→ltb, u8, u64, read, IsByte,
  Array, Run, ok, fault, ◌>>=◌, ◌≡◌, refl, ap, ◌∙◌, arith,
}
use e_ssp.Helpers.Poll.Simple.{poll_loop-suc}
use e_ssp.Helpers.Poll.{
  PollData6, put_event, per_country, event_kind, fresh, add_data, add_cc, country7, countries_loop,
  event_case, poll_event, poll_loop, parse_poll,
}

-- The amount that the unit writes at indices 3 to 6.
abbrev pub amount : Array → ℕ
amount resp = resp 3 + 256 * (resp 4 + 256 * (resp 5 + 256 * resp 6))

-- The list as a poll starts it, and with the entry of the first event.
abbrev opened : PollData6 → ℕ → PollData6
opened pd code =
    let start = record pd { event_count = 0 } in put_event start (fresh code (pd.events 0))

-- A round with more to come, and one that runs into undefined behaviour.
countries_loop-more :
    (country : ℕ → PollData6 → Run (ℕ × PollData6)) (n i i' : ℕ) (pd t : PollData6)
    → country i pd ≡ ok (i', t)
    → countries_loop country (suc (suc n)) i pd
      ≡ countries_loop country (suc n) i' (record t { event_count = u8 (t.event_count + 1) })
unfolding countries_loop
countries_loop-more country n i i' pd t e =
    let more : (suc n == 0) ≡ false = ground arith in
    ap
      (λ r. r >>= λ (k, p).
        countries_loop country (suc n) k
          (if suc n == 0 then p else record p { event_count = u8 (p.event_count + 1) }))
      e
    ∙ ap
        (λ b.
          countries_loop country (suc n) i'
            (if b then t else record t { event_count = u8 (t.event_count + 1) }))
        more

countries_loop-fault :
    (country : ℕ → PollData6 → Run (ℕ × PollData6)) (n i : ℕ) (pd : PollData6)
    → country i pd ≡ fault
    → countries_loop country (suc n) i pd ≡ fault
unfolding countries_loop
countries_loop-fault country n i pd e = rw e refl

poll_loop_end :
    (fuel len : ℕ) (resp : Array) (i : ℕ) (t : PollData6)
    → len ≤ i
    → poll_loop (suc fuel) len resp i t ≡ ok t
unfolding poll_loop
poll_loop_end fuel len resp i t h = ground arith

poll_loop_fault :
    (fuel len : ℕ) (resp : Array) (i : ℕ) (t : PollData6)
    → i < len
    → poll_event resp i t ≡ fault
    → poll_loop (suc fuel) len resp i t ≡ fault
unfolding poll_loop
poll_loop_fault fuel len resp i t h e = rw (lt→ltb i len h, e) refl

module _ (resp : Array) (pd : PollData6) (code : ℕ) where
  -- What the code adds up: byte `k` of the amount, shifted by its place in the reply.
  abbrev added : ℕ
  added = u64 (
      u64 (u64 (u64 (0 + u64 (resp 3 * 2 ^ 24)) + u64 (resp 4 * 2 ^ 32)) + u64 (resp 5 * 2 ^ 40))
      + u64 (resp 6 * 2 ^ 48))

  first_country :
      (t : PollData6) × (country7 code resp 2 (opened pd code) ≡ ok (10, t))
      × (t.event_count ≡ 0)
      × ((t.events 0).event ≡ code)
      × ((t.events 0).data1 ≡ added)
  unfolding country7 add_data add_cc
  first_country = (_, refl, refl, refl, refl)

  abbrev one_paid : PollData6
  one_paid = first_country.0

  -- The countries of the first event.
  one_country :
      event_case per_country code resp 1 (opened pd code)
      ≡ (read 255 resp 2 >>= λ n. countries_loop (country7 code resp) n 2 (opened pd code))
  unfolding event_case
  one_country = refl

  first_event :
      (n : ℕ)
      → resp 1 ≡ code
      → event_kind code ≡ per_country
      → resp 2 ≡ n
      → poll_event resp 1 (record pd { event_count = 0 }) ≡ (
          countries_loop (country7 code resp) n 2 (opened pd code) >>= λ (i, t).
          ok (i, record t { event_count = u8 (t.event_count + 1) }))
  unfolding poll_event event_case
  first_event n here kind counted = rw (here, kind, counted) refl

  -- The first country, alone or with others behind it.
  countries_once : countries_loop (country7 code resp) 1 2 (opened pd code) ≡ ok (10, one_paid)
  unfolding countries_loop
  countries_once = rw (first_country.1) refl

  late_country : (t : PollData6) → t.event_count < 20 → country7 code resp 10 t ≡ fault
  unfolding country7 add_data
  late_country t room = rw (lt→ltb t.event_count 20 room) refl

  countries_many :
      (n : ℕ) → countries_loop (country7 code resp) (suc (suc n)) 2 (opened pd code) ≡ fault
  countries_many n =
      let next : PollData6 = record one_paid { event_count = u8 (one_paid.event_count + 1) } in
      countries_loop-more (country7 code resp) n 2 10 (opened pd code) one_paid first_country.1
      ∙ countries_loop-fault (country7 code resp) n 10 next
          (late_country next (omega (arith, first_country.2)))

  -- A reply to a poll that begins with an event of one country and has no other event: the entry
  -- has the code of the event, and for its amount 2 ^ 24 times the amount that the unit wrote.
  pub parse_poll_one_country :
      (len : ℕ)
      → resp 1 ≡ code
      → event_kind code ≡ per_country
      → resp 2 ≡ 1
      → 2 ≤ len
      → len ≤ 11
      → IsByte (resp 3)
      → IsByte (resp 4)
      → IsByte (resp 5)
      → IsByte (resp 6)
      → (t : PollData6) × (parse_poll len resp pd ≡ ok t)
        × (t.event_count ≡ 1)
        × ((t.events 0).event ≡ code)
        × ((t.events 0).data1 ≡ amount resp * 2 ^ 24)
  unfolding parse_poll
  parse_poll_one_country len here kind one some_data short b3 b4 b5 b6 =
      let t : PollData6 = record one_paid { event_count = u8 (one_paid.event_count + 1) } in
      (
        t,
        poll_loop-suc 254 len resp 1 10 _ t (omega arith)
              (first_event 1 here kind one ∙ rw countries_once refl)
            ∙ poll_loop_end 253 len resp 11 t short,
        omega (arith, first_country.2),
        first_country.3,
        first_country.4 ∙ omega arith,
      )

  -- A reply to a poll that begins with an event of two countries or more runs into an undefined
  -- shift.
  pub parse_poll_two_countries :
      (len : ℕ)
      → resp 1 ≡ code
      → event_kind code ≡ per_country
      → 2 ≤ resp 2
      → 2 ≤ len
      → parse_poll len resp pd ≡ fault
  unfolding parse_poll
  parse_poll_two_countries len here kind many some_data =
      poll_loop_fault 254 len resp 1 _ (omega arith) (
        first_event (suc (suc (resp 2 - 2))) here kind (omega arith)
        ∙ rw (countries_many (resp 2 - 2)) refl)
