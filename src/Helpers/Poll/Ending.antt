-- ===== src/Helpers/Poll/Ending.antt =====
-- The parser of `ssp6_poll` ends on every reply, as each round moves on and stays in the reply.
use mathlib.Core.Path.{subst}
use e_ssp.Base.{
  ℕ, zero, suc, ◌+◌, ◌*◌, ◌^◌, ◌≤◌, ltb, u64, Bool-cases, Array, update, Run, ok, waiting, require,
  ◌>>◌, Halts, Halts-ok, Halts-weaken, Halts-bind, Halts-require, Halts-read, inl, inr, ◌≡◌, ◌≢◌,
  arith,
}
use e_ssp.Helpers.Poll.{
  PollData6, EventKind, one_byte, per_country, per_country_twice, no_data, event_kind, add_data,
  add_cc, country7, country11, countries_loop, event_case, poll_event, poll_loop, parse_poll,
}

-- The index moved on from `i`, inside the reply.
abbrev Within : {A : Type 0} → ℕ → ℕ × A → Type 0
Within i r = (i ≤ r.0) × (r.0 ≤ 254)

add_data-Within :
    (k : ℕ) (resp : Array) (i acc : ℕ) → i ≤ 254 → Halts (Within i) (add_data k resp i acc)
unfolding add_data
add_data-Within zero resp i acc h = Halts-ok (Within i) _ (omega arith, h)
add_data-Within (suc k) resp i acc h = Halts-read _ 255 resp (i + 1) _ λ inside.
    Halts-bind (λ _. Unit) _
      (do require (ltb (i + 1) 8); ok (u64 (resp (i + 1) * 2 ^ (8 * (i + 1))))) _
      (Halts-require _ (ltb (i + 1) 8) _ λ _. Halts-ok _ _ tt)
      λ v _.
        Halts-weaken (Within (i + 1)) _ _ (add_data-Within k resp (i + 1) _ (omega arith))
          λ r g. (omega arith, g.1)

add_cc-Within :
    (left k : ℕ) (resp : Array) (i : ℕ) (cc : Array)
    → i ≤ 254
    → Halts (Within i) (add_cc left k resp i cc)
unfolding add_cc
add_cc-Within zero k resp i cc h = Halts-ok (Within i) _ (omega arith, h)
add_cc-Within (suc left) k resp i cc h = Halts-read _ 255 resp (i + 1) _ λ inside.
    Halts-weaken (Within (i + 1)) _ _ (add_cc-Within left (suc k) resp (i + 1) _ (omega arith))
      λ r g. (omega arith, g.1)

country7-Within :
    (event : ℕ) (resp : Array) (i : ℕ) (pd : PollData6)
    → i ≤ 254
    → Halts (Within i) (country7 event resp i pd)
unfolding country7
country7-Within event resp i pd h = Halts-require _ (ltb pd.event_count 20) _ λ _.
    Halts-bind (Within i) _ (add_data 4 resp i 0) _ (add_data-Within 4 resp i 0 h) λ (i1, data1) g.
      Halts-bind (Within i1) _ (add_cc 4 0 resp i1 (update (pd.events pd.event_count).cc 3 0)) _
        (add_cc-Within 4 0 resp i1 (update (pd.events pd.event_count).cc 3 0) (g.1))
        λ (i2, cc) g2. Halts-ok (Within i) _ ((omega (arith, g.0, g2.0), g2.1))

country11-Within :
    (event : ℕ) (resp : Array) (i : ℕ) (pd : PollData6)
    → i ≤ 254
    → Halts (Within i) (country11 event resp i pd)
unfolding country11
country11-Within event resp i pd h = Halts-require _ (ltb pd.event_count 20) _ λ _.
    Halts-bind (Within i) _ (add_data 4 resp i 0) _ (add_data-Within 4 resp i 0 h) λ (i1, data1) g.
      Halts-bind (Within i1) _ (add_data 4 resp i1 0) _ (add_data-Within 4 resp i1 0 (g.1))
        λ (i2, data2) g2.
          Halts-bind (Within i2) _ (add_cc 3 0 resp i2 (update (pd.events pd.event_count).cc 3 0)) _
            (add_cc-Within 3 0 resp i2 (update (pd.events pd.event_count).cc 3 0) (g2.1))
            λ (i3, cc) g3. Halts-ok (Within i) _ ((omega (arith, g.0, g2.0, g3.0), g3.1))

countries_loop-Within :
    (country : ℕ → PollData6 → Run (ℕ × PollData6))
    → ((i : ℕ) (pd : PollData6) → i ≤ 254 → Halts (Within i) (country i pd))
    → (left i : ℕ) (pd : PollData6) → i ≤ 254
    → Halts (Within i) (countries_loop country left i pd)
unfolding countries_loop
countries_loop-Within country each zero i pd h = Halts-ok (Within i) _ ((omega arith, h))
countries_loop-Within country each (suc left) i pd h =
    Halts-bind (Within i) _ (country i pd) _ (each i pd h) λ (i1, pd1) g.
      Halts-weaken (Within i1) _ _ (countries_loop-Within country each left i1 _ (g.1))
        λ r k. (omega (arith, g.0, k.0), k.1)

event_case-Within :
    (kind : EventKind) (code : ℕ) (resp : Array) (i : ℕ) (pd : PollData6)
    → i ≤ 254
    → Halts (Within i) (event_case kind code resp i pd)
unfolding event_case
event_case-Within one_byte code resp i pd h =
    Halts-read _ 255 resp (i + 1) _ λ inside. Halts-ok (Within i) _ (omega arith, omega arith)
event_case-Within per_country code resp i pd h = Halts-read _ 255 resp (i + 1) _ λ inside.
    Halts-weaken (Within (i + 1)) _ _
      (countries_loop-Within (country7 code resp) (country7-Within code resp) (resp (i + 1)) (i + 1)
        pd (omega arith))
      λ r g. (omega (arith, g.0), g.1)
event_case-Within per_country_twice code resp i pd h = Halts-read _ 255 resp (i + 1) _ λ inside.
    Halts-weaken (Within (i + 1)) _ _
      (countries_loop-Within (country11 code resp) (country11-Within code resp) (resp (i + 1))
        (i + 1) pd (omega arith))
      λ r g. (omega (arith, g.0), g.1)
event_case-Within no_data code resp i pd h = Halts-ok (Within i) _ (omega arith, h)

poll_event-Within :
    (resp : Array) (i : ℕ) (pd : PollData6) → Halts (Within i) (poll_event resp i pd)
unfolding poll_event
poll_event-Within resp i pd = Halts-read _ 255 resp i _ λ inside.
    Halts-require _ (ltb pd.event_count 20) _ λ _.
      Halts-bind (Within i) _ (event_case (event_kind (resp i)) (resp i) resp i _) _
        (event_case-Within (event_kind (resp i)) (resp i) resp i _ (omega arith))
        λ r g. Halts-ok (Within i) _ ((g.0, g.1))

poll_loop-ends :
    (fuel len : ℕ) (resp : Array) (i : ℕ) (pd : PollData6)
    → 256 ≤ fuel + i
    → i ≤ 255
    → Halts (λ _. Unit) (poll_loop fuel len resp i pd)
unfolding poll_loop
poll_loop-ends zero len resp i pd enough inside = absurd (omega arith)
poll_loop-ends (suc fuel) len resp i pd enough inside = elim (Bool-cases (ltb i len)) [
  | inl e ↦ rw e (
      Halts-bind (Within i) _ (poll_event resp i pd) _ (poll_event-Within resp i pd) λ (i1, pd1) g.
        poll_loop-ends fuel len resp (i1 + 1) pd1 (omega (arith, g.0)) (omega (arith, g.1)))
  | inr e ↦ rw e (Halts-ok _ _ tt)
]

-- Whatever the reply and its length, the parser of a poll ends, with a list of events or with an
-- access outside an array or an undefined shift: its fuel does not run out.
pub parse_poll-ends : (len : ℕ) (resp : Array) (pd : PollData6) → parse_poll len resp pd ≢ waiting
unfolding parse_poll
parse_poll-ends len resp pd e =
    ends (poll_loop 255 len resp 1 (record pd { event_count = 0 })) e
      (poll_loop-ends 255 len resp 1 (record pd { event_count = 0 }) (omega arith) (omega arith))
  where
    ends : (r : Run PollData6) → r ≡ waiting → Halts (λ _. Unit) r → ⊥
    ends r same h = unfold Halts in subst (Halts (λ _. Unit)) same h
