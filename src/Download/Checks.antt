-- ===== src/Download/Checks.antt =====
-- What the checks before and during a download guarantee, and what they let pass.
use e_ssp.Base.{
  ℕ, ◌+◌, ◌*◌, ◌/◌, ◌%◌, ◌≤◌, ◌<◌, ltb, ◌==◌, ◌||◌, Bool, true, false, List, [], ◌∷◌, Run, ok, ◌≡◌,
  refl, Bool-cases, inl, inr, ==_iff, if◌then◌else◌, arith,
}
use native.Mathlib.Nat.{mod-add-div', mod-lt, add-mul}
use e_ssp.Host.{Poll}
use e_ssp.Download.File.{block_count}
use e_ssp.Download.Port.{Device, wait_byte, read_single_byte_reply, send_download_command}

-- The number of blocks is the least with which the bytes are covered.
pub block_count-covers :
    (bytes size : ℕ)
    → 0 < size
    → (bytes ≤ block_count bytes size * size) × (block_count bytes size * size < bytes + size)
unfolding block_count
block_count-covers bytes size h =
    let whole = mod-add-div' bytes size in
    let rest = mod-lt bytes h in
    let more = add-mul (bytes / size) 1 size in
    elim (Bool-cases (bytes % size == 0)) [
      | inl e ↦
          let exact = (==_iff (bytes % size) 0).0 e in
          rw e (omega (arith, whole, exact), omega (arith, whole, exact))
      | inr e ↦
          let left : 0 < bytes % size = ground arith in
          rw e (omega (arith, whole, rest, more), omega (arith, whole, left, more))
    ]

-- Rounds without a byte, up to one after the timeout of 500 ms.
unfoldable pub silent : List Poll → Bool
silent [] = false
silent (p ∷ ps) = elim (p.arrived) as (λ bs. Bool) [
  | [] ↦ ltb 500 p.elapsed || silent ps
  | b ∷ bs ↦ false
]

module _ (ps : List Poll) (rest : silent ps ≡ true → wait_byte 500 ps ≡ ok 0xFFFF) where
  after_timeout :
      (b : Bool) → (b || silent ps) ≡ true → (if b then ok 0xFFFF else wait_byte 500 ps) ≡ ok 0xFFFF
  after_timeout true e = refl
  after_timeout false e = rest e

  silent_round :
      (arrived : List ℕ) (elapsed : ℕ)
      → (elim arrived as (λ bs. Bool) [ [] ↦ ltb 500 elapsed || silent ps | b ∷ bs ↦ false ]) ≡ true
      → (elim arrived as (λ bs. Run ℕ) [
        | [] ↦ if ltb 500 elapsed then ok 0xFFFF else wait_byte 500 ps
        | b ∷ bs ↦ ok b
      ])
        ≡ ok 0xFFFF
  silent_round [] elapsed e = after_timeout (ltb 500 elapsed) e
  silent_round (b ∷ bs) elapsed e = absurd (ground arith)

wait_byte-silent : (ps : List Poll) → silent ps ≡ true → wait_byte 500 ps ≡ ok 0xFFFF
unfolding silent wait_byte
wait_byte-silent [] e = absurd (ground arith)
wait_byte-silent (p ∷ ps) e = silent_round ps (wait_byte-silent ps) p.arrived p.elapsed e

-- A unit that does not reply within the timeout passes for one that replies with 0xFF: the
-- command fails for every other expected reply.
pub send_download_command-silent :
    {W : Type 0} (device : Device W) (bytes : List ℕ) (expected : ℕ) (w : W)
    → silent (device.polls (device.write_data bytes (device.drain w))).polls ≡ true
    → send_download_command device bytes expected w
      ≡ ok (record {
        result = 255 == expected;
        world = (device.polls (device.write_data bytes (device.drain w))).world;
      })
unfolding send_download_command read_single_byte_reply
send_download_command-silent device bytes expected w h = rw (wait_byte-silent _ h) refl
