-- ===== src/Port/Reading.antt =====
-- The loop of `SSPSendCommand` that reads the serial port, on `BytesInBuffer` and `ReadData` of
-- _eSSP/lib/serialfunc.c: the wait for a reply takes the bytes of a round by `receive`.
use e_ssp.Base.{
  ℕ, zero, suc, ◌≤◌, ltb, lt→ltb, if◌then◌else◌, List, [], ◌∷◌, length, take, drop, Run, ok,
  waiting, ◌>>=◌, ◌≡◌, refl, ap, arith,
}
use e_ssp.Defs.{Packet}
use e_ssp.Packet.{ssp_data_in, receive}

-- What `ioctl(port, FIONREAD, &bytes)` stores, for the bytes that wait at the port.
abbrev pub bytes_in_buffer : List ℕ → ℕ
bytes_in_buffer queue = length queue

-- What `read` puts into the buffer, and what waits after it.
abbrev pub read_data : List ℕ → ℕ → List ℕ × List ℕ
read_data queue bytes_to_read = (take bytes_to_read queue, drop bytes_to_read queue)

-- `buffer` after a read: a read that finds nothing leaves it as it was.
abbrev pub filled : ℕ → List ℕ → ℕ
filled buffer [] = buffer
filled buffer (b ∷ bs) = b

-- The loop `while (BytesInBuffer(port) > 0)`, on fuel: the rounds that are looked at.
unfoldable pub read_loop : ℕ → ℕ → List ℕ → Packet → Run Packet
read_loop zero buffer queue ss = waiting
read_loop (suc fuel) buffer queue ss =
    if ltb 0 (bytes_in_buffer queue)
    then (do
      let (got, queue) = read_data queue 1
      let buffer = filled buffer got
      ss ← ssp_data_in buffer ss
      read_loop fuel buffer queue ss)
    else ok ss

-- When fuel exceeds the number of bytes that wait, the loop ends, and the receiver has taken them
-- all, one by one and in order.
pub read_loop-receive :
    (queue : List ℕ) (fuel buffer : ℕ) (ss : Packet)
    → suc (length queue) ≤ fuel
    → read_loop fuel buffer queue ss ≡ receive queue ss
unfolding read_loop receive
read_loop-receive queue zero buffer ss h = absurd (omega arith)
read_loop-receive [] (suc fuel) buffer ss h = refl
read_loop-receive (b ∷ queue) (suc fuel) buffer ss h =
    rw (lt→ltb 0 (suc (length queue)) (omega arith)) (
      ap (λ (k : Packet → Run Packet). ssp_data_in b ss >>= k)
        (λ i t. read_loop-receive queue fuel b t (omega arith) i))
