-- ===== src/Host.antt =====
-- The globals of _eSSP/lib/ITLSSPProc.c, and what the library takes from its surroundings: the C
-- library's `rand`, and the serial port with the clock as a script of what happens.
use e_ssp.Base.{ℕ, Array, List, Bool}

-- `encPktCount`, `sspSeq`, and the numbers of calls of `rand` and of `GetSeed` so far.
pub record Globals : Type 0 where
  pub enc_pkt_count : Array
  pub ssp_seq : Array
  pub rand_calls : ℕ
  pub seed_calls : ℕ

-- One round of the loop that waits for a reply: the milliseconds since the transmission, and the
-- bytes that are then in the port's buffer.
pub record Poll : Type 0 where
  pub elapsed : ℕ
  pub arrived : List ℕ

-- One transmission: whether the write succeeds, and the rounds of waiting after it.
pub record Attempt : Type 0 where
  pub written : Bool
  pub polls : List Poll

-- The state of the host: its globals, the script of the port, and all that was written so far,
-- the latest first.
pub record World : Type 0 where
  pub globals : Globals
  pub script : List Attempt
  pub sent : List (List ℕ)
