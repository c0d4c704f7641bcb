-- ===== src/Port.antt =====
-- The writing side of _eSSP/lib/serialfunc.c, and the opening of it by _eSSP/linux.c and
-- _eSSP/init.c. The calls of the operating system are parameters: what they return is given.
pub mod Writing
pub mod Options
pub mod Framing
pub mod Reading
use e_ssp.Base.{
  ℕ, zero, suc, ◌+◌, ◌-◌, leb, ◌==◌, u8, Bool, true, false, not, if◌then◌else◌, Option, none, some,
  List, [], ◌∷◌, ◌++◌, length, take, drop, Run, ok, waiting, ◌>>◌,
}
use e_ssp.Defs.{Command, FullKey}

-- One call of `write`: what the queue of the port holds at each look before it, and the room that
-- the call finds, none where it fails.
pub record WriteCall : Type 0 where
  pub queue : List ℕ
  pub room : Option ℕ

pub record Written : Type 0 where
  pub success : Bool
  pub sent : List ℕ

-- `bytes` is what `ioctl(port,TIOCOUTQ,&bytes)` stores.
abbrev pub transmit_complete : ℕ → Bool
transmit_complete bytes = bytes == 0

-- The loop `while (TransmitComplete(port) == 0)`.
unfoldable pub wait_transmit : List ℕ → Run (Unit {0})
wait_transmit [] = waiting
wait_transmit (bytes ∷ queue) = if transmit_complete bytes then ok tt else wait_transmit queue

-- `write` takes as many of the bytes as there is room for.
abbrev pub taken : ℕ → ℕ → ℕ
taken room asked = if leb room asked then room else asked

-- The loop `while (bytes_left > 0)`, along the calls of `write`; `sent` is what they took so far.
unfoldable pub write_loop : List WriteCall → List ℕ → ℕ → ℕ → List ℕ → Run Written
unfolding wait_transmit
write_loop calls bytes offset zero sent = ok (record { success = true; sent = sent })
write_loop [] bytes offset (suc left) sent = waiting
write_loop (c ∷ calls) bytes offset (suc left) sent = wait_transmit c.queue >> elim c.room [
  | none ↦ ok (record { success = false; sent = sent })
  | some room ↦
      let n = taken room (suc left) in
      write_loop calls bytes (offset + n) (suc left - n) (sent ++ take n (drop offset bytes))
]

unfoldable pub write_data : List WriteCall → List ℕ → Run Written
unfolding write_loop
write_data calls bytes = write_loop calls bytes 0 (length bytes) []

-- The rate that `cfsetispeed` is called with between the calls that get and set the options, none
-- for a rate that is not in the switch.
abbrev pub set_baud : ℕ → Option ℕ
set_baud baud =
    if baud == 9600
    then some 9600
    else if baud == 19200
    then some 19200
    else if baud == 38400
    then some 38400
    else if baud == 57600
    then some 57600
    else if baud == 115200
    then some 115200
    else none

-- What `open` returned, none for -1. The port itself is in Port.Options.
abbrev pub open_ssp_port : Option ℕ → Bool
open_ssp_port handle = elim handle [ none ↦ false | some h ↦ true ]

-- `sspc` is the memory from `malloc`, `addr` the number that `strtod` reads, as an `int` that is not
-- negative. `BaudRate`, which is read nowhere, is left out, and so are the debug lines.
abbrev pub ssp_init : Option ℕ → ℕ → Command → Option Command
ssp_init handle addr sspc =
    if open_ssp_port handle
    then some (record sspc {
      ssp_address = u8 addr;
      timeout = 1000;
      encryption_status = false;
      retry_level = 3;
      key = record (sspc.key) { encrypt_key = 1 };
    })
    else none
