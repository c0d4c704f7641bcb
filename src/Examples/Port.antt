-- ===== src/Examples/Port.antt =====
-- The write loop of _eSSP/lib/serialfunc.c on calls that take a part of the bytes.
use e_ssp.Base.{
  leb, if◌then◌else◌, ◌/◌, ◌%◌, ◌^◌, ℕ, ◌==◌, ◌||◌, none, some, List, [], ◌∷◌, true, false, All, ok,
  ◌≡◌, refl, arith,
}
use e_ssp.Defs.{Command}
use e_ssp.Port.{WriteCall, wait_transmit, write_data, set_baud, ssp_init}
use e_ssp.Port.Options.{Word, SpeedCalls, at_9600, TermiosFlags, Termios, OpenPort, open_port}
use e_ssp.Port.Framing.{IsTermios, IsSpeedCalls, IsFramed, change_bauds, open_port-IsFramed}
use e_ssp.Port.Reading.{read_loop, read_loop-receive}
use e_ssp.Packet.{receive}
use e_ssp.Examples.{idle}
use e_ssp.Port.Writing.{Takes, write_data-sent}

abbrev parts : List WriteCall
parts =
    record { queue = 7 ∷ 0 ∷ []; room = some 2 }
    ∷ record { queue = 0 ∷ []; room = some 1 }
    ∷ record { queue = 2 ∷ 1 ∷ 0 ∷ []; room = some 9 }
    ∷ []

parts-Takes : All Takes parts
unfolding wait_transmit
parts-Takes = (
  record { drained = refl; room = 2; found = refl; some_room = omega arith },
  (
    record { drained = refl; room = 1; found = refl; some_room = omega arith },
    (record { drained = refl; room = 9; found = refl; some_room = omega arith }, tt),
  ),
)

write_data-sent_example :
    write_data parts (0x7F ∷ 0x80 ∷ 0x01 ∷ [])
    ≡ ok (record { success = true; sent = 0x7F ∷ 0x80 ∷ 0x01 ∷ [] })
write_data-sent_example = write_data-sent parts (0x7F ∷ 0x80 ∷ 0x01 ∷ []) parts-Takes (omega arith)

failed :
    write_data
      (record { queue = 0 ∷ []; room = some 2 } ∷ record { queue = 0 ∷ []; room = none } ∷ [])
      (0x7F ∷ 0x80 ∷ 0x01 ∷ [])
    ≡ ok (record { success = false; sent = 0x7F ∷ 0x80 ∷ [] })
unfolding write_data
failed = refl

baud_kept : set_baud 300 ≡ none
baud_kept = refl

port_error : (c : Command) → ssp_init none 16 c ≡ none
port_error c = refl

-- The flags of termios.h, by the numbers of their bits.
abbrev bit : ℕ → Word
bit n = λ i. i == n

abbrev linux_flags : TermiosFlags
linux_flags = record {
  parenb = bit 8;
  cstopb = bit 6;
  csize = λ i. i == 4 || i == 5;
  cs8 = λ i. i == 4 || i == 5;
  crtscts = bit 31;
  clocal = bit 11;
  cread = bit 7;
  icanon = bit 1;
  echo = bit 3;
  echoe = bit 4;
  isig = bit 0;
  opost = bit 0;
  ixon = bit 10;
  ixoff = bit 12;
  ixany = bit 11;
  cbaud = λ i. leb i 3 || i == 12;
}

linux_flags-IsTermios : IsTermios linux_flags
linux_flags-IsTermios = record {
  character = λ i h. h;
  parity_stop = λ i h. ground arith;
  parity_size = λ i h. ground arith;
  parity_local = λ i h. ground arith;
  parity_read = λ i h. ground arith;
  stop_size = λ i h. ground arith;
  stop_flow = λ i h. ground arith;
  size_flow = λ i h. ground arith;
  size_local = λ i h. ground arith;
  size_read = λ i h. ground arith;
  flow_local = λ i h. ground arith;
  flow_read = λ i h. ground arith;
  parity_speed = λ i h. ground arith;
  stop_speed = λ i h. ground arith;
  size_speed = λ i h. ground arith;
  flow_speed = λ i h. ground arith;
  local_speed = λ i h. ground arith;
  read_speed = λ i h. ground arith;
}

-- The calls of a system that keeps one speed, in the control flags: `B9600` is 13, `B38400` is 15.
abbrev with_speed : ℕ → Termios → Termios
with_speed rate o = record o {
  c_cflag = λ i.
      if linux_flags.cbaud i
      then (if rate == 9600 then 13 else 15) / 2 ^ i % 2 == 1
      else o.c_cflag i;
}

unfoldable linux_calls : SpeedCalls
linux_calls = record {
  cfsetispeed = λ rate o. record (with_speed rate o) { c_ispeed = rate };
  cfsetospeed = λ rate o. record (with_speed rate o) { c_ospeed = rate };
}

linux_calls-IsSpeedCalls : IsSpeedCalls linux_flags linux_calls
unfolding linux_calls
linux_calls-IsSpeedCalls = record {
  input_speed = λ rate o. record {
    input = λ i. refl;
    output = λ i. refl;
    lines = λ i. refl;
    control = λ i h. ground arith;
  };
  output_speed = λ rate o. record {
    input = λ i. refl;
    output = λ i. refl;
    lines = λ i. refl;
    control = λ i h. ground arith;
  };
}

-- A terminal with parity and echo.
abbrev terminal : OpenPort
terminal = record {
  options = record {
    c_iflag = bit 10;
    c_oflag = bit 0;
    c_cflag = bit 8;
    c_lflag = bit 3;
    c_ispeed = 300;
    c_ospeed = 300;
  };
  status = 0;
}

open_port-IsFramed_example :
    (opened : OpenPort) × (open_port linux_flags linux_calls 2048 (some terminal) ≡ some opened)
    × (opened.options.c_ispeed ≡ 9600)
    × (opened.options.c_ospeed ≡ 9600)
    × ((i : ℕ)
        → linux_flags.cbaud i ≡ true
        → opened.options.c_cflag i ≡ (at_9600 linux_flags linux_calls terminal.options).c_cflag i)
    × IsFramed linux_flags terminal.options
        (change_bauds linux_calls (38400 ∷ 9600 ∷ []) opened).options
unfolding linux_calls
open_port-IsFramed_example =
    open_port-IsFramed linux_flags linux_calls linux_flags-IsTermios linux_calls-IsSpeedCalls 2048
      terminal (38400 ∷ 9600 ∷ [])

two_read : read_loop 3 0 (0x7F ∷ 0 ∷ []) idle ≡ receive (0x7F ∷ 0 ∷ []) idle
two_read = read_loop-receive (0x7F ∷ 0 ∷ []) 3 0 idle (omega arith)
