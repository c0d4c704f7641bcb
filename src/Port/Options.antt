-- ===== src/Port/Options.antt =====
-- The options of the serial port: `SetupSSPPort`, `SetBaud` and `OpenSSPPort` of
-- _eSSP/lib/serialfunc.c. The flags of termios.h are parameters, a flag being the set of its bits.
use e_ssp.Base.{ℕ, ◌==◌, if◌then◌else◌, Bool, false, not, ◌&&◌, ◌||◌, Option, none, some}
use e_ssp.Port.{set_baud}

-- A word of flags, bit by bit.
abbrev pub Word : Type 0
Word = ℕ → Bool

-- `a | b`, and `a & ~b`.
abbrev pub with_flags : Word → Word → Word
with_flags a b = λ i. a i || b i

abbrev pub without : Word → Word → Word
without a b = λ i. a i && not (b i)

-- The flags of termios.h that the code names, and `CBAUD`, the bits of `c_cflag` where a system may
-- keep the speeds.
pub record TermiosFlags : Type 0 where
  pub parenb : Word
  pub cstopb : Word
  pub csize : Word
  pub cs8 : Word
  pub crtscts : Word
  pub clocal : Word
  pub cread : Word
  pub icanon : Word
  pub echo : Word
  pub echoe : Word
  pub isig : Word
  pub opost : Word
  pub ixon : Word
  pub ixoff : Word
  pub ixany : Word
  pub cbaud : Word

-- `struct termios`.
pub record Termios : Type 0 where
  pub c_iflag : Word
  pub c_oflag : Word
  pub c_cflag : Word
  pub c_lflag : Word
  pub c_ispeed : ℕ
  pub c_ospeed : ℕ

-- `cfsetispeed` and `cfsetospeed`, which are the system's: the options after a call.
pub record SpeedCalls : Type 0 where
  pub cfsetispeed : ℕ → Termios → Termios
  pub cfsetospeed : ℕ → Termios → Termios

-- An open port: its options, and the argument of the last `fcntl(port, F_SETFL, …)`.
pub record OpenPort : Type 0 where
  pub options : Termios
  pub status : ℕ

module _ (flags : TermiosFlags) (calls : SpeedCalls) where
  -- The two speeds at 9600 baud.
  abbrev pub at_9600 : Termios → Termios
  at_9600 o = calls.cfsetospeed 9600 (calls.cfsetispeed 9600 o)

  -- What happens to `options` between `tcgetattr` and `tcsetattr`.
  unfoldable pub raw_options : Termios → Termios
  raw_options o =
      let o = at_9600 o in
      let cflag = without o.c_cflag flags.parenb in
      let cflag = with_flags cflag flags.cstopb in
      let cflag = without cflag flags.csize in
      let cflag = with_flags cflag flags.cs8 in
      let local_modes =
        with_flags (with_flags (with_flags flags.icanon flags.echo) flags.echoe) flags.isig in
      let flow = with_flags (with_flags flags.ixon flags.ixoff) flags.ixany in
      record o {
        c_iflag = without (λ i. false) flow;
        c_oflag = without o.c_oflag flags.opost;
        c_cflag = with_flags (without cflag flags.crtscts) (with_flags flags.clocal flags.cread);
        c_lflag = without o.c_lflag local_modes;
      }

  -- `fndelay` is the flag `FNDELAY`.
  abbrev pub setup_ssp_port : ℕ → OpenPort → OpenPort
  setup_ssp_port fndelay port = record { options = raw_options port.options; status = fndelay }

  -- What `open` returned, none for -1, and the port that is returned.
  abbrev pub open_port : ℕ → Option OpenPort → Option OpenPort
  open_port fndelay none = none
  open_port fndelay (some port) = some (setup_ssp_port fndelay (record port { status = 1 }))

-- `CloseSSPPort` on the table of the open ports, none being the handle -1.
abbrev pub close_port : Option ℕ → (ℕ → Option OpenPort) → ℕ → Option OpenPort
close_port none ports = ports
close_port (some handle) ports = λ i. if i == handle then none else ports i

-- `SetBaud` on the options of the port, where the switch has found a rate and where it has not.
module _ (calls : SpeedCalls) where
  abbrev pub with_rate : Option ℕ → OpenPort → OpenPort
  with_rate none port = port
  with_rate (some rate) port = record port { options = calls.cfsetispeed rate port.options }

  abbrev pub change_baud : ℕ → OpenPort → OpenPort
  change_baud baud = with_rate (set_baud baud)
