-- ===== src/Port/Framing.antt =====
-- How an opened port frames the bytes on the line.
use e_ssp.Base.{◌∙◌, ℕ, true, false, Option, none, some, List, [], ◌∷◌, ◌≡◌, refl, arith}
use e_ssp.Port.{set_baud}
use e_ssp.Port.Options.{
  Word, SpeedCalls, at_9600, TermiosFlags, Termios, OpenPort, raw_options, setup_ssp_port,
  open_port, with_rate, change_baud,
}

-- No bit is in both.
abbrev pub Apart : Word → Word → Type 0
Apart a b = (i : ℕ) → a i ≡ true → b i ≡ false

Apart-swap : (a b : Word) → Apart a b → Apart b a
Apart-swap a b h i e = ground (arith, h i)

-- What termios.h documents of the control flags: `CS8` is a value of the field `CSIZE`, and the
-- flags, that field and the bits of the speeds have no bits in common.
pub record IsTermios (flags : TermiosFlags) : Type 0 where
  pub character : (i : ℕ) → flags.csize i ≡ false → flags.cs8 i ≡ false
  pub parity_stop : Apart flags.parenb flags.cstopb
  pub parity_size : Apart flags.parenb flags.csize
  pub parity_local : Apart flags.parenb flags.clocal
  pub parity_read : Apart flags.parenb flags.cread
  pub stop_size : Apart flags.cstopb flags.csize
  pub stop_flow : Apart flags.cstopb flags.crtscts
  pub size_flow : Apart flags.csize flags.crtscts
  pub size_local : Apart flags.csize flags.clocal
  pub size_read : Apart flags.csize flags.cread
  pub flow_local : Apart flags.crtscts flags.clocal
  pub flow_read : Apart flags.crtscts flags.cread
  pub parity_speed : Apart flags.parenb flags.cbaud
  pub stop_speed : Apart flags.cstopb flags.cbaud
  pub size_speed : Apart flags.csize flags.cbaud
  pub flow_speed : Apart flags.crtscts flags.cbaud
  pub local_speed : Apart flags.clocal flags.cbaud
  pub read_speed : Apart flags.cread flags.cbaud

-- Options that differ in the speeds alone.
pub record Respeeds (flags : TermiosFlags) (old new : Termios) : Type 0 where
  pub input : (i : ℕ) → new.c_iflag i ≡ old.c_iflag i
  pub output : (i : ℕ) → new.c_oflag i ≡ old.c_oflag i
  pub lines : (i : ℕ) → new.c_lflag i ≡ old.c_lflag i
  pub control : (i : ℕ) → flags.cbaud i ≡ false → new.c_cflag i ≡ old.c_cflag i

-- What termios.h documents of the calls: they change the speeds, wherever those are kept.
pub record IsSpeedCalls (flags : TermiosFlags) (calls : SpeedCalls) : Type 0 where
  pub input_speed : (rate : ℕ) (o : Termios) → Respeeds flags o (calls.cfsetispeed rate o)
  pub output_speed : (rate : ℕ) (o : Termios) → Respeeds flags o (calls.cfsetospeed rate o)

-- Raw bytes of eight bits with two stop bits, no parity and no flow control; the other
-- control flags, but for the bits of the speeds, are as they were.
pub record IsFramed (flags : TermiosFlags) (old new : Termios) : Type 0 where
  pub no_parity : (i : ℕ) → flags.parenb i ≡ true → new.c_cflag i ≡ false
  pub two_stops : (i : ℕ) → flags.cstopb i ≡ true → new.c_cflag i ≡ true
  pub eight_bits : (i : ℕ) → flags.csize i ≡ true → new.c_cflag i ≡ flags.cs8 i
  pub no_flow : (i : ℕ) → flags.crtscts i ≡ true → new.c_cflag i ≡ false
  pub unmodemed : (i : ℕ) → flags.clocal i ≡ true → new.c_cflag i ≡ true
  pub receiving : (i : ℕ) → flags.cread i ≡ true → new.c_cflag i ≡ true
  pub other_control :
      (i : ℕ)
      → flags.parenb i ≡ false
      → flags.cstopb i ≡ false
      → flags.csize i ≡ false
      → flags.crtscts i ≡ false
      → flags.clocal i ≡ false
      → flags.cread i ≡ false
      → flags.cbaud i ≡ false
      → new.c_cflag i ≡ old.c_cflag i
  pub no_input : (i : ℕ) → new.c_iflag i ≡ false
  pub raw_lines : (i : ℕ) → flags.icanon i ≡ true → new.c_lflag i ≡ false
  pub no_echo : (i : ℕ) → flags.echo i ≡ true → new.c_lflag i ≡ false
  pub no_signals : (i : ℕ) → flags.isig i ≡ true → new.c_lflag i ≡ false
  pub raw_output : (i : ℕ) → flags.opost i ≡ true → new.c_oflag i ≡ false

-- `SetBaud` with each of these rates, one after the other.
abbrev pub change_bauds : SpeedCalls → List ℕ → OpenPort → OpenPort
change_bauds calls [] port = port
change_bauds calls (baud ∷ bauds) port = change_bauds calls bauds (change_baud calls baud port)

module _ (flags : TermiosFlags) (calls : SpeedCalls) (is : IsTermios flags)
    (speeds : IsSpeedCalls flags calls) where
  raw_options-IsFramed : (o : Termios) → IsFramed flags o (raw_options flags calls o)
  unfolding raw_options
  raw_options-IsFramed o =
      let first = speeds.input_speed 9600 o in
      let second = speeds.output_speed 9600 (calls.cfsetispeed 9600 o) in
      record {
        no_parity = λ i h. ground (
          arith,
          is.character i (is.parity_size i h),
          is.parity_stop i h,
          is.parity_local i h,
          is.parity_read i h,
        );
        two_stops = λ i h. ground (arith, is.stop_size i h, is.stop_flow i h);
        eight_bits = λ i h. ground (arith, is.size_flow i h, is.size_local i h, is.size_read i h);
        no_flow = λ i h. ground (arith, is.flow_local i h, is.flow_read i h);
        unmodemed = λ i h. ground arith;
        receiving = λ i h. ground arith;
        other_control = λ i a b c d e f g.
            ground (arith, is.character i c, second.control i g, first.control i g);
        no_input = λ i. ground arith;
        raw_lines = λ i h. ground arith;
        no_echo = λ i h. ground arith;
        no_signals = λ i h. ground arith;
        raw_output = λ i h. ground arith;
      }

  -- The bits of the speeds are those of the two calls.
  raw_options-speed :
      (o : Termios) (i : ℕ)
      → flags.cbaud i ≡ true
      → (raw_options flags calls o).c_cflag i ≡ (at_9600 flags calls o).c_cflag i
  unfolding raw_options
  raw_options-speed o i h =
      let size = Apart-swap flags.csize flags.cbaud is.size_speed i h in
      ground (
        arith,
        Apart-swap flags.parenb flags.cbaud is.parity_speed i h,
        Apart-swap flags.cstopb flags.cbaud is.stop_speed i h,
        size,
        is.character i size,
        Apart-swap flags.crtscts flags.cbaud is.flow_speed i h,
        Apart-swap flags.clocal flags.cbaud is.local_speed i h,
        Apart-swap flags.cread flags.cbaud is.read_speed i h,
      )

  Respeeds-IsFramed :
      (o old new : Termios) → Respeeds flags old new → IsFramed flags o old → IsFramed flags o new
  Respeeds-IsFramed o old new r f = record {
    no_parity = λ i h. r.control i (is.parity_speed i h) ∙ f.no_parity i h;
    two_stops = λ i h. r.control i (is.stop_speed i h) ∙ f.two_stops i h;
    eight_bits = λ i h. r.control i (is.size_speed i h) ∙ f.eight_bits i h;
    no_flow = λ i h. r.control i (is.flow_speed i h) ∙ f.no_flow i h;
    unmodemed = λ i h. r.control i (is.local_speed i h) ∙ f.unmodemed i h;
    receiving = λ i h. r.control i (is.read_speed i h) ∙ f.receiving i h;
    other_control = λ i a b c d e g h. r.control i h ∙ f.other_control i a b c d e g h;
    no_input = λ i. r.input i ∙ f.no_input i;
    raw_lines = λ i h. r.lines i ∙ f.raw_lines i h;
    no_echo = λ i h. r.lines i ∙ f.no_echo i h;
    no_signals = λ i h. r.lines i ∙ f.no_signals i h;
    raw_output = λ i h. r.output i ∙ f.raw_output i h;
  }

  with_rate-IsFramed :
      (o : Termios) (rate : Option ℕ) (port : OpenPort)
      → IsFramed flags o port.options
      → IsFramed flags o (with_rate calls rate port).options
  with_rate-IsFramed o none port f = f
  with_rate-IsFramed o (some rate) port f =
      Respeeds-IsFramed o port.options _ (speeds.input_speed rate port.options) f

  change_bauds-IsFramed :
      (o : Termios) (bauds : List ℕ) (port : OpenPort)
      → IsFramed flags o port.options
      → IsFramed flags o (change_bauds calls bauds port).options
  change_bauds-IsFramed o [] port f = f
  change_bauds-IsFramed o (baud ∷ bauds) port f =
      change_bauds-IsFramed o bauds (change_baud calls baud port)
        (with_rate-IsFramed o (set_baud baud) port f)

  -- Where `open` returns a port, and the flags and the calls that set the speeds are as termios.h
  -- documents them, `OpenSSPPort` returns that port. Its speeds, and the bits of the control flags
  -- where the system keeps them, are those that the two calls with 9600 baud leave. Then and
  -- after any calls of `SetBaud` it has raw bytes of eight bits with two stop bits, without
  -- parity, flow control, echo and signals, and the other control flags, but for the bits of the
  -- speeds, are as `open` left them.
  pub open_port-IsFramed :
      (fndelay : ℕ) (port : OpenPort) (bauds : List ℕ)
      → (opened : OpenPort) × (open_port flags calls fndelay (some port) ≡ some opened)
        × (opened.options.c_ispeed ≡ (at_9600 flags calls port.options).c_ispeed)
        × (opened.options.c_ospeed ≡ (at_9600 flags calls port.options).c_ospeed)
        × ((i : ℕ)
            → flags.cbaud i ≡ true
            → opened.options.c_cflag i ≡ (at_9600 flags calls port.options).c_cflag i)
        × IsFramed flags port.options (change_bauds calls bauds opened).options
  unfolding raw_options
  open_port-IsFramed fndelay port bauds = (
    setup_ssp_port flags calls fndelay (record port { status = 1 }),
    refl,
    refl,
    refl,
    raw_options-speed port.options,
    change_bauds-IsFramed port.options bauds _ (raw_options-IsFramed port.options),
  )
