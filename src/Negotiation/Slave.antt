-- ===== src/Negotiation/Slave.antt =====
-- The unit at the other end of the negotiation, as the protocol describes it, and numbers in bytes.
use e_ssp.Base.{
  ℕ, zero, suc, ◌+◌, ◌*◌, ◌/◌, ◌%◌, ◌^◌, ◌<◌, ◌==◌, true, if◌then◌else◌, List, [], ◌∷◌, length,
  drop, Array, slice, fill, slice-fill, ok, ◌≡◌, refl, ap, ◌∙◌, arith,
}
use native.Mathlib.Nat.{pow-suc}
use e_ssp.Defs.{Command}
use e_ssp.Host.{Globals}
use e_ssp.Cipher.{le_bytes}
use e_ssp.Packet.Compile.{payload}
use e_ssp.Negotiation.Session.{Exchange, le_sum}

-- The number of some bytes, lowest first.
unfoldable pub number : List ℕ → ℕ
number [] = 0
number (b ∷ bs) = b + 256 * number bs

pub number-le_bytes : (n v : ℕ) → v < 256 ^ n → number (le_bytes n v) ≡ v
unfolding number le_bytes
number-le_bytes zero v h = omega arith
number-le_bytes (suc n) v h =
    omega (arith, number-le_bytes n (v / 256) (omega (arith, pow-suc 256 n)))

le_sum-slice : (a : Array) (i n : ℕ) → le_sum a i n ≡ number (slice a i n)
unfolding le_sum number
le_sum-slice a i zero = refl
le_sum-slice a i (suc n) = ap (λ t. a i + 256 * t) (le_sum-slice a (suc i) n)

-- What the host reads behind the status of a reply.
pub le_sum-fill :
    (a : Array) (status : ℕ) (bs : List ℕ)
    → le_sum (fill a 0 (status ∷ bs)) 1 (length bs) ≡ number bs
le_sum-fill a status bs =
    le_sum-slice (fill a 0 (status ∷ bs)) 1 (length bs)
    ∙ ap (λ xs. number (drop 1 xs)) (slice-fill a 0 (status ∷ bs))

-- The unit: the numbers that the host has set, its own secret number, and the key that it derives.
pub record Slave : Type 0 where
  pub generator : ℕ
  pub modulus : ℕ
  pub secret : ℕ
  pub key : ℕ

pub record Answer : Type 0 where
  pub reply : List ℕ
  pub slave : Slave

-- The replies: to a synchronisation, a generator, a modulus, and a key of the host, to which the
-- unit replies with its own; anything else is an unknown command.
unfoldable pub answer : List ℕ → Slave → Answer
answer [] s = record { reply = 0xF2 ∷ []; slave = s }
answer (op ∷ bs) s =
    if op == 0x11
    then record { reply = 0xF0 ∷ []; slave = s }
    else if op == 0x4A
    then record { reply = 0xF0 ∷ []; slave = record s { generator = number bs } }
    else if op == 0x4B
    then record { reply = 0xF0 ∷ []; slave = record s { modulus = number bs } }
    else if op == 0x4C
    then record {
      reply = 0xF0 ∷ le_bytes 8 (s.generator ^ s.secret % s.modulus);
      slave = record s { key = number bs ^ s.secret % s.modulus };
    }
    else record { reply = 0xF2 ∷ []; slave = s }

-- The globals of the host, and the unit.
pub record Line : Type 0 where
  pub globals : Globals
  pub slave : Slave

-- A line that delivers every request and every reply.
abbrev pub delivered : Command → List ℕ → Command
delivered cmd reply = record cmd {
  response_data_length = length reply;
  response_data = fill cmd.response_data 0 reply;
}

unfoldable pub line : Exchange Line
line = record {
  globals = λ w. w.globals;
  with_globals = λ g w. record w { globals = g };
  send = λ cmd w.
      let a = answer (payload cmd) w.slave in
      ok (record {
        success = true;
        cmd = delivered cmd a.reply;
        world = record w { slave = a.slave };
      });
}
