-- ===== src/Helpers/Requests.antt =====
-- What the unit reads from the requests of ssp_helpers.c: an independent description of the
-- request format, and the calls that reach it intact.
use e_ssp.Base.{
  ◌⊎◌, ℕ, ◌+◌, ◌*◌, ◌%◌, ◌^◌, ◌==◌, if◌then◌else◌, u8, Bool, true, false, Option, none, some, List,
  [], ◌∷◌, Array, slice-fill, Run, ◌≡◌,
}
use e_ssp.Defs.{Command}
use e_ssp.Link.{Link, Responded, ssp_return_values}
use e_ssp.Packet.Compile.{payload}
use e_ssp.Helpers.{
  with_request, ssp6_payout, ssp6_get_note_amount, ssp6_set_route, ssp6_sync, ssp6_host_protocol,
  ssp6_enable, ssp6_reject, ssp6_enable_payout, ssp6_empty, ssp6_set_inhibits, ssp6_reset,
  ssp6_disable_payout, ssp6_disable, ssp6_payout_note, ssp6_stack_note, ssp6_run_calibration,
  ssp6_set_coinmech_inhibits,
}

-- A currency code, three bytes.
pub record Currency : Type 0 where
  pub c0 : ℕ
  pub c1 : ℕ
  pub c2 : ℕ

-- What a unit can be asked for.
pub data Request : Type 0 where
  payout : ℕ → Currency → ℕ → Request
  get_note_amount : ℕ → Currency → Request
  set_route : ℕ → Currency → ℕ → Request
  sync : Request
  host_protocol : ℕ → Request
  enable reject : Request
  enable_payout smart_empty : Bool → Request
  set_coinmech_inhibits : ℕ → Currency → ℕ → Request
  set_inhibits : ℕ → ℕ → Request
  reset disable_payout disable payout_note stack_note run_calibration : Request

abbrev value_of : ℕ → ℕ → ℕ → ℕ → ℕ
value_of b0 b1 b2 b3 = b0 + 256 * (b1 + 256 * (b2 + 256 * b3))

read_payout : List ℕ → Option Request
read_payout (b0 ∷ b1 ∷ b2 ∷ b3 ∷ x ∷ y ∷ z ∷ o ∷ []) =
    some (payout (value_of b0 b1 b2 b3) (record { c0 = x; c1 = y; c2 = z }) o)
read_payout _ = none

read_note_amount : List ℕ → Option Request
read_note_amount (b0 ∷ b1 ∷ b2 ∷ b3 ∷ x ∷ y ∷ z ∷ []) =
    some (get_note_amount (value_of b0 b1 b2 b3) (record { c0 = x; c1 = y; c2 = z }))
read_note_amount _ = none

read_route : List ℕ → Option Request
read_route (r ∷ b0 ∷ b1 ∷ b2 ∷ b3 ∷ x ∷ y ∷ z ∷ []) =
    some (set_route (value_of b0 b1 b2 b3) (record { c0 = x; c1 = y; c2 = z }) r)
read_route _ = none

read_coinmech : List ℕ → Option Request
read_coinmech (state ∷ b0 ∷ b1 ∷ x ∷ y ∷ z ∷ []) =
    some (set_coinmech_inhibits (b0 + 256 * b1) (record { c0 = x; c1 = y; c2 = z }) state)
read_coinmech _ = none

read_plain : Request → List ℕ → Option Request
read_plain r [] = some r
read_plain r _ = none

read_flag : (Bool → Request) → List ℕ → Option Request
read_flag r [] = some (r false)
read_flag r (_ ∷ []) = some (r true)
read_flag r _ = none

read_one : (ℕ → Request) → List ℕ → Option Request
read_one r (x ∷ []) = some (r x)
read_one r _ = none

read_two : (ℕ → ℕ → Request) → List ℕ → Option Request
read_two r (x ∷ y ∷ []) = some (r x y)
read_two r _ = none

-- The request format, by the first byte. The 0x52 is what `ssp6_empty` writes; `SSP_CMD_EMPTY`
-- (0x3F) of _eSSP/inc/ssp_defines.h is another code, which no call sends.
unfoldable pub read_request : List ℕ → Option Request
unfolding read_payout read_note_amount read_route read_coinmech read_plain read_flag read_one
    read_two
read_request [] = none
read_request (op ∷ args) =
    if op == 0x01
    then read_plain reset args
    else if op == 0x02
    then read_two set_inhibits args
    else if op == 0x06
    then read_one host_protocol args
    else if op == 0x08
    then read_plain reject args
    else if op == 0x09
    then read_plain disable args
    else if op == 0x0A
    then read_plain enable args
    else if op == 0x11
    then read_plain sync args
    else if op == 0x33
    then read_payout args
    else if op == 0x35
    then read_note_amount args
    else if op == 0x3B
    then read_route args
    else if op == 0x40
    then read_coinmech args
    else if op == 0x42
    then read_plain payout_note args
    else if op == 0x43
    then read_plain stack_note args
    else if op == 0x48
    then read_plain run_calibration args
    else if op == 0x52
    then read_flag smart_empty args
    else if op == 0x5B
    then read_plain disable_payout args
    else if op == 0x5C
    then read_flag enable_payout args
    else none

-- The calls of ssp_helpers.c that send a request and do no more.
pub data Call : Type 0 where
  call_payout : (value : ℕ) → Array → (option : ℕ) → Call
  call_get_note_amount : (value : ℕ) → Array → Call
  call_set_route : (value : ℕ) → Array → (route : ℕ) → Call
  call_sync : Call
  call_host_protocol : ℕ → Call
  call_enable call_reject : Call
  call_enable_payout call_empty : (type : ℕ) → Call
  call_set_inhibits : ℕ → ℕ → Call
  call_reset call_disable_payout call_disable call_payout_note call_stack_note : Call
  call_run_calibration : Call
  call_set_coinmech_inhibits : (value : ℕ) → Array → (state : ℕ) → Call

unfoldable pub perform : {W : Type 0} → Link W → Call → Command → W → Run (Responded W)
perform link (call_payout value cc option) = ssp6_payout link value cc option
perform link (call_get_note_amount value cc) = ssp6_get_note_amount link value cc
perform link (call_set_route value cc route) = ssp6_set_route link value cc route
perform link call_sync = ssp6_sync link
perform link (call_host_protocol v) = ssp6_host_protocol link v
perform link call_enable = ssp6_enable link
perform link call_reject = ssp6_reject link
perform link (call_enable_payout type) = ssp6_enable_payout link type
perform link (call_empty type) = ssp6_empty link type
perform link (call_set_inhibits lo hi) = ssp6_set_inhibits link lo hi
perform link call_reset = ssp6_reset link
perform link call_disable_payout = ssp6_disable_payout link
perform link call_disable = ssp6_disable link
perform link call_payout_note = ssp6_payout_note link
perform link call_stack_note = ssp6_stack_note link
perform link call_run_calibration = ssp6_run_calibration link
perform link (call_set_coinmech_inhibits value cc state) =
    ssp6_set_coinmech_inhibits link value cc state

currency : Array → Currency
currency cc = record { c0 = cc 0; c1 = cc 1; c2 = cc 2 }

-- What the caller asks for: the value as its 32-bit pattern, the option and the route as bytes.
unfoldable pub request_of : Call → Request
unfolding currency
request_of (call_payout value cc option) = payout (value % 2 ^ 32) (currency cc) (u8 option)
request_of (call_get_note_amount value cc) = get_note_amount (value % 2 ^ 32) (currency cc)
request_of (call_set_route value cc route) = set_route (value % 2 ^ 32) (currency cc) (u8 route)
request_of call_sync = sync
request_of (call_host_protocol v) = host_protocol v
request_of call_enable = enable
request_of call_reject = reject
request_of (call_enable_payout type) = enable_payout (type == 0x07)
request_of (call_empty type) = smart_empty (type == 0x07)
request_of (call_set_inhibits lo hi) = set_inhibits lo hi
request_of call_reset = reset
request_of call_disable_payout = disable_payout
request_of call_disable = disable
request_of call_payout_note = payout_note
request_of call_stack_note = stack_note
request_of call_run_calibration = run_calibration
request_of (call_set_coinmech_inhibits value cc state) =
    set_coinmech_inhibits (value % 2 ^ 16) (currency cc) (u8 state)

-- The calls whose arguments survive: `ssp6_set_coinmech_inhibits` sends for each byte of the value
-- whether there is one, by `&&` for `&`.
abbrev pub IsSendable : Call → Type 0
IsSendable (call_set_coinmech_inhibits value cc state) = (value ≡ 0) ⊎ ((value ≡ 1) ⊎ (value ≡ 257))
IsSendable _ = Unit

pub payload-with_request : (cmd : Command) (bs : List ℕ) → payload (with_request cmd bs) ≡ bs
unfolding with_request
payload-with_request cmd bs = slice-fill cmd.command_data 0 bs

-- A call that sends these bytes, and their meaning.
abbrev Says : {W : Type 0} → Link W → Request → Command → W → Run (Responded W) → Type 0
Says link r cmd w run =
    (c : Command) × (run ≡ ssp_return_values link c w)
    × (read_request (payload c) ≡ some r)
    × (c ≡ with_request cmd (payload c))
