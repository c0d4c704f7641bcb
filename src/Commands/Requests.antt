-- ===== src/Commands/Requests.antt =====
-- What the unit reads from the requests of _eSSP/lib/ssp_commands.c: an independent description of
-- the older request format, the calls that reach the unit intact, and the three that do not.
use e_ssp.Base.{
  ℕ, ◌+◌, ◌*◌, ◌/◌, ◌%◌, ◌^◌, ◌==◌, if◌then◌else◌, u8, u16, Option, none, some, List, [], ◌∷◌, fill,
  Run, ok, ◌>>=◌, ◌≡◌, refl, sym, ap, ap₂, ◌∙◌, arith,
}
use e_ssp.Defs.{Command, ssp_response_ok}
use e_ssp.Cipher.{le_bytes}
use e_ssp.Link.{Link}
use e_ssp.Packet.Compile.{payload}
use e_ssp.Helpers.{with_request}
use e_ssp.Helpers.Requests.{payload-with_request}
use e_ssp.Commands.{
  Setup, Reply, return_values, setup_command_structure, request, ssp_reset, ssp_host_protocol,
  ssp_sync, ssp_disable, ssp_enable, ssp_set_inhibits, ssp_display_off, ssp_display_on,
  ssp_reject_note, ssp_hold_note, ssp_enable_higher_protocol_events, ssp_payout_amount,
  ssp_set_coin_amount, ssp_halt_payout, ssp_set_routing, ssp_get_routing, ssp_float_hopper,
  ssp_get_coin_amount,
}

-- What a unit of this format can be asked for: amounts are in 32 bits, and the number of coins
-- in 16.
pub data Order : Type 0 where
  reset sync disable enable display_off display_on reject_note hold_note : Order
  enable_higher_protocol_events halt_payout : Order
  host_protocol : ℕ → Order
  set_inhibits : ℕ → ℕ → Order
  payout_amount : ℕ → Order
  set_coin_amount : ℕ → ℕ → Order
  get_coin_amount : ℕ → Order
  set_routing : ℕ → ℕ → Order
  get_routing : ℕ → Order
  float_hopper : ℕ → ℕ → Order

abbrev pub two : ℕ → ℕ → ℕ
two b0 b1 = b0 + 256 * b1

abbrev pub four : ℕ → ℕ → ℕ → ℕ → ℕ
four b0 b1 b2 b3 = b0 + 256 * (b1 + 256 * (b2 + 256 * b3))

abbrev bare : ℕ → Option Order
bare op =
    if op == 0x01
    then some reset
    else if op == 0x03
    then some display_on
    else if op == 0x04
    then some display_off
    else if op == 0x08
    then some reject_note
    else if op == 0x09
    then some disable
    else if op == 0x0A
    then some enable
    else if op == 0x11
    then some sync
    else if op == 0x18
    then some hold_note
    else if op == 0x19
    then some enable_higher_protocol_events
    else if op == 0x38
    then some halt_payout
    else none

-- The reader of the unit, by the number of bytes behind the code.
unfoldable pub read_order : List ℕ → Option Order
read_order (op ∷ []) = bare op
read_order (op ∷ a ∷ []) = if op == 0x06 then some (host_protocol a) else none
read_order (op ∷ a ∷ b ∷ []) = if op == 0x02 then some (set_inhibits a b) else none
read_order (op ∷ a ∷ b ∷ c ∷ d ∷ []) =
    if op == 0x33
    then some (payout_amount (four a b c d))
    else if op == 0x35
    then some (get_coin_amount (four a b c d))
    else if op == 0x3C
    then some (get_routing (four a b c d))
    else none
read_order (op ∷ a ∷ b ∷ c ∷ d ∷ e ∷ []) =
    if op == 0x3B then some (set_routing (four b c d e) a) else none
read_order (op ∷ a ∷ b ∷ c ∷ d ∷ e ∷ f ∷ []) =
    if op == 0x34
    then some (set_coin_amount (four c d e f) (two a b))
    else if op == 0x3D
    then some (float_hopper (four c d e f) (two a b))
    else none
read_order _ = none

-- The calls that send a request and do no more.
pub data Call : Type 0 where
  call_reset call_sync call_disable call_enable call_display_off call_display_on : Call
  call_reject_note call_hold_note call_enable_higher_protocol_events call_halt_payout : Call
  call_host_protocol : ℕ → Call
  call_set_inhibits : ℕ → ℕ → Call
  call_payout_amount : ℕ → Call
  call_set_coin_amount : ℕ → ℕ → Call
  call_set_routing : ℕ → ℕ → Call

unfoldable pub order_of : Call → Order
order_of call_reset = reset
order_of call_sync = sync
order_of call_disable = disable
order_of call_enable = enable
order_of call_display_off = display_off
order_of call_display_on = display_on
order_of call_reject_note = reject_note
order_of call_hold_note = hold_note
order_of call_enable_higher_protocol_events = enable_higher_protocol_events
order_of call_halt_payout = halt_payout
order_of (call_host_protocol n) = host_protocol n
order_of (call_set_inhibits lo hi) = set_inhibits lo hi
order_of (call_payout_amount v) = payout_amount (v % 2 ^ 32)
order_of (call_set_coin_amount v n) = set_coin_amount (v % 2 ^ 32) (n % 2 ^ 16)
order_of (call_set_routing v route) = set_routing (v % 2 ^ 32) route

two-le_bytes : (v : ℕ) → two (u8 v) (u8 (v / 256)) ≡ v % 2 ^ 16
two-le_bytes v = omega arith

four-le_bytes :
    (v : ℕ)
    → four (u8 v) (u8 (v / 256)) (u8 (v / 256 / 256)) (u8 (v / 256 / 256 / 256)) ≡ v % 2 ^ 32
four-le_bytes v = omega arith

module _ {W : Type 0} (link : Link W) (setup : Setup) (raw : Command) (w : W) where
  unfoldable pub place : Call → Run (Reply W)
  place call_reset = ssp_reset link setup raw w
  place call_sync = ssp_sync link setup raw w
  place call_disable = ssp_disable link setup raw w
  place call_enable = ssp_enable link setup raw w
  place call_display_off = ssp_display_off link setup raw w
  place call_display_on = ssp_display_on link setup raw w
  place call_reject_note = ssp_reject_note link setup raw w
  place call_hold_note = ssp_hold_note link setup raw w
  place call_enable_higher_protocol_events = ssp_enable_higher_protocol_events link setup raw w
  place call_halt_payout = ssp_halt_payout link setup raw w
  place (call_host_protocol n) = ssp_host_protocol link setup raw w n
  place (call_set_inhibits lo hi) = ssp_set_inhibits link setup raw w lo hi
  place (call_payout_amount v) = ssp_payout_amount link setup raw w v
  place (call_set_coin_amount v n) = ssp_set_coin_amount link setup raw w v n
  place (call_set_routing v route) = ssp_set_routing link setup raw w v route

  -- A call that sends one command, with the settings of the setup and this meaning.
  Orders : Order → Run (Reply W) → Type 0
  Orders order run =
      (c : Command) × (run ≡ return_values link c w)
      × (read_order (payload c) ≡ some order)
      × (c ≡ with_request (setup_command_structure setup raw) (payload c))

  orders :
      (order : Order) (bs : List ℕ)
      → read_order bs ≡ some order
      → Orders order (request link setup raw w bs)
  unfolding request Orders
  orders order bs meaning =
      let cmd = setup_command_structure setup raw in
      (
        with_request cmd bs,
        refl,
        ap read_order (payload-with_request cmd bs) ∙ meaning,
        ap (with_request cmd) (sym (payload-with_request cmd bs)),
      )

  -- The calls that reach the unit intact: one command, with the settings of the setup, from which
  -- the unit reads what the caller asks for.
  pub read_order-place :
      (call : Call)
      → (c : Command) × (place call ≡ return_values link c w)
        × (read_order (payload c) ≡ some (order_of call))
        × (c ≡ with_request (setup_command_structure setup raw) (payload c))
  unfolding place Orders ssp_reset ssp_host_protocol ssp_sync ssp_disable ssp_enable
      ssp_set_inhibits ssp_display_off ssp_display_on ssp_reject_note ssp_hold_note
      ssp_enable_higher_protocol_events ssp_payout_amount ssp_set_coin_amount ssp_halt_payout
      ssp_set_routing read_order order_of le_bytes
  read_order-place (call_payout_amount v) =
      orders _ _ (ap (λ n. some (payout_amount n)) (four-le_bytes v))
  read_order-place (call_set_coin_amount v n) =
      orders _ _ (ap₂ (λ x y. some (set_coin_amount x y)) (four-le_bytes v) (two-le_bytes n))
  read_order-place (call_set_routing v route) =
      orders _ _ (ap (λ n. some (set_routing n route)) (four-le_bytes v))
  read_order-place _ = orders _ _ refl

  -- What the unit makes of three calls.
  abbrev pub Misread : ℕ → ℕ → Type 0
  Misread value minimum_payout =
      ((c : Command) × (ssp_get_routing link setup raw w value ≡ (
          return_values link c w >>= λ r.
          ok (if r.resp == ssp_response_ok then r.cmd.response_data 1 else 0, r)))
        × (read_order (payload c) ≡ none))
      × ((c : Command) × (ssp_float_hopper link setup raw w value minimum_payout
            ≡ return_values link c w)
          × (read_order (payload c) ≡ none))
      × ((c : Command) × (ssp_get_coin_amount link setup raw w value ≡ (
            return_values link c w >>= λ r. ok (
              if r.resp == ssp_response_ok
                  then u16 (r.cmd.response_data 1 + r.cmd.response_data 2 * 2 ^ 8)
                  else 0,
              r,
            )))
          × (read_order (payload c)
              ≡ some (
                  get_coin_amount (
                    four (raw.command_data 1) (raw.command_data 2) (u8 value) (u8 (value / 256))))))

  -- The read of the routing and the float of the hopper send a command in which the unit reads no
  -- request, and the read of an amount of coins one in which it reads a value made of what stood
  -- in the local structure and of the lower half of the value.
  pub read_order-lost : (value minimum_payout : ℕ) → Misread value minimum_payout
  unfolding ssp_get_routing ssp_float_hopper ssp_get_coin_amount request read_order le_bytes
      with_request setup_command_structure fill
  read_order-lost value minimum_payout = ((_, refl, refl), (_, refl, refl), (_, refl, refl))

  -- Fifteen calls of ssp_commands.c that only send a request send exactly one command, with the
  -- settings of the setup, and the unit reads from its data what the caller asks for: amounts
  -- modulo 2 ^ 32, and numbers of coins modulo 2 ^ 16. The three others that send a value do not:
  -- `ssp_get_routing` and `ssp_float_hopper` send a command in which the unit reads no request, and
  -- `ssp_get_coin_amount` one in which it reads a value made of two bytes that stood in the local
  -- structure and of the lower half of the caller's value.
  pub read_order_lem :
      ((call : Call)
        → (c : Command) × (place call ≡ return_values link c w)
          × (read_order (payload c) ≡ some (order_of call))
          × (c ≡ with_request (setup_command_structure setup raw) (payload c)))
      × ((value minimum_payout : ℕ) → Misread value minimum_payout)
  read_order_lem = (read_order-place, read_order-lost)
