-- ===== src/Helpers/Setup/Layout.antt =====
-- Where `ssp6_setup_request` finds each field of a reply.
use e_ssp.Base.{
  ℕ, ◌+◌, ◌*◌, ◌^◌, ◌≤◌, ◌<◌, lt→ltb, ◌==◌, Array, slice, slice-fill, slice_ext, update, fill, ok,
  ◌≡◌, ◌≢◌, refl, ap, ap₂, ◌∙◌, arith, false, true,
}
use e_ssp.Helpers.Setup.{
  Channel6, SetupData6, le_value, set_security, set_value, set_cc, set_firmware, parse_hopper,
  parse_validator, parse_setup,
}
use e_ssp.Helpers.Setup.Loops.{applied, channel_loop-applied, applied-at}

-- The channel as the reply gives it: its currency, and a value of `size` bytes.
pub record IsChannel (resp : Array) (cc_at value_at size : ℕ) (c : Channel6) : Type 0 where
  pub currency : slice c.cc 0 3 ≡ slice resp cc_at 3
  pub ends : c.cc 3 ≡ 0
  pub amount : c.value ≡ le_value resp value_at size

-- A channel after the loops over its currency and its value.
channel_lem :
    (resp : Array) (cc_at value_at size i j : ℕ) (c old : Channel6)
    → c ≡ set_value size resp j (set_cc resp i old)
    → i ≡ cc_at
    → j ≡ value_at
    → IsChannel resp cc_at value_at size c
channel_lem resp cc_at value_at size i j c old e at_cc at_value = record {
  currency =
      ap (λ (d : Channel6). slice d.cc 0 3) e
      ∙ slice_ext (update (fill old.cc 0 (slice resp i 3)) 3 0) (fill old.cc 0 (slice resp i 3)) 0 3
          (λ m p q. ground arith)
      ∙ slice-fill old.cc 0 (slice resp i 3)
      ∙ ap (λ m. slice resp m 3) at_cc;
  ends = ap (λ (d : Channel6). d.cc 3) e;
  amount = ap (λ (d : Channel6). d.value) e ∙ ap (λ m. le_value resp m size) at_value;
}

slice-set_firmware :
    (resp : Array) (last : ℕ) (old : Array)
    → slice (set_firmware resp last old) 0 4 ≡ slice resp 2 4
slice-set_firmware resp last old =
    slice_ext (set_firmware resp last old) (fill old 0 (slice resp 2 4)) 0 4 (λ m p q. ground arith)
    ∙ slice-fill old 0 (slice resp 2 4)

-- A reply of a validator (any unit type but 3) with at most 20 channels is read within the 255
-- bytes of its array, whatever was in the structure: each field is taken from its place in the
-- layout, the multiplier with its highest byte first, and the security, the currency with its
-- zero and the value of each channel from their three tables, in that order behind the channel
-- values that are skipped.
pub parse_setup-validator :
    (resp : Array) (old : SetupData6)
    → resp 1 ≢ 3
    → resp 12 ≤ 20
    → (d : SetupData6) × (parse_setup resp old ≡ ok d)
      × (d.unit_type ≡ resp 1)
      × (slice d.firmware_version 0 4 ≡ slice resp 2 4)
      × (d.firmware_version 4 ≡ 0)
      × (d.number_of_channels ≡ resp 12)
      × (d.real_value_multiplier
          ≡ resp (13 + resp 12 * 2) * 2 ^ 16
            + resp (14 + resp 12 * 2) * 2 ^ 8
            + resp (15 + resp 12 * 2))
      × (d.protocol_version ≡ resp (16 + resp 12 * 2))
      × ((j : ℕ)
          → j < resp 12
          → ((d.channel_data j).security ≡ resp (13 + resp 12 + j))
            × IsChannel resp
                (17 + resp 12 * 2 + j * 3)
                (17 + resp 12 * 5 + j * 4)
                4
                (d.channel_data j))
unfolding parse_setup parse_validator
parse_setup-validator resp old other few =
    let n = resp 12 in
    let secured = applied 1 (set_security resp) n 0 (13 + n) old.channel_data in
    let located = applied 3 (set_cc resp) n 0 (13 + n + n * 1 + 4) secured in
    let valued = applied 4 (set_value 4 resp) n 0 (13 + n + n * 1 + 4 + n * 3) located in
    let loop1 =
      channel_loop-applied 1 (set_security resp) n 0 (13 + n) old.channel_data (omega arith)
        (omega arith) in
    let loop2 =
      channel_loop-applied 3 (set_cc resp) n 0 (13 + n + n * 1 + 4) secured (omega arith)
        (omega arith) in
    let loop3 =
      channel_loop-applied 4 (set_value 4 resp) n 0 (13 + n + n * 1 + 4 + n * 3) located
        (omega arith) (omega arith) in
    let channel : (j : ℕ)
        → j < n
        → valued j
          ≡ set_value 4 resp (13 + n + n * 1 + 4 + n * 3 + j * 4) (
              set_cc resp (13 + n + n * 1 + 4 + j * 3)
                (set_security resp (13 + n + j * 1) (old.channel_data j))) =
      λ j h.
        applied-at 4 (set_value 4 resp) n 0 (13 + n + n * 1 + 4 + n * 3) located j j h (omega arith)
        ∙ ap (set_value 4 resp (13 + n + n * 1 + 4 + n * 3 + j * 4)) (
            applied-at 3 (set_cc resp) n 0 (13 + n + n * 1 + 4) secured j j h (omega arith)
            ∙ ap (set_cc resp (13 + n + n * 1 + 4 + j * 3)) (
                applied-at 1 (set_security resp) n 0 (13 + n) old.channel_data j j h
                  (omega arith))) in
    let test : (resp 1 == 3) ≡ false = ground arith in
    (
      record {
        unit_type = resp 1;
        firmware_version = set_firmware resp 0 old.firmware_version;
        number_of_channels = n;
        channel_data = valued;
        real_value_multiplier =
            resp (13 + n + n * 1) * 2 ^ 16
            + resp (13 + n + n * 1 + 1) * 2 ^ 8
            + resp (13 + n + n * 1 + 2);
        protocol_version = resp (13 + n + n * 1 + 3);
      },
      rw
          (
            test,
            loop1,
            lt→ltb (13 + n + n * 1) 255 (omega arith),
            lt→ltb (13 + n + n * 1 + 1) 255 (omega arith),
            lt→ltb (13 + n + n * 1 + 2) 255 (omega arith),
            lt→ltb (13 + n + n * 1 + 3) 255 (omega arith),
            loop2,
            loop3,
          )
          refl,
      refl,
      slice-set_firmware resp 0 old.firmware_version,
      refl,
      refl,
      multiplier (13 + n + n * 1) (13 + n + n * 1 + 1) (13 + n + n * 1 + 2) (omega arith)
          (omega arith) (omega arith),
      ap resp (omega arith),
      λ j h. (
        ap (λ (c : Channel6). c.security) (channel j h) ∙ ap resp (omega arith),
        channel_lem resp _ _ 4 _ _ _ (set_security resp (13 + n + j * 1) (old.channel_data j))
            (channel j h) (omega arith) (omega arith),
      ),
    )
  where
    multiplier :
        (i j k : ℕ)
        → i ≡ 13 + resp 12 * 2
        → j ≡ 14 + resp 12 * 2
        → k ≡ 15 + resp 12 * 2
        → resp i * 2 ^ 16 + resp j * 2 ^ 8 + resp k
          ≡ resp (13 + resp 12 * 2) * 2 ^ 16
            + resp (14 + resp 12 * 2) * 2 ^ 8
            + resp (15 + resp 12 * 2)
    multiplier i j k e f g =
        ap₂ (λ (x y : ℕ). x + y) (ap₂ (λ (x y : ℕ). x * 2 ^ 16 + y * 2 ^ 8) (ap resp e) (ap resp f))
          (ap resp g)

-- A reply of a SMART Hopper (unit type 3) with at most 20 channels is read within the 255 bytes
-- of its array, whatever was in the structure: each field is taken from its place in the layout,
-- the value of each channel from two bytes; the firmware version ends with a line feed, and the
-- securities and the multiplier stay as they were.
pub parse_setup-hopper :
    (resp : Array) (old : SetupData6)
    → resp 1 ≡ 3
    → resp 10 ≤ 20
    → (d : SetupData6) × (parse_setup resp old ≡ ok d)
      × (d.unit_type ≡ 3)
      × (slice d.firmware_version 0 4 ≡ slice resp 2 4)
      × (d.firmware_version 4 ≡ 10)
      × (d.number_of_channels ≡ resp 10)
      × (d.real_value_multiplier ≡ old.real_value_multiplier)
      × (d.protocol_version ≡ resp 9)
      × ((j : ℕ)
          → j < resp 10
          → ((d.channel_data j).security ≡ (old.channel_data j).security)
            × IsChannel resp (11 + resp 10 * 2 + j * 3) (11 + j * 2) 2 (d.channel_data j))
unfolding parse_setup parse_hopper
parse_setup-hopper resp old hopper few =
    let n = resp 10 in
    let valued = applied 2 (set_value 2 resp) n 0 11 old.channel_data in
    let located = applied 3 (set_cc resp) n 0 (11 + n * 2) valued in
    let loop1 =
      channel_loop-applied 2 (set_value 2 resp) n 0 11 old.channel_data (omega arith)
        (omega arith) in
    let loop2 =
      channel_loop-applied 3 (set_cc resp) n 0 (11 + n * 2) valued (omega arith) (omega arith) in
    let channel : (j : ℕ)
        → j < n
        → located j
          ≡ set_value 2 resp (11 + j * 2) (set_cc resp (11 + n * 2 + j * 3) (old.channel_data j)) =
      λ j h.
        applied-at 3 (set_cc resp) n 0 (11 + n * 2) valued j j h (omega arith)
        ∙ ap (set_cc resp (11 + n * 2 + j * 3))
            (applied-at 2 (set_value 2 resp) n 0 11 old.channel_data j j h (omega arith)) in
    let test : (resp 1 == 3) ≡ true = ground arith in
    (
      record old {
        unit_type = resp 1;
        firmware_version = set_firmware resp 10 old.firmware_version;
        protocol_version = resp 9;
        number_of_channels = n;
        channel_data = located;
      },
      rw (test, loop1, loop2) refl,
      hopper,
      slice-set_firmware resp 10 old.firmware_version,
      refl,
      refl,
      refl,
      refl,
      λ j h. (
        ap (λ (c : Channel6). c.security) (channel j h),
        channel_lem resp _ _ 2 _ _ _ (old.channel_data j) (channel j h) (omega arith) (omega arith),
      ),
    )
