-- ===== src/Commands/Setups.antt =====
-- `ssp_setup_request` of _eSSP/lib/ssp_commands.c: where each field of the reply goes, and the
-- replies that overrun the tables of channels.
use e_ssp.Base.{
  ◌++◌, ℕ, suc, ◌+◌, ◌*◌, ◌^◌, ◌≤◌, leb, lt→ltb, le→leb, IsByte, true, false, [], ◌∷◌, length-slice,
  Array, slice, slice-fill, fill, ok, fault, ◌>>=◌, ◌≡◌, refl, sym, ap, ◌∙◌, arith,
}
use e_ssp.Defs.{Command, ssp_reply_ok, ssp_response_ok}
use e_ssp.Link.{Link, Sent}
use e_ssp.Helpers.{with_request}
use e_ssp.Commands.{Setup, Reply, is_reply_ok, return_values, setup_command_structure, request}
use e_ssp.Commands.Replies.{
  be_at, SetupRequestData, copy_channels, read_setup, and_read, ssp_setup_request,
}

be_at-three :
    (a : Array) (i : ℕ)
    → ((j : ℕ) → IsByte (a j))
    → be_at a i 3 ≡ a i * 2 ^ 16 + a (i + 1) * 2 ^ 8 + a (i + 2)
unfolding be_at
be_at-three a i bytes =
    let next : suc i ≡ i + 1 = omega arith in
    let last : suc (suc i) ≡ i + 2 = omega arith in
    omega (arith, bytes i, bytes (suc i), bytes (suc (suc i)), ap a next, ap a last)

copy_channels-ok :
    (n : ℕ) (resp : Array) (i : ℕ) (into : Array)
    → n ≤ 16
    → i + n ≤ 255
    → copy_channels n resp i into ≡ ok (fill into 0 (slice resp i n))
unfolding copy_channels
copy_channels-ok n resp i into few room = rw (le→leb n 16 few, le→leb (i + n) 255 room) refl

copied :
    (n : ℕ) (resp : Array) (i : ℕ) (into : Array)
    → slice (fill into 0 (slice resp i n)) 0 n ≡ slice resp i n
copied n resp i into =
    ap (slice (fill into 0 (slice resp i n)) 0) (sym (length-slice resp i n))
    ∙ slice-fill into 0 (slice resp i n)

-- The link answers the setup request with success, and with `SSP_RESPONSE_OK`.
pub record Answers {W : Type 0} (link : Link W) (setup : Setup) (raw : Command) (w : W) (s : Sent W)
    : Type 0 where
  pub sends : link.send (with_request (setup_command_structure setup raw) (0x05 ∷ [])) w ≡ ok s
  pub succeeds : s.success ≡ true
  pub received : s.cmd.response_status ≡ ssp_reply_ok
  pub accepted : s.cmd.response_data 0 ≡ ssp_response_ok

module _ {W : Type 0} (link : Link W) (setup : Setup) (raw : Command) (w : W) (s : Sent W)
    (old : SetupRequestData) (h : Answers link setup raw w s) where
  answered :
      request link setup raw w (0x05 ∷ [])
      ≡ ok (record { resp = ssp_response_ok; cmd = s.cmd; world = s.world })
  unfolding request return_values is_reply_ok
  answered = rw (h.sends, h.succeeds, h.received, h.accepted) refl

  reads : ssp_setup_request link setup raw w old ≡ (
      read_setup s.cmd.response_data old >>= λ d.
      ok (d, record { resp = ssp_response_ok; cmd = s.cmd; world = s.world }))
  unfolding ssp_setup_request and_read
  reads = rw answered refl

  -- Answered with success, with bytes, and with at most 16 channels, `ssp_setup_request` returns
  -- that code and reads the reply within its bounds, whatever was in the caller's structure: each
  -- field comes from its place in the layout, the two strings with a zero behind them, both
  -- multipliers with the highest byte first, and
  -- the two tables of channels, both of the length that the reply gives, one behind the other.
  pub ssp_setup_request-read :
      ((j : ℕ) → IsByte (s.cmd.response_data j))
      → s.cmd.response_data 12 ≤ 16
      → (d : SetupRequestData) × (r : Reply W) × (ssp_setup_request link setup raw w old
          ≡ ok (d, r))
        × (r.resp ≡ ssp_response_ok)
        × (d.unit_type ≡ s.cmd.response_data 1)
        × (d.firmware_version ≡ slice s.cmd.response_data 2 4 ++ 0 ∷ [])
        × (d.country_code ≡ slice s.cmd.response_data 6 3 ++ 0 ∷ [])
        × (d.value_multiplier
            ≡ s.cmd.response_data 9 * 2 ^ 16
              + s.cmd.response_data 10 * 2 ^ 8
              + s.cmd.response_data 11)
        × (d.channel_values.number_of_channels ≡ s.cmd.response_data 12)
        × (d.channel_security.number_of_channels ≡ s.cmd.response_data 12)
        × (slice d.channel_values.channel_data 0 (s.cmd.response_data 12)
            ≡ slice s.cmd.response_data 13 (s.cmd.response_data 12))
        × (slice d.channel_security.channel_data 0 (s.cmd.response_data 12)
            ≡ slice s.cmd.response_data (13 + s.cmd.response_data 12) (s.cmd.response_data 12))
        × (d.real_value_multiplier
            ≡ s.cmd.response_data (13 + s.cmd.response_data 12 + s.cmd.response_data 12) * 2 ^ 16
              + s.cmd.response_data (13 + s.cmd.response_data 12 + s.cmd.response_data 12 + 1)
                * 2 ^ 8
              + s.cmd.response_data (13 + s.cmd.response_data 12 + s.cmd.response_data 12 + 2))
        × (d.protocol_version
            ≡ s.cmd.response_data (13 + s.cmd.response_data 12 + s.cmd.response_data 12 + 3))
  unfolding read_setup
  ssp_setup_request-read bytes few =
      let resp = s.cmd.response_data in
      let n = resp 12 in
      let values = copy_channels-ok n resp 13 old.channel_values.channel_data few (omega arith) in
      let security =
        copy_channels-ok n resp (13 + n) old.channel_security.channel_data few (omega arith) in
      (
        record {
          unit_type = resp 1;
          firmware_version = slice resp 2 4 ++ 0 ∷ [];
          country_code = slice resp 6 3 ++ 0 ∷ [];
          value_multiplier = be_at resp 9 3;
          channel_values = record {
            number_of_channels = n;
            channel_data = fill old.channel_values.channel_data 0 (slice resp 13 n);
          };
          channel_security = record {
            number_of_channels = n;
            channel_data = fill old.channel_security.channel_data 0 (slice resp (13 + n) n);
          };
          real_value_multiplier = be_at resp (13 + n + n) 3;
          protocol_version = resp (13 + n + n + 3);
        },
        record { resp = ssp_response_ok; cmd = s.cmd; world = s.world },
        reads ∙ rw (values, security, lt→ltb (13 + n + n + 3) 255 (omega arith)) refl,
        refl,
        refl,
        refl,
        refl,
        be_at-three resp 9 bytes,
        refl,
        refl,
        copied n resp 13 old.channel_values.channel_data,
        copied n resp (13 + n) old.channel_security.channel_data,
        be_at-three resp (13 + n + n) bytes,
        refl,
      )

  -- Answered with success and with more than 16 channels, `ssp_setup_request` writes past the end
  -- of the table of channel values.
  pub ssp_setup_request-fault :
      17 ≤ s.cmd.response_data 12 → ssp_setup_request link setup raw w old ≡ fault
  unfolding read_setup copy_channels
  ssp_setup_request-fault many =
      let over : leb (s.cmd.response_data 12) 16 ≡ false = ground arith in reads ∙ rw over refl
