-- ===== src/Download/Loader.antt =====
-- A unit that takes a download, as the protocol describes it: two packets, the bytes of the program,
-- and blocks with a checksum each. It is an independent description of the other end of
-- _eSSP/lib/SSPDownload.c.
use e_ssp.Base.{
  ℕ, zero, suc, ◌+◌, ◌-◌, ◌*◌, ◌/◌, ◌%◌, ◌^◌, ◌==◌, ◌&&◌, bit_xor, if◌then◌else◌, true, false, List,
  [], ◌∷◌, ◌++◌, length, item, ok, ◌≡◌, refl, ap, ◌∙◌, arith,
}
use mathlib.Core.List.{append_assoc}
use e_ssp.Packet.Compile.{payload}
use e_ssp.Negotiation.Slave.{delivered}
use e_ssp.Download.Port.{Device}
use e_ssp.Download.Main.{block_checksum}

-- What the unit waits for; a number counts the bytes after the next one.
pub data Phase : Type 0 where
  idle wait_header : Phase
  loading : (more : ℕ) → Phase
  wait_start : Phase
  heading : (more : ℕ) → Phase
  storing : (more : ℕ) → Phase
  wait_sum : Phase

-- The size of its blocks, the checksum so far, what it stored, and the bytes that it has replied.
pub record Loader : Type 0 where
  pub phase : Phase
  pub size : ℕ
  pub sum : ℕ
  pub ram : List ℕ
  pub flash : List ℕ
  pub replied : List ℕ

-- A raw byte.
unfoldable pub feed_at : Phase → ℕ → Loader → Loader
feed_at idle b u = u
feed_at wait_header b u = u
feed_at (loading zero) b u = record u {
  phase = wait_start;
  sum = 0;
  ram = u.ram ++ b ∷ [];
  replied = bit_xor u.sum b ∷ [];
}
feed_at (loading (suc more)) b u = record u {
  phase = loading more;
  sum = bit_xor u.sum b;
  ram = u.ram ++ b ∷ [];
}
feed_at wait_start b u = record u { phase = heading 127; replied = 0x32 ∷ [] }
feed_at (heading zero) b u = record u { phase = storing (u.size - 1); sum = 0; replied = 0x32 ∷ [] }
feed_at (heading (suc more)) b u = record u { phase = heading more }
feed_at (storing zero) b u = record u {
  phase = wait_sum;
  sum = bit_xor u.sum b;
  flash = u.flash ++ b ∷ [];
}
feed_at (storing (suc more)) b u = record u {
  phase = storing more;
  sum = bit_xor u.sum b;
  flash = u.flash ++ b ∷ [];
}
feed_at wait_sum b u = record u { phase = storing (u.size - 1); sum = 0; replied = u.sum ∷ [] }

unfoldable pub feed : List ℕ → Loader → Loader
unfolding feed_at
feed [] u = u
feed (b ∷ bs) u = feed bs (feed_at u.phase b u)

-- Four bytes of the header, the highest first.
abbrev pub be32 : List ℕ → ℕ → ℕ
be32 xs i =
    item xs i * 2 ^ 24 + item xs (i + 1) * 2 ^ 16 + item xs (i + 2) * 2 ^ 8 + item xs (i + 3)

pub record Reaction : Type 0 where
  pub reply : List ℕ
  pub unit : Loader

-- A packet: the command that starts the download, and then the header of the file.
unfoldable pub packet_at : Phase → List ℕ → Loader → Reaction
packet_at wait_header bs u = record {
  reply = 0xF0 ∷ [];
  unit = record u { phase = loading (be32 bs 7 - 1); sum = 0 };
}
packet_at phase bs u =
    if item bs 0 == 0x0B && item bs 1 == 0x03
    then record {
      reply = 0xF0 ∷ u.size % 256 ∷ u.size / 256 % 256 ∷ [];
      unit = record u { phase = wait_header };
    }
    else record { reply = 0xF2 ∷ []; unit = u }

-- The unit behind the port, where the name that is opened again gets the handle that was closed. A
-- byte that it has replied is there at once; without one the time runs out.
unfoldable pub loader : Device Loader
unfolding feed packet_at
loader = record {
  send = λ cmd u.
      let a = packet_at u.phase (payload cmd) u in
      ok (record { success = true; cmd = delivered cmd a.reply; world = a.unit });
  negotiate = λ address key u. ok (record { success = false; key = key; world = u });
  open_port = λ u. record { success = true; world = u };
  close_port = λ u. u;
  set_baud = λ baud u. u;
  drain = λ u. record u { replied = [] };
  write_data = feed;
  polls = λ u. record {
    polls =
        record { elapsed = 0; arrived = u.replied } ∷ record { elapsed = 501; arrived = [] } ∷ [];
    world = record u { replied = [] };
  };
}

pub feed-append : (xs ys : List ℕ) (u : Loader) → feed (xs ++ ys) u ≡ feed ys (feed xs u)
unfolding feed
feed-append [] ys u = refl
feed-append (x ∷ xs) ys u = feed-append xs ys (feed_at u.phase x u)

-- The bytes of the program, all of them.
pub feed-loading :
    (bs : List ℕ) (more : ℕ) (u : Loader)
    → length bs ≡ suc more
    → feed bs (record u { phase = loading more }) ≡ record u {
      phase = wait_start;
      sum = 0;
      ram = u.ram ++ bs;
      replied = block_checksum u.sum bs ∷ [];
    }
unfolding feed feed_at block_checksum
feed-loading [] more u e = absurd (omega arith)
feed-loading (b ∷ []) zero u e = refl
feed-loading (b ∷ c ∷ bs) zero u e = absurd (omega arith)
feed-loading (b ∷ bs) (suc more) u e =
    feed-loading bs more (record u { sum = bit_xor u.sum b; ram = u.ram ++ b ∷ [] }) (omega arith)
    ∙ ap
        (λ r. record u {
          phase = wait_start;
          sum = 0;
          ram = r;
          replied = block_checksum (bit_xor u.sum b) bs ∷ [];
        })
        (append_assoc u.ram (b ∷ []) bs)

-- The header, again.
pub feed-heading :
    (bs : List ℕ) (more : ℕ) (u : Loader)
    → length bs ≡ suc more
    → feed bs (record u { phase = heading more })
      ≡ record u { phase = storing (u.size - 1); sum = 0; replied = 0x32 ∷ [] }
unfolding feed feed_at
feed-heading [] more u e = absurd (omega arith)
feed-heading (b ∷ []) zero u e = refl
feed-heading (b ∷ c ∷ bs) zero u e = absurd (omega arith)
feed-heading (b ∷ bs) (suc more) u e = feed-heading bs more u (omega arith)

-- A block.
pub feed-storing :
    (bs : List ℕ) (more : ℕ) (u : Loader)
    → length bs ≡ suc more
    → feed bs (record u { phase = storing more })
      ≡ record u { phase = wait_sum; sum = block_checksum u.sum bs; flash = u.flash ++ bs }
unfolding feed feed_at block_checksum
feed-storing [] more u e = absurd (omega arith)
feed-storing (b ∷ []) zero u e = refl
feed-storing (b ∷ c ∷ bs) zero u e = absurd (omega arith)
feed-storing (b ∷ bs) (suc more) u e =
    feed-storing bs more (record u { sum = bit_xor u.sum b; flash = u.flash ++ b ∷ [] })
      (omega arith)
    ∙ ap (λ r. record u { phase = wait_sum; sum = block_checksum (bit_xor u.sum b) bs; flash = r })
        (append_assoc u.flash (b ∷ []) bs)
