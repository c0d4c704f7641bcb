-- ===== src/Packet/Receive.antt =====
-- `SSPDataIn` takes a stuffed frame back to the packet that was sent.
use e_ssp.Base.{
  ℕ, suc, ◌+◌, ◌≤◌, ◌<◌, ◌==◌, ==_iff, Bool-cases, true, false, List, [], ◌∷◌, ◌++◌, length, update,
  fill, Run, ok, fault, waiting, ◌>>=◌, ◌≡◌, ◌≢◌, inl, inr, refl, sym, ap, ◌∙◌, arith,
}
use e_ssp.Defs.{Packet, ssp_stx}
use e_ssp.Packet.{stuff, store_byte, after_start, plain_byte, end_of_packet, ssp_data_in, receive}

pub receive-append :
    (xs ys : List ℕ) (ss : Packet) → receive (xs ++ ys) ss ≡ (receive xs ss >>= receive ys)
unfolding receive
receive-append [] ys ss = refl
receive-append (x ∷ xs) ys ss = go (receive-append xs ys) (ssp_data_in x ss)
  where
    go :
        ((t : Packet) → receive (xs ++ ys) t ≡ (receive xs t >>= receive ys))
        → (r : Run Packet) → (r >>= receive (xs ++ ys)) ≡ ((r >>= receive xs) >>= receive ys)
    go ih (ok t) = ih t
    go ih fault = refl
    go ih waiting = refl

pub stuff-append : (xs ys : List ℕ) → stuff (xs ++ ys) ≡ stuff xs ++ stuff ys
unfolding stuff
stuff-append [] ys = refl
stuff-append (x ∷ xs) ys = ground (arith, stuff-append xs ys)

pub receive_one : (b : ℕ) (ss : Packet) → receive (b ∷ []) ss ≡ ssp_data_in b ss
unfolding receive
receive_one b ss = go (ssp_data_in b ss)
  where
    go : (r : Run Packet) → (r >>= ok) ≡ r
    go (ok t) = refl
    go fault = refl
    go waiting = refl

-- The packet with one more byte, and with all of a list.
abbrev pub advance : Packet → ℕ → Packet
advance ss b = record ss {
  rx_data = update ss.rx_data ss.rx_ptr b;
  rx_ptr = suc ss.rx_ptr;
  check_stuff = false;
}

store_byte-ok :
    (b : ℕ) (ss : Packet)
    → ss.rx_ptr < 255
    → store_byte b ss
      ≡ ok (record ss { rx_data = update ss.rx_data ss.rx_ptr b; rx_ptr = suc ss.rx_ptr })
unfolding store_byte
store_byte-ok b ss fits = ground arith

plain_byte-ok :
    (b : ℕ) (ss : Packet)
    → ss.check_stuff ≡ false
    → b ≢ ssp_stx
    → 3 ≤ ss.rx_ptr
    → ss.rx_ptr < 255
    → plain_byte b ss ≡ ok (advance ss b)
unfolding plain_byte
plain_byte-ok b ss plain ne h fits = ground (arith, store_byte-ok b ss)

module _ (b : ℕ) (ss : Packet) where
  data_in_plain :
      ss.check_stuff ≡ false
      → b ≢ ssp_stx
      → 3 ≤ ss.rx_ptr
      → ss.rx_ptr < 255
      → ssp_data_in b ss ≡ end_of_packet (advance ss b)
  unfolding ssp_data_in
  data_in_plain plain ne h fits = ground (arith, plain_byte-ok b ss)

  pub data_in_mark :
      ss.check_stuff ≡ false
      → 1 ≤ ss.rx_ptr
      → ss.rx_ptr ≢ ss.rx_buffer_length
      → ssp_data_in ssp_stx ss ≡ ok (record ss { check_stuff = true })
  unfolding ssp_data_in plain_byte end_of_packet
  data_in_mark plain h more = ground arith

  pub data_in_stuffed :
      1 ≤ ss.rx_ptr
      → ss.rx_ptr < 255
      → ssp_data_in ssp_stx (record ss { check_stuff = true }) ≡ end_of_packet (advance ss ssp_stx)
  unfolding ssp_data_in after_start
  data_in_stuffed h fits = ground (arith, store_byte-ok ssp_stx (record ss { check_stuff = true }))

-- A stuffed pair stores one start byte.
pub receive_pair :
    (ss : Packet)
    → ss.check_stuff ≡ false
    → 1 ≤ ss.rx_ptr
    → ss.rx_ptr < 255
    → ss.rx_ptr ≢ ss.rx_buffer_length
    → receive (ssp_stx ∷ ssp_stx ∷ []) ss ≡ end_of_packet (advance ss ssp_stx)
receive_pair ss plain head fits more =
    receive-append (ssp_stx ∷ []) (ssp_stx ∷ []) ss
    ∙ ap (λ r. r >>= receive (ssp_stx ∷ []))
        (receive_one ssp_stx ss ∙ data_in_mark ssp_stx ss plain head more)
    ∙ receive_one ssp_stx (record ss { check_stuff = true })
    ∙ data_in_stuffed ssp_stx ss head fits

abbrev pub deliver : Packet → List ℕ → Packet
deliver ss [] = ss
deliver ss (b ∷ bs) = deliver (advance ss b) bs

pub deliver_lem :
    (bs : List ℕ) (ss : Packet)
    → ss.check_stuff ≡ false
    → deliver ss bs ≡ record ss {
      rx_data = fill ss.rx_data ss.rx_ptr bs;
      rx_ptr = ss.rx_ptr + length bs;
      check_stuff = false;
    }
unfolding fill
deliver_lem [] ss plain = ground arith
deliver_lem (b ∷ bs) ss plain = ground (arith, deliver_lem bs (advance ss b))

module _ (b : ℕ) (ss : Packet) (plain : ss.check_stuff ≡ false) (head : 3 ≤ ss.rx_ptr)
    (fits : ss.rx_ptr < 255) (more : ss.rx_ptr ≢ ss.rx_buffer_length) where
  -- One byte of the packet, stuffed if need be, when the header is already there.
  receive_byte : receive (stuff (b ∷ [])) ss ≡ end_of_packet (advance ss b)
  unfolding stuff
  receive_byte = elim (Bool-cases (b == ssp_stx)) [
    | inl e ↦ rw e (pair ((==_iff b ssp_stx).0 e))
    | inr e ↦ rw e (receive_one b ss ∙ data_in_plain b ss plain (ground arith) head fits)
  ]
    where
      pair : b ≡ ssp_stx → receive (ssp_stx ∷ ssp_stx ∷ []) ss ≡ end_of_packet (advance ss b)
      pair same =
          receive_pair ss plain (omega arith) fits more
          ∙ ap (λ c. end_of_packet (advance ss c)) (sym same)

-- All the bytes up to the length that the header gave.
pub receive_payload :
    (bs : List ℕ) (b : ℕ) (ss : Packet)
    → ss.check_stuff ≡ false
    → 3 ≤ ss.rx_ptr
    → ss.rx_ptr + length bs + 1 ≡ ss.rx_buffer_length
    → ss.rx_buffer_length ≤ 255
    → receive (stuff (bs ++ b ∷ [])) ss ≡ end_of_packet (deliver ss (bs ++ b ∷ []))
receive_payload [] b ss plain head size fits =
    receive_byte b ss plain head (omega arith) (omega arith)
receive_payload (x ∷ bs) b ss plain head size fits =
    ap (λ xs. receive xs ss) (stuff-append (x ∷ []) (bs ++ b ∷ []))
    ∙ receive-append (stuff (x ∷ [])) (stuff (bs ++ b ∷ [])) ss
    ∙ ap (λ r. r >>= receive (stuff (bs ++ b ∷ [])))
        (receive_byte x ss plain head (omega arith) (omega arith) ∙ open_end)
    ∙ receive_payload bs b (advance ss x) refl (omega arith) (omega arith) fits
  where
    open_end : end_of_packet (advance ss x) ≡ ok (advance ss x)
    open_end = unfold end_of_packet in ground arith

-- Between packets, or anywhere in a packet that is broken off: the next start byte begins a packet.
pub record IsOpen (ss : Packet) : Type 0 where
  pub plain : ss.check_stuff ≡ false
  pub inside : ss.rx_ptr < ss.rx_buffer_length
  pub header : 3 ≤ ss.rx_buffer_length
  pub fits : ss.rx_buffer_length ≤ 255

-- The packet after its first two bytes, and after its first three.
abbrev pub started : Packet → ℕ → Packet
started ss a = record ss {
  rx_data = update (update ss.rx_data 0 ssp_stx) 1 a;
  rx_ptr = 2;
  check_stuff = false;
}

abbrev pub measured : Packet → ℕ → ℕ → Packet
measured ss a n = record ss {
  rx_data = update (update (update ss.rx_data 0 ssp_stx) 1 a) 2 n;
  rx_ptr = 3;
  rx_buffer_length = n + 5;
  check_stuff = false;
}

module _ (ss : Packet) (is : IsOpen ss) (a : ℕ) (ne : a ≢ ssp_stx) where
  pub receive_first : receive (ssp_stx ∷ a ∷ []) ss ≡ ok (started ss a)
  unfolding receive ssp_data_in after_start plain_byte store_byte end_of_packet
  receive_first = elim (Bool-cases (ss.rx_ptr == 0)) [ inl e ↦ ground arith | inr e ↦ ground arith ]

  pub receive_header :
      (n : ℕ) → n ≢ ssp_stx → n ≤ 250 → receive (ssp_stx ∷ a ∷ n ∷ []) ss ≡ ok (measured ss a n)
  receive_header n ne' small =
      receive-append (ssp_stx ∷ a ∷ []) (n ∷ []) ss
      ∙ ap (λ r. r >>= receive (n ∷ [])) receive_first
      ∙ receive_one n (started ss a)
      ∙ third
    where
      third : ssp_data_in n (started ss a) ≡ ok (measured ss a n)
      third = unfold ssp_data_in plain_byte store_byte end_of_packet in ground arith
