-- ===== src/Examples.antt =====
-- The theorems at concrete inputs: a validator at address 0 that is asked to pay out, the bytes on
-- the line, and the replies. Nothing of the code is modelled here.
pub mod Orders
pub mod Download
pub mod Loader
pub mod Port
pub mod Amounts
pub mod Negotiation
pub mod Wire
pub mod Aes
pub mod Frames
pub mod Calls
pub mod Polls
pub mod Encryption
pub mod Setups
pub mod Answers
pub mod Sealed
pub mod Exchange
pub mod Session
pub mod Threads
pub mod Replies
use e_ssp.Base.{
  ℕ, zero, suc, ◌+◌, ◌-◌, ◌%◌, ◌<◌, ◌∷◌, [], List, length, All, IsByte, Array, fill, Bool, true,
  false, ◌≡◌, refl, ap, ap₂, arith, ok,
}
use native.Mathlib.Decide.{dec_lt}
use e_ssp.Defs.{Command, Packet, FullKey, ssp_reply_ok}
use e_ssp.Cipher.{BlockCipher}
use e_ssp.Host.{Globals, Poll, Attempt, World}

-- A cipher that adds the key to the block, byte by byte.
abbrev pub add_key : ℕ → List ℕ → List ℕ → List ℕ
add_key zero ks xs = []
add_key (suc n) [] [] = 0 ∷ add_key n [] []
add_key (suc n) (k ∷ ks) [] = 0 ∷ add_key n ks []
add_key (suc n) [] (x ∷ xs) = x ∷ add_key n [] xs
add_key (suc n) (k ∷ ks) (x ∷ xs) = (x + k) % 256 ∷ add_key n ks xs

abbrev pub subtract_key : List ℕ → List ℕ → List ℕ
subtract_key [] xs = xs
subtract_key (k ∷ ks) [] = []
subtract_key (k ∷ ks) (x ∷ xs) = (x + 256 - k) % 256 ∷ subtract_key ks xs

pub length-add_key : (n : ℕ) (ks xs : List ℕ) → length (add_key n ks xs) ≡ n
length-add_key zero ks xs = refl
length-add_key (suc n) [] [] = ap suc (length-add_key n [] [])
length-add_key (suc n) (k ∷ ks) [] = ap suc (length-add_key n ks [])
length-add_key (suc n) [] (x ∷ xs) = ap suc (length-add_key n [] xs)
length-add_key (suc n) (k ∷ ks) (x ∷ xs) = ap suc (length-add_key n ks xs)

pub subtract_key-add_key :
    (n : ℕ) (ks xs : List ℕ)
    → length ks ≡ n
    → length xs ≡ n
    → All IsByte ks
    → All IsByte xs
    → subtract_key ks (add_key n ks xs) ≡ xs
subtract_key-add_key zero [] [] h k b c = refl
subtract_key-add_key zero (x ∷ ks) xs h k b c = absurd (omega arith)
subtract_key-add_key zero [] (x ∷ xs) h k b c = absurd (omega arith)
subtract_key-add_key (suc n) [] xs h k b c = absurd (omega arith)
subtract_key-add_key (suc n) (x ∷ ks) [] h k b c = absurd (omega arith)
subtract_key-add_key (suc n) (k ∷ ks) (x ∷ xs) h h' b c =
    ap₂ ◌∷◌ (omega arith) (subtract_key-add_key n ks xs (omega arith) (omega arith) b.1 c.1)

abbrev pub adding : BlockCipher
adding = record {
  encrypt_block = add_key 16;
  decrypt_block = subtract_key;
  length-encrypt = length-add_key 16;
  decrypt-encrypt = subtract_key-add_key 16;
}

abbrev pub dice : ℕ → ℕ
dice n = n % 6

abbrev pub blank : Array
blank n = 0

abbrev pub idle : Packet
idle = record {
  tx_data = blank;
  tx_ptr = 0;
  rx_data = blank;
  rx_ptr = 0;
  tx_buffer_length = 0;
  rx_buffer_length = 3;
  ssp_address = 0;
  new_response = false;
  check_stuff = false;
}

-- A request to pay out 500 EUR, with the amount in the clear.
abbrev pub request_bytes : List ℕ
request_bytes = 0x33 ∷ 0xF4 ∷ 1 ∷ 0 ∷ 0 ∷ 69 ∷ 85 ∷ 82 ∷ 0x58 ∷ []

abbrev pub payout_command : Command
payout_command = record {
  key = record { fixed_key = 0x0123456701234567; encrypt_key = 5 };
  timeout = 1000;
  ssp_address = 0;
  retry_level = 3;
  encryption_status = false;
  command_data_length = 9;
  command_data = fill blank 0 request_bytes;
  response_status = ssp_reply_ok;
  response_data_length = 0;
  response_data = blank;
}

abbrev pub globals : Globals
globals = record { enc_pkt_count = blank; ssp_seq = blank; rand_calls = 0; seed_calls = 0 }

abbrev pub listed : List ℕ → Array
listed bytes = fill blank 0 bytes

-- The bytes of a list, by a test on each of them.
unfoldable pub are_bytes : List ℕ → Bool
are_bytes [] = true
are_bytes (x ∷ xs) = elim (dec_lt x 256) [ yes h ↦ are_bytes xs | no k ↦ false ]

pub are_bytes-IsByte : (xs : List ℕ) → are_bytes xs ≡ true → All IsByte xs
unfolding are_bytes
are_bytes-IsByte [] e = tt
are_bytes-IsByte (x ∷ xs) e = ground (arith, are_bytes-IsByte xs)
