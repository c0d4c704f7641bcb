-- ===== src/Negotiation/Long.antt =====
-- `long long` of C: integers, with undefined behaviour where a product does not fit 64 bits or the
-- divisor is 0. The remainder takes the sign of the dividend.
use e_ssp.Base.{
  ℕ, zero, suc, ◌-◌, ◌*◌, ◌%◌, ◌^◌, ltb, ◌==◌, not, Bool, true, false, Run, ok, require, ◌>>◌,
  if◌then◌else◌,
}

pub data ℤ : Type 0 where
  pos negsuc : ℕ → ℤ

abbrev pub negative : ℤ → Bool
negative (pos n) = false
negative (negsuc n) = true

abbrev pub magnitude : ℤ → ℕ
magnitude (pos n) = n
magnitude (negsuc n) = suc n

-- The integer of a sign and a magnitude.
abbrev pub signed : Bool → ℕ → ℤ
signed minus zero = pos 0
signed false (suc n) = pos (suc n)
signed true (suc n) = negsuc n

abbrev pub differ : Bool → Bool → Bool
differ true b = not b
differ false b = b

abbrev pub fits : ℤ → Bool
fits (pos n) = ltb n (2 ^ 63)
fits (negsuc n) = ltb n (2 ^ 63)

unfoldable pub long_times : ℤ → ℤ → Run ℤ
long_times a b =
    let p = signed (differ (negative a) (negative b)) (magnitude a * magnitude b) in
    do require (fits p); ok p

unfoldable pub long_remainder : ℤ → ℕ → Run ℤ
long_remainder a n = do require (not (n == 0)); ok (signed (negative a) (magnitude a % n))

-- The bits of an integer as an `unsigned long long`, and back.
abbrev pub to_unsigned : ℤ → ℕ
to_unsigned (pos n) = n
to_unsigned (negsuc n) = 2 ^ 64 - suc n

abbrev pub to_signed : ℕ → ℤ
to_signed n = if ltb n (2 ^ 63) then pos n else negsuc (2 ^ 64 - suc n)
