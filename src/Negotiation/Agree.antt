-- ===== src/Negotiation/Agree.antt =====
-- Both sides of the exchange compute the same key.
use e_ssp.Base.{ℕ, zero, suc, ◌+◌, ◌*◌, ◌%◌, ◌^◌, ◌≡◌, sym, ap, ap₂, ◌∙◌, arith}
use native.Mathlib.Nat.{pow-suc, pow-zero, mul_comm, mod-mod}
use e_ssp.Negotiation.Power.{mod_times_mod, pow_add}

pow_times : (x a b : ℕ) → x ^ (a * b) ≡ (x ^ a) ^ b
pow_times x a zero =
    ap (λ t. x ^ t) {x = a * 0} {y = 0} (omega arith) ∙ pow-zero x ∙ sym (pow-zero (x ^ a))
pow_times x a (suc b) =
    ap (λ t. x ^ t) {x = a * suc b} {y = a * b + a} (omega arith)
    ∙ pow_add x (a * b) a
    ∙ ap (λ (t : ℕ). t * x ^ a) (pow_times x a b)
    ∙ sym (pow-suc (x ^ a) b)

pow_mod : (x b n : ℕ) → (x % n) ^ b % n ≡ x ^ b % n
pow_mod x zero n = ap (λ (t : ℕ). t % n) (pow-zero (x % n) ∙ sym (pow-zero x))
pow_mod x (suc b) n =
    ap (λ (t : ℕ). t % n) (pow-suc (x % n) b)
    ∙ sym (mod_times_mod ((x % n) ^ b) (x % n) n)
    ∙ ap₂ (λ (s t : ℕ). s * t % n) (pow_mod x b n) (mod-mod x n)
    ∙ mod_times_mod (x ^ b) x n
    ∙ ap (λ (t : ℕ). t % n) (sym (pow-suc x b))

-- Powers of powers, in either order.
pub pow_swap : (g a b n : ℕ) → (g ^ a % n) ^ b % n ≡ (g ^ b % n) ^ a % n
pow_swap g a b n =
    pow_mod (g ^ a) b n
    ∙ ap (λ (t : ℕ). t % n)
        (sym (pow_times g a b) ∙ ap (λ t. g ^ t) (mul_comm a b) ∙ pow_times g b a)
    ∙ sym (pow_mod (g ^ b) a n)
