-- ===== src/Base/Tables.antt =====
-- A Boolean test on all the numbers below a bound, evaluated once and used at any of them.
use Prim.Native.Nat.{ℕ, zero, suc, ◌<◌}
use mathlib.Core.Path.{◌≡◌, refl, ap, ◌∙◌}
use mathlib.Core.Bool.{Bool, true, false, ◌&&◌}
use native.Mathlib.Omega.{arith}
use native.Mathlib.Decide.{dec_lt}
use e_ssp.Base.Tests.{◌==◌, ==_iff}

abbrev pub every : ℕ → (ℕ → Bool) → Bool
every zero f = true
every (suc n) f = f n && every n f

both : (a b : Bool) → (a && b) ≡ true → (a ≡ true) × (b ≡ true)
both true b e = (refl, e)
both false b e = ground arith

pub every-true : (n : ℕ) (f : ℕ → Bool) → every n f ≡ true → (i : ℕ) → i < n → f i ≡ true
every-true zero f e i h = absurd (omega arith)
every-true (suc n) f e i h =
    let b = both (f n) (every n f) e in
    elim (dec_lt i n) [
      | yes k ↦ every-true n f b.1 i k
      | no k ↦ let here : i ≡ n = omega arith in ap f here ∙ b.0
    ]

-- A table of equations of numbers.
pub every-equal :
    (n : ℕ) (f g : ℕ → ℕ) → every n (λ x. f x == g x) ≡ true → (i : ℕ) → i < n → f i ≡ g i
every-equal n f g e i h = (==_iff (f i) (g i)).0 (every-true n (λ x. f x == g x) e i h)
