-- ===== src/Base/Ending.antt =====
-- Runs that do not wait for ever: a value with a property, or undefined behaviour.
use Prim.Native.Nat.{ℕ, ◌<◌}
use mathlib.Core.Path.{◌≡◌, refl}
use mathlib.Core.Bool.{Bool, true, false}
use native.Mathlib.Omega.{arith}
use e_ssp.Base.Tests.{ltb}
use e_ssp.Base.Runs.{Run, ok, fault, waiting, require, ◌>>=◌, ◌>>◌}
use e_ssp.Base.Arrays.{Array, read}

ltb→lt : (a b : ℕ) → ltb a b ≡ true → a < b
ltb→lt a b e = ground arith

unfoldable pub Halts {ℓ} : {A : Type ℓ} → (A → Type 0) → Run A → Type 0
Halts P (ok a) = P a
Halts P fault = Unit
Halts P waiting = ⊥

module _ {ℓ} {A : Type ℓ} where
  pub Halts-ok : (P : A → Type 0) (a : A) → P a → Halts P (ok a)
  unfolding Halts
  Halts-ok P a h = h

  pub Halts-weaken :
      (P : A → Type 0) (Q : A → Type 0) (r : Run A) → Halts P r → ((a : A) → P a → Q a) → Halts Q r
  unfolding Halts
  Halts-weaken P Q (ok a) h imp = imp a h
  Halts-weaken P Q fault h imp = tt
  Halts-weaken P Q waiting h imp = absurd h

module _ {ℓ κ} {A : Type ℓ} {B : Type κ} where
  pub Halts-bind :
      (P : A → Type 0) (Q : B → Type 0) (r : Run A) (f : A → Run B)
      → Halts P r
      → ((a : A) → P a → Halts Q (f a))
      → Halts Q (r >>= f)
  unfolding Halts
  Halts-bind P Q (ok a) f h next = next a h
  Halts-bind P Q fault f h next = tt
  Halts-bind P Q waiting f h next = absurd h

module _ {κ} {B : Type κ} where
  pub Halts-require :
      (Q : B → Type 0) (b : Bool) (f : Unit {0} → Run B)
      → (b ≡ true → Halts Q (f tt))
      → Halts Q (require b >>= f)
  unfolding Halts
  Halts-require Q true f next = next refl
  Halts-require Q false f next = tt

  pub Halts-read :
      (Q : B → Type 0) (size : ℕ) (a : Array) (i : ℕ) (f : ℕ → Run B)
      → (i < size → Halts Q (f (a i)))
      → Halts Q (read size a i >>= f)
  unfolding Halts
  Halts-read Q size a i f next = guarded (ltb i size) (λ e. next (ltb→lt i size e))
    where
      guarded :
          (b : Bool) → (b ≡ true → Halts Q (f (a i))) → Halts Q ((require b >> ok (a i)) >>= f)
      guarded true h = h refl
      guarded false h = tt
