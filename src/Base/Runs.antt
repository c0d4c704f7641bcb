-- ===== src/Base/Runs.antt =====
-- Outcomes of C code: a value, an access outside an array (undefined behaviour), or a wait for
-- a device that never ends.
use mathlib.Core.Path.{◌≡◌, subst}
use mathlib.Core.Bool.{Bool, true, false}

pub data Run {ℓ} (A : Type ℓ) : Type ℓ where
  ok : A → Run A
  fault : Run A
  waiting : Run A

infixl 5 ◌>>=◌ ◌>>◌
abbrev pub ◌>>=◌ {ℓ κ} : {A : Type ℓ} {B : Type κ} → Run A → (A → Run B) → Run B
ok a >>= f = f a
fault >>= f = fault
waiting >>= f = waiting

abbrev pub ◌>>◌ {ℓ} : {B : Type ℓ} → Run (Unit {0}) → Run B → Run B
m >> k = m >>= λ _. k

-- An access that C defines only if the test holds.
abbrev pub require : Bool → Run (Unit {0})
require true = ok tt
require false = fault

-- Every value that a run ends with has the property.
unfoldable pub Post {ℓ κ} : {A : Type ℓ} → (A → Type κ) → Run A → Type κ
Post P (ok a) = P a
Post P fault = Unit
Post P waiting = Unit

module _ {ℓ κ ν} {A : Type ℓ} {B : Type κ} where
  pub Post-bind {μ} :
      (P : A → Type μ) (Q : B → Type ν) (r : Run A) (f : A → Run B)
      → Post P r
      → ((a : A) → P a → Post Q (f a))
      → Post Q (r >>= f)
  unfolding Post
  Post-bind P Q (ok a) f h next = next a h
  Post-bind P Q fault f h next = tt
  Post-bind P Q waiting f h next = tt

  -- A run of which nothing need be known.
  pub Post-after :
      (Q : B → Type ν) (r : Run A) (f : A → Run B) → ((a : A) → Post Q (f a)) → Post Q (r >>= f)
  unfolding Post
  Post-after Q (ok a) f next = next a
  Post-after Q fault f next = tt
  Post-after Q waiting f next = tt

module _ {ℓ κ} {A : Type ℓ} where
  pub Post-ok : (P : A → Type κ) (a : A) → P a → Post P (ok a)
  unfolding Post
  Post-ok P a h = h

  -- The value of a run that ends.
  pub Post-value : (P : A → Type κ) (r : Run A) (a : A) → Post P r → r ≡ ok a → P a
  unfolding Post
  Post-value P r a h e = subst (Post P) e h

  pub Post-weaken {ν} :
      (P : A → Type κ) (Q : A → Type ν) (r : Run A) → Post P r → ((a : A) → P a → Q a) → Post Q r
  unfolding Post
  Post-weaken P Q (ok a) h imp = imp a h
  Post-weaken P Q fault h imp = tt
  Post-weaken P Q waiting h imp = tt
