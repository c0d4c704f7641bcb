-- ===== src/Base/Arrays.antt =====
-- C arrays of a fixed size, as functions of the index: every access is guarded by the size.
use Prim.Native.Nat.{ℕ, zero, suc, ◌+◌, ◌≤◌, ◌<◌}
use mathlib.Core.Path.{◌≡◌, refl, ap, ap₂, ◌∙◌}
use mathlib.Core.List.{List, [], ◌∷◌, ◌++◌}
use native.Mathlib.Omega.{arith}
use e_ssp.Base.Tests.{ltb, leb, ◌==◌, if◌then◌else◌}
use e_ssp.Base.Lists.{length}
use e_ssp.Base.Runs.{Run, ok, require, ◌>>◌}

abbrev pub Array : Type 0
Array = ℕ → ℕ

abbrev pub update : Array → ℕ → ℕ → Array
update a i v j = if j == i then v else a j

-- The elements from `i` on, `n` of them.
abbrev pub slice : Array → ℕ → ℕ → List ℕ
slice a i zero = []
slice a i (suc n) = a i ∷ slice a (suc i) n

-- Writes the bytes to consecutive indices from `i` on.
unfoldable pub fill : Array → ℕ → List ℕ → Array
fill a i [] = a
fill a i (v ∷ vs) = fill (update a i v) (suc i) vs

-- `a[i]`, `a[i] = v` and a loop of such writes, for an array of `size` elements.
abbrev pub read : ℕ → Array → ℕ → Run ℕ
read size a i = do require (ltb i size); ok (a i)

abbrev pub write : ℕ → Array → ℕ → ℕ → Run Array
write size a i v = do require (ltb i size); ok (update a i v)

abbrev pub write_all : ℕ → Array → ℕ → List ℕ → Run Array
write_all size a i vs = do require (leb (i + length vs) size); ok (fill a i vs)

pub fill-before : (a : Array) (i : ℕ) (vs : List ℕ) (j : ℕ) → j < i → fill a i vs j ≡ a j
unfolding fill
fill-before a i [] j h = refl
fill-before a i (v ∷ vs) j h = ground (arith, fill-before (update a i v) (suc i) vs j)

pub slice-fill : (a : Array) (i : ℕ) (vs : List ℕ) → slice (fill a i vs) i (length vs) ≡ vs
unfolding fill
slice-fill a i [] = refl
slice-fill a i (v ∷ vs) =
    ap₂ ◌∷◌ (ground (arith, fill-before (update a i v) (suc i) vs i))
      (slice-fill (update a i v) (suc i) vs)

pub length-slice : (a : Array) (i n : ℕ) → length (slice a i n) ≡ n
length-slice a i zero = refl
length-slice a i (suc n) = ap suc (length-slice a (suc i) n)

pub slice_ext :
    (a b : Array) (i n : ℕ) → ((j : ℕ) → i ≤ j → j < i + n → a j ≡ b j) → slice a i n ≡ slice b i n
slice_ext a b i zero h = refl
slice_ext a b i (suc n) h =
    ap₂ ◌∷◌ (h i (omega arith) (omega arith))
      (slice_ext a b (suc i) n λ j p q. h j (omega arith) (omega arith))

-- What stands in an array after such a loop of writes: a prefix, and one element.
pub slice-fill-append :
    (a : Array) (i : ℕ) (ps qs : List ℕ) → slice (fill a i (ps ++ qs)) i (length ps) ≡ ps
unfolding fill
slice-fill-append a i [] qs = refl
slice-fill-append a i (p ∷ ps) qs =
    ap₂ ◌∷◌ (ground (arith, fill-before (update a i p) (suc i) (ps ++ qs) i))
      (slice-fill-append (update a i p) (suc i) ps qs)

pub fill-at :
    (a : Array) (i : ℕ) (ps : List ℕ) (q : ℕ) (qs : List ℕ)
    → fill a i (ps ++ q ∷ qs) (i + length ps) ≡ q
unfolding fill
fill-at a i [] q qs = ground (arith, fill-before (update a i q) (suc i) qs i)
fill-at a i (p ∷ ps) q qs =
    ap (fill (update a i p) (suc i) (ps ++ q ∷ qs)) (shift i (length ps))
    ∙ fill-at (update a i p) (suc i) ps q qs
  where
    shift : (m n : ℕ) → m + suc n ≡ suc m + n
    shift m n = omega arith

-- Two loops of writes, one where the other stopped.
pub fill-append :
    (a : Array) (i : ℕ) (ps qs : List ℕ)
    → fill a i (ps ++ qs) ≡ fill (fill a i ps) (i + length ps) qs
unfolding fill
fill-append a i [] qs = ap (λ n. fill a n qs) (omega arith)
fill-append a i (p ∷ ps) qs =
    fill-append (update a i p) (suc i) ps qs
    ∙ ap (λ n. fill (fill (update a i p) (suc i) ps) n qs) (omega arith)
