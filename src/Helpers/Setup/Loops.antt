-- ===== src/Helpers/Setup/Loops.antt =====
-- The loops of `ssp6_setup_request` over the channels: what they leave, and where they end.
use native.Mathlib.Nat.{suc-mul}
use e_ssp.Base.{
  ℕ, zero, suc, ◌+◌, ◌*◌, ◌≤◌, ◌<◌, lt→ltb, le→leb, ok, ◌≡◌, refl, sym, ap, ap₂, ◌∙◌, arith,
}
use e_ssp.Helpers.Setup.{Channel6, put_channel, channel_loop}

module _ (width : ℕ) (step : ℕ → Channel6 → Channel6) where
  -- The channels after such a loop.
  unfoldable pub applied : ℕ → ℕ → ℕ → (ℕ → Channel6) → ℕ → Channel6
  applied zero k offset channels = channels
  applied (suc left) k offset channels =
      applied left (suc k) (offset + width) (put_channel channels k (step offset (channels k)))

  pub channel_loop-applied :
      (left k offset : ℕ) (channels : ℕ → Channel6)
      → k + left ≤ 20
      → offset + left * width ≤ 255
      → channel_loop width step left k offset channels
        ≡ ok (offset + left * width, applied left k offset channels)
  unfolding channel_loop applied
  channel_loop-applied zero k offset channels few room = ap (λ n. ok (n, channels)) (omega arith)
  channel_loop-applied (suc left) k offset channels few room =
      let next : offset + width + left * width ≡ offset + suc left * width =
        omega (arith, suc-mul left width) in
      rw
        (
          lt→ltb k 20 (omega arith),
          le→leb (offset + width) 255 (omega (arith, suc-mul left width)),
          channel_loop-applied left (suc k) (offset + width)
              (put_channel channels k (step offset (channels k))) (omega arith)
              (omega (arith, next)),
        )
        (ap
          (λ n. ok (
            n,
            applied left (suc k) (offset + width)
                (put_channel channels k (step offset (channels k))),
          ))
          next)

  applied-before :
      (left k offset : ℕ) (channels : ℕ → Channel6) (j : ℕ)
      → j < k
      → applied left k offset channels j ≡ channels j
  unfolding applied
  applied-before zero k offset channels j h = refl
  applied-before (suc left) k offset channels j h =
      applied-before left (suc k) (offset + width) _ j (omega arith) ∙ ground arith

  pub applied-at :
      (left k offset : ℕ) (channels : ℕ → Channel6) (j d : ℕ)
      → d < left
      → j ≡ k + d
      → applied left k offset channels j ≡ step (offset + d * width) (channels j)
  unfolding applied
  applied-at zero k offset channels j d h e = absurd (omega arith)
  applied-at (suc left) k offset channels j zero h e =
      let here : j ≡ k = omega arith in
      applied-before left (suc k) (offset + width) _ j (omega arith)
      ∙ rw here (ground arith)
      ∙ ap₂ (λ o i. step o (channels i)) {x = offset} {y = offset + 0 * width} (omega arith)
          (sym here)
  applied-at (suc left) k offset channels j (suc d) h e =
      applied-at left (suc k) (offset + width) _ j d (omega arith) (omega arith)
      ∙ ap₂ step (omega (arith, suc-mul d width)) (ground arith)
