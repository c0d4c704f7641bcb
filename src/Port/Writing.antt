-- ===== src/Port/Writing.antt =====
-- The bytes that `WriteData` hands to the operating system.
use e_ssp.Base.{
  ℕ, zero, suc, ◌+◌, ◌-◌, ◌≤◌, ◌<◌, true, false, none, some, List, [], ◌∷◌, ◌++◌, length, take,
  drop, take-append-drop, drop-drop, length-drop, All, Run, ok, ◌>>◌, ◌≡◌, refl, sym, ap, ◌∙◌,
  arith,
}
use mathlib.Core.List.{append-nil, append_assoc}
use e_ssp.Port.{WriteCall, Written, taken, wait_transmit, write_loop, write_data}

-- The call finds room, after a queue that is empty in the end.
pub record Takes (c : WriteCall) : Type 0 where
  pub drained : wait_transmit c.queue ≡ ok tt
  pub room : ℕ
  pub found : c.room ≡ some room
  pub some_room : 0 < room

no_bytes : (xs : List ℕ) → length xs ≡ 0 → xs ≡ []
no_bytes [] h = refl
no_bytes (x ∷ xs) h = absurd (omega arith)

taken-pos : (room asked : ℕ) → 0 < room → 0 < asked → 0 < taken room asked
taken-pos room asked h k = ground arith

taken-le : (room asked : ℕ) → taken room asked ≤ asked
taken-le room asked = ground arith

write_step :
    (c : WriteCall) (calls : List WriteCall) (bytes : List ℕ) (offset left : ℕ) (sent : List ℕ)
    (h : Takes c)
    → write_loop (c ∷ calls) bytes offset (suc left) sent
      ≡ write_loop calls bytes
          (offset + taken h.room (suc left))
          (suc left - taken h.room (suc left))
          (sent ++ take (taken h.room (suc left)) (drop offset bytes))
unfolding write_loop
write_step c calls bytes offset left sent h =
    let after : ℕ → Run Written = λ room.
      write_loop calls bytes (offset + taken room (suc left)) (suc left - taken room (suc left))
        (sent ++ take (taken room (suc left)) (drop offset bytes)) in
    ap
      (λ r. r >> elim c.room [
        | none ↦ ok (record { success = false; sent = sent })
        | some room ↦ after room
      ])
      h.drained
    ∙ ap
        (λ r. elim r [
          | none ↦ ok (record { success = false; sent = sent })
          | some room ↦ after room
        ])
        h.found

write_done :
    (calls : List WriteCall) (bytes : List ℕ) (offset : ℕ) (sent : List ℕ)
    → write_loop calls bytes offset 0 sent ≡ ok (record { success = true; sent = sent })
unfolding write_loop
write_done calls bytes offset sent = refl

abbrev whole : List ℕ → Run Written
whole xs = ok (record { success = true; sent = xs })

-- The bytes from the offset on go out in order.
write_loop-sent :
    (calls : List WriteCall) (bytes : List ℕ) (offset left : ℕ) (sent : List ℕ)
    → All Takes calls
    → left ≤ length calls
    → offset + left ≡ length bytes
    → write_loop calls bytes offset left sent
      ≡ ok (record { success = true; sent = sent ++ drop offset bytes })
write_loop-sent calls bytes offset zero sent all h e =
    write_done calls bytes offset sent
    ∙ ap whole (
        sym (append-nil sent)
        ∙ ap (λ t. sent ++ t)
            (sym (no_bytes (drop offset bytes) (omega (arith, length-drop offset bytes)))))
write_loop-sent [] bytes offset (suc left) sent all h e = absurd (omega arith)
write_loop-sent (c ∷ calls) bytes offset (suc left) sent all h e =
    let n = taken all.0.room (suc left) in
    let pos = taken-pos all.0.room (suc left) all.0.some_room (omega arith) in
    let le = taken-le all.0.room (suc left) in
    let rest = drop offset bytes in
    write_step c calls bytes offset left sent all.0
    ∙ write_loop-sent calls bytes (offset + n) (suc left - n) (sent ++ take n rest) all.1
        (omega (arith, pos)) (omega (arith, le))
    ∙ ap whole (
        append_assoc sent (take n rest) (drop (offset + n) bytes)
        ∙ ap (λ t. sent ++ t)
            (ap (λ t. take n rest ++ t) (sym (drop-drop n offset bytes)) ∙ take-append-drop n rest))

-- When the queue of the port drains before each call of `write`, each call finds room for a byte or
-- more, and there are as many calls as bytes, then `WriteData` returns 1 and the calls took the
-- bytes, all of them and in order, however they were cut.
pub write_data-sent :
    (calls : List WriteCall) (bytes : List ℕ)
    → All Takes calls
    → length bytes ≤ length calls
    → write_data calls bytes ≡ ok (record { success = true; sent = bytes })
unfolding write_data
write_data-sent calls bytes all h =
    write_loop-sent calls bytes 0 (length bytes) [] all h (omega arith)
